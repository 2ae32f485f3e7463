-- ===== src/Protocol/Admission/Passed.antt =====
-- When a status change is let through.
use mathlib.Core.List.Memᴰ
use mathlib.Core.Bool.{true≢false}
use parchment.Prelude.{
  String, Bool, true, false, ◌&&◌, Option, none, some, List, [], ◌∷◌, ◌≡◌, ◌↔◌, ◌⊎◌, ◌≢◌, inl, inr,
  refl, sym, ap, ◌∙◌, arith, Memᴰ, Bool-cases, if◌then◌else◌, ◌==◌, eq_iff, subst, mem→any_of,
}
use parchment.Artifact.{Artifact}
use parchment.Store.{MemoryStore, Edge}
use parchment.Store.Artifacts.{get}
use parchment.Store.Edges.{neighbors, outgoing}
use parchment.Store.Edges.Neighbors.{HasKeys, Stored, mem-neighbors}
use parchment.Store.Result.{ok}
use parchment.Protocol.Admission.{
  Config, GateAnswer, QualityGate, Refusal, failed, result, is_done, kind_of, rel_depends_on,
  depends_on_incomplete, evaluate_builtin_check, rule_blocks, first_rule, gate_refusal, first_gate,
  admission, verdict_refusal, or_refusal,
}
use parchment.Protocol.Kinds.{Traits, is_terminal}
use parchment.Protocol.Predicates.{RuleDef, matches_predicate}
use parchment.Protocol.Statuses.{
  Verdict, accepted, status_required, not_in_lifecycle, no_transition, unknown_status,
  validate_status,
}
use parchment.Artifact.Labels.{status_from_labels}

-- the gate has answered, and not with a failed check of the blocking kind
abbrev pub LetsThrough : GateAnswer → Type 0
LetsThrough failed = ⊥
LetsThrough (result passed severity) = (passed ≡ true) ⊎ ¬ (severity ≡ "blocking")

gate_refusal_iff : (name : String) (a : GateAnswer) → (gate_refusal name a ≡ none) ↔ LetsThrough a
gate_refusal_iff name failed = (λ q. absurd (ground arith), λ h. absurd h)
gate_refusal_iff name (result passed severity) = (
  λ q. ground (arith, eq_iff severity "blocking"),
  λ h. ground (arith, eq_iff severity "blocking"),
)

or_refusal_iff : (a b : Option Refusal) → (or_refusal a b ≡ none) ↔ ((a ≡ none) × (b ≡ none))
or_refusal_iff none b = (λ q. (refl, q), λ h. h.1)
or_refusal_iff (some e) b = (λ q. absurd (ground arith), λ h. h.0)

every-cons {ℓ ℓ'} :
    {A : Type ℓ} (P : A → Type ℓ') (y : A) (ys : List A)
    → (P y × ((x : A) → Memᴰ x ys → P x)) ↔ ((x : A) → Memᴰ x (y ∷ ys) → P x)
every-cons P y ys = (
  λ (h, t) x mem. elim (Memᴰ.cases_cons mem) [ inl q ↦ subst P (sym q) h | inr r ↦ t x r ],
  λ f. (f y (Memᴰ.head refl), λ x mem. f x (Memᴰ.tail mem)),
)

first_gate_iff :
    (art : Artifact) (gates : List QualityGate)
    → (first_gate art gates ≡ none)
      ↔ ((gate : QualityGate) → Memᴰ gate gates → LetsThrough (gate.validate art))
unfolding first_gate
first_gate_iff art [] = (λ _ gate h. absurd (Memᴰ.not-nil h), λ _. refl)
first_gate_iff art (g ∷ gates) = (
  λ q.
      let (a, b) =
        (or_refusal_iff (gate_refusal g.name (g.validate art)) (first_gate art gates)).0 q in
      (every-cons (λ x. LetsThrough (x.validate art)) g gates).0
        ((gate_refusal_iff g.name (g.validate art)).0 a, (first_gate_iff art gates).0 b),
  λ h.
      let (a, b) = (every-cons (λ x. LetsThrough (x.validate art)) g gates).1 h in
      (or_refusal_iff (gate_refusal g.name (g.validate art)) (first_gate art gates)).1
        ((gate_refusal_iff g.name (g.validate art)).1 a, (first_gate_iff art gates).1 b),
)

module _ (traits : Traits) (m : MemoryStore) (art : Artifact) (status : String) (force : Bool) where
  -- the rule does not block the change
  abbrev pub Permits : RuleDef → Type 0
  Permits rule = rule_blocks traits m art status force rule ≡ false

  first_rule-cons :
      (x : RuleDef) (rules : List RuleDef)
      → (first_rule traits m art status force (x ∷ rules) ≡ none)
        ↔ (Permits x × (first_rule traits m art status force rules ≡ none))
  unfolding first_rule
  first_rule-cons x rules = elim (Bool-cases (rule_blocks traits m art status force x)) [
    | inl e ↦ (λ q. absurd (ground arith), λ (p, _). absurd (true≢false (sym e ∙ p)))
    | inr e ↦ (λ q. (e, ground arith), λ (p, q). ground arith)
  ]

  first_rule_iff :
      (rules : List RuleDef)
      → (first_rule traits m art status force rules ≡ none)
        ↔ ((rule : RuleDef) → Memᴰ rule rules → Permits rule)
  first_rule_iff [] = (λ _ rule h. absurd (Memᴰ.not-nil h), λ _. unfold first_rule in refl)
  first_rule_iff (x ∷ rules) = (
    λ q.
        let (p, rest) = (first_rule-cons x rules).0 q in
        (every-cons Permits x rules).0 (p, (first_rule_iff rules).0 rest),
    λ h.
        let (p, rest) = (every-cons Permits x rules).1 h in
        (first_rule-cons x rules).1 (p, (first_rule_iff rules).1 rest),
  )

verdict_refusal_iff :
    (force : Bool) (v : Verdict)
    → (verdict_refusal force v ≡ none) ↔ ((force ≡ true) ⊎ (v ≡ accepted))
verdict_refusal_iff force accepted = (λ _. inr refl, λ _. refl)
verdict_refusal_iff force status_required = (λ q. inl (ground arith), λ h. ground arith)
verdict_refusal_iff force not_in_lifecycle = (λ q. inl (ground arith), λ h. ground arith)
verdict_refusal_iff force no_transition = (λ q. inl (ground arith), λ h. ground arith)
verdict_refusal_iff force unknown_status = (λ q. inl (ground arith), λ h. ground arith)

gates_iff :
    (art : Artifact) (gates : List QualityGate) (b : Bool)
    → ((if b then first_gate art gates else none) ≡ none)
      ↔ (b ≡ true → (gate : QualityGate) → Memᴰ gate gates → LetsThrough (gate.validate art))
gates_iff art gates true =
    (λ q _. (first_gate_iff art gates).0 q, λ h. (first_gate_iff art gates).1 (h refl))
gates_iff art gates false = (λ q e. absurd (true≢false (sym e)), λ h. refl)

-- `setStatusForce` reaches the write exactly when the lifecycle of the kind allows the change, or the
-- change is forced, and no rule blocks it, and, where the new status is a terminal one, every quality
-- gate answers without an error and not with a failed check of the blocking kind.
pub admission_iff :
    (cfg : Config) (m : MemoryStore) (art : Artifact) (status : String) (force : Bool)
    → (admission cfg m art status force ≡ none) ↔ (
        ((force ≡ true)
          ⊎ (validate_status cfg.traits (kind_of art) (status_from_labels art.labels) status
              ≡ accepted))
        × ((rule : RuleDef) → Memᴰ rule cfg.rules → Permits cfg.traits m art status force rule)
        × (is_terminal cfg.traits status ≡ true
            → (gate : QualityGate) → Memᴰ gate cfg.gates
            → LetsThrough (gate.validate art)))
unfolding admission
admission_iff cfg m art status force =
    let verdict =
      verdict_refusal force
        (validate_status cfg.traits (kind_of art) (status_from_labels art.labels) status) in
    let rules = first_rule cfg.traits m art status force cfg.rules in
    let gates = if is_terminal cfg.traits status then first_gate art cfg.gates else none in
    (
      λ q.
          let (a, bc) = (or_refusal_iff verdict (or_refusal rules gates)).0 q in
          let (b, c) = (or_refusal_iff rules gates).0 bc in
          (
            (verdict_refusal_iff force _).0 a,
            (first_rule_iff cfg.traits m art status force cfg.rules).0 b,
            (gates_iff art cfg.gates _).0 c,
          ),
      λ (a, b, c). (or_refusal_iff verdict (or_refusal rules gates)).1 (
        (verdict_refusal_iff force _).1 a,
        (or_refusal_iff rules gates).1 (
          (first_rule_iff cfg.traits m art status force cfg.rules).1 b,
          (gates_iff art cfg.gates _).1 c,
        ),
      ),
    )

-- what a rule that permits the change says of its own check
check-Permits :
    (traits : Traits) (m : MemoryStore) (art : Artifact) (status : String) (force : Bool)
    (rule : RuleDef)
    → (force && rule.forceable) ≡ false
    → (rule.check == "") ≡ false
    → matches_predicate rule.when art status ≡ true
    → Permits traits m art status force rule
    → evaluate_builtin_check traits m rule.check art ≡ false
unfolding rule_blocks
check-Permits traits m art status force rule forced named covered p = ground arith

dependencies_check :
    (traits : Traits) (m : MemoryStore) (art : Artifact)
    → evaluate_builtin_check traits m "depends_on_complete" art ≡ depends_on_incomplete traits m art
unfolding evaluate_builtin_check
dependencies_check traits m art = refl

done-depends_on :
    (traits : Traits) (m : MemoryStore) (art dep : Artifact) (e : Edge)
    → depends_on_incomplete traits m art ≡ false
    → Memᴰ e (neighbors m art.id rel_depends_on outgoing)
    → get m e.to ≡ ok dep
    → is_done traits dep ≡ true
unfolding depends_on_incomplete
done-depends_on traits m art dep e none_pending mem q = elim (Bool-cases (is_done traits dep)) [
  | inl done ↦ done
  | inr pending ↦
      absurd (true≢false (sym (mem→any_of _ _ e mem (rw q (ground arith))) ∙ none_pending))
]

-- With the rule for dependencies among the rules, and not forced past, no change that the rule's
-- condition covers gets through while an artifact that is stored and that a stored depends_on edge leads
-- to has no terminal status.
pub admission-depends_on :
    (cfg : Config) (m : MemoryStore) (art dep : Artifact) (status : String) (force : Bool)
    → (rule : RuleDef) (e : Edge) → HasKeys m.edges
    → Memᴰ rule cfg.rules
    → rule.check ≡ "depends_on_complete"
    → (force && rule.forceable) ≡ false
    → matches_predicate rule.when art status ≡ true
    → Stored m e
    → e.relation ≡ rel_depends_on
    → e.from ≡ art.id
    → get m e.to ≡ ok dep
    → is_done cfg.traits dep ≡ false
    → admission cfg m art status force ≢ none
admission-depends_on cfg m art dep status force rule e keys mem check forced covered stored rel from
      found pending passed =
    let (_, permits, _) = (admission_iff cfg m art status force).0 passed in
    true≢false (
      sym (
        done-depends_on cfg.traits m art dep e (complete (permits rule mem))
          ((mem-neighbors m art.id rel_depends_on outgoing e keys).1 (stored, inr rel, from)) found)
      ∙ pending)
  where
    complete :
        Permits cfg.traits m art status force rule → depends_on_incomplete cfg.traits m art ≡ false
    complete p =
        sym (dependencies_check cfg.traits m art)
        ∙ ap (λ c. evaluate_builtin_check cfg.traits m c art) (sym check)
        ∙ check-Permits cfg.traits m art status force rule forced (ap (λ c. c == "") check) covered
            p
