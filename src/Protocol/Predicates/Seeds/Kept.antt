-- ===== src/Protocol/Predicates/Seeds/Kept.antt =====
-- Seeding, and what is read back of it.
use mathlib.Core.List.Memᴰ
use parchment.Prelude.{
  ℕ, String, List, [], ◌∷◌, ◌≡◌, ◌≢◌, refl, sym, ap, ◌∙◌, eq_refl, eq-false, if◌then◌else◌,
  has_prefix, trim_prefix, Memᴰ, Bool-cases, String-cases, ◌⊎◌, inl, inr, subst,
}
use parchment.Prelude.Scanning.{trim_space, is_space}
use parchment.Artifact.{Artifact}
use parchment.Artifact.Labels.{label_value}
use parchment.Store.{MemoryStore}
use parchment.Store.Artifacts.{get, put}
use parchment.Store.Artifacts.Writing.{get-put_returned}
use parchment.Store.Result.{Result, ok, err}
use parchment.Protocol.Predicates.{rule, parse_rule, section_text, or_text, rule_action_block}
use parchment.Protocol.Predicates.Seeds.{RuleYaml, rule_id, rule_artifact, seed_rule, seed_rules}

trim_space-true : trim_space "true" ≡ "true"
unfolding trim_space is_space
trim_space-true = refl

trim_space-empty : trim_space "" ≡ ""
unfolding trim_space
trim_space-empty = refl

-- A rule that is seeded is read back as it was brought along, with the spaces around its texts removed,
-- the action `block` if it names none and a message that the caller makes if it has none.
pub parse_rule-rule_artifact :
    (default_message : String → String) (now : ℕ) (r : RuleYaml)
    → trim_space r.trigger ≢ ""
    → trim_space r.when ≢ ""
    → parse_rule default_message (rule_artifact now r)
      ≡ rule (record {
        id = rule_id r;
        title = r.name;
        trigger = trim_space r.trigger;
        when = trim_space r.when;
        action = or_text (trim_space r.action) rule_action_block;
        forceable = r.forceable;
        check = trim_space r.check;
        message = or_text (trim_space r.message) (default_message r.name);
      })
unfolding parse_rule rule_artifact section_text label_value has_prefix trim_prefix
parse_rule-rule_artifact default_message now r t w =
    let x = eq-false (trim_space r.trigger) "" t in
    let y = eq-false (trim_space r.when) "" w in
    elim (Bool-cases r.forceable) [
      | inl f ↦ elim (String-cases r.check "") [
        | inl (q, c) ↦
            rw (f, c, x, y, trim_space-true, ap trim_space q ∙ trim_space-empty, if◌then◌else◌) refl
        | inr (_, c) ↦ rw (f, c, x, y, trim_space-true, if◌then◌else◌) refl
      ]
      | inr f ↦ elim (String-cases r.check "") [
        | inl (q, c) ↦ rw (f, c, x, y, ap trim_space q ∙ trim_space-empty, if◌then◌else◌) refl
        | inr (_, c) ↦ rw (f, c, x, y, if◌then◌else◌) refl
      ]
    ]

abbrev IsStored : MemoryStore → String → Type 0
IsStored m id = (art : Artifact) × (get m id ≡ ok art)

Result-cases : (o : Result Artifact) → ((art : Artifact) × (o ≡ ok art)) ⊎ ((e : _) × (o ≡ err e))
Result-cases (ok art) = inl (art, refl)
Result-cases (err e) = inr (e, refl)

seed_rule-get :
    (now : ℕ) (m : MemoryStore) (r : RuleYaml) (o : Result Artifact)
    → get m (rule_id r) ≡ o
    → IsStored (seed_rule now m r o) (rule_id r)
unfolding rule_artifact
seed_rule-get now m r (ok art) q = (art, q)
seed_rule-get now m r (err e) q =
    let art = rule_artifact now r in
    (
      (put now m art).0,
      get-put_returned now m art (rule_id r) ∙ rw (eq_refl (rule_id r), if◌then◌else◌) refl,
    )

seed_rule-keep :
    (now : ℕ) (m : MemoryStore) (r : RuleYaml) (o : Result Artifact)
    → get m (rule_id r) ≡ o
    → (id : String) (art : Artifact) → get m id ≡ ok art
    → get (seed_rule now m r o) id ≡ ok art
unfolding rule_artifact
seed_rule-keep now m r (ok _) missing id art h = h
seed_rule-keep now m r (err e) missing id art h =
    get-put_returned now m (rule_artifact now r) id ∙ elim (String-cases (rule_id r) id) [
      | inl (q, _) ↦ cc (sym missing ∙ ap (get m) q ∙ h)
      | inr (_, n) ↦ rw (n, if◌then◌else◌) h
    ]

-- Seeding leaves every artifact as it was that is already there, a rule that was edited too.
pub get-seed_rules :
    (now : ℕ) (m : MemoryStore) (rs : List RuleYaml) (id : String) (art : Artifact)
    → get m id ≡ ok art
    → get (seed_rules now m rs) id ≡ ok art
unfolding seed_rules
get-seed_rules now m [] id art h = h
get-seed_rules now m (r ∷ rs) id art h =
    get-seed_rules now (seed_rule now m r (get m (rule_id r))) rs id art
      (seed_rule-keep now m r (get m (rule_id r)) refl id art h)

seed_rules-get :
    (now : ℕ) (m : MemoryStore) (rs : List RuleYaml) (r : RuleYaml)
    → Memᴰ r rs
    → IsStored (seed_rules now m rs) (rule_id r)
unfolding seed_rules
seed_rules-get now m [] r i = absurd (Memᴰ.not-nil i)
seed_rules-get now m (x ∷ rs) r i =
    let m' = seed_rule now m x (get m (rule_id x)) in
    elim (Memᴰ.cases_cons i) [
      | inl q ↦ keep m' (
          subst (λ z. IsStored m' (rule_id z)) (sym q)
            (seed_rule-get now m x (get m (rule_id x)) refl))
      | inr later ↦ seed_rules-get now m' rs r later
    ]
  where
    keep : (t : MemoryStore) → IsStored t (rule_id r) → IsStored (seed_rules now t rs) (rule_id r)
    keep t (art, h) = (art, get-seed_rules now t rs (rule_id r) art h)

seed_rules-nothing :
    (now : ℕ) (m : MemoryStore) (rs : List RuleYaml)
    → ((r : RuleYaml) → Memᴰ r rs → IsStored m (rule_id r))
    → seed_rules now m rs ≡ m
unfolding seed_rules
seed_rules-nothing now m [] h = refl
seed_rules-nothing now m (r ∷ rs) h =
    let (art, q) = h r (Memᴰ.head refl) in
    rw q (seed_rules-nothing now m rs (λ x i. h x (Memᴰ.tail i)))

-- Seeding the same rules once more, at any later time, changes nothing.
pub seed_rules_idem :
    (now later : ℕ) (m : MemoryStore) (rs : List RuleYaml)
    → seed_rules later (seed_rules now m rs) rs ≡ seed_rules now m rs
seed_rules_idem now later m rs =
    seed_rules-nothing later (seed_rules now m rs) rs (seed_rules-get now m rs)
