-- ===== src/Protocol/Transition/Accepted.antt =====
-- What an accepted status change leaves behind.
use mathlib.Core.Bool.{true≢false}
use parchment.Prelude.{
  ℕ, zero, suc, ◌<◌, String, Bool, false, Option, none, some, ◌≡◌, ◌≢◌, ◌⊎◌, inl, inr, refl, sym,
  ap, ◌∙◌, subst, arith, Option-cases, eq-false, eq_refl, if◌then◌else◌,
}
use parchment.Dict.{Dict}
use parchment.Artifact.{Artifact}
use parchment.Artifact.Labels.{status_from_labels}
use parchment.Store.{Edge}
use parchment.Store.Artifacts.{get}
use parchment.Store.Result.{ok}
use parchment.Store.Valid.{IsValid}
use parchment.Protocol.Admission.{Config, Refusal, admission}
use parchment.Protocol.Kinds.{is_terminal}
use parchment.Protocol.Transition.{
  Run, Task, setting, climbing, answered, apply_status, perform, work_complete, after_transition,
}
use parchment.Protocol.Transition.Write.{
  Sound, Sound-apply_status, status-apply_status, id-apply_status, get-apply_status,
}
use parchment.Protocol.Transition.Rule.{Parent, Ends, Runs, climbing-Ends, after_transition-Ends}
use parchment.Protocol.Transition.Ends.{Within, Parent-Within}
use parchment.Protocol.Transition.Near.{Above, parent, higher, perform-Keeping, id_of}

-- above a node, the ways up are shorter
Above-Within :
    (es : Dict Edge) (h : ℕ) (id p : String)
    → Within es h id
    → Above es id p
    → (k : ℕ) × Within es k p × (k < h)
Above-Within es h id p w (parent q) =
    let (k, v, e) = Parent-Within es h id p w q in (k, v, omega (arith, e))
Above-Within es h id p w (higher {p = m} a e) =
    let (k, v, less) = Above-Within es h id m w a in
    let (j, u, same) = Parent-Within es k m p v e in (j, u, omega (arith, less, same))

-- where the ways up end, nothing stands above itself
Above-irrefl : (es : Dict Edge) (b h : ℕ) (id : String) → h < b → Within es h id → ¬ Above es id id
Above-irrefl es zero h id lt w a = absurd (omega (arith, lt))
Above-irrefl es (suc b) h id lt w a =
    let (k, v, less) = Above-Within es h id id w a in
    Above-irrefl es b k id (omega (arith, lt, less)) v a

module _ (cfg : Config) (art : Artifact) (status : String) (r : Run) where
  abbrev changed : Artifact × Run
  changed = apply_status cfg r art status

  abbrev Holding : Dict Edge → Run → Type 0
  Holding es x = Sound es x × (get x.store art.id ≡ ok changed.0)

  Holding-apply_status :
      (es : Dict Edge)
      → ¬ Above es art.id art.id
      → (x : Run) (a : Artifact) (s : String) → Above es art.id a.id
      → Holding es x
      → Holding es (apply_status cfg x a s).1
  Holding-apply_status es apart x a s above (sound, held) = (
    Sound-apply_status cfg x a s es sound,
    get-apply_status cfg x a s art.id
        ∙ rw (eq-false a.id art.id (λ q. apart (subst (Above es art.id) q above)), if◌then◌else◌)
            held,
  )

  Above-Parent :
      (es : Dict Edge) (p c : String) → Parent es p c → Above es art.id c → Above es art.id p
  Above-Parent es p c q a = higher a q

  module _ (es : Dict Edge) (apart : ¬ Above es art.id art.id) (n : ℕ) where
    -- a call above the artifact leaves it as it is
    keeping :
        (task : Task)
        → Above es art.id (id_of task)
        → Runs cfg es Unit (Holding es) (λ x h. h.0) (perform cfg n) task
    keeping task =
        perform-Keeping cfg es (Holding es) (Above es art.id) (λ x h. h.0) (Above-Parent es)
          (Holding-apply_status es apart) n task

  reopening :
      (es : Dict Edge)
      → ¬ Above es art.id art.id
      → (n : ℕ) → is_terminal cfg.traits status ≡ false
      → Runs cfg es Unit (Holding es) (λ x h. h.0) (perform cfg n) (climbing changed.0)
  unfolding perform
  reopening es apart zero pending x h = tt
  reopening es apart (suc n) pending x h =
      climbing-Ends cfg es Unit (Holding es) (λ x h. h.0) n changed.0 x
        (λ done. absurd (
          true≢false (
            sym done
            ∙ ap (is_terminal cfg.traits) (status-apply_status cfg r art status)
            ∙ pending)))
        (λ p q.
          keeping es apart n (climbing p)
            (parent (subst (Parent es p.id) (id-apply_status cfg r art status) q)))
        h

  followed :
      (es : Dict Edge)
      → ¬ Above es art.id art.id
      → (n : ℕ) (old : String) → Holding es changed.1
      → Ends cfg es Unit
          (Holding es)
          (λ x h. h.0)
          (after_transition cfg (perform cfg n) changed.0 old status changed.1)
  followed es apart n old h =
      after_transition-Ends cfg es Unit (Holding es) (λ x h. h.0) (perform cfg n) changed.0 old
        status
        (λ _ p q.
          keeping es apart n (setting p work_complete false)
            (parent (subst (Parent es p.id) (id-apply_status cfg r art status) q)))
        (reopening es apart n) changed.1 h

module _ (cfg : Config) (n : ℕ) (art : Artifact) (status : String) (force : Bool) (r : Run) where
  refusing :
      (x : Refusal)
      → admission cfg r.store art status force ≡ some x
      → perform cfg (suc n) (setting art status force) r ≡ some (some x, r)
  unfolding perform
  refusing x q = rw (perform, q) refl

  accepting :
      admission cfg r.store art status force ≡ none
      → perform cfg (suc n) (setting art status force) r
        ≡ answered none (
            after_transition cfg
              (perform cfg n)
              (apply_status cfg r art status).0
              (status_from_labels art.labels)
              status
              (apply_status cfg r art status).1)
  unfolding perform
  accepting q = rw (perform, q) refl

out_of_fuel :
    (cfg : Config) (task : Task) (r : Run) (a : Option Refusal × Run)
    → ¬ (perform cfg zero task r ≡ some a)
unfolding perform
out_of_fuel cfg task r a q = ground arith

refused_inj :
    (x : Refusal) (r r' : Run) (e : Option Refusal)
    → Path (Option (Option Refusal × Run)) (some (some x, r)) (some (e, r'))
    → (some x ≡ e) × (e ≢ none) × (r' ≡ r)
refused_inj x r r' none q = absurd (ground arith)
refused_inj x r r' (some y) q = (ground arith, λ wrong. absurd (ground arith), ground arith)

answered_inj :
    (o : Option Run) (e : Option Refusal) (r : Run)
    → answered none o ≡ some (e, r)
    → (o ≡ some r) × (e ≡ none)
answered_inj none e r q = absurd (ground arith)
answered_inj (some x) e r q = (ground arith, ground arith)

get-changed :
    (cfg : Config) (art : Artifact) (status : String) (r : Run)
    → get (changed cfg art status r).1.store art.id ≡ ok (changed cfg art status r).0
get-changed cfg art status r =
    get-apply_status cfg r art status art.id ∙ rw (eq_refl art.id, if◌then◌else◌) refl

-- Where going up from the artifact along stored parent_of edges ends, a call of setStatusForce that is
-- answered without an error has passed every check on the way in, and leaves the artifact under its ID
-- with the new status, whatever the completions or the reopenings of its parents then did. A call that
-- is answered with an error has left everything as it was, and the error is the one of the checks.
pub perform_answers :
    (cfg : Config) (n : ℕ) (art : Artifact) (status : String) (force : Bool) (r r' : Run)
    → (e : Option Refusal) (h : ℕ) → IsValid r.store
    → Within r.store.edges h art.id
    → perform cfg n (setting art status force) r ≡ some (e, r')
    → (admission cfg r.store art status force ≡ e)
      × (((e ≢ none) × (r' ≡ r))
          ⊎ ((e ≡ none)
              × ((a : Artifact) × (get r'.store art.id ≡ ok a)
                  × (status_from_labels a.labels ≡ status)
                  × (a.id ≡ art.id))))
perform_answers cfg zero art status force r r' e h v w q = absurd (out_of_fuel cfg _ r _ q)
perform_answers cfg (suc n) art status force r r' e h v w q =
    elim (Option-cases (admission cfg r.store art status force)) [
      | inr (x, refused) ↦
          let (same, wrong, kept) =
            refused_inj x r r' e (sym (refusing cfg n art status force r x refused) ∙ q) in
          (refused ∙ same, inl (wrong, kept))
      | inl accepted ↦
          let (o, is_none) =
            answered_inj _ e r' (sym (accepting cfg n art status force r accepted) ∙ q) in
          let (_, held) =
            subst
              (Ends cfg r.store.edges Unit (Holding cfg art status r r.store.edges) (λ x h. h.0)) o
              (followed cfg art status r r.store.edges
                (Above-irrefl r.store.edges (suc h) h art.id (omega arith) w) n _
                (
                  Sound-apply_status cfg r art status r.store.edges (refl, v),
                  get-changed cfg art status r,
                )) in
          (
            accepted ∙ sym is_none,
            inr (
              is_none,
              (
                (apply_status cfg r art status).0,
                held,
                status-apply_status cfg r art status,
                id-apply_status cfg r art status,
              ),
            ),
          )
    ]
