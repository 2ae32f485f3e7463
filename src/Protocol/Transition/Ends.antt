-- ===== src/Protocol/Transition/Ends.antt =====
-- Status changes come to an end: the fuel that is enough for them.
use mathlib.Core.Bool.{true≢false}
use parchment.Prelude.{
  ℕ, zero, suc, ◌+◌, ◌*◌, ◌≤◌, String, Bool, true, false, Option, none, some, ◌≡◌, ◌⊎◌, inl, inr,
  refl, sym, ap, ◌∙◌, subst, arith,
}
use parchment.Dict.{Dict}
use parchment.Artifact.{Artifact}
use parchment.Store.{Edge}
use parchment.Store.Valid.{IsValid}
use parchment.Protocol.Admission.{Config, Refusal, is_done}
use parchment.Protocol.Kinds.{is_terminal}
use parchment.Protocol.Transition.{
  Run, Task, setting, climbing, state_of, apply_status, perform, Answer, work_complete,
  reopened_status,
}
use parchment.Protocol.Transition.Write.{
  Sound, Sound-apply_status, status-apply_status, id-apply_status,
}
use parchment.Protocol.Transition.Rule.{Parent, Ends, Runs, setting-Ends, climbing-Ends}

-- Going up from the node along its parents, and theirs, ends after at most so many steps.
abbrev pub Within : Dict Edge → ℕ → String → Type 0
Within es zero id = (p : String) → ¬ Parent es p id
Within es (suc h) id = (p : String) → Parent es p id → Within es h p

-- the fuel that is enough for a task whose artifact has no chain of parents longer than `h`
abbrev Enough : Config → Dict Edge → ℕ → Task → Type 0
Enough cfg es n (setting art status force) = (h : ℕ) × Within es h art.id × (3 * h + 2 ≤ n)
Enough cfg es n (climbing art) =
    (h : ℕ) × Within es h art.id
    × ((3 * h + 3 ≤ n) ⊎ ((is_done cfg.traits art ≡ false) × (3 * h + 1 ≤ n)))

pub Parent-Within :
    (es : Dict Edge) (h : ℕ) (id p : String)
    → Within es h id
    → Parent es p id
    → (k : ℕ) × Within es k p × (h ≡ suc k)
Parent-Within es zero id p w q = absurd (w p q)
Parent-Within es (suc h) id p w q = (h, w p q, refl)

module _ (cfg : Config) (es : Dict Edge) where
  abbrev Ending : ℕ → Task → Type 0
  Ending n = Runs cfg es ⊥ (Sound es) (λ r s. s) (perform cfg n)

  setting-Ending :
      (n : ℕ)
      → ((task : Task) → Enough cfg es n task → Ending n task)
      → (art : Artifact) (status : String) (force : Bool)
      → Enough cfg es (suc n) (setting art status force)
      → Ending (suc n) (setting art status force)
  setting-Ending n ends art status force (h, w, le) r s =
      setting-Ends cfg es ⊥ (Sound es) (λ r s. s) n art status force r s
        (Sound-apply_status cfg r art status es s)
        (λ _ p q.
          let (k, v, e) = Parent-Within es h art.id p.id w q in
          ends (setting p work_complete false) (k, v, omega (arith, le, e)))
        (λ pending. ends (climbing (apply_status cfg r art status).0) (
          h,
          subst (Within es h) (sym (id-apply_status cfg r art status)) w,
          inr (
            ap (is_terminal cfg.traits) (status-apply_status cfg r art status) ∙ pending,
            omega (arith, le),
          ),
        ))

  climbing-Ending :
      (n : ℕ)
      → ((task : Task) → Enough cfg es n task → Ending n task)
      → (node : Artifact) → Enough cfg es (suc n) (climbing node)
      → Ending (suc n) (climbing node)
  climbing-Ending n ends node (h, w, le) r s =
      climbing-Ends cfg es ⊥ (Sound es) (λ r s. s) n node r
        (λ done. ends (setting node (reopened_status cfg node) true) (h, w, enough done le))
        (λ p q.
          let (k, v, e) = Parent-Within es h node.id p.id w q in
          ends (climbing p) (k, v, inl (at_parent k e le)))
        s
    where
      enough :
          is_done cfg.traits node ≡ true
          → (3 * h + 3 ≤ suc n) ⊎ ((is_done cfg.traits node ≡ false) × (3 * h + 1 ≤ suc n))
          → 3 * h + 2 ≤ n
      enough done (inl l) = omega (arith, l)
      enough done (inr (pending, l)) = absurd (true≢false (sym done ∙ pending))

      at_parent :
          (k : ℕ)
          → h ≡ suc k
          → (3 * h + 3 ≤ suc n) ⊎ ((is_done cfg.traits node ≡ false) × (3 * h + 1 ≤ suc n))
          → 3 * k + 3 ≤ n
      at_parent k e (inl l) = omega (arith, e, l)
      at_parent k e (inr (pending, l)) = omega (arith, e, l)

  perform-Ending : (n : ℕ) (task : Task) → Enough cfg es n task → Ending n task
  perform-Ending zero (setting art status force) (h, w, le) = absurd (omega (arith, le))
  perform-Ending zero (climbing art) (h, w, inl le) = absurd (omega (arith, le))
  perform-Ending zero (climbing art) (h, w, inr (o, le)) = absurd (omega (arith, le))
  perform-Ending (suc n) (setting art status force) e =
      setting-Ending n (perform-Ending n) art status force e
  perform-Ending (suc n) (climbing art) e = climbing-Ending n (perform-Ending n) art e

answered-Ends :
    (es : Dict Edge) (cfg : Config) (a : Answer)
    → Ends cfg es ⊥ (Sound es) (λ r s. s) (state_of a)
    → (e : Option Refusal) × (r : Run) × (a ≡ some (e, r)) × (r.store.edges ≡ es) × IsValid r.store
answered-Ends es cfg none s = absurd s
answered-Ends es cfg (some (e, r)) (q, v) = (e, r, refl, q, v)

-- reopenAncestors by itself
pub climb_total :
    (cfg : Config) (r : Run) (art : Artifact) (h n : ℕ)
    → IsValid r.store
    → Within r.store.edges h art.id
    → 3 * h + 3 ≤ n
    → (r' : Run) × (state_of (perform cfg n (climbing art) r) ≡ some r')
      × (r'.store.edges ≡ r.store.edges)
climb_total cfg r art h n v w le =
    let (e, r', q, same, _) =
      answered-Ends r.store.edges cfg _
        (perform-Ending cfg r.store.edges n (climbing art) (h, w, inl le) r (refl, v)) in
    (r', ap state_of q, same)

-- A change of an artifact's status, with all the changes of parents that follow from it, comes to an end
-- where going up from the artifact along stored parent_of edges ends after at most h steps: from a valid
-- store 3h + 2 nested calls are enough, whatever the traits, the rules and the gates are. The answer
-- then has the edges that were there, and a valid store.
pub perform_total :
    (cfg : Config) (r : Run) (art : Artifact) (status : String) (force : Bool) (h n : ℕ)
    → IsValid r.store
    → Within r.store.edges h art.id
    → 3 * h + 2 ≤ n
    → (e : Option Refusal) × (r' : Run) × (perform cfg n (setting art status force) r
        ≡ some (e, r'))
      × (r'.store.edges ≡ r.store.edges)
      × IsValid r'.store
perform_total cfg r art status force h n v w le =
    answered-Ends r.store.edges cfg _
      (perform-Ending cfg r.store.edges n (setting art status force) (h, w, le) r (refl, v))
