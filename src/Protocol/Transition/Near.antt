-- ===== src/Protocol/Transition/Near.antt =====
-- What a status change reaches: the artifact and its ancestors.
use parchment.Prelude.{
  ℕ, zero, suc, String, Bool, true, false, Option, some, ◌≡◌, ◌⊎◌, inl, inr, refl, sym, ◌∙◌, subst,
  eq-false, if◌then◌else◌,
}
use parchment.Dict.{Dict}
use parchment.Artifact.{Artifact}
use parchment.Store.{Edge}
use parchment.Store.Artifacts.{get}
use parchment.Store.Valid.{IsValid}
use parchment.Protocol.Admission.{Config, Refusal}
use parchment.Protocol.Transition.{
  Run, Task, setting, climbing, state_of, apply_status, perform, Answer, work_complete,
  reopened_status,
}
use parchment.Protocol.Transition.Write.{
  Sound, Sound-apply_status, id-apply_status, get-apply_status,
}
use parchment.Protocol.Transition.Rule.{Parent, Ends, Runs, setting-Ends, climbing-Ends}

abbrev pub id_of : Task → String
id_of (setting art status force) = art.id
id_of (climbing art) = art.id

module _ (cfg : Config) (es : Dict Edge) (P : Run → Type 0) (Good : String → Type 0)
    (beside : (r : Run) → P r → (r.store.edges ≡ es) × IsValid r.store)
    (up : (p c : String) → Parent es p c → Good c → Good p)
    (step : (r : Run) (art : Artifact) (status : String)
      → Good art.id
      → P r
      → P (apply_status cfg r art status).1) where
  abbrev Keeping : ℕ → Task → Type 0
  Keeping n = Runs cfg es Unit P beside (perform cfg n)

  pub perform-Keeping : (n : ℕ) (task : Task) → Good (id_of task) → Keeping n task
  unfolding perform
  perform-Keeping zero task g r h = tt
  perform-Keeping (suc n) (setting art status force) g r h =
      setting-Ends cfg es Unit P beside n art status force r h (step r art status g h)
        (λ _ p q. perform-Keeping n (setting p work_complete false) (up p.id art.id q g))
        (λ _.
          perform-Keeping n (climbing (apply_status cfg r art status).0)
            (subst Good (sym (id-apply_status cfg r art status)) g))
  perform-Keeping (suc n) (climbing node) g r h =
      climbing-Ends cfg es Unit P beside n node r
        (λ _. perform-Keeping n (setting node (reopened_status cfg node) true) g)
        (λ p q. perform-Keeping n (climbing p) (up p.id node.id q g)) h

-- one of the node's parents, or of theirs
pub data Above (es : Dict Edge) (id : String) : String → Type 0 where
  parent : {p : String} → Parent es p id → Above es id p
  higher : {p q : String} → Above es id p → Parent es q p → Above es id q

abbrev pub Near : Dict Edge → String → String → Type 0
Near es id other = (other ≡ id) ⊎ Above es id other

Near-Parent : (es : Dict Edge) (id p c : String) → Parent es p c → Near es id c → Near es id p
Near-Parent es id p c q (inl same) = inr (parent (subst (Parent es p) same q))
Near-Parent es id p c q (inr a) = inr (higher a q)

pub ended :
    (cfg : Config) (es : Dict Edge) (P : Run → Type 0)
    → (beside : (r : Run) → P r → (r.store.edges ≡ es) × IsValid r.store)
    → (a : Answer) (e : Option Refusal) (r : Run) → a ≡ some (e, r)
    → Ends cfg es Unit P beside (state_of a)
    → P r
ended cfg es P beside a e r q h = subst (λ x. Ends cfg es Unit P beside (state_of x)) q h

module _ (cfg : Config) (art : Artifact) (r : Run) where
  abbrev stored_edges : Dict Edge
  stored_edges = r.store.edges

  abbrev Beyond : Run → Type 0
  Beyond x =
      Sound stored_edges x
      × ((id : String) → ¬ Near stored_edges art.id id → get x.store id ≡ get r.store id)

  Beyond-apply_status :
      (x : Run) (a : Artifact) (s : String)
      → Near stored_edges art.id a.id
      → Beyond x
      → Beyond (apply_status cfg x a s).1
  Beyond-apply_status x a s near (sound, kept) = (
    Sound-apply_status cfg x a s stored_edges sound,
    λ id far.
        get-apply_status cfg x a s id
        ∙ rw (eq-false a.id id (λ q. far (subst (Near stored_edges art.id) q near)), if◌then◌else◌)
            (kept id far),
  )

-- However a call of setStatusForce ends, from a valid store: every artifact that is neither the one
-- whose status changes nor above it along stored parent_of edges is as it was, and so are all edges.
-- The store is still valid.
pub perform-Near :
    (cfg : Config) (n : ℕ) (art : Artifact) (status : String) (force : Bool) (r r' : Run)
    → (e : Option Refusal) → IsValid r.store
    → perform cfg n (setting art status force) r ≡ some (e, r')
    → (r'.store.edges ≡ r.store.edges)
      × IsValid r'.store
      × ((id : String) → ¬ Near r.store.edges art.id id → get r'.store id ≡ get r.store id)
perform-Near cfg n art status force r r' e v q =
    let ((same, v'), kept) =
      ended cfg (stored_edges cfg art r) (Beyond cfg art r) (λ x h. h.0) _ e r' q
        (perform-Keeping cfg (stored_edges cfg art r) (Beyond cfg art r) (Near r.store.edges art.id)
          (λ x h. h.0) (Near-Parent r.store.edges art.id) (Beyond-apply_status cfg art r) n
          (setting art status force) (inl refl) r ((refl, v), λ id far. refl)) in
    (same, v', kept)
