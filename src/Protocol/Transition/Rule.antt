-- ===== src/Protocol/Transition/Rule.antt =====
-- A rule for status changes: what each write keeps holds at the end, if it holds at the start.
use mathlib.Core.Bool.{false≢true}
use parchment.Prelude.{
  eq_iff, ℕ, suc, String, Bool, true, false, Option, none, some, List, [], ◌∷◌, ◌≡◌, inl, inr, refl,
  sym, subst, arith, Memᴰ, Bool-cases, if◌then◌else◌, Option-cases,
}
use parchment.Dict.{Dict, lookup}
use parchment.Artifact.{Artifact}
use parchment.Artifact.Labels.{status_from_labels}
use parchment.Store.{MemoryStore, Edge}
use parchment.Store.Artifacts.{get, or_not_found}
use parchment.Store.Edges.{neighbors, incoming, key_of}
use parchment.Store.Edges.Neighbors.{mem-neighbors}
use parchment.Store.Result.{Result, ok, err}
use parchment.Store.Valid.{IsValid}
use parchment.Protocol.Admission.{Config, Refusal, is_done, admission}
use parchment.Protocol.Kinds.{is_terminal}
use parchment.Protocol.Rules.{rel_parent_of}
use parchment.Protocol.Transition.{
  Run, Task, Call, setting, climbing, state_of, ◌>>=◌, apply_status, work_complete, first_edge,
  found_or_none, first_parent, auto_complete_parent, roll_up, roll_up_all, completion_rollup,
  after_transition, reopened_status, climb, answered, perform,
}

-- an edge that is stored says that `p` is a parent of `c`
abbrev pub Parent : Dict Edge → String → String → Type 0
Parent es p c =
    (e : Edge) × (lookup es (key_of e) ≡ some e)
    × (e.relation ≡ rel_parent_of)
    × (e.from ≡ p)
    × (e.to ≡ c)

pub get-ok :
    (m : MemoryStore) (id : String) (a : Artifact)
    → get m id ≡ ok a
    → lookup m.artifacts id ≡ some a
unfolding get or_not_found
get-ok m id a q = elim (Option-cases (lookup m.artifacts id)) [
  | inl e ↦ absurd (ground arith)
  | inr (b, e) ↦ ground arith
]

pub id-get :
    (m : MemoryStore) (id : String) (a : Artifact) → IsValid m → get m id ≡ ok a → a.id ≡ id
id-get m id a v q = v.ids.keyed id a (get-ok m id a q)

pub rel_parent_of-ne : ¬ (rel_parent_of ≡ "")
rel_parent_of-ne q = false≢true ((eq_iff rel_parent_of "").1 q)

module _ (cfg : Config) (es : Dict Edge) (Out : Type 0) (P : Run → Type 0)
    (beside : (r : Run) → P r → (r.store.edges ≡ es) × IsValid r.store) where
  -- `P` holds of the result, or fuel ran out and `Out` holds
  abbrev pub Ends : Option Run → Type 0
  Ends none = Out
  Ends (some r) = P r

  bind-Ends :
      (o : Option Run) (f : Run → Option Run)
      → Ends o
      → ((r : Run) → P r → Ends (f r))
      → Ends (o >>= f)
  bind-Ends none f n k = n
  bind-Ends (some r) f p k = k r p

  if-Ends : (b : Bool) (o p : Option Run) → Ends o → Ends p → Ends (if b then o else p)
  if-Ends true o p x y = x
  if-Ends false o p x y = y

  -- the edge is stored and leads to the node from a parent
  abbrev LeadsTo : String → Edge → Type 0
  LeadsTo id e = (lookup es (key_of e) ≡ some e) × (e.relation ≡ rel_parent_of) × (e.to ≡ id)

  LeadsTo-neighbors :
      (r : Run) (id : String) (e : Edge)
      → P r
      → Memᴰ e (neighbors r.store id rel_parent_of incoming)
      → LeadsTo id e
  LeadsTo-neighbors r id e h mem =
      let (same, v) = beside r h in
      let (stored, rel, at) = (mem-neighbors r.store id rel_parent_of incoming e v.keys).0 mem in
      (
        subst (λ d. lookup d (key_of e) ≡ some e) same stored,
        elim rel [ inl empty ↦ absurd (rel_parent_of-ne empty) | inr is_rel ↦ is_rel ],
        at,
      )

  Parent-LeadsTo :
      (r : Run) (id : String) (e : Edge) (p : Artifact)
      → P r
      → LeadsTo id e
      → get r.store e.from ≡ ok p
      → Parent es p.id id
  Parent-LeadsTo r id e p h (stored, rel, at) q =
      (e, stored, rel, sym (id-get r.store e.from p (beside r h).1 q), at)

  first_edge-mem : (l : List Edge) (e : Edge) → first_edge l ≡ some e → Memᴰ e l
  first_edge-mem [] e q = absurd (ground arith)
  first_edge-mem (x ∷ l) e q = Memᴰ.head (ground arith)

  Parent-first_parent :
      (r : Run) (id : String) (p : Artifact)
      → P r
      → first_parent r.store id ≡ some p
      → Parent es p.id id
  unfolding first_parent
  Parent-first_parent r id p h q =
      elim (Option-cases (first_edge (neighbors r.store id rel_parent_of incoming))) [
        | inl none_first ↦ absurd (ground arith)
        | inr (e, first) ↦
            Parent-LeadsTo r id e p h (LeadsTo-neighbors r id e h (first_edge-mem _ e first))
              (found e (ground arith))
      ]
    where
      found : (e : Edge) → found_or_none (get r.store e.from) ≡ some p → get r.store e.from ≡ ok p
      found e f = ground arith

  module _ (call : Call) where
    -- called in a state in which `P` holds, the task ends in one
    abbrev pub Runs : Task → Type 0
    Runs task = (r : Run) → P r → Ends (state_of (call task r))

    auto_complete_parent-Ends :
        (art : Artifact)
        → ((p : Artifact) → Parent es p.id art.id → Runs (setting p work_complete false))
        → (r : Run) → P r
        → Ends (auto_complete_parent cfg call art r)
    unfolding auto_complete_parent
    auto_complete_parent-Ends art runs r h = elim (Option-cases (first_parent r.store art.id)) [
      | inl e ↦ rw (Ends, e) h
      | inr (p, e) ↦
          rw (Ends, e) (if-Ends _ _ (some r) (runs p (Parent-first_parent r art.id p h e) r h) h)
    ]

    roll_up-Ends :
        (art : Artifact)
        → ((p : Artifact) → Parent es p.id art.id → Runs (setting p work_complete false))
        → (found : Result Artifact) → ((p : Artifact) → found ≡ ok p → Parent es p.id art.id)
        → (r : Run) → P r
        → Ends (roll_up cfg call found r)
    unfolding roll_up
    roll_up-Ends art runs (err x) up r h = h
    roll_up-Ends art runs (ok p) up r h = if-Ends _ _ (some r) (runs p (up p refl) r h) h

    roll_up_all-Ends :
        (art : Artifact)
        → ((p : Artifact) → Parent es p.id art.id → Runs (setting p work_complete false))
        → (l : List Edge) → ((e : Edge) → Memᴰ e l → LeadsTo art.id e)
        → (r : Run) → P r
        → Ends (roll_up_all cfg call l r)
    unfolding roll_up_all
    roll_up_all-Ends art runs [] leads r h = h
    roll_up_all-Ends art runs (e ∷ l) leads r h =
        bind-Ends (roll_up cfg call (get r.store e.from) r) (roll_up_all cfg call l)
          (roll_up-Ends art runs (get r.store e.from)
            (λ p q. Parent-LeadsTo r art.id e p h (leads e (Memᴰ.head refl)) q) r h)
          (roll_up_all-Ends art runs l (λ x mem. leads x (Memᴰ.tail mem)))

    pub after_transition-Ends :
        (art : Artifact) (old new : String)
        → (is_terminal cfg.traits new ≡ true
            → (p : Artifact) → Parent es p.id art.id
            → Runs (setting p work_complete false))
        → (is_terminal cfg.traits new ≡ false → Runs (climbing art))
        → (r : Run) → P r
        → Ends (after_transition cfg call art old new r)
    unfolding after_transition completion_rollup
    after_transition-Ends art old new complete reopen r h =
        elim (Bool-cases (is_terminal cfg.traits new)) [
          | inl e ↦
              rw (Ends, e)
                (bind-Ends (auto_complete_parent cfg call art r) _
                  (auto_complete_parent-Ends art (complete e) r h)
                  (λ r' h'.
                    roll_up_all-Ends art (complete e) _ (λ x. LeadsTo-neighbors r' art.id x h') r'
                      h'))
          | inr e ↦ rw (Ends, e) (if-Ends _ _ (some r) (reopen e r h) h)
        ]

    climb-Ends :
        (node : Artifact)
        → (is_done cfg.traits node ≡ true → Runs (setting node (reopened_status cfg node) true))
        → ((p : Artifact) → Parent es p.id node.id → Runs (climbing p))
        → (r : Run) → P r
        → Ends (climb cfg call node r)
    unfolding climb
    climb-Ends node reopen up r h = bind-Ends _ _ (reopened (is_done cfg.traits node) reopen) next
      where
        reopened :
            (b : Bool)
            → (b ≡ true → Runs (setting node (reopened_status cfg node) true))
            → Ends (
                if b
                then state_of (call (setting node (reopened_status cfg node) true) r)
                else some r)
        reopened true runs = runs refl r h
        reopened false runs = h

        next :
            (r' : Run)
            → P r'
            → Ends (elim (first_parent r'.store node.id) [
              | none ↦ some r'
              | some p ↦ state_of (call (climbing p) r')
            ])
        next r' h' = elim (Option-cases (first_parent r'.store node.id)) [
          | inl e ↦ rw (Ends, e) h'
          | inr (p, e) ↦ rw (Ends, e) (up p (Parent-first_parent r' node.id p h' e) r' h')
        ]

  pub state_of-answered : (e : Option Refusal) (o : Option Run) → state_of (answered e o) ≡ o
  state_of-answered e none = refl
  state_of-answered e (some r) = refl

  -- one call, where the write and the calls that it makes keep `P`
  pub setting-Ends :
      (n : ℕ) (art : Artifact) (status : String) (force : Bool) (r : Run)
      → P r
      → P (apply_status cfg r art status).1
      → (is_terminal cfg.traits status ≡ true
          → (p : Artifact) → Parent es p.id art.id
          → Runs (perform cfg n) (setting p work_complete false))
      → (is_terminal cfg.traits status ≡ false
          → Runs (perform cfg n) (climbing (apply_status cfg r art status).0))
      → Ends (state_of (perform cfg (suc n) (setting art status force) r))
  unfolding perform
  setting-Ends n art status force r h h' complete reopen =
      elim (Option-cases (admission cfg r.store art status force)) [
        | inr (e, q) ↦ rw (Ends, q) h
        | inl q ↦
            rw (Ends, q)
              (subst Ends (sym (state_of-answered none _)) (
                after_transition-Ends (perform cfg n) (apply_status cfg r art status).0
                  (status_from_labels art.labels) status complete reopen
                  (apply_status cfg r art status).1 h'))
      ]

  pub climbing-Ends :
      (n : ℕ) (node : Artifact) (r : Run)
      → (is_done cfg.traits node ≡ true
          → Runs (perform cfg n) (setting node (reopened_status cfg node) true))
      → ((p : Artifact) → Parent es p.id node.id → Runs (perform cfg n) (climbing p))
      → P r
      → Ends (state_of (perform cfg (suc n) (climbing node) r))
  unfolding perform
  climbing-Ends n node r reopen up h =
      subst Ends (sym (state_of-answered none _)) (climb-Ends (perform cfg n) node reopen up r h)
