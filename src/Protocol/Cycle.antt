-- ===== src/Protocol/Cycle.antt =====
-- protocol_graph.go: the guard against cycles of one relation.
pub mod Guard
pub mod Acyclic
use parchment.Prelude.{
  ℕ, String, Bool, true, false, none, some, ◌||◌, not, List, [], ◌∷◌, ◌++◌, ◌==◌, if◌then◌else◌,
}
use parchment.Store.{MemoryStore, Edge}
use parchment.Store.Edges.{outgoing}
use parchment.Store.Walk.{walk}

-- the variables that the callback captures
pub record Search : Type 0 where
  pub path : List String
  pub found : Bool

-- the variables before the walk
abbrev pub search_at : String → Search
search_at to = record { path = to ∷ []; found = false }

-- the callback: it asks the walk to stop at an edge into `from`
abbrev pub look_for : String → ℕ → Edge → Search → Bool × Search
look_for from depth e s =
    (not (e.to == from), record { path = s.path ++ e.to ∷ []; found = s.found || e.to == from })

-- Whether the edge would close a cycle, and the path that the error message shows. The walk always returns
-- (Cycle/Guard), so the case of `none` never arises.
unfoldable pub would_cycle : MemoryStore → String → String → String → Bool × List String
would_cycle m relation from to =
    if from == to
    then (true, from ∷ from ∷ [])
    else elim (walk (look_for from) m to relation outgoing 0 (search_at to)) [
      | none ↦ (false, [])
      | some s ↦ if s.found then (true, from ∷ s.path) else (false, [])
    ]
