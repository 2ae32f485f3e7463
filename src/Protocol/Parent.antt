-- ===== src/Protocol/Parent.antt =====
-- protocol_graph.go and protocol_lifecycle.go: `wouldCycleParent` and `setFieldParent`. The walk up the first
-- parents takes fuel: see Parent/Guard.
pub mod Guard
pub mod Placed
pub mod Moved
use parchment.Prelude.{
  ℕ, zero, suc, String, Bool, true, false, ◌&&◌, not, Option, none, some, List, [], ◌∷◌, ◌++◌, ◌==◌,
  if◌then◌else◌,
}
use parchment.Artifact.{Artifact}
use parchment.Store.{MemoryStore, Edge}
use parchment.Store.Artifacts.{get}
use parchment.Store.Edges.{neighbors, incoming, add_edge, remove_edge}
use parchment.Store.Result.{Result, ok, err}
use parchment.Protocol.Admission.{kind_of}
use parchment.Protocol.Kinds.{valid_child}
use parchment.Protocol.Link.{edge_to}
use parchment.Protocol.Rules.{RelationshipTrait, rel_parent_of}
use parchment.Protocol.Transition.{first_edge}

-- the answer and the path of the error message; `none` stands for fuel that ran out
abbrev pub Looked : Type 0
Looked = Option (Bool × List String)

-- the loop, at `cur`
unfoldable pub look_up : ℕ → MemoryStore → String → String → List String → Looked
look_up zero m child cur path = none
look_up (suc n) m child cur path = elim (first_edge (neighbors m cur rel_parent_of incoming)) [
  | none ↦ some (false, [])
  | some e ↦
      let above = look_up n m child e.from (path ++ e.from ∷ []) in
      if e.from == child then some (true, path ++ e.from ∷ []) else above
]

unfoldable pub would_cycle_parent : ℕ → MemoryStore → String → String → Looked
unfolding look_up
would_cycle_parent n m parent child =
    if child == ""
    then some (false, [])
    else if parent == child
    then some (true, child ∷ child ∷ [])
    else look_up n m child parent (child ∷ parent ∷ [])

pub data ParentError : Type 0 where
  invalid_child : ParentError
  cycle_detected : List String → ParentError

unfoldable pub remove_edges : List Edge → MemoryStore → MemoryStore
unfolding remove_edge
remove_edges [] m = m
remove_edges (e ∷ es) m = remove_edges es (remove_edge m e)

abbrev pub parent_edge : String → String → Edge
parent_edge value id = edge_to value rel_parent_of 0 id

-- the writes of setFieldParent
unfoldable pub move_to : MemoryStore → String → String → MemoryStore
unfolding remove_edges add_edge
move_to m id value =
    let m' = remove_edges (neighbors m id rel_parent_of incoming) m in
    if value == "" then m' else add_edge m' (parent_edge value id)

-- A parent that is not found is not asked for its kind.
abbrev pub child_refused : List RelationshipTrait → Result Artifact → Artifact → Bool
child_refused rels (err e) art = false
child_refused rels (ok parent) art = not (valid_child rels (kind_of parent) (kind_of art))

abbrev pub guarded : Looked → MemoryStore → MemoryStore → Option (Option ParentError × MemoryStore)
guarded none m m' = none
guarded (some (true, path)) m m' = some (some (cycle_detected path), m)
guarded (some (false, path)) m m' = some (none, m')

unfoldable pub set_field_parent :
    ℕ
    → List RelationshipTrait
    → MemoryStore
    → String
    → Artifact
    → String
    → Option (Option ParentError × MemoryStore)
unfolding would_cycle_parent move_to
set_field_parent n rels m id art value =
    if value == ""
    then some (none, move_to m id value)
    else if child_refused rels (get m value) art
    then some (some invalid_child, m)
    else guarded (would_cycle_parent n m value id) m (move_to m id value)
