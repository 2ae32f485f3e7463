-- ===== src/Protocol/Fields/Depends.antt =====
-- The dependencies that `SetField` writes.
use parchment.Prelude.{String, List, [], ◌∷◌, ◌==◌, inl, inr, map, if◌then◌else◌, Bool-cases}
use parchment.Prelude.Scanning.{split, trim_space}
use parchment.Store.{MemoryStore, Edge}
use parchment.Store.Edges.{neighbors, outgoing, add_edge}
use parchment.Protocol.Admission.{rel_depends_on}
use parchment.Protocol.Cycle.{would_cycle}
use parchment.Protocol.Cycle.Acyclic.{IsAcyclic, add_edge-IsAcyclic, remove_edge-IsAcyclic}
use parchment.Protocol.Link.{edge_to}
use parchment.Protocol.Parent.{remove_edges}
use parchment.Protocol.Fields.{add_dependencies, set_field_depends_on}

remove_edges-IsAcyclic :
    (es : List Edge) (m : MemoryStore) (relation : String)
    → IsAcyclic m relation
    → IsAcyclic (remove_edges es m) relation
unfolding remove_edges
remove_edges-IsAcyclic [] m relation h = h
remove_edges-IsAcyclic (e ∷ es) m relation h =
    remove_edges-IsAcyclic es _ relation (remove_edge-IsAcyclic m relation e h)

add_dependencies-IsAcyclic :
    (id : String) (deps : List String) (m : MemoryStore)
    → IsAcyclic m rel_depends_on
    → IsAcyclic (add_dependencies id deps m).1 rel_depends_on
unfolding add_dependencies
add_dependencies-IsAcyclic id [] m h = h
add_dependencies-IsAcyclic id (dep ∷ deps) m h =
    elim (Bool-cases (would_cycle m rel_depends_on id dep).0) [
      | inl e ↦ rw (e, if◌then◌else◌) h
      | inr e ↦
          rw (e, if◌then◌else◌)
            (add_dependencies-IsAcyclic id deps (add_edge m (edge_to id rel_depends_on 0 dep))
              (add_edge-IsAcyclic m rel_depends_on (edge_to id rel_depends_on 0 dep) h e))
    ]

-- Whatever dependencies setFieldDependsOn is given, and whether it ends with an error or not, a graph in
-- which no artifact depends on itself, directly or not, stays one.
pub set_field_depends_on-IsAcyclic :
    (m : MemoryStore) (id value : String)
    → IsAcyclic m rel_depends_on
    → IsAcyclic (set_field_depends_on m id value).1 rel_depends_on
unfolding set_field_depends_on
set_field_depends_on-IsAcyclic m id value h = elim (Bool-cases (value == "")) [
  | inl e ↦
      rw (e, if◌then◌else◌)
        (remove_edges-IsAcyclic (neighbors m id rel_depends_on outgoing) m rel_depends_on h)
  | inr e ↦
      rw (e, if◌then◌else◌) (add_dependencies-IsAcyclic id (map trim_space (split value ",")) m h)
]
