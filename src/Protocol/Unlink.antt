-- ===== src/Protocol/Unlink.antt =====
-- protocol_graph.go: `UnlinkArtifacts`.
use parchment.Prelude.{String, List, [], ◌∷◌, ◌==◌, is_empty, if◌then◌else◌}
use parchment.Store.{MemoryStore}
use parchment.Store.Edges.{remove_edge}
use parchment.Protocol.Checks.{
  source_required, relation_required, target_required, Outcome, done, refused,
}
use parchment.Protocol.Link.{LinkResult, linked, edge_to}

unlink_each : String → String → List String → MemoryStore → List LinkResult × MemoryStore
unlink_each source relation [] m = ([], m)
unlink_each source relation (tid ∷ tids) m =
    let (results, m') =
      unlink_each source relation tids (remove_edge m (edge_to source relation 0 tid)) in
    (linked tid ∷ results, m')

unfoldable pub unlink_artifacts :
    MemoryStore → String → String → List String → Outcome (List LinkResult) × MemoryStore
unfolding unlink_each
unlink_artifacts m source relation tids =
    if source == ""
    then (refused source_required, m)
    else if relation == ""
    then (refused relation_required, m)
    else if is_empty tids
    then (refused target_required, m)
    else (let (results, m') = unlink_each source relation tids m in (done results, m'))
