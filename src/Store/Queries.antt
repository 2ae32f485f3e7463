-- ===== src/Store/Queries.antt =====
-- memstore.go and store.go: artifacts found by their place in the graph or by a label.
pub mod Adjacent
use parchment.Prelude.{
  String, Bool, ◌&&◌, Option, none, some, List, [], ◌∷◌, ◌==◌, map, keep, if◌then◌else◌,
}
use parchment.Dict.{Dict, lookup, values}
use parchment.Artifact.{Artifact}
use parchment.Artifact.Filter.{Filter, any_artifact}
use parchment.Store.{MemoryStore, Edge}
use parchment.Store.Artifacts.{get, list}
use parchment.Store.Edges.{Direction, outgoing, incoming, both, neighbors}
use parchment.Store.Result.{Result, ok, err}
use parchment.Protocol.Rules.{rel_parent_of}

-- what is found of the IDs; a missing one is skipped
with_found : Option Artifact → List Artifact → List Artifact
with_found none rest = rest
with_found (some art) rest = art ∷ rest

pub find_all : MemoryStore → List String → List Artifact
unfolding with_found
find_all m [] = []
find_all m (id ∷ ids) = with_found (lookup m.artifacts id) (find_all m ids)

unfoldable pub children : MemoryStore → String → List Artifact
unfolding find_all
children m parent_id = find_all m (
    map (λ e. e.to)
      (keep (λ e. e.from == parent_id && e.relation == rel_parent_of) (values m.edges)))

-- the end that is looked up; for both directions it is always `to`
abbrev pub far_end : Direction → Edge → String
far_end incoming e = e.from
far_end outgoing e = e.to
far_end both e = e.to

unfoldable pub neighbor_artifacts : MemoryStore → String → String → Direction → List Artifact
unfolding find_all
neighbor_artifacts m id rel dir = find_all m (map (far_end dir) (neighbors m id rel dir))

unfoldable pub list_by_label : MemoryStore → String → List Artifact
list_by_label m label = list m (record any_artifact { labels = label ∷ [] })

unfoldable pub list_graph_nodes : MemoryStore → Filter → List Artifact
list_graph_nodes m f = list m f
