-- ===== src/Examples/Edges.antt =====
-- Theorems on edges and their sources, applied.
use parchment.Prelude.{◌≡◌, none, any_of, refl}
use parchment.Dict.{lookup, insert}
use parchment.Store.Artifacts.{put}
use parchment.Store.Edges.{edge_key, add_edge, add_edge_source, remove_edge_source}
use parchment.Store.Edges.Sources.{edge_at, remove-add_edge_source}
use parchment.Examples.{shop, depends}

remove-add_edge_source_example :
    edge_at
      (remove_edge_source
        (add_edge_source shop "T-1" "depends_on" "T-2" "wiki")
        "T-1"
        "depends_on"
        "T-2"
        "wiki")
      "T-1"
      "depends_on"
      "T-2"
    ≡ none
unfolding lookup put add_edge insert edge_key any_of
remove-add_edge_source_example =
    remove-add_edge_source shop "T-1" "depends_on" "T-2" "wiki" depends refl refl
