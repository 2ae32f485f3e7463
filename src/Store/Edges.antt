-- ===== src/Store/Edges.antt =====
-- memstore.go: the edges of the graph, with the sources that declare them.

pub mod Key
pub mod Sources
pub mod Neighbors
use parchment.Prelude.{
  ℕ, String, Bool, false, ◌&&◌, ◌||◌, not, Option, none, some, List, [], ◌∷◌, ◌++◌, ◌<>◌, ◌==◌,
  if◌then◌else◌, keep, any_of, is_empty,
}
use parchment.Dict.{Dict, lookup, insert, remove, values}
use parchment.Store.{MemoryStore, Edge}
use parchment.Store.Result.{Result, Status, ok, err, edge_not_found}

unfoldable pub edge_key : String → String → String → String
edge_key from rel to = from <> "|" <> rel <> "|" <> to

abbrev pub key_of : Edge → String
key_of e = edge_key e.from e.relation e.to

unfoldable pub add_edge : MemoryStore → Edge → MemoryStore
add_edge m e = record m { edges = insert m.edges (key_of e) e }

unfoldable pub bulk_add_edge : MemoryStore → List Edge → MemoryStore
unfolding add_edge
bulk_add_edge m [] = m
bulk_add_edge m (e ∷ es) = bulk_add_edge (add_edge m e) es

unfoldable pub remove_edge : MemoryStore → Edge → MemoryStore
remove_edge m e = record m { edges = remove m.edges (key_of e) }

abbrev pub has_source : String → Edge → Bool
has_source source e = any_of (λ s. s == source) e.sources

abbrev pub with_sources : Edge → List String → Edge
with_sources e sources = record e { sources = sources }

-- what stands under the key once `source` declares the edge
abbrev pub declared : String → String → String → String → Option Edge → Edge
declared from rel to source none = record {
  from = from;
  to = to;
  relation = rel;
  weight = 0;
  sources = source ∷ [];
}
declared from rel to source (some e) =
    if has_source source e then e else with_sources e (e.sources ++ source ∷ [])

unfoldable pub add_edge_source : MemoryStore → String → String → String → String → MemoryStore
add_edge_source m from rel to source =
    let key = edge_key from rel to in
    record m { edges = insert m.edges key (declared from rel to source (lookup m.edges key)) }

unfoldable pub retract : MemoryStore → String → String → Option Edge → MemoryStore
retract m key source none = m
retract m key source (some e) =
    let filtered = keep (λ s. not (s == source)) e.sources in
    if is_empty filtered
    then record m { edges = remove m.edges key }
    else record m { edges = insert m.edges key (with_sources e filtered) }

unfoldable pub remove_edge_source : MemoryStore → String → String → String → String → MemoryStore
unfolding retract
remove_edge_source m from rel to source =
    let key = edge_key from rel to in retract m key source (lookup m.edges key)

unfoldable pub reweigh : MemoryStore → String → ℕ → Option Edge → Status × MemoryStore
reweigh m key weight none = (err edge_not_found, m)
reweigh m key weight (some e) =
    (ok tt, record m { edges = insert m.edges key (record e { weight = weight }) })

unfoldable pub update_edge_weight :
    MemoryStore → String → String → String → ℕ → Status × MemoryStore
unfolding reweigh
update_edge_weight m from to relation weight =
    let key = from <> "|" <> relation <> "|" <> to in reweigh m key weight (lookup m.edges key)

pub data Direction : Type 0 where
  outgoing incoming both : Direction

-- `if rel != "" && e.Relation != rel { continue }`
abbrev pub of_relation : String → Edge → Bool
of_relation rel e = rel == "" || e.relation == rel

abbrev pub leads : String → Direction → Edge → Bool
leads id outgoing e = e.from == id
leads id incoming e = e.to == id
leads id both e = e.from == id || e.to == id

unfoldable pub neighbors : MemoryStore → String → String → Direction → List Edge
neighbors m id rel dir = keep (λ e. of_relation rel e && leads id dir e) (values m.edges)

-- membership in a set that was built from a list
abbrev pub in_set : List String → String → Bool
in_set l s = any_of (λ x. x == s) l

abbrev pub related : List String → Edge → Bool
related relations e = is_empty relations || in_set relations e.relation

unfoldable pub list_edges : MemoryStore → List String → List String → List Edge
list_edges m ids relations =
    if is_empty ids
    then []
    else keep (λ e. in_set ids e.from && in_set ids e.to && related relations e) (values m.edges)

unfoldable pub list_edges_from : MemoryStore → List String → List String → List Edge
list_edges_from m from_ids relations =
    if is_empty from_ids
    then []
    else keep (λ e. in_set from_ids e.from && related relations e) (values m.edges)
