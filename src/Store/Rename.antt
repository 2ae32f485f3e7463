-- ===== src/Store/Rename.antt =====
-- memstore.go: `RenameID`, which gives an artifact a new ID and leaves the old one as an alias.
pub mod Laws
use parchment.Prelude.{
  String, Bool, ◌||◌, Option, none, some, List, [], ◌∷◌, ◌==◌, if◌then◌else◌, map,
}
use parchment.Dict.{Dict, lookup, insert, remove}
use parchment.Artifact.{Artifact}
use parchment.Store.{MemoryStore, Edge}
use parchment.Store.Result.{Result, Status, ok, err, plain}
use parchment.Store.Artifacts.{touches}
use parchment.Store.Edges.{key_of}

abbrev pub renamed : String → String → String → String
renamed old new id = if id == old then new else id

-- `for alias, target := range m.aliases { if target == oldID { m.aliases[alias] = newID } }`
pub retarget : String → String → Dict String → Dict String
retarget old new [] = []
retarget old new ((alias, target) ∷ d) = (alias, renamed old new target) ∷ retarget old new d

abbrev pub rename_ends : String → String → Edge → Edge
rename_ends old new e = record e { from = renamed old new e.from; to = renamed old new e.to }

move_edge : String → String → Dict Edge → String → Option Edge → Dict Edge
move_edge old new d key none = d
move_edge old new d key (some e) =
    let e' = rename_ends old new e in
    if touches old e then insert (remove d key) (key_of e') e' else d

-- The loop visits the keys that the map had when it began, and reads each entry as it then stands. An
-- entry that it adds on the way no longer names the old ID, and so is left alone if it is met.
unfoldable pub move_edges : String → String → List String → Dict Edge → Dict Edge
unfolding move_edge
move_edges old new [] d = d
move_edges old new (key ∷ keys) d = move_edges old new keys (move_edge old new d key (lookup d key))

abbrev pub keys : Dict Edge → List String
keys d = map (λ e. e.0) d

unfoldable pub rename_found : MemoryStore → String → String → Option Artifact → Status × MemoryStore
unfolding retarget move_edges
rename_found m old new none = (err plain, m)
rename_found m old new (some art) = (
  ok tt,
  record m {
    artifacts = remove (insert m.artifacts new (record art { id = new })) old;
    aliases = insert (retarget old new m.aliases) old new;
    edges = move_edges old new (keys m.edges) m.edges;
  },
)

unfoldable pub rename_id : MemoryStore → String → String → Status × MemoryStore
unfolding rename_found
rename_id m old new = rename_found m old new (lookup m.artifacts old)
