-- ===== src/Store/Aliases.antt =====
-- memstore.go: alternative names of artifacts.
pub mod Owner
use parchment.Prelude.{
  String, Bool, false, not, Option, none, some, List, [], ◌∷◌, ◌==◌, if◌then◌else◌,
}
use parchment.Dict.{Dict, lookup, insert, remove}
use parchment.Artifact.{Artifact}
use parchment.Store.{MemoryStore}
use parchment.Store.Result.{Result, Status, ok, err, artifact_not_found, alias_taken}
use parchment.Store.Artifacts.{get}

resolve_alias : MemoryStore → Option String → Result Artifact
resolve_alias m none = err artifact_not_found
resolve_alias m (some id) = get m id

unfoldable pub get_by_alias : MemoryStore → String → Result Artifact
unfolding resolve_alias
get_by_alias m alias = resolve_alias m (lookup m.aliases alias)

abbrev taken : String → Option String → Bool
taken id none = false
taken id (some existing) = not (existing == id)

unfoldable pub add_alias : MemoryStore → String → String → Status × MemoryStore
add_alias m id alias =
    if taken id (lookup m.aliases alias)
    then (err alias_taken, m)
    else (ok tt, record m { aliases = insert m.aliases alias id })

-- the artifact's ID is not looked at
unfoldable pub remove_alias : MemoryStore → String → String → MemoryStore
remove_alias m id alias = record m { aliases = remove m.aliases alias }

keys_holding : String → Dict String → List String
keys_holding id [] = []
keys_holding id ((alias, target) ∷ d) =
    let rest = keys_holding id d in if target == id then alias ∷ rest else rest

unfoldable pub list_aliases : MemoryStore → String → List String
unfolding keys_holding
list_aliases m id = keys_holding id m.aliases
