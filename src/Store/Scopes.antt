-- ===== src/Store/Scopes.antt =====
-- memstore.go: labels of scopes.
pub mod Labelled
use parchment.Prelude.{String, Option, List, [], ◌∷◌, ◌==◌, any_of, map, if◌then◌else◌}
use parchment.Dict.{Dict, lookup, insert}
use parchment.Store.{MemoryStore}
use parchment.Store.Revisions.{slice_at}

pub record ScopeInfo : Type 0 where
  pub scope : String
  pub labels : List String

unfoldable pub set_scope_labels : MemoryStore → String → List String → MemoryStore
set_scope_labels m scope labels = record m { scope_labels = insert m.scope_labels scope labels }

unfoldable pub get_scope_labels : MemoryStore → String → List String
get_scope_labels m scope = slice_at (lookup m.scope_labels scope)

labelled : String → Dict (List String) → List String
labelled label [] = []
labelled label ((scope, labels) ∷ d) =
    let rest = labelled label d in if any_of (λ l. l == label) labels then scope ∷ rest else rest

unfoldable pub scopes_by_label : MemoryStore → String → List String
unfolding labelled
scopes_by_label m label = labelled label m.scope_labels

unfoldable pub list_scope_info : MemoryStore → List ScopeInfo
list_scope_info m = map (λ e. record { scope = e.0; labels = e.1 }) m.scope_labels
