-- ===== src/Store/Summary.antt =====
-- memstore.go: the graphs of scopes and of kinds, with how often each occurs.
pub mod Counts
use parchment.Prelude.{
  ℕ, suc, ◌+◌, String, Bool, ◌&&◌, ◌||◌, not, Option, none, some, List, [], ◌∷◌, ◌==◌, keep, any_of,
  all_of, is_empty, if◌then◌else◌,
}
use parchment.Dict.{Dict, lookup, insert, values}
use parchment.Artifact.{Artifact}
use parchment.Artifact.Labels.{label_value, label_prefix_scope, label_prefix_kind}
use parchment.Store.{MemoryStore, Edge}
use parchment.Store.Edges.{related}

pub record ScopeCount : Type 0 where
  pub scope : String
  pub count : ℕ

pub record ScopeEdgeWeight : Type 0 where
  pub from_scope : String
  pub to_scope : String
  pub weight : ℕ

abbrev pub schema_scope : String
schema_scope = "_schema"

-- counts[k] where a missing key reads as 0
abbrev pub count_at : Option ℕ → ℕ
count_at none = 0
count_at (some n) = n

-- `for _, art := range arts { counts[label(art)]++ }`
unfoldable pub count_by : String → List Artifact → Dict ℕ → Dict ℕ
count_by prefix [] counts = counts
count_by prefix (a ∷ arts) counts =
    let k = label_value a.labels prefix in
    count_by prefix arts (insert counts k (count_at (lookup counts k) + 1))

unfoldable pub named_counts : Dict ℕ → List ScopeCount
named_counts [] = []
named_counts ((k, n) ∷ counts) =
    let rest = named_counts counts in
    if k == "" then rest else record { scope = k; count = n } ∷ rest

label_of : String → List Artifact → Dict String → Dict String
label_of prefix [] d = d
label_of prefix (a ∷ arts) d = label_of prefix arts (insert d a.id (label_value a.labels prefix))

abbrev text_at : Option String → String
text_at none = ""
text_at (some s) = s

bump : List ScopeEdgeWeight → String → String → List ScopeEdgeWeight
bump [] f t = record { from_scope = f; to_scope = t; weight = 1 } ∷ []
bump (w ∷ ws) f t =
    let rest = bump ws f t in
    if w.from_scope == f && w.to_scope == t
    then record w { weight = w.weight + 1 } ∷ ws
    else w ∷ rest

weigh : Dict String → List Edge → List ScopeEdgeWeight → List ScopeEdgeWeight
unfolding bump
weigh labels [] ws = ws
weigh labels (e ∷ es) ws =
    let f = text_at (lookup labels e.from) in
    let t = text_at (lookup labels e.to) in
    weigh labels es (if not (f == "") && not (t == "") && not (f == t) then bump ws f t else ws)

unfoldable pub scope_graph : MemoryStore → List ScopeCount × List ScopeEdgeWeight
unfolding label_of weigh
scope_graph m =
    let arts = values m.artifacts in
    (
      named_counts (
          count_by label_prefix_scope
            (keep (λ a. not (label_value a.labels label_prefix_scope == schema_scope)) arts) []),
      weigh (label_of label_prefix_scope arts []) (values m.edges) [],
    )

-- `art` is of the scope and carries every one of the status labels
abbrev pub has_statuses : String → List String → Artifact → Bool
has_statuses scope status_labels a =
    label_value a.labels label_prefix_scope == scope
    && all_of (λ sl. any_of (λ l. l == sl) a.labels) status_labels

unfoldable pub kind_graph :
    MemoryStore → String → List String → List String → List ScopeCount × List ScopeEdgeWeight
unfolding label_of weigh
kind_graph m scope status_labels relations =
    let arts = values m.artifacts in
    (
      named_counts (count_by label_prefix_kind (keep (has_statuses scope status_labels) arts) []),
      weigh (label_of label_prefix_kind arts []) (keep (related relations) (values m.edges)) [],
    )
