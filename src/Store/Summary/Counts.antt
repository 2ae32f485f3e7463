-- ===== src/Store/Summary/Counts.antt =====
-- The counts of the summaries.
use parchment.Prelude.{
  ℕ, ◌+◌, String, Bool, ◌&&◌, not, List, [], ◌∷◌, ◌≡◌, ◌≢◌, inl, inr, refl, ap, ◌∙◌, arith, ◌==◌,
  eq_iff, if◌then◌else◌, String-cases, keep, length,
}
use parchment.Dict.{Dict, lookup, insert, values, lookup-insert, IsDistinct, insert-IsDistinct}
use parchment.Artifact.{Artifact}
use parchment.Artifact.Labels.{label_value, label_prefix_scope, label_prefix_kind}
use parchment.Store.{MemoryStore}
use parchment.Store.Summary.{
  ScopeCount, count_at, count_by, named_counts, schema_scope, scope_graph, has_statuses, kind_graph,
}

-- the artifacts with a value of a label
abbrev pub with_label : String → String → List Artifact → List Artifact
with_label prefix k arts = keep (λ a. label_value a.labels prefix == k) arts

pub lookup-count_by :
    (prefix : String) (arts : List Artifact) (counts : Dict ℕ) (k : String)
    → count_at (lookup (count_by prefix arts counts) k)
      ≡ count_at (lookup counts k) + length (with_label prefix k arts)
unfolding count_by keep
lookup-count_by prefix [] counts k = omega arith
lookup-count_by prefix (a ∷ arts) counts k =
    let j = label_value a.labels prefix in
    ground (
      arith,
      lookup-count_by prefix arts (insert counts j (count_at (lookup counts j) + 1)) k,
      lookup-insert counts j k (count_at (lookup counts j) + 1),
      eq_iff j k,
    )

count_by-IsDistinct :
    (prefix : String) (arts : List Artifact) (counts : Dict ℕ)
    → IsDistinct counts
    → IsDistinct (count_by prefix arts counts)
unfolding count_by
count_by-IsDistinct prefix [] counts h = h
count_by-IsDistinct prefix (a ∷ arts) counts h =
    count_by-IsDistinct prefix arts _ (insert-IsDistinct counts _ _ h)

abbrev pub total : String → List ScopeCount → ℕ
total k [] = 0
total k (c ∷ cs) = (if c.scope == k then c.count else 0) + total k cs

total-named_counts :
    (counts : Dict ℕ) (k : String)
    → IsDistinct counts
    → k ≢ ""
    → total k (named_counts counts) ≡ count_at (lookup counts k)
unfolding named_counts lookup
total-named_counts [] k h n = refl
total-named_counts ((j, c) ∷ counts) k h n =
    ground (arith, total-named_counts counts k h.1 n, eq_iff j k, eq_iff j "", eq_iff k "", h.0)

total-empty_name : (counts : Dict ℕ) → total "" (named_counts counts) ≡ 0
unfolding named_counts
total-empty_name [] = refl
total-empty_name ((j, c) ∷ counts) = ground (arith, total-empty_name counts, eq_iff j "")

total-count_by :
    (prefix : String) (arts : List Artifact) (k : String)
    → total k (named_counts (count_by prefix arts []))
      ≡ (if k == "" then 0 else length (with_label prefix k arts))
unfolding lookup
total-count_by prefix arts k = elim (String-cases k "") [
  | inl (q, e) ↦ rw (e, if◌then◌else◌) (rw q (total-empty_name (count_by prefix arts [])))
  | inr (n, f) ↦
      rw (f, if◌then◌else◌)
        (total-named_counts (count_by prefix arts []) k (count_by-IsDistinct prefix arts [] tt) n
          ∙ lookup-count_by prefix arts [] k
          ∙ omega arith)
]

length-with_label :
    (prefix k : String) (p : Artifact → Bool) (arts : List Artifact)
    → length (with_label prefix k (keep p arts))
      ≡ length (keep (λ a. p a && label_value a.labels prefix == k) arts)
unfolding keep
length-with_label prefix k p [] = refl
length-with_label prefix k p (a ∷ arts) = ground (arith, length-with_label prefix k p arts)

-- In the graph of kinds the count of a kind is the number of artifacts of the scope that have the kind and
-- carry every status label asked for; artifacts without a kind are not has_statuses.
pub total-kind_graph :
    (m : MemoryStore) (scope : String) (status_labels relations : List String) (kind : String)
    → total kind (kind_graph m scope status_labels relations).0 ≡ (
        if kind == ""
        then 0
        else length (
            keep
              (λ a.
                has_statuses scope status_labels a
                && label_value a.labels label_prefix_kind == kind)
              (values m.artifacts)))
unfolding kind_graph
total-kind_graph m scope status_labels relations kind =
    total-count_by label_prefix_kind (keep (has_statuses scope status_labels) (values m.artifacts))
      kind
    ∙ ap (λ n. if kind == "" then 0 else n)
        (length-with_label label_prefix_kind kind (has_statuses scope status_labels)
          (values m.artifacts))

length-schema_kept :
    (k : String) (arts : List Artifact)
    → length (
        keep
          (λ a.
            not (label_value a.labels label_prefix_scope == schema_scope)
            && label_value a.labels label_prefix_scope == k)
          arts)
      ≡ (if k == schema_scope then 0 else length (with_label label_prefix_scope k arts))
unfolding keep
length-schema_kept k [] = ground arith
length-schema_kept k (a ∷ arts) =
    let j = label_value a.labels label_prefix_scope in
    ground
      (arith, length-schema_kept k arts, eq_iff j schema_scope, eq_iff j k, eq_iff k schema_scope)

-- In the graph of scopes the count of a scope is the number of artifacts that have it; the scope of the
-- schema is left out, and so are artifacts without a scope.
pub total-scope_graph :
    (m : MemoryStore) (scope : String)
    → total scope (scope_graph m).0 ≡ (
        if scope == ""
        then 0
        else if scope == schema_scope
        then 0
        else length (with_label label_prefix_scope scope (values m.artifacts)))
unfolding scope_graph
total-scope_graph m scope =
    let p = λ (a : Artifact). not (label_value a.labels label_prefix_scope == schema_scope) in
    total-count_by label_prefix_scope (keep p (values m.artifacts)) scope
    ∙ ap (λ n. if scope == "" then 0 else n)
        (length-with_label label_prefix_scope scope p (values m.artifacts)
          ∙ length-schema_kept scope (values m.artifacts))
