-- ===== src/Protocol/Rules.antt =====
-- relationship.go, and its readers in protocol_lifecycle_traits.go: which edges the schema allows between
-- artifacts, by their labels, and with which constraints.
pub mod Allowed
use parchment.Prelude.{
  ℕ, String, Bool, true, false, ◌&&◌, ◌||◌, not, Option, none, some, List, [], ◌∷◌, ◌==◌, ◌<>◌,
  nat_eq, any_of, is_empty, is_some, if◌then◌else◌,
}
use parchment.Dict.{Dict, lookup}
use parchment.Artifact.Labels.{label_prefix_kind}

pub record RelationshipTrait : Type 0 where
  pub from : String
  pub relation : String
  pub to : String
  pub cycle_guard : Bool
  pub completion_rollup : Bool
  pub max_incoming : ℕ
  pub conformance_check : Bool

abbrev pub rel_parent_of : String
rel_parent_of = "parent_of"

abbrev pub rel_satisfies : String
rel_satisfies = "satisfies"

-- `for _, l := range labels { if end == l { … } }`
abbrev pub names : String → List String → Bool
names end labels = any_of (λ l. end == l) labels

abbrev pub applies : List String → String → List String → RelationshipTrait → Bool
applies from_labels relation to_labels r =
    r.relation == relation
    && (r.from == "*" || names r.from from_labels)
    && (r.to == "*" || names r.to to_labels)

unfoldable pub find_relationship :
    List RelationshipTrait → List String → String → List String → Option RelationshipTrait
find_relationship [] from_labels relation to_labels = none
find_relationship (r ∷ rels) from_labels relation to_labels =
    let rest = find_relationship rels from_labels relation to_labels in
    if applies from_labels relation to_labels r then some r else rest

unfoldable pub is_edge_allowed : List RelationshipTrait → List String → String → List String → Bool
unfolding find_relationship
is_edge_allowed rels source_labels relation target_labels =
    is_some (find_relationship rels source_labels relation target_labels)

unfoldable pub is_cycle_guarded : List RelationshipTrait → List String → String → Bool
is_cycle_guarded rels source_labels relation =
    any_of (λ r. r.relation == relation && r.cycle_guard && names r.from source_labels) rels

-- A label list without an element sets no bound, not even by a wildcard.
abbrev pub bounds_parents : List String → RelationshipTrait → Bool
bounds_parents labels r =
    r.relation == rel_parent_of
    && not (nat_eq r.max_incoming 0)
    && any_of (λ l. r.to == l || r.to == "*") labels

-- 0 is no bound
unfoldable pub max_parents_for : List RelationshipTrait → List String → ℕ
max_parents_for [] labels = 0
max_parents_for (r ∷ rels) labels =
    let rest = max_parents_for rels labels in
    if bounds_parents labels r then r.max_incoming else rest
