-- ===== src/Protocol/Kinds.antt =====
-- protocol_lifecycle_traits.go: what the traits say of a kind and of a status. The trait of a kind stands
-- under its label, that of a status under its own name or under the name with the prefix `status:`.
use parchment.Prelude.{
  String, Bool, false, ◌&&◌, ◌||◌, Option, none, some, List, [], ◌∷◌, ◌<>◌, map, keep, is_some,
  has_prefix, trim_prefix, str_leb, ltb,
}
use parchment.Prelude.Scanning.{contains, str_length}
use parchment.Prelude.Sorting.{sort_slice}
use parchment.Dict.{Dict, lookup}
use parchment.Artifact.Labels.{label_prefix_kind, label_prefix_status, is_domain_status_label}
use parchment.Protocol.Rules.{RelationshipTrait, rel_parent_of, is_edge_allowed}
use parchment.Protocol.Traits.{LabelTrait}

abbrev pub Traits : Type 0
Traits = Dict LabelTrait

abbrev pub kind_trait : Traits → String → Option LabelTrait
kind_trait traits kind = lookup traits (label_prefix_kind <> kind)

-- `if trait, ok := …; ok { return trait.… }; return` the zero value
abbrev field_of {ℓ} : {A : Type ℓ} → A → (LabelTrait → A) → Option LabelTrait → A
field_of zero_value get none = zero_value
field_of zero_value get (some t) = get t

-- a status is looked up under its name, and else with the prefix
abbrev pub status_trait : Traits → String → Option LabelTrait
status_trait traits status = elim (lookup traits status) [
  | some t ↦ some t
  | none ↦ lookup traits (label_prefix_status <> status)
]

unfoldable pub is_terminal : Traits → String → Bool
is_terminal traits status = field_of false (λ t. t.terminal) (status_trait traits status)

unfoldable pub is_readonly : Traits → String → Bool
is_readonly traits status = field_of false (λ t. t.readonly) (status_trait traits status)

unfoldable pub default_status : Traits → String → String
default_status traits kind = field_of "" (λ t. t.default_status) (kind_trait traits kind)

unfoldable pub active_status : Traits → String → String
active_status traits kind = field_of "" (λ t. t.active_status) (kind_trait traits kind)

unfoldable pub must_sections : Traits → String → List String
must_sections traits kind = field_of [] (λ t. t.must_sections) (kind_trait traits kind)

unfoldable pub should_sections : Traits → String → List String
should_sections traits kind = field_of [] (λ t. t.should_sections) (kind_trait traits kind)

abbrev flag : (LabelTrait → Bool) → Traits → String → Bool
flag get traits kind = field_of false get (kind_trait traits kind)

unfoldable pub is_container_kind : Traits → String → Bool
is_container_kind = flag (λ t. t.is_container_kind)

unfoldable pub requires_implementation : Traits → String → Bool
requires_implementation = flag (λ t. t.requires_implementation)

unfoldable pub skip_empty_check : Traits → String → Bool
skip_empty_check = flag (λ t. t.skip_empty_check)

unfoldable pub is_protected : Traits → String → Bool
is_protected = flag (λ t. t.protected)

unfoldable pub is_template_kind : Traits → String → Bool
is_template_kind = flag (λ t. t.is_template)

unfoldable pub is_rule_kind : Traits → String → Bool
is_rule_kind = flag (λ t. t.is_rule)

unfoldable pub is_config_kind : Traits → String → Bool
is_config_kind = flag (λ t. t.is_config)

unfoldable pub skip_guards : Traits → String → Bool
skip_guards = flag (λ t. t.skip_guards)

unfoldable pub is_goal_kind : Traits → String → Bool
is_goal_kind = flag (λ t. t.is_goal_kind)

unfoldable pub track_in_brief : Traits → String → Bool
track_in_brief = flag (λ t. t.track_in_brief)

unfoldable pub activation_requires_sections : Traits → String → Bool
activation_requires_sections = flag (λ t. t.activation_requires_sections)

unfoldable pub is_recallable : Traits → String → Bool
is_recallable = flag (λ t. t.recallable)

unfoldable pub is_audit_retain : Traits → String → Bool
is_audit_retain = flag (λ t. t.audit_retain)

unfoldable pub is_known_kind : Traits → String → Bool
is_known_kind traits kind = is_some (kind_trait traits kind)

unfoldable pub is_known_status : Traits → String → Bool
is_known_status traits status = elim (lookup traits status) [
  | some t ↦ is_domain_status_label status || has_prefix status label_prefix_status
  | none ↦ is_some (lookup traits (label_prefix_status <> status))
]

abbrev pub keys {ℓ} : {V : Type ℓ} → Dict V → List String
keys d = map (λ e. e.0) d

abbrev sorted : List String → List String
sorted = sort_slice str_leb

unfoldable pub all_statuses : Traits → List String
unfolding contains
all_statuses traits =
    sorted (keep (λ key. contains key "." || has_prefix key label_prefix_status) (keys traits))

-- the key of a kind that has a name
abbrev pub is_kind_label : String → Bool
is_kind_label key = ltb 5 (str_length key) && has_prefix key label_prefix_kind

unfoldable pub all_kinds : Traits → List String
unfolding str_length
all_kinds traits =
    sorted (map (λ key. trim_prefix key label_prefix_kind) (keep is_kind_label (keys traits)))

unfoldable pub kinds_with_prefix : Traits → String → List String
kinds_with_prefix traits prefix =
    let match_prefix = label_prefix_kind <> prefix <> "." in
    sorted (
      map (λ key. trim_prefix key label_prefix_kind)
        (keep (λ key. has_prefix key match_prefix) (keys traits)))

abbrev labels_with : (LabelTrait → Bool) → Traits → List String
labels_with get traits =
    keys (keep (λ (e : String × LabelTrait). is_kind_label e.0 && get e.1) traits)

unfoldable pub template_kind_labels : Traits → List String
unfolding str_length
template_kind_labels = labels_with (λ t. t.is_template)

unfoldable pub rule_kind_labels : Traits → List String
unfolding str_length
rule_kind_labels = labels_with (λ t. t.is_rule)

unfoldable pub config_kind_labels : Traits → List String
unfolding str_length
config_kind_labels = labels_with (λ t. t.is_config)

-- ValidChild, without the text that says what else could be done
unfoldable pub valid_child : List RelationshipTrait → String → String → Bool
valid_child rels parent_kind child_kind =
    is_edge_allowed rels ((label_prefix_kind <> parent_kind) ∷ []) rel_parent_of
      ((label_prefix_kind <> child_kind) ∷ [])
