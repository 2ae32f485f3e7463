-- ===== src/Artifact/Labels.antt =====
-- artifact.go: labels with a namespace prefix, and the lifecycle status among them.
pub mod Mirror
pub mod Status
use parchment.Prelude.{
  String, Bool, ◌||◌, not, ◌&&◌, List, [], ◌∷◌, ◌++◌, ◌<>◌, ◌==◌, if◌then◌else◌, has_prefix,
  trim_prefix, keep, any_of,
}

abbrev pub label_prefix_kind : String
label_prefix_kind = "kind:"

abbrev pub label_prefix_status : String
label_prefix_status = "status:"

abbrev pub label_prefix_scope : String
label_prefix_scope = "project:"

abbrev pub label_prefix_priority : String
label_prefix_priority = "priority:"

abbrev pub label_prefix_sprint : String
label_prefix_sprint = "sprint:"

unfoldable pub label_value : List String → String → String
label_value [] prefix = ""
label_value (l ∷ labels) prefix =
    if has_prefix l prefix then trim_prefix l prefix else label_value labels prefix

unfoldable pub mirror_label : List String → String → String → List String
mirror_label labels prefix value =
    let out = keep (λ l. not (has_prefix l prefix)) labels in
    if value == "" then out else out ++ (prefix <> value) ∷ []

abbrev pub domain_status_prefixes : List String
domain_status_prefixes = "work." ∷ "note." ∷ "decision." ∷ "agent." ∷ "code." ∷ []

unfoldable pub is_domain_status_label : String → Bool
unfolding any_of
is_domain_status_label label = any_of (has_prefix label) domain_status_prefixes

first_domain_status : List String → String → String
first_domain_status [] otherwise = otherwise
first_domain_status (l ∷ labels) otherwise =
    if is_domain_status_label l then l else first_domain_status labels otherwise

unfoldable pub status_from_labels : List String → String
unfolding first_domain_status
status_from_labels labels = first_domain_status labels (label_value labels label_prefix_status)

abbrev pub is_status_label : String → Bool
is_status_label l = is_domain_status_label l || has_prefix l label_prefix_status

abbrev pub status_label : String → String
status_label status =
    if is_domain_status_label status then status else label_prefix_status <> status

unfoldable pub set_status_label : List String → String → List String
set_status_label labels status =
    let out =
      keep (λ l. not (is_domain_status_label l) && not (has_prefix l label_prefix_status)) labels in
    if status == "" then out else out ++ status_label status ∷ []

unfoldable pub has_any_status_label : List String → Bool
has_any_status_label = any_of is_status_label
