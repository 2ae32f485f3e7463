-- ===== src/Protocol/Edits.antt =====
-- protocol_lifecycle.go, with ValidateKind and ValidPriority of schema.go: the cases of the switch of
-- setFieldSingle that change the artifact itself.
pub mod Labels
use parchment.Prelude.{
  ℕ, suc, ◌+◌, String, Bool, true, false, ◌&&◌, ◌||◌, not, Option, none, some, List, [], ◌∷◌, ◌++◌,
  ◌==◌, map, is_empty, has_prefix, if◌then◌else◌,
}
use parchment.Prelude.Scanning.{split, trim_space}
use parchment.Artifact.{Artifact, Section, Value, text, object, member, no_members, field_goal}
use parchment.Artifact.Labels.{
  label_value, mirror_label, label_prefix_kind, label_prefix_scope, label_prefix_priority,
  label_prefix_sprint, is_status_label, status_from_labels,
}
use parchment.Store.{MemoryStore, Edge}
use parchment.Store.Access.{record_access}
use parchment.Store.Aliases.{add_alias, get_by_alias}
use parchment.Store.Artifacts.{get}
use parchment.Store.Edges.{neighbors, outgoing, add_edge, in_set}
use parchment.Store.Queries.{children}
use parchment.Store.Rename.{rename_id}
use parchment.Store.Result.{Result, Status, ok, err, plain}
use parchment.Protocol.Admission.{Config, Refusal, kind_of, rel_depends_on}
use parchment.Protocol.Cycle.{would_cycle}
use parchment.Protocol.Emit.{emit_event}
use parchment.Protocol.Link.{edge_to}
use parchment.Protocol.Parent.{ParentError, remove_edges, set_field_parent}
use parchment.Protocol.Rules.{RelationshipTrait}
use parchment.Protocol.Sections.{Writer, see, with_sections, replace_text, put_stamped}
use parchment.Protocol.Statuses.{Verdict, accepted, validate_status}
use parchment.Protocol.Transition.{Run, Answer, setting, perform}

-- what the Protocol holds beside the store, the runtime's parts, and the fuel for the climbs
pub record Settings : Type 0 where
  pub config : Config
  pub writer : Writer
  pub relationships : List RelationshipTrait
  pub vocab : List String
  pub priorities : List String
  pub mutable_created_at : Bool
  pub parse_time : String → Option ℕ
  pub new_uuid : ℕ → String
  pub fuel : ℕ

pub data FieldError : Type 0 where
  not_found alias_failed immutable not_mutable invalid_time scope_empty invalid_priority
        unknown_kind :
      FieldError
  label_is_status unknown_field migrate_failed : FieldError
  status_refused : Refusal → FieldError
  parent_refused : ParentError → FieldError
  kind_rejected : Verdict → FieldError
  depends_on_cycle : List String → FieldError

-- ValidateKind, true where it returns an error, and ValidPriority
abbrev pub kind_unknown : String → List String → Bool
kind_unknown kind vocab = not (is_empty vocab) && not (in_set vocab kind)

abbrev pub valid_priority : List String → String → Bool
valid_priority priorities priority = is_empty priorities || in_set priorities priority

-- an edit of the artifact, and what the stored artifact sees of it before it is put
pub data Edit : Type 0 where
  edited : Artifact → (Artifact → Artifact) → Edit
  stopped : FieldError → Edit

abbrev unseen : Artifact → Edit
unseen art = edited art (λ a. a)

abbrev set_goal : Artifact → String → Option (List Section) → Edit
set_goal art value none =
    unseen (with_sections (record { name = field_goal; text = value } ∷ art.sections) art)
set_goal art value (some secs) = edited (with_sections secs art) (with_sections secs)

abbrev set_created_at : Artifact → Option ℕ → Edit
set_created_at art none = stopped invalid_time
set_created_at art (some t) = unseen (record art { created_at = t })

abbrev relabelled : Artifact → String → String → Edit
relabelled art prefix value = unseen (record art { labels = mirror_label art.labels prefix value })

abbrev set_kind : Artifact → String → Bool → Verdict → Edit
set_kind art value checked accepted = relabelled art label_prefix_kind value
set_kind art value checked v =
    if checked then stopped (kind_rejected v) else relabelled art label_prefix_kind value

abbrev pub or_stop : String → Option (List String) → Option (List String)
or_stop l none = none
or_stop l (some ls) = if l == "" then some ls else some (l ∷ ls)

-- the labels of the list, or none where one of them is a status
unfoldable pub parse_labels : List String → Option (List String)
parse_labels [] = some []
parse_labels (part ∷ parts) =
    let l = trim_space part in
    let rest = parse_labels parts in
    if not (l == "") && is_status_label l then none else or_stop l rest

abbrev pub set_labels : Artifact → Option (List String) → Edit
set_labels art none = stopped label_is_status
set_labels art (some labels) = unseen (record art { labels = labels })

-- the cases of the switch that go on to the write
unfoldable pub edit : Settings → Artifact → String → String → Edit
unfolding replace_text parse_labels
edit s art field value =
    if field == "inserted_at"
    then stopped immutable
    else if field == "created_at"
    then (if s.mutable_created_at
        then set_created_at art (s.parse_time value)
        else stopped not_mutable)
    else if field == "title"
    then unseen (record art { title = value })
    else if field == field_goal
    then set_goal art value (replace_text art.sections field_goal value)
    else if field == "scope"
    then (if value == "" then stopped scope_empty else relabelled art label_prefix_scope value)
    else if field == "priority"
    then (if not (value == "") && not (valid_priority s.priorities value)
        then stopped invalid_priority
        else relabelled art label_prefix_priority value)
    else if field == "sprint"
    then relabelled art label_prefix_sprint value
    else if field == "kind"
    then (if kind_unknown value s.vocab
        then stopped unknown_kind
        else (let status = status_from_labels art.labels in
            set_kind art value (not (status == ""))
              (validate_status s.config.traits value "" status)))
    else if field == "labels"
    then set_labels art (if value == "" then some [] else parse_labels (split value ","))
    else stopped unknown_field
