-- ===== src/Protocol/Fields.antt =====
-- protocol_lifecycle.go, with GetArtifact and MigrateID of protocol_crud.go: `SetField`. The texts of the
-- messages are left out; an error names what stood in the way.
pub mod Depends
use parchment.Prelude.{
  ℕ, suc, ◌+◌, String, Bool, true, false, ◌&&◌, ◌||◌, not, Option, none, some, List, [], ◌∷◌, ◌++◌,
  ◌==◌, map, is_empty, has_prefix, if◌then◌else◌,
}
use parchment.Prelude.Scanning.{split, trim_space}
use parchment.Artifact.{Artifact, Section, Value, text, object, member, no_members, field_goal}
use parchment.Artifact.Labels.{
  label_value, mirror_label, label_prefix_kind, label_prefix_scope, label_prefix_priority,
  label_prefix_sprint, is_status_label, status_from_labels,
}
use parchment.Store.{MemoryStore, Edge}
use parchment.Store.Access.{record_access}
use parchment.Store.Aliases.{add_alias, get_by_alias}
use parchment.Store.Artifacts.{get}
use parchment.Store.Edges.{neighbors, outgoing, add_edge, in_set}
use parchment.Store.Queries.{children}
use parchment.Store.Rename.{rename_id}
use parchment.Store.Result.{Result, Status, ok, err, plain}
use parchment.Protocol.Admission.{Config, Refusal, kind_of, rel_depends_on}
use parchment.Protocol.Cycle.{would_cycle}
use parchment.Protocol.Emit.{emit_event}
use parchment.Protocol.Link.{edge_to}
use parchment.Protocol.Parent.{ParentError, remove_edges, set_field_parent}
use parchment.Protocol.Rules.{RelationshipTrait}
use parchment.Protocol.Sections.{Writer, see, with_sections, replace_text, put_stamped}
use parchment.Protocol.Statuses.{Verdict, accepted, validate_status}
use parchment.Protocol.Transition.{Run, Answer, setting, perform}
use parchment.Protocol.Edits.{
  Settings, FieldError, not_found, alias_failed, migrate_failed, status_refused, parent_refused,
  depends_on_cycle, Edit, edited, stopped, edit,
}

pub record SetFieldOptions : Type 0 where
  pub force : Bool
  pub bypass_guards : Bool
  pub cascade : Bool
  pub dry_run : Bool
  pub rename_id : Bool

pub record FieldResult : Type 0 where
  pub id : String
  pub done : Bool
  pub error : Option FieldError
  pub new_id : String

abbrev pub success : String → FieldResult
success id = record { id = id; done = true; error = none; new_id = "" }

abbrev pub failure : String → FieldError → FieldResult
failure id e = record { id = id; done = false; error = some e; new_id = "" }

-- the artifact by its ID or by its alias, and the record of the access
abbrev pub or_alias : Result Artifact → Result Artifact → Result Artifact
or_alias (ok art) by_alias = ok art
or_alias (err e) (ok art) = ok art
or_alias (err e) (err _) = err e

abbrev accessed : ℕ → MemoryStore → Result Artifact → MemoryStore
accessed now m (err e) = m
accessed now m (ok art) = record_access now m art.id

unfoldable pub get_artifact : ℕ → MemoryStore → String → Result Artifact × MemoryStore
unfolding record_access
get_artifact now m id =
    let found = or_alias (get m id) (get_by_alias m id) in (found, accessed now m found)

unfoldable pub migrate_id : MemoryStore → String → String → Status × MemoryStore
migrate_id m old_id new_id =
    if old_id == "" || new_id == ""
    then (err plain, m)
    else if old_id == new_id
    then (ok tt, m)
    else rename_id m old_id new_id

abbrev migrated : String → String → Status × MemoryStore → FieldResult × MemoryStore
migrated id new_id (ok _, m) = (record (success id) { new_id = new_id }, m)
migrated id new_id (err e, m) = (record (success id) { error = some migrate_failed }, m)

-- the part after the switch
unfoldable pub write_edit :
    Settings → SetFieldOptions → Run → String → String → String → Edit → FieldResult × Run
unfolding see put_stamped emit_event migrate_id
write_edit s opt r id field value (stopped e) = (failure id e, r)
write_edit s opt r id field value (edited art change) =
    let (stored, m) =
      put_stamped s.writer (s.config.clock r.ticks) (see r.store art.id change) art in
    let m' =
      emit_event (s.config.clock (suc r.ticks)) m "updated" stored.id
        (label_value stored.labels label_prefix_scope)
        (object (member "field" (text field) (member "value" (text value) no_members))) in
    let uuid = s.new_uuid r.ticks in
    let (answer, m'') = migrated id uuid (migrate_id m' id uuid) in
    let ticks = r.ticks + 2 in
    if field == "scope" && opt.rename_id
    then (answer, record { store = m''; ticks = ticks })
    else (success id, record { store = m'; ticks = ticks })

-- setFieldDependsOn: the loop over the new dependencies
unfoldable pub add_dependencies :
    String → List String → MemoryStore → Option (List String) × MemoryStore
unfolding would_cycle add_edge
add_dependencies id [] m = (none, m)
add_dependencies id (dep ∷ deps) m =
    let (cycle, path) = would_cycle m rel_depends_on id dep in
    let rest = add_dependencies id deps (add_edge m (edge_to id rel_depends_on 0 dep)) in
    if cycle then (some path, m) else rest

unfoldable pub set_field_depends_on :
    MemoryStore → String → String → Option (List String) × MemoryStore
unfolding add_dependencies remove_edges
set_field_depends_on m id value =
    if value == ""
    then (none, remove_edges (neighbors m id rel_depends_on outgoing) m)
    else add_dependencies id (map trim_space (split value ",")) m

abbrev dependency_result : String → Option (List String) → FieldResult
dependency_result id none = success id
dependency_result id (some path) = failure id (depends_on_cycle path)

abbrev status_result : String → Answer → Option (FieldResult × Run)
status_result id none = none
status_result id (some (none, r)) = some (success id, r)
status_result id (some (some e, r)) = some (failure id (status_refused e), r)

abbrev parent_result :
    String → Run → Option (Option ParentError × MemoryStore) → Option (FieldResult × Run)
parent_result id r none = none
parent_result id r (some (none, m)) = some (success id, record r { store = m })
parent_result id r (some (some e, m)) = some (failure id (parent_refused e), record r { store = m })

-- A new alias is answered without an error, and without OK either.
abbrev alias_result : String → Run → Status × MemoryStore → FieldResult × Run
alias_result id r (ok _, m) =
    (record { id = id; done = false; error = none; new_id = "" }, record r { store = m })
alias_result id r (err e, m) = (failure id alias_failed, record r { store = m })

-- The handlers of parent and depends_on take the ID that the caller wrote, which may be an alias.
unfoldable pub set_on :
    Settings
    → SetFieldOptions
    → Run
    → String
    → Artifact
    → String
    → String
    → Option (FieldResult × Run)
unfolding perform set_field_parent set_field_depends_on edit write_edit
set_on s opt r id art field value =
    let (cycle, m) = set_field_depends_on r.store id value in
    if field == "alias"
    then some (alias_result id r (add_alias r.store art.id value))
    else if field == "status"
    then status_result art.id
        (perform s.config s.fuel (setting art value (opt.force || opt.bypass_guards)) r)
    else if field == "parent"
    then parent_result id r (set_field_parent s.fuel s.relationships r.store id art value)
    else if field == "depends_on"
    then some (dependency_result id cycle, record r { store = m })
    else some (write_edit s opt r id field value (edit s art field value))

abbrev set_found :
    Settings
    → SetFieldOptions
    → Run
    → String
    → String
    → String
    → Result Artifact
    → Option (FieldResult × Run)
unfolding set_on
set_found s opt r id field value (err e) = some (failure id not_found, r)
set_found s opt r id field value (ok art) = set_on s opt r id art field value

unfoldable pub set_field_single :
    Settings → SetFieldOptions → Run → String → String → String → Option (FieldResult × Run)
unfolding get_artifact set_found
set_field_single s opt r id field value =
    let (found, m) = get_artifact (s.config.clock r.ticks) r.store id in
    set_found s opt (record { store = m; ticks = suc r.ticks }) id field value found

abbrev Results : Type 0
Results = Option (List FieldResult × Run)

abbrev and_then : Option (FieldResult × Run) → (FieldResult → Run → Results) → Results
and_then none f = none
and_then (some (result, r)) f = f result r

abbrev prepended : FieldResult → Results → Results
prepended result none = none
prepended result (some (results, r)) = some (result ∷ results, r)

-- the field of each in turn
unfoldable pub set_each : Settings → SetFieldOptions → String → String → List String → Run → Results
unfolding set_field_single
set_each s opt field value [] r = some ([], r)
set_each s opt field value (id ∷ ids) r =
    and_then (set_field_single s opt r id field value)
      (λ result r'. prepended result (set_each s opt field value ids r'))

abbrev then_each : Results → (Run → Results) → Results
then_each none f = none
then_each (some (results, r)) f = elim (f r) [
  | none ↦ none
  | some (more, r') ↦ some (results ++ more, r')
]

abbrev cascaded :
    Settings → SetFieldOptions → String → String → String → FieldResult → Run → Results
unfolding set_each
cascaded s opt field value id result r =
    let below = set_each s opt field value (map (λ ch. ch.id) (children r.store id)) r in
    prepended result
      (if result.done && opt.cascade && field == "status" then below else some ([], r))

unfoldable pub set_fields :
    Settings → SetFieldOptions → String → String → List String → Run → Results
unfolding cascaded
set_fields s opt field value [] r = some ([], r)
set_fields s opt field value (id ∷ ids) r =
    then_each (and_then (set_field_single s opt r id field value) (cascaded s opt field value id))
      (set_fields s opt field value ids)

-- SetField; `none` in the answer stands for its own two errors, which name a missing argument
unfoldable pub set_field :
    Settings
    → SetFieldOptions
    → List String
    → String
    → String
    → Run
    → Option (Option (List FieldResult) × Run)
unfolding set_fields
set_field s opt ids field value r =
    let results = set_fields s opt field value ids r in
    if is_empty ids || field == ""
    then some (none, r)
    else if opt.dry_run
    then some (some (map success ids), r)
    else elim results [ none ↦ none | some (rs, r') ↦ some (some rs, r') ]
