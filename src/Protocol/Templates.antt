-- ===== src/Protocol/Templates.antt =====
-- protocol_template.go: the template that an artifact satisfies, and the sections that it asks for. The text
-- of the error, which only people read, is left out: it names the missing sections.
pub mod Conforming
use Prim.Native.Char.{code}
use parchment.Prelude.{
  String, Bool, true, false, ◌&&◌, ◌||◌, not, Option, none, some, List, [], ◌∷◌, ◌++◌, ◌<>◌, ◌==◌,
  map, keep, is_empty, nat_eq, has_prefix, str_leb, if◌then◌else◌,
}
use parchment.Prelude.Scanning.{contains, cut}
use parchment.Prelude.Sorting.{sort_slice}
use parchment.Dict.{Dict, insert}
use parchment.Artifact.{Artifact, Section}
use parchment.Artifact.Filter.{Filter, any_artifact}
use parchment.Artifact.Labels.{label_value, label_prefix_kind, label_prefix_scope}
use parchment.Store.{MemoryStore, Edge}
use parchment.Store.Artifacts.{get, list}
use parchment.Store.Edges.{neighbors, outgoing, in_set}
use parchment.Store.Result.{Result, ok, err}
use parchment.Protocol.Kinds.{Traits, is_template_kind, must_sections, template_kind_labels, keys}
use parchment.Protocol.Rules.{rel_satisfies}

abbrev pub template_or_none : Traits → Result Artifact → Option Artifact
template_or_none traits (err e) = none
template_or_none traits (ok tpl) =
    if is_template_kind traits (label_value tpl.labels label_prefix_kind) then some tpl else none

abbrev pub first_target : MemoryStore → List Edge → Option (Result Artifact)
first_target m [] = none
first_target m (e ∷ es) = some (get m e.to)

unfoldable pub resolve_template : Traits → MemoryStore → Artifact → Option Artifact
resolve_template traits m art = elim (first_target m (neighbors m art.id rel_satisfies outgoing)) [
  | none ↦ none
  | some found ↦ template_or_none traits found
]

unfoldable pub sections_by_name : List Section → Dict String → Dict String
sections_by_name [] d = d
sections_by_name (s ∷ ss) d =
    sections_by_name ss (if s.name == "content" then d else insert d s.name s.text)

abbrev pub template_sections : Artifact → Dict String
template_sections tpl = sections_by_name tpl.sections []

abbrev pub section_names : Artifact → List String
section_names art = map (λ s. s.name) art.sections

-- what the artifact lacks of the sections that the test demands, by name and guidance
unfoldable pub missing_names : (String → String → Bool) → Artifact → Dict String → List String
missing_names demands art expected = sort_slice str_leb (
    keys (
      keep (λ (e : String × String). demands e.0 e.1 && not (in_set (section_names art) e.0))
        expected))

pub data Conformance : Type 0 where
  conforms : Conformance
  lacks : List String → Conformance

abbrev pub verdict : List String → Conformance
verdict [] = conforms
verdict (n ∷ names) = lacks (n ∷ names)

abbrev pub against : (String → String → Bool) → Artifact → Option Artifact → Conformance
against demands art none = conforms
against demands art (some tpl) = verdict (missing_names demands art (template_sections tpl))

-- At creation only the sections that the kind must have are demanded.
abbrev pub demanded : Traits → Artifact → Bool → String → String → Bool
demanded traits art creation name guidance =
    not creation || in_set (must_sections traits (label_value art.labels label_prefix_kind)) name

unfoldable pub check_template_conformance : Traits → MemoryStore → Artifact → Bool → Conformance
unfolding missing_names sections_by_name resolve_template
check_template_conformance traits m art creation =
    against (demanded traits art creation) art (resolve_template traits m art)

abbrev pub demanded_to_promote : Traits → Artifact → String → String → Bool
demanded_to_promote traits art name guidance =
    in_set (must_sections traits (label_value art.labels label_prefix_kind)) name
    || has_prefix guidance "required:"

unfoldable pub check_template_conformance_promote : Traits → MemoryStore → Artifact → Conformance
unfolding missing_names sections_by_name resolve_template
check_template_conformance_promote traits m art =
    against (demanded_to_promote traits art) art (resolve_template traits m art)

-- what follows the last dot, if there is one
unfoldable pub after_last_dot : String → Option String
after_last_dot String.[] = none
after_last_dot (String.◌∷◌ c s) =
    let later = after_last_dot s in
    elim later [ some t ↦ some t | none ↦ if nat_eq (code c) b'.' then some s else none ]

abbrev pub only_one : List String → String
only_one (id ∷ []) = id
only_one _ = ""

abbrev named_after : (String → String) → String → Artifact → Bool
named_after to_lower kind tpl =
    let kind_lower = to_lower kind in
    contains (to_lower tpl.title) kind_lower || elim (after_last_dot kind_lower) [
      | none ↦ false
      | some suffix ↦ not (suffix == kind_lower) && contains (to_lower tpl.title) suffix
    ]

abbrev match_template : (String → String) → String → List Artifact → String
match_template to_lower kind templates =
    only_one (map (λ a. a.id) (keep (named_after to_lower kind) templates))

-- The template of the scope, and else the one of all scopes, if exactly one matches.
unfoldable pub find_template_for_kind :
    (String → String) → Traits → MemoryStore → String → String → String
unfolding contains after_last_dot template_kind_labels
find_template_for_kind to_lower traits m kind scope =
    let kinds = template_kind_labels traits in
    let labels = kinds ++ "work.active" ∷ [] in
    let in_scope =
      match_template to_lower kind
        (list m (record any_artifact { labels = labels ++ (label_prefix_scope <> scope) ∷ [] })) in
    let anywhere =
      match_template to_lower kind (list m (record any_artifact { labels = labels })) in
    if is_empty kinds then "" else if scope == "" || in_scope == "" then anywhere else in_scope
