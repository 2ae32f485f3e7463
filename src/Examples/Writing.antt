-- ===== src/Examples/Writing.antt =====
-- Writes of sections and fields, with what they stamp, applied.
use mathlib.Core.List.Memᴰ
use parchment.Prelude.{
  String, true, false, none, some, List, [], ◌∷◌, ◌≡◌, ◌⊎◌, ◌↔◌, refl, ◌==◌, keep, has_prefix,
  trim_prefix,
}
use parchment.Prelude.Scanning.{byte_length, trim_space, is_space, split_from}
use parchment.Dict.{lookup, insert}
use parchment.Artifact.{Artifact, Section, array}
use parchment.Artifact.Labels.{label_value, status_from_labels, is_domain_status_label}
use parchment.Store.{MemoryStore, Edge, new_memory_store}
use parchment.Store.Artifacts.{get, put}
use parchment.Store.Edges.{add_edge, neighbors}
use parchment.Store.Walk.Rule.{link, more}
use parchment.Store.Result.{ok}
use parchment.Store.Revisions.{revisions_of}
use parchment.Store.Valid.{IsValid}
use parchment.Store.Valid.Reachable.{started, stepped, putting, Reachable-IsValid}
use parchment.Protocol.Admission.{rel_depends_on}
use parchment.Protocol.Compliance.{stamp_compliance, lacking}
use parchment.Protocol.Compliance.Stamped.{
  asked, Complies, compliance_of, violations_of, stamp_compliance_lem,
}
use parchment.Protocol.Cycle.Acyclic.{IsAcyclic}
use parchment.Protocol.Edits.{Settings, edit}
use parchment.Protocol.Fields.{set_field_depends_on}
use parchment.Protocol.Fields.Depends.{set_field_depends_on-IsAcyclic}
use parchment.Protocol.Edits.Labels.{edit-labels_lem}
use parchment.Protocol.Kinds.{Traits, is_template_kind}
use parchment.Protocol.Link.{texts}
use parchment.Protocol.Sections.{
  Writer, done, remove_named, attach_section, get_section, detach_section,
}
use parchment.Protocol.Sections.Attached.{
  OnlyNew, get_section-attach_section, attach_section-unrecorded,
}
use parchment.Protocol.Sections.Detached.{Detaches, detach_section_lem}
use parchment.Protocol.Templates.{conforms, resolve_template, check_template_conformance}
use parchment.Protocol.Templates.Conforming.{HasDemanded, check_template_conformance_iff}
use parchment.Protocol.Traits.{no_trait}
use parchment.Examples.{draft, other}

-- two sections, and a label that asks for one more
abbrev text_section : String → String → Section
text_section name text = record { name = name; text = text }

abbrev written : Artifact
written = record draft {
  labels = "kind:task" ∷ "audited" ∷ [];
  sections = text_section "why" "a" ∷ text_section "how" "b" ∷ [];
}

abbrev traits : Traits
traits =
    ("audited", record no_trait { required_sections = "stamps" ∷ [] })
    ∷ ("kind:template", record no_trait { is_template = true })
    ∷ []

stamp_compliance_lem_example :
    (Complies (asked (λ l. l) traits written) written
      × (compliance_of (stamp_compliance (λ l. l) traits written) ≡ "ok")
      × (violations_of (stamp_compliance (λ l. l) traits written) ≡ none))
    ⊎ ((¬ Complies (asked (λ l. l) traits written) written)
        × (compliance_of (stamp_compliance (λ l. l) traits written) ≡ "violation")
        × (violations_of (stamp_compliance (λ l. l) traits written)
            ≡ some (array (texts (lacking (asked (λ l. l) traits written) written)))))
stamp_compliance_lem_example = stamp_compliance_lem (λ l. l) traits written

abbrev pages : MemoryStore
pages = (put 10 new_memory_store written).1

pages-IsValid : IsValid pages
pages-IsValid = Reachable-IsValid (stepped started (putting 10 written))

abbrev writer : Writer
writer = record {
  traits = traits;
  embed_model = "";
  visit = λ l. l;
  visit_links = λ d. d;
  hash = λ s. s;
  folding = record { to_lower = λ s. s; equal_fold = λ a b. a == b };
}

-- the store after the text of a section is replaced, and after a section is removed
abbrev rewritten : MemoryStore
rewritten = (attach_section writer 20 pages "T-1" "why" "c").1

abbrev shortened : MemoryStore
shortened = (detach_section writer 20 pages "T-1" "why").1

replacing : attach_section writer 20 pages "T-1" "why" "c" ≡ (done true, rewritten)
unfolding attach_section byte_length get lookup insert
replacing = refl

get_section-attach_section_example : get_section rewritten "T-1" "why" ≡ done "c"
get_section-attach_section_example =
    get_section-attach_section writer 20 pages rewritten "T-1" "why" "c" true pages-IsValid
      replacing

attach_section-unrecorded_example :
    OnlyNew "why" "c" (revisions_of pages "T-1") (revisions_of rewritten "T-1")
attach_section-unrecorded_example =
    attach_section-unrecorded writer 20 pages rewritten "T-1" "why" "c" pages-IsValid replacing

removing : detach_section writer 20 pages "T-1" "why" ≡ (done true, shortened)
unfolding detach_section get lookup insert neighbors keep
removing = refl

detach_section_lem_example :
    (art : Artifact) × (rest : List Section) × (get pages "T-1" ≡ ok art)
    × (remove_named art.sections "why" ≡ some rest)
    × Detaches pages shortened "T-1" art.sections rest
detach_section_lem_example =
    detach_section_lem writer 20 pages shortened "T-1" "why" pages-IsValid removing

-- a template, and an artifact that satisfies it
abbrev template : Artifact
template = record other {
  labels = "kind:template" ∷ [];
  sections = text_section "content" "all" ∷ text_section "why" "say why" ∷ [];
}

abbrev satisfies : Edge
satisfies = record { from = "T-1"; to = "T-2"; relation = "satisfies"; weight = 0; sources = [] }

abbrev shelf : MemoryStore
shelf = add_edge (put 20 pages template).1 satisfies

check_template_conformance_iff_example :
    (check_template_conformance traits shelf written false ≡ conforms)
    ↔ HasDemanded traits written (put 20 pages template).0 false
unfolding resolve_template neighbors keep add_edge insert put lookup get is_template_kind
    label_value has_prefix trim_prefix
check_template_conformance_iff_example =
    check_template_conformance_iff traits shelf written (put 20 pages template).0 false refl

no_dependencies : IsAcyclic new_memory_store rel_depends_on
no_dependencies a (link (e, m, q)) = absurd (Memᴰ.not-nil m)
no_dependencies a (more r (e, m, q)) = absurd (Memᴰ.not-nil m)

set_field_depends_on-IsAcyclic_example :
    IsAcyclic (set_field_depends_on new_memory_store "T-1" "T-2, T-1").1 rel_depends_on
set_field_depends_on-IsAcyclic_example =
    set_field_depends_on-IsAcyclic new_memory_store "T-1" "T-2, T-1" no_dependencies

abbrev settings : Settings
settings = record {
  config = record { traits = traits; rules = []; gates = []; clock = λ n. n };
  writer = writer;
  relationships = [];
  vocab = [];
  priorities = [];
  mutable_created_at = false;
  parse_time = λ s. none;
  new_uuid = λ n. "U-1";
  fuel = 10;
}

edit-labels_lem_example : status_from_labels ("red" ∷ []) ≡ ""
unfolding edit split_from has_prefix trim_space is_space is_domain_status_label
edit-labels_lem_example =
    edit-labels_lem settings draft (record draft { labels = "red" ∷ [] }) "red" (λ a. a) refl
