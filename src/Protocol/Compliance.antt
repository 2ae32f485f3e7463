-- ===== src/Protocol/Compliance.antt =====
-- compliance.go and protocol_crud.go: `StampCompliance`, `computeViolations` and `stripEncodedIfStale`, which
-- every write of a changed artifact goes through.
pub mod Stamped
use parchment.Prelude.{
  String, Bool, true, false, ◌&&◌, ◌||◌, not, Option, none, some, List, [], ◌∷◌, ◌++◌, ◌<>◌, ◌==◌,
  map, keep, any_of, is_empty, is_some, has_prefix, if◌then◌else◌,
}
use parchment.Dict.{Dict, lookup, insert, remove}
use parchment.Artifact.{Artifact, Section, Extra, Value, array, entries, goal}
use parchment.Artifact.Labels.{
  mirror_label, label_prefix_kind, label_prefix_status, label_prefix_scope, label_prefix_priority,
  label_prefix_sprint,
}
use parchment.Store.{MemoryStore}
use parchment.Store.Edges.{in_set}
use parchment.Store.Embeddings.{get_embedding_hash}
use parchment.Protocol.Link.{texts}
use parchment.Protocol.Traits.{LabelTrait, resolve_trait}

abbrev pub label_prefix_compliance : String
label_prefix_compliance = "compliance:"

abbrev pub extra_key_violations : String
extra_key_violations = "compliance_violations"

abbrev pub system_label_prefixes : List String
system_label_prefixes =
    label_prefix_kind ∷ label_prefix_status ∷ label_prefix_scope ∷ label_prefix_priority
    ∷ label_prefix_sprint ∷ label_prefix_compliance ∷ []

abbrev pub is_system : String → Bool
is_system l = any_of (has_prefix l) system_label_prefixes

abbrev pub user_labels : List String → List String
user_labels labels = keep (λ l. not (is_system l)) labels

abbrev pub has_section : List Section → String → Bool
has_section sections name = any_of (λ s. s.name == name) sections

abbrev pub has_property : Extra → String → Bool
has_property extra prop = is_some (lookup (entries extra) prop)

-- what the merged trait asks for and the artifact lacks
unfoldable pub lacking : LabelTrait → Artifact → List String
lacking merged art =
    map (λ s. "missing section: " <> s)
      (keep (λ s. not (has_section art.sections s)) merged.required_sections)
    ++ map (λ p. "missing property: " <> p)
        (keep (λ p. not (has_property art.extra p)) merged.properties)

-- The early returns for nothing to check give what the loops give. `visit` is the order in which the
-- runtime ranges over the set of labels.
unfoldable pub compute_violations :
    (List String → List String) → Dict LabelTrait → Artifact → List String
unfolding lacking
compute_violations visit traits art =
    let user = user_labels art.labels in
    if is_empty traits || is_empty art.labels || is_empty user
    then []
    else (let merged = resolve_trait visit traits user in
        if is_empty merged.required_sections && is_empty merged.properties
        then []
        else lacking merged art)

abbrev pub without_key : String → Extra → Extra
without_key key none = none
without_key key (some d) = some (remove d key)

abbrev pub stamped : Artifact → List String → Artifact
stamped art [] = record art {
  labels = mirror_label art.labels label_prefix_compliance "ok";
  extra = without_key extra_key_violations art.extra;
}
stamped art (v ∷ vs) = record art {
  labels = mirror_label art.labels label_prefix_compliance "violation";
  extra = some (insert (entries art.extra) extra_key_violations (array (texts (v ∷ vs))));
}

unfoldable pub stamp_compliance :
    (List String → List String) → Dict LabelTrait → Artifact → Artifact
unfolding compute_violations texts
stamp_compliance visit traits art = stamped art (compute_violations visit traits art)

-- what ContentHash writes to the hash
section_content : List Section → String
section_content [] = ""
section_content (s ∷ ss) = s.name <> s.text <> section_content ss

unfoldable pub hashed_content : Artifact → String
unfolding section_content
hashed_content art = art.title <> goal art <> section_content art.sections

-- `hash` is SHA-256 in hexadecimal.
unfoldable pub content_hash : (String → String) → Artifact → String
unfolding hashed_content
content_hash hash art = hash (hashed_content art)

unfoldable pub strip_encoded_if_stale :
    (String → String) → String → MemoryStore → Artifact → Artifact
unfolding content_hash
strip_encoded_if_stale hash embed_model m art =
    let label = "encoded:" <> embed_model in
    let stored = get_embedding_hash m art.id embed_model in
    if embed_model == ""
    then art
    else if not (in_set art.labels label)
    then art
    else if stored == "" || not (stored == content_hash hash art)
    then record art { labels = keep (λ l. not (l == label)) art.labels }
    else art
