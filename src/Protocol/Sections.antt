-- ===== src/Protocol/Sections.antt =====
-- protocol_crud.go: `AttachSection`, `GetSection` and `DetachSection`. `Get` of the in-memory store copies the
-- artifact but not its slices and maps, so a write into one of these is seen by the stored artifact at once,
-- before `Put` compares the two; `see` writes out what the stored artifact then holds.
pub mod Writes
pub mod Attached
pub mod Detached
use parchment.Prelude.{
  ℕ, ◌-◌, String, Bool, true, false, ◌||◌, not, Option, none, some, List, [], ◌∷◌, ◌++◌, ◌<>◌, ◌==◌,
  map, keep, drop, length, ltb, is_some, if◌then◌else◌,
}
use parchment.Prelude.Scanning.{byte_length}
use parchment.Dict.{Dict, lookup, insert}
use parchment.Artifact.{Artifact, Section, Extra}
use parchment.Store.{MemoryStore}
use parchment.Store.Artifacts.{get, put}
use parchment.Store.Result.{Result, ok, err}
use parchment.Protocol.Compliance.{stamp_compliance, strip_encoded_if_stale}
use parchment.Protocol.Kinds.{Traits}
use parchment.Protocol.Templates.{resolve_template, template_sections}
use parchment.Protocol.Wikilink.{Folding, ResolvedLink, sync_wikilinks}

-- What these writes take beside the store: the traits, the embedding model, and the runtime's part: the orders in
-- which it ranges over a set of labels and over a map of links, SHA-256 and the folding of case.
pub record Writer : Type 0 where
  pub traits : Traits
  pub embed_model : String
  pub visit : List String → List String
  pub visit_links : Dict ResolvedLink → Dict ResolvedLink
  pub hash : String → String
  pub folding : Folding

pub data SectionError : Type 0 where
  id_and_name_required too_long no_artifact no_section : SectionError
  required_by : String → SectionError

pub data Answer (A : Type 0) : Type 0 where
  done : A → Answer A
  refused : SectionError → Answer A

abbrev pub max_section_bytes : ℕ
max_section_bytes = 100000

-- the stored artifact under the ID, as a write through a shared slice or map changes it
unfoldable pub see : MemoryStore → String → (Artifact → Artifact) → MemoryStore
see m id change = elim (lookup m.artifacts id) [
  | none ↦ m
  | some old ↦ record m { artifacts = insert m.artifacts id (change old) }
]

-- the first section of that name gets the text
unfoldable pub replace_text : List Section → String → String → Option (List Section)
replace_text [] name text = none
replace_text (s ∷ ss) name text =
    if s.name == name
    then some (record s { text = text } ∷ ss)
    else elim (replace_text ss name text) [ none ↦ none | some rest ↦ some (s ∷ rest) ]

abbrev pub with_sections : List Section → Artifact → Artifact
with_sections secs a = record a { sections = secs }

-- A nil map is not shared: the stamp makes a new one.
abbrev pub see_extra : Extra → Artifact → Artifact
see_extra new a = record a { extra = elim a.extra [ none ↦ none | some d ↦ new ] }

-- stampCompliance, stripEncodedIfStale and Put
unfoldable pub put_stamped : Writer → ℕ → MemoryStore → Artifact → Artifact × MemoryStore
unfolding stamp_compliance strip_encoded_if_stale see put
put_stamped w now m art =
    let art' = stamp_compliance w.visit w.traits art in
    let m' = see m art.id (see_extra art'.extra) in
    put now m' (strip_encoded_if_stale w.hash w.embed_model m' art')

unfoldable pub write_stamped : Writer → ℕ → MemoryStore → Artifact → MemoryStore
unfolding put_stamped
write_stamped w now m art = (put_stamped w now m art).1

abbrev pub attach_found :
    Writer → ℕ → MemoryStore → Artifact → String → String → Option (List Section) → MemoryStore
unfolding write_stamped see
attach_found w now m art name text none =
    write_stamped w now m
      (with_sections (art.sections ++ record { name = name; text = text } ∷ []) art)
attach_found w now m art name text (some secs) =
    write_stamped w now (see m art.id (with_sections secs)) (with_sections secs art)

unfoldable pub attach_to :
    Writer
    → ℕ
    → MemoryStore
    → String
    → String
    → String
    → Result Artifact
    → Answer Bool × MemoryStore
unfolding attach_found replace_text sync_wikilinks
attach_to w now m id name text (err e) = (refused no_artifact, m)
attach_to w now m id name text (ok art) =
    let replaced = replace_text art.sections name text in
    let m' = attach_found w now m art name text replaced in
    (done (is_some replaced), (sync_wikilinks w.visit_links w.folding m' id).1)

unfoldable pub attach_section :
    Writer → ℕ → MemoryStore → String → String → String → Answer Bool × MemoryStore
unfolding attach_to
attach_section w now m id name text =
    if id == "" || name == ""
    then (refused id_and_name_required, m)
    else if ltb max_section_bytes (byte_length text)
    then (refused too_long, m)
    else attach_to w now m id name text (get m id)

unfoldable pub find_text : List Section → String → Answer String
find_text [] name = refused no_section
find_text (s ∷ ss) name = if s.name == name then done s.text else find_text ss name

abbrev pub text_of : Result Artifact → String → Answer String
text_of (err e) name = refused no_artifact
text_of (ok art) name = find_text art.sections name

unfoldable pub get_section : MemoryStore → String → String → Answer String
unfolding find_text
get_section m id name =
    if id == "" || name == "" then refused id_and_name_required else text_of (get m id) name

unfoldable pub remove_named : List Section → String → Option (List Section)
remove_named [] name = none
remove_named (s ∷ ss) name =
    if s.name == name
    then some ss
    else elim (remove_named ss name) [ none ↦ none | some rest ↦ some (s ∷ rest) ]

-- what the array of the sections holds once the later ones have moved down by one place
abbrev pub moved_down : List Section → List Section → List Section
moved_down before rest = rest ++ drop (length before - 1) before

-- what the array of labels holds after `slices.DeleteFunc`: the ones that are kept, then empty texts
abbrev pub deleted_from : List String → List String → List String
deleted_from before [] = map (λ _. "") before
deleted_from [] (k ∷ kept) = k ∷ kept
deleted_from (b ∷ before) (k ∷ kept) = k ∷ deleted_from before kept

unfoldable pub detach_found : Writer → ℕ → MemoryStore → Artifact → List Section → MemoryStore
unfolding strip_encoded_if_stale see put
detach_found w now m art rest =
    let m' = see m art.id (with_sections (moved_down art.sections rest)) in
    let art' = strip_encoded_if_stale w.hash w.embed_model m' (with_sections rest art) in
    let m'' = see m' art.id (λ a. record a { labels = deleted_from a.labels art'.labels }) in
    (put now m'' art').1

abbrev pub guidance : Option Artifact → String → Option String
guidance none name = none
guidance (some tpl) name = elim (lookup (template_sections tpl) name) [
  | none ↦ none
  | some g ↦ some tpl.id
]

unfoldable pub detach_from :
    Writer → ℕ → MemoryStore → String → Result Artifact → Answer Bool × MemoryStore
unfolding detach_found remove_named resolve_template
detach_from w now m name (err e) = (refused no_artifact, m)
detach_from w now m name (ok art) = elim (guidance (resolve_template w.traits m art) name) [
  | some tpl ↦ (refused (required_by tpl), m)
  | none ↦ elim (remove_named art.sections name) [
    | none ↦ (done false, m)
    | some rest ↦ (done true, detach_found w now m art rest)
  ]
]

unfoldable pub detach_section :
    Writer → ℕ → MemoryStore → String → String → Answer Bool × MemoryStore
unfolding detach_from
detach_section w now m id name =
    if id == "" || name == ""
    then (refused id_and_name_required, m)
    else detach_from w now m name (get m id)
