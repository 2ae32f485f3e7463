-- ===== src/Protocol/Wikilink.antt =====
-- wikilink.go: references between double brackets, what they refer to, and the edges that are kept in step
-- with them; with `Search` of memstore.go. Case folding of Unicode texts, which Go's library does, is an
-- argument.
pub mod Links
pub mod Noted
pub mod Reconciled
pub mod Entries
pub mod Synced
pub mod Extracted
use Prim.Native.Char.{Char, code}
use parchment.Prelude.{
  ℕ, zero, suc, ◌+◌, String, Bool, true, false, ◌&&◌, ◌||◌, not, Option, none, some, List, [], ◌∷◌,
  ◌++◌, ◌==◌, ◌<>◌, nat_eq, map, any_of, keep, is_empty, is_some, has_prefix, trim_prefix, str_leb,
  contains_rune, if◌then◌else◌,
}
use parchment.Prelude.Scanning.{trim_space, cut, contains, prepend, str_length}
use parchment.Prelude.Sorting.{sort_slice}
use parchment.Dict.{Dict, lookup, insert, remove, values}
use parchment.Artifact.{Artifact, Section, Value, text, Extra, goal}
use parchment.Artifact.Labels.{label_prefix_kind}
use parchment.Store.{MemoryStore, Edge}
use parchment.Store.Artifacts.{get}
use parchment.Store.Edges.{neighbors, outgoing, has_source, add_edge_source, remove_edge_source}
use parchment.Store.Queries.{list_by_label}
use parchment.Store.Result.{Result, ok, err}

abbrev pub edge_source_wikilink : String
edge_source_wikilink = "wikilink"

abbrev pub rel_mentions : String
rel_mentions = "mentions"

pub record WikilinkRef : Type 0 where
  pub relation : String
  pub target : String

abbrev split_ref : String → Option (String × String) → WikilinkRef
split_ref inner none = record { relation = ""; target = inner }
split_ref inner (some (before, after)) =
    if before == ""
    then record { relation = ""; target = inner }
    else record { relation = trim_space before; target = trim_space after }

unfoldable pub parse_wikilink : String → WikilinkRef
unfolding trim_space cut
parse_wikilink inner = let t = trim_space inner in split_ref t (cut t "::")

abbrev pub longer : Char → Option String → Option String
longer c none = none
longer c (some s) = some (String.◌∷◌ c s)

-- The text up to the first `]`, if another `]` follows: what `[^\]]+` and `\]\]` can match.
unfoldable pub read_inner : String → Option String
read_inner String.[] = none
read_inner (String.◌∷◌ c s) =
    let rest = longer c (read_inner s) in
    if nat_eq (code c) b']' then if has_prefix s "]" then some "" else none else rest

abbrev nonempty : Option String → Option String
nonempty none = none
nonempty (some s) = if s == "" then none else some s

-- the submatch of the pattern if it matches at the start of the text
unfoldable pub match_here : String → Option String
unfolding read_inner
match_here s = if has_prefix s "[[" then nonempty (read_inner (trim_prefix s "[[")) else none

-- FindAllStringSubmatch: matches do not overlap, so the characters of a match are skipped.
unfoldable pub find_submatches : ℕ → String → List String
unfolding match_here
find_submatches skip String.[] = []
find_submatches (suc n) (String.◌∷◌ c s) = find_submatches n s
find_submatches zero (String.◌∷◌ c s) = elim (match_here (String.◌∷◌ c s)) [
  | some inner ↦ inner ∷ find_submatches (str_length inner + 3) s
  | none ↦ find_submatches 0 s
]

unfoldable pub extract_wikilinks : String → List String
unfolding find_submatches
extract_wikilinks t = map trim_space (find_submatches 0 t)

unfoldable pub extract_wikilink_refs : String → List WikilinkRef
unfolding find_submatches parse_wikilink
extract_wikilink_refs t = map parse_wikilink (find_submatches 0 t)

unfoldable pub first_occurrences : List String → List String → List String
first_occurrences seen [] = []
first_occurrences seen (t ∷ ts) =
    let rest = first_occurrences (t ∷ seen) ts in
    let old = first_occurrences seen ts in if any_of (λ x. x == t) seen then old else t ∷ rest

unfoldable pub unique_wikilinks : String → List String
unfolding extract_wikilinks first_occurrences
unique_wikilinks t = first_occurrences [] (extract_wikilinks t)

-- the folding of case: strings.ToLower and strings.EqualFold
pub record Folding : Type 0 where
  pub to_lower : String → String
  pub equal_fold : String → String → Bool

abbrev found_in : Folding → String → Artifact → Bool
found_in f query art =
    contains (f.to_lower art.title) query
    || contains (f.to_lower (goal art)) query
    || contains (f.to_lower art.id) query
    || any_of (λ s. contains (f.to_lower s.text) query) art.sections

-- (m *MemoryStore) Search
unfoldable pub search_texts : Folding → MemoryStore → String → List String
unfolding contains
search_texts f m query =
    sort_slice str_leb (map (λ a. a.id) (keep (found_in f (f.to_lower query)) (values m.artifacts)))

abbrev string_or_empty : Option Value → String
string_or_empty (some (text s)) = s
string_or_empty _ = ""

abbrev refers : String → Extra → Bool
refers ref_id none = false
refers ref_id (some extra) = string_or_empty (lookup extra "ref_id") == ref_id

unfoldable pub first_id : (Artifact → Bool) → List Artifact → String
first_id p [] = ""
first_id p (a ∷ arts) = if p a then a.id else first_id p arts

unfoldable pub resolve_by_ref_id : MemoryStore → String → String
unfolding first_id
resolve_by_ref_id m ref_id =
    let by_kind = λ (kind : String). list_by_label m (label_prefix_kind <> kind) in
    first_id (λ a. refers ref_id a.extra) (by_kind "support.ref" ++ by_kind "knowledge.source")

-- the first hit whose title is the target, and else the first hit
unfoldable pub titled : Folding → MemoryStore → String → List String → String → String
titled f m target [] otherwise = otherwise
titled f m target (id ∷ ids) otherwise =
    let rest = titled f m target ids otherwise in
    elim (get m id) [ ok art ↦ if f.equal_fold art.title target then id else rest | err e ↦ rest ]

unfoldable pub best_hit : Folding → MemoryStore → String → List String → String
unfolding titled
best_hit f m target [] = ""
best_hit f m target (id ∷ ids) = titled f m target (id ∷ ids) id

-- the ID that a target names; empty if nothing is found
unfoldable pub resolve_title : Folding → MemoryStore → String → String
unfolding resolve_by_ref_id best_hit search_texts
resolve_title f m target =
    let by_ref = if contains_rune target b':' then resolve_by_ref_id m target else "" in
    let by_title = best_hit f m target (search_texts f m target) in
    elim (get m target) [ ok _ ↦ target | err _ ↦ if by_ref == "" then by_title else by_ref ]

pub record ResolvedLink : Type 0 where
  pub relation : String
  pub target_id : String

abbrev pub nul : Char
nul = "\0"

abbrev pub link_key : String → String → String
link_key rel target = rel <> String.◌∷◌ nul target

abbrev pub key_of_link : ResolvedLink → String
key_of_link l = link_key l.relation l.target_id

-- the link that a reference asks for, if its target is found and is not the artifact itself
abbrev pub wanted : (String → String) → String → WikilinkRef → Option ResolvedLink
wanted resolve id ref =
    let target = resolve ref.target in
    if target == "" || target == id
    then none
    else some (record {
      relation = if ref.relation == "" then rel_mentions else ref.relation;
      target_id = target;
    })

-- `if _, ok := desired[key]; !ok { desired[key] = … }`
abbrev pub note_link : Dict ResolvedLink → Option ResolvedLink → Dict ResolvedLink
note_link d none = d
note_link d (some l) = if is_some (lookup d (key_of_link l)) then d else insert d (key_of_link l) l

unfoldable pub note_links :
    (String → String) → String → List WikilinkRef → Dict ResolvedLink → Dict ResolvedLink
note_links resolve id [] d = d
note_links resolve id (ref ∷ refs) d =
    note_links resolve id refs (note_link d (wanted resolve id ref))

-- the references of all sections, in order
unfoldable pub section_refs : List Section → List WikilinkRef
section_refs [] = []
section_refs (s ∷ ss) = extract_wikilink_refs s.text ++ section_refs ss

unfoldable pub note_edges : List Edge → Dict ResolvedLink → Dict ResolvedLink
note_edges [] d = d
note_edges (e ∷ es) d =
    let l : ResolvedLink = record { relation = e.relation; target_id = e.to } in
    note_edges es (if has_source edge_source_wikilink e then insert d (key_of_link l) l else d)

unfoldable pub wikilink_edges : MemoryStore → String → Dict ResolvedLink
unfolding note_edges
wikilink_edges m id = note_edges (neighbors m id "" outgoing) []

-- the targets that were added, the links that are still to be removed, and the store
pub record Syncing : Type 0 where
  pub added : List String
  pub existing : Dict ResolvedLink
  pub store : MemoryStore

unfoldable pub add_missing : String → Dict ResolvedLink → Dict ResolvedLink → MemoryStore → Syncing
add_missing id [] existing m = record { added = []; existing = existing; store = m }
add_missing id ((key, l) ∷ desired) existing m =
    let had = is_some (lookup existing key) in
    let s =
      add_missing id desired (if had then remove existing key else existing)
        (if had then m else add_edge_source m id l.relation l.target_id edge_source_wikilink) in
    if had then s else record s { added = l.target_id ∷ s.added }

unfoldable pub remove_stale : String → List ResolvedLink → MemoryStore → MemoryStore
remove_stale id [] m = m
remove_stale id (l ∷ ls) m =
    remove_stale id ls (remove_edge_source m id l.relation l.target_id edge_source_wikilink)

-- `visit` is the order in which the runtime ranges over a map.
unfoldable pub sync_links :
    (Dict ResolvedLink → Dict ResolvedLink)
    → String
    → Dict ResolvedLink
    → MemoryStore
    → List String × MemoryStore
unfolding wikilink_edges add_missing remove_stale
sync_links visit id desired m =
    let s = add_missing id (visit desired) (wikilink_edges m id) m in
    (s.added, remove_stale id (values (visit s.existing)) s.store)

unfoldable pub sync_found :
    (Dict ResolvedLink → Dict ResolvedLink)
    → Folding
    → MemoryStore
    → String
    → Result Artifact
    → Result (List String) × MemoryStore
unfolding note_links section_refs sync_links
sync_found visit f m id (err e) = (err e, m)
sync_found visit f m id (ok art) =
    let desired = note_links (resolve_title f m) id (section_refs art.sections) [] in
    let (added, m') = sync_links visit id desired m in (ok added, m')

-- SyncWikilinks
unfoldable pub sync_wikilinks :
    (Dict ResolvedLink → Dict ResolvedLink)
    → Folding
    → MemoryStore
    → String
    → Result (List String) × MemoryStore
unfolding sync_found
sync_wikilinks visit f m id = sync_found visit f m id (get m id)
