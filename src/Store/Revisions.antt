-- ===== src/Store/Revisions.antt =====
-- memstore.go: the revision history that writes leave behind.

pub mod History
pub mod Pruning
use parchment.Prelude.{
  ℕ, suc, ◌+◌, ◌-◌, String, Bool, Option, none, some, List, [], ◌∷◌, ◌++◌, nat_eq, ltb, leb, length,
  take, drop, if◌then◌else◌, ◌&&◌,
}
use mathlib.Core.List.{reverse}
use parchment.Dict.{Dict, lookup, insert, remove}
use parchment.Artifact.{Artifact, goal, artifact_content_equal}
use parchment.Artifact.Labels.{
  label_value, status_from_labels, label_prefix_kind, label_prefix_scope, label_prefix_priority,
  label_prefix_sprint,
}
use parchment.Store.{MemoryStore, Revision}
use parchment.Store.Result.{Result, ok, err, artifact_not_found}

-- a slice of a Go map: the nil slice for a missing key
abbrev pub slice_at {ℓ} : {A : Type ℓ} → Option (List A) → List A
slice_at none = []
slice_at (some l) = l

abbrev pub revisions_of : MemoryStore → String → List Revision
revisions_of m id = slice_at (lookup m.revisions id)

-- 1 after no revision, or one more than the last
unfoldable pub next_rev : List Revision → ℕ
next_rev [] = 1
next_rev (r ∷ []) = r.rev + 1
next_rev (r ∷ revs) = next_rev revs

abbrev pub revision_of : ℕ → Artifact → Revision
revision_of n art = record {
  artifact_id = art.id;
  rev = n;
  kind = label_value art.labels label_prefix_kind;
  scope = label_value art.labels label_prefix_scope;
  status = status_from_labels art.labels;
  title = art.title;
  goal = goal art;
  labels = art.labels;
  priority = label_value art.labels label_prefix_priority;
  sprint = label_value art.labels label_prefix_sprint;
  sections = art.sections;
  extra = art.extra;
  annotations = art.annotations;
  created_at = art.created_at;
  updated_at = art.updated_at;
}

unfoldable pub append_revision : MemoryStore → Artifact → MemoryStore
unfolding next_rev
append_revision m art =
    let revs = revisions_of m art.id in
    record m {
      revisions = insert m.revisions art.id (revs ++ revision_of (next_rev revs) art ∷ []);
    }

unfoldable pub snapshot_if_changed : MemoryStore → Artifact → Artifact → MemoryStore
snapshot_if_changed m old updated =
    if artifact_content_equal old updated then m else append_revision m old

unfoldable pub list_revisions : MemoryStore → String → ℕ → List Revision
list_revisions m id limit =
    let out = reverse (revisions_of m id) in
    if ltb 0 limit && ltb limit (length out) then take limit out else out

find_revision : List Revision → ℕ → Result Revision
find_revision [] n = err artifact_not_found
find_revision (r ∷ revs) n = if nat_eq r.rev n then ok r else find_revision revs n

unfoldable pub get_revision : MemoryStore → String → ℕ → Result Revision
unfolding find_revision
get_revision m id n = find_revision (revisions_of m id) n

-- The number of revisions removed, and the store. `keepN` is an int, here a natural number: for a negative one
-- the program slices out of range and panics.
unfoldable pub prune_revisions : MemoryStore → String → ℕ → ℕ × MemoryStore
prune_revisions m id keep_n =
    let revs = revisions_of m id in
    if leb (length revs) keep_n then (0, m) else (
      length revs - keep_n,
      record m { revisions = insert m.revisions id (drop (length revs - keep_n) revs) },
    )

unfoldable pub purge_revisions : MemoryStore → String → MemoryStore
purge_revisions m id = record m { revisions = remove m.revisions id }
