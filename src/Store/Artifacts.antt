-- ===== src/Store/Artifacts.antt =====
-- memstore.go: writing, reading, deleting and listing artifacts.
pub mod Writing
pub mod Versions
pub mod Deleting
pub mod Listing
use parchment.Prelude.{
  ℕ, suc, String, Bool, ◌||◌, Option, none, some, List, [], ◌∷◌, ◌++◌, nat_eq, ◌==◌, if◌then◌else◌,
  is_some, keep, str_leb,
}
use parchment.Prelude.Sorting.{sort_slice}
use parchment.Dict.{Dict, lookup, insert, remove, remove_where, values, IsDistinct, IsKeyed}
use parchment.Artifact.{Artifact, goal, artifact_content_equal}
use parchment.Artifact.Filter.{Filter, matches}
use parchment.Store.{MemoryStore, Edge}
use parchment.Store.Result.{Result, Status, ok, err, artifact_not_found, conflict}
use parchment.Store.Revisions.{append_revision, snapshot_if_changed}

-- The map of artifacts has distinct keys, and each is the ID of its artifact.
pub record HasIds (d : Dict Artifact) : Type 0 where
  pub distinct : IsDistinct d
  pub keyed : IsKeyed (λ a. a.id) d

-- `if t.IsZero() { t = now }`
abbrev pub or_now : ℕ → ℕ → ℕ
or_now t now = if nat_eq t 0 then now else t

abbrev pub stamp : ℕ → Bool → Artifact → Artifact
stamp now is_update art = record art {
  created_at = or_now art.created_at now;
  updated_at = if is_update then now else or_now art.updated_at now;
  inserted_at = or_now art.inserted_at now;
}

unfoldable pub snapshot_old : MemoryStore → Option Artifact → Artifact → MemoryStore
snapshot_old m none art = m
snapshot_old m (some old) art = snapshot_if_changed m old art

unfoldable pub store_artifact : MemoryStore → Artifact → MemoryStore
store_artifact m art = record m { artifacts = insert m.artifacts art.id art }

-- The artifact that the caller passed comes back with its new times, beside the store.
unfoldable pub put : ℕ → MemoryStore → Artifact → Artifact × MemoryStore
unfolding snapshot_old store_artifact
put now m art =
    let old = lookup m.artifacts art.id in
    let art' = stamp now (is_some old) art in (art', store_artifact (snapshot_old m old art') art')

-- Each Put takes the lock by itself: the `n`-th reading of the clock is the time of the `n`-th.
unfoldable pub bulk_put : (ℕ → ℕ) → ℕ → MemoryStore → List Artifact → List Status × MemoryStore
bulk_put clock n m [] = ([], m)
bulk_put clock n m (art ∷ arts) =
    let (errs, m') = bulk_put clock (suc n) (put (clock n) m art).1 arts in (ok tt ∷ errs, m')

unfoldable pub or_not_found : Option Artifact → Result Artifact
or_not_found none = err artifact_not_found
or_not_found (some art) = ok art

unfoldable pub get : MemoryStore → String → Result Artifact
unfolding or_not_found
get m id = or_not_found (lookup m.artifacts id)

abbrev pub touches : String → Edge → Bool
touches id e = e.from == id || e.to == id

unfoldable pub delete_found : MemoryStore → String → Option Artifact → Status × MemoryStore
delete_found m id none = (err artifact_not_found, m)
delete_found m id (some old) =
    let m' = append_revision m old in
    (
      ok tt,
      record m' {
        artifacts = remove m'.artifacts id;
        edges = remove_where (touches id) m'.edges;
        attachments = remove m'.attachments id;
      },
    )

unfoldable pub delete : MemoryStore → String → Status × MemoryStore
unfolding delete_found
delete m id = delete_found m id (lookup m.artifacts id)

-- the order of `List`: by ID
abbrev pub by_id : Artifact → Artifact → Bool
by_id a b = str_leb a.id b.id

unfoldable pub list : MemoryStore → Filter → List Artifact
list m f = sort_slice by_id (keep (matches f) (values m.artifacts))

unfoldable pub put_locked : ℕ → MemoryStore → Artifact → MemoryStore
unfolding store_artifact
put_locked now m art = store_artifact m (record art {
  created_at = or_now art.created_at now;
  updated_at = now;
  inserted_at = or_now art.inserted_at now;
})

unfoldable pub put_checked : ℕ → MemoryStore → Artifact → ℕ → Option Artifact → Status × MemoryStore
put_checked now m art expected none = (err artifact_not_found, m)
put_checked now m art expected (some existing) =
    if nat_eq existing.updated_at expected
    then (ok tt, put_locked now (snapshot_if_changed m existing art) art)
    else (err conflict, m)

-- The times that putLocked sets in the caller's artifact are those of the stored one; they are not part of the
-- answer.
unfoldable pub put_if_version : ℕ → MemoryStore → Artifact → ℕ → Status × MemoryStore
unfolding put_checked put_locked
put_if_version now m art expected = put_checked now m art expected (lookup m.artifacts art.id)
