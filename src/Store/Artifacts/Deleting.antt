-- ===== src/Store/Artifacts/Deleting.antt =====
-- What `Delete` takes out of the store, and what it leaves.
use parchment.Prelude.{
  String, none, some, [], ◌∷◌, ◌++◌, ◌≡◌, refl, arith, ◌==◌, eq_iff, if◌then◌else◌, subst,
}
use parchment.Dict.{
  unless, lookup, remove, remove_where, unless, IsDistinct, lookup-remove, lookup-remove_where,
}
use parchment.Artifact.{Artifact}
use parchment.Store.{MemoryStore}
use parchment.Store.Result.{ok, err, artifact_not_found}
use parchment.Store.Artifacts.{get, delete, delete_found, touches}
use parchment.Store.Revisions.{revisions_of, next_rev, revision_of, append_revision}
use parchment.Store.Revisions.History.{revisions-append_revision}

abbrev removed : MemoryStore → String → Artifact → MemoryStore
removed m id old = record (append_revision m old) {
  artifacts = remove m.artifacts id;
  edges = remove_where (touches id) m.edges;
  attachments = remove m.attachments id;
}

delete-stored :
    (m : MemoryStore) (id : String) (old : Artifact)
    → lookup m.artifacts id ≡ some old
    → delete m id ≡ (ok tt, removed m id old)
unfolding delete append_revision
delete-stored m id old h = rw (h, delete_found)

-- `Delete` of a stored artifact succeeds. Then its ID is not found, and every other ID is found as
-- before. Under each key stands the edge that stood there, unless it begins or ends at the ID. Its attachments are gone, and its history ends with the artifact as it last stood.
pub delete_lem :
    (m : MemoryStore) (id : String) (old : Artifact)
    → lookup m.artifacts id ≡ some old
    → old.id ≡ id
    → IsDistinct m.edges
    → ((delete m id).0 ≡ ok tt)
      × ((other : String)
          → get (delete m id).1 other
            ≡ (if id == other then err artifact_not_found else get m other))
      × ((k : String) → lookup (delete m id).1.edges k ≡ unless (touches id) (lookup m.edges k))
      × (lookup (delete m id).1.attachments id ≡ none)
      × (revisions_of (delete m id).1 id
          ≡ revisions_of m id ++ revision_of (next_rev (revisions_of m id)) old ∷ [])
unfolding get
delete_lem m id old stored named distinct = rw (delete-stored m id old stored) (
  refl,
  λ other. ground (arith, lookup-remove m.artifacts id other),
  λ k. lookup-remove_where (touches id) m.edges k distinct,
  ground (arith, lookup-remove m.attachments id id, eq_iff id id),
  subst
      (λ i.
        revisions_of (append_revision m old) i
        ≡ revisions_of m i ++ revision_of (next_rev (revisions_of m i)) old ∷ [])
      named (revisions-append_revision m old),
)

-- `Delete` of a missing artifact fails and changes nothing.
pub delete_missing :
    (m : MemoryStore) (id : String)
    → lookup m.artifacts id ≡ none
    → delete m id ≡ (err artifact_not_found, m)
unfolding delete
delete_missing m id h = rw (h, delete_found)
