-- ===== src/Store/Valid/Writes.antt =====
-- The operations on artifacts keep the invariant.
use parchment.Prelude.{
  ℕ, suc, String, Option, none, some, List, [], ◌∷◌, refl, if◌then◌else◌, Bool-cases, inl, inr,
  is_some, nat_eq,
}
use parchment.Dict.{lookup}
use parchment.Artifact.{Artifact}
use parchment.Store.{MemoryStore}
use parchment.Store.Artifacts.{
  put, bulk_put, delete, delete_found, put_if_version, put_checked, put_locked, store_artifact,
  snapshot_old, stamp, touches,
}
use parchment.Store.Valid.{IsValid}
use parchment.Store.Valid.Parts.{
  HasIds-insert, HasIds-remove, HasKeys-remove_where, with_ids, append_revision-IsValid,
  snapshot_if_changed-IsValid,
}

store_artifact-IsValid : {m : MemoryStore} (a : Artifact) → IsValid m → IsValid (store_artifact m a)
unfolding store_artifact
store_artifact-IsValid a v = with_ids _ v (HasIds-insert a.id a v.ids refl)

snapshot_old-IsValid :
    {m : MemoryStore} (o : Option Artifact) (a : Artifact)
    → IsValid m
    → IsValid (snapshot_old m o a)
unfolding snapshot_old
snapshot_old-IsValid none a v = v
snapshot_old-IsValid (some old) a v = snapshot_if_changed-IsValid old a v

pub put-IsValid : {m : MemoryStore} (now : ℕ) (a : Artifact) → IsValid m → IsValid (put now m a).1
unfolding put
put-IsValid {m} now a v = store_artifact-IsValid (stamp now (is_some (lookup m.artifacts a.id)) a) (
    snapshot_old-IsValid (lookup m.artifacts a.id) (stamp now (is_some (lookup m.artifacts a.id)) a)
      v)

pub bulk_put-IsValid :
    (arts : List Artifact) {m : MemoryStore} (clock : ℕ → ℕ) (n : ℕ)
    → IsValid m
    → IsValid (bulk_put clock n m arts).1
unfolding bulk_put
bulk_put-IsValid [] clock n v = v
bulk_put-IsValid (a ∷ arts) clock n v =
    bulk_put-IsValid arts clock (suc n) (put-IsValid (clock n) a v)

delete_found-IsValid :
    {m : MemoryStore} (id : String) (o : Option Artifact)
    → IsValid m
    → IsValid (delete_found m id o).1
unfolding delete_found
delete_found-IsValid id none v = v
delete_found-IsValid {m} id (some old) v =
    let w = append_revision-IsValid old v in
    record {
      ids = HasIds-remove id w.ids;
      keys = HasKeys-remove_where (touches id) w.keys;
      history = w.history;
      numbered = w.numbered;
      counted = w.counted;
    }

pub delete-IsValid : {m : MemoryStore} (id : String) → IsValid m → IsValid (delete m id).1
unfolding delete
delete-IsValid {m} id v = delete_found-IsValid id (lookup m.artifacts id) v

put_checked-IsValid :
    {m : MemoryStore} (now : ℕ) (a : Artifact) (expected : ℕ) (o : Option Artifact)
    → IsValid m
    → IsValid (put_checked now m a expected o).1
unfolding put_checked put_locked
put_checked-IsValid now a expected none v = v
put_checked-IsValid now a expected (some old) v =
    elim (Bool-cases (nat_eq old.updated_at expected)) [
      | inl e ↦
          rw (e, if◌then◌else◌) (store_artifact-IsValid _ (snapshot_if_changed-IsValid old a v))
      | inr e ↦ rw (e, if◌then◌else◌) v
    ]

pub put_if_version-IsValid :
    {m : MemoryStore} (now : ℕ) (a : Artifact) (expected : ℕ)
    → IsValid m
    → IsValid (put_if_version now m a expected).1
unfolding put_if_version
put_if_version-IsValid {m} now a expected v =
    put_checked-IsValid now a expected (lookup m.artifacts a.id) v
