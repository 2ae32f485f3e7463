-- ===== src/Store/Valid/Parts.antt =====
-- The invariant under a write to one map of the store.
use parchment.Prelude.{String, Bool, true, false, ◌≡◌, if◌then◌else◌, Bool-cases, inl, inr}
use parchment.Dict.{
  Dict, insert, remove, remove_where, insert-IsDistinct, remove-IsDistinct, remove_where-IsDistinct,
}
use parchment.Dict.Keyed.{IsKeyed-insert, IsKeyed-remove, IsKeyed-remove_where}
use parchment.Artifact.{Artifact, artifact_content_equal}
use parchment.Store.{MemoryStore, Edge}
use parchment.Store.Artifacts.{HasIds}
use parchment.Store.Edges.{key_of}
use parchment.Store.Edges.Neighbors.{HasKeys}
use parchment.Store.Revisions.{append_revision, snapshot_if_changed}
use parchment.Store.Revisions.History.{Histories, append_revision-Histories}
use parchment.Store.Valid.{IsValid}

pub HasIds-insert :
    {d : Dict Artifact} (id : String) (a : Artifact) → HasIds d → a.id ≡ id → HasIds (insert d id a)
HasIds-insert {d} id a h e = record {
  distinct = insert-IsDistinct d id a h.distinct;
  keyed = IsKeyed-insert (λ x. x.id) d id a h.keyed e;
}

pub HasIds-remove : {d : Dict Artifact} (id : String) → HasIds d → HasIds (remove d id)
HasIds-remove {d} id h = record {
  distinct = remove-IsDistinct d id h.distinct;
  keyed = IsKeyed-remove (λ x. x.id) d id h.keyed;
}

pub HasKeys-insert :
    {d : Dict Edge} (k : String) (e : Edge) → HasKeys d → key_of e ≡ k → HasKeys (insert d k e)
HasKeys-insert {d} k e h q = record {
  distinct = insert-IsDistinct d k e h.distinct;
  keyed = IsKeyed-insert key_of d k e h.keyed q;
}

pub HasKeys-remove : {d : Dict Edge} (k : String) → HasKeys d → HasKeys (remove d k)
HasKeys-remove {d} k h = record {
  distinct = remove-IsDistinct d k h.distinct;
  keyed = IsKeyed-remove key_of d k h.keyed;
}

pub HasKeys-remove_where :
    {d : Dict Edge} (p : Edge → Bool) → HasKeys d → HasKeys (remove_where p d)
HasKeys-remove_where {d} p h = record {
  distinct = remove_where-IsDistinct p d h.distinct;
  keyed = IsKeyed-remove_where key_of p d h.distinct h.keyed;
}

-- a write to one of the two maps
pub with_ids :
    {m : MemoryStore} (d : Dict Artifact)
    → IsValid m
    → HasIds d
    → IsValid (record m { artifacts = d })
with_ids d v h = record {
  ids = h;
  keys = v.keys;
  history = v.history;
  numbered = v.numbered;
  counted = v.counted;
}

pub with_keys :
    {m : MemoryStore} (d : Dict Edge) → IsValid m → HasKeys d → IsValid (record m { edges = d })
with_keys d v h = record {
  ids = v.ids;
  keys = h;
  history = v.history;
  numbered = v.numbered;
  counted = v.counted;
}

pub append_revision-IsValid :
    {m : MemoryStore} (a : Artifact) → IsValid m → IsValid (append_revision m a)
unfolding append_revision
append_revision-IsValid {m} a v = record {
  ids = v.ids;
  keys = v.keys;
  history = unfold append_revision in append_revision-Histories m a v.history;
  numbered = v.numbered;
  counted = v.counted;
}

pub snapshot_if_changed-IsValid :
    {m : MemoryStore} (old updated : Artifact)
    → IsValid m
    → IsValid (snapshot_if_changed m old updated)
unfolding snapshot_if_changed
snapshot_if_changed-IsValid old updated v = elim (Bool-cases (artifact_content_equal old updated)) [
  | inl e ↦ rw (e, if◌then◌else◌) v
  | inr e ↦ rw (e, if◌then◌else◌) (append_revision-IsValid old v)
]

-- a change that leaves all but the histories
pub with_history :
    {m : MemoryStore} (m' : MemoryStore)
    → IsValid m
    → Histories m'
    → m'.artifacts ≡ m.artifacts
    → m'.edges ≡ m.edges
    → m'.events ≡ m.events
    → m'.event_id ≡ m.event_id
    → IsValid m'
with_history {m} m' v h a e ev n = record {
  ids = rw a v.ids;
  keys = rw e v.keys;
  history = h;
  numbered = rw ev v.numbered;
  counted = rw (n, ev) v.counted;
}

pub if-IsValid :
    {A : Type 0} (b : Bool) (x y : A × MemoryStore)
    → IsValid x.1
    → IsValid y.1
    → IsValid (if b then x else y).1
if-IsValid true x y v w = v
if-IsValid false x y v w = w
