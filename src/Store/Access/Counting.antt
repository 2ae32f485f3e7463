-- ===== src/Store/Access/Counting.antt =====
-- The counters count: a sequence of accesses, and the bulk query.
use parchment.Prelude.{
  ℕ, suc, ◌+◌, String, none, some, List, [], ◌∷◌, ◌≡◌, refl, arith, ◌==◌, eq_iff, if◌then◌else◌,
  keep, length, any_of,
}
use parchment.Dict.{Dict, lookup, insert, lookup-insert}
use parchment.Store.{MemoryStore, ArtifactMetrics}
use parchment.Store.Access.{metrics_at, record_access, get_metrics, collect, bulk_get_metrics}

-- one access after another, the n-th at the time `clock n`
abbrev pub record_all : (ℕ → ℕ) → ℕ → MemoryStore → List String → MemoryStore
record_all clock n m [] = m
record_all clock n m (id ∷ ids) = record_all clock (suc n) (record_access (clock n) m id) ids

-- After any sequence of accesses the counter of an artifact has grown by the number of times that its
-- ID occurs in the sequence, whatever other artifacts were read in between.
pub access_count-record_all :
    (clock : ℕ → ℕ) (n : ℕ) (m : MemoryStore) (ids : List String) (id : String)
    → (get_metrics (record_all clock n m ids) id).access_count
      ≡ (get_metrics m id).access_count + length (keep (λ i. i == id) ids)
unfolding get_metrics record_access keep
access_count-record_all clock n m [] id = omega arith
access_count-record_all clock n m (i ∷ ids) id = ground (
  arith,
  access_count-record_all clock (suc n) (record_access (clock n) m i) ids id,
  lookup-insert m.metrics i id (record {
    access_count = (metrics_at (lookup m.metrics i)).access_count + 1;
    last_accessed = clock n;
  }),
  eq_iff i id,
)

lookup-collect :
    (m : MemoryStore) (ids : List String) (out : Dict ArtifactMetrics) (id : String)
    → lookup (collect m ids out) id
      ≡ (if any_of (λ i. i == id) ids then some (get_metrics m id) else lookup out id)
unfolding collect any_of
lookup-collect m [] out id = refl
lookup-collect m (i ∷ ids) out id = ground (
  arith,
  lookup-collect m ids (insert out i (get_metrics m i)) id,
  lookup-insert out i id (get_metrics m i),
  eq_iff i id,
)

-- The bulk query has an entry exactly for the IDs that were asked for, and each is what the single
-- query gives.
pub lookup-bulk_get_metrics :
    (m : MemoryStore) (ids : List String) (id : String)
    → lookup (bulk_get_metrics m ids) id
      ≡ (if any_of (λ i. i == id) ids then some (get_metrics m id) else none)
unfolding bulk_get_metrics lookup
lookup-bulk_get_metrics m ids id = lookup-collect m ids [] id
