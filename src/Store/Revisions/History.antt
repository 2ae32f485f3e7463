-- ===== src/Store/Revisions/History.antt =====
-- Histories stay numbered without a gap, and what is appended can be read back.
use parchment.Prelude.{
  ℕ, zero, suc, ◌+◌, ◌-◌, ◌≤◌, ◌<◌, String, List, [], ◌∷◌, ◌++◌, ◌≡◌, ◌≢◌, refl, ap, subst, arith,
  if◌then◌else◌, String-cases, Bool-cases, inl, inr, length, drop, leb,
}
use parchment.Dict.{lookup, insert, lookup-insert_self, lookup-insert_ne, lookup-remove}
use parchment.Artifact.{Artifact, artifact_content_equal}
use parchment.Store.{MemoryStore, Revision}
use parchment.Store.Result.{ok}
use parchment.Store.Revisions.{
  slice_at, revisions_of, next_rev, revision_of, append_revision, snapshot_if_changed,
  find_revision, get_revision, prune_revisions, purge_revisions,
}

-- the revisions of one artifact, numbered without a gap
abbrev pub IsHistory : String → List Revision → Type 0
IsHistory id [] = Unit
IsHistory id (r ∷ []) = (r.artifact_id ≡ id) × (1 ≤ r.rev)
IsHistory id (r ∷ s ∷ revs) =
    (r.artifact_id ≡ id) × (1 ≤ r.rev) × (s.rev ≡ r.rev + 1) × IsHistory id (s ∷ revs)

IsHistory-append :
    (id : String) (revs : List Revision) (r : Revision)
    → IsHistory id revs
    → r.artifact_id ≡ id
    → r.rev ≡ next_rev revs
    → IsHistory id (revs ++ r ∷ [])
unfolding next_rev
IsHistory-append id [] r h p q = (p, omega arith)
IsHistory-append id (a ∷ []) r h p q = (h.0, h.1, q, (p, omega arith))
IsHistory-append id (a ∷ b ∷ revs) r h p q =
    (h.0, h.1, h.2, IsHistory-append id (b ∷ revs) r h.3 p q)

IsHistory-tail :
    (id : String) (r : Revision) (revs : List Revision)
    → IsHistory id (r ∷ revs)
    → IsHistory id revs
IsHistory-tail id r [] h = tt
IsHistory-tail id r (s ∷ revs) h = h.3

IsHistory-drop :
    (id : String) (n : ℕ) (revs : List Revision) → IsHistory id revs → IsHistory id (drop n revs)
IsHistory-drop id zero revs h = h
IsHistory-drop id (suc n) [] h = tt
IsHistory-drop id (suc n) (r ∷ revs) h = IsHistory-drop id n revs (IsHistory-tail id r revs h)

rev-lt-next_rev :
    (id : String) (r : Revision) (revs : List Revision)
    → IsHistory id (r ∷ revs)
    → r.rev < next_rev (r ∷ revs)
unfolding next_rev
rev-lt-next_rev id r [] h = omega arith
rev-lt-next_rev id r (s ∷ revs) h = omega (arith, rev-lt-next_rev id s revs h.3)

find_revision-append :
    (id : String) (revs : List Revision) (r : Revision)
    → IsHistory id revs
    → r.rev ≡ next_rev revs
    → find_revision (revs ++ r ∷ []) r.rev ≡ ok r
unfolding find_revision next_rev
find_revision-append id [] r h q = ground arith
find_revision-append id (a ∷ []) r h q = ground arith
find_revision-append id (a ∷ b ∷ revs) r h q =
    ground (arith, rev-lt-next_rev id a (b ∷ revs) h, find_revision-append id (b ∷ revs) r h.3 q)

-- no other history changes
pub revisions-append_revision_ne :
    (m : MemoryStore) (art : Artifact) (id : String)
    → art.id ≢ id
    → revisions_of (append_revision m art) id ≡ revisions_of m id
unfolding append_revision
revisions-append_revision_ne m art id h = ap slice_at (lookup-insert_ne m.revisions art.id id _ h)

pub revisions-append_revision :
    (m : MemoryStore) (art : Artifact)
    → revisions_of (append_revision m art) art.id
      ≡ revisions_of m art.id ++ revision_of (next_rev (revisions_of m art.id)) art ∷ []
unfolding append_revision
revisions-append_revision m art = ap slice_at (lookup-insert_self m.revisions art.id _)

abbrev pub Histories : MemoryStore → Type 0
Histories m = (id : String) → IsHistory id (revisions_of m id)

pub append_revision-Histories :
    (m : MemoryStore) (art : Artifact) → Histories m → Histories (append_revision m art)
append_revision-Histories m art h id = elim (String-cases art.id id) [
  | inl (e, _) ↦
      subst (λ i. IsHistory i (revisions_of (append_revision m art) i)) e
        (rw (revisions-append_revision m art) (IsHistory-append art.id _ _ (h art.id) refl refl))
  | inr (n, _) ↦ rw (revisions-append_revision_ne m art id n) (h id)
]

pub snapshot_if_changed-Histories :
    (m : MemoryStore) (old updated : Artifact)
    → Histories m
    → Histories (snapshot_if_changed m old updated)
unfolding snapshot_if_changed
snapshot_if_changed-Histories m old updated h =
    elim (Bool-cases (artifact_content_equal old updated)) [
      | inl e ↦ rw (e, if◌then◌else◌) h
      | inr e ↦ rw (e, if◌then◌else◌) (append_revision-Histories m old h)
    ]

pub prune_revisions-Histories :
    (m : MemoryStore) (id : String) (keep_n : ℕ)
    → Histories m
    → Histories (prune_revisions m id keep_n).1
unfolding prune_revisions
prune_revisions-Histories m id keep_n h j =
    elim (Bool-cases (leb (length (revisions_of m id)) keep_n)) [
      | inl few ↦ rw (few, if◌then◌else◌) (h j)
      | inr many ↦
          let rest = drop (length (revisions_of m id) - keep_n) (revisions_of m id) in
          rw (many, if◌then◌else◌)
            (elim (String-cases id j) [
              | inl (e, _) ↦
                  subst (λ i. IsHistory i (slice_at (lookup (insert m.revisions id rest) i))) e
                    (rw (lookup-insert_self m.revisions id rest)
                      (IsHistory-drop id _ (revisions_of m id) (h id)))
              | inr (n, _) ↦ rw (lookup-insert_ne m.revisions id j rest n) (h j)
            ])
    ]

pub purge_revisions-Histories :
    (m : MemoryStore) (id : String) → Histories m → Histories (purge_revisions m id)
unfolding purge_revisions
purge_revisions-Histories m id h j = elim (String-cases id j) [
  | inl (_, t) ↦ rw (lookup-remove m.revisions id j, t, if◌then◌else◌) tt
  | inr (_, t) ↦ rw (lookup-remove m.revisions id j, t, if◌then◌else◌) (h j)
]

-- A snapshot gets the next number of its artifact's history, and that number finds it again.
pub get_revision-append_revision :
    (m : MemoryStore) (art : Artifact)
    → Histories m
    → get_revision (append_revision m art) art.id (next_rev (revisions_of m art.id))
      ≡ ok (revision_of (next_rev (revisions_of m art.id)) art)
unfolding get_revision
get_revision-append_revision m art h = rw (revisions-append_revision m art) (
    find_revision-append art.id (revisions_of m art.id)
      (revision_of (next_rev (revisions_of m art.id)) art) (h art.id) refl)
