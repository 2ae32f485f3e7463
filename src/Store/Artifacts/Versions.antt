-- ===== src/Store/Artifacts/Versions.antt =====
-- Optimistic locking: `PutIfVersion`.
use parchment.Prelude.{
  ℕ, String, true, none, some, ◌≡◌, ◌≢◌, refl, ap, ◌∙◌, arith, ◌==◌, if◌then◌else◌, Option-cases,
  Bool-cases, ◌⊎◌, inl, inr, nat_eq, subst,
}
use parchment.Dict.{lookup, insert, lookup-insert, lookup-insert_self}
use parchment.Artifact.{Artifact}
use parchment.Store.{MemoryStore}
use parchment.Store.Result.{ok, err, artifact_not_found, conflict}
use parchment.Store.Artifacts.{HasIds, get, or_now, put_if_version, put_checked}
use parchment.Store.Artifacts.Writing.{snapshot-artifacts, revisions-snapshot, with_snapshot}
use parchment.Store.Revisions.{revisions_of, snapshot_if_changed}

-- what `putLocked` stores
abbrev pub relocked : ℕ → Artifact → Artifact
relocked now art = record art {
  created_at = or_now art.created_at now;
  updated_at = now;
  inserted_at = or_now art.inserted_at now;
}

abbrev locked : ℕ → MemoryStore → Artifact → Artifact → MemoryStore
locked now m art old =
    let m' = snapshot_if_changed m old art in
    record m' { artifacts = insert m'.artifacts art.id (relocked now art) }

put_if_version-stored :
    (now : ℕ) (m : MemoryStore) (art old : Artifact) (expected : ℕ)
    → lookup m.artifacts art.id ≡ some old
    → put_if_version now m art expected ≡ (
        if nat_eq old.updated_at expected then (ok tt, locked now m art old) else (err conflict, m))
unfolding put_if_version
put_if_version-stored now m art old expected h = rw (h, put_checked)

put_if_version_branches :
    (now : ℕ) (m : MemoryStore) (art : Artifact) (expected : ℕ)
    → (lookup m.artifacts art.id ≡ none
        → put_if_version now m art expected ≡ (err artifact_not_found, m))
      × ((old : Artifact)
          → lookup m.artifacts art.id ≡ some old
          → old.updated_at ≢ expected
          → put_if_version now m art expected ≡ (err conflict, m))
      × ((old : Artifact)
          → lookup m.artifacts art.id ≡ some old
          → old.id ≡ art.id
          → old.updated_at ≡ expected
          → ((put_if_version now m art expected).0 ≡ ok tt)
            × ((id : String)
                → get (put_if_version now m art expected).1 id
                  ≡ (if art.id == id then ok (relocked now art) else get m id))
            × (revisions_of (put_if_version now m art expected).1 art.id
                ≡ with_snapshot m old art art.id))
unfolding get
put_if_version_branches now m art expected = (
  λ h. unfold put_if_version in rw (h, put_checked),
  λ old h n. rw (put_if_version-stored now m art old expected h) (ground arith),
  λ old h e v.
      let t : nat_eq old.updated_at expected ≡ true = ground arith in
      rw (put_if_version-stored now m art old expected h, t, if◌then◌else◌)
        (
          refl,
          λ id. ground (
            arith,
            lookup-insert (snapshot_if_changed m old art).artifacts art.id id (relocked now art),
            snapshot-artifacts m old art,
          ),
          subst (λ i. revisions_of (snapshot_if_changed m old art) i ≡ with_snapshot m old art i) e
              (revisions-snapshot m old art),
        ),
)

-- `PutIfVersion` fails, and leaves the store as it is, when the artifact is missing or its update time
-- is not the expected one. Otherwise it succeeds: the artifact is read back with the clock's time as its
-- version, every other artifact is as before, and the history has the old content if it differed.
pub put_if_version_cases :
    (now : ℕ) (m : MemoryStore) (art : Artifact) (expected : ℕ)
    → HasIds m.artifacts
    → ((lookup m.artifacts art.id ≡ none)
        × (put_if_version now m art expected ≡ (err artifact_not_found, m)))
      ⊎ ((old : Artifact) × (lookup m.artifacts art.id ≡ some old)
          × (((old.updated_at ≢ expected) × (put_if_version now m art expected ≡ (err conflict, m)))
              ⊎ ((old.updated_at ≡ expected)
                  × ((put_if_version now m art expected).0 ≡ ok tt)
                  × ((id : String)
                      → get (put_if_version now m art expected).1 id
                        ≡ (if art.id == id then ok (relocked now art) else get m id))
                  × (revisions_of (put_if_version now m art expected).1 art.id
                      ≡ with_snapshot m old art art.id))))
put_if_version_cases now m art expected ids =
    let all = put_if_version_branches now m art expected in
    elim (Option-cases (lookup m.artifacts art.id)) [
      | inl h ↦ inl (h, all.0 h)
      | inr (old, h) ↦ inr (
        old,
        h,
        elim (Bool-cases (nat_eq old.updated_at expected)) [
          | inl t ↦
              let e : old.updated_at ≡ expected = ground arith in
              let done = all.2 old h (ids.keyed art.id old h) e in inr (e, done.0, done.1, done.2)
          | inr f ↦ let n : old.updated_at ≢ expected = ground arith in inl (n, all.1 old h n)
        ],
      )
    ]

put_if_version-ok :
    (now : ℕ) (m : MemoryStore) (art : Artifact) (expected : ℕ)
    → (put_if_version now m art expected).0 ≡ ok tt
    → lookup (put_if_version now m art expected).1.artifacts art.id ≡ some (relocked now art)
put_if_version-ok now m art expected h = elim (Option-cases (lookup m.artifacts art.id)) [
  | inl e ↦ absurd (ground (arith, (put_if_version_branches now m art expected).0 e))
  | inr (old, e) ↦ elim (Bool-cases (nat_eq old.updated_at expected)) [
    | inl t ↦
        rw (put_if_version-stored now m art old expected e, t, if◌then◌else◌)
          (lookup-insert_self (snapshot_if_changed m old art).artifacts art.id (relocked now art))
    | inr f ↦ absurd (ground (arith, put_if_version-stored now m art old expected e))
  ]
]

-- Of two writers that read one version only the first to write succeeds: once `PutIfVersion` has
-- succeeded at a later time, another one that expects the version it replaced fails with a conflict
-- and changes nothing, so no write is lost.
pub put_if_version_once :
    (now later : ℕ) (m : MemoryStore) (a b : Artifact) (expected : ℕ)
    → (put_if_version now m a expected).0 ≡ ok tt
    → b.id ≡ a.id
    → now ≢ expected
    → put_if_version later (put_if_version now m a expected).1 b expected
      ≡ (err conflict, (put_if_version now m a expected).1)
put_if_version_once now later m a b expected h same apart =
    let m' = (put_if_version now m a expected).1 in
    (put_if_version_branches later m' b expected).1 (relocked now a)
      (ap (lookup m'.artifacts) same ∙ put_if_version-ok now m a expected h) apart
