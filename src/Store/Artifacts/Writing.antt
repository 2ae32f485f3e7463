-- ===== src/Store/Artifacts/Writing.antt =====
-- What is read back after a write, and what a write adds to the history.
use mathlib.Core.Bool.{true≢false}
use mathlib.Core.Option.{none-ne-some}
use parchment.Prelude.{
  ◌≢◌, ◌∙◌, sym, nat_eq, nat_eq_iff, ℕ, String, true, Option, none, some, List, [], ◌∷◌, ◌++◌, ◌≡◌,
  refl, ap, arith, ◌==◌, if◌then◌else◌, Option-cases, Bool-cases, ◌⊎◌, inl, inr, is_some, subst,
}
use parchment.Dict.{lookup, insert, lookup-insert}
use parchment.Artifact.{Artifact, artifact_content_equal}
use parchment.Store.{MemoryStore, Revision}
use parchment.Store.Result.{ok}
use parchment.Store.Artifacts.{HasIds, put, get, stamp, or_now, snapshot_old}
use parchment.Store.Revisions.{
  revisions_of, next_rev, revision_of, append_revision, snapshot_if_changed,
}
use parchment.Store.Revisions.History.{revisions-append_revision}

pub snapshot-artifacts :
    (m : MemoryStore) (old updated : Artifact)
    → (snapshot_if_changed m old updated).artifacts ≡ m.artifacts
unfolding snapshot_if_changed append_revision
snapshot-artifacts m old updated = ground arith

snapshot_old-artifacts :
    (m : MemoryStore) (o : Option Artifact) (art : Artifact)
    → (snapshot_old m o art).artifacts ≡ m.artifacts
unfolding snapshot_old
snapshot_old-artifacts m none art = refl
snapshot_old-artifacts m (some old) art = snapshot-artifacts m old art

pub artifacts-put :
    (now : ℕ) (m : MemoryStore) (art : Artifact)
    → (put now m art).1.artifacts ≡ insert m.artifacts art.id (put now m art).0
unfolding put
artifacts-put now m art =
    ap (λ d. insert d art.id (stamp now (is_some (lookup m.artifacts art.id)) art))
      (snapshot_old-artifacts m _ _)

-- `Get` after `Put`, by what `Put` returns
pub get-put_returned :
    (now : ℕ) (m : MemoryStore) (art : Artifact) (id : String)
    → get (put now m art).1 id ≡ (if art.id == id then ok (put now m art).0 else get m id)
unfolding get
get-put_returned now m art id =
    rw (artifacts-put now m art, lookup-insert m.artifacts art.id id (put now m art).0)
      (ground arith)

-- the time that a write leaves where the artifact had the time `old`: the present one if it had none
abbrev pub FillsIn : ℕ → ℕ → ℕ → Type 0
FillsIn now old new = ((old ≡ 0) × (new ≡ now)) ⊎ ((old ≢ 0) × (new ≡ old))

or_now-FillsIn : (now t : ℕ) → FillsIn now t (or_now t now)
or_now-FillsIn now t = elim (Bool-cases (nat_eq t 0)) [
  | inl e ↦ inl ((nat_eq_iff t 0).0 e, rw (e, if◌then◌else◌) refl)
  | inr e ↦ inr (λ q. true≢false (sym ((nat_eq_iff t 0).1 q) ∙ e), rw (e, if◌then◌else◌) refl)
]

updated-put :
    (now : ℕ) (o : Option Artifact) (art : Artifact)
    → ((o ≢ none) × ((stamp now (is_some o) art).updated_at ≡ now))
      ⊎ ((o ≡ none) × FillsIn now art.updated_at (stamp now (is_some o) art).updated_at)
updated-put now none art = inr (refl, or_now-FillsIn now art.updated_at)
updated-put now (some old) art = inl (λ q. none-ne-some old (sym q), refl)

-- `Put` stores the caller's artifact with three times set, and nothing else of it changed: those of its
-- creation and of its insertion are the present time where it had none, and are kept otherwise; that of
-- its update is the present time where the ID is stored already, and where it is new it is filled in
-- as the others are. After it `Get` gives this artifact, which the caller has too, under its ID, and for
-- every other ID what it gave before.
pub get-put :
    (now : ℕ) (m : MemoryStore) (art : Artifact) (id : String)
    → (a : Artifact) × ((put now m art).0 ≡ a)
      × (get (put now m art).1 id ≡ (if art.id == id then ok a else get m id))
      × (a ≡ record art {
        created_at = a.created_at;
        updated_at = a.updated_at;
        inserted_at = a.inserted_at;
      })
      × FillsIn now art.created_at a.created_at
      × FillsIn now art.inserted_at a.inserted_at
      × (((lookup m.artifacts art.id ≢ none) × (a.updated_at ≡ now))
          ⊎ ((lookup m.artifacts art.id ≡ none) × FillsIn now art.updated_at a.updated_at))
unfolding put
get-put now m art id = (
  stamp now (is_some (lookup m.artifacts art.id)) art,
  refl,
  get-put_returned now m art id,
  refl,
  or_now-FillsIn now art.created_at,
  or_now-FillsIn now art.inserted_at,
  updated-put now (lookup m.artifacts art.id) art,
)

-- the history of the snapshot's artifact
abbrev pub with_snapshot : MemoryStore → Artifact → Artifact → String → List Revision
with_snapshot m old updated id =
    if artifact_content_equal old updated
    then revisions_of m id
    else revisions_of m id ++ revision_of (next_rev (revisions_of m id)) old ∷ []

pub revisions-snapshot :
    (m : MemoryStore) (old updated : Artifact)
    → revisions_of (snapshot_if_changed m old updated) old.id ≡ with_snapshot m old updated old.id
unfolding snapshot_if_changed
revisions-snapshot m old updated = elim (Bool-cases (artifact_content_equal old updated)) [
  | inl e ↦ rw (e, if◌then◌else◌) refl
  | inr e ↦ rw (e, if◌then◌else◌) (revisions-append_revision m old)
]

-- `Put` over a stored artifact adds one revision, of the artifact as it stood, to the end of its
-- history if the content differs, and none if the content is the same; the first `Put` adds none.
pub revisions-put :
    (now : ℕ) (m : MemoryStore) (art : Artifact)
    → HasIds m.artifacts
    → ((lookup m.artifacts art.id ≡ none) × ((put now m art).1.revisions ≡ m.revisions))
      ⊎ ((old : Artifact) × (lookup m.artifacts art.id ≡ some old)
          × (revisions_of (put now m art).1 art.id ≡ with_snapshot m old (put now m art).0 art.id))
unfolding put
revisions-put now m art ids = elim (Option-cases (lookup m.artifacts art.id)) [
  | inl h ↦ inl (h, rw (h, snapshot_old) refl)
  | inr (old, h) ↦ inr (
    old,
    h,
    rw (h, snapshot_old)
        (subst
          (λ i.
            revisions_of (snapshot_if_changed m old (stamp now true art)) i
            ≡ with_snapshot m old (stamp now true art) i)
          (ids.keyed art.id old h) (revisions-snapshot m old (stamp now true art))),
  )
]
