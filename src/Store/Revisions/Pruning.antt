-- ===== src/Store/Revisions/Pruning.antt =====
-- What is listed of a history, and what pruning leaves of it.
use mathlib.Core.List.{reverse, reverse-append}
use parchment.Prelude.{
  ℕ, zero, suc, ◌+◌, ◌-◌, ◌≤◌, ◌<◌, String, true, ◌==◌, List, [], ◌∷◌, ◌++◌, ◌≡◌, refl, sym, ap,
  ◌∙◌, arith, if◌then◌else◌, String-cases, Bool-cases, inl, inr, length, take, drop, length-append,
  length-drop, take-append-drop, leb,
}
use parchment.Dict.{lookup, insert, lookup-insert, lookup-insert_self}
use parchment.Artifact.{Artifact}
use parchment.Store.{MemoryStore}
use parchment.Store.Revisions.{
  slice_at, revisions_of, next_rev, revision_of, append_revision, list_revisions, prune_revisions,
}
use parchment.Store.Revisions.History.{revisions-append_revision}

module _ {A : Type 0} where
  length-reverse : (xs : List A) → length (reverse xs) ≡ length xs
  length-reverse [] = refl
  length-reverse (x ∷ xs) =
      ap length (reverse-append (x ∷ []) xs)
      ∙ omega (arith, length-append (reverse xs) (x ∷ []), length-reverse xs)

  take-append : (n : ℕ) (xs ys : List A) → n ≡ length xs → take n (xs ++ ys) ≡ xs
  take-append zero [] ys h = refl
  take-append zero (x ∷ xs) ys h = absurd (omega arith)
  take-append (suc n) [] ys h = absurd (omega arith)
  take-append (suc n) (x ∷ xs) ys h = ap (◌∷◌ x) (take-append n xs ys (omega arith))

  pub take_all : (n : ℕ) (xs : List A) → length xs ≤ n → take n xs ≡ xs
  take_all zero [] h = refl
  take_all zero (x ∷ xs) h = absurd (omega arith)
  take_all (suc n) [] h = refl
  take_all (suc n) (x ∷ xs) h = ap (◌∷◌ x) (take_all n xs (omega arith))

  -- the last `k` of a list are the first `k` of its reverse
  reverse-drop :
      (k : ℕ) (xs : List A)
      → k < length xs
      → reverse (drop (length xs - k) xs) ≡ take k (reverse xs)
  reverse-drop k xs h =
      let d = length xs - k in
      sym (
        ap (λ l. take k (reverse l)) (sym (take-append-drop d xs))
        ∙ ap (take k) (reverse-append (take d xs) (drop d xs))
        ∙ take-append k (reverse (drop d xs)) (reverse (take d xs))
            (omega (arith, length-reverse (drop d xs), length-drop d xs)))

-- `ListRevisions` with a positive limit is the beginning of the whole list, newest first.
pub list_revisions-limit :
    (m : MemoryStore) (id : String) (limit : ℕ)
    → 0 < limit
    → list_revisions m id limit ≡ take limit (list_revisions m id 0)
unfolding list_revisions
list_revisions-limit m id limit h = ground (arith, take_all limit (reverse (revisions_of m id)))

-- The newest revision is listed first, before all those that were listed already.
pub list_revisions-append_revision :
    (m : MemoryStore) (art : Artifact)
    → list_revisions (append_revision m art) art.id 0
      ≡ revision_of (next_rev (revisions_of m art.id)) art ∷ list_revisions m art.id 0
unfolding list_revisions
list_revisions-append_revision m art =
    ap reverse (revisions-append_revision m art) ∙ reverse-append (revisions_of m art.id) _

none_dropped :
    (m : MemoryStore) (id other : String) (n : ℕ)
    → leb (length (revisions_of m id)) n ≡ true
    → revisions_of m other ≡ (
        if id == other
        then drop (length (revisions_of m id) - n) (revisions_of m id)
        else revisions_of m other)
none_dropped m id other n few = elim (String-cases id other) [
  | inl (e, t) ↦
      rw (t, if◌then◌else◌)
        (let z : length (revisions_of m id) - n ≡ 0 = ground arith in
          rw z (ap (revisions_of m) (sym e)))
  | inr (_, f) ↦ rw (f, if◌then◌else◌) refl
]

-- `PruneRevisions` leaves the newest `keep_n` revisions of the artifact, in the order in which they
-- were listed, reports how many it removed, and does not touch the history of another artifact.
pub prune_revisions_lem :
    (m : MemoryStore) (id other : String) (keep_n : ℕ)
    → (list_revisions (prune_revisions m id keep_n).1 id 0 ≡ take keep_n (list_revisions m id 0))
      × ((prune_revisions m id keep_n).0
            + length (list_revisions (prune_revisions m id keep_n).1 id 0)
          ≡ length (list_revisions m id 0))
      × (revisions_of (prune_revisions m id keep_n).1 other ≡ (
          if id == other
          then drop (length (revisions_of m id) - keep_n) (revisions_of m id)
          else revisions_of m other))
unfolding prune_revisions list_revisions
prune_revisions_lem m id other keep_n =
    elim (Bool-cases (leb (length (revisions_of m id)) keep_n)) [
      | inl few ↦
          rw (few, if◌then◌else◌)
            (
              sym (take_all keep_n _ (ground (arith, length-reverse (revisions_of m id)))),
              omega arith,
              none_dropped m id other keep_n few,
            )
      | inr many ↦
          let revs = revisions_of m id in
          let d = length revs - keep_n in
          let e : slice_at (lookup (insert m.revisions id (drop d revs)) id) ≡ drop d revs =
            ap slice_at (lookup-insert_self m.revisions id (drop d revs)) in
          rw (many, if◌then◌else◌)
            (
              ap reverse e ∙ reverse-drop keep_n revs (ground arith),
              ground (
                arith,
                ap (λ l. length (reverse l)) e,
                length-reverse (drop d revs),
                length-drop d revs,
                length-reverse revs,
              ),
              ground (arith, lookup-insert m.revisions id other (drop d revs)),
            )
    ]
