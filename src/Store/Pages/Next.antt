-- ===== src/Store/Pages/Next.antt =====
-- Following the cursors leads through all of the matching artifacts.
use mathlib.Core.Option.{none-ne-some, some-injective}
use parchment.Prelude.{
  ℕ, zero, suc, ◌<◌, String, true, false, ◌&&◌, Option, none, some, List, [], ◌∷◌, ◌≡◌, refl, sym,
  ap, ◌∙◌, arith, nat_eq, ltb, leb, str_leb, str_leb_refl, contains_rune, length, take, drop,
  if◌then◌else◌, Bool-cases, String-cases, inl, inr, Memᴰ, subst,
}
use parchment.Prelude.Sorting.{IsStrict}
use parchment.Artifact.{Artifact}
use parchment.Artifact.Filter.{Filter, matches, match_labels}
use parchment.Store.{MemoryStore}
use parchment.Store.Artifacts.{HasIds}
use parchment.Store.Revisions.Pruning.{take_all}
use parchment.Store.Pages.{
  encode_cursor, decode_cursor, by_time, passed, skip, after_cursor, parts, cursor_of_last,
  limit_page, list_page,
}
use parchment.Store.Pages.Cursor.{decode_cursor-encode_cursor}
use parchment.Store.Pages.Order.{matching, matching-IsStrict}

abbrev pub nth : ℕ → List Artifact → Option Artifact
nth n [] = none
nth zero (a ∷ arts) = some a
nth (suc n) (a ∷ arts) = nth n arts

module _ (format : ℕ → String) where
  -- the texts of the times order the artifacts as the times do, and none has a NUL
  pub record IsFaithful (arts : List Artifact) : Type 0 where
    pub ordered :
        (a b : Artifact)
        → Memᴰ a arts
        → Memᴰ b arts
        → str_leb (format a.inserted_at) (format b.inserted_at) ≡ leb a.inserted_at b.inserted_at
    pub clean : (a : Artifact) → Memᴰ a arts → contains_rune (format a.inserted_at) 0 ≡ false

  abbrev pub cursor_at : Option Artifact → String
  cursor_at none = ""
  cursor_at (some a) = encode_cursor (format a.inserted_at) a.id

  IsFaithful-tail : (a : Artifact) (arts : List Artifact) → IsFaithful (a ∷ arts) → IsFaithful arts
  IsFaithful-tail a arts h = record {
    ordered = λ x y i j. h.ordered x y (Memᴰ.tail i) (Memᴰ.tail j);
    clean = λ x i. h.clean x (Memᴰ.tail i);
  }

  mem-nth : (n : ℕ) (arts : List Artifact) (c : Artifact) → nth n arts ≡ some c → Memᴰ c arts
  mem-nth n [] c e = absurd (none-ne-some c e)
  mem-nth zero (a ∷ arts) c e = Memᴰ.head (sym (some-injective a c e))
  mem-nth (suc n) (a ∷ arts) c e = Memᴰ.tail (mem-nth n arts c e)

  passed-by_time :
      (arts : List Artifact) (a c : Artifact)
      → IsFaithful arts
      → Memᴰ a arts
      → Memᴰ c arts
      → passed format (format c.inserted_at) c.id a ≡ by_time a c
  passed-by_time arts a c h i j =
      let there = h.ordered a c i j in
      let back = h.ordered c a j i in
      elim (String-cases (format a.inserted_at) (format c.inserted_at)) [
        | inl (q, e) ↦
            let one : str_leb (format a.inserted_at) (format c.inserted_at) ≡ true =
              subst (λ z. str_leb (format a.inserted_at) z ≡ true) q
                (str_leb_refl (format a.inserted_at)) in
            let two : str_leb (format c.inserted_at) (format a.inserted_at) ≡ true =
              subst (λ z. str_leb z (format a.inserted_at) ≡ true) q
                (str_leb_refl (format a.inserted_at)) in
            ground arith
        | inr (n, e) ↦ elim (Bool-cases (nat_eq a.inserted_at c.inserted_at)) [
          | inl t ↦ let q : a.inserted_at ≡ c.inserted_at = ground arith in absurd (n (ap format q))
          | inr f ↦ ground arith
        ]
      ]

  skip-nth :
      (n : ℕ) (arts : List Artifact) (c : Artifact)
      → IsStrict by_time arts
      → IsFaithful arts
      → nth n arts ≡ some c
      → skip format (format c.inserted_at) c.id arts ≡ drop (suc n) arts
  unfolding skip
  skip-nth n [] c s h e = absurd (none-ne-some c e)
  skip-nth zero (a ∷ []) c s h e =
      let q = some-injective a c e in
      let p = passed-by_time (a ∷ []) a c h (Memᴰ.head refl) (Memᴰ.head (sym q)) in
      let t : by_time a c ≡ true =
        subst (λ z. by_time a z ≡ true) q (ground (arith, str_leb_refl a.id)) in
      rw (p, t, if◌then◌else◌) refl
  skip-nth zero (a ∷ b ∷ arts) c s h e =
      let q = some-injective a c e in
      let j = Memᴰ.head (sym q) in
      let p = passed-by_time (a ∷ b ∷ arts) a c h (Memᴰ.head refl) j in
      let t : by_time a c ≡ true =
        subst (λ z. by_time a z ≡ true) q (ground (arith, str_leb_refl a.id)) in
      let r = passed-by_time (a ∷ b ∷ arts) b c h (Memᴰ.tail (Memᴰ.head refl)) j in
      let f : by_time b c ≡ false = subst (λ z. by_time b z ≡ false) q (s.0 b (Memᴰ.head refl)).1 in
      rw (p, t, if◌then◌else◌, r, f) refl
  skip-nth (suc n) (a ∷ arts) c s h e =
      let i = mem-nth n arts c e in
      let p = passed-by_time (a ∷ arts) a c h (Memᴰ.head refl) (Memᴰ.tail i) in
      rw (p, (s.0 c i).0, if◌then◌else◌) (skip-nth n arts c s.1 (IsFaithful-tail a arts h) e)

  cursor_of_last-take :
      (k : ℕ) (arts : List Artifact)
      → k < length arts
      → cursor_of_last format (take (suc k) arts) ≡ cursor_at (nth k arts)
  unfolding cursor_of_last
  cursor_of_last-take k [] h = absurd (omega arith)
  cursor_of_last-take zero (a ∷ arts) h = refl
  cursor_of_last-take (suc k) (a ∷ []) h = absurd (omega arith)
  cursor_of_last-take (suc k) (a ∷ b ∷ arts) h = cursor_of_last-take k (b ∷ arts) (omega arith)

  limited :
      (total k : ℕ) (rest : List Artifact)
      → limit_page format total (suc k) rest ≡ record {
        artifacts = take (suc k) rest;
        next_cursor = if ltb (suc k) (length rest) then cursor_at (nth k rest) else "";
        total = total;
      }
  unfolding limit_page
  limited total k rest = elim (Bool-cases (ltb (suc k) (length rest))) [
    | inl e ↦
        let z : (ltb 0 (suc k) && ltb (suc k) (length rest)) ≡ true = ground arith in
        rw (z, e, if◌then◌else◌, cursor_of_last-take k rest (ground arith)) refl
    | inr f ↦
        let z : (ltb 0 (suc k) && ltb (suc k) (length rest)) ≡ false = ground arith in
        rw (z, f, if◌then◌else◌, take_all (suc k) rest (ground arith)) refl
  ]

  parts-cursor :
      (ts id : String)
      → contains_rune ts 0 ≡ false
      → parts format (encode_cursor ts id) ≡ some (ts, id)
  unfolding decode_cursor
  parts-cursor ts id h = elim (String-cases (encode_cursor ts id) "") [
    | inl (q, _) ↦
        absurd
          (none-ne-some (ts, id) (ap decode_cursor (sym q) ∙ decode_cursor-encode_cursor ts id h))
    | inr (_, f) ↦ rw (f, if◌then◌else◌) (decode_cursor-encode_cursor ts id h)
  ]

-- Let the texts of the times order the matching artifacts as the times do. The page after the cursor of the
-- n-th of them holds the next ones, as many as the limit allows; its total counts all of them; and if some
-- are left, its cursor is that of its last artifact, so that the next page goes on where it ends. The page
-- with no cursor begins with the first artifact.
pub list_page_lem :
    (format : ℕ → String) (m : MemoryStore) (f : Filter) (n k : ℕ) (c : Artifact)
    → HasIds m.artifacts
    → IsFaithful format (matching m f)
    → nth n (matching m f) ≡ some c
    → (list_page format m (record f { cursor = ""; limit = suc k }) ≡ record {
      artifacts = take (suc k) (matching m f);
      next_cursor =
          if ltb (suc k) (length (matching m f))
          then cursor_at format (nth k (matching m f))
          else "";
      total = length (matching m f);
    })
      × (list_page format m (record f { cursor = cursor_at format (some c); limit = suc k })
          ≡ record {
            artifacts = take (suc k) (drop (suc n) (matching m f));
            next_cursor =
                if ltb (suc k) (length (drop (suc n) (matching m f)))
                then cursor_at format (nth k (drop (suc n) (matching m f)))
                else "";
            total = length (matching m f);
          })
unfolding list_page after_cursor matches match_labels
list_page_lem format m f n k c ids h e =
    let all = matching m f in
    let i = mem-nth format n all c e in
    (
      limited format (length all) k all,
      ap (λ o. limit_page format (length all) (suc k) (after_cursor format o all))
            (parts-cursor format (format c.inserted_at) c.id (h.clean c i))
          ∙ ap (limit_page format (length all) (suc k))
              (skip-nth format n all c (matching-IsStrict m f ids) h e)
          ∙ limited format (length all) k (drop (suc n) all),
    )
