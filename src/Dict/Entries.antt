-- ===== src/Dict/Entries.antt =====
-- The entries of a map with distinct keys are what its keys hold.
use mathlib.Core.List.Memᴰ
use parchment.Prelude.{
  String, some, List, [], ◌∷◌, ◌≡◌, ◌↔◌, inl, inr, ap, arith, eq_iff, map, Memᴰ, String-cases,
}
use parchment.Dict.{Dict, lookup, IsDistinct}

module _ {V : Type 0} where
  pub mem-entries :
      (d : Dict V) (key : String) (l : V) → IsDistinct d → Memᴰ (key, l) d ↔ (lookup d key ≡ some l)
  unfolding lookup
  mem-entries [] key l h = (λ i. absurd (Memᴰ.not-nil i), λ q. cc q)
  mem-entries ((j, x) ∷ d) key l h =
      let ih = mem-entries d key l h.1 in
      (
        λ i. elim (Memᴰ.cases_cons i) [
          | inl q ↦ ground (arith, q, eq_iff j key)
          | inr r ↦ let old = ih.0 r in ground (arith, old, eq_iff j key, h.0)
        ],
        λ q. elim (String-cases j key) [
          | inl (e, t) ↦ Memᴰ.head (ground (arith, t))
          | inr (n, t) ↦ Memᴰ.tail (ih.1 (ground arith))
        ],
      )

  pub mem-keys :
      (d : List (String × V)) (key : String)
      → Memᴰ key (map (λ e. e.0) d) ↔ ((v : V) × Memᴰ (key, v) d)
  mem-keys [] key = (λ i. absurd (Memᴰ.not-nil i), λ (v, i). absurd (Memᴰ.not-nil i))
  mem-keys ((k, v) ∷ d) key =
      let ih = mem-keys d key in
      (
        λ i. elim (Memᴰ.cases_cons i) [
          | inl q ↦ (v, Memᴰ.head (ap (λ z. (z, v)) q))
          | inr r ↦ let (w, j) = ih.0 r in (w, Memᴰ.tail j)
        ],
        λ (w, i). elim (Memᴰ.cases_cons i) [
          | inl q ↦ Memᴰ.head (ap (λ e. e.0) q)
          | inr r ↦ Memᴰ.tail (ih.1 (w, r))
        ],
      )
