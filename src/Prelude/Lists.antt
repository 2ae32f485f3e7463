-- ===== src/Prelude/Lists.antt =====
-- Lists over native numbers and Boolean tests.
use Prim.Native.Nat.{ℕ, zero, suc, ◌+◌, ◌-◌}
use mathlib.Core.Path.{◌≡◌, refl, sym, ap, ◌∙◌}
use mathlib.Core.Logic.{◌↔◌, inl, inr}
use mathlib.Core.Bool.{Bool, true, false, ◌&&◌, ◌||◌, true≢false}
use mathlib.Core.List.{List, [], ◌∷◌, ◌++◌, Memᴰ}
use mathlib.Core.List.Memᴰ
use native.Mathlib.Omega.{arith}
use parchment.Prelude.Tests.{if◌then◌else◌, Bool-cases}

module _ {ℓ} {A : Type ℓ} where
  abbrev pub length : List A → ℕ
  length [] = 0
  length (x ∷ xs) = suc (length xs)

  abbrev pub take : ℕ → List A → List A
  take zero xs = []
  take (suc n) [] = []
  take (suc n) (x ∷ xs) = x ∷ take n xs

  abbrev pub drop : ℕ → List A → List A
  drop zero xs = xs
  drop (suc n) [] = []
  drop (suc n) (x ∷ xs) = drop n xs

  pub length-append : (xs ys : List A) → length (xs ++ ys) ≡ length xs + length ys
  length-append [] ys = omega arith
  length-append (x ∷ xs) ys = omega (arith, length-append xs ys)

  pub length-drop : (n : ℕ) (xs : List A) → length (drop n xs) ≡ length xs - n
  length-drop zero xs = omega arith
  length-drop (suc n) [] = omega arith
  length-drop (suc n) (x ∷ xs) = omega (arith, length-drop n xs)

  pub take-append-drop : (n : ℕ) (xs : List A) → take n xs ++ drop n xs ≡ xs
  take-append-drop zero xs = refl
  take-append-drop (suc n) [] = refl
  take-append-drop (suc n) (x ∷ xs) = ap (◌∷◌ x) (take-append-drop n xs)

  -- `for … { if test(x) { out = append(out, x) } }`
  unfoldable pub keep : (A → Bool) → List A → List A
  keep p [] = []
  keep p (x ∷ xs) = let rest = keep p xs in if p x then x ∷ rest else rest

  -- `for … { if test(x) { return true } }; return false`
  unfoldable pub any_of : (A → Bool) → List A → Bool
  any_of p [] = false
  any_of p (x ∷ xs) = p x || any_of p xs

  -- `for … { if !test(x) { return false } }; return true`
  unfoldable pub all_of : (A → Bool) → List A → Bool
  all_of p [] = true
  all_of p (x ∷ xs) = p x && all_of p xs

  pub mem-keep :
      (p : A → Bool) (a : A) (xs : List A) → Memᴰ a (keep p xs) ↔ (Memᴰ a xs × (p a ≡ true))
  unfolding keep
  mem-keep p a [] = (λ m. absurd (Memᴰ.not-nil m), λ h. absurd (Memᴰ.not-nil h.0))
  mem-keep p a (x ∷ xs) = elim (Bool-cases (p x)) [
    | inl e ↦
        rw (e, if◌then◌else◌)
          (
            λ m. elim (Memᴰ.cases_cons m) [
              | inl q ↦ (Memᴰ.head q, ap p q ∙ e)
              | inr r ↦ let s = (mem-keep p a xs).0 r in (Memᴰ.tail s.0, s.1)
            ],
            λ h. elim (Memᴰ.cases_cons h.0) [
              | inl q ↦ Memᴰ.head q
              | inr r ↦ Memᴰ.tail ((mem-keep p a xs).1 (r, h.1))
            ],
          )
    | inr e ↦
        rw (e, if◌then◌else◌)
          (
            λ m. let s = (mem-keep p a xs).0 m in (Memᴰ.tail s.0, s.1),
            λ h. elim (Memᴰ.cases_cons h.0) [
              | inl q ↦ absurd (true≢false (sym h.1 ∙ ap p q ∙ e))
              | inr r ↦ (mem-keep p a xs).1 (r, h.1)
            ],
          )
  ]

  pub any_of→mem :
      (p : A → Bool) (xs : List A) → any_of p xs ≡ true → (x : A) × Memᴰ x xs × (p x ≡ true)
  unfolding any_of
  any_of→mem p [] e = cc
  any_of→mem p (x ∷ xs) e = elim (Bool-cases (p x)) [
    | inl t ↦ (x, Memᴰ.head refl, t)
    | inr f ↦ let (y, m, t) = any_of→mem p xs (ground arith) in (y, Memᴰ.tail m, t)
  ]

  pub mem→any_of :
      (p : A → Bool) (xs : List A) (x : A) → Memᴰ x xs → p x ≡ true → any_of p xs ≡ true
  unfolding any_of
  mem→any_of p [] x m e = absurd (Memᴰ.not-nil m)
  mem→any_of p (y ∷ xs) x m e = elim (Memᴰ.cases_cons m) [
    | inl q ↦ ground (arith, ap p q)
    | inr r ↦ ground (arith, mem→any_of p xs x r e)
  ]

  pub all_of→mem :
      (p : A → Bool) (xs : List A) → all_of p xs ≡ true → (x : A) → Memᴰ x xs → p x ≡ true
  unfolding all_of
  all_of→mem p [] e x m = absurd (Memᴰ.not-nil m)
  all_of→mem p (y ∷ xs) e x m = elim (Memᴰ.cases_cons m) [
    | inl q ↦ ground (arith, ap p q)
    | inr r ↦ all_of→mem p xs (ground arith) x r
  ]

  pub mem→all_of :
      (p : A → Bool) (xs : List A) → ((x : A) → Memᴰ x xs → p x ≡ true) → all_of p xs ≡ true
  unfolding all_of
  mem→all_of p [] h = refl
  mem→all_of p (y ∷ xs) h =
      ground (arith, h y (Memᴰ.head refl), mem→all_of p xs (λ x m. h x (Memᴰ.tail m)))

  abbrev pub is_empty : List A → Bool
  is_empty [] = true
  is_empty (_ ∷ _) = false
