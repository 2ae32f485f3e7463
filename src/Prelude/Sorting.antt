-- ===== src/Prelude/Sorting.antt =====
-- `sort.Slice` by a Boolean order. A list of values that the order tells apart has one sorted
-- arrangement (`strict_unique`), so any sorting routine gives the list that insertion sort gives.
use mathlib.Core.Path.{◌≡◌, refl, sym, ◌∙◌, subst}
use mathlib.Core.Bool.{Bool, true, false, ◌&&◌, false≢true}
use mathlib.Core.Logic.{◌↔◌, ◌⊎◌, inl, inr}
use mathlib.Core.List.{List, [], ◌∷◌, Memᴰ}
use mathlib.Core.List.Memᴰ
use native.Mathlib.Omega.{arith}
use parchment.Prelude.Tests.{if◌then◌else◌, Bool-cases}
use parchment.Prelude.Lists.{keep, mem-keep}

module _ {A : Type 0} (before : A → A → Bool) where
  unfoldable pub insert_sorted : A → List A → List A
  insert_sorted x [] = x ∷ []
  insert_sorted x (y ∷ ys) =
      let rest = insert_sorted x ys in if before x y then x ∷ y ∷ ys else y ∷ rest

  unfoldable pub sort_slice : List A → List A
  unfolding insert_sorted
  sort_slice [] = []
  sort_slice (x ∷ xs) = insert_sorted x (sort_slice xs)

  mem-insert_sorted : (a x : A) (ys : List A) → Memᴰ a (insert_sorted x ys) ↔ Memᴰ a (x ∷ ys)
  unfolding insert_sorted
  mem-insert_sorted a x [] = (λ m. m, λ m. m)
  mem-insert_sorted a x (y ∷ ys) = elim (Bool-cases (before x y)) [
    | inl e ↦ rw (e, if◌then◌else◌) (λ m. m, λ m. m)
    | inr e ↦
        rw (e, if◌then◌else◌)
          (
            λ m. elim (Memᴰ.cases_cons m) [
              | inl q ↦ Memᴰ.tail (Memᴰ.head q)
              | inr r ↦ elim (Memᴰ.cases_cons ((mem-insert_sorted a x ys).0 r)) [
                | inl q ↦ Memᴰ.head q
                | inr s ↦ Memᴰ.tail (Memᴰ.tail s)
              ]
            ],
            λ m. elim (Memᴰ.cases_cons m) [
              | inl q ↦ Memᴰ.tail ((mem-insert_sorted a x ys).1 (Memᴰ.head q))
              | inr r ↦ elim (Memᴰ.cases_cons r) [
                | inl q ↦ Memᴰ.head q
                | inr s ↦ Memᴰ.tail ((mem-insert_sorted a x ys).1 (Memᴰ.tail s))
              ]
            ],
          )
  ]

  pub mem-sort_slice : (a : A) (xs : List A) → Memᴰ a (sort_slice xs) ↔ Memᴰ a xs
  unfolding sort_slice
  mem-sort_slice a [] = (λ m. m, λ m. m)
  mem-sort_slice a (x ∷ xs) = (
    λ m. elim (Memᴰ.cases_cons ((mem-insert_sorted a x (sort_slice xs)).0 m)) [
      | inl q ↦ Memᴰ.head q
      | inr r ↦ Memᴰ.tail ((mem-sort_slice a xs).0 r)
    ],
    λ m. (mem-insert_sorted a x (sort_slice xs)).1 (elim (Memᴰ.cases_cons m) [
      | inl q ↦ Memᴰ.head q
      | inr r ↦ Memᴰ.tail ((mem-sort_slice a xs).1 r)
    ]),
  )

  abbrev pub Strictly : A → A → Type 0
  Strictly x y = (before x y ≡ true) × (before y x ≡ false)

  -- every value stands strictly before those after it
  abbrev pub IsStrict : List A → Type 0
  IsStrict [] = Unit
  IsStrict (x ∷ xs) = ((y : A) → Memᴰ y xs → Strictly x y) × IsStrict xs

  -- the order tells the values of the list apart
  abbrev pub IsApart : List A → Type 0
  IsApart [] = Unit
  IsApart (x ∷ xs) = ((y : A) → Memᴰ y xs → (before x y && before y x) ≡ false) × IsApart xs

  pub keep-IsApart : (p : A → Bool) (xs : List A) → IsApart xs → IsApart (keep p xs)
  unfolding keep
  keep-IsApart p [] h = h
  keep-IsApart p (x ∷ xs) h = elim (Bool-cases (p x)) [
    | inl e ↦ rw (e, if◌then◌else◌) (λ y m. h.0 y ((mem-keep p y xs).0 m).0, keep-IsApart p xs h.1)
    | inr e ↦ rw (e, if◌then◌else◌) (keep-IsApart p xs h.1)
  ]

  strict_heads :
      (x y : A) (xs ys : List A)
      → IsStrict (x ∷ xs)
      → IsStrict (y ∷ ys)
      → (x ≡ y) ⊎ Memᴰ x ys
      → (y ≡ x) ⊎ Memᴰ y xs
      → x ≡ y
  strict_heads x y xs ys hx hy (inl q) _ = q
  strict_heads x y xs ys hx hy (inr m) (inl q) = sym q
  strict_heads x y xs ys hx hy (inr m) (inr n) =
      absurd (false≢true (sym (hx.0 y n).1 ∙ (hy.0 x m).0))

  strict_tails :
      (x y : A) (xs ys : List A)
      → IsStrict (x ∷ xs)
      → x ≡ y
      → ((a : A) → Memᴰ a (x ∷ xs) → Memᴰ a (y ∷ ys))
      → (a : A) → Memᴰ a xs
      → Memᴰ a ys
  strict_tails x y xs ys hx e sub a m = elim (Memᴰ.cases_cons (sub a (Memᴰ.tail m))) [
    | inl q ↦
        let s = subst (Strictly x) (q ∙ sym e) (hx.0 a m) in absurd (false≢true (sym s.1 ∙ s.0))
    | inr r ↦ r
  ]

  -- Two strictly sorted lists with the same members are one list.
  pub strict_unique :
      (xs ys : List A) → IsStrict xs → IsStrict ys → ((a : A) → Memᴰ a xs ↔ Memᴰ a ys) → xs ≡ ys
  strict_unique [] [] hx hy same = refl
  strict_unique [] (y ∷ ys) hx hy same = absurd (Memᴰ.not-nil ((same y).1 (Memᴰ.head refl)))
  strict_unique (x ∷ xs) [] hx hy same = absurd (Memᴰ.not-nil ((same x).0 (Memᴰ.head refl)))
  strict_unique (x ∷ xs) (y ∷ ys) hx hy same =
      let e =
        strict_heads x y xs ys hx hy (Memᴰ.cases_cons ((same x).0 (Memᴰ.head refl)))
          (Memᴰ.cases_cons ((same y).1 (Memᴰ.head refl))) in
      let tails = strict_unique xs ys hx.1 hy.1 (λ a. (
        strict_tails x y xs ys hx e (λ b. (same b).0) a,
        strict_tails y x ys xs hy (sym e) (λ b. (same b).1) a,
      )) in
      cc (e, tails)

  module _ (total : (x y : A) → (before x y ≡ true) ⊎ (before y x ≡ true))
      (trans : (x y z : A) → before x y ≡ true → before y z ≡ true → before x z ≡ true) where
    strict_trans : (x y z : A) → Strictly x y → Strictly y z → Strictly x z
    strict_trans x y z h k = (
      trans x y z h.0 k.0,
      elim (Bool-cases (before z x)) [
        | inl e ↦ absurd (false≢true (sym k.1 ∙ trans z x y e h.0))
        | inr e ↦ e
      ],
    )

    insert_sorted-IsStrict :
        (x : A) (ys : List A)
        → ((y : A) → Memᴰ y ys → (before x y && before y x) ≡ false)
        → IsStrict ys
        → IsStrict (insert_sorted x ys)
    unfolding insert_sorted
    insert_sorted-IsStrict x [] apart h = (λ y m. absurd (Memᴰ.not-nil m), tt)
    insert_sorted-IsStrict x (y ∷ ys) apart h = elim (Bool-cases (before x y)) [
      | inl e ↦
          let first : Strictly x y = (e, ground (arith, apart y (Memᴰ.head refl))) in
          rw (e, if◌then◌else◌)
            (
              λ z m. elim (Memᴰ.cases_cons m) [
                | inl q ↦ subst (Strictly x) (sym q) first
                | inr r ↦ strict_trans x y z first (h.0 z r)
              ],
              h,
            )
      | inr e ↦
          let first : Strictly y x = (ground (arith, total x y), e) in
          rw (e, if◌then◌else◌)
            (
              λ z m. elim (Memᴰ.cases_cons ((mem-insert_sorted z x ys).0 m)) [
                | inl q ↦ subst (Strictly y) (sym q) first
                | inr r ↦ h.0 z r
              ],
              insert_sorted-IsStrict x ys (λ z m. apart z (Memᴰ.tail m)) h.1,
            )
    ]

    pub sort_slice-IsStrict : (xs : List A) → IsApart xs → IsStrict (sort_slice xs)
    unfolding sort_slice
    sort_slice-IsStrict [] h = tt
    sort_slice-IsStrict (x ∷ xs) h =
        insert_sorted-IsStrict x (sort_slice xs) (λ y m. h.0 y ((mem-sort_slice y xs).0 m))
          (sort_slice-IsStrict xs h.1)
