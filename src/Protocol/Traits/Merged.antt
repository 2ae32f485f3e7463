-- ===== src/Protocol/Traits/Merged.antt =====
-- What a merge of traits comes to.
use mathlib.Core.Bool.{true≢false}
use parchment.Prelude.{
  String, Bool, true, false, ◌||◌, Option, none, some, List, [], ◌∷◌, ◌≡◌, ◌↔◌, inl, inr, refl, sym,
  ap, ◌∙◌, arith, ◌==◌, eq_iff, if◌then◌else◌, Bool-cases, any_of, any_of→mem, mem→any_of, Memᴰ,
}
use parchment.Dict.{Dict, lookup}
use parchment.Protocol.Traits.{
  LabelTrait, no_trait, policy_protected, merge_eviction_policy, absorb, absorb_all, expand_labels,
  resolve_trait,
}

-- a flag of the trait that a label has, if it has one
abbrev pub grants : (LabelTrait → Bool) → Dict LabelTrait → String → Bool
grants flag traits label = elim (lookup traits label) [ none ↦ false | some t ↦ flag t ]

abbrev pub is_protected : LabelTrait → Bool
is_protected t = t.eviction_policy == policy_protected

-- the policies that a merge from the empty one can reach
abbrev merged_policy : Bool → String
merged_policy b = if b then policy_protected else ""

merge-policy :
    (b : Bool) (p : String)
    → merge_eviction_policy (merged_policy b) p ≡ merged_policy (b || p == policy_protected)
unfolding merge_eviction_policy
merge-policy true p = ground (arith, eq_iff p policy_protected)
merge-policy false p = ground (arith, eq_iff p policy_protected)

absorb-policy :
    (b : Bool) (merged : LabelTrait) (o : Option LabelTrait)
    → merged.eviction_policy ≡ merged_policy b
    → (absorb merged o).eviction_policy
      ≡ merged_policy (b || elim o [ none ↦ false | some t ↦ is_protected t ])
unfolding absorb
absorb-policy b merged none h = h ∙ ground arith
absorb-policy b merged (some t) h =
    ap (λ p. merge_eviction_policy p t.eviction_policy) h ∙ merge-policy b t.eviction_policy

absorb_all-policy :
    (traits : Dict LabelTrait) (labels : List String) (b : Bool) (merged : LabelTrait)
    → merged.eviction_policy ≡ merged_policy b
    → (absorb_all traits labels merged).eviction_policy
      ≡ merged_policy (b || any_of (grants is_protected traits) labels)
unfolding absorb_all any_of
absorb_all-policy traits [] b merged h = h ∙ ground arith
absorb_all-policy traits (l ∷ labels) b merged h =
    absorb_all-policy traits labels (b || grants is_protected traits l)
      (absorb merged (lookup traits l)) (absorb-policy b merged (lookup traits l) h)
    ∙ ap merged_policy (ground arith)

absorb_all-flag :
    (flag : LabelTrait → Bool)
    → ((merged : LabelTrait) (t : LabelTrait)
        → flag (absorb merged (some t)) ≡ (flag merged || flag t))
    → (traits : Dict LabelTrait) (labels : List String) (merged : LabelTrait)
    → flag (absorb_all traits labels merged) ≡ (flag merged || any_of (grants flag traits) labels)
unfolding absorb_all any_of
absorb_all-flag flag step traits [] merged = ground arith
absorb_all-flag flag step traits (l ∷ labels) merged =
    absorb_all-flag flag step traits labels (absorb merged (lookup traits l))
    ∙ one (lookup traits l)
  where
    one :
        (o : Option LabelTrait)
        → (flag (absorb merged o) || any_of (grants flag traits) labels) ≡ (
            flag merged
            || (elim o [ none ↦ false | some t ↦ flag t ] || any_of (grants flag traits) labels))
    one none = unfold absorb in refl
    one (some t) = ap (λ b. b || any_of (grants flag traits) labels) (step merged t) ∙ ground arith

absorb_all_lem :
    (traits : Dict LabelTrait) (labels : List String)
    → ((absorb_all traits labels no_trait).terminal
        ≡ any_of (grants (λ t. t.terminal) traits) labels)
      × ((absorb_all traits labels no_trait).readonly
          ≡ any_of (grants (λ t. t.readonly) traits) labels)
      × ((absorb_all traits labels no_trait).eviction_policy
          ≡ merged_policy (any_of (grants is_protected traits) labels))
unfolding absorb
absorb_all_lem traits labels = (
  absorb_all-flag (λ t. t.terminal) (λ m t. refl) traits labels no_trait,
  absorb_all-flag (λ t. t.readonly) (λ m t. refl) traits labels no_trait,
  absorb_all-policy traits labels false no_trait refl,
)

-- lists with the same members
abbrev pub Same : List String → List String → Type 0
Same xs ys = (s : String) → Memᴰ s xs ↔ Memᴰ s ys

any_of-Same : (p : String → Bool) (xs ys : List String) → Same xs ys → any_of p xs ≡ any_of p ys
any_of-Same p xs ys same = elim (Bool-cases (any_of p xs)) [
  | inl e ↦ let (s, i, q) = any_of→mem p xs e in e ∙ sym (mem→any_of p ys s ((same s).0 i) q)
  | inr f ↦ elim (Bool-cases (any_of p ys)) [
    | inl e ↦
        let (s, i, q) = any_of→mem p ys e in
        absurd (true≢false (sym (mem→any_of p xs s ((same s).1 i) q) ∙ f))
    | inr g ↦ f ∙ sym g
  ]
]

none_granted :
    (flag : LabelTrait → Bool) (labels : List String) → any_of (grants flag []) labels ≡ false
unfolding any_of lookup
none_granted flag [] = refl
none_granted flag (l ∷ labels) = none_granted flag labels

-- Whatever the order in which the labels are visited, the merged trait is terminal, or read-only, exactly
-- if the trait of some label is, be it a label of the artifact or one that it expands to. Its eviction policy
-- is `protected` if one of these traits has it, and otherwise it is left empty: no other policy that a trait
-- names is ever the result.
pub resolve_trait_lem :
    (visit : List String → List String) (traits : Dict LabelTrait) (labels : List String)
    → ((l : List String) → Same (visit l) l)
    → ((resolve_trait visit traits labels).terminal
        ≡ any_of (grants (λ t. t.terminal) traits) (expand_labels [] labels))
      × ((resolve_trait visit traits labels).readonly
          ≡ any_of (grants (λ t. t.readonly) traits) (expand_labels [] labels))
      × ((resolve_trait visit traits labels).eviction_policy ≡ (
          if any_of (grants is_protected traits) (expand_labels [] labels)
          then policy_protected
          else ""))
unfolding resolve_trait expand_labels any_of
resolve_trait_lem visit [] labels same =
    rw
      (
        none_granted (λ t. t.terminal) (expand_labels [] labels),
        none_granted (λ t. t.readonly) (expand_labels [] labels),
        none_granted is_protected (expand_labels [] labels),
      )
      (refl, refl, refl)
resolve_trait_lem visit (t ∷ traits) [] same = (refl, refl, refl)
resolve_trait_lem visit (t ∷ traits) (l ∷ labels) same =
    let expanded = expand_labels [] (l ∷ labels) in
    let all = absorb_all_lem (t ∷ traits) (visit expanded) in
    let order_free = λ (flag : LabelTrait → Bool).
      any_of-Same (grants flag (t ∷ traits)) (visit expanded) expanded (same expanded) in
    (
      all.0 ∙ order_free (λ t. t.terminal),
      all.1 ∙ order_free (λ t. t.readonly),
      all.2 ∙ ap merged_policy (order_free is_protected),
    )
