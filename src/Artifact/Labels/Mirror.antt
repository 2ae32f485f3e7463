-- ===== src/Artifact/Labels/Mirror.antt =====
-- A namespace holds one label after `mirrorLabel`, and the other namespaces keep theirs.
use mathlib.Core.List.{append-nil}
use parchment.Prelude.{
  String, true, ◌≡◌, refl, sym, ◌∙◌, ap, not, List, [], ◌∷◌, ◌++◌, ◌<>◌, arith, if◌then◌else◌,
  has_prefix, has_prefix-append, trim_prefix-append, keep, String-cases, inl, inr, clash,
  append-clash, has_prefix-clash,
}
use parchment.Artifact.Labels.{label_value, mirror_label}

module _ (prefix : String) where
  abbrev others : List String → List String
  others = keep (λ l. not (has_prefix l prefix))

  label_value-others-append :
      (labels rest : List String)
      → label_value (others labels ++ rest) prefix ≡ label_value rest prefix
  unfolding label_value keep
  label_value-others-append [] rest = refl
  label_value-others-append (l ∷ labels) rest =
      ground (arith, label_value-others-append labels rest)

  others_idem : (labels : List String) → others (others labels) ≡ others labels
  unfolding keep
  others_idem [] = refl
  others_idem (l ∷ labels) = ground (arith, others_idem labels)

  others-append :
      (labels : List String) (v : String) → others (labels ++ (prefix <> v) ∷ []) ≡ others labels
  unfolding keep
  others-append [] v = ground (arith, has_prefix-append prefix v)
  others-append (l ∷ labels) v = ground (arith, others-append labels v)

  -- a namespace that no label shares with `prefix`
  label_value-clash :
      (q : String) (labels rest : List String)
      → clash prefix q ≡ true
      → label_value (others labels ++ rest) q ≡ label_value (labels ++ rest) q
  unfolding label_value keep
  label_value-clash q [] rest h = refl
  label_value-clash q (l ∷ labels) rest h =
      ground (arith, label_value-clash q labels rest h, has_prefix-clash l prefix q h)

  label_value-snoc_clash :
      (q v : String) (labels : List String)
      → clash prefix q ≡ true
      → label_value (labels ++ (prefix <> v) ∷ []) q ≡ label_value labels q
  unfolding label_value
  label_value-snoc_clash q v [] h = ground (arith, append-clash prefix q v h)
  label_value-snoc_clash q v (l ∷ labels) h = ground (arith, label_value-snoc_clash q v labels h)

-- Reading a namespace right after `mirrorLabel` wrote a value to it gives that value, and gives the
-- empty text when the empty value removed the label.
pub label_value-mirror_label :
    (labels : List String) (prefix value : String)
    → label_value (mirror_label labels prefix value) prefix ≡ value
unfolding mirror_label label_value
label_value-mirror_label labels prefix value = elim (String-cases value "") [
  | inl (q, e) ↦
      rw (e, if◌then◌else◌)
        (ap (λ l. label_value l prefix) (sym (append-nil _))
          ∙ label_value-others-append prefix labels []
          ∙ sym q)
  | inr (_, e) ↦
      rw (e, if◌then◌else◌)
        (label_value-others-append prefix labels ((prefix <> value) ∷ [])
          ∙ ground (arith, has_prefix-append prefix value, trim_prefix-append prefix value))
]

-- Writing one namespace leaves what every namespace with a clashing prefix reads as it was.
pub label_value-mirror_label-clash :
    (labels : List String) (prefix value other : String)
    → clash prefix other ≡ true
    → label_value (mirror_label labels prefix value) other ≡ label_value labels other
unfolding mirror_label
label_value-mirror_label-clash labels prefix value other h =
    let kept : label_value (others prefix labels) other ≡ label_value labels other =
      ap (λ l. label_value l other) (sym (append-nil _))
      ∙ label_value-clash prefix other labels [] h
      ∙ ap (λ l. label_value l other) (append-nil _) in
    ground (arith, kept, label_value-snoc_clash prefix other value (others prefix labels) h)

-- The last of two writes to a namespace is the one that counts: the labels are the same, in the
-- same order, as if the first had not been made.
pub mirror_label-mirror_label :
    (labels : List String) (prefix v w : String)
    → mirror_label (mirror_label labels prefix v) prefix w ≡ mirror_label labels prefix w
unfolding mirror_label
mirror_label-mirror_label labels prefix v w =
    ground (arith, others_idem prefix labels, others-append prefix (others prefix labels) v)
