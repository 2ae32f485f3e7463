-- ===== src/Protocol/Edits/Labels.antt =====
-- What the labels that `SetField` takes can hold.
use mathlib.Core.Option.{some-injective, none-ne-some}
use parchment.Prelude.{
  String, false, ◌&&◌, not, Option, none, some, List, [], ◌∷◌, ◌==◌, ◌≡◌, inl, inr, refl, sym, ap,
  ◌∙◌, arith, any_of, if◌then◌else◌, Bool-cases, subst,
}
use parchment.Prelude.Scanning.{trim_space, split}
use parchment.Artifact.{Artifact}
use parchment.Artifact.Labels.Status.{status_from_labels-none}
use parchment.Artifact.Labels.{has_any_status_label, is_status_label, status_from_labels}
use parchment.Protocol.Edits.{
  Settings, Edit, edited, stopped, edit, parse_labels, or_stop, set_labels,
}

parse_labels-no_status :
    (parts labels : List String)
    → parse_labels parts ≡ some labels
    → has_any_status_label labels ≡ false
unfolding parse_labels has_any_status_label any_of
parse_labels-no_status [] labels q =
    subst (λ l. has_any_status_label l ≡ false) (some-injective [] labels q) refl
parse_labels-no_status (part ∷ parts) labels q =
    elim (Bool-cases (not (trim_space part == "") && is_status_label (trim_space part))) [
      | inl e ↦ absurd (none-ne-some labels (rw (e, if◌then◌else◌) at q))
      | inr e ↦
          kept (parse_labels-no_status parts) (parse_labels parts) refl (rw (e, if◌then◌else◌) at q)
            e
    ]
  where
    kept :
        ((ls : List String) → parse_labels parts ≡ some ls → has_any_status_label ls ≡ false)
        → (o : Option (List String)) → parse_labels parts ≡ o
        → or_stop (trim_space part) o ≡ some labels
        → (not (trim_space part == "") && is_status_label (trim_space part)) ≡ false
        → has_any_status_label labels ≡ false
    kept ih none same r e = absurd (none-ne-some labels r)
    kept ih (some ls) same r e = elim (Bool-cases (trim_space part == "")) [
      | inl f ↦
          subst (λ l. has_any_status_label l ≡ false)
            (some-injective ls labels (rw (f, if◌then◌else◌) at r)) (ih ls same)
      | inr f ↦
          subst (λ l. has_any_status_label l ≡ false)
            (some-injective (trim_space part ∷ ls) labels (rw (f, if◌then◌else◌) at r))
            (ground (arith, ih ls same))
    ]

labels_of : Edit → List String
labels_of (edited a change) = a.labels
labels_of (stopped e) = []

set_labels-no_status :
    (art art' : Artifact) (change : Artifact → Artifact) (o : Option (List String))
    → ((labels : List String) → o ≡ some labels → has_any_status_label labels ≡ false)
    → set_labels art o ≡ edited art' change
    → status_from_labels art'.labels ≡ ""
unfolding labels_of
set_labels-no_status art art' change none h q = absurd (ground arith)
set_labels-no_status art art' change (some labels) h q =
    ap status_from_labels (sym (ap labels_of q)) ∙ status_from_labels-none labels (h labels refl)

-- Setting the field labels, where it goes on to the write, leaves an artifact from whose labels no status can be
-- read, whatever status it had and whatever labels the list names.
pub edit-labels_lem :
    (s : Settings) (art art' : Artifact) (value : String) (change : Artifact → Artifact)
    → edit s art "labels" value ≡ edited art' change
    → status_from_labels art'.labels ≡ ""
unfolding edit
edit-labels_lem s art art' value change q =
    set_labels-no_status art art' change
      (if value == "" then some [] else parse_labels (split value ",")) none_is_status q
  where
    none_is_status :
        (labels : List String)
        → (if value == "" then some [] else parse_labels (split value ",")) ≡ some labels
        → has_any_status_label labels ≡ false
    none_is_status labels r = elim (Bool-cases (value == "")) [
      | inl e ↦
          subst (λ l. has_any_status_label l ≡ false)
            (some-injective [] labels (rw (e, if◌then◌else◌) at r))
            (unfold has_any_status_label any_of in refl)
      | inr e ↦ parse_labels-no_status (split value ",") labels (rw (e, if◌then◌else◌) at r)
    ]
