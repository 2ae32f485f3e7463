-- ===== src/Artifact/Labels/Status.antt =====
-- The lifecycle status of an artifact: what `setStatusLabel` writes is what `statusFromLabels` reads.
use mathlib.Core.List.{append-nil}
use parchment.Prelude.{
  String, Bool, true, false, ◌≡◌, refl, sym, ◌∙◌, ap, not, ◌&&◌, List, [], ◌∷◌, ◌++◌, ◌<>◌, ◌==◌,
  arith, if◌then◌else◌, has_prefix, has_prefix-append, trim_prefix-append, keep, any_of, Bool-cases,
  String-cases, inl, inr, clash, append-clash,
}
use parchment.Artifact.Labels.{
  label_value, is_domain_status_label, first_domain_status, status_from_labels, set_status_label,
  has_any_status_label, label_prefix_status, is_status_label, status_label,
}

-- a wrapped status has no domain prefix
is_domain_status_label-wrapped :
    (s : String) → is_domain_status_label (label_prefix_status <> s) ≡ false
unfolding is_domain_status_label clash
is_domain_status_label-wrapped s = ground (
  arith,
  append-clash label_prefix_status "work." s refl,
  append-clash label_prefix_status "note." s refl,
  append-clash label_prefix_status "decision." s refl,
  append-clash label_prefix_status "agent." s refl,
  append-clash label_prefix_status "code." s refl,
)

abbrev no_status : String → Bool
no_status l = not (is_domain_status_label l) && not (has_prefix l label_prefix_status)

others : List String → List String
others = keep no_status

first_domain_status-others :
    (labels rest : List String) (o : String)
    → first_domain_status (others labels ++ rest) o ≡ first_domain_status rest o
unfolding first_domain_status others keep
first_domain_status-others [] rest o = refl
first_domain_status-others (l ∷ labels) rest o =
    ground (arith, first_domain_status-others labels rest o)

label_value-others :
    (labels rest : List String)
    → label_value (others labels ++ rest) label_prefix_status ≡ label_value rest label_prefix_status
unfolding label_value others keep
label_value-others [] rest = refl
label_value-others (l ∷ labels) rest = ground (arith, label_value-others labels rest)

status_from_labels-others :
    (labels rest : List String)
    → status_from_labels (others labels ++ rest) ≡ status_from_labels rest
unfolding status_from_labels
status_from_labels-others labels rest =
    first_domain_status-others labels rest _
    ∙ ap (first_domain_status rest) (label_value-others labels rest)

status_from_labels-one : (s : String) → status_from_labels (status_label s ∷ []) ≡ s
unfolding status_from_labels label_value
status_from_labels-one s = ground (
  arith,
  is_domain_status_label-wrapped s,
  has_prefix-append label_prefix_status s,
  trim_prefix-append label_prefix_status s,
)

set_status_label_lem :
    (labels : List String) (s : String)
    → set_status_label labels s ≡ others labels ++ (if s == "" then [] else status_label s ∷ [])
unfolding set_status_label others
set_status_label_lem labels s = elim (Bool-cases (s == "")) [
  | inl e ↦ rw (e, if◌then◌else◌) (sym (append-nil _))
  | inr e ↦ rw (e, if◌then◌else◌) refl
]

-- Whatever labels an artifact had, and whether the new status is a domain status, a system status or
-- the empty text, the status read after `setStatusLabel` is the one that was set.
pub status_from_labels-set_status_label :
    (labels : List String) (status : String)
    → status_from_labels (set_status_label labels status) ≡ status
status_from_labels-set_status_label labels status = elim (String-cases status "") [
  | inl (q, e) ↦
      rw (set_status_label_lem labels status, e, if◌then◌else◌)
        (status_from_labels-others labels [] ∙ (unfold status_from_labels label_value in sym q))
  | inr (_, e) ↦
      rw (set_status_label_lem labels status, e, if◌then◌else◌)
        (status_from_labels-others labels (status_label status ∷ [])
          ∙ status_from_labels-one status)
]

is_status_label-status_label : (s : String) → is_status_label (status_label s) ≡ true
is_status_label-status_label s = ground (arith, has_prefix-append label_prefix_status s)

statuses-others :
    (labels rest : List String)
    → keep is_status_label (others labels ++ rest) ≡ keep is_status_label rest
unfolding others keep
statuses-others [] rest = refl
statuses-others (l ∷ labels) rest = ground (arith, statuses-others labels rest)

-- After `setStatusLabel` with a status the labels hold that status label and no other one; with the
-- empty status they hold none.
pub set_status_label_unique :
    (labels : List String) (status : String)
    → keep is_status_label (set_status_label labels status)
      ≡ (if status == "" then [] else status_label status ∷ [])
unfolding keep
set_status_label_unique labels status =
    rw (set_status_label_lem labels status)
      (statuses-others labels _ ∙ ground (arith, is_status_label-status_label status))

any_of-others :
    (labels rest : List String)
    → has_any_status_label (others labels ++ rest) ≡ has_any_status_label rest
unfolding others keep has_any_status_label any_of
any_of-others [] rest = refl
any_of-others (l ∷ labels) rest = ground (arith, any_of-others labels rest)

-- `hasAnyStatusLabel` holds after `setStatusLabel` exactly when a status was given.
pub has_any_status_label-set_status_label :
    (labels : List String) (status : String)
    → has_any_status_label (set_status_label labels status) ≡ not (status == "")
unfolding has_any_status_label any_of
has_any_status_label-set_status_label labels status =
    rw (set_status_label_lem labels status)
      (any_of-others labels _ ∙ ground (arith, is_status_label-status_label status))

label_value-none :
    (labels : List String)
    → has_any_status_label labels ≡ false
    → label_value labels label_prefix_status ≡ ""
unfolding label_value has_any_status_label any_of
label_value-none [] q = refl
label_value-none (l ∷ labels) q = ground (arith, label_value-none labels)

first_domain_status-none :
    (labels : List String) (o : String)
    → has_any_status_label labels ≡ false
    → first_domain_status labels o ≡ o
unfolding first_domain_status has_any_status_label any_of
first_domain_status-none [] o q = refl
first_domain_status-none (l ∷ labels) o q = ground (arith, first_domain_status-none labels o)

-- with no status label among them, the labels give no status
pub status_from_labels-none :
    (labels : List String) → has_any_status_label labels ≡ false → status_from_labels labels ≡ ""
unfolding status_from_labels
status_from_labels-none labels q = first_domain_status-none labels _ q ∙ label_value-none labels q
