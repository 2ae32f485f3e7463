-- ===== src/Artifact/Equal.antt =====
-- When `artifactContentEqual` holds.
use parchment.Prelude.{
  String, true, some, List, [], ◌∷◌, ◌≡◌, refl, sym, ap, ◌∙◌, ◌==◌, eq_refl, eq_iff, nat_eq_iff,
  length, if◌then◌else◌, String-cases, inl, inr, subst,
}
use mathlib.Core.Option.{none-ne-some}
use parchment.Dict.{Dict, lookup, IsDistinct}
use parchment.Artifact.{
  Value, sprint, Section, Annotation, entries, Artifact, goal, find_goal, string_slice_equal,
  sections_equal, annotations_equal, same_print, extra_within, extra_equal, artifact_content_equal,
}

string_slice_equal_refl : (xs : List String) → string_slice_equal xs xs ≡ true
unfolding string_slice_equal
string_slice_equal_refl [] = refl
string_slice_equal_refl (x ∷ xs) = rw (eq_refl x) (string_slice_equal_refl xs)

sections_equal_refl : (xs : List Section) → sections_equal xs xs ≡ true
unfolding sections_equal
sections_equal_refl [] = refl
sections_equal_refl (x ∷ xs) = rw (eq_refl x.name, eq_refl x.text) (sections_equal_refl xs)

annotations_equal_refl : (xs : List Annotation) → annotations_equal xs xs ≡ true
unfolding annotations_equal
annotations_equal_refl [] = refl
annotations_equal_refl (x ∷ xs) = rw (eq_refl x.kind, eq_refl x.comment) (annotations_equal_refl xs)

extra_within-lookup :
    (a b : Dict Value)
    → IsDistinct a
    → ((k : String) (v : Value) → lookup a k ≡ some v → lookup b k ≡ some v)
    → extra_within a b ≡ true
unfolding extra_within lookup
extra_within-lookup [] b h sub = refl
extra_within-lookup ((k, v) ∷ a) b h sub =
    let here : lookup b k ≡ some v = sub k v (rw (eq_refl k) refl) in
    let rest = extra_within-lookup a b h.1 (λ j w e. elim (String-cases k j) [
      | inl (q, _) ↦ absurd (none-ne-some w (sym h.0 ∙ ap (lookup a) q ∙ e))
      | inr (_, f) ↦ sub j w (rw (f, if◌then◌else◌) e)
    ]) in
    rw (here, same_print, eq_refl (sprint v)) rest

extra_equal_refl : (d : Dict Value) → IsDistinct d → extra_equal d d ≡ true
unfolding extra_equal
extra_equal_refl d h =
    rw ((nat_eq_iff (length d) (length d)).1 refl) (extra_within-lookup d d h (λ k v e. e))

-- Artifacts that agree in what is compared are equal, whatever their IDs and times are.
pub artifact_content_equal-same :
    (a b : Artifact)
    → a.title ≡ b.title
    → a.labels ≡ b.labels
    → a.sections ≡ b.sections
    → a.annotations ≡ b.annotations
    → entries a.extra ≡ entries b.extra
    → IsDistinct (entries a.extra)
    → artifact_content_equal a b ≡ true
unfolding artifact_content_equal
artifact_content_equal-same a b t l s n x h =
    let t1 : (a.title == b.title) ≡ true = (eq_iff a.title b.title).1 t in
    let t2 : (goal a == goal b) ≡ true =
      (eq_iff (goal a) (goal b)).1 (unfold goal in ap find_goal s) in
    let t3 : string_slice_equal a.labels b.labels ≡ true =
      subst (λ z. string_slice_equal a.labels z ≡ true) l (string_slice_equal_refl a.labels) in
    let t4 : sections_equal a.sections b.sections ≡ true =
      subst (λ z. sections_equal a.sections z ≡ true) s (sections_equal_refl a.sections) in
    let t5 : annotations_equal a.annotations b.annotations ≡ true =
      subst (λ z. annotations_equal a.annotations z ≡ true) n
        (annotations_equal_refl a.annotations) in
    let t6 : extra_equal (entries a.extra) (entries b.extra) ≡ true =
      subst (λ z. extra_equal (entries a.extra) z ≡ true) x
        (extra_equal_refl (entries a.extra) h) in
    rw (t1, t2, t3, t4, t5, t6) refl
