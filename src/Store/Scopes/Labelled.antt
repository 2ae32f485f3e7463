-- ===== src/Store/Scopes/Labelled.antt =====
-- The index from labels to scopes agrees with the labels of each scope.
use mathlib.Core.List.Memᴰ
use parchment.Prelude.{
  String, true, none, List, [], ◌∷◌, ◌≡◌, ◌↔◌, refl, sym, ap, ◌∙◌, arith, ◌==◌, eq_iff, eq_refl,
  if◌then◌else◌, String-cases, inl, inr, Memᴰ, any_of, any_of→mem, mem→any_of,
}
use parchment.Dict.{Dict, lookup, IsDistinct}
use parchment.Store.{MemoryStore}
use parchment.Store.Revisions.{slice_at}
use parchment.Store.Scopes.{get_scope_labels, labelled, scopes_by_label}

named : (x : String) (xs : List String) → any_of (λ y. y == x) xs ≡ true → Memᴰ x xs
named x xs e = let (y, m, q) = any_of→mem (λ y. y == x) xs e in Memᴰ.cast (sym ((eq_iff y x).0 q)) m

any_labelled :
    (d : Dict (List String)) (label scope : String)
    → IsDistinct d
    → any_of (λ s. s == scope) (labelled label d)
      ≡ any_of (λ l. l == label) (slice_at (lookup d scope))
unfolding labelled lookup any_of
any_labelled [] label scope h = refl
any_labelled ((s, labels) ∷ d) label scope h =
    let ih = any_labelled d label scope h.1 in
    elim (String-cases s scope) [
      | inl (q, e) ↦
          let gone : lookup d scope ≡ none = ap (lookup d) (sym q) ∙ h.0 in
          rw (e, if◌then◌else◌) (ground (arith, ih, gone, e))
      | inr (_, e) ↦ rw (e, if◌then◌else◌) (ground (arith, ih, e))
    ]

-- A scope is found by a label exactly if the label is among the labels that the scope has.
pub mem-scopes_by_label :
    (m : MemoryStore) (label scope : String)
    → IsDistinct m.scope_labels
    → Memᴰ scope (scopes_by_label m label) ↔ Memᴰ label (get_scope_labels m scope)
unfolding scopes_by_label get_scope_labels
mem-scopes_by_label m label scope h =
    let same = any_labelled m.scope_labels label scope h in
    (
      λ i. named label _ (sym same ∙ mem→any_of (λ s. s == scope) _ scope i (eq_refl scope)),
      λ i. named scope _ (same ∙ mem→any_of (λ l. l == label) _ label i (eq_refl label)),
    )
