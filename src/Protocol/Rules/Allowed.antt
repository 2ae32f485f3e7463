-- ===== src/Protocol/Rules/Allowed.antt =====
-- What the lookup of a relationship decides.
use mathlib.Core.List.Memᴰ
use mathlib.Core.Option.{none-ne-some, some-injective}
use mathlib.Core.Bool.{false≢true}
use parchment.Prelude.{
  String, true, ◌||◌, some, List, [], ◌∷◌, ◌≡◌, ◌↔◌, ◌⊎◌, inl, inr, refl, sym, ap, ◌∙◌, arith, ◌==◌,
  eq_iff, eq_refl, if◌then◌else◌, Bool-cases, Option-cases, Memᴰ, any_of→mem, mem→any_of, is_some,
  subst,
}
use parchment.Protocol.Rules.{RelationshipTrait, names, applies, find_relationship, is_edge_allowed}

-- an end of a relationship that some label meets
abbrev pub Meets : String → List String → Type 0
Meets end labels = (end ≡ "*") ⊎ Memᴰ end labels

names→mem : (end : String) (labels : List String) → names end labels ≡ true → Memᴰ end labels
names→mem end labels e =
    let (l, m, q) = any_of→mem (λ l. end == l) labels e in Memᴰ.cast ((eq_iff end l).0 q) m

mem→names : (end : String) (labels : List String) → Memᴰ end labels → names end labels ≡ true
mem→names end labels m = mem→any_of (λ l. end == l) labels end m (eq_refl end)

meets :
    (end : String) (labels : List String)
    → ((end == "*" || names end labels) ≡ true) ↔ Meets end labels
meets end labels = (
  λ e. elim (Bool-cases (end == "*")) [
    | inl q ↦ inl ((eq_iff end "*").0 q)
    | inr f ↦ inr (names→mem end labels (ground arith))
  ],
  λ h. elim h [
    | inl q ↦ ground (arith, eq_iff end "*")
    | inr m ↦ let n = mem→names end labels m in ground arith
  ],
)

find→mem :
    (rels : List RelationshipTrait) (source_labels : List String) (relation : String)
    (target_labels : List String) (r : RelationshipTrait)
    → find_relationship rels source_labels relation target_labels ≡ some r
    → Memᴰ r rels × (applies source_labels relation target_labels r ≡ true)
unfolding find_relationship
find→mem [] sl rel tl r h = absurd (none-ne-some r h)
find→mem (x ∷ rels) sl rel tl r h = elim (Bool-cases (applies sl rel tl x)) [
  | inl e ↦
      let same : x ≡ r = some-injective x r (rw (e, if◌then◌else◌) at h) in
      (Memᴰ.head (sym same), subst (λ z. applies sl rel tl z ≡ true) same e)
  | inr e ↦ let (m, a) = find→mem rels sl rel tl r (rw (e, if◌then◌else◌) at h) in (Memᴰ.tail m, a)
]

mem→find :
    (rels : List RelationshipTrait) (source_labels : List String) (relation : String)
    (target_labels : List String) (r : RelationshipTrait)
    → Memᴰ r rels
    → applies source_labels relation target_labels r ≡ true
    → is_some (find_relationship rels source_labels relation target_labels) ≡ true
unfolding find_relationship
mem→find [] sl rel tl r m a = absurd (Memᴰ.not-nil m)
mem→find (x ∷ rels) sl rel tl r m a = elim (Bool-cases (applies sl rel tl x)) [
  | inl e ↦ rw (e, if◌then◌else◌) refl
  | inr e ↦
      rw (e, if◌then◌else◌)
        (elim (Memᴰ.cases_cons m) [
          | inl same ↦ absurd (false≢true (sym e ∙ subst (λ z. applies sl rel tl z ≡ true) same a))
          | inr later ↦ mem→find rels sl rel tl r later a
        ])
]

-- An edge is allowed exactly if the schema has a relationship of that relation of which each end is a
-- wildcard or one of the labels of the artifact at that end.
pub is_edge_allowed_iff :
    (rels : List RelationshipTrait) (source_labels : List String) (relation : String)
    (target_labels : List String)
    → (is_edge_allowed rels source_labels relation target_labels ≡ true) ↔ (
        (r : RelationshipTrait) × Memᴰ r rels
        × (r.relation ≡ relation)
        × Meets r.from source_labels
        × Meets r.to target_labels)
unfolding is_edge_allowed
is_edge_allowed_iff rels sl rel tl = (
  λ h. elim (Option-cases (find_relationship rels sl rel tl)) [
    | inl e ↦ absurd (false≢true (sym (ap is_some e) ∙ h))
    | inr (r, e) ↦
        let (m, a) = find→mem rels sl rel tl r e in
        (
          r,
          m,
          (eq_iff r.relation rel).0 (ground arith),
          (meets r.from sl).0 (ground arith),
          (meets r.to tl).0 (ground arith),
        )
  ],
  λ (r, m, q, f, t). mem→find rels sl rel tl r m (
      let a = (meets r.from sl).1 f in
      let b = (meets r.to tl).1 t in ground (arith, eq_iff r.relation rel)),
)
