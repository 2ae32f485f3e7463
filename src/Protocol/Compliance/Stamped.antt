-- ===== src/Protocol/Compliance/Stamped.antt =====
-- What the stamp says.
use mathlib.Core.List.Memᴰ
use mathlib.Core.Bool.{true≢false}
use parchment.Prelude.{
  String, Bool, true, ◌&&◌, ◌||◌, not, Option, none, some, List, [], ◌∷◌, ◌++◌, ◌<>◌, ◌≡◌, ◌≢◌, ◌↔◌,
  ◌⊎◌, inl, inr, refl, sym, ap, ◌∙◌, arith, map, keep, Memᴰ, is_empty, if◌then◌else◌, Bool-cases,
}
use parchment.Dict.{Dict, lookup, lookup-insert_self, lookup-remove_self}
use parchment.Artifact.{Artifact, Extra, Value, entries, array}
use parchment.Artifact.Labels.{label_value}
use parchment.Artifact.Labels.Mirror.{label_value-mirror_label}
use parchment.Protocol.Link.{texts}
use parchment.Protocol.Traits.{LabelTrait, no_trait, resolve_trait}
use parchment.Protocol.Compliance.{
  label_prefix_compliance, extra_key_violations, user_labels, has_section, has_property, lacking,
  compute_violations, stamped, stamp_compliance, without_key,
}

abbrev pub asked : (List String → List String) → Dict LabelTrait → Artifact → LabelTrait
asked visit traits art = resolve_trait visit traits (user_labels art.labels)

nothing_asked :
    (visit : List String → List String) (traits : Dict LabelTrait) (labels : List String)
    → (is_empty traits || is_empty labels) ≡ true
    → resolve_trait visit traits labels ≡ no_trait
unfolding resolve_trait
nothing_asked visit traits labels e = rw (resolve_trait, e, if◌then◌else◌) refl

lacking-nothing :
    (merged : LabelTrait) (art : Artifact)
    → (is_empty merged.required_sections && is_empty merged.properties) ≡ true
    → lacking merged art ≡ []
unfolding lacking keep
lacking-nothing merged art e = both merged.required_sections merged.properties e
  where
    both :
        (xs ys : List String)
        → (is_empty xs && is_empty ys) ≡ true
        → map (λ s. "missing section: " <> s) (keep (λ s. not (has_section art.sections s)) xs)
            ++ map (λ p. "missing property: " <> p) (keep (λ p. not (has_property art.extra p)) ys)
          ≡ []
    both [] [] e = refl
    both [] (y ∷ ys) e = absurd (ground arith)
    both (x ∷ xs) ys e = absurd (ground arith)

user_labels-empty :
    (labels : List String) → is_empty labels ≡ true → is_empty (user_labels labels) ≡ true
unfolding keep
user_labels-empty [] e = refl
user_labels-empty (l ∷ labels) e = absurd (ground arith)

-- the early returns change nothing
compute_violations_lem :
    (visit : List String → List String) (traits : Dict LabelTrait) (art : Artifact)
    → compute_violations visit traits art ≡ lacking (asked visit traits art) art
unfolding compute_violations
compute_violations_lem visit traits art =
    elim (Bool-cases
      (is_empty traits || is_empty art.labels || is_empty (user_labels art.labels))) [
        | inl e ↦
            rw (compute_violations, e, if◌then◌else◌)
              (sym (
                lacking-nothing (asked visit traits art) art (
                  rw
                    (nothing_asked visit traits (user_labels art.labels)
                      (ground (arith, e, user_labels-empty art.labels)))
                    refl)))
        | inr e ↦
            elim (Bool-cases (
              is_empty (asked visit traits art).required_sections
              && is_empty (asked visit traits art).properties)) [
                | inl f ↦
                    rw (compute_violations, e, f, if◌then◌else◌)
                      (sym (lacking-nothing (asked visit traits art) art f))
                | inr f ↦ rw (compute_violations, e, f, if◌then◌else◌) refl
              ]
      ]

keep-nil_iff :
    (p : String → Bool) (xs : List String)
    → (keep (λ x. not (p x)) xs ≡ []) ↔ ((x : String) → Memᴰ x xs → p x ≡ true)
unfolding keep
keep-nil_iff p [] = (λ _ x i. absurd (Memᴰ.not-nil i), λ _. refl)
keep-nil_iff p (y ∷ xs) = elim (Bool-cases (p y)) [
  | inl e ↦ (
    λ q x i. elim (Memᴰ.cases_cons i) [
      | inl s ↦ ap p s ∙ e
      | inr r ↦ (keep-nil_iff p xs).0 (rw (e, if◌then◌else◌) at q) x r
    ],
    λ h. rw (e, if◌then◌else◌) ((keep-nil_iff p xs).1 (λ x i. h x (Memᴰ.tail i))),
  )
  | inr f ↦ (λ q. absurd (ground arith), λ h. absurd (true≢false (sym (h y (Memᴰ.head refl)) ∙ f)))
]

maps-nil_iff :
    (f g : String → String) (xs ys : List String)
    → (map f xs ++ map g ys ≡ []) ↔ ((xs ≡ []) × (ys ≡ []))
maps-nil_iff f g [] [] = (λ _. (refl, refl), λ _. refl)
maps-nil_iff f g [] (y ∷ ys) = (λ q. absurd (ground arith), λ (_, q). absurd (ground arith))
maps-nil_iff f g (x ∷ xs) ys = (λ q. absurd (ground arith), λ (q, _). absurd (ground arith))

-- each section and each property that the trait asks for is there
abbrev pub Complies : LabelTrait → Artifact → Type 0
Complies merged art =
    ((s : String) → Memᴰ s merged.required_sections → has_section art.sections s ≡ true)
    × ((p : String) → Memᴰ p merged.properties → has_property art.extra p ≡ true)

lacking_iff :
    (merged : LabelTrait) (art : Artifact) → (lacking merged art ≡ []) ↔ Complies merged art
unfolding lacking
lacking_iff merged art = (
  λ q.
      let (a, b) = (maps-nil_iff _ _ _ _).0 q in
      (
        (keep-nil_iff (has_section art.sections) merged.required_sections).0 a,
        (keep-nil_iff (has_property art.extra) merged.properties).0 b,
      ),
  λ (a, b). (maps-nil_iff _ _ _ _).1 (
    (keep-nil_iff (has_section art.sections) merged.required_sections).1 a,
    (keep-nil_iff (has_property art.extra) merged.properties).1 b,
  ),
)

abbrev pub compliance_of : Artifact → String
compliance_of art = label_value art.labels label_prefix_compliance

abbrev pub violations_of : Artifact → Option Value
violations_of art = lookup (entries art.extra) extra_key_violations

removed_key :
    (extra : Extra)
    → lookup (entries (without_key extra_key_violations extra)) extra_key_violations ≡ none
unfolding lookup
removed_key none = refl
removed_key (some d) = lookup-remove_self d extra_key_violations

stamped_cases :
    (art : Artifact) (vs : List String)
    → ((compliance_of (stamped art vs) ≡ "ok")
        × (violations_of (stamped art vs) ≡ none)
        × (vs ≡ []))
      ⊎ ((compliance_of (stamped art vs) ≡ "violation")
          × (violations_of (stamped art vs) ≡ some (array (texts vs)))
          × (vs ≢ []))
stamped_cases art [] =
    inl (
      label_value-mirror_label art.labels label_prefix_compliance "ok",
      removed_key art.extra,
      refl,
    )
stamped_cases art (v ∷ vs) = inr (
  label_value-mirror_label art.labels label_prefix_compliance "violation",
  lookup-insert_self (entries art.extra) extra_key_violations (array (texts (v ∷ vs))),
  λ q. absurd (ground arith),
)

-- `StampCompliance` labels an artifact ok, and leaves no list of violations in it, exactly if it has every
-- section and every property that its own labels, the system labels left out, ask for together; otherwise it labels
-- it a violation and leaves the list of what is missing.
pub stamp_compliance_lem :
    (visit : List String → List String) (traits : Dict LabelTrait) (art : Artifact)
    → (Complies (asked visit traits art) art
        × (compliance_of (stamp_compliance visit traits art) ≡ "ok")
        × (violations_of (stamp_compliance visit traits art) ≡ none))
      ⊎ ((¬ Complies (asked visit traits art) art)
          × (compliance_of (stamp_compliance visit traits art) ≡ "violation")
          × (violations_of (stamp_compliance visit traits art)
              ≡ some (array (texts (lacking (asked visit traits art) art)))))
unfolding stamp_compliance
stamp_compliance_lem visit traits art =
    let same = compute_violations_lem visit traits art in
    let (none_lack, complied) = lacking_iff (asked visit traits art) art in
    elim (stamped_cases art (compute_violations visit traits art)) [
      | inl (label, extra, q) ↦ inl (none_lack (sym same ∙ q), label, extra)
      | inr (label, extra, n) ↦
          inr (λ c. n (same ∙ complied c), label, extra ∙ ap (λ vs. some (array (texts vs))) same)
    ]
