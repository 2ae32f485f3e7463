-- ===== src/Protocol/Templates/Conforming.antt =====
-- An artifact conforms exactly if it has every section that its template demands.
use mathlib.Core.List.Memᴰ
use mathlib.Core.Bool.{true≢false}
use parchment.Prelude.{
  String, Bool, true, false, ◌&&◌, not, some, List, [], ◌∷◌, ◌≡◌, ◌≢◌, ◌⊎◌, ◌↔◌, inl, inr, refl,
  sym, ap, ◌∙◌, arith, ◌==◌, eq_iff, if◌then◌else◌, keep, map, mem-keep, Memᴰ, str_leb, is_some,
  Bool-cases, String-cases, Option-cases,
}
use parchment.Prelude.Sorting.{mem-sort_slice}
use parchment.Dict.{Dict, lookup, insert, IsDistinct, lookup-insert, insert-IsDistinct}
use parchment.Dict.Entries.{mem-entries, mem-keys}
use parchment.Artifact.{Artifact, Section}
use parchment.Artifact.Labels.{label_value, label_prefix_kind}
use parchment.Store.{MemoryStore}
use parchment.Store.Edges.{in_set}
use parchment.Store.Edges.Neighbors.{in_set_iff}
use parchment.Protocol.Kinds.{Traits, must_sections}
use parchment.Protocol.Templates.{
  resolve_template, sections_by_name, template_sections, section_names, missing_names, conforms,
  verdict, against, demanded, check_template_conformance,
}

-- a section of the name, other than the one that holds the whole text
abbrev pub HasSection : List Section → String → Type 0
HasSection ss name = (s : Section) × Memᴰ s ss × (s.name ≡ name) × (name ≢ "content")

sections_by_name-IsDistinct :
    (ss : List Section) (d : Dict String) → IsDistinct d → IsDistinct (sections_by_name ss d)
unfolding sections_by_name
sections_by_name-IsDistinct [] d h = h
sections_by_name-IsDistinct (s ∷ ss) d h = elim (Bool-cases (s.name == "content")) [
  | inl e ↦ rw (e, if◌then◌else◌) (sections_by_name-IsDistinct ss d h)
  | inr e ↦
      rw (e, if◌then◌else◌) (sections_by_name-IsDistinct ss _ (insert-IsDistinct d s.name s.text h))
]

lookup-sections_by_name :
    (ss : List Section) (d : Dict String) (name : String)
    → (is_some (lookup (sections_by_name ss d) name) ≡ true)
      ↔ (HasSection ss name ⊎ (is_some (lookup d name) ≡ true))
unfolding sections_by_name
lookup-sections_by_name [] d name =
    (inr, λ h. elim h [ inl (s, i, _, _) ↦ absurd (Memᴰ.not-nil i) | inr e ↦ e ])
lookup-sections_by_name (s ∷ ss) d name = elim (String-cases s.name "content") [
  | inl (q, e) ↦
      let ih = lookup-sections_by_name ss d name in
      rw (e, if◌then◌else◌)
        (
          λ h. elim (ih.0 h) [ inl (x, i, k, n) ↦ inl (x, Memᴰ.tail i, k, n) | inr t ↦ inr t ],
          λ h. elim h [
            | inl (x, i, k, n) ↦ elim (Memᴰ.cases_cons i) [
              | inl w ↦ absurd (n (sym k ∙ ap (λ z. z.name) w ∙ q))
              | inr r ↦ ih.1 (inl (x, r, k, n))
            ]
            | inr t ↦ ih.1 (inr t)
          ],
        )
  | inr (c, e) ↦
      let ih = lookup-sections_by_name ss (insert d s.name s.text) name in
      let new = lookup-insert d s.name name s.text in
      rw (e, if◌then◌else◌)
        (
          λ h. elim (ih.0 h) [
            | inl (x, i, k, n) ↦ inl (x, Memᴰ.tail i, k, n)
            | inr t ↦ elim (String-cases s.name name) [
              | inl (q, _) ↦ inl (s, Memᴰ.head refl, q, λ z. c (q ∙ z))
              | inr (_, n) ↦ inr (ground (arith, new))
            ]
          ],
          λ h. elim h [
            | inl (x, i, k, n) ↦ elim (Memᴰ.cases_cons i) [
              | inl w ↦
                  ih.1 (
                    inr
                      (ground (arith, new, (eq_iff s.name name).1 (ap (λ z. z.name) (sym w) ∙ k))))
              | inr r ↦ ih.1 (inl (x, r, k, n))
            ]
            | inr t ↦ ih.1 (inr (ground (arith, new)))
          ],
        )
]

mem-missing_names :
    (demands : String → String → Bool) (art : Artifact) (d : Dict String) (name : String)
    → IsDistinct d
    → Memᴰ name (missing_names demands art d) ↔ (
        (guidance : String) × (lookup d name ≡ some guidance)
        × (demands name guidance ≡ true)
        × ¬ Memᴰ name (section_names art))
unfolding missing_names
mem-missing_names demands art d name h =
    let test = λ (e : String × String). demands e.0 e.1 && not (in_set (section_names art) e.0) in
    let f = mem-sort_slice str_leb name (map (λ e. e.0) (keep test d)) in
    let g = mem-keys (keep test d) name in
    (
      λ i.
          let (guidance, j) = g.0 (f.0 i) in
          let (k, t) = (mem-keep test (name, guidance) d).0 j in
          (
            guidance,
            (mem-entries d name guidance h).0 k,
            ground arith,
            λ m. absurd (ground (arith, (in_set_iff (section_names art) name).1 m)),
          ),
      λ (guidance, q, t, n). f.1 (
          g.1 (
            guidance,
            (mem-keep test (name, guidance) d).1 (
              (mem-entries d name guidance h).1 q,
              elim (Bool-cases (in_set (section_names art) name)) [
                | inl e ↦ absurd (n ((in_set_iff (section_names art) name).0 e))
                | inr e ↦ ground (arith, t, e)
              ],
            ),
          )),
    )

verdict_iff : (names : List String) → (verdict names ≡ conforms) ↔ ((n : String) → ¬ Memᴰ n names)
verdict_iff [] = (λ _ n i. Memᴰ.not-nil i, λ _. refl)
verdict_iff (n ∷ names) = (λ q. cc q, λ h. absurd (h n (Memᴰ.head refl)))

-- what the artifact has of the sections that count
abbrev pub HasDemanded : Traits → Artifact → Artifact → Bool → Type 0
HasDemanded traits art tpl creation =
    (name : String)
    → HasSection tpl.sections name
    → (creation ≡ false)
      ⊎ Memᴰ name (must_sections traits (label_value art.labels label_prefix_kind))
    → Memᴰ name (section_names art)

demanded_iff :
    (traits : Traits) (art : Artifact) (creation : Bool) (name guidance : String)
    → (demanded traits art creation name guidance ≡ true) ↔ (
        (creation ≡ false)
        ⊎ Memᴰ name (must_sections traits (label_value art.labels label_prefix_kind)))
demanded_iff traits art false name guidance = (λ _. inl refl, λ _. refl)
demanded_iff traits art true name guidance =
    let f = in_set_iff (must_sections traits (label_value art.labels label_prefix_kind)) name in
    (λ h. inr (f.0 h), λ h. elim h [ inl q ↦ cc q | inr i ↦ f.1 i ])

-- Against the template that it satisfies, an artifact conforms exactly if it has a section of each name
-- that a section of the template has, other than `content`; at creation only the names count that its
-- kind must have.
pub check_template_conformance_iff :
    (traits : Traits) (m : MemoryStore) (art tpl : Artifact) (creation : Bool)
    → resolve_template traits m art ≡ some tpl
    → (check_template_conformance traits m art creation ≡ conforms)
      ↔ HasDemanded traits art tpl creation
check_template_conformance_iff traits m art tpl creation found =
    let d = template_sections tpl in
    let names = missing_names (demanded traits art creation) art d in
    let e : check_template_conformance traits m art creation ≡ verdict names =
      unfold check_template_conformance in ap (against (demanded traits art creation) art) found in
    let v = verdict_iff names in
    let member = λ (n : String).
      mem-missing_names (demanded traits art creation) art d n
        (sections_by_name-IsDistinct tpl.sections [] tt) in
    (
      λ q name has must. elim (Bool-cases (in_set (section_names art) name)) [
        | inl t ↦ (in_set_iff (section_names art) name).0 t
        | inr t ↦ elim (Option-cases (lookup d name)) [
          | inl gone ↦ absurd (
              true≢false (
                sym ((lookup-sections_by_name tpl.sections [] name).1 (inl has)) ∙ ap is_some gone))
          | inr (guidance, l) ↦ absurd (
              v.0 (sym e ∙ q) name (
                (member name).1 (
                  guidance,
                  l,
                  (demanded_iff traits art creation name guidance).1 must,
                  λ i. true≢false (sym ((in_set_iff (section_names art) name).1 i) ∙ t),
                )))
        ]
      ],
      λ all.
          e
          ∙ v.1 (λ name i.
            let (guidance, l, t, n) = (member name).0 i in
            elim ((lookup-sections_by_name tpl.sections [] name).0 (ap is_some l)) [
              | inl has ↦ n (all name has ((demanded_iff traits art creation name guidance).0 t))
              | inr none_yet ↦ (unfold lookup in cc none_yet)
            ]),
    )
