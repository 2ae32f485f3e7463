-- ===== src/Protocol/Sections/Detached.antt =====
-- What a section that is detached leaves behind.
use mathlib.Core.Option.{some-injective, none-ne-some}
use parchment.Prelude.{
  ℕ, suc, ◌-◌, String, Bool, true, false, ◌||◌, some, List, [], ◌∷◌, ◌++◌, ◌==◌, ◌≡◌, inl, inr,
  refl, sym, ap, ◌∙◌, subst, arith, if◌then◌else◌, Bool-cases, Option-cases, eq_iff, length, drop,
  length-append, length-drop,
}
use parchment.Dict.{lookup}
use parchment.Artifact.{Artifact, Section, sections_equal, artifact_content_equal}
use parchment.Store.{MemoryStore, Revision}
use parchment.Store.Artifacts.{HasIds, get, put}
use parchment.Store.Artifacts.Writing.{get-put_returned, revisions-put, with_snapshot}
use parchment.Store.Result.{Result, ok, err}
use parchment.Store.Revisions.{slice_at, revisions_of, revision_of, next_rev}
use parchment.Store.Valid.{IsValid}
use parchment.Protocol.Compliance.{strip_encoded_if_stale}
use parchment.Protocol.Transition.Rule.{id-get, get-ok}
use parchment.Protocol.Sections.{
  Writer, Answer, SectionError, done, refused, see, with_sections, remove_named, moved_down,
  deleted_from, detach_found, detach_from, detach_section, guidance,
}
use parchment.Protocol.Sections.Writes.{
  lookup-see, revisions-see, see-HasIds, strip-SameText, sections-put,
}
use parchment.Protocol.Templates.{resolve_template}

length-remove_named :
    (ss rest : List Section) (name : String)
    → remove_named ss name ≡ some rest
    → length ss ≡ suc (length rest)
unfolding remove_named
length-remove_named [] rest name q = absurd (ground arith)
length-remove_named (s ∷ ss) rest name q = elim (Bool-cases (s.name == name)) [
  | inl e ↦ ap (λ l. suc (length l)) (some-injective ss rest (rw (e, if◌then◌else◌) at q))
  | inr e ↦ elim (Option-cases (remove_named ss name)) [
    | inl n ↦ absurd (ground arith)
    | inr (r, p) ↦
        ap suc (length-remove_named ss r name p)
        ∙ ap (λ l. suc (length l)) (some-injective (s ∷ r) rest (ground arith))
  ]
]

length-sections_equal : (a b : List Section) → sections_equal a b ≡ true → length a ≡ length b
unfolding sections_equal
length-sections_equal [] [] q = refl
length-sections_equal [] (y ∷ b) q = absurd (ground arith)
length-sections_equal (x ∷ a) [] q = absurd (ground arith)
length-sections_equal (x ∷ a) (y ∷ b) q = ap suc (length-sections_equal a b (ground arith))

same_length :
    (a b : Artifact) → artifact_content_equal a b ≡ true → length a.sections ≡ length b.sections
unfolding artifact_content_equal
same_length a b q = length-sections_equal a.sections b.sections (ground arith)

length-moved_down :
    (before rest : List Section)
    → length before ≡ suc (length rest)
    → length (moved_down before rest) ≡ length before
length-moved_down before rest q =
    length-append rest (drop (length before - 1) before)
    ∙ omega (arith, length-drop (length before - 1) before, q)

module _ (w : Writer) (now : ℕ) (m : MemoryStore) (art : Artifact) (rest : List Section)
    (ids : HasIds m.artifacts) (stored : lookup m.artifacts art.id ≡ some art)
    (one_less : length art.sections ≡ suc (length rest)) where
  abbrev shifted : List Section
  shifted = moved_down art.sections rest

  abbrev after_shift : MemoryStore
  after_shift = see m art.id (with_sections shifted)

  abbrev final : Artifact
  final = strip_encoded_if_stale w.hash w.embed_model after_shift (with_sections rest art)

  abbrev relabel : Artifact → Artifact
  relabel a = record a { labels = deleted_from a.labels final.labels }

  abbrev before_put : MemoryStore
  before_put = see after_shift art.id relabel

  final-id : final.id ≡ art.id
  final-id = (strip-SameText w.hash w.embed_model after_shift (with_sections rest art)).0

  final-sections : final.sections ≡ rest
  final-sections = (strip-SameText w.hash w.embed_model after_shift (with_sections rest art)).1

  get-detached :
      (a : Artifact) × (get (put now before_put final).1 art.id ≡ ok a) × (a.sections ≡ rest)
  get-detached = (
    (put now before_put final).0,
    get-put_returned now before_put final art.id
        ∙ rw ((eq_iff final.id art.id).1 final-id, if◌then◌else◌) refl,
    sections-put now before_put final ∙ final-sections,
  )

  abbrev old : Artifact
  old = relabel (with_sections shifted art)

  lookup-before_put : lookup before_put.artifacts art.id ≡ some old
  lookup-before_put =
      lookup-see after_shift art.id relabel (with_sections shifted art)
        (lookup-see m art.id (with_sections shifted) art stored)

  differs : artifact_content_equal old (put now before_put final).0 ≡ false
  differs = elim (Bool-cases (artifact_content_equal old (put now before_put final).0)) [
    | inl e ↦ absurd (
        omega (
          arith,
          same_length old (put now before_put final).0 e,
          length-moved_down art.sections rest one_less,
          ap length (sections-put now before_put final ∙ final-sections),
          one_less,
        ))
    | inr e ↦ e
  ]

  revisions-detached :
      (r : Revision) × (revisions_of (put now before_put final).1 art.id
        ≡ revisions_of m art.id ++ r ∷ [])
      × (r.sections ≡ shifted)
  revisions-detached = elim (revisions-put now before_put final before_ids) [
    | inl (missing, _) ↦ absurd (
        none-ne-some old
          (sym missing ∙ ap (lookup before_put.artifacts) final-id ∙ lookup-before_put))
    | inr (o, found, recorded) ↦
        let is_old =
          some-injective o old
            (sym found ∙ ap (lookup before_put.artifacts) final-id ∙ lookup-before_put) in
        (
          revision_of (next_rev (revisions_of m art.id)) old,
          subst
                (λ i.
                  revisions_of (put now before_put final).1 i
                  ≡ with_snapshot before_put o (put now before_put final).0 i)
                final-id recorded
              ∙ ap (λ x. with_snapshot before_put x (put now before_put final).0 art.id) is_old
              ∙ rw (differs, if◌then◌else◌) refl
              ∙ ap (λ r. r ++ revision_of (next_rev r) old ∷ []) prior,
          refl,
        )
  ]
    where
      before_ids : HasIds before_put.artifacts
      before_ids =
          see-HasIds after_shift art.id relabel (λ a. refl)
            (see-HasIds m art.id (with_sections shifted) (λ a. refl) ids)

      prior : revisions_of before_put art.id ≡ revisions_of m art.id
      prior =
          ap (λ r. slice_at (lookup r art.id))
            (revisions-see after_shift art.id relabel
              ∙ revisions-see m art.id (with_sections shifted))

-- what the detached section's artifact and history are then
abbrev pub Detaches : MemoryStore → MemoryStore → String → List Section → List Section → Type 0
Detaches m m' id before rest =
    ((a : Artifact) × (get m' id ≡ ok a) × (a.sections ≡ rest))
    × ((r : Revision) × (revisions_of m' id ≡ revisions_of m id ++ r ∷ [])
        × (r.sections ≡ moved_down before rest))

wrong : {b : Bool} {e : SectionError} → ¬ Path (Answer Bool) (refused e) (done b)
wrong q = ground arith

not_done : ¬ Path (Answer Bool) (done false) (done true)
not_done q = ground arith

module _ (w : Writer) (now : ℕ) (m m' : MemoryStore) (id name : String) where
  detach_done :
      detach_section w now m id name ≡ (done true, m')
      → detach_from w now m name (get m id) ≡ (done true, m')
  unfolding detach_section
  detach_done q = elim (Bool-cases (id == "" || name == "")) [
    | inl e ↦ absurd (wrong (ap (λ x. x.0) (rw (detach_section, e, if◌then◌else◌) at q)))
    | inr e ↦ rw (detach_section, e, if◌then◌else◌) at q
  ]

  detached :
      (r : Result Artifact)
      → detach_from w now m name r ≡ (done true, m')
      → (art : Artifact) × (rest : List Section) × (r ≡ ok art)
        × (remove_named art.sections name ≡ some rest)
        × (detach_found w now m art rest ≡ m')
  unfolding detach_from
  detached (err e) q = absurd (wrong (ap (λ x. x.0) q))
  detached (ok art) q = elim (Option-cases (guidance (resolve_template w.traits m art) name)) [
    | inr (tpl, e) ↦ absurd (wrong (ap (λ x. x.0) (rw (detach_from, e) at q)))
    | inl e ↦ elim (Option-cases (remove_named art.sections name)) [
      | inl f ↦ absurd (not_done (ap (λ x. x.0) (rw (detach_from, e, f) at q)))
      | inr (rest, f) ↦ (art, rest, refl, f, ap (λ x. x.1) (rw (detach_from, e, f) at q))
    ]
  ]

-- Where `DetachSection` answers true, the artifact is stored without the first section of that name and with all
-- the others in their order. From a valid store its history gains one revision. That revision does not hold the sections
-- as they stood: it holds the later ones moved down by one place, and the last one twice, so unless
-- the section was the last one its text is lost.
pub detach_section_lem :
    (w : Writer) (now : ℕ) (m m' : MemoryStore) (id name : String)
    → IsValid m
    → detach_section w now m id name ≡ (done true, m')
    → (art : Artifact) × (rest : List Section) × (get m id ≡ ok art)
      × (remove_named art.sections name ≡ some rest)
      × Detaches m m' id art.sections rest
unfolding detach_found
detach_section_lem w now m m' id name v q =
    let (art, rest, found, removed, same) =
      detached w now m m' id name (get m id) (detach_done w now m m' id name q) in
    let is_id = id-get m id art v found in
    let stored = subst (λ i. lookup m.artifacts i ≡ some art) (sym is_id) (get-ok m id art found) in
    let one_less = length-remove_named art.sections rest name removed in
    (
      art,
      rest,
      found,
      removed,
      subst (λ x. Detaches m x id art.sections rest) same
          (subst (λ i. Detaches m (detach_found w now m art rest) i art.sections rest) is_id
            (
              get-detached w now m art rest v.ids stored one_less,
              revisions-detached w now m art rest v.ids stored one_less,
            )),
    )
