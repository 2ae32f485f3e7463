-- ===== src/Protocol/Sections/Attached.antt =====
-- What a section that is attached leaves behind.
use mathlib.Core.Bool.{true≢false}
use mathlib.Core.Option.{some-injective}
use parchment.Prelude.{
  ℕ, String, Bool, true, false, ◌||◌, Option, none, some, List, [], ◌∷◌, ◌++◌, ◌==◌, ◌≡◌, ◌⊎◌, inl,
  inr, refl, sym, ap, ◌∙◌, subst, arith, is_some, if◌then◌else◌, Bool-cases, Option-cases, eq_refl,
  ltb,
}
use parchment.Prelude.Scanning.{byte_length}
use parchment.Dict.{lookup}
use parchment.Artifact.{Artifact, Section}
use parchment.Store.{MemoryStore, Revision}
use parchment.Store.Artifacts.{HasIds, get, or_not_found}
use parchment.Store.Result.{Result, ok, err}
use parchment.Store.Revisions.{slice_at, revisions_of}
use parchment.Store.Valid.{IsValid}
use parchment.Protocol.Transition.Rule.{id-get, get-ok}
use parchment.Protocol.Sections.Writes.{
  SameContent, SameContent-sync_wikilinks, lookup-see, revisions-see, see-HasIds, get-write_stamped,
  revisions-write_stamped,
}
use parchment.Protocol.Sections.{
  Writer, Answer, SectionError, done, refused, max_section_bytes, see, replace_text, with_sections,
  attach_found, attach_to, attach_section, find_text, get_section,
}

find_text-replace_text :
    (ss rest : List Section) (name text : String)
    → replace_text ss name text ≡ some rest
    → find_text rest name ≡ done text
unfolding replace_text find_text
find_text-replace_text [] rest name text q = absurd (ground arith)
find_text-replace_text (s ∷ ss) rest name text q = elim (Bool-cases (s.name == name)) [
  | inl e ↦
      subst (λ z. find_text z name ≡ done text)
        (some-injective (record s { text = text } ∷ ss) rest (rw (e, if◌then◌else◌) at q))
        (rw (e, if◌then◌else◌) refl)
  | inr e ↦ elim (Option-cases (replace_text ss name text)) [
    | inl n ↦ absurd (ground arith)
    | inr (r, p) ↦
        subst (λ z. find_text z name ≡ done text) (some-injective (s ∷ r) rest (ground arith))
          (rw (e, if◌then◌else◌) (find_text-replace_text ss r name text p))
  ]
]

find_text-append :
    (ss : List Section) (name text : String)
    → replace_text ss name text ≡ none
    → find_text (ss ++ record { name = name; text = text } ∷ []) name ≡ done text
unfolding replace_text find_text
find_text-append [] name text q = rw (eq_refl name, if◌then◌else◌) refl
find_text-append (s ∷ ss) name text q = elim (Bool-cases (s.name == name)) [
  | inl e ↦ absurd (ground arith)
  | inr e ↦ elim (Option-cases (replace_text ss name text)) [
    | inl n ↦ rw (e, if◌then◌else◌) (find_text-append ss name text n)
    | inr (r, p) ↦ absurd (ground arith)
  ]
]

get-SameContent : (m m' : MemoryStore) (id : String) → SameContent m m' → get m' id ≡ get m id
unfolding get
get-SameContent m m' id same = ap (λ d. or_not_found (lookup d id)) same.0

module _ (w : Writer) (now : ℕ) (m : MemoryStore) (name text : String) (art : Artifact) where
  abbrev written : Option (List Section) → MemoryStore
  written = attach_found w now m art name text

  -- the text stands in the artifact that is stored
  Holds : MemoryStore → Type 0
  Holds x = (a : Artifact) × (get x art.id ≡ ok a) × (find_text a.sections name ≡ done text)

  written-Holds :
      (o : Option (List Section)) → replace_text art.sections name text ≡ o → Holds (written o)
  unfolding Holds attach_found
  written-Holds none q =
      let secs = art.sections ++ record { name = name; text = text } ∷ [] in
      let (a, found, same) = get-write_stamped w now m (with_sections secs art) in
      (a, found, ap (λ l. find_text l name) same ∙ find_text-append art.sections name text q)
  written-Holds (some secs) q =
      let (a, found, same) =
        get-write_stamped w now (see m art.id (with_sections secs)) (with_sections secs art) in
      (
        a,
        found,
        ap (λ l. find_text l name) same ∙ find_text-replace_text art.sections secs name text q,
      )

  Holds-SameContent : (x y : MemoryStore) → SameContent x y → Holds x → Holds y
  unfolding Holds attach_found
  Holds-SameContent x y same (a, found, q) = (a, get-SameContent x y art.id same ∙ found, q)

wrong : {b : Bool} {e : SectionError} → ¬ Path (Answer Bool) (refused e) (done b)
wrong q = ground arith

done_inj : {a b : Bool} → Path (Answer Bool) (done a) (done b) → a ≡ b
done_inj q = ground arith

module _ (w : Writer) (now : ℕ) (m m' : MemoryStore) (id name text : String) (b : Bool) where
  attach_done :
      attach_section w now m id name text ≡ (done b, m')
      → ((id == "" || name == "") ≡ false)
        × (attach_to w now m id name text (get m id) ≡ (done b, m'))
  unfolding attach_section
  attach_done q = elim (Bool-cases (id == "" || name == "")) [
    | inl e ↦ absurd (wrong (ap (λ x. x.0) (rw (attach_section, e, if◌then◌else◌) at q)))
    | inr e ↦ elim (Bool-cases (ltb max_section_bytes (byte_length text))) [
      | inl f ↦ absurd (wrong (ap (λ x. x.0) (rw (attach_section, e, f, if◌then◌else◌) at q)))
      | inr f ↦ (e, rw (attach_section, e, f, if◌then◌else◌) at q)
    ]
  ]

  attached :
      (r : Result Artifact)
      → attach_to w now m id name text r ≡ (done b, m')
      → (art : Artifact) × (r ≡ ok art)
        × (is_some (replace_text art.sections name text) ≡ b)
        × SameContent (attach_found w now m art name text (replace_text art.sections name text)) m'
  unfolding attach_to
  attached (err e) q = absurd (wrong (ap (λ x. x.0) q))
  attached (ok art) q =
      let base = attach_found w now m art name text (replace_text art.sections name text) in
      (
        art,
        refl,
        done_inj (ap (λ x. x.0) q),
        subst (SameContent base) (ap (λ x. x.1) q)
            (SameContent-sync_wikilinks w.visit_links w.folding base id),
      )

  get_section-holding :
      (art : Artifact)
      → (id == "" || name == "") ≡ false
      → art.id ≡ id
      → Holds w now m name text art m'
      → get_section m' id name ≡ done text
  unfolding get_section Holds
  get_section-holding art named same (a, found, q) =
      rw (get_section, named, if◌then◌else◌, subst (λ i. get m' i ≡ ok a) same found) q

-- `GetSection` gives back the text that `AttachSection` took, whether the name was there or not, whatever
-- else the artifact holds, and whatever links its text makes.
pub get_section-attach_section :
    (w : Writer) (now : ℕ) (m m' : MemoryStore) (id name text : String) (b : Bool)
    → IsValid m
    → attach_section w now m id name text ≡ (done b, m')
    → get_section m' id name ≡ done text
get_section-attach_section w now m m' id name text b v q =
    let (named, to) = attach_done w now m m' id name text b q in
    let (art, found, _, same) = attached w now m m' id name text b (get m id) to in
    get_section-holding w now m m' id name text b art named (id-get m id art v found) (
      Holds-SameContent w now m name text art _ m' same
        (written-Holds w now m name text art (replace_text art.sections name text) refl))

-- any revision that was added holds the new text
abbrev pub OnlyNew : String → String → List Revision → List Revision → Type 0
OnlyNew name text before after =
    (after ≡ before)
    ⊎ ((r : Revision) × (after ≡ before ++ r ∷ []) × (find_text r.sections name ≡ done text))

module _ (w : Writer) (now : ℕ) (m : MemoryStore) (name text : String) (art : Artifact)
    (secs : List Section) (ids : HasIds m.artifacts) (stored : lookup m.artifacts art.id ≡ some art)
    (replaced : replace_text art.sections name text ≡ some secs) where
  abbrev overwritten : MemoryStore
  overwritten = see m art.id (with_sections secs)

  revisions-overwritten :
      OnlyNew name text
        (revisions_of m art.id)
        (revisions_of (attach_found w now m art name text (some secs)) art.id)
  unfolding attach_found
  revisions-overwritten =
      let prior =
        ap (λ r. slice_at (lookup r art.id)) (revisions-see m art.id (with_sections secs)) in
      elim (revisions-write_stamped w now overwritten (with_sections secs art)
        (with_sections secs art) (see-HasIds m art.id (with_sections secs) (λ a. refl) ids)
        (lookup-see m art.id (with_sections secs) art stored)) [
          | inl same ↦ inl (same ∙ prior)
          | inr (r, added, has) ↦ inr (
            r,
            added ∙ ap (λ l. l ++ r ∷ []) prior,
            ap (λ l. find_text l name) has
                ∙ find_text-replace_text art.sections secs name text replaced,
          )
        ]

-- Attaching a section under a name that the artifact has already loses the text that stood there: from a
-- valid store the history gains no revision, or one that holds the new text under the name. The old text
-- stands in no revision that this write adds.
pub attach_section-unrecorded :
    (w : Writer) (now : ℕ) (m m' : MemoryStore) (id name text : String)
    → IsValid m
    → attach_section w now m id name text ≡ (done true, m')
    → OnlyNew name text (revisions_of m id) (revisions_of m' id)
attach_section-unrecorded w now m m' id name text v q =
    let (named, to) = attach_done w now m m' id name text true q in
    let (art, found, replaced, same) = attached w now m m' id name text true (get m id) to in
    let is_id = id-get m id art v found in
    subst (λ i. OnlyNew name text (revisions_of m i) (revisions_of m' i)) is_id
      (by_case art
        (subst (λ i. lookup m.artifacts i ≡ some art) (sym is_id) (get-ok m id art found))
        (replace_text art.sections name text) refl replaced same)
  where
    by_case :
        (art : Artifact)
        → lookup m.artifacts art.id ≡ some art
        → (o : Option (List Section)) → replace_text art.sections name text ≡ o
        → is_some o ≡ true
        → SameContent (attach_found w now m art name text o) m'
        → OnlyNew name text (revisions_of m art.id) (revisions_of m' art.id)
    by_case art stored none e some_there same = absurd (true≢false (sym some_there))
    by_case art stored (some secs) e some_there same =
        subst (λ r. OnlyNew name text (revisions_of m art.id) (slice_at (lookup r art.id)))
          (sym same.1) (revisions-overwritten w now m name text art secs v.ids stored e)
