-- ===== src/Protocol/Sections/Writes.antt =====
-- The writes that a change of sections goes through.
use mathlib.Core.Option.{some-injective, none-ne-some}
use parchment.Prelude.{
  ℕ, String, Option, none, some, List, [], ◌∷◌, ◌++◌, ◌≡◌, ◌⊎◌, inl, inr, refl, sym, ap, ◌∙◌, subst,
  arith, is_some, if◌then◌else◌, Bool-cases, Option-cases, eq_iff,
}
use parchment.Dict.{Dict, lookup, remove, values, lookup-insert_self}
use parchment.Artifact.{Artifact, Section, artifact_content_equal}
use parchment.Store.{MemoryStore, Edge, Revision}
use parchment.Store.Artifacts.{HasIds, get, put}
use parchment.Store.Artifacts.Writing.{get-put_returned, revisions-put, with_snapshot}
use parchment.Store.Edges.{edge_key, add_edge_source, remove_edge_source, retract}
use parchment.Store.Result.{Result, ok, err}
use parchment.Store.Revisions.{slice_at, revisions_of, revision_of, next_rev}
use parchment.Store.Valid.Parts.{HasIds-insert}
use parchment.Protocol.Compliance.{
  stamp_compliance, stamped, compute_violations, strip_encoded_if_stale,
}
use parchment.Protocol.Wikilink.{
  Folding, ResolvedLink, add_missing, remove_stale, sync_links, note_links, section_refs,
  resolve_title, wikilink_edges, edge_source_wikilink, sync_found, sync_wikilinks,
}
use parchment.Protocol.Sections.{Writer, see, see_extra, write_stamped}

-- neither an artifact nor a revision differs
abbrev pub SameContent : MemoryStore → MemoryStore → Type 0
SameContent m m' = (m'.artifacts ≡ m.artifacts) × (m'.revisions ≡ m.revisions)

SameContent-add_missing :
    (id : String) (desired existing : Dict ResolvedLink) (m : MemoryStore)
    → SameContent m (add_missing id desired existing m).store
unfolding add_missing add_edge_source
SameContent-add_missing id [] existing m = (refl, refl)
SameContent-add_missing id ((key, l) ∷ desired) existing m =
    elim (Bool-cases (is_some (lookup existing key))) [
      | inl e ↦ rw (e, if◌then◌else◌) (SameContent-add_missing id desired (remove existing key) m)
      | inr e ↦
          rw (e, if◌then◌else◌)
            (SameContent-add_missing id desired existing
              (add_edge_source m id l.relation l.target_id edge_source_wikilink))
    ]

SameContent-retract :
    (m : MemoryStore) (key source : String) (o : Option Edge)
    → SameContent m (retract m key source o)
unfolding retract
SameContent-retract m key source none = (refl, refl)
SameContent-retract m key source (some e) = (ground arith, ground arith)

SameContent-remove_stale :
    (id : String) (ls : List ResolvedLink) (m : MemoryStore) → SameContent m (remove_stale id ls m)
unfolding remove_stale remove_edge_source
SameContent-remove_stale id [] m = (refl, refl)
SameContent-remove_stale id (l ∷ ls) m =
    let m' = remove_edge_source m id l.relation l.target_id edge_source_wikilink in
    let (a, r) = SameContent-remove_stale id ls m' in
    let (b, s) =
      SameContent-retract m (edge_key id l.relation l.target_id) edge_source_wikilink
        (lookup m.edges (edge_key id l.relation l.target_id)) in
    (a ∙ b, r ∙ s)

pub SameContent-sync_wikilinks :
    (visit : Dict ResolvedLink → Dict ResolvedLink) (f : Folding) (m : MemoryStore) (id : String)
    → SameContent m (sync_wikilinks visit f m id).1
unfolding sync_wikilinks sync_found sync_links
SameContent-sync_wikilinks visit f m id = found (get m id)
  where
    found : (r : Result Artifact) → SameContent m (sync_found visit f m id r).1
    found (err e) = (refl, refl)
    found (ok art) =
        let desired = note_links (resolve_title f m) id (section_refs art.sections) [] in
        let s = add_missing id (visit desired) (wikilink_edges m id) m in
        let (a, r) = SameContent-remove_stale id (values (visit s.existing)) s.store in
        let (b, t) = SameContent-add_missing id (visit desired) (wikilink_edges m id) m in
        (a ∙ b, r ∙ t)

-- the ID and the sections are the same
abbrev pub SameText : Artifact → Artifact → Type 0
SameText a b = (b.id ≡ a.id) × (b.sections ≡ a.sections)

stamped-SameText : (art : Artifact) (vs : List String) → SameText art (stamped art vs)
stamped-SameText art [] = (refl, refl)
stamped-SameText art (v ∷ vs) = (refl, refl)

pub strip-SameText :
    (hash : String → String) (model : String) (m : MemoryStore) (art : Artifact)
    → SameText art (strip_encoded_if_stale hash model m art)
unfolding strip_encoded_if_stale
strip-SameText hash model m art = (ground arith, ground arith)

module _ (m : MemoryStore) (id : String) (change : Artifact → Artifact) where
  pub lookup-see :
      (old : Artifact)
      → lookup m.artifacts id ≡ some old
      → lookup (see m id change).artifacts id ≡ some (change old)
  unfolding see
  lookup-see old q = rw (see, q) (lookup-insert_self m.artifacts id (change old))

  pub revisions-see : (see m id change).revisions ≡ m.revisions
  unfolding see
  revisions-see = elim (Option-cases (lookup m.artifacts id)) [
    | inl e ↦ rw (see, e) refl
    | inr (a, e) ↦ rw (see, e) refl
  ]

  pub see-HasIds :
      ((a : Artifact) → (change a).id ≡ a.id)
      → HasIds m.artifacts
      → HasIds (see m id change).artifacts
  unfolding see
  see-HasIds same h = elim (Option-cases (lookup m.artifacts id)) [
    | inl e ↦ rw (see, e) h
    | inr (a, e) ↦ rw (see, e) (HasIds-insert id (change a) h (same a ∙ h.keyed id a e))
  ]

pub sections-put :
    (now : ℕ) (m : MemoryStore) (a : Artifact) → (put now m a).0.sections ≡ a.sections
unfolding put
sections-put now m a = refl

pub recorded_cases :
    (m : MemoryStore) (old updated : Artifact) (id : String) (sections : List Section)
    {before : List Revision}
    → old.sections ≡ sections
    → revisions_of m id ≡ before
    → (after : List Revision) → after ≡ with_snapshot m old updated id
    → (after ≡ before) ⊎ ((r : Revision) × (after ≡ before ++ r ∷ []) × (r.sections ≡ sections))
recorded_cases m old updated id sections same prior after q =
    elim (Bool-cases (artifact_content_equal old updated)) [
      | inl e ↦ inl ((rw (e, if◌then◌else◌) at q) ∙ prior)
      | inr e ↦ inr (
        revision_of (next_rev (revisions_of m id)) old,
        (rw (e, if◌then◌else◌) at q)
            ∙ ap (λ l. l ++ revision_of (next_rev (revisions_of m id)) old ∷ []) prior,
        same,
      )
    ]

module _ (w : Writer) (now : ℕ) (m : MemoryStore) (art : Artifact) where
  abbrev stamped_art : Artifact
  stamped_art = stamp_compliance w.visit w.traits art

  abbrev seen : MemoryStore
  seen = see m art.id (see_extra stamped_art.extra)

  abbrev final : Artifact
  final = strip_encoded_if_stale w.hash w.embed_model seen stamped_art

  final-SameText : SameText art final
  unfolding stamp_compliance
  final-SameText =
      let (i, s) = strip-SameText w.hash w.embed_model seen stamped_art in
      let (j, t) = stamped-SameText art (compute_violations w.visit w.traits art) in (i ∙ j, s ∙ t)

  pub get-write_stamped :
      (a : Artifact) × (get (write_stamped w now m art) art.id ≡ ok a) × (a.sections ≡ art.sections)
  unfolding write_stamped
  get-write_stamped = (
    (put now seen final).0,
    get-put_returned now seen final art.id
        ∙ rw ((eq_iff final.id art.id).1 final-SameText.0, if◌then◌else◌) refl,
    sections-put now seen final ∙ final-SameText.1,
  )

  -- a revision, if one is recorded, has the sections that the stored artifact had
  pub revisions-write_stamped :
      (old : Artifact)
      → HasIds m.artifacts
      → lookup m.artifacts art.id ≡ some old
      → (revisions_of (write_stamped w now m art) art.id ≡ revisions_of m art.id)
        ⊎ ((r : Revision) × (revisions_of (write_stamped w now m art) art.id
              ≡ revisions_of m art.id ++ r ∷ [])
            × (r.sections ≡ old.sections))
  unfolding write_stamped
  revisions-write_stamped old ids q = elim (revisions-put now seen final seen_ids) [
    | inl (missing, _) ↦
        absurd (none-ne-some (see_extra stamped_art.extra old) (sym missing ∙ stored))
    | inr (o, found, recorded) ↦
        recorded_cases seen o (put now seen final).0 art.id old.sections
          (ap (λ x. x.sections)
            (some-injective o (see_extra stamped_art.extra old) (sym found ∙ stored)))
          (ap (λ r. slice_at (lookup r art.id))
            (revisions-see m art.id (see_extra stamped_art.extra)))
          (revisions_of (put now seen final).1 art.id)
          (subst
            (λ i.
              revisions_of (put now seen final).1 i ≡ with_snapshot seen o (put now seen final).0 i)
            final-SameText.0 recorded)
  ]
    where
      seen_ids : HasIds seen.artifacts
      seen_ids = see-HasIds m art.id (see_extra stamped_art.extra) (λ a. refl) ids

      stored : lookup seen.artifacts final.id ≡ some (see_extra stamped_art.extra old)
      stored =
          ap (lookup seen.artifacts) final-SameText.0
          ∙ lookup-see m art.id (see_extra stamped_art.extra) old q
