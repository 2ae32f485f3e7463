-- ===== src/Protocol/Wikilink/Reconciled.antt =====
-- `SyncWikilinks` as a whole.
use parchment.Prelude.{
  String, true, some, [], ◌≡◌, ◌≢◌, ◌↔◌, inl, inr, refl, sym, ap, ◌∙◌, ◌==◌, if◌then◌else◌, is_some,
  Memᴰ, String-cases, Option-cases,
}
use parchment.Dict.{Dict, lookup}
use parchment.Artifact.{Artifact}
use parchment.Store.{MemoryStore, Edge}
use parchment.Store.Artifacts.{get}
use parchment.Store.Edges.{edge_key, has_source}
use parchment.Store.Edges.Key.{NoBar}
use parchment.Store.Edges.Neighbors.{HasKeys, Stored}
use parchment.Store.Edges.Sources.{edge_at}
use parchment.Store.Result.{ok}
use parchment.Protocol.Wikilink.{
  edge_source_wikilink, rel_mentions, WikilinkRef, ResolvedLink, Folding, link_key, wanted,
  resolve_title, section_refs, note_links, sync_links, sync_found, sync_wikilinks,
}
use parchment.Protocol.Wikilink.Entries.{IsPlain, VisitsAll, link_key_inj}
use parchment.Protocol.Wikilink.Links.{marked}
use parchment.Protocol.Wikilink.Noted.{
  IsLinks, IsLinks-empty, note_links-IsLinks, note_links-from, note_links-has, AskedBy,
}
use parchment.Protocol.Wikilink.Synced.{marked-sync_iff, entries-sync}

-- the edge is there and the source declares it
abbrev pub Declares : MemoryStore → String → String → String → String → Type 0
Declares m source from rel to =
    (e : Edge) × (edge_at m from rel to ≡ some e) × (has_source source e ≡ true)

-- the relation of a reference; one without a relation mentions its target
abbrev pub relation_of : WikilinkRef → String
relation_of r = if r.relation == "" then rel_mentions else r.relation

-- a reference in the sections resolves to the target, which is not the artifact itself
abbrev pub RefersTo : Folding → MemoryStore → String → Artifact → String → String → Type 0
RefersTo f m id art rel to =
    (r : WikilinkRef) × Memᴰ r (section_refs art.sections)
    × (resolve_title f m r.target ≡ to)
    × (to ≢ "")
    × (to ≢ id)
    × (relation_of r ≡ rel)

wanted_iff :
    (resolve : String → String) (id rel to : String) (r : WikilinkRef)
    → (wanted resolve id r ≡ some (record { relation = rel; target_id = to }))
      ↔ ((resolve r.target ≡ to) × (to ≢ "") × (to ≢ id) × (relation_of r ≡ rel))
wanted_iff resolve id rel to r =
    let t = resolve r.target in
    elim (String-cases t "") [
      | inl (q, e) ↦ (λ h. cc (rw (e, if◌then◌else◌) at h), λ (h, n, _, _). absurd (n (sym h ∙ q)))
      | inr (n, e) ↦ elim (String-cases t id) [
        | inl (q, d) ↦
            (λ h. cc (rw (e, d, if◌then◌else◌) at h), λ (h, _, k, _). absurd (k (sym h ∙ q)))
        | inr (k, d) ↦ (
          λ h.
              let h' = rw (e, d, if◌then◌else◌) at h in
              let q : t ≡ to = cc h' in (q, λ z. n (q ∙ z), λ z. k (q ∙ z), cc h'),
          λ (h, _, _, x). rw (e, d, if◌then◌else◌) (cc (h, x)),
        )
      ]
    ]

Declares-iff :
    (m : MemoryStore) (from rel to : String)
    → (marked m (edge_key from rel to) ≡ true) ↔ Declares m edge_source_wikilink from rel to
Declares-iff m from rel to = elim (Option-cases (edge_at m from rel to)) [
  | inl gone ↦ (λ t. cc (rw gone at t), λ (e, q, _). cc (sym gone ∙ q))
  | inr (x, s) ↦ (λ t. (x, s, rw s at t), λ (e, q, t). rw q t)
]

module _ (visit : Dict ResolvedLink → Dict ResolvedLink) (all : VisitsAll visit) (f : Folding)
    (m : MemoryStore) (id : String) (art : Artifact) (keys : HasKeys m.edges)
    (found : get m id ≡ ok art) (id_plain : NoBar id)
    (stored_plain : (e : Edge) → Stored m e → NoBar e.from × IsPlain e.relation)
    (refs-IsPlain : (r : WikilinkRef)
      → Memᴰ r (section_refs art.sections)
      → IsPlain (relation_of r)) where
  abbrev desired : Dict ResolvedLink
  desired = note_links (resolve_title f m) id (section_refs art.sections) []

  desired-IsLinks : IsLinks desired
  desired-IsLinks =
      note_links-IsLinks (resolve_title f m) id (section_refs art.sections) IsLinks-empty

  desired→asked :
      (key : String) (l : ResolvedLink)
      → lookup desired key ≡ some l
      → AskedBy (resolve_title f m) id (section_refs art.sections) l
  desired→asked key l q =
      elim (note_links-from (resolve_title f m) id (section_refs art.sections) [] key l q) [
        | inl nothing ↦ (unfold lookup in absurd (cc nothing))
        | inr a ↦ a
      ]

  desired-IsPlain :
      (key : String) (l : ResolvedLink) → lookup desired key ≡ some l → IsPlain l.relation
  desired-IsPlain key l q =
      let (r, i, e) = desired→asked key l q in
      let (_, _, _, x) = (wanted_iff (resolve_title f m) id l.relation l.target_id r).0 e in
      rw (← x) (refs-IsPlain r i)

  desired_iff :
      (rel to : String)
      → IsPlain rel
      → (is_some (lookup desired (link_key rel to)) ≡ true) ↔ RefersTo f m id art rel to
  desired_iff rel to p = (
    λ h. elim (Option-cases (lookup desired (link_key rel to))) [
      | inl n ↦ cc (rw n at h)
      | inr (l, s) ↦
          let (r, i, e) = desired→asked (link_key rel to) l s in
          let (x, y) =
            link_key_inj l.relation l.target_id rel to (desired-IsPlain (link_key rel to) l s) p
              (desired-IsLinks.keyed (link_key rel to) l s) in
          let (a, b, c, d) = (wanted_iff (resolve_title f m) id rel to r).0 (e ∙ cc (x, y)) in
          (r, i, a, b, c, d)
    ],
    λ (r, i, a, b, c, d).
        note_links-has (resolve_title f m) id (section_refs art.sections) []
          (record { relation = rel; target_id = to })
          (r, i, (wanted_iff (resolve_title f m) id rel to r).1 (a, b, c, d)),
  )

  synced : (sync_wikilinks visit f m id).1 ≡ (sync_links visit id desired m).1
  unfolding sync_wikilinks
  synced = rw (found, sync_found) refl

  -- After `SyncWikilinks` an edge from the artifact is declared by wikilinks exactly if a reference in
  -- its sections resolves to the target, which is not the artifact itself, under the relation of the
  -- reference. The names of the artifact, of the sources of edges and of the relations hold no bar, and
  -- those of the relations no NUL; a map is ranged over in any order.
  pub sync_wikilinks_lem :
      (rel to : String)
      → IsPlain rel
      → Declares (sync_wikilinks visit f m id).1 edge_source_wikilink id rel to
        ↔ RefersTo f m id art rel to
  sync_wikilinks_lem rel to p =
      let (a, b) = Declares-iff (sync_wikilinks visit f m id).1 id rel to in
      let (c, d) =
        marked-sync_iff visit all id m desired desired-IsLinks keys id_plain stored_plain
          desired-IsPlain rel to p in
      let (x, y) = desired_iff rel to p in
      let as_stored = λ (t : MemoryStore). marked t (edge_key id rel to) in
      (λ h. x (c (ap as_stored (sym synced) ∙ b h)), λ h. a (ap as_stored synced ∙ d (y h)))

  -- `SyncWikilinks` leaves every entry of the edges as it was that wikilinks declare both before and after,
  -- or neither before nor after: links that still stand keep their weight, and edges that are not declared
  -- by wikilinks are not touched. The names of the artifact, of the sources of edges and of the relations
  -- hold no bar, and those of the relations no NUL.
  pub sync_wikilinks-unchanged :
      (k : String)
      → marked (sync_wikilinks visit f m id).1 k ≡ marked m k
      → lookup (sync_wikilinks visit f m id).1.edges k ≡ lookup m.edges k
  sync_wikilinks-unchanged k same =
      ap (λ (t : MemoryStore). lookup t.edges k) synced
      ∙ entries-sync visit all id m desired desired-IsLinks keys id_plain stored_plain
          desired-IsPlain k (ap (λ (t : MemoryStore). marked t k) (sym synced) ∙ same)
