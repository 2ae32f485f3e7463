-- ===== src/Protocol/Wikilink/Synced.antt =====
-- After the synchronisation the edges declared by wikilinks are those that the sections ask for.
use parchment.Prelude.{
  String, Bool, true, false, none, some, [], ◌≡◌, ◌⊎◌, ◌↔◌, inl, inr, refl, sym, ap, ◌∙◌, arith,
  ◌==◌, if◌then◌else◌, any_of, is_some, Bool-cases, Option-cases,
}
use parchment.Dict.{Dict, lookup, values}
use parchment.Store.{MemoryStore, Edge}
use parchment.Store.Edges.{edge_key, neighbors, outgoing}
use parchment.Store.Edges.Key.{NoBar, edge_key_inj}
use parchment.Store.Edges.Neighbors.{HasKeys, Stored, mem-neighbors}
use parchment.Protocol.Wikilink.{
  ResolvedLink, link_key, key_of_link, wikilink_edges, add_missing, sync_links, Syncing,
}
use parchment.Protocol.Wikilink.Entries.{IsPlain, VisitsAll, link_key_inj, any_entry, any_lacks}
use parchment.Protocol.Wikilink.Links.{
  unmarked-add_missing, unmarked-remove_stale, marked, entry, lacks, existing-add_missing,
  existing-IsDistinct, marked-add_missing, marked-remove_stale,
}
use parchment.Protocol.Wikilink.Noted.{
  IsLinks, IsLinks-empty, note_edges-IsLinks, note_edges-from, note_edges-has,
}

module _ (visit : Dict ResolvedLink → Dict ResolvedLink) (all : VisitsAll visit) (id : String)
    (m : MemoryStore) (desired : Dict ResolvedLink) (wanted_links : IsLinks desired) where
  open all use {same_entries, once}

  abbrev had : Dict ResolvedLink
  had = wikilink_edges m id

  had-IsLinks : IsLinks had
  unfolding wikilink_edges
  had-IsLinks = note_edges-IsLinks (neighbors m id "" outgoing) IsLinks-empty

  abbrev stepped : Syncing
  stepped = add_missing id (visit desired) had m

  stale :
      (k : String)
      → lookup (visit stepped.existing) k
        ≡ (if is_some (lookup desired k) then none else lookup had k)
  stale k =
      same_entries stepped.existing k
      ∙ existing-add_missing id (visit desired) had m k
      ∙ ap (λ o. if is_some o then none else lookup had k) (same_entries desired k)

  -- the entry is declared afterwards if it was, or is wanted and missing, and is not stale
  marked-sync :
      (k : String)
      → marked (sync_links visit id desired m).1 k ≡ (
          if any_of (λ l. entry id l == k) (values (visit stepped.existing))
          then false
          else if any_of (lacks id had k) (visit desired)
          then true
          else marked m k)
  unfolding sync_links
  marked-sync k =
      marked-remove_stale id (values (visit stepped.existing)) stepped.store k
      ∙ ap
          (λ b.
            if any_of (λ l. entry id l == k) (values (visit stepped.existing)) then false else b)
          (marked-add_missing id (visit desired) had m k (once desired wanted_links.distinct))

  module _ (keys : HasKeys m.edges) (id_plain : NoBar id)
      (stored_plain : (e : Edge) → Stored m e → NoBar e.from × IsPlain e.relation)
      (wanted_plain : (key : String) (l : ResolvedLink)
        → lookup desired key ≡ some l
        → IsPlain l.relation) where
    -- what the map of the standing links holds is an edge of the store
    had→stored :
        (key : String) (l : ResolvedLink)
        → lookup had key ≡ some l
        → (marked m (entry id l) ≡ true) × IsPlain l.relation
    unfolding wikilink_edges
    had→stored key l q = elim (note_edges-from (neighbors m id "" outgoing) [] key l q) [
      | inl none_yet ↦ (unfold lookup in absurd (cc none_yet))
      | inr (e, i, t, r) ↦
          let (s, _, f) = (mem-neighbors m id "" outgoing e keys).0 i in
          let at_entry : lookup m.edges (entry id l) ≡ some e =
            ap (λ x. lookup m.edges (entry id x)) (sym r)
            ∙ ap (λ x. lookup m.edges (edge_key x e.relation e.to)) (sym f)
            ∙ s in
          (rw at_entry t, rw (← ap (λ x. x.relation) r) (stored_plain e s).1)
    ]

    -- and the other way round
    stored→had :
        (rel to : String)
        → IsPlain rel
        → marked m (edge_key id rel to) ≡ true
        → is_some (lookup had (link_key rel to)) ≡ true
    unfolding wikilink_edges
    stored→had rel to p t = elim (Option-cases (lookup m.edges (edge_key id rel to))) [
      | inl gone ↦ cc (rw gone at t)
      | inr (e, s) ↦
          let k = keys.keyed (edge_key id rel to) e s in
          let own : Stored m e = ap (lookup m.edges) k ∙ s in
          let (f, r, o) =
            edge_key_inj e.from e.relation e.to id rel to (stored_plain e own).0
              (stored_plain e own).1.0 id_plain p.0 k in
          rw (← r, ← o)
            (note_edges-has (neighbors m id "" outgoing) [] e
              ((mem-neighbors m id "" outgoing e keys).1 (own, inl refl, f)) (rw s at t))
    ]

    same_link :
        (rel to : String) (l : ResolvedLink)
        → IsPlain rel
        → IsPlain l.relation
        → entry id l ≡ edge_key id rel to
        → key_of_link l ≡ link_key rel to
    same_link rel to l p q e =
        let (_, r, t) =
          edge_key_inj id l.relation l.target_id id rel to id_plain q.0 id_plain p.0 e in
        cc (r, t)

    same_entry :
        (rel to : String) (l : ResolvedLink)
        → IsPlain rel
        → IsPlain l.relation
        → key_of_link l ≡ link_key rel to
        → entry id l ≡ edge_key id rel to
    same_entry rel to l p q e =
        let (r, t) = link_key_inj l.relation l.target_id rel to q p e in cc (r, t)

    abbrev is_stale : String → Bool
    is_stale k = any_of (λ l. entry id l == k) (values (visit stepped.existing))

    stale_entries :
        (k : String)
        → (is_stale k ≡ true) ↔ (
            (key : String) × (l : ResolvedLink) × (lookup (visit stepped.existing) key ≡ some l)
            × (entry id l ≡ k))
    stale_entries k =
        any_entry id (visit stepped.existing) k (
          once stepped.existing (existing-IsDistinct id (visit desired) had m had-IsLinks.distinct))

    -- what is asked for is not removed
    asked_stays :
        (rel to : String)
        → IsPlain rel
        → is_some (lookup desired (link_key rel to)) ≡ true
        → is_stale (edge_key id rel to) ≡ false
    asked_stays rel to p h = elim (Bool-cases (is_stale (edge_key id rel to))) [
      | inr e ↦ e
      | inl e ↦
          let (key, l, s, q) = (stale_entries (edge_key id rel to)).0 e in
          let held : lookup had key ≡ some l = ground (arith, stale key) in
          let same =
            sym (had-IsLinks.keyed key l held) ∙ same_link rel to l p (had→stored key l held).1 q in
          absurd (ground (arith, stale key, ap (lookup desired) same))
    ]

    -- what is not asked for is removed
    rest_goes :
        (rel to : String)
        → IsPlain rel
        → lookup desired (link_key rel to) ≡ none
        → marked m (edge_key id rel to) ≡ true
        → is_stale (edge_key id rel to) ≡ true
    rest_goes rel to p n t = elim (Option-cases (lookup had (link_key rel to))) [
      | inl gone ↦ let x = stored→had rel to p t in cc (rw gone at x)
      | inr (l, held) ↦ (stale_entries (edge_key id rel to)).1 (
        link_key rel to,
        l,
        stale (link_key rel to) ∙ rw (n, if◌then◌else◌) held,
        same_entry rel to l p (had→stored (link_key rel to) l held).1
            (had-IsLinks.keyed (link_key rel to) l held),
      )
    ]

    lacking :
        (k : String)
        → (any_of (lacks id had k) (visit desired) ≡ true) ↔ (
            (key : String) × (l : ResolvedLink) × (lookup (visit desired) key ≡ some l)
            × (lookup had key ≡ none)
            × (entry id l ≡ k))
    lacking k = any_lacks id had (visit desired) k (once desired wanted_links.distinct)

    added_or_kept :
        (rel to : String)
        → IsPlain rel
        → is_some (lookup desired (link_key rel to)) ≡ true
        → (any_of (lacks id had (edge_key id rel to)) (visit desired) ≡ true)
          ⊎ (marked m (edge_key id rel to) ≡ true)
    added_or_kept rel to p h = elim (Option-cases (lookup desired (link_key rel to))) [
      | inl n ↦ cc (rw n at h)
      | inr (w, s) ↦ elim (Option-cases (lookup had (link_key rel to))) [
        | inl gone ↦ inl (
            (lacking (edge_key id rel to)).1 (
              link_key rel to,
              w,
              same_entries desired (link_key rel to) ∙ s,
              gone,
              same_entry rel to w p (wanted_plain (link_key rel to) w s)
                  (wanted_links.keyed (link_key rel to) w s),
            ))
        | inr (l, held) ↦
            let (t, q) = had→stored (link_key rel to) l held in
            inr (rw (same_entry rel to l p q (had-IsLinks.keyed (link_key rel to) l held)) at t)
      ]
    ]

    added_is_asked :
        (rel to : String)
        → IsPlain rel
        → any_of (lacks id had (edge_key id rel to)) (visit desired) ≡ true
        → is_some (lookup desired (link_key rel to)) ≡ true
    added_is_asked rel to p e =
        let (key, l, s, n, q) = (lacking (edge_key id rel to)).0 e in
        let d = sym (same_entries desired key) ∙ s in
        let same =
          sym (wanted_links.keyed key l d) ∙ same_link rel to l p (wanted_plain key l d) q in
        rw (← same) (ap is_some d)

    pub marked-sync_iff :
        (rel to : String)
        → IsPlain rel
        → (marked (sync_links visit id desired m).1 (edge_key id rel to) ≡ true)
          ↔ (is_some (lookup desired (link_key rel to)) ≡ true)
    marked-sync_iff rel to p =
        let k = edge_key id rel to in
        let e = marked-sync k in
        (
          λ t. elim (Option-cases (lookup desired (link_key rel to))) [
            | inr (w, s) ↦ ap is_some s
            | inl n ↦ elim (Bool-cases (any_of (lacks id had k) (visit desired))) [
              | inl a ↦ added_is_asked rel to p a
              | inr a ↦ absurd (ground (arith, rest_goes rel to p n))
            ]
          ],
          λ h. elim (added_or_kept rel to p h) [
            | inl a ↦ e ∙ rw (asked_stays rel to p h, a, if◌then◌else◌) refl
            | inr t ↦ e ∙ rw (asked_stays rel to p h, t, if◌then◌else◌) (ground arith)
          ],
        )

    stale_is_marked : (k : String) → is_stale k ≡ true → marked m k ≡ true
    stale_is_marked k e =
        let (key, l, s, q) = (stale_entries k).0 e in
        let held : lookup had key ≡ some l = ground (arith, stale key) in
        rw (← q) (had→stored key l held).0

    lacking_is_unmarked :
        (k : String) → any_of (lacks id had k) (visit desired) ≡ true → marked m k ≡ false
    lacking_is_unmarked k e = elim (Bool-cases (marked m k)) [
      | inr f ↦ f
      | inl t ↦
          let (key, l, s, n, q) = (lacking k).0 e in
          let d = sym (same_entries desired key) ∙ s in
          let held =
            stored→had l.relation l.target_id (wanted_plain key l d) (ap (marked m) q ∙ t) in
          absurd (ground (arith, ap (lookup had) (wanted_links.keyed key l d)))
    ]

    -- An entry that is declared by wikilinks before and after, or neither before nor after, is left
    -- as it was.
    pub entries-sync :
        (k : String)
        → marked (sync_links visit id desired m).1 k ≡ marked m k
        → lookup (sync_links visit id desired m).1.edges k ≡ lookup m.edges k
    entries-sync k same =
        let e = marked-sync k in
        let stays : is_stale k ≡ false = ground (arith, stale_is_marked k) in
        let there : any_of (lacks id had k) (visit desired) ≡ false =
          ground (arith, lacking_is_unmarked k) in
        unfold sync_links in
        unmarked-remove_stale id (values (visit stepped.existing)) stepped.store k stays
        ∙ unmarked-add_missing id (visit desired) had m k (once desired wanted_links.distinct) there
