-- ===== src/Protocol/Wikilink/Links.antt =====
-- What the parts of the synchronisation do to the edges that are declared by wikilinks.
use parchment.Prelude.{
  String, Bool, true, false, ◌&&◌, not, Option, none, some, List, [], ◌∷◌, ◌≡◌, inl, inr, refl, sym,
  ap, ◌∙◌, arith, ◌==◌, eq_iff, if◌then◌else◌, any_of, keep, is_empty, is_some, Bool-cases,
  String-cases, Option-cases,
}
use parchment.Dict.{Dict, lookup, remove, IsDistinct, lookup-remove, remove-IsDistinct}
use parchment.Store.{MemoryStore, Edge}
use parchment.Store.Edges.{edge_key, has_source, add_edge_source, remove_edge_source, retract}
use parchment.Store.Edges.Sources.{edge_at, add_edge_source_lem, remove_edge_source_lem}
use parchment.Protocol.Wikilink.{edge_source_wikilink, ResolvedLink, add_missing, remove_stale}

abbrev marks : Option Edge → Bool
marks none = false
marks (some e) = has_source edge_source_wikilink e

-- whether the edge under the key is there and declared by wikilinks
abbrev pub marked : MemoryStore → String → Bool
marked m k = marks (lookup m.edges k)

module _ (m : MemoryStore) (id rel to k : String) where
  marked-add :
      marked (add_edge_source m id rel to edge_source_wikilink) k
      ≡ (if edge_key id rel to == k then true else marked m k)
  marked-add =
      let (entries, has, _) = add_edge_source_lem m id rel to edge_source_wikilink in
      elim (Bool-cases (edge_key id rel to == k)) [
        | inl e ↦ rw (entries k, e, if◌then◌else◌) has
        | inr e ↦ rw (entries k, e, if◌then◌else◌) refl
      ]

  marked-remove :
      marked (remove_edge_source m id rel to edge_source_wikilink) k
      ≡ (if edge_key id rel to == k then false else marked m k)
  unfolding remove_edge_source
  marked-remove = elim (Option-cases (edge_at m id rel to)) [
    | inl gone ↦ elim (String-cases (edge_key id rel to) k) [
      | inl (q, e) ↦
          rw (gone_same gone, e, if◌then◌else◌) (ap marks (ap (lookup m.edges) (sym q) ∙ gone))
      | inr (_, e) ↦ rw (gone_same gone, e, if◌then◌else◌) refl
    ]
    | inr (e, stored) ↦
        let left = keep (λ s. not (s == edge_source_wikilink)) e.sources in
        let (entries, fresh) = remove_edge_source_lem m id rel to edge_source_wikilink e stored in
        elim (Bool-cases (edge_key id rel to == k)) [
          | inl t ↦ elim (Bool-cases (is_empty left)) [
            | inl n ↦ rw (entries k, t, n, if◌then◌else◌) refl
            | inr n ↦ rw (entries k, t, n, if◌then◌else◌) fresh
          ]
          | inr t ↦ rw (entries k, t, if◌then◌else◌) refl
        ]
  ]
    where
      gone_same :
          edge_at m id rel to ≡ none → remove_edge_source m id rel to edge_source_wikilink ≡ m
      gone_same g = rw (g, retract) refl

  entries-remove :
      edge_key id rel to == k ≡ false
      → lookup (remove_edge_source m id rel to edge_source_wikilink).edges k ≡ lookup m.edges k
  unfolding remove_edge_source
  entries-remove h = elim (Option-cases (edge_at m id rel to)) [
    | inl gone ↦ rw (gone, retract) refl
    | inr (e, stored) ↦
        (remove_edge_source_lem m id rel to edge_source_wikilink e stored).0 k
        ∙ rw (h, if◌then◌else◌) refl
  ]

module _ (id : String) where
  abbrev pub entry : ResolvedLink → String
  entry l = edge_key id l.relation l.target_id

  -- the entry of a link that `existing` does not have
  abbrev pub lacks : Dict ResolvedLink → String → String × ResolvedLink → Bool
  lacks existing k (key, l) = not (is_some (lookup existing key)) && entry l == k

  lacks-remove :
      (desired existing : Dict ResolvedLink) (key k : String)
      → lookup desired key ≡ none
      → any_of (lacks (remove existing key) k) desired ≡ any_of (lacks existing k) desired
  unfolding any_of lookup
  lacks-remove [] existing key k h = refl
  lacks-remove ((j, l) ∷ desired) existing key k h = ground (
    arith,
    eq_iff j key,
    eq_iff key j,
    lookup-remove existing key j,
    lacks-remove desired existing key k,
  )

  pub existing-add_missing :
      (desired existing : Dict ResolvedLink) (m : MemoryStore) (k : String)
      → lookup (add_missing id desired existing m).existing k
        ≡ (if is_some (lookup desired k) then none else lookup existing k)
  unfolding add_missing lookup
  existing-add_missing [] existing m k = refl
  existing-add_missing ((key, l) ∷ desired) existing m k =
      elim (Option-cases (lookup existing key)) [
        | inl absent ↦
            rw (absent, if◌then◌else◌)
              (existing-add_missing desired existing
                  (add_edge_source m id l.relation l.target_id edge_source_wikilink) k
                ∙ ground (arith, eq_iff key k))
        | inr (x, has) ↦
            rw (has, if◌then◌else◌)
              (existing-add_missing desired (remove existing key) m k
                ∙ ground (arith, eq_iff key k, lookup-remove existing key k))
      ]

  pub existing-IsDistinct :
      (desired existing : Dict ResolvedLink) (m : MemoryStore)
      → IsDistinct existing
      → IsDistinct (add_missing id desired existing m).existing
  unfolding add_missing
  existing-IsDistinct [] existing m h = h
  existing-IsDistinct ((key, l) ∷ desired) existing m h =
      elim (Option-cases (lookup existing key)) [
        | inl absent ↦ rw (absent, if◌then◌else◌) (existing-IsDistinct desired existing _ h)
        | inr (x, has) ↦
            rw (has, if◌then◌else◌)
              (existing-IsDistinct desired (remove existing key) m
                (remove-IsDistinct existing key h))
      ]

  pub marked-add_missing :
      (desired existing : Dict ResolvedLink) (m : MemoryStore) (k : String)
      → IsDistinct desired
      → marked (add_missing id desired existing m).store k
        ≡ (if any_of (lacks existing k) desired then true else marked m k)
  unfolding add_missing any_of
  marked-add_missing [] existing m k d = refl
  marked-add_missing ((key, l) ∷ desired) existing m k d =
      elim (Option-cases (lookup existing key)) [
        | inl absent ↦
            rw (absent, if◌then◌else◌)
              (marked-add_missing desired existing
                  (add_edge_source m id l.relation l.target_id edge_source_wikilink) k d.1
                ∙ ground (arith, marked-add m id l.relation l.target_id k))
        | inr (x, has) ↦
            rw (has, if◌then◌else◌)
              (marked-add_missing desired (remove existing key) m k d.1
                ∙ ap (λ b. if b then true else marked m k)
                    (lacks-remove desired existing key k d.0))
      ]

  pub marked-remove_stale :
      (ls : List ResolvedLink) (m : MemoryStore) (k : String)
      → marked (remove_stale id ls m) k
        ≡ (if any_of (λ l. entry l == k) ls then false else marked m k)
  unfolding remove_stale any_of
  marked-remove_stale [] m k = refl
  marked-remove_stale (l ∷ ls) m k =
      marked-remove_stale ls (remove_edge_source m id l.relation l.target_id edge_source_wikilink) k
      ∙ ground (arith, marked-remove m id l.relation l.target_id k)

  pub unmarked-add_missing :
      (desired existing : Dict ResolvedLink) (m : MemoryStore) (k : String)
      → IsDistinct desired
      → any_of (lacks existing k) desired ≡ false
      → lookup (add_missing id desired existing m).store.edges k ≡ lookup m.edges k
  unfolding add_missing any_of
  unmarked-add_missing [] existing m k d h = refl
  unmarked-add_missing ((key, l) ∷ desired) existing m k d h =
      elim (Option-cases (lookup existing key)) [
        | inl absent ↦
            let m' = add_edge_source m id l.relation l.target_id edge_source_wikilink in
            let (entries, _, _) =
              add_edge_source_lem m id l.relation l.target_id edge_source_wikilink in
            rw (absent, if◌then◌else◌)
              (unmarked-add_missing desired existing m' k d.1 (ground (arith, absent))
                ∙ entries k
                ∙ ground (arith, absent))
        | inr (x, has) ↦
            rw (has, if◌then◌else◌)
              (unmarked-add_missing desired (remove existing key) m k d.1
                (lacks-remove desired existing key k d.0 ∙ ground (arith, has)))
      ]

  pub unmarked-remove_stale :
      (ls : List ResolvedLink) (m : MemoryStore) (k : String)
      → any_of (λ l. entry l == k) ls ≡ false
      → lookup (remove_stale id ls m).edges k ≡ lookup m.edges k
  unfolding remove_stale any_of
  unmarked-remove_stale [] m k h = refl
  unmarked-remove_stale (l ∷ ls) m k h =
      unmarked-remove_stale ls (remove_edge_source m id l.relation l.target_id edge_source_wikilink)
        k (ground arith)
      ∙ entries-remove m id l.relation l.target_id k (ground arith)
