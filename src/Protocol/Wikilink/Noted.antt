-- ===== src/Protocol/Wikilink/Noted.antt =====
-- The two maps of links that the synchronisation compares: what the references ask for, and what stands.
use mathlib.Core.List.Memᴰ
use parchment.Prelude.{
  String, true, Option, none, some, List, [], ◌∷◌, ◌≡◌, ◌⊎◌, inl, inr, refl, sym, ap, ◌∙◌, arith,
  ◌==◌, eq_iff, eq_refl, if◌then◌else◌, is_some, Memᴰ, Bool-cases, Option-cases,
}
use parchment.Dict.{
  Dict, lookup, insert, IsDistinct, IsKeyed, lookup-insert, lookup-insert_self, insert-IsDistinct,
}
use parchment.Dict.Keyed.{IsKeyed-insert}
use parchment.Store.{Edge}
use parchment.Store.Edges.{has_source}
use parchment.Protocol.Wikilink.{
  edge_source_wikilink, WikilinkRef, ResolvedLink, key_of_link, wanted, note_link, note_links,
  note_edges,
}

-- a map of links, each once and under its key
pub record IsLinks (d : Dict ResolvedLink) : Type 0 where
  pub distinct : IsDistinct d
  pub keyed : IsKeyed key_of_link d

pub IsLinks-empty : IsLinks []
IsLinks-empty = record { distinct = tt; keyed = λ k v q. (unfold lookup in cc q) }

IsLinks-insert :
    {d : Dict ResolvedLink} (l : ResolvedLink) → IsLinks d → IsLinks (insert d (key_of_link l) l)
IsLinks-insert {d} l h = record {
  distinct = insert-IsDistinct d (key_of_link l) l h.distinct;
  keyed = IsKeyed-insert key_of_link d (key_of_link l) l h.keyed refl;
}

note_link-IsLinks :
    {d : Dict ResolvedLink} (o : Option ResolvedLink) → IsLinks d → IsLinks (note_link d o)
note_link-IsLinks none h = h
note_link-IsLinks {d} (some l) h = elim (Bool-cases (is_some (lookup d (key_of_link l)))) [
  | inl e ↦ rw (e, if◌then◌else◌) h
  | inr e ↦ rw (e, if◌then◌else◌) (IsLinks-insert l h)
]

-- a key is there afterwards if it was, or if it is the key of the new link
note_link-has :
    (d : Dict ResolvedLink) (l : ResolvedLink) (k : String)
    → is_some (lookup (note_link d (some l)) k)
      ≡ (if key_of_link l == k then true else is_some (lookup d k))
note_link-has d l k = elim (Bool-cases (is_some (lookup d (key_of_link l)))) [
  | inl e ↦ rw (e, if◌then◌else◌) (ground (arith, eq_iff (key_of_link l) k, e))
  | inr e ↦ rw (e, if◌then◌else◌, lookup-insert d (key_of_link l) k l) (ground arith)
]

note_link-from :
    (d : Dict ResolvedLink) (o : Option ResolvedLink) (k : String) (x : ResolvedLink)
    → lookup (note_link d o) k ≡ some x
    → (lookup d k ≡ some x) ⊎ (o ≡ some x)
note_link-from d none k x q = inl q
note_link-from d (some l) k x q = elim (Bool-cases (is_some (lookup d (key_of_link l)))) [
  | inl e ↦ inl (rw (e, if◌then◌else◌) at q)
  | inr e ↦ ground (arith, lookup-insert d (key_of_link l) k l)
]

module _ (resolve : String → String) (id : String) where
  pub note_links-IsLinks :
      (refs : List WikilinkRef) {d : Dict ResolvedLink}
      → IsLinks d
      → IsLinks (note_links resolve id refs d)
  unfolding note_links
  note_links-IsLinks [] h = h
  note_links-IsLinks (r ∷ refs) h =
      note_links-IsLinks refs (note_link-IsLinks (wanted resolve id r) h)

  -- some reference asks for the link
  abbrev pub AskedBy : List WikilinkRef → ResolvedLink → Type 0
  AskedBy refs l = (r : WikilinkRef) × Memᴰ r refs × (wanted resolve id r ≡ some l)

  pub note_links-from :
      (refs : List WikilinkRef) (d : Dict ResolvedLink) (k : String) (x : ResolvedLink)
      → lookup (note_links resolve id refs d) k ≡ some x
      → (lookup d k ≡ some x) ⊎ AskedBy refs x
  unfolding note_links
  note_links-from [] d k x q = inl q
  note_links-from (r ∷ refs) d k x q = elim (note_links-from refs _ k x q) [
    | inl old ↦ elim (note_link-from d (wanted resolve id r) k x old) [
      | inl older ↦ inl older
      | inr e ↦ inr (r, Memᴰ.head refl, e)
    ]
    | inr (s, i, e) ↦ inr (s, Memᴰ.tail i, e)
  ]

  note_links-keep :
      (refs : List WikilinkRef) (d : Dict ResolvedLink) (k : String)
      → is_some (lookup d k) ≡ true
      → is_some (lookup (note_links resolve id refs d) k) ≡ true
  unfolding note_links
  note_links-keep [] d k h = h
  note_links-keep (r ∷ refs) d k h = elim (Option-cases (wanted resolve id r)) [
    | inl n ↦ rw n (note_links-keep refs d k h)
    | inr (l, s) ↦ rw s (note_links-keep refs _ k (ground (arith, note_link-has d l k)))
  ]

  pub note_links-has :
      (refs : List WikilinkRef) (d : Dict ResolvedLink) (l : ResolvedLink)
      → AskedBy refs l
      → is_some (lookup (note_links resolve id refs d) (key_of_link l)) ≡ true
  unfolding note_links
  note_links-has [] d l (r, i, e) = absurd (Memᴰ.not-nil i)
  note_links-has (s ∷ refs) d l (r, i, e) = elim (Memᴰ.cases_cons i) [
    | inl q ↦
        let e' : wanted resolve id s ≡ some l = ap (wanted resolve id) (sym q) ∙ e in
        rw e' (
          note_links-keep refs _ (key_of_link l) (
            note_link-has d l (key_of_link l)
            ∙ ap (λ b. if b then true else is_some (lookup d (key_of_link l)))
                (eq_refl (key_of_link l))))
    | inr later ↦ note_links-has refs _ l (r, later, e)
  ]

abbrev pub link_of : Edge → ResolvedLink
link_of e = record { relation = e.relation; target_id = e.to }

pub note_edges-IsLinks :
    (es : List Edge) {d : Dict ResolvedLink} → IsLinks d → IsLinks (note_edges es d)
unfolding note_edges
note_edges-IsLinks [] h = h
note_edges-IsLinks (e ∷ es) h = elim (Bool-cases (has_source edge_source_wikilink e)) [
  | inl t ↦ rw (t, if◌then◌else◌) (note_edges-IsLinks es (IsLinks-insert (link_of e) h))
  | inr t ↦ rw (t, if◌then◌else◌) (note_edges-IsLinks es h)
]

-- some edge that is declared by wikilinks is the link
abbrev pub StandsIn : List Edge → ResolvedLink → Type 0
StandsIn es l =
    (e : Edge) × Memᴰ e es × (has_source edge_source_wikilink e ≡ true) × (link_of e ≡ l)

pub note_edges-from :
    (es : List Edge) (d : Dict ResolvedLink) (k : String) (x : ResolvedLink)
    → lookup (note_edges es d) k ≡ some x
    → (lookup d k ≡ some x) ⊎ StandsIn es x
unfolding note_edges
note_edges-from [] d k x q = inl q
note_edges-from (e ∷ es) d k x q = elim (Bool-cases (has_source edge_source_wikilink e)) [
  | inl t ↦ elim (note_edges-from es _ k x (rw (t, if◌then◌else◌) at q)) [
    | inl old ↦ elim (Bool-cases (key_of_link (link_of e) == k)) [
      | inl s ↦ inr (
        e,
        Memᴰ.head refl,
        t,
        ground (arith, lookup-insert d (key_of_link (link_of e)) k (link_of e)),
      )
      | inr s ↦ inl (ground (arith, lookup-insert d (key_of_link (link_of e)) k (link_of e)))
    ]
    | inr (y, i, t2, r) ↦ inr (y, Memᴰ.tail i, t2, r)
  ]
  | inr t ↦ elim (note_edges-from es d k x (rw (t, if◌then◌else◌) at q)) [
    | inl old ↦ inl old
    | inr (y, i, t2, r) ↦ inr (y, Memᴰ.tail i, t2, r)
  ]
]

note_edges-keep :
    (es : List Edge) (d : Dict ResolvedLink) (k : String)
    → is_some (lookup d k) ≡ true
    → is_some (lookup (note_edges es d) k) ≡ true
unfolding note_edges
note_edges-keep [] d k h = h
note_edges-keep (e ∷ es) d k h = elim (Bool-cases (has_source edge_source_wikilink e)) [
  | inl t ↦
      rw (t, if◌then◌else◌)
        (note_edges-keep es _ k
          (ground (arith, lookup-insert d (key_of_link (link_of e)) k (link_of e))))
  | inr t ↦ rw (t, if◌then◌else◌) (note_edges-keep es d k h)
]

pub note_edges-has :
    (es : List Edge) (d : Dict ResolvedLink) (e : Edge)
    → Memᴰ e es
    → has_source edge_source_wikilink e ≡ true
    → is_some (lookup (note_edges es d) (key_of_link (link_of e))) ≡ true
unfolding note_edges
note_edges-has [] d e i h = absurd (Memᴰ.not-nil i)
note_edges-has (x ∷ es) d e i h = elim (Memᴰ.cases_cons i) [
  | inl q ↦
      rw (← q, h, if◌then◌else◌)
        (note_edges-keep es _ (key_of_link (link_of e))
          (ap is_some (lookup-insert_self d (key_of_link (link_of e)) (link_of e))))
  | inr later ↦ note_edges-has es _ e later h
]
