-- ===== src/Protocol/Parent/Placed.antt =====
-- The parents that the writes of a new parent leave.
use mathlib.Core.List.Memᴰ
use parchment.Prelude.{
  String, none, some, List, [], ◌∷◌, ◌≡◌, ◌≢◌, ◌⊎◌, ◌↔◌, inl, inr, refl, sym, ap, ◌∙◌, subst, Memᴰ,
  String-cases, if◌then◌else◌, eq-false,
}
use mathlib.Core.Option.{none-ne-some, some-injective}
use parchment.Dict.{
  lookup, insert, remove, lookup-insert_self, lookup-insert_ne, lookup-remove_self,
  lookup-remove_ne,
}
use parchment.Store.{MemoryStore, Edge}
use parchment.Store.Edges.{neighbors, incoming, key_of, add_edge, remove_edge}
use parchment.Store.Edges.Neighbors.{HasKeys}
use parchment.Protocol.Rules.{rel_parent_of}
use parchment.Protocol.Transition.Rule.{Parent}
use parchment.Protocol.Parent.{remove_edges, parent_edge, move_to}
use parchment.Protocol.Parent.Guard.{mem-parents}

-- removal of a list of edges: the edges under their keys go, the others stay
lookup-remove_edges :
    (l : List Edge) (m : MemoryStore) (k : String)
    → ((lookup (remove_edges l m).edges k ≡ lookup m.edges k)
        × ((x : Edge) → Memᴰ x l → key_of x ≢ k))
      ⊎ ((lookup (remove_edges l m).edges k ≡ none) × ((x : Edge) × Memᴰ x l × (key_of x ≡ k)))
unfolding remove_edges remove_edge
lookup-remove_edges [] m k = inl (refl, λ x i. absurd (Memᴰ.not-nil i))
lookup-remove_edges (e ∷ l) m k = elim (lookup-remove_edges l (remove_edge m e) k) [
  | inr (q, (x, i, s)) ↦ inr (q, (x, Memᴰ.tail i, s))
  | inl (q, apart) ↦ elim (String-cases (key_of e) k) [
    | inl (same, _) ↦ inr (
      q
          ∙ subst (λ z. lookup (remove m.edges (key_of e)) z ≡ none) same
              (lookup-remove_self m.edges (key_of e)),
      (e, Memᴰ.head refl, same),
    )
    | inr (ne, _) ↦ inl (
      q ∙ lookup-remove_ne m.edges (key_of e) k ne,
      λ x i. elim (Memᴰ.cases_cons i) [
        | inl s ↦ λ same. ne (ap key_of (sym s) ∙ same)
        | inr r ↦ apart x r
      ],
    )
  ]
]

-- no edge but one into the same artifact stands under the key of the new edge
abbrev pub HasRoom : MemoryStore → String → String → Type 0
HasRoom m id value =
    (x : Edge)
    → lookup m.edges (key_of x) ≡ some x
    → key_of (parent_edge value id) ≡ key_of x
    → x.to ≡ id

module _ (m : MemoryStore) (keys : HasKeys m.edges) (id : String) where
  abbrev parents : List Edge
  parents = neighbors m id rel_parent_of incoming

  removed-Parent :
      (p c : String) → Parent (remove_edges parents m).edges p c → Parent m.edges p c × (c ≢ id)
  removed-Parent p c (e, stored, rel, from, at) = elim (lookup-remove_edges parents m (key_of e)) [
    | inl (q, apart) ↦
        let stored_before = sym q ∙ stored in
        (
          (e, stored_before, rel, from, at),
          λ same. apart e ((mem-parents m keys e id).1 (stored_before, rel, at ∙ same)) refl,
        )
    | inr (q, _) ↦ absurd (none-ne-some e (sym q ∙ stored))
  ]

  -- an edge that leads elsewhere stays
  stored-removed :
      (e : Edge)
      → e.to ≢ id
      → lookup m.edges (key_of e) ≡ some e
      → lookup (remove_edges parents m).edges (key_of e) ≡ some e
  stored-removed e other stored = elim (lookup-remove_edges parents m (key_of e)) [
    | inl (q, apart) ↦ q ∙ stored
    | inr (q, (x, i, same)) ↦
        let (stored_x, _, at_x) = (mem-parents m keys x id).0 i in
        absurd (
          other (
            ap (λ y. y.to)
              (sym (some-injective x e (sym stored_x ∙ ap (lookup m.edges) same ∙ stored)))
            ∙ at_x))
  ]

  pub moved-Parent :
      (value p c : String)
      → Parent (move_to m id value).edges p c
      → ((c ≡ id) × (p ≡ value) × (value ≢ "")) ⊎ ((c ≢ id) × Parent m.edges p c)
  unfolding move_to add_edge
  moved-Parent value p c h = elim (String-cases value "") [
    | inl (empty, t) ↦
        let (old, apart) = removed-Parent p c (rw (t, if◌then◌else◌) at h) in inr (apart, old)
    | inr (named, t) ↦ placed named (rw (t, if◌then◌else◌) at h)
  ]
    where
      placed :
          value ≢ ""
          → Parent (add_edge (remove_edges parents m) (parent_edge value id)).edges p c
          → ((c ≡ id) × (p ≡ value) × (value ≢ "")) ⊎ ((c ≢ id) × Parent m.edges p c)
      placed named (e, stored, rel, from, at) =
          elim (String-cases (key_of (parent_edge value id)) (key_of e)) [
            | inl (same, _) ↦
                let is_new = some-injective (parent_edge value id) e (
                  sym (
                    lookup-insert_self (remove_edges parents m).edges
                      (key_of (parent_edge value id)) (parent_edge value id))
                  ∙ ap
                      (lookup (
                        insert (remove_edges parents m).edges (key_of (parent_edge value id))
                          (parent_edge value id)))
                      same
                  ∙ stored) in
                inl (
                  sym at ∙ ap (λ y. y.to) (sym is_new),
                  sym from ∙ ap (λ y. y.from) (sym is_new),
                  named,
                )
            | inr (ne, _) ↦
                let (old, apart) = removed-Parent p c (
                  e,
                  sym (
                        lookup-insert_ne (remove_edges parents m).edges _ (key_of e)
                          (parent_edge value id) ne)
                      ∙ stored,
                  rel,
                  from,
                  at,
                ) in
                inr (apart, old)
          ]

  Parent-moved :
      (value p c : String)
      → HasRoom m id value
      → ((c ≡ id) × (p ≡ value) × (value ≢ "")) ⊎ ((c ≢ id) × Parent m.edges p c)
      → Parent (move_to m id value).edges p c
  unfolding move_to add_edge
  Parent-moved value p c room (inl (at, is_value, named)) =
      rw (eq-false value "" named, if◌then◌else◌)
        (
          parent_edge value id,
          lookup-insert_self (remove_edges parents m).edges (key_of (parent_edge value id))
              (parent_edge value id),
          refl,
          sym is_value,
          sym at,
        )
  Parent-moved value p c room (inr (other, (e, stored, rel, from, at))) =
      let elsewhere = λ (q : e.to ≡ id). other (sym at ∙ q) in
      let kept = stored-removed e elsewhere stored in
      elim (String-cases value "") [
        | inl (empty, t) ↦ rw (t, if◌then◌else◌) (e, kept, rel, from, at)
        | inr (named, t) ↦
            rw (t, if◌then◌else◌)
              (
                e,
                lookup-insert_ne (remove_edges parents m).edges (key_of (parent_edge value id))
                      (key_of e) (parent_edge value id) (λ q. elsewhere (room e stored q))
                    ∙ kept,
                rel,
                from,
                at,
              )
      ]

-- After the writes of setFieldParent the artifact has the new parent as its only parent, and none for
-- the empty text; every other artifact has the parents that it had. This asks that no edge into another
-- artifact stands under the key of the new one, as where no ID holds a bar.
pub move_to_iff :
    (m : MemoryStore) (id value p c : String)
    → HasKeys m.edges
    → HasRoom m id value
    → Parent (move_to m id value).edges p c
      ↔ (((c ≡ id) × (p ≡ value) × (value ≢ "")) ⊎ ((c ≢ id) × Parent m.edges p c))
move_to_iff m id value p c keys room =
    (moved-Parent m keys id value p c, Parent-moved m keys id value p c room)
