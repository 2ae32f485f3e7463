-- ===== src/Store/Edges/Neighbors.antt =====
-- What the edge queries give.
use mathlib.Core.List.Memᴰ
use mathlib.Core.Logic.{⊎_elim}
use parchment.Prelude.{
  String, true, ◌&&◌, some, List, [], ◌∷◌, ◌≡◌, ◌↔◌, ◌⊎◌, refl, sym, ap, ◌∙◌, arith, ◌==◌, eq_iff,
  inl, inr, mem-keep, Memᴰ, any_of→mem, mem→any_of,
}
use parchment.Dict.{Dict, lookup, values, IsDistinct, IsKeyed, lookup→mem, mem→lookup}
use parchment.Store.{MemoryStore, Edge}
use parchment.Store.Edges.{
  key_of, Direction, outgoing, incoming, both, of_relation, leads, neighbors, in_set, related,
  list_edges,
}

-- The map of edges has distinct keys, and each is the key of its edge.
pub record HasKeys (d : Dict Edge) : Type 0 where
  pub distinct : IsDistinct d
  pub keyed : IsKeyed key_of d

-- the edge is stored, under its own key
abbrev pub Stored : MemoryStore → Edge → Type 0
Stored m e = lookup m.edges (key_of e) ≡ some e

mem-edges : (m : MemoryStore) (e : Edge) → HasKeys m.edges → Memᴰ e (values m.edges) ↔ Stored m e
mem-edges m e h = (
  λ mem.
      let (k, q) = mem→lookup m.edges e h.distinct mem in ap (lookup m.edges) (h.keyed k e q) ∙ q,
  λ q. lookup→mem m.edges (key_of e) e q,
)

-- the edge has the node at the end that the direction names
abbrev pub At : String → Direction → Edge → Type 0
At id outgoing e = e.from ≡ id
At id incoming e = e.to ≡ id
At id both e = (e.from ≡ id) ⊎ (e.to ≡ id)

leads_iff : (id : String) (dir : Direction) (e : Edge) → (leads id dir e ≡ true) ↔ At id dir e
leads_iff id outgoing e = eq_iff e.from id
leads_iff id incoming e = eq_iff e.to id
leads_iff id both e = ground (arith, eq_iff e.from id, eq_iff e.to id)

of_relation_iff :
    (rel : String) (e : Edge) → (of_relation rel e ≡ true) ↔ ((rel ≡ "") ⊎ (e.relation ≡ rel))
of_relation_iff rel e = ground (arith, eq_iff rel "", eq_iff e.relation rel)

-- `Neighbors` gives exactly the stored edges of the relation (of every relation, for the empty one)
-- that have the node at the end, or at either end, that the direction names.
pub mem-neighbors :
    (m : MemoryStore) (id rel : String) (dir : Direction) (e : Edge)
    → HasKeys m.edges
    → Memᴰ e (neighbors m id rel dir)
      ↔ (Stored m e × ((rel ≡ "") ⊎ (e.relation ≡ rel)) × At id dir e)
unfolding neighbors
mem-neighbors m id rel dir e h =
    let test = λ (x : Edge). of_relation rel x && leads id dir x in
    (
      λ mem.
          let (mv, t) = (mem-keep test e (values m.edges)).0 mem in
          (
            (mem-edges m e h).0 mv,
            (of_relation_iff rel e).0 (ground arith),
            (leads_iff id dir e).0 (ground arith),
          ),
      λ (q, r, s). (mem-keep test e (values m.edges)).1 (
        (mem-edges m e h).1 q,
        ground (arith, (of_relation_iff rel e).1 r, (leads_iff id dir e).1 s),
      ),
    )

pub in_set_iff : (l : List String) (s : String) → (in_set l s ≡ true) ↔ Memᴰ s l
in_set_iff l s = (
  λ e. let (x, m, q) = any_of→mem (λ x. x == s) l e in Memᴰ.cast (sym ((eq_iff x s).0 q)) m,
  λ m. mem→any_of (λ x. x == s) l s m ((eq_iff s s).1 refl),
)

related_iff :
    (relations : List String) (e : Edge)
    → (related relations e ≡ true) ↔ ((relations ≡ []) ⊎ Memᴰ e.relation relations)
related_iff [] e = (λ _. inl refl, λ _. refl)
related_iff (r ∷ rs) e = (
  λ h. inr ((in_set_iff (r ∷ rs) e.relation).0 h),
  ⊎_elim (λ q. cc) (λ m. (in_set_iff (r ∷ rs) e.relation).1 m),
)

-- `ListEdges` gives exactly the stored edges with both ends among the IDs and, if relations are
-- given, a relation among those.
pub mem-list_edges :
    (m : MemoryStore) (ids relations : List String) (e : Edge)
    → HasKeys m.edges
    → Memᴰ e (list_edges m ids relations) ↔ (
        Stored m e
        × Memᴰ e.from ids
        × Memᴰ e.to ids
        × ((relations ≡ []) ⊎ Memᴰ e.relation relations))
unfolding list_edges
mem-list_edges m [] relations e h =
    (λ mem. absurd (Memᴰ.not-nil mem), λ q. absurd (Memᴰ.not-nil q.1))
mem-list_edges m (i ∷ is) relations e h =
    let ids = i ∷ is in
    let test = λ (x : Edge). in_set ids x.from && in_set ids x.to && related relations x in
    (
      λ mem.
          let (mv, t) = (mem-keep test e (values m.edges)).0 mem in
          (
            (mem-edges m e h).0 mv,
            (in_set_iff ids e.from).0 (ground arith),
            (in_set_iff ids e.to).0 (ground arith),
            (related_iff relations e).0 (ground arith),
          ),
      λ (q, r, s, t). (mem-keep test e (values m.edges)).1 (
        (mem-edges m e h).1 q,
        ground (
          arith,
          (in_set_iff ids e.from).1 r,
          (in_set_iff ids e.to).1 s,
          (related_iff relations e).1 t,
        ),
      ),
    )
