-- ===== src/Protocol/Cycle/Acyclic.antt =====
-- A graph to which only edges are added that pass the guard never has a cycle.
use mathlib.Core.List.Memᴰ
use mathlib.Core.Bool.{true≢false}
use parchment.Prelude.{
  String, false, some, [], ◌∷◌, ◌≡◌, ◌⊎◌, inl, inr, sym, ◌∙◌, arith, if◌then◌else◌, eq_iff,
  String-cases, Memᴰ, subst,
}
use parchment.Dict.{Dict, values, insert, remove}
use parchment.Store.{MemoryStore, Edge}
use parchment.Store.Edges.{outgoing, add_edge, remove_edge, key_of}
use parchment.Store.Walk.{target}
use parchment.Store.Walk.Rule.{Link, link, more}
use parchment.Protocol.Cycle.{would_cycle}
use parchment.Protocol.Cycle.Guard.{PathOf, would_cycle-PathOf}

-- no node reaches itself
abbrev pub IsAcyclic : MemoryStore → String → Type 0
IsAcyclic m relation = (a : String) → ¬ PathOf m relation a a

mem-values-insert :
    (d : Dict Edge) (k : String) (v x : Edge)
    → Memᴰ x (values (insert d k v))
    → (x ≡ v) ⊎ Memᴰ x (values d)
unfolding insert
mem-values-insert [] k v x h = inl (Memᴰ.eq_of_singleton h)
mem-values-insert ((j, w) ∷ d) k v x h = elim (String-cases j k) [
  | inl (_, e) ↦ elim (Memᴰ.cases_cons (rw (e, if◌then◌else◌) at h)) [
    | inl q ↦ inl q
    | inr r ↦ inr (Memᴰ.tail r)
  ]
  | inr (_, e) ↦ elim (Memᴰ.cases_cons (rw (e, if◌then◌else◌) at h)) [
    | inl q ↦ inr (Memᴰ.head q)
    | inr r ↦ elim (mem-values-insert d k v x r) [ inl q ↦ inl q | inr s ↦ inr (Memᴰ.tail s) ]
  ]
]

target-ends :
    (a b rel : String) (e : Edge) → target a rel outgoing e ≡ some b → (a ≡ e.from) × (b ≡ e.to)
unfolding target
target-ends a b rel e h = ground (arith, eq_iff e.from a)

module _ (m : MemoryStore) (rel : String) where
  -- equal, or connected
  abbrev pub OnPath : String → String → Type 0
  OnPath a b = (a ≡ b) ⊎ PathOf m rel a b

  pub join : {a b c : String} → OnPath a b → OnPath b c → OnPath a c
  join {a} {b} {c} (inl p) y = subst (λ z. OnPath z c) (sym p) y
  join {a} (inr r) (inl q) = inr (subst (PathOf m rel a) q r)
  join (inr r) (inr s) = inr (append r s)
    where
      append : {a b c : String} → PathOf m rel a b → PathOf m rel b c → PathOf m rel a c
      append r (link l) = more r l
      append r (more s l) = more (append r s) l

module _ (m : MemoryStore) (rel : String) (e : Edge) where
  abbrev Split : String → String → Type 0
  Split a b = PathOf m rel a b ⊎ (OnPath m rel a e.from × OnPath m rel e.to b)

  Link-Split :
      (a b : String)
      → Link (values (add_edge m e).edges) rel outgoing a b
      → Link (values m.edges) rel outgoing a b ⊎ ((a ≡ e.from) × (b ≡ e.to))
  unfolding add_edge
  Link-Split a b (x, mem, q) = elim (mem-values-insert m.edges (key_of e) e x mem) [
    | inl same ↦ inr (target-ends a b rel e (subst (λ z. target a rel outgoing z ≡ some b) same q))
    | inr old ↦ inl (x, old, q)
  ]

  extend :
      {a b c : String}
      → OnPath m rel a b
      → Link (values m.edges) rel outgoing b c
      → PathOf m rel a c
  extend {a} {b} {c} (inl q) l =
      link (subst (λ z. Link (values m.edges) rel outgoing z c) (sym q) l)
  extend (inr r) l = more r l

  pub path-Split : (a b : String) → PathOf (add_edge m e) rel a b → Split a b
  path-Split a b (link l) = elim (Link-Split a b l) [
    | inl old ↦ inl (link old)
    | inr (p, q) ↦ inr (inl p, inl (sym q))
  ]
  path-Split a c (more {b} r l) = elim (Link-Split b c l) [
    | inl old ↦ elim (path-Split a b r) [
      | inl s ↦ inl (more s old)
      | inr (s, t) ↦ inr (s, inr (extend t old))
    ]
    | inr (p, q) ↦ elim (path-Split a b r) [
      | inl s ↦ inr (inr (subst (PathOf m rel a) p s), inl (sym q))
      | inr (s, t) ↦ inr (s, inl (sym q))
    ]
  ]

-- If the edges of a relation form no cycle and the guard passes an edge, then they form none after
-- `AddEdge` either, whether the edge is new or replaces the one under its key.
pub add_edge-IsAcyclic :
    (m : MemoryStore) (relation : String) (e : Edge)
    → IsAcyclic m relation
    → (would_cycle m relation e.from e.to).0 ≡ false
    → IsAcyclic (add_edge m e) relation
add_edge-IsAcyclic m relation e acyclic pass a p = elim (path-Split m relation e a a p) [
  | inl old ↦ acyclic a old
  | inr (s, t) ↦
      true≢false
        (sym ((would_cycle-PathOf m relation e.from e.to).1 (closes (join m relation t s))) ∙ pass)
]
  where
    closes : OnPath m relation e.to e.from → (e.from ≡ e.to) ⊎ PathOf m relation e.to e.from
    closes (inl q) = inl (sym q)
    closes (inr r) = inr r

mem-values-remove :
    (d : Dict Edge) (k : String) (x : Edge) → Memᴰ x (values (remove d k)) → Memᴰ x (values d)
unfolding remove
mem-values-remove [] k x i = i
mem-values-remove ((j, v) ∷ d) k x i = elim (String-cases j k) [
  | inl (_, e) ↦ Memᴰ.tail (mem-values-remove d k x (rw (e, if◌then◌else◌) at i))
  | inr (_, e) ↦ elim (Memᴰ.cases_cons (rw (e, if◌then◌else◌) at i)) [
    | inl q ↦ Memᴰ.head q
    | inr r ↦ Memᴰ.tail (mem-values-remove d k x r)
  ]
]

pub PathOf-remove_edge :
    (m : MemoryStore) (relation : String) (e : Edge) (a b : String)
    → PathOf (remove_edge m e) relation a b
    → PathOf m relation a b
unfolding remove_edge
PathOf-remove_edge m relation e a b (link (x, i, q)) =
    link (x, mem-values-remove m.edges (key_of e) x i, q)
PathOf-remove_edge m relation e a c (more {b} r (x, i, q)) =
    more (PathOf-remove_edge m relation e a b r) (x, mem-values-remove m.edges (key_of e) x i, q)

pub remove_edge-IsAcyclic :
    (m : MemoryStore) (relation : String) (e : Edge)
    → IsAcyclic m relation
    → IsAcyclic (remove_edge m e) relation
remove_edge-IsAcyclic m relation e h a p = h a (PathOf-remove_edge m relation e a a p)
