-- ===== src/Protocol/Link/Above.antt =====
-- The links of a guarded parent add nothing above it.
use mathlib.Core.Option.{some-injective}
use parchment.Prelude.{
  ℕ, zero, suc, String, some, List, [], ◌∷◌, ◌≡◌, ◌⊎◌, inl, inr, sym, ap, ◌∙◌, subst, if◌then◌else◌,
  Bool-cases, Memᴰ, String-cases, eq_iff, arith,
}
use parchment.Dict.{lookup, insert, lookup→mem, lookup-insert_self, lookup-insert_ne}
use parchment.Store.{MemoryStore, Edge}
use parchment.Store.Edges.{add_edge, in_set, key_of, outgoing}
use parchment.Store.Walk.{target}
use parchment.Store.Walk.Rule.{link}
use parchment.Protocol.Rules.{rel_parent_of}
use parchment.Protocol.Cycle.Guard.{PathOf}
use parchment.Protocol.Cycle.Acyclic.{OnPath, join}
use parchment.Protocol.Transition.Rule.{Parent}
use parchment.Protocol.Transition.Ends.{Within}
use parchment.Protocol.Link.{edge_to, link_each}
use parchment.Protocol.Link.Safe.{Safe}

-- a stored edge is the one added or was stored before
Parent-add_edge :
    (m : MemoryStore) (e : Edge) (p c : String)
    → Parent (add_edge m e).edges p c
    → Parent m.edges p c ⊎ ((p ≡ e.from) × (c ≡ e.to))
unfolding add_edge
Parent-add_edge m e p c (x, stored, rel, from, at) = elim (String-cases (key_of e) (key_of x)) [
  | inl (same, _) ↦
      let is_new = some-injective e x (
        sym (lookup-insert_self m.edges (key_of e) e)
        ∙ ap (lookup (insert m.edges (key_of e) e)) same
        ∙ stored) in
      inr (sym from ∙ ap (λ y. y.from) (sym is_new), sym at ∙ ap (λ y. y.to) (sym is_new))
  | inr (ne, _) ↦
      inl (x, sym (lookup-insert_ne m.edges (key_of e) (key_of x) e ne) ∙ stored, rel, from, at)
]

Parent-link_each :
    (source relation : String) (weight : ℕ) (ts existing : List String) (m : MemoryStore)
    (p c : String)
    → Parent (link_each source relation weight ts existing m).1.edges p c
    → Parent m.edges p c ⊎ ((p ≡ source) × Memᴰ c ts)
unfolding link_each
Parent-link_each source relation weight [] existing m p c q = inl q
Parent-link_each source relation weight (t ∷ ts) existing m p c q =
    elim (Bool-cases (in_set existing t)) [
      | inl seen ↦
          elim (Parent-link_each source relation weight ts existing m p c
            (rw (seen, if◌then◌else◌) at q)) [
              | inl old ↦ inl old
              | inr (s, i) ↦ inr (s, Memᴰ.tail i)
            ]
      | inr new ↦
          elim (Parent-link_each source relation weight ts (t ∷ existing)
            (add_edge m (edge_to source relation weight t)) p c (rw (new, if◌then◌else◌) at q)) [
              | inl old ↦ elim (Parent-add_edge m (edge_to source relation weight t) p c old) [
                | inl older ↦ inl older
                | inr (s, at) ↦ inr (s, Memᴰ.head at)
              ]
              | inr (s, i) ↦ inr (s, Memᴰ.tail i)
            ]
    ]

target-parent :
    (e : Edge) → e.relation ≡ rel_parent_of → target e.from rel_parent_of outgoing e ≡ some e.to
unfolding target
target-parent e rel = ground (arith, eq_iff e.relation rel_parent_of, eq_iff e.from e.from)

PathOf-Parent : (m : MemoryStore) (p c : String) → Parent m.edges p c → PathOf m rel_parent_of p c
PathOf-Parent m p c (e, stored, rel, from, at) = link (
  e,
  lookup→mem m.edges (key_of e) e stored,
  subst (λ z. target z rel_parent_of outgoing e ≡ some c) from (target-parent e rel ∙ ap some at),
)

module _ (m : MemoryStore) (source : String) (tids : List String)
    (safe : Safe rel_parent_of source tids m) (weight : ℕ) (existing : List String) where
  abbrev linked : MemoryStore
  linked = (link_each source rel_parent_of weight tids existing m).1

  -- above the source there is no new parent
  Parent-above :
      (p c : String)
      → OnPath m rel_parent_of c source
      → Parent linked.edges p c
      → Parent m.edges p c
  Parent-above p c above q =
      elim (Parent-link_each source rel_parent_of weight tids existing m p c q) [
        | inl old ↦ old
        | inr (_, i) ↦ elim above [
          | inl same ↦ absurd (safe.apart c i (sym same))
          | inr path ↦ absurd (safe.unreached c i path)
        ]
      ]

  pub Within-linked :
      (h : ℕ) (c : String)
      → OnPath m rel_parent_of c source
      → Within m.edges h c
      → Within linked.edges h c
  Within-linked zero c above w = λ p q. w p (Parent-above p c above q)
  Within-linked (suc h) c above w = λ p q.
      let old = Parent-above p c above q in
      Within-linked h p (join m rel_parent_of (inr (PathOf-Parent m p c old)) above) (w p old)
