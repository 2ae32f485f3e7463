-- ===== src/Protocol/Cycle/Guard.antt =====
-- The guard decides reachability: it answers true exactly for an edge that would close a cycle.
use mathlib.Core.Bool.{true≢false}
use parchment.Prelude.{
  String, true, false, some, [], ◌∷◌, ◌≡◌, ◌↔◌, ◌⊎◌, inl, inr, refl, sym, arith, if◌then◌else◌,
  eq_iff, String-cases, Bool-cases, subst, any_of, ◌∙◌, ◌≢◌,
}
use parchment.Dict.{values}
use parchment.Store.{MemoryStore, Edge}
use parchment.Store.Edges.{outgoing, in_set}
use parchment.Store.Walk.{Walked, walk, walk_fuel, target}
use parchment.Store.Walk.Cut.{cut_recursive}
use parchment.Store.Walk.Rule.{Link, Reach, link, more, walk_rule}
use parchment.Store.Walk.Cover.{walk_reaches}
use parchment.Store.Walk.Unseen.{unseen-lt-walk_fuel}
use parchment.Store.Walk.Total.{walk_returns}
use parchment.Protocol.Cycle.{Search, search_at, look_for, would_cycle}

-- `b` can be reached from `a` along edges of the relation (along any edges for the empty relation)
abbrev pub PathOf : MemoryStore → String → String → String → Type 0
PathOf m relation = Reach (values m.edges) relation outgoing

target-outgoing :
    (a rel : String) (e : Edge) (t : String) → target a rel outgoing e ≡ some t → e.to ≡ t
unfolding target
target-outgoing a rel e t h = ground arith

module _ (m : MemoryStore) (rel from to : String) where
  abbrev walked : Walked Search
  walked =
      cut_recursive (look_for from) (values m.edges) rel outgoing 0 (walk_fuel (values m.edges)) to
        0 (record { visited = []; state = search_at to })

  -- what was found is a path, and what was not found was not visited
  record Sound (w : Walked Search) : Type 0 where
    found_path : w.state.found ≡ true → PathOf m rel to from
    missed : w.state.found ≡ false → in_set w.visited from ≡ false

  step-Sound :
      from ≢ to
      → (e : Edge) (t a : String) (w : Walked Search) → Sound w
      → (t ≡ to) ⊎ PathOf m rel to t
      → target a rel outgoing e ≡ some t
      → Sound (record { visited = t ∷ w.visited; state = (look_for from 0 e w.state).1 })
  unfolding any_of
  step-Sound apart e t a w p g q =
      let same = target-outgoing a rel e t q in
      record {
        found_path = λ h. elim (Bool-cases w.state.found) [
          | inl old ↦ p.found_path old
          | inr new ↦
              let hit : t ≡ from = sym same ∙ (eq_iff e.to from).0 (ground arith) in
              elim g [
                | inl root ↦ absurd (apart (sym hit ∙ root))
                | inr r ↦ subst (PathOf m rel to) hit r
              ]
        ];
        missed = λ h. ground (arith, p.missed, same, eq_iff e.to from, eq_iff t from);
      }

  walked-Sound : from ≢ to → Sound walked
  unfolding any_of
  walked-Sound apart =
      walk_rule (look_for from) (values m.edges) rel outgoing 0 Sound
        (λ t. (t ≡ to) ⊎ PathOf m rel to t)
        (λ a b g l. elim g [
          | inl q ↦ inr (link (subst (λ z. Link (values m.edges) rel outgoing z b) q l))
          | inr r ↦ inr (more r l)
        ])
        (λ d e t w p g mem a q. step-Sound apart e t a w p g q) (walk_fuel (values m.edges)) to 0
        (record { visited = []; state = search_at to }) (inl refl)
        (record { found_path = λ h. cc; missed = λ h. refl })

  found-of-path : from ≢ to → PathOf m rel to from → walked.state.found ≡ true
  found-of-path apart r =
      elim (walk_reaches (values m.edges) rel outgoing (look_for from) (λ s. s.found)
        (λ d e s h. ground arith) (λ d e s h. ground arith) (walk_fuel (values m.edges)) to
        (search_at to) (unseen-lt-walk_fuel [] (values m.edges))) [
          | inl h ↦ h
          | inr all ↦ elim (Bool-cases walked.state.found) [
            | inl h ↦ h
            | inr h ↦ absurd (true≢false (sym (all from r) ∙ (walked-Sound apart).missed h))
          ]
        ]

pub would_cycle-PathOf :
    (m : MemoryStore) (relation from to : String)
    → ((would_cycle m relation from to).0 ≡ true) ↔ ((from ≡ to) ⊎ PathOf m relation to from)
unfolding would_cycle
would_cycle-PathOf m relation from to = elim (String-cases from to) [
  | inl (same, e) ↦ rw (e, if◌then◌else◌) (λ _. inl same, λ _. refl)
  | inr (apart, e) ↦
      rw (e, if◌then◌else◌, walk_returns (look_for from) m to relation outgoing 0 (search_at to))
        (
          λ h. inr ((walked-Sound m relation from to apart).found_path (ground arith)),
          λ g. elim g [
            | inl same ↦ absurd (apart same)
            | inr r ↦ rw (found-of-path m relation from to apart r, if◌then◌else◌) refl
          ],
        )
]

-- The walk under the guard returns, on graphs that have cycles too: its fuel does not run out. The guard
-- then answers true exactly when the edge would close a cycle: its ends are one node, or its source
-- can already be reached from its target along edges of the relation.
pub would_cycle_iff :
    (m : MemoryStore) (relation from to : String)
    → ((s : Search) × (walk (look_for from) m to relation outgoing 0 (search_at to) ≡ some s))
      × (((would_cycle m relation from to).0 ≡ true) ↔ ((from ≡ to) ⊎ PathOf m relation to from))
would_cycle_iff m relation from to = (
  (_, walk_returns (look_for from) m to relation outgoing 0 (search_at to)),
  would_cycle-PathOf m relation from to,
)
