-- ===== src/Protocol/Link/Safe.antt =====
-- No target reaches the source: what the cycle guard establishes, and what every write of a link keeps.
use mathlib.Core.List.Memᴰ
use mathlib.Core.Bool.{true≢false}
use mathlib.Core.Option.{none-ne-some}
use parchment.Prelude.{
  ℕ, String, false, none, List, [], ◌∷◌, ◌≡◌, ◌≢◌, inl, inr, refl, sym, ap, ◌∙◌, if◌then◌else◌,
  Bool-cases, Memᴰ,
}
use parchment.Store.{MemoryStore, Edge}
use parchment.Store.Edges.{add_edge, remove_edge, in_set}
use parchment.Protocol.Cycle.{would_cycle}
use parchment.Protocol.Cycle.Guard.{PathOf, would_cycle-PathOf}
use parchment.Protocol.Cycle.Acyclic.{IsAcyclic, add_edge-IsAcyclic, path-Split, PathOf-remove_edge}
use parchment.Protocol.Checks.{cycle_detected, first_cycle}
use parchment.Protocol.Link.{edge_to, link_each}

module _ (relation source : String) (tids : List String) where
  pub record Safe (m : MemoryStore) : Type 0 where
    pub acyclic : IsAcyclic m relation
    pub apart : (t : String) → Memᴰ t tids → source ≢ t
    pub unreached : (t : String) → Memᴰ t tids → ¬ PathOf m relation t source

  pub Safe-edges : (m m' : MemoryStore) → m'.edges ≡ m.edges → Safe m → Safe m'
  Safe-edges m m' e h = record {
    acyclic = λ a. rw e (h.acyclic a);
    apart = h.apart;
    unreached = λ t i. rw e (h.unreached t i);
  }

  -- a new link from the source to a target leads no target to the source
  pub Safe-add_edge :
      (m : MemoryStore) (weight : ℕ) (tid : String)
      → Memᴰ tid tids
      → Safe m
      → Safe (add_edge m (edge_to source relation weight tid))
  Safe-add_edge m weight tid i h = record {
    acyclic = add_edge-IsAcyclic m relation (edge_to source relation weight tid) h.acyclic passes;
    apart = h.apart;
    unreached = λ t j p.
        elim (path-Split m relation (edge_to source relation weight tid) t source p) [
          | inl old ↦ h.unreached t j old
          | inr (inl q, _) ↦ h.apart t j (sym q)
          | inr (inr r, _) ↦ h.unreached t j r
        ];
  }
    where
      passes : (would_cycle m relation source tid).0 ≡ false
      passes = elim (Bool-cases (would_cycle m relation source tid).0) [
        | inl c ↦ absurd (elim ((would_cycle-PathOf m relation source tid).0 c) [
          | inl q ↦ h.apart tid i q
          | inr r ↦ h.unreached tid i r
        ])
        | inr f ↦ f
      ]

  pub Safe-remove_edge : (m : MemoryStore) (e : Edge) → Safe m → Safe (remove_edge m e)
  Safe-remove_edge m e h = record {
    acyclic = λ a p. h.acyclic a (PathOf-remove_edge m relation e a a p);
    apart = h.apart;
    unreached = λ t i p. h.unreached t i (PathOf-remove_edge m relation e t source p);
  }

  pub Safe-link_each :
      (weight : ℕ) (ts : List String) (existing : List String) (m : MemoryStore)
      → ((t : String) → Memᴰ t ts → Memᴰ t tids)
      → Safe m
      → Safe (link_each source relation weight ts existing m).1
  unfolding link_each
  Safe-link_each weight [] existing m sub h = h
  Safe-link_each weight (t ∷ ts) existing m sub h =
      let later = λ (x : String) (i : Memᴰ x ts). sub x (Memᴰ.tail i) in
      elim (Bool-cases (in_set existing t)) [
        | inl e ↦ rw (e, if◌then◌else◌) (Safe-link_each weight ts existing m later h)
        | inr e ↦
            rw (e, if◌then◌else◌)
              (Safe-link_each weight ts (t ∷ existing) _ later
                (Safe-add_edge m weight t (sub t (Memᴰ.head refl)) h))
      ]

-- the guard found no cycle
pub first_cycle-Safe :
    (m : MemoryStore) (relation source : String) (tids : List String)
    → IsAcyclic m relation
    → first_cycle m relation source tids ≡ none
    → Safe relation source tids m
unfolding first_cycle
first_cycle-Safe m relation source tids acyclic h = record {
  acyclic = acyclic;
  apart = λ t i q.
      true≢false (sym ((would_cycle-PathOf m relation source t).1 (inl q)) ∙ guarded tids h t i);
  unreached = λ t i r.
      true≢false (sym ((would_cycle-PathOf m relation source t).1 (inr r)) ∙ guarded tids h t i);
}
  where
    guarded :
        (ts : List String)
        → first_cycle m relation source ts ≡ none
        → (t : String) → Memᴰ t ts
        → (would_cycle m relation source t).0 ≡ false
    guarded [] h t i = absurd (Memᴰ.not-nil i)
    guarded (x ∷ ts) h t i = elim (Bool-cases (would_cycle m relation source x).0) [
      | inl c ↦ absurd (
          none-ne-some (cycle_detected (would_cycle m relation source x).1)
            (sym (rw (c, if◌then◌else◌) at h)))
      | inr f ↦ elim (Memᴰ.cases_cons i) [
        | inl q ↦ ap (λ z. (would_cycle m relation source z).0) q ∙ f
        | inr later ↦ guarded ts (rw (f, if◌then◌else◌) at h) t later
      ]
    ]
