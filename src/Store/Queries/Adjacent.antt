-- ===== src/Store/Queries/Adjacent.antt =====
-- Exactly the artifacts at the other ends of the edges are found.
use mathlib.Core.List.Memᴰ
use parchment.Prelude.{
  String, some, List, [], ◌∷◌, ◌≡◌, ◌↔◌, ◌⊎◌, inl, inr, refl, sym, ap, ◌∙◌, map, Memᴰ, Option-cases,
}
use parchment.Dict.{lookup}
use parchment.Artifact.{Artifact}
use parchment.Store.{MemoryStore, Edge}
use parchment.Store.Edges.{Direction, neighbors}
use parchment.Store.Edges.Neighbors.{HasKeys, Stored, At, mem-neighbors}
use parchment.Store.Queries.{with_found, find_all, far_end, neighbor_artifacts}

-- the artifact at one of the ends
abbrev AtEnd : MemoryStore → (Edge → String) → List Edge → Artifact → Type 0
AtEnd m to edges art = (e : Edge) × Memᴰ e edges × (lookup m.artifacts (to e) ≡ some art)

mem-find_all :
    (m : MemoryStore) (to : Edge → String) (edges : List Edge) (art : Artifact)
    → Memᴰ art (find_all m (map to edges)) ↔ AtEnd m to edges art
unfolding find_all with_found
mem-find_all m to [] art = (λ i. absurd (Memᴰ.not-nil i), λ (e, i, q). absurd (Memᴰ.not-nil i))
mem-find_all m to (x ∷ edges) art =
    let ih = mem-find_all m to edges art in
    (
      λ i. elim (Option-cases (lookup m.artifacts (to x))) [
        | inl n ↦ let (e, j, q) = ih.0 (rw (n, with_found) at i) in (e, Memᴰ.tail j, q)
        | inr (a, s) ↦ elim (Memᴰ.cases_cons (rw (s, with_found) at i)) [
          | inl q ↦ (x, Memᴰ.head refl, s ∙ ap some (sym q))
          | inr r ↦ let (e, j, q) = ih.0 r in (e, Memᴰ.tail j, q)
        ]
      ],
      λ (e, i, q). elim (Memᴰ.cases_cons i) [
        | inl same ↦
            let here : lookup m.artifacts (to x) ≡ some art =
              ap (λ z. lookup m.artifacts (to z)) (sym same) ∙ q in
            rw (here, with_found) (Memᴰ.head refl)
        | inr later ↦ elim (Option-cases (lookup m.artifacts (to x))) [
          | inl n ↦ rw (n, with_found) (ih.1 (e, later, q))
          | inr (a, s) ↦ rw (s, with_found) (Memᴰ.tail (ih.1 (e, later, q)))
        ]
      ],
    )

-- `NeighborArtifacts` gives exactly the artifacts that stand at the end `far_end` of a stored edge of the
-- relation at the node: at `to`, except for the incoming direction, where it is `from`.
pub mem-neighbor_artifacts :
    (m : MemoryStore) (id rel : String) (dir : Direction) (art : Artifact)
    → HasKeys m.edges
    → Memᴰ art (neighbor_artifacts m id rel dir) ↔ (
        (e : Edge) × Stored m e
        × ((rel ≡ "") ⊎ (e.relation ≡ rel))
        × At id dir e
        × (lookup m.artifacts (far_end dir e) ≡ some art))
unfolding neighbor_artifacts
mem-neighbor_artifacts m id rel dir art h =
    let f = mem-find_all m (far_end dir) (neighbors m id rel dir) art in
    (
      λ i.
          let (e, j, q) = f.0 i in
          let (s, r, a) = (mem-neighbors m id rel dir e h).0 j in (e, s, r, a, q),
      λ (e, s, r, a, q). f.1 (e, (mem-neighbors m id rel dir e h).1 (s, r, a), q),
    )
