-- ===== src/Store/Walk/Cut.antt =====
-- The walk, cut off in silence where its fuel ends: a total function, which the proofs follow. With enough
-- fuel the walk is this one (Walk/Total).
use parchment.Prelude.{
  ℕ, zero, suc, ◌+◌, String, Bool, true, false, ◌&&◌, Option, none, some, List, [], ◌∷◌, ltb, leb,
  if◌then◌else◌,
}
use parchment.Store.{Edge}
use parchment.Store.Edges.{Direction, in_set}
use parchment.Store.Walk.{Walked, target}

module _ {S : Type 0} (fn : ℕ → Edge → S → Bool × S) where
  -- One round of the loop at an edge that leads to `t`: whether the loop goes on, and what follows.
  -- `recur` is the call of walkRecursive.
  cut_enter : (String → ℕ → Walked S → Walked S) → ℕ → Edge → String → Walked S → Bool × Walked S
  cut_enter recur depth e t w =
      if in_set w.visited t
      then (true, w)
      else (let (cont, s) = fn (depth + 1) e w.state in
          let w' : Walked S = record { visited = t ∷ w.visited; state = s } in
          (cont, if cont then recur t (depth + 1) w' else w'))

  unfoldable pub cut_visit :
      (String → ℕ → Walked S → Walked S) → ℕ → Edge → Option String → Walked S → Bool × Walked S
  unfolding cut_enter
  cut_visit recur depth e none w = (true, w)
  cut_visit recur depth e (some t) w = cut_enter recur depth e t w

  -- the `for` loop over the edges; a `return` in it leaves the loop
  unfoldable pub cut_edges :
      (String → ℕ → Walked S → Walked S)
      → (Edge → Option String)
      → ℕ
      → List Edge
      → Walked S
      → Walked S
  unfolding cut_visit
  cut_edges recur to depth [] w = w
  cut_edges recur to depth (e ∷ es) w =
      let (cont, w') = cut_visit recur depth e (to e) w in
      elim cont [ true ↦ cut_edges recur to depth es w' | false ↦ w' ]

  module _ (edges : List Edge) (rel : String) (dir : Direction) (max_depth : ℕ) where
    unfoldable pub cut_recursive : ℕ → String → ℕ → Walked S → Walked S
    unfolding cut_edges
    cut_recursive zero id depth w = w
    cut_recursive (suc fuel) id depth w =
        let rest = cut_edges (cut_recursive fuel) (target id rel dir) depth edges w in
        if ltb 0 max_depth && leb max_depth depth then w else rest
