-- ===== src/Store/Walk.antt =====
-- memstore.go: the depth-first walk.
pub mod Cut
pub mod Rule
pub mod Unseen
pub mod Cover
pub mod Total
use parchment.Prelude.{
  ℕ, zero, suc, ◌+◌, ◌≤◌, String, Bool, true, false, ◌&&◌, ◌||◌, not, Option, none, some, List, [],
  ◌∷◌, ◌==◌, ltb, leb, if◌then◌else◌, length,
}
use parchment.Dict.{values}
use parchment.Store.{MemoryStore, Edge}
use parchment.Store.Edges.{Direction, outgoing, incoming, both, of_relation, in_set}

-- The end of an edge to which the walk goes on from `id`, if it takes the edge.
unfoldable pub target : String → String → Direction → Edge → Option String
target id rel outgoing e = if of_relation rel e && e.from == id then some e.to else none
target id rel incoming e = if of_relation rel e && e.to == id then some e.from else none
target id rel both e =
    if of_relation rel e
    then if e.from == id then some e.to else if e.to == id then some e.from else none
    else none

-- Each nested call has visited one more end of an edge, so this is fuel enough (Walk/Total).
unfoldable pub walk_fuel : List Edge → ℕ
walk_fuel edges = suc (length edges + length edges)

-- `visited`, and the state that the callback captured
pub record Walked (S : Type 0) : Type 0 where
  pub visited : List String
  pub state : S

abbrev pub going_on : {S : Type 0} → Option (Walked S) → Option (Bool × Walked S)
going_on none = none
going_on (some w) = some (true, w)

abbrev pub captured : {S : Type 0} → Option (Walked S) → Option S
captured none = none
captured (some w) = some w.state

module _ {S : Type 0} (fn : ℕ → Edge → S → Bool × S) where
  abbrev pub Recur : Type 0
  Recur = String → ℕ → Walked S → Option (Walked S)

  -- One round of the loop at an edge that leads to `t`: whether the loop goes on, and what follows.
  -- `recur` is the call of walkRecursive; `none` stands for fuel that ran out.
  enter : Recur → ℕ → Edge → String → Walked S → Option (Bool × Walked S)
  enter recur depth e t w =
      if in_set w.visited t
      then some (true, w)
      else (let (cont, s) = fn (depth + 1) e w.state in
          let w' : Walked S = record { visited = t ∷ w.visited; state = s } in
          if cont then going_on (recur t (depth + 1) w') else some (false, w'))

  pub visit : Recur → ℕ → Edge → Option String → Walked S → Option (Bool × Walked S)
  unfolding enter
  visit recur depth e none w = some (true, w)
  visit recur depth e (some t) w = enter recur depth e t w

  -- the `for` loop over the edges, which all nested calls visit in one order; a `return` in it leaves the loop
  pub walk_edges : Recur → (Edge → Option String) → ℕ → List Edge → Walked S → Option (Walked S)
  unfolding visit
  walk_edges recur to depth [] w = some w
  walk_edges recur to depth (e ∷ es) w = elim (visit recur depth e (to e) w) [
    | none ↦ none
    | some p ↦ elim p.0 [ true ↦ walk_edges recur to depth es p.1 | false ↦ some p.1 ]
  ]

  module _ (edges : List Edge) (rel : String) (dir : Direction) (max_depth : ℕ) where
    unfoldable pub walk_recursive : ℕ → Recur
    unfolding walk_edges
    walk_recursive zero id depth w = none
    walk_recursive (suc fuel) id depth w =
        let rest = walk_edges (walk_recursive fuel) (target id rel dir) depth edges w in
        if ltb 0 max_depth && leb max_depth depth then some w else rest

  unfoldable pub walk : MemoryStore → String → String → Direction → ℕ → S → Option S
  unfolding walk_recursive walk_fuel
  walk m root rel dir max_depth s =
      let edges = values m.edges in
      captured (
        walk_recursive edges rel dir max_depth (walk_fuel edges) root 0
          (record { visited = []; state = s }))
