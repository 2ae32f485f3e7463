-- ===== src/Store/Walk/Total.antt =====
-- The walk comes to an end: each nested call has visited one more end of an edge, so the fuel is enough.
use parchment.Prelude.{
  ℕ, zero, suc, ◌+◌, ◌<◌, String, Bool, Option, none, some, List, [], ◌∷◌, ◌≡◌, refl, Memᴰ, arith,
  Bool-cases, if◌then◌else◌, inl, inr, ltb, leb, ◌&&◌, ap,
}
use parchment.Dict.{values}
use parchment.Store.{MemoryStore, Edge}
use parchment.Store.Edges.{Direction, in_set}
use parchment.Store.Walk.{
  Walked, Recur, target, visit, walk_edges, walk_recursive, walk, walk_fuel, going_on, captured,
}
use parchment.Store.Walk.Cut.{cut_visit, cut_edges, cut_recursive}
use parchment.Store.Walk.Rule.{walk_rule, visit_rule}
use parchment.Store.Walk.Unseen.{
  unseen, Within, Within-cons, unseen-Within, unseen-cons_lt, unseen-lt-walk_fuel, ends, mem-ends,
}

module _ {S : Type 0} (fn : ℕ → Edge → S → Bool × S) (edges : List Edge) (rel : String)
    (dir : Direction) (max_depth : ℕ) where
  abbrev cut : ℕ → String → ℕ → Walked S → Walked S
  cut fuel = cut_recursive fn edges rel dir max_depth fuel

  -- with so much fuel the call returns, and what it returns is the walk that is cut off
  abbrev Returns : ℕ → Recur fn → Type 0
  Returns fuel recur =
      (t : String) (d : ℕ) (w : Walked S)
      → unseen w.visited (ends edges) < fuel
      → recur t d w ≡ some (cut fuel t d w)

  -- no call forgets a node
  visit-Within :
      (fuel : ℕ) (id : String) (depth : ℕ) (e : Edge)
      → Memᴰ e edges
      → (w : Walked S)
      → Within w.visited (cut_visit fn (cut fuel) depth e (target id rel dir e) w).1.visited
  visit-Within fuel id depth e m w =
      visit_rule fn edges rel dir max_depth (λ w'. Within w.visited w'.visited) (λ _. Unit {0})
        (λ _ _ _ _. tt) step (cut fuel)
        (λ t d w' g p.
          walk_rule fn edges rel dir max_depth (λ x. Within w.visited x.visited) (λ _. Unit {0})
            (λ _ _ _ _. tt) step fuel t d w' g p)
        id tt depth e m (target id rel dir e) refl w (λ t h. h)
    where
      step :
          (d : ℕ) (x : Edge) (t : String) (w' : Walked S)
          → Within w.visited w'.visited
          → Unit {0}
          → Memᴰ x edges
          → (a : String) → target a rel dir x ≡ some t
          → Within w.visited (t ∷ w'.visited)
      step d x t w' p _ _ a q y h = Within-cons t w'.visited y (p y h)

  visit-Returns :
      (fuel : ℕ) (recur : Recur fn)
      → Returns fuel recur
      → (id : String) (depth : ℕ) (e : Edge) → Memᴰ e edges
      → (o : Option String) → target id rel dir e ≡ o
      → (w : Walked S) → unseen w.visited (ends edges) < suc fuel
      → visit fn recur depth e o w ≡ some (cut_visit fn (cut fuel) depth e o w)
  unfolding visit cut_visit
  visit-Returns fuel recur returns id depth e m none q w u = refl
  visit-Returns fuel recur returns id depth e m (some t) q w u =
      elim (Bool-cases (in_set w.visited t)) [
        | inl old ↦ rw (old, if◌then◌else◌) refl
        | inr new ↦
            let less =
              unseen-cons_lt t w.visited (ends edges) (mem-ends id rel dir edges e t m q) new in
            rw (new, if◌then◌else◌)
              (elim (Bool-cases (fn (depth + 1) e w.state).0) [
                | inl go ↦
                    rw (go, if◌then◌else◌)
                      (ap going_on (returns t (depth + 1) _ (omega (arith, less, u))))
                | inr stop ↦ rw (stop, if◌then◌else◌) refl
              ])
      ]

  edges-Returns :
      (fuel : ℕ) (recur : Recur fn)
      → Returns fuel recur
      → (id : String) (depth : ℕ) (es : List Edge) → ((e : Edge) → Memᴰ e es → Memᴰ e edges)
      → (w : Walked S) → unseen w.visited (ends edges) < suc fuel
      → walk_edges fn recur (target id rel dir) depth es w
        ≡ some (cut_edges fn (cut fuel) (target id rel dir) depth es w)
  unfolding walk_edges cut_edges
  edges-Returns fuel recur returns id depth [] sub w u = refl
  edges-Returns fuel recur returns id depth (e ∷ es) sub w u =
      let inside = sub e (Memᴰ.head refl) in
      let w' = (cut_visit fn (cut fuel) depth e (target id rel dir e) w).1 in
      let grown =
        unseen-Within w.visited w'.visited (ends edges) (visit-Within fuel id depth e inside w) in
      rw
        (
          visit-Returns fuel recur returns id depth e inside (target id rel dir e) refl w u,
          walk_edges,
        )
        (elim (Bool-cases (cut_visit fn (cut fuel) depth e (target id rel dir e) w).0) [
          | inl go ↦
              rw (go, walk_edges, cut_edges)
                (edges-Returns fuel recur returns id depth es (λ x i. sub x (Memᴰ.tail i)) w'
                  (omega (arith, grown, u)))
          | inr stop ↦ rw (stop, walk_edges, cut_edges) refl
        ])

  recursive-Returns : (fuel : ℕ) → Returns fuel (walk_recursive fn edges rel dir max_depth fuel)
  unfolding walk_recursive cut_recursive
  recursive-Returns zero t d w u = absurd (omega (arith, u))
  recursive-Returns (suc fuel) t d w u = elim (Bool-cases (ltb 0 max_depth && leb max_depth d)) [
    | inl deep ↦ rw (deep, if◌then◌else◌) refl
    | inr on ↦
        rw (on, if◌then◌else◌)
          (edges-Returns fuel (walk_recursive fn edges rel dir max_depth fuel)
            (recursive-Returns fuel) t d edges (λ e m. m) w u)
  ]

-- the walk returns, whatever the graph, the callback and the bound on the depth are
pub walk_returns :
    {S : Type 0} (fn : ℕ → Edge → S → Bool × S) (m : MemoryStore) (root rel : String)
    (dir : Direction) (max_depth : ℕ) (s : S)
    → walk fn m root rel dir max_depth s
      ≡ some
          (cut_recursive fn
            (values m.edges)
            rel
            dir
            max_depth
            (walk_fuel (values m.edges))
            root
            0
            (record { visited = []; state = s })).state
unfolding walk
walk_returns fn m root rel dir max_depth s = ap captured (
    recursive-Returns fn (values m.edges) rel dir max_depth (walk_fuel (values m.edges)) root 0
      (record { visited = []; state = s }) (unseen-lt-walk_fuel [] (values m.edges)))
