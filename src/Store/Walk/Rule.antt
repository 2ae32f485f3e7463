-- ===== src/Store/Walk/Rule.antt =====
-- An invariant rule for the walk: what each call of the callback keeps holds at the end.
use parchment.Prelude.{
  ℕ, zero, suc, ◌+◌, String, Bool, Option, none, some, List, [], ◌∷◌, ◌≡◌, refl, Memᴰ, Bool-cases,
  if◌then◌else◌, inl, inr, ltb, leb, ◌&&◌,
}
use parchment.Store.{Edge}
use parchment.Store.Edges.{Direction, in_set}
use parchment.Store.Walk.{Walked, target}
use parchment.Store.Walk.Cut.{cut_visit, cut_edges, cut_recursive}

-- `e` leads the walk from `a` to `b`
abbrev pub Link : List Edge → String → Direction → String → String → Type 0
Link edges rel dir a b = (e : Edge) × Memᴰ e edges × (target a rel dir e ≡ some b)

-- `b` can be reached from `a` along one link or more
pub data Reach (edges : List Edge) (rel : String) (dir : Direction) (a : String)
    : String → Type 0 where
  link : {b : String} → Link edges rel dir a b → Reach edges rel dir a b
  more : {b c : String} → Reach edges rel dir a b → Link edges rel dir b c → Reach edges rel dir a c

module _ {S : Type 0} (fn : ℕ → Edge → S → Bool × S) (edges : List Edge) (rel : String)
    (dir : Direction) (max_depth : ℕ) (P : Walked S → Type 0) (Good : String → Type 0)
    (good : (a b : String) → Good a → Link edges rel dir a b → Good b)
    (step : (depth : ℕ) (e : Edge) (t : String) (w : Walked S)
      → P w
      → Good t
      → Memᴰ e edges
      → (a : String) → target a rel dir e ≡ some t
      → P (record { visited = t ∷ w.visited; state = (fn (depth + 1) e w.state).1 })) where
  abbrev pub Kept : (String → ℕ → Walked S → Walked S) → Type 0
  Kept recur = (t : String) (depth : ℕ) (w : Walked S) → Good t → P w → P (recur t depth w)

  pub visit_rule :
      (recur : String → ℕ → Walked S → Walked S)
      → Kept recur
      → (id : String) → Good id
      → (depth : ℕ) (e : Edge) → Memᴰ e edges
      → (o : Option String) → target id rel dir e ≡ o
      → (w : Walked S) → P w
      → P (cut_visit fn recur depth e o w).1
  unfolding cut_visit
  visit_rule recur kept id g depth e m none q w p = p
  visit_rule recur kept id g depth e m (some t) q w p =
      let gt = good id t g (e, m, q) in
      let p' = step depth e t w p gt m id q in
      elim (Bool-cases (in_set w.visited t)) [
        | inl old ↦ rw (old, if◌then◌else◌) p
        | inr new ↦
            rw (new, if◌then◌else◌)
              (elim (Bool-cases (fn (depth + 1) e w.state).0) [
                | inl go ↦ rw (go, if◌then◌else◌) (kept t (depth + 1) _ gt p')
                | inr stop ↦ rw (stop, if◌then◌else◌) p'
              ])
      ]

  pub edges_rule :
      (recur : String → ℕ → Walked S → Walked S)
      → Kept recur
      → (id : String) → Good id
      → (depth : ℕ) (es : List Edge) → ((e : Edge) → Memᴰ e es → Memᴰ e edges)
      → (w : Walked S) → P w
      → P (cut_edges fn recur (target id rel dir) depth es w)
  unfolding cut_edges
  edges_rule recur kept id g depth [] sub w p = p
  edges_rule recur kept id g depth (e ∷ es) sub w p =
      let p' =
        visit_rule recur kept id g depth e (sub e (Memᴰ.head refl)) (target id rel dir e) refl w
          p in
      elim (Bool-cases (cut_visit fn recur depth e (target id rel dir e) w).0) [
        | inl go ↦
            rw (go, cut_edges)
              (edges_rule recur kept id g depth es (λ x m. sub x (Memᴰ.tail m)) _ p')
        | inr stop ↦ rw (stop, cut_edges) p'
      ]

  pub walk_rule :
      (fuel : ℕ) (id : String) (depth : ℕ) (w : Walked S)
      → Good id
      → P w
      → P (cut_recursive fn edges rel dir max_depth fuel id depth w)
  unfolding cut_recursive
  walk_rule zero id depth w g p = p
  walk_rule (suc fuel) id depth w g p =
      let q =
        edges_rule (cut_recursive fn edges rel dir max_depth fuel)
          (λ t d w' gt pw. walk_rule fuel t d w' gt pw) id g depth edges (λ x m. m) w p in
      elim (Bool-cases (ltb 0 max_depth && leb max_depth depth)) [
        | inl deep ↦ rw (deep, if◌then◌else◌) p
        | inr on ↦ rw (on, if◌then◌else◌) q
      ]
