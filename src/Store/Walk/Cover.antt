-- ===== src/Store/Walk/Cover.antt =====
-- The walk is complete: unless the callback stopped it, it visits all that can be reached.
use mathlib.Core.List.Memᴰ
use mathlib.Core.Option.{some-injective}
use mathlib.Core.Bool.{true≢false}
use parchment.Prelude.{
  ℕ, zero, suc, ◌+◌, ◌<◌, String, Bool, true, false, Option, none, some, List, [], ◌∷◌, ◌≡◌, refl,
  Memᴰ, arith, Bool-cases, if◌then◌else◌, inl, inr, ◌⊎◌, subst, sym, ◌∙◌, ap, any_of,
}
use parchment.Store.{Edge}
use parchment.Store.Edges.{Direction, in_set}
use parchment.Store.Walk.{Walked, target}
use parchment.Store.Walk.Cut.{cut_visit, cut_edges, cut_recursive}
use parchment.Store.Walk.Rule.{Link, Reach, link, more, walk_rule, edges_rule}
use parchment.Store.Walk.Unseen.{
  unseen, Within, Within-cons, in_set-cons_self, in_set-cons, unseen-Within, unseen-cons_lt, ends,
  mem-ends,
}

module _ (edges : List Edge) (rel : String) (dir : Direction) where
  -- the set grew from `v` to `v'`, and all that is new has its links within it
  pub record Grown (v v' : List String) : Type 0 where
    pub within : Within v v'
    pub closed :
        (x y : String)
        → in_set v' x ≡ true
        → in_set v x ≡ false
        → Link edges rel dir x y
        → in_set v' y ≡ true

  Grown-refl : (v : List String) → Grown v v
  Grown-refl v = record { within = λ t h. h; closed = λ x y h k l. ground arith }

  Grown-trans : (u v w : List String) → Grown u v → Grown v w → Grown u w
  Grown-trans u v w g h = record {
    within = λ t k. h.within t (g.within t k);
    closed = λ x y now before l. elim (Bool-cases (in_set v x)) [
      | inl mid ↦ h.within y (g.closed x y mid before l)
      | inr new ↦ h.closed x y now new l
    ];
  }

  -- all links of `id` lead into the set
  abbrev Covers : String → List String → Type 0
  Covers id v = (t : String) → Link edges rel dir id t → in_set v t ≡ true

  Grown-cons : (t : String) (v v' : List String) → Grown (t ∷ v) v' → Covers t v' → Grown v v'
  Grown-cons t v v' g c = record {
    within = λ x k. g.within x (Within-cons t v x k);
    closed = λ x y now before l. elim (Bool-cases (in_set (t ∷ v) x)) [
      | inl mid ↦ c y (subst (λ z. Link edges rel dir z y) (sym (in_set-cons t x v mid before)) l)
      | inr new ↦ g.closed x y now new l
    ];
  }

  module _ {S : Type 0} (fn : ℕ → Edge → S → Bool × S) (halted : S → Bool)
      (stop_halts : (d : ℕ) (e : Edge) (s : S) → (fn d e s).0 ≡ false → halted (fn d e s).1 ≡ true)
      (halts_on : (d : ℕ) (e : Edge) (s : S) → halted s ≡ true → halted (fn d e s).1 ≡ true) where
    abbrev Outcome : Walked S → Type 0 → Type 0
    Outcome w Q = (halted w.state ≡ true) ⊎ Q

    abbrev Call : Type 0
    Call = String → ℕ → Walked S → Walked S

    abbrev Covered : ℕ → Call → Type 0
    Covered fuel recur =
        (t : String) (d : ℕ) (w : Walked S)
        → unseen w.visited (ends edges) < fuel
        → Outcome (recur t d w)
            (Grown w.visited (recur t d w).visited × Covers t (recur t d w).visited)

    abbrev Halts : Call → Type 0
    Halts recur =
        (t : String) (d : ℕ) (w : Walked S)
        → Unit {0}
        → halted w.state ≡ true
        → halted (recur t d w).state ≡ true

    visit_cover :
        (fuel : ℕ) (recur : Call)
        → Covered fuel recur
        → (id : String) (depth : ℕ) (e : Edge) → Memᴰ e edges
        → (o : Option String) → target id rel dir e ≡ o
        → (w : Walked S) → unseen w.visited (ends edges) < suc fuel
        → Outcome (cut_visit fn recur depth e o w).1 (
            ((cut_visit fn recur depth e o w).0 ≡ true)
            × Grown w.visited (cut_visit fn recur depth e o w).1.visited
            × ((t : String)
                → o ≡ some t
                → in_set (cut_visit fn recur depth e o w).1.visited t ≡ true))
    unfolding cut_visit
    visit_cover fuel recur cov id depth e m none q w u = inr (refl, Grown-refl w.visited, λ t h. cc)
    visit_cover fuel recur cov id depth e m (some t) q w u =
        elim (Bool-cases (in_set w.visited t)) [
          | inl old ↦
              rw (old, if◌then◌else◌) (inr (refl, Grown-refl w.visited, λ x h. ground arith))
          | inr new ↦
              rw (new, if◌then◌else◌)
                (elim (Bool-cases (fn (depth + 1) e w.state).0) [
                  | inl go ↦
                      let w' : Walked S = record {
                        visited = t ∷ w.visited;
                        state = (fn (depth + 1) e w.state).1;
                      } in
                      let less =
                        unseen-cons_lt t w.visited (ends edges) (mem-ends id rel dir edges e t m q)
                          new in
                      rw (go, if◌then◌else◌)
                        (elim (cov t (depth + 1) w' (omega arith)) [
                          | inl h ↦ inl h
                          | inr (g, c) ↦ inr (
                            refl,
                            Grown-cons t w.visited _ g c,
                            λ x h. g.within x (
                                subst (λ z. in_set (t ∷ w.visited) z ≡ true) (some-injective t x h)
                                  (in_set-cons_self t w.visited)),
                          )
                        ])
                  | inr stop ↦
                      rw (stop, if◌then◌else◌) (inl (stop_halts (depth + 1) e w.state stop))
                ])
        ]

    edges_halt :
        (recur : Call)
        → Halts recur
        → (id : String) (depth : ℕ) (es : List Edge) → ((e : Edge) → Memᴰ e es → Memᴰ e edges)
        → (w : Walked S) → halted w.state ≡ true
        → halted (cut_edges fn recur (target id rel dir) depth es w).state ≡ true
    edges_halt recur hr id depth es sub w h =
        edges_rule fn edges rel dir 0 (λ w. halted w.state ≡ true) (λ _. Unit {0}) (λ _ _ _ _. tt)
          (λ d e t w p _ _ _ _. halts_on (d + 1) e w.state p) recur hr id tt depth es sub w h

    edges_cover :
        (fuel : ℕ) (recur : Call)
        → Covered fuel recur
        → Halts recur
        → (id : String) (depth : ℕ) (es : List Edge) → ((e : Edge) → Memᴰ e es → Memᴰ e edges)
        → (w : Walked S) → unseen w.visited (ends edges) < suc fuel
        → Outcome (cut_edges fn recur (target id rel dir) depth es w) (
            Grown w.visited (cut_edges fn recur (target id rel dir) depth es w).visited
            × ((e : Edge) (t : String)
                → Memᴰ e es
                → target id rel dir e ≡ some t
                → in_set (cut_edges fn recur (target id rel dir) depth es w).visited t ≡ true))
    unfolding cut_edges
    edges_cover fuel recur cov hr id depth [] sub w u =
        inr (Grown-refl w.visited, λ e t m q. absurd (Memᴰ.not-nil m))
    edges_cover fuel recur cov hr id depth (e ∷ es) sub w u =
        let w1 = (cut_visit fn recur depth e (target id rel dir e) w).1 in
        let sub' = λ (x : Edge) (m : Memᴰ x es). sub x (Memᴰ.tail m) in
        let here =
          visit_cover fuel recur cov id depth e (sub e (Memᴰ.head refl)) (target id rel dir e) refl
            w u in
        elim (Bool-cases (cut_visit fn recur depth e (target id rel dir e) w).0) [
          | inr stop ↦
              rw (stop, cut_edges)
                (elim here [ inl h ↦ inl h | inr (go, _, _) ↦ absurd (true≢false (sym go ∙ stop)) ])
          | inl go ↦
              rw (go, cut_edges)
                (elim here [
                  | inl h ↦ inl (edges_halt recur hr id depth es sub' w1 h)
                  | inr (_, g, c) ↦
                      elim (edges_cover fuel recur cov hr id depth es sub' w1
                        (omega (arith, unseen-Within w.visited w1.visited (ends edges) g.within))) [
                          | inl h ↦ inl h
                          | inr (g', c') ↦ inr (
                            Grown-trans _ _ _ g g',
                            λ x t m q. elim (Memᴰ.cases_cons m) [
                              | inl same ↦ g'.within t (c t (ap (target id rel dir) (sym same) ∙ q))
                              | inr later ↦ c' x t later q
                            ],
                          )
                        ]
                ])
        ]

    walk-Halts : (fuel : ℕ) → Halts (cut_recursive fn edges rel dir 0 fuel)
    walk-Halts fuel t d w g h =
        walk_rule fn edges rel dir 0 (λ w. halted w.state ≡ true) (λ _. Unit {0}) (λ _ _ _ _. tt)
          (λ d e t w p _ _ _ _. halts_on (d + 1) e w.state p) fuel t d w tt h

    pub walk_cover : (fuel : ℕ) → Covered fuel (cut_recursive fn edges rel dir 0 fuel)
    unfolding cut_recursive
    walk_cover zero t d w u = absurd (omega arith)
    walk_cover (suc fuel) t d w u =
        elim (edges_cover fuel (cut_recursive fn edges rel dir 0 fuel) (walk_cover fuel)
          (walk-Halts fuel) t d edges (λ e m. m) w u) [
            | inl h ↦ inl h
            | inr (g, c) ↦ inr (g, λ x (e, m, q). c e x m q)
          ]

    -- From no visited node, a walk that was not halted has visited all that can be reached.
    pub walk_reaches :
        (fuel : ℕ) (root : String) (s : S)
        → unseen [] (ends edges) < fuel
        → Outcome
            (cut_recursive fn edges rel dir 0 fuel root 0 (record { visited = []; state = s }))
            ((t : String)
              → Reach edges rel dir root t
              → in_set
                  (cut_recursive fn edges rel dir 0 fuel root 0
                    (record { visited = []; state = s })).visited
                  t
                ≡ true)
    unfolding any_of
    walk_reaches fuel root s u =
        elim (walk_cover fuel root 0 (record { visited = []; state = s }) u) [
          | inl h ↦ inl h
          | inr (g, c) ↦ inr (reached _ g c)
        ]
      where
        reached :
            (v : List String)
            → Grown [] v
            → Covers root v
            → (t : String) → Reach edges rel dir root t
            → in_set v t ≡ true
        reached v g c t (link l) = c t l
        reached v g c t (more {b} r l) = g.closed b t (reached v g c b r) refl l
