-- ===== src/Store/Walk/Unseen.antt =====
-- How many ends of the edges a set of visited nodes still lacks: the measure of the walk.
use mathlib.Core.List.Memᴰ
use parchment.Prelude.{
  ℕ, suc, ◌≤◌, ◌<◌, String, true, false, some, List, [], ◌∷◌, ◌++◌, ◌≡◌, refl, Memᴰ, arith,
  if◌then◌else◌, inl, inr, ◌⊎◌, length, any_of, eq_iff, ap, map, length-append,
}
use parchment.Store.{Edge}
use parchment.Store.Edges.{Direction, outgoing, incoming, both, in_set}
use parchment.Store.Walk.{target, walk_fuel}

abbrev pub unseen : List String → List String → ℕ
unseen visited [] = 0
unseen visited (u ∷ us) =
    let rest = unseen visited us in if in_set visited u then rest else suc rest

-- one set of nodes within another
abbrev pub Within : List String → List String → Type 0
Within v v' = (t : String) → in_set v t ≡ true → in_set v' t ≡ true

pub Within-cons : (t : String) (v : List String) → Within v (t ∷ v)
unfolding any_of
Within-cons t v x h = ground arith

pub in_set-cons_self : (t : String) (v : List String) → in_set (t ∷ v) t ≡ true
unfolding any_of
in_set-cons_self t v = ground (arith, eq_iff t t)

pub in_set-cons :
    (t x : String) (v : List String) → in_set (t ∷ v) x ≡ true → in_set v x ≡ false → t ≡ x
unfolding any_of
in_set-cons t x v h k = ground (arith, eq_iff t x)

pub unseen-Within : (v v' us : List String) → Within v v' → unseen v' us ≤ unseen v us
unseen-Within v v' [] h = omega arith
unseen-Within v v' (u ∷ us) h = ground (arith, h u, unseen-Within v v' us h)

pub unseen-cons_lt :
    (t : String) (v us : List String)
    → Memᴰ t us
    → in_set v t ≡ false
    → unseen (t ∷ v) us < unseen v us
unseen-cons_lt t v [] m h = absurd (Memᴰ.not-nil m)
unseen-cons_lt t v (u ∷ us) m h = elim (Memᴰ.cases_cons m) [
  | inl q ↦
      rw (← q) (ground (arith, in_set-cons_self t v, unseen-Within v (t ∷ v) us (Within-cons t v)))
  | inr r ↦ ground (arith, unseen-cons_lt t v us r h, Within-cons t v u)
]

-- every end of an edge
abbrev pub ends : List Edge → List String
ends edges = map (λ e. e.to) edges ++ map (λ e. e.from) edges

length-map : (f : Edge → String) (xs : List Edge) → length (map f xs) ≡ length xs
length-map f [] = refl
length-map f (x ∷ xs) = ap suc (length-map f xs)

unseen-le-length : (v us : List String) → unseen v us ≤ length us
unseen-le-length v [] = omega arith
unseen-le-length v (u ∷ us) = ground (arith, unseen-le-length v us)

pub unseen-lt-walk_fuel :
    (v : List String) (edges : List Edge) → unseen v (ends edges) < walk_fuel edges
unfolding walk_fuel
unseen-lt-walk_fuel v edges = omega (
  arith,
  unseen-le-length v (ends edges),
  length-append (map (λ e. e.to) edges) (map (λ e. e.from) edges),
  length-map (λ e. e.to) edges,
  length-map (λ e. e.from) edges,
)

target-end :
    (a rel : String) (dir : Direction) (e : Edge) (t : String)
    → target a rel dir e ≡ some t
    → (t ≡ e.to) ⊎ (t ≡ e.from)
unfolding target
target-end a rel outgoing e t h = ground arith
target-end a rel incoming e t h = ground arith
target-end a rel both e t h = ground arith

-- where an edge leads is one of the ends
pub mem-ends :
    (a rel : String) (dir : Direction) (edges : List Edge) (e : Edge) (t : String)
    → Memᴰ e edges
    → target a rel dir e ≡ some t
    → Memᴰ t (ends edges)
mem-ends a rel dir edges e t m h = elim (target-end a rel dir e t h) [
  | inl q ↦ Memᴰ.append_left _ (Memᴰ.cast q (Memᴰ.map (λ x. x.to) m))
  | inr q ↦ Memᴰ.append_right (map (λ x. x.to) edges) (Memᴰ.cast q (Memᴰ.map (λ x. x.from) m))
]
