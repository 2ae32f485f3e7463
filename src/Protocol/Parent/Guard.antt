-- ===== src/Protocol/Parent/Guard.antt =====
-- The guard of a new parent: it ends, and finds the child among the parent's ancestors.
use mathlib.Core.List.Memᴰ
use mathlib.Core.Bool.{true≢false}
use parchment.Prelude.{
  ℕ, zero, suc, ◌<◌, String, Bool, true, false, none, some, List, [], ◌∷◌, ◌++◌, ◌≡◌, ◌≢◌, ◌⊎◌, ◌↔◌,
  inl, inr, refl, sym, ◌∙◌, subst, arith, Memᴰ, String-cases, if◌then◌else◌, ◌==◌, eq-false,
}
use parchment.Dict.{Dict, lookup}
use parchment.Store.{MemoryStore, Edge}
use parchment.Store.Edges.{neighbors, incoming, key_of}
use parchment.Store.Edges.Neighbors.{HasKeys, mem-neighbors}
use parchment.Protocol.Rules.{rel_parent_of}
use parchment.Protocol.Transition.{first_edge}
use parchment.Protocol.Transition.Rule.{Parent, rel_parent_of-ne}
use parchment.Protocol.Transition.Ends.{Within, Parent-Within}
use parchment.Protocol.Transition.Near.{Above, parent, higher}
use parchment.Protocol.Parent.{Looked, look_up, would_cycle_parent}

-- no node has two parents
abbrev pub HasOneParent : Dict Edge → Type 0
HasOneParent es = (p q c : String) → Parent es p c → Parent es q c → p ≡ q

-- no node stands above itself
abbrev pub HasNoLoop : Dict Edge → Type 0
HasNoLoop es = (a : String) → ¬ Above es a a

-- the first step of a way up, and a step before one
Above-first :
    (es : Dict Edge) (id p : String)
    → Above es id p
    → (x : String) × Parent es x id × ((x ≡ p) ⊎ Above es x p)
Above-first es id p (parent q) = (p, q, inl refl)
Above-first es id p (higher {p = m} a q) =
    let (x, first, rest) = Above-first es id m a in
    (
      x,
      first,
      elim rest [
        | inl same ↦ inr (parent (subst (Parent es p) (sym same) q))
        | inr b ↦ inr (higher b q)
      ],
    )

pub Above-cons : (es : Dict Edge) (id x p : String) → Parent es x id → Above es x p → Above es id p
Above-cons es id x p first (parent q) = higher (parent first) q
Above-cons es id x p first (higher {p = m} a q) = higher (Above-cons es id x m first a) q

module _ (m : MemoryStore) (keys : HasKeys m.edges) where
  pub mem-parents :
      (e : Edge) (id : String)
      → Memᴰ e (neighbors m id rel_parent_of incoming)
        ↔ ((lookup m.edges (key_of e) ≡ some e) × (e.relation ≡ rel_parent_of) × (e.to ≡ id))
  mem-parents e id = (
    λ mem.
        let (stored, rel, at) = (mem-neighbors m id rel_parent_of incoming e keys).0 mem in
        (
          stored,
          elim rel [ inl empty ↦ absurd (rel_parent_of-ne empty) | inr is_rel ↦ is_rel ],
          at,
        ),
    λ (stored, rel, at). (mem-neighbors m id rel_parent_of incoming e keys).1 (stored, inr rel, at),
  )

  abbrev FirstOf : List Edge → String → Type 0
  FirstOf l c =
      ((first_edge l ≡ none) × ((p : String) → ¬ Parent m.edges p c))
      ⊎ ((e : Edge) × (first_edge l ≡ some e) × Parent m.edges e.from c)

  first-cases :
      (c : String) (l : List Edge)
      → ((e : Edge)
          → Memᴰ e l
            ↔ ((lookup m.edges (key_of e) ≡ some e) × (e.relation ≡ rel_parent_of) × (e.to ≡ c)))
      → FirstOf l c
  first-cases c [] f =
      inl (refl, λ p (e, stored, rel, from, at). Memᴰ.not-nil ((f e).1 (stored, rel, at)))
  first-cases c (e ∷ l) f =
      let (stored, rel, at) = (f e).0 (Memᴰ.head refl) in inr (e, refl, (e, stored, rel, refl, at))

  -- the first parent, if there is one
  first_parent_cases : (c : String) → FirstOf (neighbors m c rel_parent_of incoming) c
  first_parent_cases c = first-cases c _ (λ e. mem-parents e c)

  -- what the walk up says of the child
  abbrev Says : String → String → Bool → Type 0
  Says child cur true = Above m.edges cur child
  Says child cur false = HasOneParent m.edges → ¬ Above m.edges cur child

  abbrev Looks : String → String → Looked → Type 0
  Looks child cur a = (b : Bool) × (path : List String) × (a ≡ some (b, path)) × Says child cur b

  Looks-higher :
      (child cur : String) (e : Edge) (a : Looked)
      → e.from ≢ child
      → Parent m.edges e.from cur
      → Looks child e.from a
      → Looks child cur a
  Looks-higher child cur e a apart up (true, path, q, says) =
      (true, path, q, Above-cons m.edges cur e.from child up says)
  Looks-higher child cur e a apart up (false, path, q, says) = (
    false,
    path,
    q,
    λ one above.
        let (x, first, rest) = Above-first m.edges cur child above in
        elim rest [
          | inl same ↦ apart (one e.from x cur up first ∙ same)
          | inr b ↦ says one (subst (λ z. Above m.edges z child) (one x e.from cur first up) b)
        ],
  )

  onward :
      (n : ℕ) (child cur : String) (path : List String) (e : Edge)
      → first_edge (neighbors m cur rel_parent_of incoming) ≡ some e
      → (e.from == child) ≡ false
      → look_up (suc n) m child cur path ≡ look_up n m child e.from (path ++ e.from ∷ [])
  unfolding look_up
  onward n child cur path e q t = rw (look_up, q, t, if◌then◌else◌) refl

  look_up_lem :
      (h n : ℕ) (child cur : String) (path : List String)
      → Within m.edges h cur
      → h < n
      → Looks child cur (look_up n m child cur path)
  unfolding look_up
  look_up_lem h zero child cur path w lt = absurd (omega (arith, lt))
  look_up_lem h (suc n) child cur path w lt = elim (first_parent_cases cur) [
    | inl (q, no_parent) ↦ (
      false,
      [],
      rw (look_up, q) refl,
      λ one above. let (x, first, _) = Above-first m.edges cur child above in no_parent x first,
    )
    | inr (e, q, up) ↦
        let (k, v, less) = Parent-Within m.edges h cur e.from w up in
        elim (String-cases e.from child) [
          | inl (same, t) ↦ (
            true,
            path ++ e.from ∷ [],
            rw (look_up, q, t, if◌then◌else◌) refl,
            parent (subst (λ z. Parent m.edges z cur) same up),
          )
          | inr (apart, t) ↦ subst (Looks child cur) (sym (onward n child cur path e q t)) (
              Looks-higher child cur e _ apart up
                (look_up_lem k n child e.from (path ++ e.from ∷ []) v (omega (arith, lt, less))))
        ]
  ]

Says-iff :
    (m : MemoryStore) (keys : HasKeys m.edges) (child cur : String) (b : Bool)
    → HasOneParent m.edges
    → Says m keys child cur b
    → (b ≡ true) ↔ Above m.edges cur child
Says-iff m keys child cur true one says = (λ _. says, λ _. refl)
Says-iff m keys child cur false one says =
    (λ q. absurd (true≢false (sym q)), λ a. absurd (says one a))

-- Where no artifact has two parents and going up from the new parent ends after at most h steps, the
-- guard of a new parent ends too, after at most h + 1 rounds, and answers true exactly if the child is
-- that parent or stands above it.
pub would_cycle_parent_iff :
    (m : MemoryStore) (new_parent child : String) (h n : ℕ)
    → HasKeys m.edges
    → HasOneParent m.edges
    → Within m.edges h new_parent
    → h < n
    → child ≢ ""
    → (b : Bool) × (path : List String) × (would_cycle_parent n m new_parent child ≡ some (b, path))
      × ((b ≡ true) ↔ ((new_parent ≡ child) ⊎ Above m.edges new_parent child))
unfolding would_cycle_parent
would_cycle_parent_iff m new_parent child h n keys one w lt named =
    elim (String-cases new_parent child) [
      | inl (same, t) ↦ (
        true,
        child ∷ child ∷ [],
        rw (would_cycle_parent, eq-false child "" named, t, if◌then◌else◌) refl,
        (λ _. inl same, λ _. refl),
      )
      | inr (apart, t) ↦
          let (b, path, q, says) =
            look_up_lem m keys h n child new_parent (child ∷ new_parent ∷ []) w lt in
          let (sound, complete) = Says-iff m keys child new_parent b one says in
          (
            b,
            path,
            rw (would_cycle_parent, eq-false child "" named, t, if◌then◌else◌) q,
            (
              λ e. inr (sound e),
              λ g. elim g [ inl same ↦ absurd (apart same) | inr a ↦ complete a ],
            ),
          )
    ]
