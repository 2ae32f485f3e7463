-- ===== src/Protocol/Parent/Moved.antt =====
-- What a new parent leaves behind: a tree.
use mathlib.Core.Bool.{true≢false}
use parchment.Prelude.{
  ℕ, ◌<◌, String, Bool, true, false, Option, none, some, List, ◌≡◌, ◌≢◌, ◌⊎◌, inl, inr, refl, sym,
  ap, ◌∙◌, subst, arith, if◌then◌else◌, ◌==◌, eq_iff,
}
use mathlib.Core.Option.{some-injective}
use parchment.Dict.{Dict}
use parchment.Artifact.{Artifact}
use parchment.Store.{MemoryStore, Edge}
use parchment.Store.Artifacts.{get}
use parchment.Store.Edges.Neighbors.{HasKeys}
use parchment.Protocol.Rules.{RelationshipTrait}
use parchment.Protocol.Transition.Rule.{Parent}
use parchment.Protocol.Transition.Ends.{Within}
use parchment.Protocol.Transition.Near.{Above, parent, higher}
use parchment.Protocol.Parent.{
  ParentError, invalid_child, move_to, set_field_parent, would_cycle_parent, child_refused, guarded,
  Looked,
}
use parchment.Protocol.Parent.Guard.{HasOneParent, HasNoLoop, would_cycle_parent_iff}
use parchment.Protocol.Parent.Placed.{moved-Parent}

module _ (m : MemoryStore) (keys : HasKeys m.edges) (id value : String) where
  abbrev es : Dict Edge
  es = m.edges

  abbrev es' : Dict Edge
  es' = (move_to m id value).edges

  moved-HasOneParent : HasOneParent es → HasOneParent es'
  moved-HasOneParent one p q c h k =
      both (moved-Parent m keys id value p c h) (moved-Parent m keys id value q c k)
    where
      both :
          ((c ≡ id) × (p ≡ value) × (value ≢ "")) ⊎ ((c ≢ id) × Parent es p c)
          → ((c ≡ id) × (q ≡ value) × (value ≢ "")) ⊎ ((c ≢ id) × Parent es q c)
          → p ≡ q
      both (inl (_, x, _)) (inl (_, y, _)) = x ∙ sym y
      both (inl (at, _, _)) (inr (other, _)) = absurd (other at)
      both (inr (other, _)) (inl (at, _, _)) = absurd (other at)
      both (inr (_, x)) (inr (_, y)) = one p q c x y

  -- equal, or above before the move
  abbrev From : String → String → Type 0
  From c p = (c ≡ p) ⊎ Above es c p

  -- a way up after the move was there before, or it goes from the artifact to its new parent
  Above-moved :
      (c p : String) → Above es' c p → Above es c p ⊎ ((value ≢ "") × From c id × From value p)
  Above-moved c p (parent q) = elim (moved-Parent m keys id value p c q) [
    | inl (at, is_value, named) ↦ inr (named, inl at, inl (sym is_value))
    | inr (other, old) ↦ inl (parent old)
  ]
  Above-moved c p (higher {p = b} a q) =
      further (Above-moved c b a) (moved-Parent m keys id value p b q)
    where
      further :
          Above es c b ⊎ ((value ≢ "") × From c id × From value b)
          → ((b ≡ id) × (p ≡ value) × (value ≢ "")) ⊎ ((b ≢ id) × Parent es p b)
          → Above es c p ⊎ ((value ≢ "") × From c id × From value p)
      further (inl old) (inl (at, is_value, named)) =
          inr (named, inr (subst (Above es c) at old), inl (sym is_value))
      further (inr (named, below, above)) (inl (at, is_value, _)) =
          inr (named, below, inl (sym is_value))
      further (inl old) (inr (other, up)) = inl (higher old up)
      further (inr (named, below, inl same)) (inr (other, up)) =
          inr (named, below, inr (parent (subst (Parent es p) (sym same) up)))
      further (inr (named, below, inr above)) (inr (other, up)) =
          inr (named, below, inr (higher above up))

  Above-trans : {a b c : String} → Above es a b → Above es b c → Above es a c
  Above-trans a (parent q) = higher a q
  Above-trans a (higher b q) = higher (Above-trans a b) q

  join : {a b c : String} → From a b → From b c → From a c
  join {c = c} (inl p) y = subst (λ z. From z c) (sym p) y
  join {a = a} (inr r) (inl q) = inr (subst (Above es a) q r)
  join (inr r) (inr s) = inr (Above-trans r s)

  moved-HasNoLoop : HasNoLoop es → (value ≢ "" → ¬ From value id) → HasNoLoop es'
  moved-HasNoLoop acyclic apart a loop = elim (Above-moved a a loop) [
    | inl old ↦ acyclic a old
    | inr (named, below, above) ↦ apart named (join above below)
  ]

same_answer : (a b : Bool) (p q : List String) → Path Looked (some (a, p)) (some (b, q)) → a ≡ b
same_answer a b p q e = ap (λ x. x.0) (some-injective (a, p) (b, q) e)

if-cases :
    (b : Bool) (x y r : Option (Option ParentError × MemoryStore))
    → (if b then x else y) ≡ r
    → ((b ≡ true) × (x ≡ r)) ⊎ ((b ≡ false) × (y ≡ r))
if-cases true x y r q = inl (refl, q)
if-cases false x y r q = inr (refl, q)

guarded_cases :
    (a : Looked) (m m' m'' : MemoryStore)
    → guarded a m m' ≡ some (none, m'')
    → (m' ≡ m'') × ((path : List String) × (a ≡ some (false, path)))
guarded_cases none m m' m'' q = absurd (ground arith)
guarded_cases (some (true, path)) m m' m'' q = absurd (ground arith)
guarded_cases (some (false, path)) m m' m'' q = (ground arith, (path, refl))

accepted_cases :
    (n : ℕ) (rels : List RelationshipTrait) (m m' : MemoryStore) (id : String) (art : Artifact)
    (value : String)
    → set_field_parent n rels m id art value ≡ some (none, m')
    → (move_to m id value ≡ m')
      × (value ≢ "" → (path : List String) × (would_cycle_parent n m value id ≡ some (false, path)))
unfolding set_field_parent
accepted_cases n rels m m' id art value q =
    elim (if-cases (value == "") (some (none, move_to m id value)) named_value (some (none, m'))
      q) [
        | inl (t, r) ↦ (moved_inj r, λ named. absurd (named ((eq_iff value "").0 t)))
        | inr (t, r) ↦
            elim (if-cases (child_refused rels (get m value) art) (some (some invalid_child, m))
              checked _ r) [
                | inl (_, wrong) ↦ absurd (ground arith)
                | inr (_, s) ↦
                    let (same, passed) =
                      guarded_cases (would_cycle_parent n m value id) m (move_to m id value) m' s in
                    (same, λ _. passed)
              ]
      ]
  where
    checked : Option (Option ParentError × MemoryStore)
    checked = guarded (would_cycle_parent n m value id) m (move_to m id value)

    named_value : Option (Option ParentError × MemoryStore)
    named_value =
        if child_refused rels (get m value) art then some (some invalid_child, m) else checked

    moved_inj :
        Path
          (Option (Option ParentError × MemoryStore))
          (some (none, move_to m id value))
          (some (none, m'))
        → move_to m id value ≡ m'
    moved_inj e = ap (λ x. x.1) (some-injective _ _ e)

-- setFieldParent keeps the tree of artifacts a tree. Where no artifact has two parents or stands above
-- itself, and going up from the new parent ends after fewer steps than there is fuel, an accepted call for an
-- artifact with an ID leaves a graph in which no artifact has two parents and none stands above itself.
pub set_field_parent-HasNoLoop :
    (n h : ℕ) (rels : List RelationshipTrait) (m m' : MemoryStore) (id : String) (art : Artifact)
    (value : String)
    → HasKeys m.edges
    → HasOneParent m.edges
    → HasNoLoop m.edges
    → Within m.edges h value
    → h < n
    → id ≢ ""
    → set_field_parent n rels m id art value ≡ some (none, m')
    → HasOneParent m'.edges × HasNoLoop m'.edges
set_field_parent-HasNoLoop n h rels m m' id art value keys one acyclic w lt named q =
    let (same, guard) = accepted_cases n rels m m' id art value q in
    let apart = λ (is_parent : value ≢ "") (g : (value ≡ id) ⊎ Above m.edges value id).
      let (path, passed) = guard is_parent in
      let (b, path', answer, iff) = would_cycle_parent_iff m value id h n keys one w lt named in
      true≢false (sym (iff.1 g) ∙ same_answer b false path' path (sym answer ∙ passed)) in
    subst (λ x. HasOneParent x.edges × HasNoLoop x.edges) same
      (moved-HasOneParent m keys id value one, moved-HasNoLoop m keys id value acyclic apart)
