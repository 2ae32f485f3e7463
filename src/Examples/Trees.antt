-- ===== src/Examples/Trees.antt =====
-- New parents in a tree of two tasks, applied.
use mathlib.Core.Bool.{true≢false}
use parchment.Prelude.{
  ◌<◌, String, Bool, true, false, some, List, [], ◌∷◌, ◌≡◌, ◌⊎◌, ◌↔◌, refl, sym, ap, ◌∙◌, arith,
  eq_iff, any_of, has_prefix, trim_prefix, keep,
}
use parchment.Dict.{lookup, insert}
use parchment.Store.Artifacts.{get, put}
use parchment.Store.Edges.{neighbors}
use parchment.Protocol.Parent.{would_cycle_parent, move_to, set_field_parent}
use parchment.Protocol.Parent.Guard.{HasOneParent, HasNoLoop, would_cycle_parent_iff}
use parchment.Protocol.Parent.Moved.{set_field_parent-HasNoLoop}
use parchment.Protocol.Parent.Placed.{HasRoom, move_to_iff}
use parchment.Artifact.Labels.{label_value}
use parchment.Protocol.Kinds.{valid_child}
use parchment.Protocol.Rules.{is_edge_allowed, RelationshipTrait}
use parchment.Protocol.Transition.Rule.{Parent}
use parchment.Protocol.Transition.Near.{Above, parent, higher}
use parchment.Examples.Changes.{
  tree, tree-IsValid, only_stored, only_edge, apart, top-Within, task_1,
}

tree-HasOneParent : HasOneParent tree.edges
tree-HasOneParent p q c h k = (only_edge p c h).0 ∙ sym (only_edge q c k).0

Above-only : (c p : String) → Above tree.edges c p → (p ≡ "T-2") × (c ≡ "T-1")
Above-only c p (parent h) = only_edge p c h
Above-only c p (higher {p = b} a h) =
    absurd (apart (sym (Above-only c b a).0 ∙ (only_edge p b h).1))

tree-HasNoLoop : HasNoLoop tree.edges
tree-HasNoLoop a loop = apart (sym (Above-only a a loop).0 ∙ (Above-only a a loop).1)

two : 0 < 2
two = omega arith

named : Path String "T-1" "" → ⊥
named q = true≢false (sym ((eq_iff "T-1" "").1 q))

-- the tree without its edge, in which T-1 comes under T-3
would_cycle_parent_iff_example :
    (b : Bool) × (path : List String) × (would_cycle_parent 2 tree "T-2" "T-1" ≡ some (b, path))
    × ((b ≡ true) ↔ ((Path String "T-2" "T-1") ⊎ Above tree.edges "T-2" "T-1"))
would_cycle_parent_iff_example =
    would_cycle_parent_iff tree "T-2" "T-1" 0 2 tree-IsValid.keys tree-HasOneParent top-Within two
      named

tree-HasRoom : HasRoom tree "T-1" "T-3"
tree-HasRoom x stored same = sym (ap (λ e. e.to) (only_stored x stored))

move_to_iff_example : Parent (move_to tree "T-1" "T-3").edges "T-3" "T-1" ↔ (
    ((Path String "T-1" "T-1") × (Path String "T-3" "T-3") × (Path String "T-3" "" → ⊥))
    ⊎ ((Path String "T-1" "T-1" → ⊥) × Parent tree.edges "T-3" "T-1"))
move_to_iff_example = move_to_iff tree "T-1" "T-3" "T-3" "T-1" tree-IsValid.keys tree-HasRoom

abbrev any_task : List RelationshipTrait
any_task =
    record {
      from = "kind:task";
      relation = "parent_of";
      to = "kind:task";
      cycle_guard = true;
      completion_rollup = true;
      max_incoming = 1;
      conformance_check = false;
    }
    ∷ []

set_field_parent-HasNoLoop_example :
    HasOneParent (move_to tree "T-1" "T-2").edges × HasNoLoop (move_to tree "T-1" "T-2").edges
unfolding set_field_parent get lookup put insert valid_child is_edge_allowed any_of label_value
    has_prefix trim_prefix neighbors keep
set_field_parent-HasNoLoop_example =
    set_field_parent-HasNoLoop 2 0 any_task tree (move_to tree "T-1" "T-2") "T-1" task_1 "T-2"
      tree-IsValid.keys tree-HasOneParent tree-HasNoLoop top-Within two named refl
