-- ===== src/Examples/Links.antt =====
-- Linking under a schema with one relationship, applied.
use mathlib.Core.List.Memᴰ
use mathlib.Core.Bool.{true≢false}
use mathlib.Core.Option.{none-ne-some}
use parchment.Prelude.{
  ◌+◌, ◌*◌, ◌≤◌, arith, none, some, List, [], ◌∷◌, ◌≡◌, ◌↔◌, true, false, refl, ap, Memᴰ, ◌==◌,
  any_of, contains_rune,
}
use parchment.Dict.{Dict, lookup, insert}
use parchment.Store.{MemoryStore, new_memory_store}
use parchment.Store.Artifacts.{put, get}
use parchment.Store.Walk.Rule.{link, more}
use parchment.Store.Valid.Reachable.{Reachable, started, stepped, putting, Reachable-IsValid}
use parchment.Protocol.Cycle.Acyclic.{IsAcyclic}
use parchment.Protocol.Rules.{RelationshipTrait, is_edge_allowed, is_cycle_guarded}
use parchment.Protocol.Rules.Allowed.{Meets, is_edge_allowed_iff}
use parchment.Protocol.Admission.{Config}
use parchment.Protocol.Checks.{Outcome, not_allowed}
use parchment.Protocol.Transition.{Run}
use parchment.Protocol.Transition.Ends.{Within}
use parchment.Protocol.Link.{LinkResult, link_artifacts}
use parchment.Protocol.Link.Guarded.{link_artifacts-IsAcyclic}
use parchment.Protocol.Link.Refused.{link_artifacts_refused}
use parchment.Protocol.Traits.{
  LabelTrait, no_trait, resolve_trait, expand_labels, union_strings, dot_prefixes,
}
use parchment.Protocol.Traits.Merged.{resolve_trait_lem}
use parchment.Examples.{draft, other}

-- a task may depend on a task
abbrev rules : List RelationshipTrait
rules =
    record {
      from = "kind:task";
      relation = "depends_on";
      to = "kind:task";
      cycle_guard = true;
      completion_rollup = false;
      max_incoming = 0;
      conformance_check = false;
    }
    ∷ []

-- a task may be the parent of a task
abbrev tree_rules : List RelationshipTrait
tree_rules =
    record {
      from = "kind:task";
      relation = "parent_of";
      to = "kind:task";
      cycle_guard = true;
      completion_rollup = false;
      max_incoming = 0;
      conformance_check = false;
    }
    ∷ []

abbrev config : Config
config = record { traits = []; rules = []; gates = []; clock = λ n. n + 100 }

abbrev pair : MemoryStore
pair = (put 20 (put 10 new_memory_store draft).1 other).1

pair-Reachable : Reachable pair
pair-Reachable = stepped (stepped started (putting 10 draft)) (putting 20 other)

abbrev start : Run
start = record { store = pair; ticks = 0 }

pair-IsAcyclic : IsAcyclic pair "parent_of"
unfolding put lookup insert
pair-IsAcyclic a (link (e, i, q)) = absurd (Memᴰ.not-nil i)
pair-IsAcyclic a (more r (e, i, q)) = absurd (Memᴰ.not-nil i)

pair-Within : Within pair.edges 0 "T-1"
unfolding put lookup insert
pair-Within p (e, stored, _, _, _) = none-ne-some e stored

enough : 3 * 0 + 3 ≤ 3
enough = omega arith

is_edge_allowed_iff_example :
    (is_edge_allowed rules draft.labels "depends_on" other.labels ≡ true) ↔ (
      (r : RelationshipTrait) × Memᴰ r rules
      × (r.relation ≡ "depends_on")
      × Meets r.from draft.labels
      × Meets r.to other.labels)
is_edge_allowed_iff_example = is_edge_allowed_iff rules draft.labels "depends_on" other.labels

link_artifacts-IsAcyclic_example :
    (answer : Outcome (List LinkResult)) × (r' : Run) × (link_artifacts tree_rules config 3 start
        "T-1" "parent_of"
        ("T-2" ∷ [])
        0
      ≡ some (answer, r'))
    × IsAcyclic r'.store "parent_of"
unfolding put lookup insert is_cycle_guarded any_of
link_artifacts-IsAcyclic_example =
    link_artifacts-IsAcyclic tree_rules config 3 0 start "T-1" "parent_of" ("T-2" ∷ []) 0
      (put 10 new_memory_store draft).0 (Reachable-IsValid pair-Reachable).ids refl refl
      pair-IsAcyclic (λ q. (Reachable-IsValid pair-Reachable, pair-Within)) enough

-- the run after a link that the schema does not allow
abbrev refused_run : Run
unfolding link_artifacts
refused_run = elim (link_artifacts rules config 3 start "T-1" "blocks" ("T-2" ∷ []) 0) [
  | none ↦ record { store = new_memory_store; ticks = 0 }
  | some answer ↦ answer.1
]

link_artifacts_refused_example : refused_run ≡ start
unfolding put lookup insert link_artifacts get is_cycle_guarded any_of is_edge_allowed
link_artifacts_refused_example =
    link_artifacts_refused rules config 3 start refused_run "T-1" "blocks" ("T-2" ∷ []) 0
      (not_allowed "T-2") (λ q. true≢false (ap (λ t. t == "blocks") q)) refl

abbrev traits : Dict LabelTrait
traits =
    ("rule", record no_trait { eviction_policy = "protected" })
    ∷ ("note", record no_trait { eviction_policy = "normal"; terminal = true })
    ∷ []

resolve_trait_lem_example :
    ((resolve_trait (λ l. l) traits ("rule.security" ∷ "note" ∷ [])).terminal ≡ true)
    × ((resolve_trait (λ l. l) traits ("rule.security" ∷ "note" ∷ [])).readonly ≡ false)
    × ((resolve_trait (λ l. l) traits ("rule.security" ∷ "note" ∷ [])).eviction_policy
        ≡ "protected")
unfolding expand_labels any_of lookup contains_rune union_strings dot_prefixes
resolve_trait_lem_example =
    resolve_trait_lem (λ l. l) traits ("rule.security" ∷ "note" ∷ []) (λ l s. (λ i. i, λ i. i))
