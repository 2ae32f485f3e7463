-- ===== src/Protocol/Admission.antt =====
-- protocol_lifecycle.go, rule.go, plugin_template.go and plugin_effort.go: what may stand in the way of a
-- status change. The texts of the messages are left out, with the rule or gate that they come from kept.
pub mod Passed
use parchment.Prelude.{
  ℕ, String, Bool, true, false, ◌&&◌, ◌||◌, not, Option, none, some, List, [], ◌∷◌, ◌==◌, map,
  any_of, all_of, keep, is_empty, is_some, if◌then◌else◌,
}
use parchment.Dict.{Dict, lookup}
use parchment.Artifact.{Artifact, Section, entries}
use parchment.Artifact.Labels.{label_value, label_prefix_kind, status_from_labels}
use parchment.Store.{MemoryStore, Edge}
use parchment.Store.Artifacts.{get}
use parchment.Store.Edges.{neighbors, outgoing}
use parchment.Store.Queries.{children}
use parchment.Store.Result.{Result, ok, err}
use parchment.Protocol.Kinds.{
  Traits, is_terminal, activation_requires_sections, should_sections, must_sections,
}
use parchment.Protocol.Predicates.{
  RuleDef, RuleResult, evaluate_rule, matches_predicate, missing_sections, rule_action_block,
}
use parchment.Protocol.Statuses.{Verdict, accepted, validate_status}
use parchment.Protocol.Templates.{
  Conformance, conforms, lacks, check_template_conformance, check_template_conformance_promote,
}

-- what a gate that is registered with the program answers
pub data GateAnswer : Type 0 where
  failed : GateAnswer
  result : Bool → String → GateAnswer

pub record QualityGate : Type 0 where
  pub name : String
  pub validate : Artifact → GateAnswer

-- the parts of a Protocol that status changes read; `clock n` is the n-th answer of the clock
pub record Config : Type 0 where
  pub traits : Traits
  pub rules : List RuleDef
  pub gates : List QualityGate
  pub clock : ℕ → ℕ

abbrev pub is_done : Traits → Artifact → Bool
is_done traits art = is_terminal traits (status_from_labels art.labels)

abbrev pub kind_of : Artifact → String
kind_of art = label_value art.labels label_prefix_kind

abbrev pub rel_depends_on : String
rel_depends_on = "depends_on"

-- A dependency that is not found does not stand in the way.
abbrev pub open_dependency : Traits → Result Artifact → Bool
open_dependency traits (err e) = false
open_dependency traits (ok dep) = not (is_done traits dep)

-- guardDependsOnComplete, true where it returns an error
unfoldable pub depends_on_incomplete : Traits → MemoryStore → Artifact → Bool
depends_on_incomplete traits m art =
    any_of (λ e. open_dependency traits (get m e.to)) (neighbors m art.id rel_depends_on outgoing)

unfoldable pub children_incomplete : Traits → MemoryStore → Artifact → Bool
children_incomplete traits m art = any_of (λ ch. not (is_done traits ch)) (children m art.id)

abbrev fails : Conformance → Bool
fails conforms = false
fails (lacks names) = true

-- the checks of the plugins
unfoldable pub run_rule_handler : Traits → MemoryStore → String → Artifact → Bool
unfolding children_incomplete
run_rule_handler traits m check art =
    if check == "template_conformance_promote"
    then fails (check_template_conformance_promote traits m art)
    else if check == "template_conformance_complete"
    then fails (check_template_conformance traits m art false)
    else if check == "children_complete"
    then children_incomplete traits m art
    else if check == "worker_id_required"
    then not (is_some (lookup (entries art.extra) "worker_id"))
    else if check == "stamps_required"
    then not (any_of (λ s. s.name == "stamps") art.sections)
    else false

-- evaluateBuiltinCheck, true where it blocks
unfoldable pub evaluate_builtin_check : Traits → MemoryStore → String → Artifact → Bool
unfolding run_rule_handler depends_on_incomplete missing_sections
evaluate_builtin_check traits m check art =
    if check == "activation_sections"
    then activation_requires_sections traits (kind_of art)
      && (not (is_empty (missing_sections art.sections (should_sections traits (kind_of art))))
          || not (is_empty (missing_sections art.sections (must_sections traits (kind_of art)))))
    else if check == "depends_on_complete"
    then depends_on_incomplete traits m art
    else run_rule_handler traits m check art

abbrev pub blocks : Option RuleResult → Bool
blocks none = false
blocks (some r) = r.action == rule_action_block

-- one round of the loop over the rules: whether the rule blocks the change
unfoldable pub rule_blocks : Traits → MemoryStore → Artifact → String → Bool → RuleDef → Bool
unfolding evaluate_rule evaluate_builtin_check
rule_blocks traits m art status force rule =
    not (force && rule.forceable)
    && (blocks (evaluate_rule rule art status)
        || (not (rule.check == "")
            && matches_predicate rule.when art status
            && evaluate_builtin_check traits m rule.check art))

pub data Refusal : Type 0 where
  invalid : Verdict → Refusal
  blocked_by : String → Refusal
  gate_failed gate_blocked : String → Refusal

unfoldable pub first_rule :
    Traits → MemoryStore → Artifact → String → Bool → List RuleDef → Option Refusal
unfolding rule_blocks
first_rule traits m art status force [] = none
first_rule traits m art status force (rule ∷ rules) =
    let rest = first_rule traits m art status force rules in
    if rule_blocks traits m art status force rule then some (blocked_by rule.id) else rest

abbrev gate_refusal : String → GateAnswer → Option Refusal
gate_refusal name failed = some (gate_failed name)
gate_refusal name (result passed severity) =
    if not passed && severity == "blocking" then some (gate_blocked name) else none

abbrev pub or_refusal : Option Refusal → Option Refusal → Option Refusal
or_refusal none r = r
or_refusal (some e) r = some e

unfoldable pub first_gate : Artifact → List QualityGate → Option Refusal
first_gate art [] = none
first_gate art (gate ∷ gates) =
    or_refusal (gate_refusal gate.name (gate.validate art)) (first_gate art gates)

abbrev verdict_refusal : Bool → Verdict → Option Refusal
verdict_refusal force accepted = none
verdict_refusal force v = if force then none else some (invalid v)

-- the checks of setStatusForce, in their order
unfoldable pub admission : Config → MemoryStore → Artifact → String → Bool → Option Refusal
unfolding first_rule first_gate
admission cfg m art status force =
    or_refusal
      (verdict_refusal force
        (validate_status cfg.traits (kind_of art) (status_from_labels art.labels) status))
      (or_refusal (first_rule cfg.traits m art status force cfg.rules)
        (if is_terminal cfg.traits status then first_gate art cfg.gates else none))
