-- ===== src/Protocol/Predicates.antt =====
-- rule.go: rules that are kept as artifacts, and the predicates that say when one of them fires.
pub mod Written
pub mod Seeds
use Prim.Native.Char.{code}
use parchment.Prelude.{
  ℕ, String, Bool, true, false, ◌&&◌, not, Option, none, some, List, [], ◌∷◌, ◌++◌, ◌<>◌, ◌==◌,
  nat_eq, map, all_of, any_of, keep, is_empty, if◌then◌else◌,
}
use parchment.Prelude.Scanning.{
  trim_space, trim, trim_left, trim_right, cut, has_suffix, trim_suffix, split, split_from,
}
use parchment.Artifact.{Artifact, Section}
use parchment.Artifact.Filter.{Filter, any_artifact}
use parchment.Artifact.Labels.{
  label_value, label_prefix_kind, label_prefix_status, label_prefix_scope, label_prefix_priority,
}
use parchment.Store.{MemoryStore}
use parchment.Store.Artifacts.{list}
use parchment.Store.Edges.{in_set}
use parchment.Store.Summary.{schema_scope}
use parchment.Protocol.Kinds.{Traits, rule_kind_labels}

pub record RuleDef : Type 0 where
  pub id : String
  pub title : String
  pub trigger : String
  pub when : String
  pub action : String
  pub forceable : Bool
  pub check : String
  pub message : String

abbrev pub rule_action_block : String
rule_action_block = "block"

-- `sections[name]` of the map that is filled in order: the last section of the name, trimmed
unfoldable pub section_text : String → List Section → String → String
section_text name [] found = found
section_text name (s ∷ ss) found =
    section_text name ss (if s.name == name then trim_space s.text else found)

abbrev pub or_text : String → String → String
or_text t otherwise = if t == "" then otherwise else t

pub data ParseError : Type 0 where
  not_a_rule missing_trigger missing_when : ParseError

pub data ParseOutcome : Type 0 where
  rule : RuleDef → ParseOutcome
  failed : ParseError → ParseOutcome

-- The message for a rule without one, `fmt.Sprintf("rule %q blocked the transition", art.Title)`, is made
-- by the formatter of the runtime.
unfoldable pub parse_rule : (String → String) → Artifact → ParseOutcome
unfolding section_text
parse_rule default_message art =
    let section = λ (name : String). section_text name art.sections "" in
    if not (label_value art.labels label_prefix_kind == "support.rule")
    then failed not_a_rule
    else if section "trigger" == ""
    then failed missing_trigger
    else if section "when" == ""
    then failed missing_when
    else rule (record {
      id = art.id;
      title = art.title;
      trigger = section "trigger";
      when = section "when";
      action = or_text (section "action") rule_action_block;
      forceable = section "forceable" == "true";
      check = section "check";
      message = or_text (section "message") (default_message art.title);
    })

unfoldable pub parsed_rules : (String → String) → List Artifact → List RuleDef
unfolding parse_rule
parsed_rules default_message [] = []
parsed_rules default_message (art ∷ arts) =
    let rest = parsed_rules default_message arts in
    elim (parse_rule default_message art) [ rule r ↦ r ∷ rest | failed e ↦ rest ]

unfoldable pub load_rules : (String → String) → Traits → MemoryStore → List RuleDef
unfolding parsed_rules rule_kind_labels
load_rules default_message traits m =
    let kinds = rule_kind_labels traits in
    if is_empty kinds
    then []
    else parsed_rules default_message (
        list m
          (record any_artifact { labels = kinds ++ (label_prefix_scope <> schema_scope) ∷ [] }))

unfoldable pub field_value : String → Artifact → String → String
field_value field art to_status =
    if field == "to"
    then to_status
    else if field == "kind"
    then label_value art.labels label_prefix_kind
    else if field == "status"
    then label_value art.labels label_prefix_status
    else if field == "priority"
    then label_value art.labels label_prefix_priority
    else if field == "scope"
    then label_value art.labels label_prefix_scope
    else ""

abbrev pub is_quote : ℕ → Bool
is_quote c = nat_eq c b'"'

abbrev pub equals : Option (String × String) → Artifact → String → Bool
equals none art to_status = true
equals (some (field, value)) art to_status =
    field_value (trim_space field) art to_status == trim is_quote (trim_space value)

unfoldable pub matches_term : String → Artifact → String → Bool
unfolding has_suffix trim_suffix cut trim_left trim_right
matches_term term art to_status =
    if has_suffix term "==\"\""
    then field_value (trim_suffix term "==\"\"") art to_status == ""
    else equals (cut term "=") art to_status

unfoldable pub matches_predicate : String → Artifact → String → Bool
unfolding split_from
matches_predicate predicate art to_status =
    all_of
      (λ term. if trim_space term == "" then true else matches_term (trim_space term) art to_status)
      (split predicate " AND ")

pub record RuleResult : Type 0 where
  pub rule_id : String
  pub action : String
  pub message : String

unfoldable pub evaluate_rule : RuleDef → Artifact → String → Option RuleResult
unfolding matches_predicate
evaluate_rule r art to_status =
    if not (r.trigger == "status_changed")
    then none
    else if not (r.check == "")
    then none
    else if not (matches_predicate r.when art to_status)
    then none
    else some (record {
      rule_id = r.id;
      action = or_text r.action rule_action_block;
      message = r.message;
    })

unfoldable pub missing_sections : List Section → List String → List String
missing_sections have required = keep (λ name. not (in_set (map (λ s. s.name) have) name)) required
