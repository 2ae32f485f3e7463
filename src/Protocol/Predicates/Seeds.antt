-- ===== src/Protocol/Predicates/Seeds.antt =====
-- rule.go and registry.go: the rules that the program brings along are written as artifacts when it starts.
pub mod Kept
use parchment.Prelude.{ℕ, String, Bool, List, [], ◌∷◌, ◌++◌, ◌<>◌, ◌==◌, none, if◌then◌else◌}
use parchment.Artifact.{Artifact, Section}
use parchment.Artifact.Labels.{label_prefix_kind, label_prefix_scope}
use parchment.Store.{MemoryStore}
use parchment.Store.Artifacts.{get, put}
use parchment.Store.Result.{Result, ok, err}
use parchment.Store.Summary.{schema_scope}

pub record RuleYaml : Type 0 where
  pub name : String
  pub trigger : String
  pub when : String
  pub action : String
  pub forceable : Bool
  pub check : String
  pub message : String

abbrev pub rule_id : RuleYaml → String
rule_id r = "RULE-" <> r.name

abbrev section : String → String → Section
section name text = record { name = name; text = text }

-- the sections that only some rules have
abbrev optional_sections : RuleYaml → List Section
optional_sections r =
    (if r.forceable then section "forceable" "true" ∷ [] else [])
    ++ (if r.check == "" then [] else section "check" r.check ∷ [])

unfoldable pub rule_artifact : ℕ → RuleYaml → Artifact
rule_artifact now r = record {
  id = rule_id r;
  title = r.name;
  labels =
      (label_prefix_kind <> "support.rule")
      ∷ "work.active"
      ∷ (label_prefix_scope <> schema_scope)
      ∷ [];
  sections =
      section "trigger" r.trigger
      ∷ section "when" r.when
      ∷ section "action" r.action
      ∷ section "message" r.message
      ∷ optional_sections r;
  extra = none;
  annotations = [];
  created_at = now;
  updated_at = now;
  inserted_at = now;
  warnings = [];
}

abbrev pub seed_rule : ℕ → MemoryStore → RuleYaml → Result Artifact → MemoryStore
seed_rule now m r (ok art) = m
seed_rule now m r (err e) = (put now m (rule_artifact now r)).1

unfoldable pub seed_rules : ℕ → MemoryStore → List RuleYaml → MemoryStore
seed_rules now m [] = m
seed_rules now m (r ∷ rs) = seed_rules now (seed_rule now m r (get m (rule_id r))) rs
