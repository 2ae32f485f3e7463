-- ===== src/Protocol/Traits.antt =====
-- label_trait.go: the behaviour that labels grant, and how the traits of several labels are merged. The
-- three floating-point fields, which no merge reads, are given by the texts that print them.
pub mod Merged
use Prim.Native.Char.{Char, code}
use parchment.Prelude.{
  ℕ, suc, String, Bool, true, false, ◌&&◌, ◌||◌, not, Option, none, some, List, [], ◌∷◌, ◌++◌, ◌==◌,
  nat_eq, ltb, map, any_of, is_empty, contains_rune, if◌then◌else◌,
}
use parchment.Dict.{Dict, lookup}

pub record LabelTrait : Type 0 where
  pub eviction_policy : String
  pub world : String
  pub half_life_days : ℕ
  pub required_sections : List String
  pub always_apply : Bool
  pub terminal : Bool
  pub readonly : Bool
  pub eviction_quality : String
  pub default_status : String
  pub active_status : String
  pub transitions : List String
  pub must_sections : List String
  pub should_sections : List String
  pub properties : List String
  pub is_container_kind : Bool
  pub requires_implementation : Bool
  pub skip_empty_check : Bool
  pub protected : Bool
  pub skip_guards : Bool
  pub is_goal_kind : Bool
  pub track_in_brief : Bool
  pub activation_requires_sections : Bool
  pub is_template : Bool
  pub is_rule : Bool
  pub is_config : Bool
  pub recallable : Bool
  pub recall_weight : String
  pub relevance_boost : String
  pub audit_retain : Bool

-- LabelTrait{}
abbrev pub no_trait : LabelTrait
no_trait = record {
  eviction_policy = "";
  world = "";
  half_life_days = 0;
  required_sections = [];
  always_apply = false;
  terminal = false;
  readonly = false;
  eviction_quality = "0";
  default_status = "";
  active_status = "";
  transitions = [];
  must_sections = [];
  should_sections = [];
  properties = [];
  is_container_kind = false;
  requires_implementation = false;
  skip_empty_check = false;
  protected = false;
  skip_guards = false;
  is_goal_kind = false;
  track_in_brief = false;
  activation_requires_sections = false;
  is_template = false;
  is_rule = false;
  is_config = false;
  recallable = false;
  recall_weight = "0";
  relevance_boost = "0";
  audit_retain = false;
}

abbrev pub policy_protected : String
policy_protected = "protected"

abbrev pub policy_normal : String
policy_normal = "normal"

abbrev pub policy_aggressive : String
policy_aggressive = "aggressive"

-- a policy that the map of ranks does not have reads as 0, like `aggressive`
abbrev pub policy_rank : String → ℕ
policy_rank p = if p == policy_protected then 2 else if p == policy_normal || p == "" then 1 else 0

unfoldable pub merge_eviction_policy : String → String → String
merge_eviction_policy a b = if ltb (policy_rank a) (policy_rank b) then b else a

-- Appending what is not there yet also covers the repetitions within the second list.
unfoldable pub union_strings : List String → List String → List String
union_strings a [] = a
union_strings a (s ∷ b) = union_strings (if any_of (λ x. x == s) a then a else a ++ s ∷ []) b

abbrev pub first_text : String → String → String
first_text own other = if own == "" then other else own

unfoldable pub merge_composed_trait : LabelTrait → LabelTrait → LabelTrait
unfolding union_strings
merge_composed_trait own p = record own {
  eviction_policy = first_text own.eviction_policy p.eviction_policy;
  world = first_text own.world p.world;
  half_life_days = if nat_eq own.half_life_days 0 then p.half_life_days else own.half_life_days;
  always_apply = own.always_apply || p.always_apply;
  terminal = own.terminal || p.terminal;
  readonly = own.readonly || p.readonly;
  is_container_kind = own.is_container_kind || p.is_container_kind;
  requires_implementation = own.requires_implementation || p.requires_implementation;
  skip_empty_check = own.skip_empty_check || p.skip_empty_check;
  default_status = first_text own.default_status p.default_status;
  active_status = first_text own.active_status p.active_status;
  required_sections = union_strings own.required_sections p.required_sections;
  transitions = union_strings own.transitions p.transitions;
  must_sections = union_strings own.must_sections p.must_sections;
  properties = union_strings own.properties p.properties;
}

-- one round of the loop of ResolveTrait
unfoldable pub absorb : LabelTrait → Option LabelTrait → LabelTrait
unfolding merge_eviction_policy union_strings
absorb merged none = merged
absorb merged (some trait) = record merged {
  eviction_policy = merge_eviction_policy merged.eviction_policy trait.eviction_policy;
  half_life_days =
      if ltb merged.half_life_days trait.half_life_days
      then trait.half_life_days
      else merged.half_life_days;
  world = first_text merged.world trait.world;
  required_sections = union_strings merged.required_sections trait.required_sections;
  always_apply = merged.always_apply || trait.always_apply;
  terminal = merged.terminal || trait.terminal;
  readonly = merged.readonly || trait.readonly;
  is_container_kind = merged.is_container_kind || trait.is_container_kind;
  requires_implementation = merged.requires_implementation || trait.requires_implementation;
  skip_empty_check = merged.skip_empty_check || trait.skip_empty_check;
  default_status = first_text merged.default_status trait.default_status;
  active_status = first_text merged.active_status trait.active_status;
  transitions = union_strings merged.transitions trait.transitions;
  must_sections = union_strings merged.must_sections trait.must_sections;
  properties = union_strings merged.properties trait.properties;
}

unfoldable pub absorb_all : Dict LabelTrait → List String → LabelTrait → LabelTrait
unfolding absorb
absorb_all traits [] merged = merged
absorb_all traits (label ∷ labels) merged =
    absorb_all traits labels (absorb merged (lookup traits label))

-- The texts before each dot, the longest first: `strings.Join(parts[:depth], ".")` for the parts that
-- `strings.Split` makes, from the last depth down.
unfoldable pub dot_prefixes : String → List String
dot_prefixes String.[] = []
dot_prefixes (String.◌∷◌ c s) =
    let longer = map (String.◌∷◌ c) (dot_prefixes s) in
    if nat_eq (code c) b'.' then longer ++ String.[] ∷ [] else longer

expand_label : String → List String
unfolding dot_prefixes
expand_label label =
    if label == ""
    then []
    else label ∷ (if contains_rune label b':' then [] else dot_prefixes label)

-- the keys of the set, each once
unfoldable pub expand_labels : List String → List String → List String
unfolding expand_label union_strings
expand_labels seen [] = seen
expand_labels seen (label ∷ labels) = expand_labels (union_strings seen (expand_label label)) labels

-- `visit` is the order in which the runtime ranges over the set.
unfoldable pub resolve_trait :
    (List String → List String) → Dict LabelTrait → List String → LabelTrait
unfolding absorb_all expand_labels
resolve_trait visit traits labels =
    if is_empty traits || is_empty labels
    then no_trait
    else absorb_all traits (visit (expand_labels [] labels)) no_trait
