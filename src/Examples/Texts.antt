-- ===== src/Examples/Texts.antt =====
-- Texts that are read: wikilinks, predicates and rules, applied.
use mathlib.Core.List.Memᴰ
use mathlib.Core.Bool.{true≢false}
use mathlib.Core.Option.{none-ne-some}
use parchment.Prelude.{
  String, true, false, List, [], ◌∷◌, ◌≡◌, ◌≢◌, ◌⊎◌, ◌↔◌, refl, sym, ap, ◌∙◌, subst, ◌==◌, eq_iff,
  map, ◌++◌, has_prefix, trim_prefix, Memᴰ, all_of, contains_rune,
}
use parchment.Prelude.Scanning.{trim_space, is_space, cut}
use parchment.Prelude.Words.{every}
use parchment.Dict.{lookup, insert}
use parchment.Artifact.{Artifact}
use parchment.Store.{MemoryStore, Edge, new_memory_store}
use parchment.Store.Artifacts.{get, put}
use parchment.Store.Edges.Key.{NoBar}
use parchment.Store.Edges.Neighbors.{Stored}
use parchment.Store.Valid.Reachable.{Reachable, started, stepped, putting, Reachable-IsValid}
use parchment.Protocol.Kinds.{Traits, is_known_status}
use parchment.Protocol.Predicates.{rule, parse_rule, or_text, rule_action_block, matches_predicate}
use parchment.Protocol.Predicates.Written.{Equation, IsEquation, holds, matches_predicate-write}
use parchment.Protocol.Predicates.Seeds.{RuleYaml, rule_artifact}
use parchment.Protocol.Predicates.Seeds.Kept.{parse_rule-rule_artifact}
use parchment.Protocol.Statuses.{accepted, transitions_of, validate_status}
use parchment.Protocol.Statuses.Allowed.{Declared, InLifecycle}
use parchment.Protocol.Statuses.Validated.{IsOpen, validate_status_iff}
use parchment.Protocol.Traits.{no_trait}
use parchment.Protocol.Wikilink.{
  Folding, WikilinkRef, edge_source_wikilink, extract_wikilinks, section_refs,
  extract_wikilink_refs, parse_wikilink, sync_wikilinks,
}
use parchment.Protocol.Wikilink.Entries.{IsPlain, VisitsAll}
use parchment.Protocol.Wikilink.Extracted.{Piece, submatches-write, extract_wikilinks-write}
use parchment.Protocol.Wikilink.Reconciled.{Declares, RefersTo, relation_of, sync_wikilinks_lem}
use parchment.Examples.{draft, other}

differs : (a b : String) → (a == b) ≡ false → a ≢ b
differs a b e q = true≢false (sym ((eq_iff a b).1 q) ∙ e)

abbrev piece : Piece
piece = record { before = "see "; inner = " T-2 " }

extract_wikilinks-write_example :
    extract_wikilinks "see [[ T-2 ]] and more"
    ≡ map (λ (p : Piece). trim_space p.inner) (piece ∷ [])
unfolding contains_rune
extract_wikilinks-write_example =
    extract_wikilinks-write (piece ∷ []) " and more" ((refl, refl, differs " T-2 " "" refl), tt)
      refl

abbrev complete_tasks : List Equation
complete_tasks =
    record { field = "kind"; value = "task" }
    ∷ record { field = "to"; value = "work.complete" }
    ∷ []

matches_predicate-write_example :
    matches_predicate "kind=task AND to=work.complete" draft "work.complete"
    ≡ all_of (holds draft "work.complete") complete_tasks
unfolding is_space contains_rune every
matches_predicate-write_example =
    matches_predicate-write draft "work.complete" complete_tasks (kind_part, (to_part, tt))
  where
    kind_part : IsEquation (record { field = "kind"; value = "task" })
    kind_part = record {
      field_words = refl;
      value_words = refl;
      field_quotes = refl;
      value_quotes = refl;
      no_equals = refl;
    }

    to_part : IsEquation (record { field = "to"; value = "work.complete" })
    to_part = record {
      field_words = refl;
      value_words = refl;
      field_quotes = refl;
      value_quotes = refl;
      no_equals = refl;
    }

abbrev seed : RuleYaml
seed = record {
  name = "done";
  trigger = " status_changed ";
  when = "to=work.complete";
  action = "";
  forceable = true;
  check = "children_complete";
  message = "";
}

parse_rule-rule_artifact_example :
    parse_rule (λ name. name) (rule_artifact 10 seed)
    ≡ rule (record {
      id = "RULE-done";
      title = "done";
      trigger = trim_space " status_changed ";
      when = trim_space "to=work.complete";
      action = or_text (trim_space "") rule_action_block;
      forceable = true;
      check = trim_space "children_complete";
      message = or_text (trim_space "") "done";
    })
unfolding trim_space is_space
parse_rule-rule_artifact_example =
    parse_rule-rule_artifact (λ name. name) 10 seed
      (differs (trim_space " status_changed ") "" refl)
      (differs (trim_space "to=work.complete") "" refl)

abbrev life : Traits
life =
    (
      "kind:task",
      record no_trait {
        default_status = "work.draft";
        transitions = "work.draft→work.active" ∷ [];
      },
    )
    ∷ []

validate_status_iff_example :
    (validate_status life "task" "work.draft" "work.active" ≡ accepted) ↔ (
      (Path String "work.active" "" → ⊥)
      × ((InLifecycle life "task" "work.active"
            × ((Path String "work.draft" "")
                ⊎ (Path String "work.draft" "work.active")
                ⊎ Declared (transitions_of life "task") "work.draft" "work.active"))
          ⊎ (IsOpen life "task" × (is_known_status life "work.active" ≡ true))))
validate_status_iff_example = validate_status_iff life "task" "work.draft" "work.active"

abbrev noted : Artifact
noted = record draft { sections = record { name = "see"; text = "[[cites::T-2]]" } ∷ [] }

abbrev notes : MemoryStore
notes = (put 20 (put 10 new_memory_store noted).1 other).1

notes-Reachable : Reachable notes
notes-Reachable = stepped (stepped started (putting 10 noted)) (putting 20 other)

abbrev as_written : Folding
as_written = record { to_lower = λ s. s; equal_fold = λ a b. a == b }

in_order : VisitsAll (λ d. d)
in_order = record { same_entries = λ d k. refl; once = λ d h. h }

abbrev stored_noted : Artifact
stored_noted = (put 10 new_memory_store noted).0

abbrev cited : Piece
cited = record { before = ""; inner = "cites::T-2" }

refs-noted : section_refs noted.sections ≡ record { relation = "cites"; target = "T-2" } ∷ []
unfolding section_refs extract_wikilink_refs contains_rune parse_wikilink trim_space is_space cut
    has_prefix trim_prefix
refs-noted =
    ap (λ l. map parse_wikilink l ++ [])
      (submatches-write (cited ∷ []) "" ((refl, refl, differs "cites::T-2" "" refl), tt) refl)

refs-IsPlain :
    (r : WikilinkRef) → Memᴰ r (section_refs stored_noted.sections) → IsPlain (relation_of r)
unfolding put contains_rune
refs-IsPlain r i =
    subst (λ x. IsPlain (relation_of x))
      (sym (Memᴰ.eq_of_singleton (subst (λ l. Memᴰ r l) refs-noted i))) (refl, refl)

no_edges : (e : Edge) → Stored notes e → NoBar e.from × IsPlain e.relation
unfolding put lookup insert
no_edges e q = absurd (none-ne-some e q)

sync_wikilinks_lem_example :
    Declares
      (sync_wikilinks (λ d. d) as_written notes "T-1").1
      edge_source_wikilink
      "T-1"
      "cites"
      "T-2"
    ↔ RefersTo as_written notes "T-1" stored_noted "cites" "T-2"
unfolding contains_rune put get lookup insert
sync_wikilinks_lem_example =
    sync_wikilinks_lem (λ d. d) in_order as_written notes "T-1" stored_noted
      (Reachable-IsValid notes-Reachable).keys refl refl no_edges refs-IsPlain "cites" "T-2"
      (refl, refl)
