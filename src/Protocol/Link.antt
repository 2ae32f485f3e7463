-- ===== src/Protocol/Link.antt =====
-- protocol_graph.go: `LinkArtifacts`. The fuel is that of reopenAncestors: see Link/Guarded.
pub mod Safe
pub mod Above
pub mod Guarded
pub mod Refused
use parchment.Prelude.{
  ℕ, suc, ◌+◌, String, Bool, true, false, ◌&&◌, not, Option, none, some, List, [], ◌∷◌, ◌==◌, ◌≡◌,
  ltb, length, map, any_of, is_empty, if◌then◌else◌,
}
use parchment.Artifact.{
  Artifact, Value, text, array, object, Elements, no_elements, element, Members, no_members, member,
}
use parchment.Artifact.Labels.{
  label_value, label_prefix_kind, label_prefix_scope, status_from_labels,
}
use parchment.Store.{MemoryStore, Edge}
use parchment.Store.Artifacts.{get}
use parchment.Store.Edges.{add_edge, remove_edge, neighbors, in_set, outgoing, incoming}
use parchment.Store.Events.{append_event}
use parchment.Store.Result.{Result, ok, err}
use parchment.Protocol.Admission.{Config, is_done}
use parchment.Protocol.Kinds.{Traits, is_template_kind}
use parchment.Protocol.Templates.{Conformance, conforms, lacks, check_template_conformance}
use parchment.Protocol.Transition.{Run, climbing, state_of, perform}
use parchment.Protocol.Checks.{
  LinkError, source_required, relation_required, target_required, source_not_found, not_a_template,
  nonconforming, Outcome, done, refused, resolve_targets, link_checks,
}
use parchment.Protocol.Emit.{emit_event}
use parchment.Protocol.Rules.{
  RelationshipTrait, rel_parent_of, rel_satisfies, is_edge_allowed, is_cycle_guarded,
  max_parents_for,
}

-- one entry of the answer; `already_linked` is the text of its `Error` field
pub data LinkResult : Type 0 where
  linked already_linked : String → LinkResult

abbrev pub edge_to : String → String → ℕ → String → Edge
edge_to source relation weight tid = record {
  from = source;
  to = tid;
  relation = relation;
  weight = weight;
  sources = [];
}

-- the IDs known to be linked, the store, and the error that ended the loop
pub record Satisfying : Type 0 where
  pub existing : List String
  pub store : MemoryStore
  pub failed : Option LinkError

abbrev pub does_conform : Conformance → Bool
does_conform conforms = true
does_conform (lacks names) = false

-- One target of a `satisfies` link: the edge is added, and removed again if the source does not conform.
unfoldable pub satisfy_one :
    Traits → Artifact → String → String → ℕ → Artifact → Satisfying → Satisfying
unfolding check_template_conformance
satisfy_one traits art source relation weight tpl s =
    if not (is_template_kind traits (label_value tpl.labels label_prefix_kind))
    then record s { failed = some (not_a_template tpl.id) }
    else if in_set s.existing tpl.id
    then s
    else (let e = edge_to source relation weight tpl.id in
        let m = add_edge s.store e in
        if does_conform (check_template_conformance traits m art true)
        then record s { existing = tpl.id ∷ s.existing; store = m }
        else record s {
          store = remove_edge m (edge_to source relation 0 tpl.id);
          failed = some nonconforming;
        })

unfoldable pub satisfy :
    Traits → Artifact → String → String → ℕ → List Artifact → Satisfying → Satisfying
unfolding satisfy_one
satisfy traits art source relation weight [] s = s
satisfy traits art source relation weight (tpl ∷ tpls) s =
    let s' = satisfy_one traits art source relation weight tpl s in
    elim s'.failed [ some e ↦ s' | none ↦ satisfy traits art source relation weight tpls s' ]

unfoldable pub link_each :
    String → String → ℕ → List String → List String → MemoryStore → List LinkResult × MemoryStore
link_each source relation weight [] existing m = ([], m)
link_each source relation weight (tid ∷ tids) existing m =
    let seen = in_set existing tid in
    let (results, m') =
      link_each source relation weight tids (if seen then existing else tid ∷ existing)
        (if seen then m else add_edge m (edge_to source relation weight tid)) in
    ((if seen then already_linked tid else linked tid) ∷ results, m')

unfoldable pub texts : List String → Elements
texts [] = no_elements
texts (s ∷ ss) = element (text s) (texts ss)

-- `map[string]any{"relation": relation, "targets": targetIDs}`
abbrev pub link_payload : String → List String → Value
unfolding texts
link_payload relation tids =
    object (member "relation" (text relation) (member "targets" (array (texts tids)) no_members))

-- the run after the event
abbrev pub announced : Config → Artifact → String → String → List String → Run → Run
announced cfg art source relation tids r = record {
  store =
      emit_event (cfg.clock r.ticks) r.store "linked" source
        (label_value art.labels label_prefix_scope) (link_payload relation tids);
  ticks = suc r.ticks;
}

-- What follows once the edges are there. `n` is the fuel of reopenAncestors, `none` that it ran out.
unfoldable pub after_link :
    Config → ℕ → Artifact → String → String → List String → List Artifact → Run → Option Run
unfolding perform
after_link cfg n art source relation tids targets r =
    let r' = announced cfg art source relation tids r in
    let reopened = state_of (perform cfg n (climbing art) r') in
    if relation == rel_parent_of && any_of (λ t. not (is_done cfg.traits t)) targets
    then reopened
    else some r'

-- the `satisfies` loop is skipped for the other relations
unfoldable pub prepare :
    Traits → Artifact → String → String → ℕ → List Artifact → MemoryStore → Satisfying
unfolding satisfy
prepare traits art source relation weight targets m =
    let s : Satisfying = record {
      existing = map (λ e. e.to) (neighbors m source relation outgoing);
      store = m;
      failed = none;
    } in
    if relation == rel_satisfies then satisfy traits art source relation weight targets s else s

abbrev pub Linked : Type 0
Linked = Option (Outcome (List LinkResult) × Run)

abbrev pub with_results : List LinkResult → Option Run → Linked
with_results results none = none
with_results results (some r) = some (done results, r)

unfoldable pub link_prepared :
    Config
    → ℕ
    → Run
    → Artifact
    → String
    → String
    → ℕ
    → List String
    → List Artifact
    → Satisfying
    → Option LinkError
    → Linked
unfolding link_each after_link
link_prepared cfg n r art source relation weight tids targets s (some e) =
    some (refused e, record r { store = s.store })
link_prepared cfg n r art source relation weight tids targets s none =
    let (results, m) = link_each source relation weight tids s.existing s.store in
    with_results results
      (after_link cfg n art source relation tids targets (record r { store = m }))

unfoldable pub link_checked :
    Config
    → ℕ
    → Run
    → Artifact
    → String
    → String
    → ℕ
    → List String
    → List Artifact
    → Option LinkError
    → Linked
unfolding prepare link_prepared
link_checked cfg n r art source relation weight tids targets (some e) = some (refused e, r)
link_checked cfg n r art source relation weight tids targets none =
    let s = prepare cfg.traits art source relation weight targets r.store in
    link_prepared cfg n r art source relation weight tids targets s s.failed

unfoldable pub link_targets :
    List RelationshipTrait
    → Config
    → ℕ
    → Run
    → Artifact
    → String
    → String
    → ℕ
    → List String
    → Outcome (List Artifact)
    → Linked
unfolding link_checks link_checked
link_targets rels cfg n r art source relation weight tids (refused e) = some (refused e, r)
link_targets rels cfg n r art source relation weight tids (done targets) =
    link_checked cfg n r art source relation weight tids targets
      (link_checks rels r.store art source relation tids targets)

unfoldable pub link_source :
    List RelationshipTrait
    → Config
    → ℕ
    → Run
    → String
    → String
    → ℕ
    → List String
    → Result Artifact
    → Linked
unfolding link_targets resolve_targets
link_source rels cfg n r source relation weight tids (err e) = some (refused source_not_found, r)
link_source rels cfg n r source relation weight tids (ok art) =
    link_targets rels cfg n r art source relation weight tids (resolve_targets r.store tids)

unfoldable pub link_artifacts :
    List RelationshipTrait → Config → ℕ → Run → String → String → List String → ℕ → Linked
unfolding link_source
link_artifacts rels cfg n r source relation tids weight =
    if source == ""
    then some (refused source_required, r)
    else if relation == ""
    then some (refused relation_required, r)
    else if is_empty tids
    then some (refused target_required, r)
    else link_source rels cfg n r source relation weight tids (get r.store source)
