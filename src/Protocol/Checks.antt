-- ===== src/Protocol/Checks.antt =====
-- protocol_graph.go: the checks that `LinkArtifacts` makes before it adds an edge.
use parchment.Prelude.{
  ℕ, ◌+◌, String, ◌&&◌, Option, none, some, List, [], ◌∷◌, ◌==◌, ltb, length, if◌then◌else◌,
}
use parchment.Artifact.{Artifact}
use parchment.Store.{MemoryStore}
use parchment.Store.Artifacts.{get}
use parchment.Store.Edges.{neighbors, incoming}
use parchment.Store.Result.{Result, ok, err}
use parchment.Protocol.Cycle.{would_cycle}
use parchment.Protocol.Rules.{
  RelationshipTrait, rel_parent_of, is_edge_allowed, is_cycle_guarded, max_parents_for,
}

pub data LinkError : Type 0 where
  source_required relation_required target_required source_not_found : LinkError
  target_not_found : String → LinkError
  too_many_parents : String → ℕ → ℕ → LinkError
  cycle_detected : List String → LinkError
  not_allowed : String → LinkError
  not_a_template : String → LinkError
  nonconforming : LinkError

pub data Outcome (A : Type 0) : Type 0 where
  done : A → Outcome A
  refused : LinkError → Outcome A

unfoldable pub found_target :
    String → Result Artifact → Outcome (List Artifact) → Outcome (List Artifact)
found_target tid (err e) rest = refused (target_not_found tid)
found_target tid (ok art) (refused e) = refused e
found_target tid (ok art) (done arts) = done (art ∷ arts)

unfoldable pub resolve_targets : MemoryStore → List String → Outcome (List Artifact)
unfolding found_target
resolve_targets m [] = done []
resolve_targets m (tid ∷ tids) = found_target tid (get m tid) (resolve_targets m tids)

-- the checks of the targets, each with the first that fails
unfoldable pub crowded : List RelationshipTrait → MemoryStore → List Artifact → Option LinkError
crowded rels m [] = none
crowded rels m (t ∷ ts) =
    let rest = crowded rels m ts in
    let max = max_parents_for rels t.labels in
    let n = length (neighbors m t.id rel_parent_of incoming) in
    if ltb 0 max && ltb max (n + 1) then some (too_many_parents t.id n max) else rest

unfoldable pub first_cycle : MemoryStore → String → String → List String → Option LinkError
first_cycle m relation source [] = none
first_cycle m relation source (tid ∷ tids) =
    let rest = first_cycle m relation source tids in
    let (cycle, path) = would_cycle m relation source tid in
    if cycle then some (cycle_detected path) else rest

unfoldable pub forbidden :
    List RelationshipTrait → List String → String → List Artifact → Option LinkError
forbidden rels labels relation [] = none
forbidden rels labels relation (t ∷ ts) =
    let rest = forbidden rels labels relation ts in
    if is_edge_allowed rels labels relation t.labels then rest else some (not_allowed t.id)

unfoldable pub or_else : Option LinkError → Option LinkError → Option LinkError
or_else none e = e
or_else (some e) _ = some e

unfoldable pub link_checks :
    List RelationshipTrait
    → MemoryStore
    → Artifact
    → String
    → String
    → List String
    → List Artifact
    → Option LinkError
unfolding crowded first_cycle forbidden or_else
link_checks rels m art source relation tids targets =
    or_else (if relation == rel_parent_of then crowded rels m targets else none) (
      or_else
        (if is_cycle_guarded rels art.labels relation
          then first_cycle m relation source tids
          else none)
        (forbidden rels art.labels relation targets))
