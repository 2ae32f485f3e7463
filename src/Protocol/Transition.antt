-- ===== src/Protocol/Transition.antt =====
-- protocol_lifecycle.go and plugin_effort.go: `setStatusForce`, and the status changes of parents that it
-- brings about. Each call takes fuel: see Transition/Ends.
pub mod Rule
pub mod Write
pub mod Ends
pub mod Near
pub mod Accepted
use parchment.Prelude.{
  ℕ, zero, suc, ◌+◌, String, Bool, true, false, ◌&&◌, ◌||◌, not, Option, none, some, List, [], ◌∷◌,
  ◌==◌, any_of, all_of, is_empty, if◌then◌else◌,
}
use parchment.Artifact.{Artifact, Value, text, object, member, no_members}
use parchment.Artifact.Labels.{
  label_value, label_prefix_scope, status_from_labels, set_status_label,
}
use parchment.Store.{MemoryStore, Edge}
use parchment.Store.Artifacts.{get, put}
use parchment.Store.Edges.{neighbors, incoming, outgoing}
use parchment.Store.Queries.{children}
use parchment.Store.Result.{Result, ok, err}
use parchment.Protocol.Admission.{Config, Refusal, is_done, kind_of, admission}
use parchment.Protocol.Emit.{emit_event}
use parchment.Protocol.Kinds.{Traits, is_terminal, is_container_kind, active_status}
use parchment.Protocol.Rules.{rel_parent_of}

-- the store, and how often the clock was read
pub record Run : Type 0 where
  pub store : MemoryStore
  pub ticks : ℕ

-- what is called: setStatusForce with its arguments, or reopenAncestors
pub data Task : Type 0 where
  setting : Artifact → String → Bool → Task
  climbing : Artifact → Task

-- `none` stands for fuel that ran out
abbrev pub Answer : Type 0
Answer = Option (Option Refusal × Run)

abbrev pub Call : Type 0
Call = Task → Run → Answer

-- a result of which only the state counts
abbrev pub state_of : Answer → Option Run
state_of none = none
state_of (some (_, r)) = some r

infixl 5 ◌>>=◌
abbrev pub ◌>>=◌ {ℓ} : {B : Type ℓ} → Option Run → (Run → Option B) → Option B
none >>= f = none
some r >>= f = f r

abbrev pub status_payload : String → String → Value
status_payload from to = object (member "from" (text from) (member "to" (text to) no_members))

-- the artifact with its new status is put, and the event follows
unfoldable pub apply_status : Config → Run → Artifact → String → Artifact × Run
unfolding put emit_event
apply_status cfg r art status =
    let art' = record art { labels = set_status_label art.labels status } in
    let (stored, m) = put (cfg.clock r.ticks) r.store art' in
    (
      stored,
      record {
        store =
            emit_event (cfg.clock (r.ticks + 1)) m "status_changed" art.id
              (label_value stored.labels label_prefix_scope)
              (status_payload (status_from_labels art.labels) status);
        ticks = r.ticks + 2;
      },
    )

abbrev pub work_complete : String
work_complete = "work.complete"

abbrev pub is_open_container : Config → Artifact → Bool
is_open_container cfg art =
    not (is_done cfg.traits art) && is_container_kind cfg.traits (kind_of art)

abbrev pub first_edge : List Edge → Option Edge
first_edge [] = none
first_edge (e ∷ es) = some e

abbrev pub found_or_none : Result Artifact → Option Artifact
found_or_none (ok a) = some a
found_or_none (err e) = none

-- `edges[0]` of a range over a map: the first in the order that the store has. Where an artifact has two
-- parents the program takes one of them at random.
unfoldable pub first_parent : MemoryStore → String → Option Artifact
first_parent m id = elim (first_edge (neighbors m id rel_parent_of incoming)) [
  | none ↦ none
  | some e ↦ found_or_none (get m e.from)
]

abbrev pub all_done : Config → List Artifact → Bool
all_done cfg arts = not (is_empty arts) && all_of (is_done cfg.traits) arts

-- autoCompleteParent
unfoldable pub auto_complete_parent : Config → Call → Artifact → Run → Option Run
unfolding first_parent
auto_complete_parent cfg call art r = elim (first_parent r.store art.id) [
  | none ↦ some r
  | some p ↦
      let completed = state_of (call (setting p work_complete false) r) in
      if is_open_container cfg p && all_done cfg (children r.store p.id) then completed else some r
]

abbrev pub child_is_done : Config → Result Artifact → Bool
child_is_done cfg (ok child) = is_done cfg.traits child
child_is_done cfg (err e) = false

abbrev pub targets_done : Config → MemoryStore → List Edge → Bool
targets_done cfg m edges =
    not (is_empty edges) && all_of (λ e. child_is_done cfg (get m e.to)) edges

-- one round of completionRollup
unfoldable pub roll_up : Config → Call → Result Artifact → Run → Option Run
roll_up cfg call (err e) r = some r
roll_up cfg call (ok p) r =
    let completed = state_of (call (setting p work_complete false) r) in
    if is_open_container cfg p
      && targets_done cfg r.store (neighbors r.store p.id rel_parent_of outgoing)
    then completed
    else some r

unfoldable pub roll_up_all : Config → Call → List Edge → Run → Option Run
unfolding roll_up
roll_up_all cfg call [] r = some r
roll_up_all cfg call (e ∷ es) r =
    roll_up cfg call (get r.store e.from) r >>= λ r'. roll_up_all cfg call es r'

-- completionRollup
unfoldable pub completion_rollup : Config → Call → Artifact → Run → Option Run
unfolding roll_up_all
completion_rollup cfg call art r =
    roll_up_all cfg call (neighbors r.store art.id rel_parent_of incoming) r

-- AfterTransition, which only the plugin for efforts has
unfoldable pub after_transition : Config → Call → Artifact → String → String → Run → Option Run
unfolding auto_complete_parent completion_rollup
after_transition cfg call art old new r =
    let completed = auto_complete_parent cfg call art r >>= completion_rollup cfg call art in
    let reopened = state_of (call (climbing art) r) in
    if is_terminal cfg.traits new
    then completed
    else if is_terminal cfg.traits old
    then reopened
    else some r

abbrev pub reopened_status : Config → Artifact → String
reopened_status cfg art =
    let active = active_status cfg.traits (kind_of art) in
    if active == "" then "work.active" else active

-- one round of the loop of reopenAncestors: the node, and then its first parent
unfoldable pub climb : Config → Call → Artifact → Run → Option Run
unfolding first_parent
climb cfg call node r =
    let reopened = state_of (call (setting node (reopened_status cfg node) true) r) in
    (if is_done cfg.traits node then reopened else some r) >>= λ r'.
    elim (first_parent r'.store node.id) [
      | none ↦ some r'
      | some p ↦ state_of (call (climbing p) r')
    ]

abbrev pub answered : Option Refusal → Option Run → Answer
answered e none = none
answered e (some r) = some (e, r)

unfoldable pub perform : Config → ℕ → Call
unfolding admission apply_status after_transition climb
perform cfg zero task r = none
perform cfg (suc n) (setting art status force) r =
    let (stored, r') = apply_status cfg r art status in
    let followed =
      after_transition cfg (perform cfg n) stored (status_from_labels art.labels) status r' in
    elim (admission cfg r.store art status force) [
      | some e ↦ some (some e, r)
      | none ↦ answered none followed
    ]
perform cfg (suc n) (climbing art) r = answered none (climb cfg (perform cfg n) art r)
