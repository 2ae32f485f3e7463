-- ===== src/Store/Events.antt =====
-- memstore.go: the append-only event log.
pub mod Log
use parchment.Prelude.{
  ℕ, ◌+◌, String, Bool, ◌&&◌, ◌||◌, not, List, [], ◌∷◌, ◌++◌, ◌==◌, ltb, keep, any_of, is_empty,
}
use parchment.Store.{MemoryStore, Event}
use parchment.Store.Artifacts.{or_now}

pub record EventFilter : Type 0 where
  pub actor : String
  pub artifact_id : String
  pub scope : String
  pub event_types : List String

unfoldable pub append_event : ℕ → MemoryStore → Event → MemoryStore
append_event now m event =
    let n = m.event_id + 1 in
    record m {
      events = m.events ++ record event { id = n; ts = or_now event.ts now } ∷ [];
      event_id = n;
    }

-- the tests that a `continue` in the loop of GetEvents fails
unfoldable pub event_passes : ℕ → EventFilter → Event → Bool
event_passes since filter e =
    not (ltb e.ts since)
    && (filter.scope == "" || e.scope == filter.scope)
    && (filter.artifact_id == "" || e.artifact_id == filter.artifact_id)
    && (filter.actor == "" || e.actor == filter.actor)
    && (is_empty filter.event_types || any_of (λ et. e.event_type == et) filter.event_types)

unfoldable pub get_events : MemoryStore → ℕ → EventFilter → List Event
get_events m since filter = keep (event_passes since filter) m.events
