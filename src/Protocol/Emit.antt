-- ===== src/Protocol/Emit.antt =====
-- eventlog.go: the events that the protocol writes.
use parchment.Prelude.{ℕ, String}
use parchment.Artifact.{Value}
use parchment.Store.{MemoryStore}
use parchment.Store.Events.{append_event}

unfoldable pub emit_event : ℕ → MemoryStore → String → String → String → Value → MemoryStore
emit_event now m event_type artifact_id scope payload = append_event now m (record {
  id = 0;
  ts = 0;
  actor = "";
  artifact_id = artifact_id;
  scope = scope;
  event_type = event_type;
  payload = payload;
})
