-- ===== src/Store/Access.antt =====
-- memstore.go: how often, and when last, each artifact was read.
pub mod Counting
use parchment.Prelude.{ℕ, suc, ◌+◌, String, Option, none, some, List, [], ◌∷◌}
use parchment.Dict.{Dict, lookup, insert}
use parchment.Store.{MemoryStore, ArtifactMetrics, no_metrics}

-- m.metrics[id]: the zero value for an unknown artifact
abbrev pub metrics_at : Option ArtifactMetrics → ArtifactMetrics
metrics_at none = no_metrics
metrics_at (some entry) = entry

unfoldable pub record_access : ℕ → MemoryStore → String → MemoryStore
record_access now m id =
    let entry = metrics_at (lookup m.metrics id) in
    record m {
      metrics =
          insert m.metrics id
            (record { access_count = entry.access_count + 1; last_accessed = now });
    }

unfoldable pub get_metrics : MemoryStore → String → ArtifactMetrics
get_metrics m id = metrics_at (lookup m.metrics id)

collect : MemoryStore → List String → Dict ArtifactMetrics → Dict ArtifactMetrics
unfolding get_metrics
collect m [] out = out
collect m (id ∷ ids) out = collect m ids (insert out id (get_metrics m id))

unfoldable pub bulk_get_metrics : MemoryStore → List String → Dict ArtifactMetrics
unfolding collect
bulk_get_metrics m ids = collect m ids []
