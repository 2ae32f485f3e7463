-- ===== src/Examples.antt =====
-- Small stores on which the theorems are applied: two tasks and the edges between them.
mod Stores
mod Edges
mod Graphs
mod Links
mod Queries
mod Records
mod Changes
mod Trees
mod Texts
mod Writing
use parchment.Prelude.{ℕ, String, List, [], ◌∷◌, none}
use parchment.Artifact.{Artifact}
use parchment.Store.{MemoryStore, Edge, new_memory_store}
use parchment.Store.Artifacts.{put}
use parchment.Store.Edges.{add_edge}
use parchment.Store.Valid.Reachable.{Reachable, started, stepped, putting, linking}

abbrev pub task : String → String → Artifact
task id title = record {
  id = id;
  title = title;
  labels = "kind:task" ∷ "work.draft" ∷ "project:docs" ∷ [];
  sections = [];
  extra = none;
  annotations = [];
  created_at = 0;
  updated_at = 0;
  inserted_at = 0;
  warnings = [];
}

abbrev pub draft : Artifact
draft = task "T-1" "draft"

abbrev pub final : Artifact
final = task "T-1" "final"

abbrev pub other : Artifact
other = task "T-2" "other"

abbrev pub depends : Edge
depends = record { from = "T-1"; to = "T-2"; relation = "depends_on"; weight = 0; sources = [] }

abbrev pub blocks : Edge
blocks = record { from = "T-2"; to = "T-1"; relation = "blocks"; weight = 3; sources = "wiki" ∷ [] }

-- the two tasks, put at the times 10 and 20, and the two edges
abbrev pub shop : MemoryStore
shop = add_edge (add_edge (put 20 (put 10 new_memory_store draft).1 other).1 depends) blocks

pub shop-Reachable : Reachable shop
shop-Reachable =
    stepped
      (stepped (stepped (stepped started (putting 10 draft)) (putting 20 other)) (linking depends))
      (linking blocks)
