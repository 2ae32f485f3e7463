-- ===== src/Store/Valid.antt =====
-- The invariant of the in-memory store, and the steps that its operations make.
pub mod Parts
pub mod Writes
pub mod Changes
pub mod Beside
pub mod Reachable
use parchment.Prelude.{ℕ, suc, ◌+◌, String, List, [], ◌∷◌, ◌≡◌, length}
use parchment.Store.{MemoryStore, Event}
use parchment.Store.Artifacts.{HasIds}
use parchment.Store.Edges.Neighbors.{HasKeys}
use parchment.Store.Revisions.History.{Histories}

-- the events, numbered from `n` on
abbrev pub IsNumbered : ℕ → List Event → Type 0
IsNumbered n [] = Unit
IsNumbered n (e ∷ es) = (e.id ≡ n) × IsNumbered (suc n) es

-- Each artifact stands under its ID and each edge under its key, once; every history is numbered without
-- a gap and belongs to its artifact; the events are numbered from 1 by the counter.
pub record IsValid (m : MemoryStore) : Type 0 where
  pub ids : HasIds m.artifacts
  pub keys : HasKeys m.edges
  pub history : Histories m
  pub numbered : IsNumbered 1 m.events
  pub counted : m.event_id ≡ length m.events
