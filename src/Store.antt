-- ===== src/Store.antt =====
-- memstore.go, with the records of artifact.go, eventlog.go, revision.go and eviction.go that it keeps:
-- the in-memory store. Every operation holds the store's lock while it runs, so it is one step from
-- state to state; `now` is the clock's answer to `time.Now()`.
pub mod Result
pub mod Revisions
pub mod Artifacts
pub mod Edges
pub mod Aliases
pub mod Rename
pub mod Events
pub mod Patch
pub mod Valid
pub mod Walk
pub mod Pages
pub mod Summary
pub mod Queries
pub mod Embeddings
pub mod Scopes
pub mod Attachments
pub mod Access
use parchment.Prelude.{ℕ, String, List, []}
use parchment.Dict.{Dict}
use parchment.Artifact.{Artifact, Section, Annotation, Extra, Value}

-- A weight is a number of the unit in which the caller counts; 0 marks an edge without a weight.
pub record Edge : Type 0 where
  pub from : String
  pub to : String
  pub relation : String
  pub weight : ℕ
  pub sources : List String

pub record Attachment : Type 0 where
  pub name : String
  pub content_type : String
  pub content : List ℕ

pub record ArtifactMetrics : Type 0 where
  pub access_count : ℕ
  pub last_accessed : ℕ

-- ArtifactMetrics{}
abbrev pub no_metrics : ArtifactMetrics
no_metrics = record { access_count = 0; last_accessed = 0 }

pub record Event : Type 0 where
  pub id : ℕ
  pub ts : ℕ
  pub actor : String
  pub artifact_id : String
  pub scope : String
  pub event_type : String
  pub payload : Value

pub record Revision : Type 0 where
  pub artifact_id : String
  pub rev : ℕ
  pub kind : String
  pub scope : String
  pub status : String
  pub title : String
  pub goal : String
  pub labels : List String
  pub priority : String
  pub sprint : String
  pub sections : List Section
  pub extra : Extra
  pub annotations : List Annotation
  pub created_at : ℕ
  pub updated_at : ℕ

-- An embedding is the list of its components' bit patterns.
pub record MemoryStore : Type 0 where
  pub artifacts : Dict Artifact
  pub aliases : Dict String
  pub edges : Dict Edge
  pub scope_labels : Dict (List String)
  pub embeddings : Dict (List ℕ)
  pub embedding_hashes : Dict String
  pub metrics : Dict ArtifactMetrics
  pub attachments : Dict (Dict Attachment)
  pub events : List Event
  pub event_id : ℕ
  pub revisions : Dict (List Revision)

-- NewMemoryStore()
abbrev pub new_memory_store : MemoryStore
new_memory_store = record {
  artifacts = [];
  aliases = [];
  edges = [];
  scope_labels = [];
  embeddings = [];
  embedding_hashes = [];
  metrics = [];
  attachments = [];
  events = [];
  event_id = 0;
  revisions = [];
}
