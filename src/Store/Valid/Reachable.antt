-- ===== src/Store/Valid/Reachable.antt =====
-- The stores that a sequence of operations reaches from an empty one (memstore.go).
use mathlib.Core.Option.{none-ne-some}
use parchment.Prelude.{ℕ, String, List, refl}
use parchment.Dict.{lookup}
use parchment.Artifact.{Artifact}
use parchment.Store.{MemoryStore, Edge, Event, new_memory_store}
use parchment.Store.Aliases.{add_alias, remove_alias}
use parchment.Store.Artifacts.{put, bulk_put, delete, put_if_version}
use parchment.Store.Edges.{
  add_edge, bulk_add_edge, remove_edge, add_edge_source, remove_edge_source, update_edge_weight,
}
use parchment.Store.Events.{append_event}
use parchment.Store.Patch.{ArtifactPatch, patch_artifact}
use parchment.Store.Rename.{rename_id}
use parchment.Store.Revisions.{prune_revisions, purge_revisions}
use parchment.Store.Access.{record_access}
use parchment.Store.Attachments.{put_attachment, delete_attachment}
use parchment.Store.Embeddings.{put_embedding, put_section_embedding}
use parchment.Store.Scopes.{set_scope_labels}
use parchment.Store.Valid.Beside.{
  record_access-IsValid, put_attachment-IsValid, delete_attachment-IsValid,
  set_scope_labels-IsValid, put_embedding-IsValid, put_section_embedding-IsValid,
}
use parchment.Store.Valid.{IsValid}
use parchment.Store.Valid.Writes.{
  put-IsValid, bulk_put-IsValid, delete-IsValid, put_if_version-IsValid,
}
use parchment.Store.Valid.Changes.{
  add_edge-IsValid, bulk_add_edge-IsValid, remove_edge-IsValid, add_edge_source-IsValid,
  remove_edge_source-IsValid, update_edge_weight-IsValid, add_alias-IsValid, remove_alias-IsValid,
  rename_id-IsValid, patch_artifact-IsValid, append_event-IsValid, prune_revisions-IsValid,
  purge_revisions-IsValid,
}

-- one call that changes the store, whatever it returns
pub data Step : MemoryStore → MemoryStore → Type 0 where
  putting : {m : MemoryStore} (now : ℕ) (a : Artifact) → Step m (put now m a).1
  bulk_putting :
      {m : MemoryStore} (clock : ℕ → ℕ) (n : ℕ) (arts : List Artifact)
      → Step m (bulk_put clock n m arts).1
  putting_if :
      {m : MemoryStore} (now : ℕ) (a : Artifact) (version : ℕ)
      → Step m (put_if_version now m a version).1
  patching :
      {m : MemoryStore} (grow : ℕ → ℕ) (spare now : ℕ) (id : String) (patch : ArtifactPatch)
      → Step m (patch_artifact grow spare now m id patch).1
  deleting : {m : MemoryStore} (id : String) → Step m (delete m id).1
  renaming : {m : MemoryStore} (old new : String) → Step m (rename_id m old new).1
  linking : {m : MemoryStore} (e : Edge) → Step m (add_edge m e)
  bulk_linking : {m : MemoryStore} (es : List Edge) → Step m (bulk_add_edge m es)
  unlinking : {m : MemoryStore} (e : Edge) → Step m (remove_edge m e)
  declaring :
      {m : MemoryStore} (from rel to source : String)
      → Step m (add_edge_source m from rel to source)
  retracting :
      {m : MemoryStore} (from rel to source : String)
      → Step m (remove_edge_source m from rel to source)
  reweighing :
      {m : MemoryStore} (from to rel : String) (w : ℕ)
      → Step m (update_edge_weight m from to rel w).1
  aliasing : {m : MemoryStore} (id alias : String) → Step m (add_alias m id alias).1
  unaliasing : {m : MemoryStore} (id alias : String) → Step m (remove_alias m id alias)
  emitting : {m : MemoryStore} (now : ℕ) (e : Event) → Step m (append_event now m e)
  pruning : {m : MemoryStore} (id : String) (keep_n : ℕ) → Step m (prune_revisions m id keep_n).1
  accessing : {m : MemoryStore} (now : ℕ) (id : String) → Step m (record_access now m id)
  attaching :
      {m : MemoryStore} (id name content_type : String) (content : List ℕ)
      → Step m (put_attachment m id name content_type content)
  detaching : {m : MemoryStore} (id name : String) → Step m (delete_attachment m id name)
  labelling :
      {m : MemoryStore} (scope : String) (labels : List String)
      → Step m (set_scope_labels m scope labels)
  embedding :
      {m : MemoryStore} (id model hash : String) (vec : List ℕ)
      → Step m (put_embedding m id model hash vec)
  embedding_section :
      {m : MemoryStore} (id section model : String) (vec : List ℕ)
      → Step m (put_section_embedding m id section model vec)
  purging : {m : MemoryStore} (id : String) → Step m (purge_revisions m id)

pub data Reachable : MemoryStore → Type 0 where
  started : Reachable new_memory_store
  stepped : {m m' : MemoryStore} → Reachable m → Step m m' → Reachable m'

Step-IsValid : {m m' : MemoryStore} → Step m m' → IsValid m → IsValid m'
Step-IsValid (putting now a) v = put-IsValid now a v
Step-IsValid (bulk_putting clock n arts) v = bulk_put-IsValid arts clock n v
Step-IsValid (putting_if now a version) v = put_if_version-IsValid now a version v
Step-IsValid (patching grow spare now id patch) v = patch_artifact-IsValid grow spare now id patch v
Step-IsValid (deleting id) v = delete-IsValid id v
Step-IsValid (renaming old new) v = rename_id-IsValid old new v
Step-IsValid (linking e) v = add_edge-IsValid e v
Step-IsValid (bulk_linking es) v = bulk_add_edge-IsValid es v
Step-IsValid (unlinking e) v = remove_edge-IsValid e v
Step-IsValid (declaring from rel to source) v = add_edge_source-IsValid from rel to source v
Step-IsValid (retracting from rel to source) v = remove_edge_source-IsValid from rel to source v
Step-IsValid (reweighing from to rel w) v = update_edge_weight-IsValid from to rel w v
Step-IsValid (aliasing id alias) v = add_alias-IsValid id alias v
Step-IsValid (unaliasing id alias) v = remove_alias-IsValid id alias v
Step-IsValid (emitting now e) v = append_event-IsValid now e v
Step-IsValid (pruning id keep_n) v = prune_revisions-IsValid id keep_n v
Step-IsValid (accessing now id) v = record_access-IsValid now id v
Step-IsValid (attaching id name content_type content) v =
    put_attachment-IsValid id name content_type content v
Step-IsValid (detaching id name) v = delete_attachment-IsValid id name v
Step-IsValid (labelling scope labels) v = set_scope_labels-IsValid scope labels v
Step-IsValid (embedding id model hash vec) v = put_embedding-IsValid id model hash vec v
Step-IsValid (embedding_section id section model vec) v =
    put_section_embedding-IsValid id section model vec v
Step-IsValid (purging id) v = purge_revisions-IsValid id v

new_memory_store-IsValid : IsValid new_memory_store
unfolding lookup
new_memory_store-IsValid = record {
  ids = record { distinct = tt; keyed = λ k v e. absurd (none-ne-some v e) };
  keys = record { distinct = tt; keyed = λ k v e. absurd (none-ne-some v e) };
  history = λ id. tt;
  numbered = tt;
  counted = refl;
}

-- Every store that a sequence of operations reaches from the empty one is valid: each artifact stands under
-- its ID and each edge under its key, once, every history is numbered without a gap and holds versions of
-- the artifact it is kept for, and the events are numbered from 1 in the order of their calls.
pub Reachable-IsValid : {m : MemoryStore} → Reachable m → IsValid m
Reachable-IsValid started = new_memory_store-IsValid
Reachable-IsValid (stepped r s) = Step-IsValid s (Reachable-IsValid r)
