-- ===== src/Store/Embeddings.antt =====
-- memstore.go: embeddings of artifacts and of their sections.
pub mod Keys
use parchment.Prelude.{ℕ, String, Option, none, some, List, ◌<>◌}
use parchment.Dict.{Dict, lookup, insert}
use parchment.Store.{MemoryStore}
use parchment.Store.Result.{Result, ok, err, plain}

abbrev pub embedding_key : String → String → String
embedding_key artifact_id model = artifact_id <> (":" <> model)

unfoldable pub put_embedding : MemoryStore → String → String → String → List ℕ → MemoryStore
put_embedding m artifact_id model content_hash vec = record m {
  embeddings = insert m.embeddings (embedding_key artifact_id model) vec;
  embedding_hashes = insert m.embedding_hashes (embedding_key artifact_id model) content_hash;
}

-- a missing hash reads as the empty text
abbrev pub hash_at : Option String → String
hash_at none = ""
hash_at (some h) = h

unfoldable pub get_embedding_hash : MemoryStore → String → String → String
get_embedding_hash m artifact_id model =
    hash_at (lookup m.embedding_hashes (embedding_key artifact_id model))

abbrev pub or_no_embedding : Option (List ℕ) → Result (List ℕ)
or_no_embedding none = err plain
or_no_embedding (some vec) = ok vec

unfoldable pub get_embedding : MemoryStore → String → String → Result (List ℕ)
get_embedding m artifact_id model =
    or_no_embedding (lookup m.embeddings (embedding_key artifact_id model))

unfoldable pub put_section_embedding : MemoryStore → String → String → String → List ℕ → MemoryStore
put_section_embedding m artifact_id section model vec = record m {
  embeddings = insert m.embeddings (embedding_key (artifact_id <> ("/" <> section)) model) vec;
}
