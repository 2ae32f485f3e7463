-- ===== src/Store/Embeddings/Keys.antt =====
-- Embeddings are kept apart by artifact and model.
use parchment.Prelude.{ℕ, String, List, ◌<>◌, ◌≡◌, refl, arith, ◌==◌, if◌then◌else◌}
use parchment.Dict.{lookup-insert}
use parchment.Store.{MemoryStore}
use parchment.Store.Result.{ok}
use parchment.Store.Embeddings.{
  embedding_key, put_embedding, get_embedding, get_embedding_hash, put_section_embedding,
}

-- After `PutEmbedding` the vector and the hash of the content are read back; what is read under every
-- other key, be it of another artifact or of another model, is as before. An embedding of a section is
-- read back under the artifact's ID, a slash and the section, and changes no hash.
pub get-put_embedding :
    (m : MemoryStore) (id model hash section : String) (vec : List ℕ) (id' model' : String)
    → (get_embedding (put_embedding m id model hash vec) id' model' ≡ (
        if embedding_key id model == embedding_key id' model'
        then ok vec
        else get_embedding m id' model'))
      × (get_embedding_hash (put_embedding m id model hash vec) id' model' ≡ (
          if embedding_key id model == embedding_key id' model'
          then hash
          else get_embedding_hash m id' model'))
      × (get_embedding (put_section_embedding m id section model vec) id' model' ≡ (
          if embedding_key (id <> ("/" <> section)) model == embedding_key id' model'
          then ok vec
          else get_embedding m id' model'))
      × (get_embedding_hash (put_section_embedding m id section model vec) id' model'
          ≡ get_embedding_hash m id' model')
unfolding get_embedding get_embedding_hash put_embedding put_section_embedding
get-put_embedding m id model hash section vec id' model' =
    let k = embedding_key id model in
    let k' = embedding_key id' model' in
    let s = embedding_key (id <> ("/" <> section)) model in
    (
      ground (arith, lookup-insert m.embeddings k k' vec),
      ground (arith, lookup-insert m.embedding_hashes k k' hash),
      ground (arith, lookup-insert m.embeddings s k' vec),
      refl,
    )
