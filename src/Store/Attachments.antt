-- ===== src/Store/Attachments.antt =====
-- memstore.go: named blobs that are kept apart from the artifacts.
pub mod Lookup
use parchment.Prelude.{ℕ, String, Option, none, some, List, []}
use parchment.Dict.{Dict, lookup, insert, remove, values}
use parchment.Store.{MemoryStore, Attachment}

-- a nil map reads as an empty one
abbrev pub files_at : Option (Dict Attachment) → Dict Attachment
files_at none = []
files_at (some by_name) = by_name

unfoldable pub put_attachment : MemoryStore → String → String → String → List ℕ → MemoryStore
put_attachment m id name content_type content = record m {
  attachments = insert m.attachments id (
      insert (files_at (lookup m.attachments id)) name
        (record { name = name; content_type = content_type; content = content }));
}

unfoldable pub get_attachments : MemoryStore → String → List Attachment
get_attachments m id = values (files_at (lookup m.attachments id))

unfoldable pub without : MemoryStore → String → String → Option (Dict Attachment) → MemoryStore
without m id name none = m
without m id name (some by_name) = record m {
  attachments = insert m.attachments id (remove by_name name);
}

unfoldable pub delete_attachment : MemoryStore → String → String → MemoryStore
unfolding without
delete_attachment m id name = without m id name (lookup m.attachments id)
