-- ===== src/Store/Attachments/Lookup.antt =====
-- What is attached after a write or a deletion.
use parchment.Prelude.{
  ℕ, String, ◌&&◌, Option, none, some, List, ◌≡◌, arith, ◌==◌, eq_iff, if◌then◌else◌, Option-cases,
  inl, inr,
}
use parchment.Dict.{lookup, insert, remove, lookup-insert, lookup-remove}
use parchment.Store.{MemoryStore, Attachment}
use parchment.Store.Attachments.{files_at, put_attachment, without, delete_attachment}

-- the attachment of an artifact under a name
abbrev pub attached : MemoryStore → String → String → Option Attachment
attached m id name = lookup (files_at (lookup m.attachments id)) name

pub attached-put_attachment :
    (m : MemoryStore) (id name content_type : String) (content : List ℕ) (id' name' : String)
    → attached (put_attachment m id name content_type content) id' name' ≡ (
        if id == id' && name == name'
        then some (record { name = name; content_type = content_type; content = content })
        else attached m id' name')
unfolding put_attachment
attached-put_attachment m id name content_type content id' name' =
    let file : Attachment = record {
      name = name;
      content_type = content_type;
      content = content;
    } in
    let files = files_at (lookup m.attachments id) in
    ground (
      arith,
      lookup-insert m.attachments id id' (insert files name file),
      lookup-insert files name name' file,
      eq_iff id id',
    )

pub attached-delete_attachment :
    (m : MemoryStore) (id name id' name' : String)
    → attached (delete_attachment m id name) id' name'
      ≡ (if id == id' && name == name' then none else attached m id' name')
unfolding delete_attachment without
attached-delete_attachment m id name id' name' = elim (Option-cases (lookup m.attachments id)) [
  | inl e ↦ rw (e, without) (unfold lookup in ground (arith, eq_iff id id', e))
  | inr (files, e) ↦
      rw (e, without)
        (ground (
          arith,
          lookup-insert m.attachments id id' (remove files name),
          lookup-remove files name name',
          eq_iff id id',
          e,
        ))
]

-- An attachment that is put replaces the one of that name and leaves all others, of this artifact and
-- of the rest; deleting it again leaves none under the name, and all others as they were at first.
pub delete-put_attachment :
    (m : MemoryStore) (id name content_type : String) (content : List ℕ) (id' name' : String)
    → (attached (put_attachment m id name content_type content) id' name' ≡ (
        if id == id' && name == name'
        then some (record { name = name; content_type = content_type; content = content })
        else attached m id' name'))
      × (attached
            (delete_attachment (put_attachment m id name content_type content) id name)
            id'
            name'
          ≡ (if id == id' && name == name' then none else attached m id' name'))
delete-put_attachment m id name content_type content id' name' =
    let m' = put_attachment m id name content_type content in
    let put_one = attached-put_attachment m id name content_type content id' name' in
    (put_one, ground (arith, put_one, attached-delete_attachment m' id name id' name'))
