-- ===== src/Store/Valid/Beside.antt =====
-- The operations on what is kept beside the graph keep the invariant.
use parchment.Prelude.{ℕ, String, List, Option, none, some, refl}
use parchment.Dict.{Dict, lookup}
use parchment.Store.{MemoryStore, Attachment}
use parchment.Store.Access.{record_access}
use parchment.Store.Attachments.{put_attachment, without, delete_attachment}
use parchment.Store.Embeddings.{put_embedding, put_section_embedding}
use parchment.Store.Scopes.{set_scope_labels}
use parchment.Store.Valid.{IsValid}
use parchment.Store.Valid.Parts.{with_history}

pub record_access-IsValid :
    {m : MemoryStore} (now : ℕ) (id : String) → IsValid m → IsValid (record_access now m id)
unfolding record_access
record_access-IsValid now id v = with_history _ v v.history refl refl refl refl

pub put_attachment-IsValid :
    {m : MemoryStore} (id name content_type : String) (content : List ℕ)
    → IsValid m
    → IsValid (put_attachment m id name content_type content)
unfolding put_attachment
put_attachment-IsValid id name content_type content v =
    with_history _ v v.history refl refl refl refl

without-IsValid :
    {m : MemoryStore} (id name : String) (o : Option (Dict Attachment))
    → IsValid m
    → IsValid (without m id name o)
unfolding without
without-IsValid id name none v = v
without-IsValid id name (some files) v = with_history _ v v.history refl refl refl refl

pub delete_attachment-IsValid :
    {m : MemoryStore} (id name : String) → IsValid m → IsValid (delete_attachment m id name)
unfolding delete_attachment
delete_attachment-IsValid {m} id name v = without-IsValid id name (lookup m.attachments id) v

pub set_scope_labels-IsValid :
    {m : MemoryStore} (scope : String) (labels : List String)
    → IsValid m
    → IsValid (set_scope_labels m scope labels)
unfolding set_scope_labels
set_scope_labels-IsValid scope labels v = with_history _ v v.history refl refl refl refl

pub put_embedding-IsValid :
    {m : MemoryStore} (id model hash : String) (vec : List ℕ)
    → IsValid m
    → IsValid (put_embedding m id model hash vec)
unfolding put_embedding
put_embedding-IsValid id model hash vec v = with_history _ v v.history refl refl refl refl

pub put_section_embedding-IsValid :
    {m : MemoryStore} (id section model : String) (vec : List ℕ)
    → IsValid m
    → IsValid (put_section_embedding m id section model vec)
unfolding put_section_embedding
put_section_embedding-IsValid id section model vec v =
    with_history _ v v.history refl refl refl refl
