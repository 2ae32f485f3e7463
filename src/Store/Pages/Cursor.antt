-- ===== src/Store/Pages/Cursor.antt =====
-- Cursors decode to what they were made of.
use Prim.Native.Char.{code}
use Prim.Native.String.append
use parchment.Prelude.{String, false, some, ◌≡◌, refl, arith, nat_eq, contains_rune, if◌then◌else◌}
use parchment.Store.Pages.{nul, encode_cursor, decode_cursor, longer}

-- A cursor decodes to the time and the ID that it was made of, whatever the ID is, as long as the text of
-- the time has no NUL.
pub decode_cursor-encode_cursor :
    (ts id : String)
    → contains_rune ts 0 ≡ false
    → decode_cursor (encode_cursor ts id) ≡ some (ts, id)
unfolding decode_cursor encode_cursor contains_rune longer
decode_cursor-encode_cursor String.[] id h = rw (append.nil (String.◌∷◌ nul id)) refl
decode_cursor-encode_cursor (String.◌∷◌ c ts) id h =
    let ih = decode_cursor-encode_cursor ts id (ground arith) in
    let f : nat_eq (code c) 0 ≡ false = ground arith in
    rw (append.cons c ts (String.◌∷◌ nul id), f, if◌then◌else◌, ih) refl
