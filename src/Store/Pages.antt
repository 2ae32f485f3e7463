-- ===== src/Store/Pages.antt =====
-- memstore.go: `ListPage`, with the cursors of sqlite_read.go. `format` is `Time.Format` with the layout
-- time.RFC3339Nano.
pub mod Cursor
pub mod Order
pub mod Next
use Prim.Native.Char.{Char, code}
use parchment.Prelude.{
  ℕ, suc, String, Bool, true, false, ◌&&◌, ◌||◌, not, Option, none, some, List, [], ◌∷◌, ◌==◌, ◌<>◌,
  nat_eq, ltb, str_leb, length, take, keep, if◌then◌else◌,
}
use parchment.Prelude.Sorting.{sort_slice}
use parchment.Dict.{values}
use parchment.Artifact.{Artifact}
use parchment.Artifact.Filter.{Filter, matches}
use parchment.Store.{MemoryStore}

pub record Page : Type 0 where
  pub artifacts : List Artifact
  pub next_cursor : String
  pub total : ℕ

-- the text "\x00"
abbrev pub nul : Char
nul = "\0"

unfoldable pub encode_cursor : String → String → String
encode_cursor inserted_at id = inserted_at <> String.◌∷◌ nul id

longer : Char → Option (String × String) → Option (String × String)
longer c none = none
longer c (some (s, t)) = some (String.◌∷◌ c s, t)

unfoldable pub decode_cursor : String → Option (String × String)
unfolding longer
decode_cursor String.[] = none
decode_cursor (String.◌∷◌ c s) =
    let rest = decode_cursor s in if nat_eq (code c) 0 then some (String.[], s) else longer c rest

-- the order of a page, by insertion time and then by ID
abbrev pub by_time : Artifact → Artifact → Bool
by_time a b =
    if nat_eq a.inserted_at b.inserted_at
    then str_leb a.id b.id
    else ltb a.inserted_at b.inserted_at

-- `s < t` on texts
abbrev pub str_ltb : String → String → Bool
str_ltb s t = not (str_leb t s)

module _ (format : ℕ → String) where
  -- the test of the loop that skips what stands at or before the cursor
  abbrev pub passed : String → String → Artifact → Bool
  passed cursor_ts cursor_id art =
      str_ltb (format art.inserted_at) cursor_ts
      || (format art.inserted_at == cursor_ts && str_leb art.id cursor_id)

  unfoldable pub skip : String → String → List Artifact → List Artifact
  skip ts id [] = []
  skip ts id (a ∷ arts) = let rest = skip ts id arts in if passed ts id a then rest else a ∷ arts

  -- An empty cursor, or one that does not decode, skips nothing.
  unfoldable pub after_cursor : Option (String × String) → List Artifact → List Artifact
  unfolding skip
  after_cursor none arts = arts
  after_cursor (some (ts, id)) arts = skip ts id arts

  abbrev pub parts : String → Option (String × String)
  parts cursor = if cursor == "" then none else decode_cursor cursor

  -- results[len(results)-1]
  unfoldable pub cursor_of_last : List Artifact → String
  unfolding encode_cursor
  cursor_of_last [] = ""
  cursor_of_last (a ∷ []) = encode_cursor (format a.inserted_at) a.id
  cursor_of_last (a ∷ arts) = cursor_of_last arts

  unfoldable pub limit_page : ℕ → ℕ → List Artifact → Page
  unfolding cursor_of_last
  limit_page total limit results =
      if ltb 0 limit && ltb limit (length results)
      then record {
        artifacts = take limit results;
        next_cursor = cursor_of_last (take limit results);
        total = total;
      }
      else record { artifacts = results; next_cursor = ""; total = total }

  unfoldable pub list_page : MemoryStore → Filter → Page
  unfolding after_cursor limit_page
  list_page m f =
      let results = sort_slice by_time (keep (matches f) (values m.artifacts)) in
      limit_page (length results) f.limit (after_cursor (parts f.cursor) results)
