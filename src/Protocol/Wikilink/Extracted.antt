-- ===== src/Protocol/Wikilink/Extracted.antt =====
-- The references that stand in a text are found, in order.
use Prim.Native.Char.{Char, code}
use Prim.Native.String.append
use parchment.Prelude.{
  ℕ, suc, ◌+◌, String, false, none, some, List, [], ◌∷◌, ◌≡◌, ◌≢◌, refl, sym, ap, ◌∙◌, arith, map,
  ◌<>◌, if◌then◌else◌, contains_rune, has_prefix, has_prefix-append, trim_prefix-append, eq-false,
}
use parchment.Prelude.Scanning.{str_length, trim_space}
use parchment.Protocol.Wikilink.{read_inner, match_here, find_submatches, extract_wikilinks}

-- a stretch of a text that ends in a link
pub record Piece : Type 0 where
  pub before : String
  pub inner : String

-- there is no bracket before the link, and something without a closing bracket in it
abbrev pub IsPiece : Piece → Type 0
IsPiece p =
    (contains_rune p.before b'[' ≡ false) × (contains_rune p.inner b']' ≡ false) × (p.inner ≢ "")

abbrev pub AllPieces : List Piece → Type 0
AllPieces [] = Unit
AllPieces (p ∷ ps) = IsPiece p × AllPieces ps

abbrev pub write : List Piece → String → String
write [] tail = tail
write (p ∷ ps) tail = p.before <> ("[[" <> (p.inner <> ("]]" <> write ps tail)))

no_match : (c : Char) (s : String) → code c ≢ b'[' → match_here (String.◌∷◌ c s) ≡ none
unfolding match_here has_prefix
no_match c s n = ground arith

skip_plain :
    (c : Char) (s : String)
    → code c ≢ b'['
    → find_submatches 0 (String.◌∷◌ c s) ≡ find_submatches 0 s
unfolding find_submatches
skip_plain c s n = rw (no_match c s n, find_submatches) refl

find_submatches-plain :
    (s t : String) → contains_rune s b'[' ≡ false → find_submatches 0 (s <> t) ≡ find_submatches 0 t
unfolding contains_rune
find_submatches-plain String.[] t h = ap (find_submatches 0) (append.nil t)
find_submatches-plain (String.◌∷◌ c s) t h =
    rw (append.cons c s t)
      (skip_plain c (s <> t) (ground arith) ∙ find_submatches-plain s t (ground arith))

read_inner-append :
    (s t : String) → contains_rune s b']' ≡ false → read_inner (s <> ("]]" <> t)) ≡ some s
unfolding read_inner contains_rune has_prefix
read_inner-append String.[] t h = rw (append.nil ("]]" <> t), append.cons, append.cons) refl
read_inner-append (String.◌∷◌ c s) t h =
    rw (append.cons c s ("]]" <> t)) (ground (arith, read_inner-append s t))

find_submatches-skip :
    (s t : String) (n : ℕ) → find_submatches (str_length s + n) (s <> t) ≡ find_submatches n t
unfolding str_length find_submatches
find_submatches-skip String.[] t n = let e : 0 + n ≡ n = omega arith in rw (e, append.nil t) refl
find_submatches-skip (String.◌∷◌ c s) t n =
    let e : suc (str_length s) + n ≡ suc (str_length s + n) = omega arith in
    rw (e, append.cons c s t) (find_submatches-skip s t n)

abbrev open_char : Char
open_char = "["

open-cons : (u : String) → "[[" <> u ≡ String.◌∷◌ open_char (String.◌∷◌ open_char u)
open-cons u = rw (append.cons, append.cons, append.nil u) refl

match_here-link :
    (s t : String)
    → contains_rune s b']' ≡ false
    → s ≢ ""
    → match_here ("[[" <> (s <> ("]]" <> t))) ≡ some s
unfolding match_here
match_here-link s t h n =
    let u = s <> ("]]" <> t) in
    rw
      (
        has_prefix-append "[[" u,
        trim_prefix-append "[[" u,
        read_inner-append s t h,
        eq-false s "" n,
        if◌then◌else◌,
      )
      refl

after_link :
    (s t : String)
    → find_submatches (str_length s + 3) (String.◌∷◌ open_char (s <> ("]]" <> t)))
      ≡ find_submatches 0 t
unfolding find_submatches str_length
after_link s t =
    let e : str_length s + 3 ≡ suc (str_length s + 2) = omega arith in
    rw e (find_submatches-skip s ("]]" <> t) 2 ∙ find_submatches-skip "]]" t 0)

-- a link is a match, and what follows it is searched next
find_submatches-link :
    (s t : String)
    → contains_rune s b']' ≡ false
    → s ≢ ""
    → find_submatches 0 ("[[" <> (s <> ("]]" <> t))) ≡ s ∷ find_submatches 0 t
unfolding find_submatches
find_submatches-link s t h n =
    let u = s <> ("]]" <> t) in
    let found : match_here (String.◌∷◌ open_char (String.◌∷◌ open_char u)) ≡ some s =
      ap match_here (sym (open-cons u)) ∙ match_here-link s t h n in
    rw (open-cons u, found, find_submatches) (ap (◌∷◌ s) (after_link s t))

plain_has_none : (s : String) → contains_rune s b'[' ≡ false → find_submatches 0 s ≡ []
unfolding contains_rune find_submatches
plain_has_none String.[] h = refl
plain_has_none (String.◌∷◌ c s) h = skip_plain c s (ground arith) ∙ plain_has_none s (ground arith)

pub submatches-write :
    (ps : List Piece) (tail : String)
    → AllPieces ps
    → contains_rune tail b'[' ≡ false
    → find_submatches 0 (write ps tail) ≡ map (λ p. p.inner) ps
submatches-write [] tail h k = plain_has_none tail k
submatches-write (p ∷ ps) tail (h, hs) k =
    find_submatches-plain p.before _ h.0
    ∙ find_submatches-link p.inner (write ps tail) h.1 h.2
    ∙ ap (◌∷◌ p.inner) (submatches-write ps tail hs k)

map-map :
    (ps : List Piece) → map trim_space (map (λ p. p.inner) ps) ≡ map (λ p. trim_space p.inner) ps
map-map [] = refl
map-map (p ∷ ps) = ap (◌∷◌ (trim_space p.inner)) (map-map ps)

-- From a text in which links stand between stretches without an opening bracket, `ExtractWikilinks` gives
-- what the links hold, without the spaces around it, in order and each as often as it stands there.
pub extract_wikilinks-write :
    (ps : List Piece) (tail : String)
    → AllPieces ps
    → contains_rune tail b'[' ≡ false
    → extract_wikilinks (write ps tail) ≡ map (λ p. trim_space p.inner) ps
unfolding extract_wikilinks
extract_wikilinks-write ps tail h k =
    ap (map trim_space) (submatches-write ps tail h k) ∙ map-map ps
