-- ===== src/Prelude/Scanning.antt =====
-- Go's `strings.TrimSpace`, `strings.Index`, `strings.Contains` and `strings.Split`, by recursion on the
-- characters of a text.
use Prim.Native.Nat.{ℕ, zero, suc, ◌+◌, ◌-◌}
use Prim.Native.Char.{Char, code}
use Prim.Native.String.append
use Prim.Native.String.{String, ◌++◌}
use mathlib.Core.Path.{◌≡◌, refl, sym, ap, ◌∙◌}
use mathlib.Core.Bool.{Bool, true, false, ◌&&◌, ◌||◌}
use mathlib.Core.Option.{Option, none, some}
use mathlib.Core.List.{List, [], ◌∷◌}
use native.Mathlib.Omega.{arith}
use text.Mathlib.Text.{◌==◌}
use text.Mathlib.TextLemmas.{head-eq_of_cons-eq, tail-eq_of_cons-eq}
use parchment.Prelude.Tests.{leb, ltb, nat_eq, if◌then◌else◌}
use parchment.Prelude.Texts.{has_prefix, trim_prefix, contains_rune}

abbrev between : ℕ → ℕ → ℕ → Bool
between lo hi c = leb lo c && leb c hi

-- unicode.IsSpace
unfoldable pub is_space : ℕ → Bool
is_space c =
    between 9 13 c
    || nat_eq c 32
    || nat_eq c 0x85
    || nat_eq c 0xA0
    || nat_eq c 0x1680
    || between 0x2000 0x200A c
    || between 0x2028 0x2029 c
    || nat_eq c 0x202F
    || nat_eq c 0x205F
    || nat_eq c 0x3000

-- strings.TrimLeftFunc and strings.TrimRightFunc
unfoldable pub trim_left : (ℕ → Bool) → String → String
trim_left p String.[] = String.[]
trim_left p (String.◌∷◌ c s) =
    let rest = trim_left p s in if p (code c) then rest else String.◌∷◌ c s

unfoldable pub trim_right : (ℕ → Bool) → String → String
trim_right p String.[] = String.[]
trim_right p (String.◌∷◌ c s) =
    let rest = trim_right p s in if rest == "" && p (code c) then String.[] else String.◌∷◌ c rest

-- strings.TrimFunc
abbrev pub trim : (ℕ → Bool) → String → String
trim p s = trim_left p (trim_right p s)

-- strings.TrimSpace
unfoldable pub trim_space : String → String
unfolding trim_left trim_right
trim_space s = trim is_space s

abbrev pub prepend : Char → Option (String × String) → Option (String × String)
prepend c none = none
prepend c (some (a, b)) = some (String.◌∷◌ c a, b)

-- what stands before and after the first occurrence of `sep`; none where `strings.Index` is -1
unfoldable pub cut : String → String → Option (String × String)
cut String.[] sep = if sep == "" then some ("", "") else none
cut (String.◌∷◌ c s) sep =
    let rest = prepend c (cut s sep) in
    if has_prefix (String.◌∷◌ c s) sep then some ("", trim_prefix (String.◌∷◌ c s) sep) else rest

-- strings.Contains(s, part)
unfoldable pub contains : String → String → Bool
contains String.[] part = part == ""
contains (String.◌∷◌ c s) part = has_prefix (String.◌∷◌ c s) part || contains s part

-- the number of characters
unfoldable pub str_length : String → ℕ
str_length String.[] = 0
str_length (String.◌∷◌ c s) = suc (str_length s)

-- len(s): the bytes that UTF-8 takes for each character
abbrev rune_length : ℕ → ℕ
rune_length n = if ltb n 128 then 1 else if ltb n 2048 then 2 else if ltb n 65536 then 3 else 4

unfoldable pub byte_length : String → ℕ
byte_length String.[] = 0
byte_length (String.◌∷◌ c s) = rune_length (code c) + byte_length s

-- strings.HasSuffix and strings.TrimSuffix
unfoldable pub has_suffix : String → String → Bool
has_suffix String.[] p = p == ""
has_suffix (String.◌∷◌ c s) p = String.◌∷◌ c s == p || has_suffix s p

unfoldable pub trim_suffix : String → String → String
trim_suffix String.[] p = ""
trim_suffix (String.◌∷◌ c s) p =
    let rest = String.◌∷◌ c (trim_suffix s p) in if String.◌∷◌ c s == p then "" else rest

abbrev pub onto_head : Char → List String → List String
onto_head c [] = []
onto_head c (x ∷ xs) = String.◌∷◌ c x ∷ xs

-- strings.Split(s, sep) with a separator that is not empty; the rest of a separator is skipped.
unfoldable pub split_from : String → ℕ → String → List String
split_from sep skip String.[] = "" ∷ []
split_from sep (suc n) (String.◌∷◌ c s) = split_from sep n s
split_from sep zero (String.◌∷◌ c s) = elim (has_prefix (String.◌∷◌ c s) sep) [
  | true ↦ "" ∷ split_from sep (str_length sep - 1) s
  | false ↦ onto_head c (split_from sep 0 s)
]

abbrev pub split : String → String → List String
split s sep = split_from sep 0 s

-- the first occurrence of a character divides a text in one way only
pub split_at_char :
    (d : Char) (s t u v : String)
    → contains_rune s (code d) ≡ false
    → contains_rune t (code d) ≡ false
    → s ++ String.◌∷◌ d u ≡ t ++ String.◌∷◌ d v
    → (s ≡ t) × (u ≡ v)
unfolding contains_rune
split_at_char d String.[] String.[] u v h k e =
    (refl, tail-eq_of_cons-eq (sym (append.nil _) ∙ e ∙ append.nil _))
split_at_char d String.[] (String.◌∷◌ c t) u v h k e =
    let q = head-eq_of_cons-eq (sym (append.nil _) ∙ e ∙ append.cons c t (String.◌∷◌ d v)) in
    absurd (ground (arith, ap code q))
split_at_char d (String.◌∷◌ c s) String.[] u v h k e =
    let q = head-eq_of_cons-eq (sym (append.cons c s (String.◌∷◌ d u)) ∙ e ∙ append.nil _) in
    absurd (ground (arith, ap code q))
split_at_char d (String.◌∷◌ b s) (String.◌∷◌ c t) u v h k e =
    let e' = sym (append.cons b s (String.◌∷◌ d u)) ∙ e ∙ append.cons c t (String.◌∷◌ d v) in
    let (p, q) = split_at_char d s t u v (ground arith) (ground arith) (tail-eq_of_cons-eq e') in
    (cc (head-eq_of_cons-eq e', p), q)
