-- ===== src/Prelude/Texts.antt =====
-- Go's `strings` functions that the sources use, by recursion on the characters of a text.
use Prim.Native.Nat.{ℕ}
use Prim.Native.Char.{Char, code}
use Prim.Native.String.append
use Prim.Native.String.{String, ◌++◌}
use mathlib.Core.Path.{◌≡◌, refl, sym}
use mathlib.Core.Logic.{◌⊎◌, inl, inr}
use mathlib.Core.Bool.{Bool, true, false, ◌&&◌, ◌||◌}
use native.Mathlib.Omega.{arith}
use text.Mathlib.TextEquality.{Char-path}
use parchment.Prelude.Tests.{ltb, nat_eq, if◌then◌else◌}

abbrev char_eq : Char → Char → Bool
char_eq c d = nat_eq (code c) (code d)

-- strings.HasPrefix(s, prefix)
unfoldable pub has_prefix : String → String → Bool
has_prefix s String.[] = true
has_prefix String.[] (String.◌∷◌ d p) = false
has_prefix (String.◌∷◌ c s) (String.◌∷◌ d p) = char_eq c d && has_prefix s p

-- strings.TrimPrefix(s, prefix) where s has the prefix: as many characters are dropped
drop_chars : String → String → String
drop_chars s String.[] = s
drop_chars String.[] (String.◌∷◌ d p) = String.[]
drop_chars (String.◌∷◌ c s) (String.◌∷◌ d p) = drop_chars s p

unfoldable pub trim_prefix : String → String → String
unfolding drop_chars
trim_prefix s p = if has_prefix s p then drop_chars s p else s

-- strings.ContainsRune(s, r)
unfoldable pub contains_rune : String → ℕ → Bool
contains_rune String.[] r = false
contains_rune (String.◌∷◌ c s) r = nat_eq (code c) r || contains_rune s r

-- the order of Go's `<=` on strings: that of the UTF-8 bytes is that of the code points
unfoldable pub str_leb : String → String → Bool
str_leb String.[] t = true
str_leb (String.◌∷◌ c s) String.[] = false
str_leb (String.◌∷◌ c s) (String.◌∷◌ d t) =
    let rest = str_leb s t in
    if ltb (code c) (code d) then true else if char_eq c d then rest else false

pub has_prefix-append : (p s : String) → has_prefix (p ++ s) p ≡ true
unfolding has_prefix
has_prefix-append String.[] s = refl
has_prefix-append (String.◌∷◌ c p) s = rw append.cons (ground (arith, has_prefix-append p s))

drop_chars-append : (p s : String) → drop_chars (p ++ s) p ≡ s
unfolding drop_chars
drop_chars-append String.[] s = append.nil s
drop_chars-append (String.◌∷◌ c p) s = rw append.cons (drop_chars-append p s)

pub trim_prefix-append : (p s : String) → trim_prefix (p ++ s) p ≡ s
unfolding trim_prefix
trim_prefix-append p s = rw (has_prefix-append p s, if◌then◌else◌) (drop_chars-append p s)

drop_chars-split : (s p : String) → has_prefix s p ≡ true → s ≡ p ++ drop_chars s p
unfolding has_prefix drop_chars
drop_chars-split s String.[] h = sym (append.nil s)
drop_chars-split String.[] (String.◌∷◌ d p) h = cc
drop_chars-split (String.◌∷◌ c s) (String.◌∷◌ d p) h =
    ground (arith, append.cons d p (drop_chars s p), drop_chars-split s p, Char-path c d)

-- a text with the prefix is the prefix and what is left of it
pub has_prefix-split : (s p : String) → has_prefix s p ≡ true → s ≡ p ++ trim_prefix s p
unfolding trim_prefix
has_prefix-split s p h = rw (h, if◌then◌else◌) (drop_chars-split s p h)

pub has_prefix-drop : (s p : String) → has_prefix s p ≡ true → (r : String) × (s ≡ p ++ r)
has_prefix-drop s p h = (trim_prefix s p, has_prefix-split s p h)

pub str_leb_refl : (s : String) → str_leb s s ≡ true
unfolding str_leb
str_leb_refl String.[] = refl
str_leb_refl (String.◌∷◌ c s) = ground (arith, str_leb_refl s)

pub str_leb_total : (s t : String) → (str_leb s t ≡ true) ⊎ (str_leb t s ≡ true)
unfolding str_leb
str_leb_total String.[] t = inl refl
str_leb_total (String.◌∷◌ c s) String.[] = inr refl
str_leb_total (String.◌∷◌ c s) (String.◌∷◌ d t) = ground (arith, str_leb_total s t)

pub str_leb_antisym : (s t : String) → str_leb s t ≡ true → str_leb t s ≡ true → s ≡ t
unfolding str_leb
str_leb_antisym String.[] String.[] h k = refl
str_leb_antisym String.[] (String.◌∷◌ d t) h k = cc
str_leb_antisym (String.◌∷◌ c s) String.[] h k = cc
str_leb_antisym (String.◌∷◌ c s) (String.◌∷◌ d t) h k =
    ground (arith, str_leb_antisym s t, Char-path c d)

pub str_leb_trans : (s t u : String) → str_leb s t ≡ true → str_leb t u ≡ true → str_leb s u ≡ true
unfolding str_leb
str_leb_trans String.[] t u h k = refl
str_leb_trans (String.◌∷◌ c s) String.[] u h k = cc
str_leb_trans (String.◌∷◌ c s) (String.◌∷◌ d t) String.[] h k = cc
str_leb_trans (String.◌∷◌ c s) (String.◌∷◌ d t) (String.◌∷◌ e u) h k =
    ground (arith, str_leb_trans s t u)

-- two prefixes that differ at some character, so that no text has both
unfoldable pub clash : String → String → Bool
clash (String.◌∷◌ c p) (String.◌∷◌ d q) = let rest = clash p q in if char_eq c d then rest else true
clash _ _ = false

pub has_prefix-clash :
    (l p q : String) → clash p q ≡ true → has_prefix l p ≡ true → has_prefix l q ≡ false
unfolding clash has_prefix
has_prefix-clash l String.[] q h k = cc
has_prefix-clash l (String.◌∷◌ c p) String.[] h k = cc
has_prefix-clash String.[] (String.◌∷◌ c p) (String.◌∷◌ d q) h k = refl
has_prefix-clash (String.◌∷◌ b l) (String.◌∷◌ c p) (String.◌∷◌ d q) h k =
    ground (arith, has_prefix-clash l p q)

pub append-clash : (p q s : String) → clash p q ≡ true → has_prefix (p ++ s) q ≡ false
append-clash p q s h = has_prefix-clash (p ++ s) p q h (has_prefix-append p s)
