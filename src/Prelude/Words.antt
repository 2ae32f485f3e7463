-- ===== src/Prelude/Words.antt =====
-- What trimming, cutting and splitting do to texts that are put together from plain ones.
use Prim.Native.Nat.{ℕ, suc, ◌+◌, ◌-◌}
use Prim.Native.Char.{Char, code}
use Prim.Native.String.append
use Prim.Native.String.{String, ◌++◌}
use mathlib.Core.Path.{◌≡◌, refl, sym, ap, ◌∙◌, subst}
use mathlib.Core.Logic.{◌≢◌, inl, inr}
use mathlib.Core.Bool.{Bool, true, false, not, ◌&&◌}
use mathlib.Core.Option.{some}
use mathlib.Core.List.{[], ◌∷◌}
use native.Mathlib.Omega.{arith}
use text.Mathlib.Text.{◌==◌}
use text.Mathlib.TextEquality.{eq_iff}
use parchment.Prelude.Tests.{Bool-cases}
use parchment.Prelude.Texts.{has_prefix, trim_prefix, contains_rune, has_prefix-append}
use parchment.Prelude.Scanning.{
  is_space, trim, trim_left, trim_right, trim_space, cut, has_suffix, split_from, split, onto_head,
  str_length,
}

-- every character passes the test
unfoldable pub every : (ℕ → Bool) → String → Bool
every p String.[] = true
every p (String.◌∷◌ c s) = p (code c) && every p s

abbrev pub without : (ℕ → Bool) → ℕ → Bool
without p c = not (p c)

trim_right-id : (p : ℕ → Bool) (s : String) → every (without p) s ≡ true → trim_right p s ≡ s
unfolding every trim_right
trim_right-id p String.[] h = refl
trim_right-id p (String.◌∷◌ c s) h = let e = trim_right-id p s (ground arith) in ground (arith, e)

trim_left-id : (p : ℕ → Bool) (s : String) → every (without p) s ≡ true → trim_left p s ≡ s
unfolding every trim_left
trim_left-id p String.[] h = refl
trim_left-id p (String.◌∷◌ c s) h = ground arith

pub trim-id : (p : ℕ → Bool) (s : String) → every (without p) s ≡ true → trim p s ≡ s
trim-id p s h = ap (trim_left p) (trim_right-id p s h) ∙ trim_left-id p s h

pub trim_space-id : (s : String) → every (without is_space) s ≡ true → trim_space s ≡ s
unfolding trim_space
trim_space-id s h = trim-id is_space s h

pub every-append : (p : ℕ → Bool) (s t : String) → every p (s ++ t) ≡ (every p s && every p t)
unfolding every
every-append p String.[] t = ap (every p) (append.nil t)
every-append p (String.◌∷◌ c s) t = rw (append.cons c s t) (ground (arith, every-append p s t))

pub every-weaken :
    (p q : ℕ → Bool) (s : String)
    → ((c : ℕ) → p c ≡ true → q c ≡ true)
    → every p s ≡ true
    → every q s ≡ true
unfolding every
every-weaken p q String.[] w h = refl
every-weaken p q (String.◌∷◌ c s) w h = ground (arith, w (code c), every-weaken p q s w)

-- a separator of one character is found where it stands first
pub cut-append :
    (d : Char) (s t : String)
    → contains_rune s (code d) ≡ false
    → cut (s ++ (String.◌∷◌ d t)) (String.◌∷◌ d "") ≡ some (s, t)
unfolding contains_rune cut has_prefix trim_prefix
cut-append d String.[] t h = rw (append.nil (String.◌∷◌ d t)) (ground arith)
cut-append d (String.◌∷◌ c s) t h =
    rw (append.cons c s (String.◌∷◌ d t)) (ground (arith, cut-append d s t))

pub has_suffix-rune :
    (s p : String) (r : ℕ)
    → has_suffix s p ≡ true
    → contains_rune p r ≡ true
    → contains_rune s r ≡ true
unfolding has_suffix contains_rune
has_suffix-rune String.[] p r h k = subst (λ z. contains_rune z r ≡ true) ((eq_iff p "").0 h) k
has_suffix-rune (String.◌∷◌ c s) p r h k = elim (Bool-cases (String.◌∷◌ c s == p)) [
  | inl e ↦ subst (λ z. contains_rune z r ≡ true) (sym ((eq_iff (String.◌∷◌ c s) p).0 e)) k
  | inr e ↦ ground (arith, has_suffix-rune s p r)
]

split_from-skip :
    (sep s t : String) (n : ℕ) → split_from sep (str_length s + n) (s ++ t) ≡ split_from sep n t
unfolding split_from str_length
split_from-skip sep String.[] t n = let e : 0 + n ≡ n = omega arith in rw (e, append.nil t) refl
split_from-skip sep (String.◌∷◌ c s) t n =
    let e : suc (str_length s) + n ≡ suc (str_length s + n) = omega arith in
    rw (e, append.cons c s t) (split_from-skip sep s t n)

module _ (d : Char) (sep : String) where
  -- a separator that begins with the character does not begin elsewhere
  no_separator :
      (c : Char) (s : String)
      → code c ≢ code d
      → has_prefix (String.◌∷◌ c s) (String.◌∷◌ d sep) ≡ false
  unfolding has_prefix
  no_separator c s n = ground arith

  starts : (t : String) → has_prefix (String.◌∷◌ d (sep ++ t)) (String.◌∷◌ d sep) ≡ true
  starts t = rw (← append.cons d sep t) (has_prefix-append (String.◌∷◌ d sep) t)

  pub split-last :
      (s : String) → contains_rune s (code d) ≡ false → split s (String.◌∷◌ d sep) ≡ s ∷ []
  unfolding contains_rune split_from
  split-last String.[] h = refl
  split-last (String.◌∷◌ c s) h =
      rw (no_separator c s (ground arith), split_from)
        (ap (onto_head c) (split-last s (ground arith)))

  rest_of_separator :
      (t : String)
      → split_from (String.◌∷◌ d sep) (str_length (String.◌∷◌ d sep) - 1) (sep ++ t)
        ≡ split t (String.◌∷◌ d sep)
  unfolding str_length
  rest_of_separator t =
      let e : suc (str_length sep) - 1 ≡ str_length sep + 0 = omega arith in
      rw e (split_from-skip (String.◌∷◌ d sep) sep t 0)

  pub split-append :
      (s t : String)
      → contains_rune s (code d) ≡ false
      → split (s ++ (String.◌∷◌ d sep ++ t)) (String.◌∷◌ d sep) ≡ s ∷ split t (String.◌∷◌ d sep)
  unfolding contains_rune split_from
  split-append String.[] t h =
      rw (append.nil (String.◌∷◌ d sep ++ t), append.cons d sep t, starts t, split_from)
        (ap (◌∷◌ "") (rest_of_separator t))
  split-append (String.◌∷◌ c s) t h =
      let u = s ++ (String.◌∷◌ d sep ++ t) in
      rw (append.cons c s (String.◌∷◌ d sep ++ t), no_separator c u (ground arith), split_from)
        (ap (onto_head c) (split-append s t (ground arith)))
