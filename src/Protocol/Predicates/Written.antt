-- ===== src/Protocol/Predicates/Written.antt =====
-- A predicate that is written as a conjunction of equations means what it says.
use Prim.Native.Char.{Char, code}
use Prim.Native.String.append
use mathlib.Core.Bool.{true≢false}
use parchment.Prelude.{
  ℕ, String, Bool, true, false, some, List, [], ◌∷◌, ◌≡◌, refl, sym, ap, ◌∙◌, arith, ◌<>◌, ◌==◌,
  eq-false, nat_eq, nat_eq_iff, if◌then◌else◌, all_of, map, contains_rune, Bool-cases, inl, inr,
}
use parchment.Prelude.Scanning.{is_space, trim_space, cut, has_suffix, split}
use parchment.Prelude.Words.{
  every, without, trim-id, trim_space-id, every-append, cut-append, has_suffix-rune, split-last,
  split-append,
}
use parchment.Artifact.{Artifact}
use parchment.Protocol.Predicates.{field_value, is_quote, matches_term, matches_predicate}

-- `field=value`
pub record Equation : Type 0 where
  pub field : String
  pub value : String

-- Neither part has a space or a quotation mark, and the field has no `=`.
pub record IsEquation (e : Equation) : Type 0 where
  pub field_words : every (without is_space) e.field ≡ true
  pub value_words : every (without is_space) e.value ≡ true
  pub field_quotes : every (without is_quote) e.field ≡ true
  pub value_quotes : every (without is_quote) e.value ≡ true
  pub no_equals : contains_rune e.field b'=' ≡ false

abbrev pub AllEquations : List Equation → Type 0
AllEquations [] = Unit
AllEquations (e ∷ es) = IsEquation e × AllEquations es

abbrev pub write_equation : Equation → String
write_equation e = e.field <> ("=" <> e.value)

abbrev pub write_predicate : List Equation → String
write_predicate [] = ""
write_predicate (e ∷ []) = write_equation e
write_predicate (e ∷ es) = write_equation e <> (" AND " <> write_predicate es)

-- the equation holds of the artifact and the status to which it passes
abbrev pub holds : Artifact → String → Equation → Bool
holds art to_status e = field_value e.field art to_status == e.value

every-without_rune :
    (p : ℕ → Bool) (s : String) (r : ℕ)
    → p r ≡ true
    → every (without p) s ≡ true
    → contains_rune s r ≡ false
unfolding every contains_rune
every-without_rune p String.[] r t h = refl
every-without_rune p (String.◌∷◌ c s) r t h = elim (Bool-cases (nat_eq (code c) r)) [
  | inl e ↦ absurd (ground (arith, ap p ((nat_eq_iff (code c) r).0 e)))
  | inr n ↦ ground (arith, every-without_rune p s r t)
]

abbrev equals_char : Char
equals_char = "="

module _ (e : Equation) (h : IsEquation e) where
  equation_words : every (without is_space) (write_equation e) ≡ true
  unfolding is_space every
  equation_words =
      every-append (without is_space) e.field ("=" <> e.value)
      ∙ ground (arith, every-append (without is_space) "=" e.value, h.field_words, h.value_words)

  equation_quotes : every (without is_quote) (write_equation e) ≡ true
  unfolding every
  equation_quotes =
      every-append (without is_quote) e.field ("=" <> e.value)
      ∙ ground (arith, every-append (without is_quote) "=" e.value, h.field_quotes, h.value_quotes)

  not_quoted : has_suffix (write_equation e) "==\"\"" ≡ false
  not_quoted = elim (Bool-cases (has_suffix (write_equation e) "==\"\"")) [
    | inr n ↦ n
    | inl s ↦
        let quoted =
          has_suffix-rune (write_equation e) "==\"\"" b'"' s (unfold contains_rune in refl) in
        absurd (
          true≢false
            (sym quoted ∙ every-without_rune is_quote (write_equation e) b'"' refl equation_quotes))
  ]

  equation_cut : cut (write_equation e) "=" ≡ some (e.field, e.value)
  equation_cut =
      rw (append.cons equals_char "" e.value, append.nil e.value)
        (cut-append equals_char e.field e.value h.no_equals)

  equation_named : (write_equation e == "") ≡ false
  equation_named =
      eq-false (write_equation e) ""
        λ q. (unfold cut in cc (sym (ap (λ z. cut z "=") q) ∙ equation_cut))

  matches-equation :
      (art : Artifact) (to_status : String)
      → matches_term (write_equation e) art to_status ≡ holds art to_status e
  unfolding matches_term
  matches-equation art to_status =
      rw
        (
          not_quoted,
          equation_cut,
          trim_space-id e.field h.field_words,
          trim_space-id e.value h.value_words,
          trim-id is_quote e.value h.value_quotes,
        )
        refl

abbrev space_char : Char
space_char = " "

-- no space in an equation, so none that a separator begins with
no_space : (e : Equation) → IsEquation e → contains_rune (write_equation e) b' ' ≡ false
no_space e h =
    every-without_rune is_space (write_equation e) b' ' (unfold is_space in refl)
      (equation_words e h)

split-write :
    (e : Equation) (es : List Equation)
    → AllEquations (e ∷ es)
    → split (write_predicate (e ∷ es)) " AND " ≡ map write_equation (e ∷ es)
split-write e [] (h, _) = split-last space_char "AND " (write_equation e) (no_space e h)
split-write e (x ∷ es) (h, hs) =
    split-append space_char "AND " (write_equation e) (write_predicate (x ∷ es)) (no_space e h)
    ∙ ap (◌∷◌ (write_equation e)) (split-write x es hs)

-- one round of the loop over the terms
abbrev passes : Artifact → String → String → Bool
passes art to_status term =
    if trim_space term == "" then true else matches_term (trim_space term) art to_status

passes-equation :
    (art : Artifact) (to_status : String) (e : Equation)
    → IsEquation e
    → passes art to_status (write_equation e) ≡ holds art to_status e
passes-equation art to_status e h =
    rw (trim_space-id (write_equation e) (equation_words e h), equation_named e h, if◌then◌else◌)
      (matches-equation e h art to_status)

all_of-equations :
    (art : Artifact) (to_status : String) (es : List Equation)
    → AllEquations es
    → all_of (passes art to_status) (map write_equation es) ≡ all_of (holds art to_status) es
unfolding all_of
all_of-equations art to_status [] h = refl
all_of-equations art to_status (e ∷ es) (h, hs) =
    rw (passes-equation art to_status e h, all_of-equations art to_status es hs) refl

-- A predicate that joins equations `field=value` by ` AND ` matches exactly if each of them holds of the
-- artifact and the status to which it passes; without an equation it matches always. No part of an
-- equation has a space or a quotation mark, and the fields have no `=`.
pub matches_predicate-write :
    (art : Artifact) (to_status : String) (es : List Equation)
    → AllEquations es
    → matches_predicate (write_predicate es) art to_status ≡ all_of (holds art to_status) es
unfolding matches_predicate
matches_predicate-write art to_status [] h = (unfold trim_space all_of in refl)
matches_predicate-write art to_status (e ∷ es) h =
    ap (all_of (passes art to_status)) (split-write e es h)
    ∙ all_of-equations art to_status (e ∷ es) h
