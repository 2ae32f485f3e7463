-- ===== src/Store/Edges/Key.antt =====
-- The text under which an edge is stored tells edges apart as long as no name holds a bar.
use Prim.Native.Char.{Char, code}
use Prim.Native.String.append
use text.Mathlib.TextLemmas.{head-eq_of_cons-eq, tail-eq_of_cons-eq}
use parchment.Prelude.{ℕ, String, false, ◌≡◌, refl, sym, ap, ◌∙◌, arith, ◌<>◌, contains_rune}
use parchment.Store.Edges.{edge_key}

abbrev pub bar : ℕ
bar = b'|'

abbrev pub NoBar : String → Type 0
NoBar s = contains_rune s bar ≡ false

abbrev bar_char : Char
bar_char = "|"

bar-cons : (u : String) → "|" <> u ≡ String.◌∷◌ bar_char u
bar-cons u = append.cons bar_char String.[] u ∙ ap (String.◌∷◌ bar_char) (append.nil u)

empty-bar : (u : String) → "" <> ("|" <> u) ≡ String.◌∷◌ bar_char u
empty-bar u = append.nil ("|" <> u) ∙ bar-cons u

-- the first bar of a text divides it in one way only
split_at_bar :
    (s t u v : String) → NoBar s → NoBar t → s <> ("|" <> u) ≡ t <> ("|" <> v) → (s ≡ t) × (u ≡ v)
unfolding contains_rune
split_at_bar String.[] String.[] u v h k e =
    (refl, tail-eq_of_cons-eq (sym (empty-bar u) ∙ e ∙ empty-bar v))
split_at_bar String.[] (String.◌∷◌ d t) u v h k e =
    let c = head-eq_of_cons-eq (sym (empty-bar u) ∙ e ∙ append.cons d t ("|" <> v)) in
    absurd (ground (arith, ap code c))
split_at_bar (String.◌∷◌ c s) String.[] u v h k e =
    let d = head-eq_of_cons-eq (sym (append.cons c s ("|" <> u)) ∙ e ∙ empty-bar v) in
    absurd (ground (arith, ap code d))
split_at_bar (String.◌∷◌ c s) (String.◌∷◌ d t) u v h k e =
    let e' = sym (append.cons c s ("|" <> u)) ∙ e ∙ append.cons d t ("|" <> v) in
    let (p, q) = split_at_bar s t u v (ground arith) (ground arith) (tail-eq_of_cons-eq e') in
    (cc (head-eq_of_cons-eq e', p), q)

edge_key_assoc : (a r b : String) → edge_key a r b ≡ a <> ("|" <> (r <> ("|" <> b)))
unfolding edge_key
edge_key_assoc a r b = refl

-- Two edges are stored under one key only if they have the same source, relation and target, as long
-- as neither the sources nor the relations hold a bar; the targets may.
pub edge_key_inj :
    (from rel to from' rel' to' : String)
    → NoBar from
    → NoBar rel
    → NoBar from'
    → NoBar rel'
    → edge_key from rel to ≡ edge_key from' rel' to'
    → (from ≡ from') × (rel ≡ rel') × (to ≡ to')
edge_key_inj a r b a' r' b' ha hr ha' hr' e =
    let e' = sym (edge_key_assoc a r b) ∙ e ∙ edge_key_assoc a' r' b' in
    let (p, q) = split_at_bar a a' (r <> ("|" <> b)) (r' <> ("|" <> b')) ha ha' e' in
    let (x, y) = split_at_bar r r' b b' hr hr' q in (p, x, y)
