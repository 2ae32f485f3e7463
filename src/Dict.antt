-- ===== src/Dict.antt =====
-- Go's `map[string]V`. The list of entries stands in the order in which `range` would visit them;
-- Go leaves that order open, so what is stated of a map is stated for every order of its entries.
pub mod Keyed
pub mod Entries
use mathlib.Core.List.Memᴰ
use mathlib.Core.Bool.{false≢true, true≢false}
use parchment.Prelude.{
  String, ◌≡◌, refl, sym, ap, ◌∙◌, ◌≢◌, ◌↔◌, ◌⊎◌, inl, inr, Bool, true, false, Option, none, some,
  List, [], ◌∷◌, map, Memᴰ, arith, ◌==◌, eq_iff, eq_refl, if◌then◌else◌, String-cases, Bool-cases,
  eq-false, keep,
}

abbrev pub Dict {ℓ} : Type ℓ → Type ℓ
Dict V = List (String × V)

module _ {ℓ} {V : Type ℓ} where
  -- v, ok := m[k]
  unfoldable pub lookup : Dict V → String → Option V
  lookup [] k = none
  lookup ((j, v) ∷ d) k = if j == k then some v else lookup d k

  -- m[k] = v
  unfoldable pub insert : Dict V → String → V → Dict V
  insert [] k v = (k, v) ∷ []
  insert ((j, w) ∷ d) k v = if j == k then (j, v) ∷ d else (j, w) ∷ insert d k v

  -- delete(m, k)
  unfoldable pub remove : Dict V → String → Dict V
  remove [] k = []
  remove ((j, v) ∷ d) k = if j == k then remove d k else (j, v) ∷ remove d k

  -- for k, v := range m { if test(v) { delete(m, k) } }
  unfoldable pub remove_where : (V → Bool) → Dict V → Dict V
  remove_where p [] = []
  remove_where p ((j, v) ∷ d) = if p v then remove_where p d else (j, v) ∷ remove_where p d

  abbrev pub values : Dict V → List V
  values d = map (λ e. e.1) d

  pub lookup-insert :
      (d : Dict V) (k j : String) (v : V)
      → lookup (insert d k v) j ≡ (if k == j then some v else lookup d j)
  unfolding lookup insert
  lookup-insert [] k j v = refl
  lookup-insert ((i, w) ∷ d) k j v =
      ground (arith, eq_iff k j, eq_iff i k, eq_iff i j, lookup-insert d k j v)

  pub lookup-remove :
      (d : Dict V) (k j : String) → lookup (remove d k) j ≡ (if k == j then none else lookup d j)
  unfolding lookup remove
  lookup-remove [] k j = ground arith
  lookup-remove ((i, v) ∷ d) k j =
      ground (arith, eq_iff k j, eq_iff i k, eq_iff i j, lookup-remove d k j)

  pub lookup-insert_self : (d : Dict V) (k : String) (v : V) → lookup (insert d k v) k ≡ some v
  lookup-insert_self d k v = rw (lookup-insert d k k v, eq_refl k)

  pub lookup-insert_ne :
      (d : Dict V) (k j : String) (v : V) → k ≢ j → lookup (insert d k v) j ≡ lookup d j
  lookup-insert_ne d k j v h = rw (lookup-insert d k j v, eq-false k j h)

  pub lookup-remove_self : (d : Dict V) (k : String) → lookup (remove d k) k ≡ none
  lookup-remove_self d k = rw (lookup-remove d k k, eq_refl k)

  pub lookup-remove_ne : (d : Dict V) (k j : String) → k ≢ j → lookup (remove d k) j ≡ lookup d j
  lookup-remove_ne d k j h = rw (lookup-remove d k j, eq-false k j h)

  -- no two entries have one key
  abbrev pub IsDistinct : Dict V → Type ℓ
  IsDistinct [] = Unit
  IsDistinct ((k, v) ∷ d) = (lookup d k ≡ none) × IsDistinct d

  pub insert-IsDistinct :
      (d : Dict V) (k : String) (v : V) → IsDistinct d → IsDistinct (insert d k v)
  unfolding insert
  insert-IsDistinct [] k v h = (unfold lookup in refl, tt)
  insert-IsDistinct ((i, w) ∷ d) k v h = elim (String-cases i k) [
    | inl (_, e) ↦ rw (e, if◌then◌else◌) h
    | inr (n, e) ↦
        rw (e, if◌then◌else◌)
          (lookup-insert_ne d k i v (λ q. n (sym q)) ∙ h.0, insert-IsDistinct d k v h.1)
  ]

  pub remove-IsDistinct : (d : Dict V) (k : String) → IsDistinct d → IsDistinct (remove d k)
  unfolding remove
  remove-IsDistinct [] k h = h
  remove-IsDistinct ((i, w) ∷ d) k h = elim (String-cases i k) [
    | inl (_, e) ↦ rw (e, if◌then◌else◌) (remove-IsDistinct d k h.1)
    | inr (n, e) ↦
        rw (e, if◌then◌else◌)
          (lookup-remove_ne d k i (λ q. n (sym q)) ∙ h.0, remove-IsDistinct d k h.1)
  ]

  abbrev pub unless : (V → Bool) → Option V → Option V
  unless p none = none
  unless p (some v) = if p v then none else some v

  pub lookup-remove_where :
      (p : V → Bool) (d : Dict V) (j : String)
      → IsDistinct d
      → lookup (remove_where p d) j ≡ unless p (lookup d j)
  unfolding lookup remove_where
  lookup-remove_where p [] j h = refl
  lookup-remove_where p ((i, v) ∷ d) j h =
      ground (arith, eq_iff i j, lookup-remove_where p d j h.1, h.0)

  pub remove_where-IsDistinct :
      (p : V → Bool) (d : Dict V) → IsDistinct d → IsDistinct (remove_where p d)
  unfolding remove_where
  remove_where-IsDistinct p [] h = h
  remove_where-IsDistinct p ((i, v) ∷ d) h = elim (Bool-cases (p v)) [
    | inl e ↦ rw (e, if◌then◌else◌) (remove_where-IsDistinct p d h.1)
    | inr e ↦
        rw (e, if◌then◌else◌)
          (lookup-remove_where p d i h.1 ∙ ap (unless p) h.0, remove_where-IsDistinct p d h.1)
  ]

  -- what a key holds is among the values
  pub lookup→mem : (d : Dict V) (k : String) (v : V) → lookup d k ≡ some v → Memᴰ v (values d)
  unfolding lookup
  lookup→mem [] k v e = cc
  lookup→mem ((i, w) ∷ d) k v e = elim (String-cases i k) [
    | inl (_, t) ↦ Memᴰ.head (ground arith)
    | inr (_, t) ↦ Memᴰ.tail (lookup→mem d k v (ground arith))
  ]

  -- and with distinct keys each of the values is what some key holds
  pub mem→lookup :
      (d : Dict V) (v : V) → IsDistinct d → Memᴰ v (values d) → (k : String) × (lookup d k ≡ some v)
  unfolding lookup
  mem→lookup [] v h m = absurd (Memᴰ.not-nil m)
  mem→lookup ((i, w) ∷ d) v h m = elim (Memᴰ.cases_cons m) [
    | inl q ↦ (i, ground (arith, eq_refl i))
    | inr r ↦ let (k, e) = mem→lookup d v h.1 r in (k, ground (arith, eq_iff i k, h.0))
  ]

  -- the values of a map with distinct keys are what its keys hold
  pub mem-values :
      (d : Dict V) (v : V)
      → IsDistinct d
      → Memᴰ v (values d) ↔ ((k : String) × (lookup d k ≡ some v))
  mem-values d v h = (mem→lookup d v h, λ (k, e). lookup→mem d k v e)

  -- a map whose values each determine their key
  abbrev pub IsKeyed : (V → String) → Dict V → Type ℓ
  IsKeyed key d = (k : String) (v : V) → lookup d k ≡ some v → key v ≡ k

pub ruleset dict_laws = (lookup-insert, lookup-remove)
