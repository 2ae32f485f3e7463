-- ===== src/Store/Aliases/Owner.antt =====
-- An alias has one owner at a time.
use mathlib.Core.List.Memᴰ
use mathlib.Core.Option.{none-ne-some, some-injective}
use parchment.Prelude.{
  String, false, none, some, [], ◌∷◌, ◌≡◌, ◌≢◌, ◌↔◌, ◌⊎◌, inl, inr, refl, sym, ap, ◌∙◌, ◌==◌,
  eq_iff, if◌then◌else◌, Bool-cases, Option-cases, String-cases, Memᴰ,
}
use parchment.Dict.{Dict, lookup, lookup-insert, lookup-insert_self, IsDistinct}
use parchment.Store.{MemoryStore}
use parchment.Store.Result.{ok, err, alias_taken}
use parchment.Store.Artifacts.{get}
use parchment.Store.Aliases.{
  resolve_alias, get_by_alias, taken, add_alias, keys_holding, list_aliases,
}

-- `AddAlias` fails, and changes nothing, exactly when another artifact has the alias. Otherwise the alias
-- leads to the artifact afterwards and every other alias to where it led.
pub add_alias_cases :
    (m : MemoryStore) (id alias : String)
    → ((owner : String) × (lookup m.aliases alias ≡ some owner)
        × (owner ≢ id)
        × (add_alias m id alias ≡ (err alias_taken, m)))
      ⊎ (((add_alias m id alias).0 ≡ ok tt)
          × ((lookup m.aliases alias ≡ none) ⊎ (lookup m.aliases alias ≡ some id))
          × (get_by_alias (add_alias m id alias).1 alias ≡ get m id)
          × ((other : String)
              → lookup (add_alias m id alias).1.aliases other
                ≡ (if alias == other then some id else lookup m.aliases other)))
unfolding add_alias get_by_alias get resolve_alias
add_alias_cases m id alias = elim (Option-cases (lookup m.aliases alias)) [
  | inl e ↦ inr (free (rw e refl) (inl e))
  | inr (owner, e) ↦ elim (String-cases owner id) [
    | inl (q, t) ↦ inr (free (rw e (rw t refl)) (inr (e ∙ ap some q)))
    | inr (n, f) ↦ inl (owner, e, n, rw (e, f) refl)
  ]
]
  where
    free :
        taken id (lookup m.aliases alias) ≡ false
        → ((lookup m.aliases alias ≡ none) ⊎ (lookup m.aliases alias ≡ some id))
        → ((add_alias m id alias).0 ≡ ok tt)
          × ((lookup m.aliases alias ≡ none) ⊎ (lookup m.aliases alias ≡ some id))
          × (get_by_alias (add_alias m id alias).1 alias ≡ get m id)
          × ((other : String)
              → lookup (add_alias m id alias).1.aliases other
                ≡ (if alias == other then some id else lookup m.aliases other))
    free t before =
        rw (t, if◌then◌else◌)
          (
            refl,
            before,
            rw (lookup-insert_self m.aliases alias id) refl,
            λ other. lookup-insert m.aliases alias other id,
          )

mem-keys_holding :
    (d : Dict String) (id alias : String)
    → IsDistinct d
    → Memᴰ alias (keys_holding id d) ↔ (lookup d alias ≡ some id)
unfolding keys_holding lookup
mem-keys_holding [] id alias h = (λ i. absurd (Memᴰ.not-nil i), λ e. absurd (none-ne-some id e))
mem-keys_holding ((a, target) ∷ d) id alias h =
    let ih = mem-keys_holding d id alias h.1 in
    (
      λ i. elim (Bool-cases (target == id)) [
        | inl t ↦ elim (Memᴰ.cases_cons (rw (t, if◌then◌else◌) at i)) [
          | inl q ↦
              rw ((eq_iff a alias).1 (sym q), if◌then◌else◌) (ap some ((eq_iff target id).0 t))
          | inr r ↦ later h.0 (ih.0 r)
        ]
        | inr f ↦ later h.0 (ih.0 (rw (f, if◌then◌else◌) at i))
      ],
      λ e. elim (String-cases a alias) [
        | inl (q, t) ↦
            let same : target ≡ id = some-injective target id (rw (t, if◌then◌else◌) at e) in
            rw ((eq_iff target id).1 same, if◌then◌else◌) (Memᴰ.head (sym q))
        | inr (n, f) ↦
            let i = ih.1 (rw (f, if◌then◌else◌) at e) in
            elim (Bool-cases (target == id)) [
              | inl t ↦ rw (t, if◌then◌else◌) (Memᴰ.tail i)
              | inr t ↦ rw (t, if◌then◌else◌) i
            ]
      ],
    )
  where
    later : lookup d a ≡ none → lookup d alias ≡ some id → lookup ((a, target) ∷ d) alias ≡ some id
    later gone e = elim (String-cases a alias) [
      | inl (q, t) ↦ absurd (none-ne-some id (sym gone ∙ ap (lookup d) q ∙ e))
      | inr (n, f) ↦ rw (f, if◌then◌else◌) e
    ]

-- `ListAliases` gives exactly the aliases that lead to the artifact.
pub mem-list_aliases :
    (m : MemoryStore) (id alias : String)
    → IsDistinct m.aliases
    → Memᴰ alias (list_aliases m id) ↔ (lookup m.aliases alias ≡ some id)
unfolding list_aliases
mem-list_aliases m id alias h = mem-keys_holding m.aliases id alias h
