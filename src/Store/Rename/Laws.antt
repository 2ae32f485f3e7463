-- ===== src/Store/Rename/Laws.antt =====
-- What a renamed artifact can be found by, and what still names the old ID.
use mathlib.Core.List.Memᴰ
use mathlib.Core.Bool.{false≢true}
use mathlib.Core.Option.{none-ne-some, some-injective}
use mathlib.Core.Option
use parchment.Prelude.{
  String, true, false, Option, none, some, List, [], ◌∷◌, ◌≡◌, ◌≢◌, refl, sym, ap, ◌∙◌, arith, ◌==◌,
  eq_iff, if◌then◌else◌, Bool-cases, String-cases, inl, inr, Memᴰ, any_of, any_of→mem,
}
use parchment.Dict.{
  Dict, lookup, insert, remove, values, lookup-insert, lookup-remove, lookup-insert_self,
  lookup-remove_ne, mem→lookup, insert-IsDistinct, remove-IsDistinct,
}
use parchment.Dict.Keyed.{IsKeyed-insert, IsKeyed-remove}
use parchment.Artifact.{Artifact}
use parchment.Store.{MemoryStore, Edge}
use parchment.Store.Result.{ok, err, artifact_not_found}
use parchment.Store.Artifacts.{get, touches}
use parchment.Store.Aliases.{get_by_alias}
use parchment.Store.Edges.{key_of}
use parchment.Store.Edges.Neighbors.{HasKeys}
use parchment.Store.Rename.{
  renamed, retarget, rename_ends, move_edge, move_edges, keys, rename_found, rename_id,
}

touches-rename_ends :
    (old new : String) (e : Edge) → new ≢ old → touches old (rename_ends old new e) ≡ false
touches-rename_ends old new e h = ground (arith, eq_iff e.from old, eq_iff e.to old, eq_iff new old)

module _ (old new : String) where
  move_edge-HasKeys :
      (d : Dict Edge) (key : String) (o : Option Edge)
      → HasKeys d
      → HasKeys (move_edge old new d key o)
  unfolding move_edge
  move_edge-HasKeys d key none h = h
  move_edge-HasKeys d key (some e) h = elim (Bool-cases (touches old e)) [
    | inl t ↦
        rw (t, if◌then◌else◌)
          (record {
            distinct = insert-IsDistinct (remove d key) _ _ (remove-IsDistinct d key h.distinct);
            keyed =
                IsKeyed-insert key_of (remove d key) _ _ (IsKeyed-remove key_of d key h.keyed) refl;
          })
    | inr f ↦ rw (f, if◌then◌else◌) h
  ]

  pub move_edges-HasKeys :
      (ks : List String) (d : Dict Edge) → HasKeys d → HasKeys (move_edges old new ks d)
  unfolding move_edges
  move_edges-HasKeys [] d h = h
  move_edges-HasKeys (k ∷ ks) d h =
      move_edges-HasKeys ks (move_edge old new d k (lookup d k))
        (move_edge-HasKeys d k (lookup d k) h)

  -- whatever still names the old ID stands under one of the keys
  abbrev Pending : List String → Dict Edge → Type 0
  Pending ks d = (k : String) (e : Edge) → lookup d k ≡ some e → touches old e ≡ true → Memᴰ k ks

  later : (k key : String) (ks : List String) → key ≢ k → Memᴰ k (key ∷ ks) → Memᴰ k ks
  later k key ks n m = elim (Memᴰ.cases_cons m) [ inl q ↦ absurd (n (sym q)) | inr r ↦ r ]

  move_edge-Pending :
      (key : String) (ks : List String) (d : Dict Edge) (o : Option Edge)
      → new ≢ old
      → lookup d key ≡ o
      → Pending (key ∷ ks) d
      → Pending ks (move_edge old new d key o)
  unfolding move_edge
  move_edge-Pending key ks d none apart q h k x e t = elim (String-cases key k) [
    | inl (same, _) ↦ absurd (none-ne-some x (sym q ∙ ap (lookup d) same ∙ e))
    | inr (n, _) ↦ later k key ks n (h k x e t)
  ]
  move_edge-Pending key ks d (some y) apart q h k x e t = elim (Bool-cases (touches old y)) [
    | inl moved ↦
        let y' = rename_ends old new y in
        let e' : lookup (insert (remove d key) (key_of y') y') k ≡ some x =
          rw (moved, if◌then◌else◌) at e in
        let left : (key ≢ k) × (lookup d k ≡ some x) = ground (
          arith,
          lookup-insert (remove d key) (key_of y') k y',
          lookup-remove d key k,
          touches-rename_ends old new y apart,
          eq_iff key k,
        ) in
        later k key ks left.0 (h k x left.1 t)
    | inr kept ↦
        let e' : lookup d k ≡ some x = rw (kept, if◌then◌else◌) at e in
        elim (String-cases key k) [
          | inl (same, _) ↦ absurd (ground (arith, q, ap (lookup d) same))
          | inr (n, _) ↦ later k key ks n (h k x e' t)
        ]
  ]

  move_edges-Pending :
      (ks : List String) (d : Dict Edge)
      → new ≢ old
      → Pending ks d
      → Pending [] (move_edges old new ks d)
  unfolding move_edges
  move_edges-Pending [] d apart h = h
  move_edges-Pending (k ∷ ks) d apart h =
      move_edges-Pending ks (move_edge old new d k (lookup d k)) apart
        (move_edge-Pending k ks d (lookup d k) apart refl h)

  Pending-keys : (d : Dict Edge) → Pending (keys d) d
  unfolding lookup
  Pending-keys [] k e q t = cc
  Pending-keys ((j, w) ∷ d) k e q t = elim (String-cases j k) [
    | inl (same, _) ↦ Memᴰ.head (sym same)
    | inr (n, f) ↦ Memᴰ.tail (Pending-keys d k e (ground arith) t)
  ]

  lookup-retarget :
      (d : Dict String) (a : String) (o : Option String)
      → lookup d a ≡ o
      → lookup (retarget old new d) a ≡ Option.map (renamed old new) o
  unfolding lookup retarget
  lookup-retarget [] a o q = ground arith
  lookup-retarget ((b, x) ∷ d) a o q = ground (arith, eq_iff b a, lookup-retarget d a o)

abbrev moved : MemoryStore → String → String → Artifact → MemoryStore
moved m old new art = record m {
  artifacts = remove (insert m.artifacts new (record art { id = new })) old;
  aliases = insert (retarget old new m.aliases) old new;
  edges = move_edges old new (keys m.edges) m.edges;
}

rename_id-stored :
    (m : MemoryStore) (old new : String) (art : Artifact)
    → lookup m.artifacts old ≡ some art
    → rename_id m old new ≡ (ok tt, moved m old new art)
unfolding rename_id
rename_id-stored m old new art h = rw (h, rename_found)

none_touches :
    (id : String) (es : List Edge)
    → ((e : Edge) → Memᴰ e es → touches id e ≡ false)
    → any_of (touches id) es ≡ false
none_touches id es h = elim (Bool-cases (any_of (touches id) es)) [
  | inl e ↦ let (x, i, q) = any_of→mem (touches id) es e in absurd (false≢true (sym (h x i) ∙ q))
  | inr f ↦ f
]

-- `RenameID` of a stored artifact to another ID succeeds. Then the artifact is found under the new ID,
-- with that ID, no longer under the old one, and what was found under any other ID still is. The old ID
-- has become an alias of it, and so is every alias that stood for the old ID. No edge names the old ID.
pub rename_id_lem :
    (m : MemoryStore) (old new : String) (art : Artifact)
    → lookup m.artifacts old ≡ some art
    → new ≢ old
    → HasKeys m.edges
    → ((rename_id m old new).0 ≡ ok tt)
      × ((id : String)
          → get (rename_id m old new).1 id ≡ (
              if old == id
              then err artifact_not_found
              else if new == id
              then ok (record art { id = new })
              else get m id))
      × (get_by_alias (rename_id m old new).1 old ≡ ok (record art { id = new }))
      × ((alias : String)
          → lookup (rename_id m old new).1.aliases alias ≡ (
              if old == alias
              then some new
              else Option.map (renamed old new) (lookup m.aliases alias)))
      × (any_of (touches old) (values (rename_id m old new).1.edges) ≡ false)
unfolding get get_by_alias
rename_id_lem m old new art h apart keyed =
    let art' = record art { id = new } in
    rw (rename_id-stored m old new art h) (
      refl,
      λ id. ground (
        arith,
        lookup-insert m.artifacts new id art',
        lookup-remove (insert m.artifacts new art') old id,
      ),
      ground (
        arith,
        lookup-insert_self (retarget old new m.aliases) old new,
        lookup-insert_self m.artifacts new art',
        lookup-remove_ne (insert m.artifacts new art') old new (λ q. apart (sym q)),
      ),
      λ alias.
          lookup-insert (retarget old new m.aliases) old alias new
          ∙ ap (λ o. if old == alias then some new else o)
              (lookup-retarget old new m.aliases alias (lookup m.aliases alias) refl),
      none_touches old (values (move_edges old new (keys m.edges) m.edges)) (λ e mem.
          let d = move_edges old new (keys m.edges) m.edges in
          let (k, q) =
            mem→lookup d e (move_edges-HasKeys old new (keys m.edges) m.edges keyed).distinct mem in
          elim (Bool-cases (touches old e)) [
            | inl t ↦ absurd (
                Memᴰ.not-nil (
                  move_edges-Pending old new (keys m.edges) m.edges apart
                    (Pending-keys old new m.edges) k e q t))
            | inr f ↦ f
          ]),
    )
