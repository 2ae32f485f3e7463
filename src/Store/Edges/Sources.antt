-- ===== src/Store/Edges/Sources.antt =====
-- An edge stands as long as some source declares it.
use parchment.Prelude.{
  String, true, false, not, Option, none, some, List, [], ◌∷◌, ◌++◌, ◌≡◌, refl, ap, ◌∙◌, arith,
  ◌==◌, eq_iff, eq_refl, if◌then◌else◌, Bool-cases, inl, inr, keep, any_of, is_empty,
}
use parchment.Dict.{Dict, lookup, insert, lookup-insert, lookup-remove, lookup-insert_self}
use parchment.Store.{MemoryStore, Edge}
use parchment.Store.Edges.{
  edge_key, has_source, with_sources, declared, add_edge_source, retract, remove_edge_source,
}

abbrev pub edge_at : MemoryStore → String → String → String → Option Edge
edge_at m from rel to = lookup m.edges (edge_key from rel to)

insert-insert : (d : Dict Edge) (k : String) (v w : Edge) → insert (insert d k v) k w ≡ insert d k w
unfolding insert
insert-insert [] k v w = ground (arith, eq_iff k k)
insert-insert ((j, x) ∷ d) k v w = ground (arith, eq_iff j k, insert-insert d k v w)

any_of-append_self :
    (source : String) (sources : List String)
    → any_of (λ s. s == source) (sources ++ source ∷ []) ≡ true
unfolding any_of
any_of-append_self source [] = ground (arith, eq_iff source source)
any_of-append_self source (s ∷ sources) = ground (arith, any_of-append_self source sources)

module _ (from rel to source : String) where
  declared_has : (o : Option Edge) → has_source source (declared from rel to source o) ≡ true
  unfolding any_of
  declared_has none = ground (arith, eq_iff source source)
  declared_has (some e) = ground (arith, any_of-append_self source e.sources)

  declared_idem :
      (o : Option Edge)
      → declared from rel to source (some (declared from rel to source o))
        ≡ declared from rel to source o
  declared_idem o = rw (declared_has o, if◌then◌else◌) refl

-- After `AddEdgeSource` the edge is there and declared by the source, keeps the weight and the other
-- sources that it had, and no other entry has changed; to declare it once more changes nothing.
pub add_edge_source_lem :
    (m : MemoryStore) (from rel to source : String)
    → ((k : String)
        → lookup (add_edge_source m from rel to source).edges k ≡ (
            if edge_key from rel to == k
            then some (declared from rel to source (edge_at m from rel to))
            else lookup m.edges k))
      × (has_source source (declared from rel to source (edge_at m from rel to)) ≡ true)
      × (add_edge_source (add_edge_source m from rel to source) from rel to source
          ≡ add_edge_source m from rel to source)
unfolding add_edge_source
add_edge_source_lem m from rel to source =
    let key = edge_key from rel to in
    let e = declared from rel to source (lookup m.edges key) in
    (
      λ k. lookup-insert m.edges key k e,
      declared_has from rel to source (lookup m.edges key),
      ap (λ d. record m { edges = d })
          (ap (λ o. insert (insert m.edges key e) key (declared from rel to source o))
              (lookup-insert_self m.edges key e)
            ∙ ap (insert (insert m.edges key e) key)
                (declared_idem from rel to source (lookup m.edges key))
            ∙ insert-insert m.edges key e e),
    )

keep-none :
    (source : String) (sources : List String)
    → any_of (λ s. s == source) (keep (λ s. not (s == source)) sources) ≡ false
unfolding any_of keep
keep-none source [] = refl
keep-none source (s ∷ sources) = ground (arith, keep-none source sources)

keep-fresh :
    (source : String) (sources : List String)
    → any_of (λ s. s == source) sources ≡ false
    → keep (λ s. not (s == source)) (sources ++ source ∷ []) ≡ sources
unfolding any_of keep
keep-fresh source [] h = ground (arith, eq_iff source source)
keep-fresh source (s ∷ sources) h = ground (arith, keep-fresh source sources)

-- `RemoveEdgeSource` of a stored edge: if other sources declare it too, it stays with those, in order;
-- if none is left it is gone. The source declares it no more, and no other entry has changed.
pub remove_edge_source_lem :
    (m : MemoryStore) (from rel to source : String) (e : Edge)
    → edge_at m from rel to ≡ some e
    → ((k : String)
        → lookup (remove_edge_source m from rel to source).edges k ≡ (
            if edge_key from rel to == k
            then (if is_empty (keep (λ s. not (s == source)) e.sources)
                then none
                else some (with_sources e (keep (λ s. not (s == source)) e.sources)))
            else lookup m.edges k))
      × (has_source source (with_sources e (keep (λ s. not (s == source)) e.sources)) ≡ false)
unfolding remove_edge_source
remove_edge_source_lem m from rel to source e h =
    let key = edge_key from rel to in
    let left = keep (λ s. not (s == source)) e.sources in
    elim (Bool-cases (is_empty left)) [
      | inl t ↦
          rw (h, retract, t, if◌then◌else◌)
            (λ k. lookup-remove m.edges key k, keep-none source e.sources)
      | inr t ↦
          rw (h, retract, t, if◌then◌else◌)
            (λ k. lookup-insert m.edges key k (with_sources e left), keep-none source e.sources)
    ]

-- When a source that does not declare a stored edge is added and removed again, the edge is as it was
-- if some source declared it. But an edge that was stored with no source, as `AddEdge` stores the ones
-- that are linked by hand, is gone.
pub remove-add_edge_source :
    (m : MemoryStore) (from rel to source : String) (e : Edge)
    → edge_at m from rel to ≡ some e
    → has_source source e ≡ false
    → edge_at
        (remove_edge_source (add_edge_source m from rel to source) from rel to source)
        from
        rel
        to
      ≡ (if is_empty e.sources then none else some e)
unfolding add_edge_source
remove-add_edge_source m from rel to source e h f =
    let m' = add_edge_source m from rel to source in
    let e' = with_sources e (e.sources ++ source ∷ []) in
    let stored : edge_at m' from rel to ≡ some e' =
      lookup-insert_self m.edges (edge_key from rel to)
        (declared from rel to source (edge_at m from rel to))
      ∙ ap (λ o. some (declared from rel to source o)) h
      ∙ ap (λ b. some (if b then e else e')) f in
    let left = keep-fresh source e.sources f in
    ground (
      arith,
      (remove_edge_source_lem m' from rel to source e' stored).0 (edge_key from rel to),
      left,
      eq_refl (edge_key from rel to),
    )
