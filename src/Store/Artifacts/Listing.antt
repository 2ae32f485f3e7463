-- ===== src/Store/Artifacts/Listing.antt =====
-- `List` gives the matching artifacts, each once, by ascending ID, whatever order the map has.
use mathlib.Core.Option.{none-ne-some}
use parchment.Prelude.{
  String, ◌&&◌, some, [], ◌∷◌, ◌≡◌, ◌↔◌, sym, ap, ◌∙◌, arith, Bool-cases, String-cases, eq_refl,
  if◌then◌else◌, inl, inr, Memᴰ, mem-keep, keep, str_leb, str_leb_total, str_leb_trans,
  str_leb_antisym,
}
use parchment.Prelude.Sorting.{
  mem-sort_slice, IsStrict, IsApart, keep-IsApart, strict_unique, sort_slice-IsStrict,
}
use parchment.Dict.{Dict, lookup, values, lookup→mem, mem→lookup}
use parchment.Artifact.{Artifact}
use parchment.Artifact.Filter.{Filter, matches, IsMatch, matches_iff}
use parchment.Store.{MemoryStore}
use parchment.Store.Artifacts.{HasIds, by_id, list}

HasIds-tail : (k : String) (a : Artifact) (d : Dict Artifact) → HasIds ((k, a) ∷ d) → HasIds d
unfolding lookup
HasIds-tail k a d h = record {
  distinct = h.distinct.1;
  keyed = λ j b e. elim (String-cases k j) [
    | inl (q, _) ↦ absurd (none-ne-some b (sym h.distinct.0 ∙ ap (lookup d) q ∙ e))
    | inr (_, t) ↦ h.keyed j b (rw (t, if◌then◌else◌) e)
  ];
}

pub values-IsApart : (d : Dict Artifact) → HasIds d → IsApart by_id (values d)
values-IsApart [] h = tt
values-IsApart ((k, a) ∷ d) h = (
  λ b m.
      let t = HasIds-tail k a d h in
      let (j, e) = mem→lookup d b t.distinct m in
      elim (Bool-cases (str_leb a.id b.id && str_leb b.id a.id)) [
        | inl same ↦
            let ids : a.id ≡ b.id = str_leb_antisym a.id b.id (ground arith) (ground arith) in
            let here : a.id ≡ k = h.keyed k a (unfold lookup in ground (arith, eq_refl k)) in
            absurd (
              none-ne-some b
                (sym h.distinct.0 ∙ ap (lookup d) (sym here ∙ ids ∙ t.keyed j b e) ∙ e))
        | inr apart ↦ apart
      ],
  values-IsApart d (HasIds-tail k a d h),
)

-- `List` gives an artifact exactly if the store holds it and it matches the filter.
pub mem-list :
    (m : MemoryStore) (f : Filter) (art : Artifact)
    → HasIds m.artifacts
    → Memᴰ art (list m f) ↔ ((lookup m.artifacts art.id ≡ some art) × IsMatch f art)
unfolding list
mem-list m f art h = (
  λ mem.
      let (mv, t) =
        (mem-keep (matches f) art (values m.artifacts)).0
          ((mem-sort_slice by_id art (keep (matches f) (values m.artifacts))).0 mem) in
      let (k, e) = mem→lookup m.artifacts art h.distinct mv in
      (ap (lookup m.artifacts) (h.keyed k art e) ∙ e, (matches_iff f art).0.0 t),
  λ (e, t). (mem-sort_slice by_id art (keep (matches f) (values m.artifacts))).1 (
      (mem-keep (matches f) art (values m.artifacts)).1
        (lookup→mem m.artifacts art.id art e, (matches_iff f art).0.1 t)),
)

-- The list ascends strictly by ID.
pub list-IsStrict : (m : MemoryStore) (f : Filter) → HasIds m.artifacts → IsStrict by_id (list m f)
unfolding list
list-IsStrict m f h =
    sort_slice-IsStrict by_id (λ a b. str_leb_total a.id b.id)
      (λ a b c. str_leb_trans a.id b.id c.id) (keep (matches f) (values m.artifacts))
      (keep-IsApart by_id (matches f) (values m.artifacts) (values-IsApart m.artifacts h))

-- Two stores that hold the same artifact under each ID give the same list, in whatever orders their
-- maps are visited: the random order of Go's maps cannot be seen through `List`.
pub list-order_free :
    (m m' : MemoryStore) (f : Filter)
    → HasIds m.artifacts
    → HasIds m'.artifacts
    → ((id : String) → lookup m.artifacts id ≡ lookup m'.artifacts id)
    → list m f ≡ list m' f
list-order_free m m' f h h' same =
    strict_unique by_id (list m f) (list m' f) (list-IsStrict m f h) (list-IsStrict m' f h') λ a. (
      λ mem.
          let (e, t) = (mem-list m f a h).0 mem in (mem-list m' f a h').1 (sym (same a.id) ∙ e, t),
      λ mem. let (e, t) = (mem-list m' f a h').0 mem in (mem-list m f a h).1 (same a.id ∙ e, t),
    )
