-- ===== src/Store/Pages/Order.antt =====
-- The order of pages tells artifacts apart.
use parchment.Prelude.{
  true, List, [], ◌∷◌, ◌≡◌, ◌⊎◌, inl, inr, arith, str_leb_total, str_leb_trans, keep,
}
use parchment.Prelude.Sorting.{sort_slice, IsStrict, IsApart, keep-IsApart, sort_slice-IsStrict}
use parchment.Dict.{values}
use parchment.Artifact.{Artifact}
use parchment.Artifact.Filter.{Filter, matches}
use parchment.Store.{MemoryStore}
use parchment.Store.Artifacts.{HasIds, by_id}
use parchment.Store.Artifacts.Listing.{values-IsApart}
use parchment.Store.Pages.{by_time}

by_time_total : (a b : Artifact) → (by_time a b ≡ true) ⊎ (by_time b a ≡ true)
by_time_total a b = elim (str_leb_total a.id b.id) [ inl h ↦ ground arith | inr h ↦ ground arith ]

by_time_trans : (a b c : Artifact) → by_time a b ≡ true → by_time b c ≡ true → by_time a c ≡ true
by_time_trans a b c h k = ground (arith, str_leb_trans a.id b.id c.id)

by_time-IsApart : (arts : List Artifact) → IsApart by_id arts → IsApart by_time arts
by_time-IsApart [] h = tt
by_time-IsApart (a ∷ arts) h = (λ b i. let k = h.0 b i in ground arith, by_time-IsApart arts h.1)

-- what a page is cut from
abbrev pub matching : MemoryStore → Filter → List Artifact
matching m f = sort_slice by_time (keep (matches f) (values m.artifacts))

pub matching-IsStrict :
    (m : MemoryStore) (f : Filter) → HasIds m.artifacts → IsStrict by_time (matching m f)
matching-IsStrict m f h = sort_slice-IsStrict by_time by_time_total by_time_trans _ (
    keep-IsApart by_time (matches f) (values m.artifacts)
      (by_time-IsApart _ (values-IsApart m.artifacts h)))
