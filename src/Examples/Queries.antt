-- ===== src/Examples/Queries.antt =====
-- Queries and pages, applied.
use parchment.Prelude.{
  ℕ, zero, suc, arith, String, some, ◌≡◌, false, refl, if◌then◌else◌, take, drop, length, ltb, leb,
  str_leb, keep, contains_rune, all_of, any_of,
}
use parchment.Prelude.Sorting.{sort_slice}
use parchment.Dict.{lookup, insert}
use parchment.Artifact.Filter.{any_artifact, matches, match_labels}
use parchment.Store.{new_memory_store}
use parchment.Store.Artifacts.{put}
use parchment.Store.Edges.{add_edge}
use parchment.Store.Pages.{list_page}
use parchment.Store.Pages.Order.{matching}
use parchment.Store.Pages.Next.{IsFaithful, nth, cursor_at, list_page_lem}
use parchment.Store.Valid.Reachable.{Reachable-IsValid}
use parchment.Examples.{shop, shop-Reachable, draft}

-- a text whose length is the time
abbrev tally : ℕ → String
tally zero = String.[]
tally (suc n) = String.◌∷◌ "a" (tally n)

tally_ordered : (a b : ℕ) → str_leb (tally a) (tally b) ≡ leb a b
unfolding str_leb
tally_ordered zero b = ground arith
tally_ordered (suc a) zero = ground arith
tally_ordered (suc a) (suc b) = ground (arith, tally_ordered a b)

tally_clean : (n : ℕ) → contains_rune (tally n) 0 ≡ false
unfolding contains_rune
tally_clean zero = refl
tally_clean (suc n) = tally_clean n

shop-IsFaithful : IsFaithful tally (matching shop any_artifact)
shop-IsFaithful = record {
  ordered = λ a b i j. tally_ordered a.inserted_at b.inserted_at;
  clean = λ a i. tally_clean a.inserted_at;
}

list_page_lem_example :
    (list_page tally shop (record any_artifact { cursor = ""; limit = 1 }) ≡ record {
      artifacts = take 1 (matching shop any_artifact);
      next_cursor =
          if ltb 1 (length (matching shop any_artifact))
          then cursor_at tally (nth 0 (matching shop any_artifact))
          else "";
      total = length (matching shop any_artifact);
    })
    × (list_page tally shop (record any_artifact {
      cursor = cursor_at tally (some (put 10 new_memory_store draft).0);
      limit = 1;
    })
        ≡ record {
          artifacts = take 1 (drop 1 (matching shop any_artifact));
          next_cursor =
              if ltb 1 (length (drop 1 (matching shop any_artifact)))
              then cursor_at tally (nth 0 (drop 1 (matching shop any_artifact)))
              else "";
          total = length (matching shop any_artifact);
        })
unfolding put lookup add_edge insert keep matches sort_slice match_labels all_of any_of
list_page_lem_example =
    list_page_lem tally shop any_artifact 0 0 (put 10 new_memory_store draft).0
      (Reachable-IsValid shop-Reachable).ids shop-IsFaithful refl
