-- ===== src/Examples/Stores.antt =====
-- Theorems on writing, deleting, renaming and listing, applied.
use mathlib.Core.Bool.{true≢false}
use parchment.Prelude.{
  String, [], ◌∷◌, none, some, true, ◌≡◌, ◌≢◌, ap, subst, inl, inr, String-cases, ◌↔◌, ◌⊎◌, refl,
  arith, if◌then◌else◌, ◌==◌, Memᴰ,
}
use parchment.Dict.{lookup, insert}
use parchment.Artifact.{Artifact}
use parchment.Artifact.Labels.{label_value, label_prefix_kind}
use parchment.Artifact.Filter.{Filter, any_artifact, matches, IsMatch, matches_iff}
use parchment.Store.{MemoryStore, new_memory_store}
use parchment.Store.Result.{ok, err, artifact_not_found, conflict}
use parchment.Store.Artifacts.{put, get, delete, list, put_if_version, HasIds}
use parchment.Store.Artifacts.Writing.{FillsIn, get-put, revisions-put, with_snapshot}
use parchment.Store.Artifacts.Versions.{put_if_version_cases, put_if_version_once, relocked}
use parchment.Store.Artifacts.Deleting.{delete_lem}
use parchment.Store.Artifacts.Listing.{mem-list, list-order_free}
use parchment.Store.Edges.{add_edge}
use parchment.Store.Rename.{rename_id}
use parchment.Store.Rename.Laws.{rename_id_lem}
use parchment.Store.Revisions.{revisions_of}
use parchment.Store.Valid.{IsValid}
use parchment.Store.Valid.Reachable.{Reachable-IsValid, Reachable, started, stepped, putting}
use parchment.Examples.{draft, final, other, shop, shop-Reachable}

abbrev tasks : Filter
tasks = record any_artifact { kind_prefix = "task"; labels = "work.draft" ∷ [] }

Reachable-IsValid_example : IsValid shop
Reachable-IsValid_example = Reachable-IsValid shop-Reachable

shop-HasIds : HasIds shop.artifacts
shop-HasIds = (Reachable-IsValid shop-Reachable).ids

get-put_example :
    (a : Artifact) × ((put 30 shop final).0 ≡ a)
    × (get (put 30 shop final).1 "T-1" ≡ ok a)
    × (a ≡ record final {
      created_at = a.created_at;
      updated_at = a.updated_at;
      inserted_at = a.inserted_at;
    })
    × FillsIn 30 final.created_at a.created_at
    × FillsIn 30 final.inserted_at a.inserted_at
    × (((lookup shop.artifacts "T-1" ≢ none) × (a.updated_at ≡ 30))
        ⊎ ((lookup shop.artifacts "T-1" ≡ none) × FillsIn 30 final.updated_at a.updated_at))
get-put_example = get-put 30 shop final "T-1"

revisions-put_example :
    ((lookup shop.artifacts "T-1" ≡ none) × ((put 30 shop final).1.revisions ≡ shop.revisions))
    ⊎ ((old : Artifact) × (lookup shop.artifacts "T-1" ≡ some old)
        × (revisions_of (put 30 shop final).1 "T-1"
            ≡ with_snapshot shop old (put 30 shop final).0 "T-1"))
revisions-put_example = revisions-put 30 shop final shop-HasIds

put_if_version_cases_example :
    ((lookup shop.artifacts "T-1" ≡ none)
      × (put_if_version 30 shop final 10 ≡ (err artifact_not_found, shop)))
    ⊎ ((old : Artifact) × (lookup shop.artifacts "T-1" ≡ some old)
        × (((old.updated_at ≢ 10) × (put_if_version 30 shop final 10 ≡ (err conflict, shop)))
            ⊎ ((old.updated_at ≡ 10)
                × ((put_if_version 30 shop final 10).0 ≡ ok tt)
                × ((id : String)
                    → get (put_if_version 30 shop final 10).1 id
                      ≡ (if "T-1" == id then ok (relocked 30 final) else get shop id))
                × (revisions_of (put_if_version 30 shop final 10).1 "T-1"
                    ≡ with_snapshot shop old final "T-1"))))
put_if_version_cases_example = put_if_version_cases 30 shop final 10 shop-HasIds

put_if_version_once_example :
    put_if_version 40 (put_if_version 30 shop final 10).1 draft 10
    ≡ (err conflict, (put_if_version 30 shop final 10).1)
unfolding put_if_version lookup add_edge put insert
put_if_version_once_example = put_if_version_once 30 40 shop final draft 10 refl refl (omega arith)

delete_lem_example : (delete shop "T-1").0 ≡ ok tt
unfolding lookup put add_edge insert
delete_lem_example =
    (delete_lem shop "T-1" (put 10 new_memory_store draft).0 refl refl
      (Reachable-IsValid shop-Reachable).keys.distinct).0

rename_id_lem_example : (rename_id shop "T-1" "T-9").0 ≡ ok tt
unfolding lookup put add_edge insert
rename_id_lem_example =
    (rename_id_lem shop "T-1" "T-9" (put 10 new_memory_store draft).0 refl
      (λ q. true≢false (ap (λ t. t == "T-9") q)) (Reachable-IsValid shop-Reachable).keys).0

mem-list_example : Memᴰ (put 10 new_memory_store draft).0 (list shop tasks) ↔ (
    (lookup shop.artifacts "T-1" ≡ some (put 10 new_memory_store draft).0)
    × IsMatch tasks (put 10 new_memory_store draft).0)
unfolding put
mem-list_example = mem-list shop tasks (put 10 new_memory_store draft).0 shop-HasIds

-- the tasks put in the other order
abbrev twin : MemoryStore
twin = (put 10 (put 20 new_memory_store other).1 draft).1

twin-Reachable : Reachable twin
twin-Reachable = stepped (stepped started (putting 20 other)) (putting 10 draft)

same_tasks : (id : String) → lookup shop.artifacts id ≡ lookup twin.artifacts id
unfolding lookup put add_edge insert
same_tasks id = elim (String-cases "T-1" id) [
  | inl (e, _) ↦ subst (λ i. lookup shop.artifacts i ≡ lookup twin.artifacts i) e refl
  | inr (_, f) ↦ rw (f, if◌then◌else◌) refl
]

list-order_free_example : list shop tasks ≡ list twin tasks
list-order_free_example =
    list-order_free shop twin tasks shop-HasIds (Reachable-IsValid twin-Reachable).ids same_tasks

matches_iff_example :
    ((matches tasks draft ≡ true) ↔ IsMatch tasks draft)
    × ¬ (
        (tasks.kind_prefix ≢ "")
        × (label_value draft.labels label_prefix_kind ≡ tasks.kind_prefix)
        × (matches tasks draft ≡ true))
matches_iff_example = matches_iff tasks draft
