-- ===== src/Examples/Records.antt =====
-- Accesses, attachments, aliases, events, embeddings and patches, applied.
use mathlib.Core.Bool.{true≢false}
use parchment.Prelude.{true, ap, sym, ◌<◌, [], ◌∷◌, none, some, ◌≡◌, ◌↔◌, ◌⊎◌, refl, ◌==◌, all_of}
use parchment.Dict.{lookup, insert}
use parchment.Artifact.Claim.{Claim, claim_from_extra, claim_active, apply_claim, clear_claim}
use parchment.Artifact.Claim.Lease.{claim_from_extra-apply_claim}
use parchment.Artifact.{entries, Artifact, text}
use parchment.Store.{MemoryStore, new_memory_store}
use parchment.Store.Result.{ok}
use parchment.Store.Patch.{ArtifactPatch, patch_artifact, patched, by_name}
use parchment.Store.Patch.Unrecorded.{patch_artifact_unrecorded}
use parchment.Examples.{draft}

abbrev extended : Artifact
extended = record draft { extra = some []; sections = record { name = "notes"; text = "old" } ∷ [] }

abbrev rewrite_notes : ArtifactPatch
rewrite_notes = record {
  append_annotations = [];
  append_sections = record { name = "notes"; text = "new" } ∷ [];
  set_extra = ("owner", text "ada") ∷ [];
}

abbrev noted : MemoryStore
noted = record new_memory_store { artifacts = ("T-1", extended) ∷ [] }

patch_artifact_unrecorded_example : patch_artifact (λ n. n) 0 50 noted "T-1" rewrite_notes ≡ (
  ok tt,
  record noted {
    artifacts = insert noted.artifacts "T-1" (patched (λ n. n) 0 50 extended rewrite_notes);
  },
)
unfolding lookup all_of by_name insert
patch_artifact_unrecorded_example =
    patch_artifact_unrecorded (λ n. n) 0 50 noted "T-1" rewrite_notes extended [] refl refl tt refl
      refl

abbrev lease : Claim
lease = record { agent = "ada"; session = "s1"; expires_at = 0 }

claim_from_extra-apply_claim_example :
    (claim_from_extra (λ t. some 0) (apply_claim (λ n. "0001-01-01T00:00:00Z") none lease)
      ≡ some lease)
    × (claim_from_extra
          (λ t. some 0)
          (clear_claim (apply_claim (λ n. "0001-01-01T00:00:00Z") none lease))
        ≡ none)
    × (lookup (entries (apply_claim (λ n. "0001-01-01T00:00:00Z") none lease)) "owner" ≡ none)
    × (lookup (entries (clear_claim none)) "owner" ≡ none)
    × ((claim_active
            (claim_from_extra (λ t. some 0) (apply_claim (λ n. "0001-01-01T00:00:00Z") none lease))
            7
          ≡ true)
        ↔ ((lease.expires_at ≡ 0) ⊎ (7 < lease.expires_at)))
unfolding lookup
claim_from_extra-apply_claim_example =
    claim_from_extra-apply_claim (λ t. some 0) (λ n. "0001-01-01T00:00:00Z") none lease "owner" 7
      (λ q. true≢false (ap (λ t. t == "") (sym q))) refl
