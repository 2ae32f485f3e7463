-- ===== src/Store/Patch/Unrecorded.antt =====
-- The patches that leave no revision behind, because the snapshot changes with the artifact.
use mathlib.Core.List.{append-nil}
use parchment.Prelude.{
  ℕ, String, Bool, true, some, List, [], ◌∷◌, ◌++◌, ◌≡◌, refl, sym, ap, ◌∙◌, arith, if◌then◌else◌,
  Option-cases, inl, inr, is_some, all_of,
}
use parchment.Dict.{Dict, lookup, insert, IsDistinct, insert-IsDistinct}
use parchment.Artifact.{Artifact, Section, Value, artifact_content_equal}
use parchment.Artifact.Equal.{artifact_content_equal-same}
use parchment.Store.{MemoryStore}
use parchment.Store.Result.{ok}
use parchment.Store.Revisions.{snapshot_if_changed}
use parchment.Store.Patch.{
  ArtifactPatch, by_name, set_text, Shared, write_text, merge_section, merge_sections, set_all,
  patched, snapshot, patch_found, patch_artifact,
}

-- the section is one that the artifact has
abbrev pub known : Dict ℕ → Section → Bool
known names sec = is_some (lookup names sec.name)

pub set_all-IsDistinct : (d new : Dict Value) → IsDistinct d → IsDistinct (set_all d new)
unfolding set_all
set_all-IsDistinct d [] h = h
set_all-IsDistinct d ((k, v) ∷ new) h =
    set_all-IsDistinct (insert d k v) new (insert-IsDistinct d k v h)

-- through a shared array both see the same texts
abbrev InStep : Shared → Type 0
InStep sh = (sh.shared ≡ true) × (sh.snap ≡ sh.current)

merge_sections-InStep :
    (grow : ℕ → ℕ) (names : Dict ℕ) (sh : Shared) (secs : List Section)
    → all_of (known names) secs ≡ true
    → InStep sh
    → InStep (merge_sections grow names sh secs)
unfolding merge_sections merge_section write_text all_of
merge_sections-InStep grow names sh [] h s = s
merge_sections-InStep grow names sh (sec ∷ secs) h s = elim (Option-cases (lookup names sec.name)) [
  | inl e ↦ absurd (ground (arith, h, e))
  | inr (i, e) ↦
      rw (e, merge_sections)
        (merge_sections-InStep grow names _ secs (ground (arith, h))
          (s.0, rw (s.0, if◌then◌else◌) (ap (λ l. set_text l i sec.text) s.1)))
]

-- A patch that only rewrites sections and extra values that an artifact with a non-nil extra map has
-- changes the artifact and records no revision: the snapshot shares the array and the map, so it shows
-- the new content when it is compared. The patched values are stored and every history stays as it was.
pub patch_artifact_unrecorded :
    (grow : ℕ → ℕ) (spare now : ℕ) (m : MemoryStore) (id : String) (patch : ArtifactPatch)
    (art : Artifact) (d : Dict Value)
    → lookup m.artifacts id ≡ some art
    → art.extra ≡ some d
    → IsDistinct d
    → patch.append_annotations ≡ []
    → all_of (known (by_name 0 art.sections [])) patch.append_sections ≡ true
    → patch_artifact grow spare now m id patch
      ≡ (ok tt, record m { artifacts = insert m.artifacts id (patched grow spare now art patch) })
unfolding patch_artifact patch_found snapshot_if_changed
patch_artifact_unrecorded grow spare now m id patch art d stored x h none_new old =
    let step =
      merge_sections-InStep grow (by_name 0 art.sections [])
        (record { current = art.sections; snap = art.sections; shared = true; spare = spare })
        patch.append_sections old (refl, refl) in
    let same : artifact_content_equal (snapshot grow spare now art patch)
          (patched grow spare now art patch)
        ≡ true =
      artifact_content_equal-same _ _ refl refl step.1
        (sym (append-nil art.annotations) ∙ ap (λ l. art.annotations ++ l) (sym none_new))
        (rw x refl) (rw x (set_all-IsDistinct d patch.set_extra h)) in
    rw (stored, patch_found, same, if◌then◌else◌) refl
