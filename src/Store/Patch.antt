-- ===== src/Store/Patch.antt =====
-- memstore.go: `PatchArtifact`, which changes the stored artifact in place. The snapshot that it
-- takes first is a shallow copy, so it shares the section array and the extra map with the artifact:
-- a write through one is seen through the other until `append` moves the sections to a new array.
pub mod Unrecorded
use parchment.Prelude.{
  ℕ, zero, suc, String, Bool, true, false, Option, none, some, List, [], ◌∷◌, ◌++◌, length,
  if◌then◌else◌,
}
use parchment.Dict.{Dict, lookup, insert}
use parchment.Artifact.{Artifact, Section, Annotation, Value, Extra, entries}
use parchment.Store.{MemoryStore}
use parchment.Store.Result.{Status, ok, err, artifact_not_found}
use parchment.Store.Revisions.{snapshot_if_changed}

pub record ArtifactPatch : Type 0 where
  pub append_annotations : List Annotation
  pub append_sections : List Section
  pub set_extra : Dict Value

-- byName: the last index with each name
unfoldable pub by_name : ℕ → List Section → Dict ℕ → Dict ℕ
by_name i [] d = d
by_name i (s ∷ rest) d = by_name (suc i) rest (insert d s.name i)

-- sections[i].Text = text
abbrev pub set_text : List Section → ℕ → String → List Section
set_text [] i text = []
set_text (s ∷ rest) zero text = record s { text = text } ∷ rest
set_text (s ∷ rest) (suc i) text = s ∷ set_text rest i text

-- The sections seen through the artifact and through the snapshot, whether the two share an array,
-- and how many elements the array of the artifact has room for. `grow n` is the room that the
-- runtime leaves when an `append` makes an array for n elements.
pub record Shared : Type 0 where
  pub current : List Section
  pub snap : List Section
  pub shared : Bool
  pub spare : ℕ

write_text : Shared → ℕ → String → Shared
write_text sh i text = record sh {
  current = set_text sh.current i text;
  snap = if sh.shared then set_text sh.snap i text else sh.snap;
}

push : (ℕ → ℕ) → ℕ → Shared → Section → Shared
push grow zero sh sec = record sh {
  current = sh.current ++ sec ∷ [];
  shared = false;
  spare = grow (suc (length sh.current));
}
push grow (suc spare) sh sec = record sh { current = sh.current ++ sec ∷ []; spare = spare }

merge_section : (ℕ → ℕ) → Shared → Section → Option ℕ → Shared
unfolding write_text push
merge_section grow sh sec none = push grow sh.spare sh sec
merge_section grow sh sec (some i) = write_text sh i sec.text

unfoldable pub merge_sections : (ℕ → ℕ) → Dict ℕ → Shared → List Section → Shared
unfolding merge_section
merge_sections grow names sh [] = sh
merge_sections grow names sh (sec ∷ rest) =
    merge_sections grow names (merge_section grow sh sec (lookup names sec.name)) rest

-- for k, v := range patch.SetExtra { art.Extra[k] = v }
unfoldable pub set_all : Dict Value → Dict Value → Dict Value
set_all d [] = d
set_all d ((k, v) ∷ rest) = set_all (insert d k v) rest

-- a map that was made for a nil one is not the snapshot's
abbrev pub shared_extra : Extra → Dict Value → Extra
shared_extra none new = none
shared_extra (some _) new = some new

module _ (grow : ℕ → ℕ) (spare now : ℕ) where
  abbrev pub merged : Artifact → ArtifactPatch → Shared
  merged art patch =
      merge_sections grow (by_name 0 art.sections [])
        (record { current = art.sections; snap = art.sections; shared = true; spare = spare })
        patch.append_sections

  abbrev pub patched : Artifact → ArtifactPatch → Artifact
  patched art patch = record art {
    annotations = art.annotations ++ patch.append_annotations;
    sections = (merged art patch).current;
    extra = some (set_all (entries art.extra) patch.set_extra);
    updated_at = now;
  }

  -- what the snapshot shows when the deferred comparison reads it
  abbrev pub snapshot : Artifact → ArtifactPatch → Artifact
  snapshot art patch = record art {
    sections = (merged art patch).snap;
    extra = shared_extra art.extra (set_all (entries art.extra) patch.set_extra);
  }

  unfoldable pub patch_found :
      MemoryStore → String → ArtifactPatch → Option Artifact → Status × MemoryStore
  unfolding merge_sections
  patch_found m id patch none = (err artifact_not_found, m)
  patch_found m id patch (some art) =
      let m' = record m { artifacts = insert m.artifacts id (patched art patch) } in
      (ok tt, snapshot_if_changed m' (snapshot art patch) (patched art patch))

  unfoldable pub patch_artifact : MemoryStore → String → ArtifactPatch → Status × MemoryStore
  unfolding patch_found
  patch_artifact m id patch = patch_found m id patch (lookup m.artifacts id)
