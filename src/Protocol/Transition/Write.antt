-- ===== src/Protocol/Transition/Write.antt =====
-- The write of a new status and its event.
use parchment.Prelude.{ℕ, String, Option, none, some, ◌≡◌, refl, ◌∙◌, arith, if◌then◌else◌, ◌==◌}
use parchment.Dict.{Dict, lookup}
use parchment.Artifact.{Artifact}
use parchment.Artifact.Labels.{status_from_labels, set_status_label}
use parchment.Artifact.Labels.Status.{status_from_labels-set_status_label}
use parchment.Store.{MemoryStore, Edge}
use parchment.Store.Artifacts.{get, put, snapshot_old, store_artifact}
use parchment.Store.Artifacts.Writing.{get-put_returned}
use parchment.Store.Events.{append_event}
use parchment.Store.Result.{ok}
use parchment.Store.Revisions.{append_revision, snapshot_if_changed}
use parchment.Store.Valid.{IsValid}
use parchment.Store.Valid.Writes.{put-IsValid}
use parchment.Store.Valid.Changes.{append_event-IsValid}
use parchment.Protocol.Admission.{Config}
use parchment.Protocol.Emit.{emit_event}
use parchment.Protocol.Transition.{Run, apply_status}

-- what every write of a status keeps, beside others
abbrev pub Sound : Dict Edge → Run → Type 0
Sound es r = (r.store.edges ≡ es) × IsValid r.store

edges-snapshot_old :
    (m : MemoryStore) (o : Option Artifact) (art : Artifact)
    → (snapshot_old m o art).edges ≡ m.edges
unfolding snapshot_old snapshot_if_changed append_revision
edges-snapshot_old m none art = refl
edges-snapshot_old m (some old) art = ground arith

edges-put : (now : ℕ) (m : MemoryStore) (art : Artifact) → (put now m art).1.edges ≡ m.edges
unfolding put store_artifact
edges-put now m art = edges-snapshot_old m (lookup m.artifacts art.id) _

module _ (cfg : Config) (r : Run) (art : Artifact) (status : String) where
  abbrev labelled : Artifact
  labelled = record art { labels = set_status_label art.labels status }

  edges-apply_status : (apply_status cfg r art status).1.store.edges ≡ r.store.edges
  unfolding apply_status emit_event append_event
  edges-apply_status = edges-put (cfg.clock r.ticks) r.store labelled

  apply_status-IsValid : IsValid r.store → IsValid (apply_status cfg r art status).1.store
  unfolding apply_status emit_event
  apply_status-IsValid v = append_event-IsValid _ _ (put-IsValid (cfg.clock r.ticks) labelled v)

  pub Sound-apply_status :
      (es : Dict Edge) → Sound es r → Sound es (apply_status cfg r art status).1
  Sound-apply_status es (q, v) = (edges-apply_status ∙ q, apply_status-IsValid v)

  pub status-apply_status : status_from_labels (apply_status cfg r art status).0.labels ≡ status
  unfolding apply_status put
  status-apply_status = status_from_labels-set_status_label art.labels status

  pub id-apply_status : (apply_status cfg r art status).0.id ≡ art.id
  unfolding apply_status put
  id-apply_status = refl

  pub get-apply_status :
      (id : String)
      → get (apply_status cfg r art status).1.store id
        ≡ (if art.id == id then ok (apply_status cfg r art status).0 else get r.store id)
  unfolding apply_status emit_event append_event get
  get-apply_status id = unfold get in get-put_returned (cfg.clock r.ticks) r.store labelled id
