-- ===== src/Store/Valid/Changes.antt =====
-- The operations on edges, aliases, revisions and events, patches and renames keep the invariant.
use parchment.Prelude.{
  ℕ, suc, ◌+◌, String, Option, none, some, List, [], ◌∷◌, ◌++◌, ◌≡◌, refl, sym, ◌∙◌, arith,
  if◌then◌else◌, Option-cases, Bool-cases, inl, inr, length, length-append, keep, is_empty, ◌==◌,
  not,
}
use parchment.Dict.{lookup}
use parchment.Artifact.{Artifact}
use parchment.Store.{MemoryStore, Edge, Event}
use parchment.Store.Aliases.{add_alias, remove_alias}
use parchment.Store.Edges.{
  key_of, edge_key, add_edge, bulk_add_edge, remove_edge, declared, add_edge_source, retract,
  remove_edge_source, reweigh, update_edge_weight, has_source,
}
use parchment.Store.Events.{append_event}
use parchment.Store.Patch.{ArtifactPatch, patch_artifact, patch_found}
use parchment.Store.Rename.{rename_id, rename_found, keys}
use parchment.Store.Rename.Laws.{move_edges-HasKeys}
use parchment.Store.Revisions.{prune_revisions, purge_revisions}
use parchment.Store.Revisions.History.{prune_revisions-Histories, purge_revisions-Histories}
use parchment.Store.Valid.{IsValid, IsNumbered}
use parchment.Store.Valid.Parts.{
  HasIds-insert, HasIds-remove, HasKeys-insert, HasKeys-remove, with_ids, with_keys,
  snapshot_if_changed-IsValid, with_history, if-IsValid,
}

pub add_edge-IsValid : {m : MemoryStore} (e : Edge) → IsValid m → IsValid (add_edge m e)
unfolding add_edge
add_edge-IsValid e v = with_keys _ v (HasKeys-insert (key_of e) e v.keys refl)

pub bulk_add_edge-IsValid :
    (es : List Edge) {m : MemoryStore} → IsValid m → IsValid (bulk_add_edge m es)
unfolding bulk_add_edge
bulk_add_edge-IsValid [] v = v
bulk_add_edge-IsValid (e ∷ es) v = bulk_add_edge-IsValid es (add_edge-IsValid e v)

pub remove_edge-IsValid : {m : MemoryStore} (e : Edge) → IsValid m → IsValid (remove_edge m e)
unfolding remove_edge
remove_edge-IsValid e v = with_keys _ v (HasKeys-remove (key_of e) v.keys)

key_of-declared :
    (from rel to source : String) (o : Option Edge)
    → ((e : Edge) → o ≡ some e → key_of e ≡ edge_key from rel to)
    → key_of (declared from rel to source o) ≡ edge_key from rel to
key_of-declared from rel to source none h = refl
key_of-declared from rel to source (some e) h = elim (Bool-cases (has_source source e)) [
  | inl t ↦ rw (t, if◌then◌else◌) (h e refl)
  | inr t ↦ rw (t, if◌then◌else◌) (h e refl)
]

pub add_edge_source-IsValid :
    {m : MemoryStore} (from rel to source : String)
    → IsValid m
    → IsValid (add_edge_source m from rel to source)
unfolding add_edge_source
add_edge_source-IsValid {m} from rel to source v = with_keys _ v (
    HasKeys-insert (edge_key from rel to) _ v.keys
      (key_of-declared from rel to source _ (v.keys.keyed (edge_key from rel to))))

retract-IsValid :
    {m : MemoryStore} (key source : String) (o : Option Edge)
    → lookup m.edges key ≡ o
    → IsValid m
    → IsValid (retract m key source o)
unfolding retract
retract-IsValid key source none q v = v
retract-IsValid key source (some e) q v =
    elim (Bool-cases (is_empty (keep (λ s. not (s == source)) e.sources))) [
      | inl t ↦ rw (t, if◌then◌else◌) (with_keys _ v (HasKeys-remove key v.keys))
      | inr t ↦
          rw (t, if◌then◌else◌) (with_keys _ v (HasKeys-insert key _ v.keys (v.keys.keyed key e q)))
    ]

pub remove_edge_source-IsValid :
    {m : MemoryStore} (from rel to source : String)
    → IsValid m
    → IsValid (remove_edge_source m from rel to source)
unfolding remove_edge_source
remove_edge_source-IsValid {m} from rel to source v =
    retract-IsValid (edge_key from rel to) source (lookup m.edges (edge_key from rel to)) refl v

reweigh-IsValid :
    {m : MemoryStore} (key : String) (w : ℕ) (o : Option Edge)
    → lookup m.edges key ≡ o
    → IsValid m
    → IsValid (reweigh m key w o).1
unfolding reweigh
reweigh-IsValid key w none q v = v
reweigh-IsValid key w (some e) q v =
    with_keys _ v (HasKeys-insert key (record e { weight = w }) v.keys (v.keys.keyed key e q))

pub update_edge_weight-IsValid :
    {m : MemoryStore} (from to rel : String) (w : ℕ)
    → IsValid m
    → IsValid (update_edge_weight m from to rel w).1
unfolding update_edge_weight
update_edge_weight-IsValid {m} from to rel w v = reweigh-IsValid _ w _ refl v

pub add_alias-IsValid :
    {m : MemoryStore} (id alias : String) → IsValid m → IsValid (add_alias m id alias).1
unfolding add_alias
add_alias-IsValid {m} id alias v =
    if-IsValid _ _ _ v (with_history _ v v.history refl refl refl refl)

pub remove_alias-IsValid :
    {m : MemoryStore} (id alias : String) → IsValid m → IsValid (remove_alias m id alias)
unfolding remove_alias
remove_alias-IsValid id alias v = with_history _ v v.history refl refl refl refl

rename_found-IsValid :
    {m : MemoryStore} (old new : String) (o : Option Artifact)
    → IsValid m
    → IsValid (rename_found m old new o).1
unfolding rename_found
rename_found-IsValid old new none v = v
rename_found-IsValid {m} old new (some art) v = record {
  ids = HasIds-remove old (HasIds-insert new (record art { id = new }) v.ids refl);
  keys = move_edges-HasKeys old new (keys m.edges) m.edges v.keys;
  history = v.history;
  numbered = v.numbered;
  counted = v.counted;
}

pub rename_id-IsValid :
    {m : MemoryStore} (old new : String) → IsValid m → IsValid (rename_id m old new).1
unfolding rename_id
rename_id-IsValid {m} old new v = rename_found-IsValid old new (lookup m.artifacts old) v

pub patch_artifact-IsValid :
    {m : MemoryStore} (grow : ℕ → ℕ) (spare now : ℕ) (id : String) (patch : ArtifactPatch)
    → IsValid m
    → IsValid (patch_artifact grow spare now m id patch).1
unfolding patch_artifact patch_found
patch_artifact-IsValid {m} grow spare now id patch v = elim (Option-cases (lookup m.artifacts id)) [
  | inl e ↦ rw (e, patch_found) v
  | inr (art, e) ↦
      rw (e, patch_found)
        (snapshot_if_changed-IsValid _ _
          (with_ids _ v (HasIds-insert id _ v.ids (v.ids.keyed id art e))))
]

IsNumbered-append :
    (n : ℕ) (es : List Event) (e : Event)
    → IsNumbered n es
    → e.id ≡ n + length es
    → IsNumbered n (es ++ e ∷ [])
IsNumbered-append n [] e h q = (omega arith, tt)
IsNumbered-append n (x ∷ es) e h q = (h.0, IsNumbered-append (suc n) es e h.1 (omega arith))

pub append_event-IsValid :
    {m : MemoryStore} (now : ℕ) (e : Event) → IsValid m → IsValid (append_event now m e)
unfolding append_event
append_event-IsValid {m} now e v = record {
  ids = v.ids;
  keys = v.keys;
  history = v.history;
  numbered = IsNumbered-append 1 m.events _ v.numbered (omega (arith, v.counted));
  counted = sym (length-append m.events _ ∙ omega (arith, v.counted));
}

pub prune_revisions-IsValid :
    {m : MemoryStore} (id : String) (keep_n : ℕ)
    → IsValid m
    → IsValid (prune_revisions m id keep_n).1
unfolding prune_revisions
prune_revisions-IsValid {m} id keep_n v =
    with_history _ v (unfold prune_revisions in prune_revisions-Histories m id keep_n v.history)
      (ground arith) (ground arith) (ground arith) (ground arith)

pub purge_revisions-IsValid :
    {m : MemoryStore} (id : String) → IsValid m → IsValid (purge_revisions m id)
unfolding purge_revisions
purge_revisions-IsValid {m} id v = record {
  ids = v.ids;
  keys = v.keys;
  history = unfold purge_revisions in purge_revisions-Histories m id v.history;
  numbered = v.numbered;
  counted = v.counted;
}
