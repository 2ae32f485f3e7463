-- ===== src/Protocol/Link/Guarded.antt =====
-- Linking along a guarded relation keeps it free of cycles.
use mathlib.Core.List.Memᴰ
use parchment.Prelude.{
  ℕ, ◌+◌, ◌*◌, ◌≤◌, eq_iff, sym, String, true, ◌&&◌, not, Option, none, some, List, [], ◌∷◌, ◌≡◌,
  inl, inr, refl, ap, ◌∙◌, arith, ◌==◌, if◌then◌else◌, Bool-cases, Option-cases, Memᴰ, subst,
  is_empty, any_of,
}
use parchment.Dict.{lookup}
use parchment.Artifact.{Artifact, Value}
use parchment.Artifact.Labels.{label_value, label_prefix_kind}
use parchment.Store.{MemoryStore}
use parchment.Store.Artifacts.{HasIds, get}
use parchment.Store.Edges.{in_set, add_edge}
use parchment.Store.Events.{append_event}
use parchment.Store.Result.{Result, ok, err}
use parchment.Protocol.Cycle.Acyclic.{IsAcyclic}
use parchment.Protocol.Rules.{RelationshipTrait, rel_parent_of, rel_satisfies, is_cycle_guarded}
use parchment.Protocol.Checks.{
  LinkError, Outcome, done, refused, found_target, resolve_targets, first_cycle, link_checks,
}
use parchment.Store.Valid.{IsValid}
use parchment.Store.Valid.Changes.{add_edge-IsValid, append_event-IsValid}
use parchment.Protocol.Admission.{Config, is_done}
use parchment.Protocol.Emit.{emit_event}
use parchment.Protocol.Kinds.{is_template_kind}
use parchment.Protocol.Templates.{check_template_conformance}
use parchment.Protocol.Transition.{Run}
use parchment.Protocol.Transition.Ends.{Within, climb_total}
use parchment.Protocol.Link.Above.{Within-linked}
use parchment.Protocol.Link.{
  LinkResult, announced, with_results, does_conform, Satisfying, edge_to, satisfy_one, satisfy,
  link_each, after_link, prepare, link_prepared, link_checked, link_targets, link_artifacts,
}
use parchment.Protocol.Link.Safe.{
  Safe, Safe-edges, Safe-add_edge, Safe-remove_edge, Safe-link_each, first_cycle-Safe,
}

-- the resolved targets are the ones that were named
pub AreNamed : List String → List Artifact → Type 0
AreNamed tids targets = (t : Artifact) → Memᴰ t targets → Memᴰ t.id tids

get-id :
    (m : MemoryStore) (id : String) (art : Artifact)
    → HasIds m.artifacts
    → get m id ≡ ok art
    → art.id ≡ id
unfolding get
get-id m id art h e = elim (Option-cases (lookup m.artifacts id)) [
  | inl q ↦ absurd (ground (arith, e, q))
  | inr (a, q) ↦ h.keyed id art (ground (arith, e, q))
]

targets_in : Outcome (List Artifact) → List Artifact
targets_in (done targets) = targets
targets_in (refused e) = []

found_target-AreNamed :
    (tid : String) (tids : List String) (r : Result Artifact) (o : Outcome (List Artifact))
    → ((art : Artifact) → r ≡ ok art → art.id ≡ tid)
    → AreNamed tids (targets_in o)
    → AreNamed (tid ∷ tids) (targets_in (found_target tid r o))
unfolding AreNamed targets_in found_target
found_target-AreNamed tid tids (err e) o named rest t i = absurd (Memᴰ.not-nil i)
found_target-AreNamed tid tids (ok art) (refused e) named rest t i = absurd (Memᴰ.not-nil i)
found_target-AreNamed tid tids (ok art) (done arts) named rest t i = elim (Memᴰ.cases_cons i) [
  | inl q ↦ Memᴰ.head (ap (λ a. a.id) q ∙ named art refl)
  | inr later ↦ Memᴰ.tail (rest t later)
]

resolved-AreNamed :
    (m : MemoryStore) (tids : List String)
    → HasIds m.artifacts
    → AreNamed tids (targets_in (resolve_targets m tids))
unfolding resolve_targets AreNamed targets_in
resolved-AreNamed m [] h t i = absurd (Memᴰ.not-nil i)
resolved-AreNamed m (tid ∷ tids) h t i =
    found_target-AreNamed tid tids (get m tid) (resolve_targets m tids)
      (λ art e. get-id m tid art h e) (resolved-AreNamed m tids h) t i

resolve_targets-AreNamed :
    (m : MemoryStore) (tids : List String) (targets : List Artifact)
    → HasIds m.artifacts
    → resolve_targets m tids ≡ done targets
    → AreNamed tids targets
unfolding targets_in
resolve_targets-AreNamed m tids targets h e =
    subst (λ o. AreNamed tids (targets_in o)) e (resolved-AreNamed m tids h)

emit_event-IsValid :
    (now : ℕ) (m : MemoryStore) (event_type id scope : String) (payload : Value)
    → IsValid m
    → IsValid (emit_event now m event_type id scope payload)
unfolding emit_event
emit_event-IsValid now m event_type id scope payload v = append_event-IsValid now _ v

-- what follows the edges returns, and touches none of them
after_link-edges :
    (cfg : Config) (n h : ℕ) (art : Artifact) (source relation : String) (tids : List String)
    (targets : List Artifact) (r : Run)
    → (relation ≡ rel_parent_of → IsValid r.store × Within r.store.edges h art.id)
    → 3 * h + 3 ≤ n
    → (r' : Run) × (after_link cfg n art source relation tids targets r ≡ some r')
      × (r'.store.edges ≡ r.store.edges)
unfolding after_link emit_event append_event
after_link-edges cfg n h art source relation tids targets r ready le =
    elim (Bool-cases
      (relation == rel_parent_of && any_of (λ t. not (is_done cfg.traits t)) targets)) [
        | inl e ↦
            let (v, w) = ready ((eq_iff relation rel_parent_of).0 (ground (arith, e))) in
            rw (e, if◌then◌else◌)
              (climb_total cfg (announced cfg art source relation tids r) art h n
                (emit_event-IsValid (cfg.clock r.ticks) r.store "linked" source _ _ v) w le)
        | inr e ↦ rw (e, if◌then◌else◌) (_, refl, refl)
      ]

link_each-IsValid :
    (source relation : String) (weight : ℕ) (ts existing : List String) (m : MemoryStore)
    → IsValid m
    → IsValid (link_each source relation weight ts existing m).1
unfolding link_each
link_each-IsValid source relation weight [] existing m v = v
link_each-IsValid source relation weight (t ∷ ts) existing m v =
    elim (Bool-cases (in_set existing t)) [
      | inl e ↦ rw (e, if◌then◌else◌) (link_each-IsValid source relation weight ts existing m v)
      | inr e ↦
          rw (e, if◌then◌else◌)
            (link_each-IsValid source relation weight ts (t ∷ existing) _ (add_edge-IsValid _ v))
    ]

link_checks-cycle :
    (rels : List RelationshipTrait) (m : MemoryStore) (art : Artifact) (source relation : String)
    (tids : List String) (targets : List Artifact)
    → is_cycle_guarded rels art.labels relation ≡ true
    → link_checks rels m art source relation tids targets ≡ none
    → first_cycle m relation source tids ≡ none
unfolding link_checks
link_checks-cycle rels m art source relation tids targets g h = ground (arith, g, h)

module _ (cfg : Config) (art : Artifact) (source relation : String) (weight : ℕ)
    (tids : List String) where
  Safe-satisfy_one :
      (tpl : Artifact) (s : Satisfying)
      → Memᴰ tpl.id tids
      → Safe relation source tids s.store
      → Safe relation source tids (satisfy_one cfg.traits art source relation weight tpl s).store
  unfolding satisfy_one
  Safe-satisfy_one tpl s i h =
      let added = Safe-add_edge relation source tids s.store weight tpl.id i h in
      elim (Bool-cases
        (not (is_template_kind cfg.traits (label_value tpl.labels label_prefix_kind)))) [
          | inl e ↦ rw (e, if◌then◌else◌) h
          | inr e ↦
              rw (e, if◌then◌else◌)
                (elim (Bool-cases (in_set s.existing tpl.id)) [
                  | inl seen ↦ rw (seen, if◌then◌else◌) h
                  | inr new ↦
                      rw (new, if◌then◌else◌)
                        (elim (Bool-cases (
                          does_conform (
                            check_template_conformance cfg.traits
                              (add_edge s.store (edge_to source relation weight tpl.id)) art
                              true))) [
                                | inl fits ↦ rw (fits, if◌then◌else◌) added
                                | inr fails ↦
                                    rw (fails, if◌then◌else◌)
                                      (Safe-remove_edge relation source tids _
                                        (edge_to source relation 0 tpl.id) added)
                              ])
                ])
        ]

  Safe-satisfy :
      (tpls : List Artifact) (s : Satisfying)
      → AreNamed tids tpls
      → Safe relation source tids s.store
      → Safe relation source tids (satisfy cfg.traits art source relation weight tpls s).store
  unfolding satisfy AreNamed
  Safe-satisfy [] s named h = h
  Safe-satisfy (tpl ∷ tpls) s named h =
      let one = Safe-satisfy_one tpl s (named tpl (Memᴰ.head refl)) h in
      elim (Option-cases (satisfy_one cfg.traits art source relation weight tpl s).failed) [
        | inl e ↦ rw (e, satisfy) (Safe-satisfy tpls _ (λ t i. named t (Memᴰ.tail i)) one)
        | inr (x, e) ↦ rw (e, satisfy) one
      ]

  Safe-prepare :
      (targets : List Artifact) (m : MemoryStore)
      → AreNamed tids targets
      → Safe relation source tids m
      → Safe relation source tids (prepare cfg.traits art source relation weight targets m).store
  unfolding prepare
  Safe-prepare targets m named h = elim (Bool-cases (relation == rel_satisfies)) [
    | inl e ↦ rw (e, if◌then◌else◌) (Safe-satisfy targets _ named h)
    | inr e ↦ rw (e, if◌then◌else◌) h
  ]

  -- where the source is a parent: the store and the height that reopenAncestors needs
  abbrev Ready : MemoryStore → ℕ → Type 0
  Ready m h = relation ≡ rel_parent_of → IsValid m × Within m.edges h source

  -- the answer, which is there, leaves no cycle
  abbrev Kept : Option (Outcome (List LinkResult) × Run) → Type 0
  Kept o =
      (answer : Outcome (List LinkResult)) × (r' : Run) × (o ≡ some (answer, r'))
      × IsAcyclic r'.store relation

  prepared_plain :
      (targets : List Artifact) (m : MemoryStore)
      → relation ≡ rel_parent_of
      → (prepare cfg.traits art source relation weight targets m).store ≡ m
  unfolding prepare
  prepared_plain targets m q = rw (q, if◌then◌else◌) refl

  linked-Ready :
      (h : ℕ) (existing : List String) (m : MemoryStore)
      → Safe relation source tids m
      → Ready m h
      → Ready (link_each source relation weight tids existing m).1 h
  linked-Ready h existing m safe ready q =
      let (v, w) = ready q in
      (
        link_each-IsValid source relation weight tids existing m v,
        subst (λ rel. Within (link_each source rel weight tids existing m).1.edges h source) (sym q)
            (Within-linked m source tids (subst (λ rel. Safe rel source tids m) q safe) weight
              existing h source (inl refl) w),
      )

  Kept-link_prepared :
      (n h : ℕ) (r : Run) (targets : List Artifact) (s : Satisfying) (failed : Option LinkError)
      → art.id ≡ source
      → Safe relation source tids s.store
      → Ready s.store h
      → 3 * h + 3 ≤ n
      → Kept (link_prepared cfg n r art source relation weight tids targets s failed)
  unfolding link_prepared
  Kept-link_prepared n h r targets s (some e) same safe ready le = (_, _, refl, safe.acyclic)
  Kept-link_prepared n h r targets s none same safe ready le =
      let each = link_each source relation weight tids s.existing s.store in
      let (r', q, kept) =
        after_link-edges cfg n h art source relation tids targets (record r { store = each.1 })
          (rw same (linked-Ready h s.existing s.store safe ready)) le in
      (
        _,
        r',
        ap (with_results each.0) q,
        (Safe-edges relation source tids each.1 r'.store kept (
            Safe-link_each relation source tids weight tids s.existing s.store (λ t i. i)
              safe)).acyclic,
      )

  link_targets-IsAcyclic :
      (rels : List RelationshipTrait) (n h : ℕ) (r : Run) (o : Outcome (List Artifact))
      → HasIds r.store.artifacts
      → art.id ≡ source
      → resolve_targets r.store tids ≡ o
      → is_cycle_guarded rels art.labels relation ≡ true
      → IsAcyclic r.store relation
      → Ready r.store h
      → 3 * h + 3 ≤ n
      → Kept (link_targets rels cfg n r art source relation weight tids o)
  unfolding link_targets link_checked
  link_targets-IsAcyclic rels n h r (refused e) ids same q g a ready le = (_, _, refl, a)
  link_targets-IsAcyclic rels n h r (done targets) ids same q g a ready le =
      elim (Option-cases (link_checks rels r.store art source relation tids targets)) [
        | inl e ↦
            let s = prepare cfg.traits art source relation weight targets r.store in
            let named = resolve_targets-AreNamed r.store tids targets ids q in
            let safe =
              first_cycle-Safe r.store relation source tids a
                (link_checks-cycle rels r.store art source relation tids targets g e) in
            rw (e, link_checked)
              (Kept-link_prepared n h r targets s s.failed same
                (Safe-prepare targets r.store named safe)
                (λ p.
                  subst (λ m. IsValid m × Within m.edges h source)
                    (sym (prepared_plain targets r.store p)) (ready p))
                le)
        | inr (x, e) ↦ rw (e, link_checked) (_, _, refl, a)
      ]

-- If the edges of a relation form no cycle, each artifact stands under its ID and the schema guards the
-- relation for the labels of the source, then `LinkArtifacts` returns, and the edges form no cycle
-- after it, whether it links all of the targets, some of them or none: the guard looks at the graph once,
-- before the first edge is added, and that is enough. For parent_of, where the ancestors of the source are
-- reopened, this asks for a valid store in which going up from the source ends after at most h
-- steps, and for fuel of 3h + 3 nested calls.
pub link_artifacts-IsAcyclic :
    (rels : List RelationshipTrait) (cfg : Config) (n h : ℕ) (r : Run) (source relation : String)
    (tids : List String) (weight : ℕ) (art : Artifact)
    → HasIds r.store.artifacts
    → lookup r.store.artifacts source ≡ some art
    → is_cycle_guarded rels art.labels relation ≡ true
    → IsAcyclic r.store relation
    → (relation ≡ rel_parent_of → IsValid r.store × Within r.store.edges h source)
    → 3 * h + 3 ≤ n
    → (answer : Outcome (List LinkResult)) × (r' : Run) × (link_artifacts rels cfg n r source
          relation tids weight
        ≡ some (answer, r'))
      × IsAcyclic r'.store relation
unfolding link_artifacts get
link_artifacts-IsAcyclic rels cfg n h r source relation tids weight art ids stored g a ready le =
    elim (Bool-cases (source == "")) [
      | inl e ↦ rw (e, if◌then◌else◌) (_, _, refl, a)
      | inr e ↦
          rw (e, if◌then◌else◌)
            (elim (Bool-cases (relation == "")) [
              | inl e ↦ rw (e, if◌then◌else◌) (_, _, refl, a)
              | inr e ↦
                  rw (e, if◌then◌else◌)
                    (elim (Bool-cases (is_empty tids)) [
                      | inl e ↦ rw (e, if◌then◌else◌) (_, _, refl, a)
                      | inr e ↦
                          rw (e, if◌then◌else◌, stored)
                            (link_targets-IsAcyclic cfg art source relation weight tids rels n h r
                              (resolve_targets r.store tids) ids (ids.keyed source art stored) refl
                              g a ready le)
                    ])
            ])
    ]
