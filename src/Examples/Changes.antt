-- ===== src/Examples/Changes.antt =====
-- Changes of status in a tree of two tasks, applied.
use mathlib.Core.Bool.{true≢false}
use mathlib.Core.Option.{some-injective}
use parchment.Prelude.{
  ◌+◌, ◌*◌, ◌≤◌, String, true, false, Option, none, some, [], ◌∷◌, ◌≡◌, ◌≢◌, ◌⊎◌, ◌↔◌, inl, inr,
  refl, sym, ap, ◌∙◌, arith, ◌==◌, eq_iff, if◌then◌else◌, Memᴰ, Bool-cases, all_of, has_prefix,
  trim_prefix,
}
use parchment.Dict.{lookup, insert}
use parchment.Artifact.{Artifact}
use parchment.Prelude.Scanning.{trim_space, is_space}
use parchment.Artifact.Labels.{status_from_labels, is_domain_status_label}
use parchment.Store.{MemoryStore, Edge, new_memory_store}
use parchment.Store.Artifacts.{get, put}
use parchment.Store.Edges.{add_edge, key_of, edge_key}
use parchment.Store.Result.{ok}
use parchment.Store.Valid.{IsValid}
use parchment.Store.Valid.Reachable.{
  Reachable, started, stepped, putting, linking, Reachable-IsValid,
}
use parchment.Protocol.Admission.{Config, QualityGate, Refusal, result, kind_of, admission}
use parchment.Protocol.Admission.Passed.{LetsThrough, Permits, admission_iff, admission-depends_on}
use parchment.Protocol.Kinds.{Traits, is_terminal}
use parchment.Protocol.Predicates.{RuleDef, matches_predicate, matches_term, field_value}
use parchment.Protocol.Statuses.{accepted, validate_status}
use parchment.Protocol.Traits.{no_trait}
use parchment.Protocol.Transition.{Run, setting, perform}
use parchment.Protocol.Transition.Rule.{Parent}
use parchment.Protocol.Transition.Ends.{Within, perform_total}
use parchment.Protocol.Transition.Near.{Near, perform-Near}
use parchment.Protocol.Transition.Accepted.{perform_answers}
use parchment.Examples.{draft, other, shop, shop-Reachable, depends}

-- T-2 is the parent of T-1
abbrev pub holds : Edge
holds = record { from = "T-2"; to = "T-1"; relation = "parent_of"; weight = 0; sources = [] }

abbrev pub tree : MemoryStore
tree = add_edge (put 20 (put 10 new_memory_store draft).1 other).1 holds

tree-Reachable : Reachable tree
tree-Reachable =
    stepped (stepped (stepped started (putting 10 draft)) (putting 20 other)) (linking holds)

pub tree-IsValid : IsValid tree
tree-IsValid = Reachable-IsValid tree-Reachable

-- a task is completed without a check but for its dependencies
abbrev dependency_rule : RuleDef
dependency_rule = record {
  id = "R-1";
  title = "dependencies";
  trigger = "status_changed";
  when = "to=work.complete";
  action = "block";
  forceable = true;
  check = "depends_on_complete";
  message = "";
}

abbrev traits : Traits
traits =
    ("kind:task", record no_trait { active_status = "work.active"; is_container_kind = true })
    ∷ ("work.complete", record no_trait { terminal = true })
    ∷ ("work.active", no_trait)
    ∷ []

abbrev config : Config
config = record { traits = traits; rules = dependency_rule ∷ []; gates = []; clock = λ n. n + 100 }

abbrev start : Run
start = record { store = tree; ticks = 0 }

pub only_stored : (e : Edge) → lookup tree.edges (key_of e) ≡ some e → holds ≡ e
unfolding add_edge insert lookup put
only_stored e stored = elim (Bool-cases (key_of holds == key_of e)) [
  | inl t ↦ some-injective holds e (rw (t, if◌then◌else◌) at stored)
  | inr t ↦ absurd (ground arith)
]

pub only_edge : (p c : String) → Parent tree.edges p c → (p ≡ "T-2") × (c ≡ "T-1")
only_edge p c (e, stored, rel, from, at) =
    let same = only_stored e stored in
    (sym from ∙ ap (λ x. x.from) (sym same), sym at ∙ ap (λ x. x.to) (sym same))

pub apart : Path String "T-2" "T-1" → ⊥
apart q = true≢false (sym ((eq_iff "T-2" "T-1").1 q))

pub top-Within : Within tree.edges 0 "T-2"
top-Within p h = apart (only_edge p "T-2" h).1

below-Within : Within tree.edges 1 "T-1"
below-Within p h q k = apart (sym (only_edge p "T-1" h).0 ∙ (only_edge q p k).1)

abbrev pub task_1 : Artifact
task_1 = (put 10 new_memory_store draft).0

enough : 3 * 1 + 2 ≤ 5
enough = omega arith

perform_total_example :
    (e : Option Refusal) × (r' : Run) × (perform config 5
        (setting task_1 "work.complete" false)
        start
      ≡ some (e, r'))
    × (r'.store.edges ≡ tree.edges)
    × IsValid r'.store
unfolding put
perform_total_example =
    perform_total config start task_1 "work.complete" false 1 5 tree-IsValid below-Within enough

-- how the change of T-1 ends, with the completion of T-2 that follows it
abbrev Ended : Type 0
Ended =
    (e : Option Refusal) × (r' : Run) × (perform config 5 (setting task_1 "work.complete" false)
        start
      ≡ some (e, r'))
    × (r'.store.edges ≡ tree.edges)
    × IsValid r'.store

completion : Ended
unfolding put
completion =
    perform_total config start task_1 "work.complete" false 1 5 tree-IsValid below-Within enough

perform-Near_example :
    (completion.1.store.edges ≡ tree.edges)
    × IsValid completion.1.store
    × ((id : String) → ¬ Near tree.edges "T-1" id → get completion.1.store id ≡ get tree id)
unfolding put
perform-Near_example =
    perform-Near config 5 task_1 "work.complete" false start completion.1 completion.0 tree-IsValid
      completion.2

perform_answers_example :
    (admission config tree task_1 "work.complete" false ≡ completion.0)
    × (((completion.0 ≢ none) × (completion.1 ≡ start))
        ⊎ ((completion.0 ≡ none)
            × ((a : Artifact) × (get completion.1.store "T-1" ≡ ok a)
                × (status_from_labels a.labels ≡ "work.complete")
                × (a.id ≡ "T-1"))))
unfolding put
perform_answers_example =
    perform_answers config 5 task_1 "work.complete" false start completion.1 completion.0 1
      tree-IsValid below-Within completion.2

-- a gate that lets everything through but warns
abbrev warning_gate : QualityGate
warning_gate = record { name = "lint"; validate = λ art. result false "warning" }

admission_iff_example :
    (admission (record config { gates = warning_gate ∷ [] }) shop draft "work.complete" true ≡ none)
    ↔ (((true ≡ true)
          ⊎ (validate_status traits
                (kind_of draft)
                (status_from_labels draft.labels)
                "work.complete"
              ≡ accepted))
        × ((rule : RuleDef)
            → Memᴰ rule (dependency_rule ∷ [])
            → Permits traits shop draft "work.complete" true rule)
        × (is_terminal traits "work.complete" ≡ true
            → (gate : QualityGate) → Memᴰ gate (warning_gate ∷ [])
            → LetsThrough (gate.validate draft)))
admission_iff_example =
    admission_iff (record config { gates = warning_gate ∷ [] }) shop draft "work.complete" true

admission-depends_on_example : admission config shop draft "work.complete" false ≢ none
unfolding add_edge put get lookup insert matches_predicate is_terminal status_from_labels all_of
    has_prefix trim_space is_space matches_term field_value trim_prefix edge_key
    is_domain_status_label
admission-depends_on_example =
    admission-depends_on config shop draft (put 20 new_memory_store other).0 "work.complete" false
      dependency_rule depends (Reachable-IsValid shop-Reachable).keys (Memᴰ.head refl) refl refl
      refl refl refl refl refl refl
