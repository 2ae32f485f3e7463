-- ===== src/Examples/Graphs.antt =====
-- The cycle guard, applied.
use mathlib.Core.List.Memᴰ
use parchment.Prelude.{[], ◌≡◌, ◌↔◌, ◌⊎◌, true, some, refl}
use parchment.Dict.{insert}
use parchment.Store.{Edge, new_memory_store}
use parchment.Store.Edges.{add_edge, outgoing}
use parchment.Store.Walk.{target, walk}
use parchment.Store.Walk.Rule.{link, more}
use parchment.Protocol.Cycle.{Search, search_at, look_for, would_cycle}
use parchment.Protocol.Cycle.Guard.{PathOf, would_cycle_iff}
use parchment.Protocol.Cycle.Acyclic.{IsAcyclic, add_edge-IsAcyclic}
use parchment.Examples.{shop, depends}

abbrev onward : Edge
onward = record { from = "T-2"; to = "T-3"; relation = "depends_on"; weight = 0; sources = [] }

would_cycle_iff_example :
    ((s : Search) × (walk (look_for "T-2") shop "T-1" "depends_on" outgoing 0 (search_at "T-1")
        ≡ some s))
    × (((would_cycle shop "depends_on" "T-2" "T-1").0 ≡ true)
        ↔ ((depends.to ≡ depends.from) ⊎ PathOf shop "depends_on" "T-1" "T-2"))
would_cycle_iff_example = would_cycle_iff shop "depends_on" "T-2" "T-1"

new-IsAcyclic : IsAcyclic new_memory_store "depends_on"
new-IsAcyclic a (link (e, m, q)) = absurd (Memᴰ.not-nil m)
new-IsAcyclic a (more r (e, m, q)) = absurd (Memᴰ.not-nil m)

one-IsAcyclic : IsAcyclic (add_edge new_memory_store depends) "depends_on"
unfolding would_cycle walk
one-IsAcyclic = add_edge-IsAcyclic new_memory_store "depends_on" depends new-IsAcyclic refl

add_edge-IsAcyclic_example :
    IsAcyclic (add_edge (add_edge new_memory_store depends) onward) "depends_on"
unfolding would_cycle walk add_edge insert target
add_edge-IsAcyclic_example =
    add_edge-IsAcyclic (add_edge new_memory_store depends) "depends_on" onward one-IsAcyclic refl
