-- ===== src/Protocol/Statuses.antt =====
-- protocol_lifecycle.go and protocol_lifecycle_traits.go: which statuses a kind may have, and which it may
-- pass to from a given one. A transition is declared by a text `from→to`.
pub mod Allowed
pub mod Validated
use parchment.Prelude.{
  ℕ, String, Bool, true, false, ◌&&◌, ◌||◌, not, Option, none, some, List, [], ◌∷◌, ◌++◌, ◌==◌,
  any_of, is_empty, str_leb, if◌then◌else◌,
}
use parchment.Prelude.Scanning.{cut}
use parchment.Prelude.Sorting.{sort_slice}
use parchment.Store.Edges.{in_set}
use parchment.Protocol.Kinds.{Traits, kind_trait, default_status, active_status, is_known_status}
use parchment.Protocol.Traits.{LabelTrait}

-- strings.SplitN(t, "→", 2)
abbrev pub ends : String → Option (String × String)
ends t = cut t "→"

unfoldable pub transitions_of : Traits → String → List String
transitions_of traits kind = elim (kind_trait traits kind) [ none ↦ [] | some t ↦ t.transitions ]

unfoldable pub kind_lifecycle : Traits → String → String × String × List String
unfolding transitions_of
kind_lifecycle traits kind =
    (default_status traits kind, active_status traits kind, transitions_of traits kind)

abbrev declares : String → String → String → Bool
declares from to t = elim (ends t) [ none ↦ false | some (a, b) ↦ a == from && b == to ]

unfoldable pub is_valid_transition : Traits → String → String → String → Bool
unfolding transitions_of
is_valid_transition traits kind from to =
    let ts = transitions_of traits kind in is_empty ts || any_of (declares from to) ts

unfoldable pub next_statuses : String → List String → List String
unfolding cut
next_statuses from [] = []
next_statuses from (t ∷ ts) =
    let rest = next_statuses from ts in
    elim (ends t) [ none ↦ rest | some (a, b) ↦ if a == from then b ∷ rest else rest ]

unfoldable pub valid_next_statuses : Traits → String → String → List String
unfolding next_statuses transitions_of
valid_next_statuses traits kind from = next_statuses from (transitions_of traits kind)

-- `set[s] = struct{}{}`
abbrev pub add_to_set : String → List String → List String
add_to_set s set = if in_set set s then set else set ++ s ∷ []

abbrev pub add_if_named : String → List String → List String
add_if_named s set = if s == "" then set else add_to_set s set

abbrev pub add_pair : Option (String × String) → List String → List String
add_pair none set = set
add_pair (some (a, b)) set = add_to_set b (add_to_set a set)

unfoldable pub add_ends : List String → List String → List String
unfolding cut
add_ends [] set = set
add_ends (t ∷ ts) set = add_ends ts (add_pair (ends t) set)

abbrev pub collect_statuses : String × String × List String → List String
collect_statuses (def, active, transitions) =
    if is_empty transitions
    then []
    else sort_slice str_leb (add_ends transitions (add_if_named active (add_if_named def [])))

unfoldable pub allowed_statuses : Traits → String → List String
unfolding add_ends kind_lifecycle
allowed_statuses traits kind = collect_statuses (kind_lifecycle traits kind)

pub data Verdict : Type 0 where
  accepted status_required not_in_lifecycle no_transition unknown_status : Verdict

unfoldable pub validate_status : Traits → String → String → String → Verdict
validate_status traits kind from to =
    let allowed = allowed_statuses traits kind in
    if to == ""
    then status_required
    else if not (is_empty allowed)
    then (if not (in_set allowed to)
        then not_in_lifecycle
        else if not (from == "") && not (from == to)
        then (if is_valid_transition traits kind from to then accepted else no_transition)
        else accepted)
    else if is_known_status traits to
    then accepted
    else unknown_status
