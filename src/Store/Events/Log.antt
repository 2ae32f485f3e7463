-- ===== src/Store/Events/Log.antt =====
-- What a query of the log gives after an event is appended.
use mathlib.Core.List.Memᴰ
use parchment.Prelude.{
  ℕ, ◌+◌, ◌≤◌, String, Bool, true, ◌||◌, List, [], ◌∷◌, ◌++◌, ◌≡◌, ◌↔◌, ◌⊎◌, inl, inr, refl, ap,
  arith, ◌==◌, eq_iff, eq_refl, if◌then◌else◌, Bool-cases, keep, mem-keep, Memᴰ, any_of, any_of→mem,
  mem→any_of, is_empty,
}
use parchment.Store.{MemoryStore, Event}
use parchment.Store.Artifacts.{or_now}
use parchment.Store.Events.{EventFilter, append_event, event_passes, get_events}

-- what `AppendEvent` stores
abbrev pub logged : ℕ → MemoryStore → Event → Event
logged now m event = record event { id = m.event_id + 1; ts = or_now event.ts now }

keep-append :
    (p : Event → Bool) (xs : List Event) (x : Event)
    → keep p (xs ++ x ∷ []) ≡ keep p xs ++ (if p x then x ∷ [] else [])
unfolding keep
keep-append p [] x = ground arith
keep-append p (y ∷ xs) x = elim (Bool-cases (p y)) [
  | inl e ↦ rw (e, if◌then◌else◌) (ap (λ l. y ∷ l) (keep-append p xs x))
  | inr e ↦ rw (e, if◌then◌else◌) (keep-append p xs x)
]

-- After `AppendEvent` every query gives what it gave before, in order, and then the new event if it passes
-- the filter: the log only grows, at its end.
pub get_events-append_event :
    (now : ℕ) (m : MemoryStore) (event : Event) (since : ℕ) (filter : EventFilter)
    → get_events (append_event now m event) since filter
      ≡ get_events m since filter
        ++ (if event_passes since filter (logged now m event) then logged now m event ∷ [] else [])
unfolding get_events append_event
get_events-append_event now m event since filter =
    keep-append (event_passes since filter) m.events (logged now m event)

-- what a query asks for
pub record Passes (since : ℕ) (f : EventFilter) (e : Event) : Type 0 where
  pub recent : since ≤ e.ts
  pub scope_is : (f.scope ≡ "") ⊎ (e.scope ≡ f.scope)
  pub artifact_is : (f.artifact_id ≡ "") ⊎ (e.artifact_id ≡ f.artifact_id)
  pub actor_is : (f.actor ≡ "") ⊎ (e.actor ≡ f.actor)
  pub type_in : (f.event_types ≡ []) ⊎ Memᴰ e.event_type f.event_types

either :
    (want have : String) → ((want == "" || have == want) ≡ true) ↔ ((want ≡ "") ⊎ (have ≡ want))
either want have = ground (arith, eq_iff want "", eq_iff have want)

type_test :
    (types : List String) (t : String)
    → ((is_empty types || any_of (λ et. t == et) types) ≡ true) ↔ ((types ≡ []) ⊎ Memᴰ t types)
type_test [] t = (λ _. inl refl, λ _. refl)
type_test (x ∷ types) t = (
  λ e.
      let (y, m, q) = any_of→mem (λ et. t == et) (x ∷ types) e in
      inr (Memᴰ.cast ((eq_iff t y).0 q) m),
  λ h. elim h [
    | inl q ↦ absurd cc
    | inr m ↦ mem→any_of (λ et. t == et) (x ∷ types) t m (eq_refl t)
  ],
)

-- A query gives an event exactly if the log has it, it is no older than asked, and each of the scope, the
-- artifact, the actor and the types of the filter is left empty or names the event's.
pub mem-get_events :
    (m : MemoryStore) (since : ℕ) (filter : EventFilter) (e : Event)
    → Memᴰ e (get_events m since filter) ↔ (Memᴰ e m.events × Passes since filter e)
unfolding get_events event_passes
mem-get_events m since filter e =
    let k = mem-keep (event_passes since filter) e m.events in
    let s = either filter.scope e.scope in
    let a = either filter.artifact_id e.artifact_id in
    let c = either filter.actor e.actor in
    let t = type_test filter.event_types e.event_type in
    (
      λ i.
          let (i', p) = k.0 i in
          (
            i',
            record {
              recent = ground arith;
              scope_is = s.0 (ground arith);
              artifact_is = a.0 (ground arith);
              actor_is = c.0 (ground arith);
              type_in = t.0 (ground arith);
            },
          ),
      λ (i, p). k.1 (
        i,
        let ps = s.1 p.scope_is in
            let pa = a.1 p.artifact_is in
            let pc = c.1 p.actor_is in let pt = t.1 p.type_in in let pr = p.recent in ground arith,
      ),
    )
