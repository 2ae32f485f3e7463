-- ===== src/Protocol/Statuses/Allowed.antt =====
-- Which statuses and transitions are accepted.
use mathlib.Core.List.Memᴰ
use parchment.Prelude.{
  String, false, Option, none, some, List, [], ◌∷◌, ◌++◌, ◌≡◌, ◌≢◌, ◌⊎◌, ◌↔◌, inl, inr, refl, sym,
  ap, ◌∙◌, is_empty, if◌then◌else◌, str_leb, Memᴰ, subst, Bool-cases, String-cases,
}
use parchment.Prelude.Sorting.{mem-sort_slice}
use parchment.Store.Edges.{in_set}
use parchment.Store.Edges.Neighbors.{in_set_iff}
use parchment.Protocol.Kinds.{Traits, default_status, active_status}
use parchment.Protocol.Statuses.{
  ends, transitions_of, kind_lifecycle, add_to_set, add_if_named, add_pair, collect_statuses,
  add_ends, allowed_statuses,
}

-- one of the texts declares the transition
abbrev pub Declared : List String → String → String → Type 0
Declared ts from to = (t : String) × Memᴰ t ts × (ends t ≡ some (from, to))

-- the status is at an end of a declared transition
abbrev pub AtEnd : List String → String → Type 0
AtEnd ts s = (a : String) × (b : String) × Declared ts a b × ((s ≡ a) ⊎ (s ≡ b))

-- The lifecycle of a kind that declares transitions: its default and active statuses, and their ends.
abbrev pub InLifecycle : Traits → String → String → Type 0
InLifecycle traits kind s =
    (transitions_of traits kind ≢ [])
    × (((s ≢ "") × ((s ≡ default_status traits kind) ⊎ (s ≡ active_status traits kind)))
        ⊎ AtEnd (transitions_of traits kind) s)

mem-append_one :
    (s x : String) (set : List String) → Memᴰ s (set ++ x ∷ []) ↔ (Memᴰ s set ⊎ (s ≡ x))
mem-append_one s x [] = (
  λ m. inr (Memᴰ.eq_of_singleton m),
  λ h. elim h [ inl m ↦ absurd (Memᴰ.not-nil m) | inr q ↦ Memᴰ.head q ],
)
mem-append_one s x (y ∷ set) =
    let ih = mem-append_one s x set in
    (
      λ m. elim (Memᴰ.cases_cons m) [
        | inl q ↦ inl (Memᴰ.head q)
        | inr r ↦ elim (ih.0 r) [ inl i ↦ inl (Memᴰ.tail i) | inr q ↦ inr q ]
      ],
      λ h. elim h [
        | inl m ↦ elim (Memᴰ.cases_cons m) [
          | inl q ↦ Memᴰ.head q
          | inr r ↦ Memᴰ.tail (ih.1 (inl r))
        ]
        | inr q ↦ Memᴰ.tail (ih.1 (inr q))
      ],
    )

mem-add_to_set :
    (s x : String) (set : List String) → Memᴰ s (add_to_set x set) ↔ (Memᴰ s set ⊎ (s ≡ x))
mem-add_to_set s x set = elim (Bool-cases (in_set set x)) [
  | inl e ↦
      rw (e, if◌then◌else◌)
        (
          inl,
          λ h. elim h [
            | inl m ↦ m
            | inr q ↦ subst (λ z. Memᴰ z set) (sym q) ((in_set_iff set x).0 e)
          ],
        )
  | inr e ↦ rw (e, if◌then◌else◌) (mem-append_one s x set)
]

mem-add_if_named :
    (s x : String) (set : List String)
    → Memᴰ s (add_if_named x set) ↔ (Memᴰ s set ⊎ ((s ≢ "") × (s ≡ x)))
mem-add_if_named s x set = elim (String-cases x "") [
  | inl (q, e) ↦
      rw (e, if◌then◌else◌) (inl, λ h. elim h [ inl m ↦ m | inr (n, p) ↦ absurd (n (p ∙ q)) ])
  | inr (n, e) ↦
      let f = mem-add_to_set s x set in
      rw (e, if◌then◌else◌)
        (
          λ m. elim (f.0 m) [ inl i ↦ inl i | inr q ↦ inr (λ z. n (sym q ∙ z), q) ],
          λ h. elim h [ inl i ↦ f.1 (inl i) | inr (_, q) ↦ f.1 (inr q) ],
        )
]

-- one of the two
abbrev Among : Option (String × String) → String → Type 0
Among o s = (a : String) × (b : String) × (o ≡ some (a, b)) × ((s ≡ a) ⊎ (s ≡ b))

mem-add_pair :
    (s : String) (o : Option (String × String)) (set : List String)
    → Memᴰ s (add_pair o set) ↔ (Memᴰ s set ⊎ Among o s)
mem-add_pair s none set = (inl, λ h. elim h [ inl m ↦ m | inr (a, b, q, _) ↦ cc q ])
mem-add_pair s (some (a, b)) set =
    let f = mem-add_to_set s a set in
    let g = mem-add_to_set s b (add_to_set a set) in
    (
      λ m. elim (g.0 m) [
        | inr q ↦ inr (a, b, refl, inr q)
        | inl i ↦ elim (f.0 i) [ inl j ↦ inl j | inr q ↦ inr (a, b, refl, inl q) ]
      ],
      λ h. elim h [
        | inl m ↦ g.1 (inl (f.1 (inl m)))
        | inr (x, y, q, e) ↦ elim e [
          | inl p ↦ g.1 (inl (f.1 (inr (cc (p, q)))))
          | inr p ↦ g.1 (inr (cc (p, q)))
        ]
      ],
    )

mem-add_ends :
    (s : String) (ts set : List String) → Memᴰ s (add_ends ts set) ↔ (Memᴰ s set ⊎ AtEnd ts s)
unfolding add_ends
mem-add_ends s [] set =
    (inl, λ h. elim h [ inl m ↦ m | inr (a, b, (t, i, _), _) ↦ absurd (Memᴰ.not-nil i) ])
mem-add_ends s (t ∷ ts) set =
    let f = mem-add_pair s (ends t) set in
    let g = mem-add_ends s ts (add_pair (ends t) set) in
    (
      λ m. elim (g.0 m) [
        | inr (a, b, (u, i, e), w) ↦ inr (a, b, (u, Memᴰ.tail i, e), w)
        | inl j ↦ elim (f.0 j) [
          | inl k ↦ inl k
          | inr (a, b, e, w) ↦ inr (a, b, (t, Memᴰ.head refl, e), w)
        ]
      ],
      λ h. elim h [
        | inl m ↦ g.1 (inl (f.1 (inl m)))
        | inr (a, b, (u, i, e), w) ↦ elim (Memᴰ.cases_cons i) [
          | inl q ↦ g.1 (inl (f.1 (inr (a, b, ap ends (sym q) ∙ e, w))))
          | inr r ↦ g.1 (inr (a, b, (u, r, e), w))
        ]
      ],
    )

pub List-cases : (xs : List String) → (xs ≡ []) ⊎ ((xs ≢ []) × (is_empty xs ≡ false))
List-cases [] = inl refl
List-cases (x ∷ xs) = inr (λ q. (cc q), refl)

mem-collect_statuses :
    (s def active : String) (ts : List String)
    → Memᴰ s (collect_statuses (def, active, ts))
      ↔ ((ts ≢ []) × (((s ≢ "") × ((s ≡ def) ⊎ (s ≡ active))) ⊎ AtEnd ts s))
mem-collect_statuses s def active ts = elim (List-cases ts) [
  | inl e ↦ (
    λ m. absurd (Memᴰ.not-nil (subst (λ z. Memᴰ s (collect_statuses (def, active, z))) e m)),
    λ h. absurd (h.0 e),
  )
  | inr (n, e) ↦
      let set = add_if_named active (add_if_named def []) in
      let f = mem-sort_slice str_leb s (add_ends ts set) in
      let g = mem-add_ends s ts set in
      let x = mem-add_if_named s active (add_if_named def []) in
      let y = mem-add_if_named s def [] in
      rw (e, if◌then◌else◌)
        (
          λ m. (
            n,
            elim (g.0 (f.0 m)) [
              | inr a ↦ inr a
              | inl i ↦ elim (x.0 i) [
                | inr (k, q) ↦ inl (k, inr q)
                | inl j ↦ elim (y.0 j) [
                  | inl z ↦ absurd (Memᴰ.not-nil z)
                  | inr (k, q) ↦ inl (k, inl q)
                ]
              ]
            ],
          ),
          λ (_, h). f.1 (
              g.1 (elim h [
                | inr a ↦ inr a
                | inl (k, inr q) ↦ inl (x.1 (inr (k, q)))
                | inl (k, inl q) ↦ inl (x.1 (inl (y.1 (inr (k, q)))))
              ])),
        )
]

-- `AllowedStatuses` gives exactly the statuses of the lifecycle.
pub mem-allowed_statuses :
    (traits : Traits) (kind s : String)
    → Memᴰ s (allowed_statuses traits kind) ↔ InLifecycle traits kind s
mem-allowed_statuses traits kind s =
    let e : allowed_statuses traits kind
        ≡ collect_statuses
            (default_status traits kind, active_status traits kind, transitions_of traits kind) =
      unfold allowed_statuses kind_lifecycle transitions_of in refl in
    rw e (
      mem-collect_statuses s (default_status traits kind) (active_status traits kind)
        (transitions_of traits kind))
