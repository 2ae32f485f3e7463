-- ===== src/Protocol/Statuses/Validated.antt =====
-- When `ValidateStatus` accepts.
use mathlib.Core.List.Memᴰ
use mathlib.Core.Bool.{true≢false}
use parchment.Prelude.{
  String, true, false, ◌&&◌, ◌||◌, not, some, List, [], ◌∷◌, ◌≡◌, ◌≢◌, ◌⊎◌, ◌↔◌, inl, inr, refl,
  sym, ap, ◌∙◌, arith, ◌==◌, eq_iff, any_of, is_empty, if◌then◌else◌, Memᴰ, subst, Bool-cases,
  String-cases, Option-cases, any_of→mem, mem→any_of,
}
use parchment.Store.Edges.{in_set}
use parchment.Store.Edges.Neighbors.{in_set_iff}
use parchment.Protocol.Kinds.{Traits, is_known_status}
use parchment.Protocol.Statuses.Allowed.{Declared, InLifecycle, List-cases, mem-allowed_statuses}
use parchment.Protocol.Statuses.{
  ends, transitions_of, declares, is_valid_transition, allowed_statuses, Verdict, accepted,
  status_required, no_transition, unknown_status, not_in_lifecycle, validate_status,
}

-- the kind leaves its statuses open
abbrev pub IsOpen : Traits → String → Type 0
IsOpen traits kind = (s : String) → ¬ InLifecycle traits kind s

Declares-iff : (from to t : String) → (declares from to t ≡ true) ↔ (ends t ≡ some (from, to))
Declares-iff from to t = elim (Option-cases (ends t)) [
  | inl n ↦ rw n (λ h. cc h, λ h. cc h)
  | inr ((a, b), q) ↦ rw q (
    λ h. ground (arith, eq_iff a from, eq_iff b to),
    λ h. ground (arith, h, eq_iff a from, eq_iff b to),
  )
]

any_declares :
    (from to : String) (ts : List String)
    → (any_of (declares from to) ts ≡ true) ↔ Declared ts from to
any_declares from to ts = (
  λ h. let (t, i, e) = any_of→mem (declares from to) ts h in (t, i, (Declares-iff from to t).0 e),
  λ (t, i, e). mem→any_of (declares from to) ts t i ((Declares-iff from to t).1 e),
)

-- a transition within the lifecycle is valid exactly if it is declared
pub is_valid_transition_iff :
    (traits : Traits) (kind from to : String)
    → transitions_of traits kind ≢ []
    → (is_valid_transition traits kind from to ≡ true)
      ↔ Declared (transitions_of traits kind) from to
is_valid_transition_iff traits kind from to n =
    let e : is_valid_transition traits kind from to ≡ (
        is_empty (transitions_of traits kind)
        || any_of (declares from to) (transitions_of traits kind)) =
      unfold is_valid_transition transitions_of in refl in
    elim (List-cases (transitions_of traits kind)) [
      | inl q ↦ absurd (n q)
      | inr (_, q) ↦ rw (e, q) (any_declares from to (transitions_of traits kind))
    ]

module _ (traits : Traits) (kind : String) where
  abbrev allowed : List String
  allowed = allowed_statuses traits kind

  InLifecycle-iff : (to : String) → (in_set allowed to ≡ true) ↔ InLifecycle traits kind to
  InLifecycle-iff to =
      let f = in_set_iff allowed to in
      let g = mem-allowed_statuses traits kind to in (λ h. g.0 (f.0 h), λ h. f.1 (g.1 h))

  is_open : allowed ≡ [] → IsOpen traits kind
  is_open e s h = Memᴰ.not-nil (subst (λ z. Memᴰ s z) e ((mem-allowed_statuses traits kind s).1 h))

  not-IsOpen : (xs : List String) → xs ≡ allowed → is_empty xs ≡ false → ¬ IsOpen traits kind
  not-IsOpen [] e h o = absurd (true≢false h)
  not-IsOpen (x ∷ xs) e h o =
      o x ((mem-allowed_statuses traits kind x).0 (subst (λ z. Memᴰ x z) e (Memᴰ.head refl)))

  -- the statuses from which the status may be taken on
  abbrev MayPass : String → String → Type 0
  MayPass from to = (from ≡ "") ⊎ (from ≡ to) ⊎ Declared (transitions_of traits kind) from to

  abbrev step_verdict : String → String → Verdict
  step_verdict from to =
      if not (from == "") && not (from == to)
      then (if is_valid_transition traits kind from to then accepted else no_transition)
      else accepted

  step_verdict_iff :
      (from to : String)
      → InLifecycle traits kind to
      → (step_verdict from to ≡ accepted) ↔ MayPass from to
  step_verdict_iff from to life =
      let v = is_valid_transition_iff traits kind from to life.0 in
      elim (String-cases from "") [
        | inl (q, e) ↦ rw (e, if◌then◌else◌) (λ _. inl q, λ _. refl)
        | inr (n, e) ↦ elim (String-cases from to) [
          | inl (q, d) ↦ rw (e, d, if◌then◌else◌) (λ _. inr (inl q), λ _. refl)
          | inr (k, d) ↦
              rw (e, d, if◌then◌else◌)
                (
                  λ h. inr (inr (v.0 (ground arith))),
                  λ h. elim h [
                    | inl q ↦ absurd (n q)
                    | inr (inl q) ↦ absurd (k q)
                    | inr (inr t) ↦ rw (v.1 t, if◌then◌else◌) refl
                  ],
                )
        ]
      ]

module _ (traits : Traits) (kind from to : String) where
  verdict_empty : to == "" ≡ true → validate_status traits kind from to ≡ status_required
  unfolding validate_status
  verdict_empty e = rw (e, if◌then◌else◌) refl

  verdict_open :
      to == "" ≡ false
      → is_empty (allowed_statuses traits kind) ≡ true
      → validate_status traits kind from to
        ≡ (if is_known_status traits to then accepted else unknown_status)
  unfolding validate_status
  verdict_open e o = rw (e, o, if◌then◌else◌) refl

  verdict_out :
      to == "" ≡ false
      → is_empty (allowed_statuses traits kind) ≡ false
      → in_set (allowed_statuses traits kind) to ≡ false
      → validate_status traits kind from to ≡ not_in_lifecycle
  unfolding validate_status
  verdict_out e o i = rw (e, o, i, if◌then◌else◌) refl

  verdict_in :
      to == "" ≡ false
      → is_empty (allowed_statuses traits kind) ≡ false
      → in_set (allowed_statuses traits kind) to ≡ true
      → validate_status traits kind from to ≡ step_verdict traits kind from to
  unfolding validate_status
  verdict_in e o i = rw (e, o, i, if◌then◌else◌) refl

-- `ValidateStatus` accepts a status exactly if it is not empty and either the kind has a lifecycle that
-- the status is in, and to which the kind passes from the present status by a declared transition, unless
-- there is no present status or it is the same; or the kind has no lifecycle and the status is known.
pub validate_status_iff :
    (traits : Traits) (kind from to : String)
    → (validate_status traits kind from to ≡ accepted) ↔ (
        (to ≢ "")
        × ((InLifecycle traits kind to
              × ((from ≡ "") ⊎ (from ≡ to) ⊎ Declared (transitions_of traits kind) from to))
            ⊎ (IsOpen traits kind × (is_known_status traits to ≡ true))))
validate_status_iff traits kind from to =
    let listed = allowed_statuses traits kind in
    let life = InLifecycle-iff traits kind to in
    elim (String-cases to "") [
      | inl (q, e) ↦ (λ h. cc (sym h ∙ verdict_empty traits kind from to e), λ h. absurd (h.0 q))
      | inr (n, e) ↦ elim (List-cases listed) [
        | inl o ↦
            let v = verdict_open traits kind from to e (ap is_empty o) in
            (
              λ h. (n, inr (is_open traits kind o, ground (arith, h, v))),
              λ (_, h). elim h [
                | inl (l, _) ↦ absurd (is_open traits kind o to l)
                | inr (_, k) ↦ v ∙ rw (k, if◌then◌else◌) refl
              ],
            )
        | inr (_, c) ↦ elim (Bool-cases (in_set listed to)) [
          | inr out ↦
              let v = verdict_out traits kind from to e c out in
              (
                λ h. cc (sym h ∙ v),
                λ (_, h). elim h [
                  | inl (l, _) ↦ absurd (true≢false (sym (life.1 l) ∙ out))
                  | inr (o, _) ↦ absurd (not-IsOpen traits kind listed refl c o)
                ],
              )
          | inl inn ↦
              let v = verdict_in traits kind from to e c inn in
              let step = step_verdict_iff traits kind from to (life.0 inn) in
              (
                λ h. (n, inl (life.0 inn, step.0 (sym v ∙ h))),
                λ (_, h). elim h [
                  | inl (_, p) ↦ v ∙ step.1 p
                  | inr (o, _) ↦ absurd (not-IsOpen traits kind listed refl c o)
                ],
              )
        ]
      ]
    ]
