-- ===== src/Artifact/Filter.antt =====
-- artifact.go: the filter of artifact queries, and what it means for an artifact to match.
use mathlib.Core.List.Memᴰ
use mathlib.Core.Logic.{⊎_elim}
use mathlib.Core.Bool.{true≢false}
use Prim.Native.String.append
use parchment.Prelude.{
  ◌≢◌, ◌∙◌, subst, has_prefix-split, has_prefix-append, eq_refl, ℕ, String, Bool, true, false, ◌≡◌,
  refl, ◌↔◌, ◌⊎◌, ◌||◌, not, ◌&&◌, List, [], ◌∷◌, ◌<>◌, ◌==◌, eq_iff, Memᴰ, arith, has_prefix,
  any_of, all_of, is_empty, inl, inr, sym, ap, any_of→mem, mem→any_of, all_of→mem, mem→all_of,
  Bool-cases,
}
use parchment.Artifact.{Artifact}
use parchment.Artifact.Labels.{label_value, label_prefix_kind, label_prefix_scope}

-- The fields that only the SQL store reads (`ScopePrefix` and the six time bounds) are carried too.
pub record Filter : Type 0 where
  pub kind_prefix : String
  pub id_prefix : String
  pub scope_prefix : Bool
  pub scopes_or : List String
  pub labels : List String
  pub labels_or : List String
  pub exclude_labels : List String
  pub created_after : String
  pub created_before : String
  pub updated_after : String
  pub updated_before : String
  pub inserted_after : String
  pub inserted_before : String
  pub limit : ℕ
  pub cursor : String

-- Filter{}
abbrev pub any_artifact : Filter
any_artifact = record {
  kind_prefix = "";
  id_prefix = "";
  scope_prefix = false;
  scopes_or = [];
  labels = [];
  labels_or = [];
  exclude_labels = [];
  created_after = "";
  created_before = "";
  updated_after = "";
  updated_before = "";
  inserted_after = "";
  inserted_before = "";
  limit = 0;
  cursor = "";
}

unfoldable pub label_check : String → Artifact → Bool
label_check label art = any_of (λ l. l == label) art.labels

unfoldable pub match_labels : Filter → Artifact → Bool
unfolding label_check
match_labels f art =
    all_of (λ want. label_check want art) f.labels
    && (is_empty f.labels_or || any_of (λ want. label_check want art) f.labels_or)
    && not (any_of (λ want. label_check want art) f.exclude_labels)

unfoldable pub matches : Filter → Artifact → Bool
matches f art =
    (f.kind_prefix == ""
      || has_prefix (label_value art.labels label_prefix_kind) (f.kind_prefix <> "."))
    && (f.id_prefix == "" || has_prefix art.id f.id_prefix)
    && (is_empty f.scopes_or
        || any_of (λ s. label_value art.labels label_prefix_scope == s) f.scopes_or)
    && match_labels f art

pub mem-label_check :
    (label : String) (art : Artifact) → (label_check label art ≡ true) ↔ Memᴰ label art.labels
unfolding label_check
mem-label_check label art = (
  λ e.
      let (l, m, q) = any_of→mem (λ l. l == label) art.labels e in
      Memᴰ.cast (sym ((eq_iff l label).0 q)) m,
  λ m. mem→any_of (λ l. l == label) art.labels label m ((eq_iff label label).1 refl),
)

-- What the in-memory store asks of an artifact, in terms of its texts and labels. A kind prefix stands for the
-- kinds below it, which go on with a full stop; `ScopePrefix` and the time bounds play no part.
pub record IsMatch (f : Filter) (art : Artifact) : Type 0 where
  pub kind_within :
      (f.kind_prefix ≡ "")
      ⊎ ((below : String) × (label_value art.labels label_prefix_kind
            ≡ (f.kind_prefix <> ".") <> below))
  pub id_within : (f.id_prefix ≡ "") ⊎ ((rest : String) × (art.id ≡ f.id_prefix <> rest))
  pub scope_within :
      (f.scopes_or ≡ []) ⊎ Memᴰ (label_value art.labels label_prefix_scope) f.scopes_or
  pub every_label : (l : String) → Memᴰ l f.labels → Memᴰ l art.labels
  pub some_label : (f.labels_or ≡ []) ⊎ ((l : String) × Memᴰ l f.labels_or × Memᴰ l art.labels)
  pub none_excluded : (l : String) → Memᴰ l f.exclude_labels → ¬ Memᴰ l art.labels

is_empty-eq-nil : {A : Type 0} (xs : List A) → is_empty xs ≡ true → xs ≡ []
is_empty-eq-nil [] e = refl
is_empty-eq-nil (x ∷ xs) e = cc

some_of :
    (wanted : List String) (art : Artifact)
    → any_of (λ want. label_check want art) wanted ≡ true
    → (l : String) × Memᴰ l wanted × Memᴰ l art.labels
some_of wanted art e =
    let (l, m, q) = any_of→mem (λ want. label_check want art) wanted e in
    (l, m, (mem-label_check l art).0 q)

of_some :
    (wanted : List String) (art : Artifact) (l : String)
    → Memᴰ l wanted
    → Memᴰ l art.labels
    → any_of (λ want. label_check want art) wanted ≡ true
of_some wanted art l m q =
    mem→any_of (λ want. label_check want art) wanted l m ((mem-label_check l art).1 q)

or-cases : (b c : Bool) → (b || c) ≡ true → (b ≡ true) ⊎ (c ≡ true)
or-cases true c h = inl refl
or-cases false c h = inr h

has_prefix-longer : (s : String) → has_prefix s (s <> ".") ≡ false
unfolding has_prefix
has_prefix-longer String.[] = refl
has_prefix-longer (String.◌∷◌ c s) = rw (append.cons c s ".") (ground (arith, has_prefix-longer s))

beyond : (s below : String) → ¬ (s ≡ (s <> ".") <> below)
beyond s below q = true≢false (
    sym (subst (λ z. has_prefix z (s <> ".") ≡ true) (sym q) (has_prefix-append (s <> ".") below))
    ∙ has_prefix-longer s)

module _ (f : Filter) (art : Artifact) where
  abbrev in_scope : String → Bool
  in_scope s = label_value art.labels label_prefix_scope == s

  matches→IsMatch : matches f art ≡ true → IsMatch f art
  unfolding matches match_labels
  matches→IsMatch h = record {
    kind_within =
        ⊎_elim (λ e. inl ((eq_iff f.kind_prefix "").0 e))
          (λ e. inr (_, has_prefix-split _ (f.kind_prefix <> ".") e))
          (or-cases (f.kind_prefix == "")
            (has_prefix (label_value art.labels label_prefix_kind) (f.kind_prefix <> "."))
            (ground arith));
    id_within =
        ⊎_elim (λ e. inl ((eq_iff f.id_prefix "").0 e))
          (λ e. inr (_, has_prefix-split art.id f.id_prefix e))
          (or-cases (f.id_prefix == "") (has_prefix art.id f.id_prefix) (ground arith));
    scope_within =
        ⊎_elim (λ e. inl (is_empty-eq-nil f.scopes_or e))
          (λ e.
            let (s, m, q) = any_of→mem in_scope f.scopes_or e in
            inr (Memᴰ.cast ((eq_iff _ s).0 q) m))
          (or-cases (is_empty f.scopes_or) (any_of in_scope f.scopes_or) (ground arith));
    every_label = λ l m.
        (mem-label_check l art).0
          (all_of→mem (λ want. label_check want art) f.labels (ground arith) l m);
    some_label =
        ⊎_elim (λ e. inl (is_empty-eq-nil f.labels_or e)) (λ e. inr (some_of f.labels_or art e))
          (or-cases (is_empty f.labels_or) (any_of (λ want. label_check want art) f.labels_or)
            (ground arith));
    none_excluded = λ l m q. cc (ground_no h l m q);
  }
    where
      ground_no :
          matches f art ≡ true
          → (l : String) → Memᴰ l f.exclude_labels
          → Memᴰ l art.labels
          → true ≡ false
      ground_no h l m q = ground (arith, of_some f.exclude_labels art l m q)

  or_left :
      (b c : Bool) {P : Type 0}
      → (P → b ≡ true)
      → (Q : Type 0) → (Q → c ≡ true)
      → P ⊎ Q
      → (b || c) ≡ true
  or_left b c f Q g (inl p) = ground (arith, f p)
  or_left b c f Q g (inr q) = ground (arith, g q)

  kind_and_id :
      IsMatch f art
      → ((f.kind_prefix == ""
            || has_prefix (label_value art.labels label_prefix_kind) (f.kind_prefix <> "."))
          ≡ true)
        × ((f.id_prefix == "" || has_prefix art.id f.id_prefix) ≡ true)
  kind_and_id h = (
    or_left _ _ ((eq_iff f.kind_prefix "").1) _
        (λ (below, q). rw q (has_prefix-append (f.kind_prefix <> ".") below)) h.kind_within,
    or_left _ _ ((eq_iff f.id_prefix "").1) _
        (λ (rest, q). rw q (has_prefix-append f.id_prefix rest)) h.id_within,
  )

  scope_and_labels :
      IsMatch f art
      → ((is_empty f.scopes_or || any_of in_scope f.scopes_or) ≡ true)
        × ((is_empty f.labels_or || any_of (λ want. label_check want art) f.labels_or) ≡ true)
  scope_and_labels h = (
    or_left _ _ (λ e. ap is_empty e) _ (λ m. mem→any_of in_scope f.scopes_or _ m (eq_refl _))
        h.scope_within,
    or_left _ _ (λ e. ap is_empty e) _ (λ (l, m, q). of_some f.labels_or art l m q) h.some_label,
  )

  all_labels : IsMatch f art → all_of (λ want. label_check want art) f.labels ≡ true
  all_labels h =
      mem→all_of (λ want. label_check want art) f.labels
        (λ l m. (mem-label_check l art).1 (h.every_label l m))

  none_of : IsMatch f art → any_of (λ want. label_check want art) f.exclude_labels ≡ false
  none_of h = elim (Bool-cases (any_of (λ want. label_check want art) f.exclude_labels)) [
    | inl e ↦ let (l, m, q) = some_of f.exclude_labels art e in absurd (h.none_excluded l m q)
    | inr e ↦ e
  ]

-- An artifact passes `Matches` exactly when its kind is the kind prefix with a full stop and any text
-- after it, its ID begins with the ID prefix, its scope is one of the scopes, it carries every label of
-- `Labels`, one of `LabelsOr` and none of `ExcludeLabels`, where a condition left empty asks nothing. So
-- a kind that is the prefix itself does not pass, and `ScopePrefix` and the time bounds ask nothing.
pub matches_iff :
    (f : Filter) (art : Artifact)
    → ((matches f art ≡ true) ↔ IsMatch f art)
      × ¬ (
          (f.kind_prefix ≢ "")
          × (label_value art.labels label_prefix_kind ≡ f.kind_prefix)
          × (matches f art ≡ true))
unfolding matches match_labels
matches_iff f art = (
  (
    matches→IsMatch f art,
    λ h.
        ground (
          arith,
          kind_and_id f art h,
          scope_and_labels f art h,
          all_labels f art h,
          none_of f art h,
        ),
  ),
  λ (named, same, h). elim (matches→IsMatch f art h).kind_within [
    | inl q ↦ named q
    | inr (below, q) ↦ beyond f.kind_prefix below (sym same ∙ q)
  ],
)
