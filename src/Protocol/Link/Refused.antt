-- ===== src/Protocol/Link/Refused.antt =====
-- A link that is refused leaves nothing behind.
use mathlib.Core.Option.{none-ne-some, some-injective}
use parchment.Prelude.{
  ℕ, String, Bool, true, false, Option, none, some, List, ◌≡◌, ◌≢◌, sym, ap, arith, ◌==◌, eq-false,
  if◌then◌else◌, is_empty,
}
use parchment.Artifact.{Artifact}
use parchment.Store.Artifacts.{get}
use parchment.Store.Result.{Result, ok, err}
use parchment.Protocol.Rules.{RelationshipTrait, rel_satisfies}
use parchment.Protocol.Checks.{LinkError, Outcome, done, refused, resolve_targets}
use parchment.Protocol.Admission.{Config}
use parchment.Protocol.Transition.{Run}
use parchment.Protocol.Link.{
  LinkResult, Linked, with_results, prepare, link_prepared, link_checked, link_targets, link_source,
  link_artifacts,
}

module _ (rels : List RelationshipTrait) (cfg : Config) (n : ℕ) (r : Run) (source relation : String)
    (weight : ℕ) (tids : List String) (plain : relation ≢ rel_satisfies) where
  -- a refusal leaves the run as it was
  abbrev Unchanged : Option (Outcome (List LinkResult) × Run) → Type 0
  Unchanged o = (e : LinkError) (r' : Run) → o ≡ some (refused e, r') → r' ≡ r

  refused_inj :
      (x e : LinkError) (r' : Run)
      → Path Linked (some (refused x, r)) (some (refused e, r'))
      → r' ≡ r
  refused_inj x e r' q = sym (ap (λ p. p.1) (some-injective (refused x, r) (refused e, r') q))

  never_refused : (results : List LinkResult) (o : Option Run) → Unchanged (with_results results o)
  never_refused results none e r' q = absurd (none-ne-some (refused e, r') q)
  never_refused results (some x) e r' q = absurd (ground arith)

  checked-Unchanged :
      (art : Artifact) (targets : List Artifact) (o : Option LinkError)
      → Unchanged (link_checked cfg n r art source relation weight tids targets o)
  unfolding link_checked prepare link_prepared
  checked-Unchanged art targets (some x) e r' = refused_inj x e r'
  checked-Unchanged art targets none e r' =
      rw (eq-false relation rel_satisfies plain, if◌then◌else◌) (never_refused _ _ e r')

  targets-Unchanged :
      (art : Artifact) (o : Outcome (List Artifact))
      → Unchanged (link_targets rels cfg n r art source relation weight tids o)
  unfolding link_targets
  targets-Unchanged art (refused x) = refused_inj x
  targets-Unchanged art (done targets) = checked-Unchanged art targets _

  source-Unchanged :
      (o : Result Artifact) → Unchanged (link_source rels cfg n r source relation weight tids o)
  unfolding link_source
  source-Unchanged (err x) = refused_inj _
  source-Unchanged (ok art) = targets-Unchanged art (resolve_targets r.store tids)

  if-Unchanged :
      (b : Bool) (x : LinkError) (o : Linked)
      → Unchanged o
      → Unchanged (if b then some (refused x, r) else o)
  if-Unchanged true x o h = λ e r' q. refused_inj x e r' q
  if-Unchanged false x o h = h

-- A link that is refused changes nothing, unless it is a `satisfies` link: no edge, no event, no status.
pub link_artifacts_refused :
    (rels : List RelationshipTrait) (cfg : Config) (n : ℕ) (r r' : Run) (source relation : String)
    (tids : List String) (weight : ℕ) (e : LinkError)
    → relation ≢ rel_satisfies
    → link_artifacts rels cfg n r source relation tids weight ≡ some (refused e, r')
    → r' ≡ r
unfolding link_artifacts
link_artifacts_refused rels cfg n r r' source relation tids weight e plain =
    if-Unchanged rels cfg n r source relation weight tids plain (source == "") _ _
      (if-Unchanged rels cfg n r source relation weight tids plain (relation == "") _ _ (
        if-Unchanged rels cfg n r source relation weight tids plain (is_empty tids) _ _
          (source-Unchanged rels cfg n r source relation weight tids plain (get r.store source))))
      e r'
