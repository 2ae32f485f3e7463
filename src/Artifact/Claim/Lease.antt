-- ===== src/Artifact/Claim/Lease.antt =====
-- A claim is read back until it is cleared.
use parchment.Prelude.{
  ℕ, ◌<◌, String, true, false, Option, none, some, [], ◌∷◌, ◌≡◌, ◌≢◌, ◌↔◌, ◌⊎◌, refl, ap, ◌∙◌,
  arith, ◌==◌, eq-false, if◌then◌else◌,
}
use parchment.Dict.{Dict, lookup, insert, remove, lookup-insert, lookup-insert_self, lookup-remove}
use parchment.Artifact.{Value, Extra, entries}
use parchment.Artifact.Claim.{
  Claim, extra_key_claim, member_at, time_of, claim_of, claim_in, claim_from_extra, claim_active,
  claim_value, apply_claim, some_or_nil, clear_claim,
}

entries-some_or_nil : (d : Dict Value) → entries (some_or_nil d) ≡ d
unfolding some_or_nil
entries-some_or_nil [] = refl
entries-some_or_nil (x ∷ d) = refl

entries-clear_claim :
    (extra : Extra) (k : String)
    → lookup (entries (clear_claim extra)) k
      ≡ (if extra_key_claim == k then none else lookup (entries extra) k)
unfolding clear_claim
entries-clear_claim none k = unfold lookup in ground arith
entries-clear_claim (some d) k =
    ap (λ e. lookup e k) (entries-some_or_nil (remove d extra_key_claim))
    ∙ lookup-remove d extra_key_claim k

-- A claim with an agent, of a time that the layout can express, is read back after `ApplyClaim` as it was
-- given; after `ClearClaim` there is none. Neither changes another extra value. While it stands it is
-- active exactly up to its expiry, and for good if it has no expiry.
pub claim_from_extra-apply_claim :
    (parse : String → Option ℕ) (format : ℕ → String) (extra : Extra) (c : Claim) (k : String)
    (now : ℕ)
    → c.agent ≢ ""
    → parse (format c.expires_at) ≡ some c.expires_at
    → (claim_from_extra parse (apply_claim format extra c) ≡ some c)
      × (claim_from_extra parse (clear_claim (apply_claim format extra c)) ≡ none)
      × (lookup (entries (apply_claim format extra c)) k ≡ (
          if extra_key_claim == k then some (claim_value format c) else lookup (entries extra) k))
      × (lookup (entries (clear_claim extra)) k
          ≡ (if extra_key_claim == k then none else lookup (entries extra) k))
      × ((claim_active (claim_from_extra parse (apply_claim format extra c)) now ≡ true)
          ↔ ((c.expires_at ≡ 0) ⊎ (now < c.expires_at)))
unfolding claim_from_extra claim_in claim_of time_of member_at apply_claim claim_active
claim_from_extra-apply_claim parse format extra c k now named expressible =
    let d = insert (entries extra) extra_key_claim (claim_value format c) in
    let f : (c.agent == "") ≡ false = eq-false c.agent "" named in
    let back : claim_from_extra parse (apply_claim format extra c) ≡ some c =
      rw
        (
          lookup-insert_self (entries extra) extra_key_claim (claim_value format c),
          f,
          if◌then◌else◌,
          expressible,
        )
        refl in
    (
      back,
      rw (entries-clear_claim (some d) extra_key_claim) refl,
      lookup-insert (entries extra) extra_key_claim k (claim_value format c),
      entries-clear_claim extra k,
      rw (back, f, if◌then◌else◌) (ground arith),
    )
