-- ===== src/Artifact/Claim.antt =====
-- claim.go: the lease that an agent holds on an artifact, kept among its extra values. `parse` and `format`
-- are Go's time.Parse and Time.Format with the layout time.RFC3339. The extra values are those that
-- JSON can hold; a value of the type Claim itself, which only a caller in the process could store, is not.
pub mod Lease
use parchment.Prelude.{
  ℕ, String, Bool, true, false, ◌&&◌, Option, none, some, List, [], ◌∷◌, ◌==◌, nat_eq, ltb,
  is_empty, if◌then◌else◌,
}
use parchment.Dict.{Dict, lookup, insert, remove}
use parchment.Artifact.{
  Value, absent, flag, number, text, array, object, Members, no_members, member, Extra, entries,
}

pub record Claim : Type 0 where
  pub agent : String
  pub session : String
  pub expires_at : ℕ

abbrev pub extra_key_claim : String
extra_key_claim = "claim"

-- v[key]
pub member_at : Members → String → Option Value
member_at no_members key = none
member_at (member k v ms) key = let rest = member_at ms key in if k == key then some v else rest

-- `s, _ := v.(string)`
abbrev pub string_of : Option Value → String
string_of (some (text s)) = s
string_of _ = ""

-- a text that does not parse leaves the zero time
abbrev or_zero : Option ℕ → ℕ
or_zero none = 0
or_zero (some t) = t

module _ (parse : String → Option ℕ) where
  time_of : Option Value → ℕ
  time_of (some (text s)) = or_zero (parse s)
  time_of _ = 0

  abbrev pub claim_of : Members → Claim
  unfolding time_of member_at
  claim_of ms = record {
    agent = string_of (member_at ms "agent");
    session = string_of (member_at ms "session");
    expires_at = time_of (member_at ms "expires_at");
  }

  claim_in : Option Value → Option Claim
  unfolding claim_of
  claim_in (some (object ms)) = if (claim_of ms).agent == "" then none else some (claim_of ms)
  claim_in _ = none

  unfoldable pub claim_from_extra : Extra → Option Claim
  unfolding claim_in
  claim_from_extra extra = claim_in (lookup (entries extra) extra_key_claim)

unfoldable pub claim_active : Option Claim → ℕ → Bool
claim_active none now = false
claim_active (some c) now =
    if c.agent == "" then false else if nat_eq c.expires_at 0 then true else ltb now c.expires_at

module _ (format : ℕ → String) where
  abbrev pub claim_value : Claim → Value
  claim_value c = object (
      member "agent" (text c.agent) (
        member "expires_at" (text (format c.expires_at))
          (member "session" (text c.session) no_members)))

  unfoldable pub apply_claim : Extra → Claim → Extra
  apply_claim extra c = some (insert (entries extra) extra_key_claim (claim_value c))

some_or_nil : Dict Value → Extra
some_or_nil d = if is_empty d then none else some d

unfoldable pub clear_claim : Extra → Extra
unfolding some_or_nil
clear_claim none = none
clear_claim (some d) = some_or_nil (remove d extra_key_claim)
