-- ===== src/Store/Result.antt =====
-- constants.go: the sentinel errors, and what a fallible operation returns.
pub data StoreError : Type 0 where
  artifact_not_found conflict edge_not_found alias_taken plain : StoreError

pub data Result {ℓ} (A : Type ℓ) : Type ℓ where
  ok : A → Result A
  err : StoreError → Result A

-- the error of an operation that returns nothing else
abbrev pub Status : Type 0
Status = Result (Unit {0})
