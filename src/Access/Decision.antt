-- ===== src/Access/Decision.antt =====
-- src/policies/types.ts: the decision that a policy returns and the check that throws.
use labour_baba_backend.Base.{
  ℕ, Bool, true, false, Option, none, some, Result, ok, err, or_else, if◌then◌else◌,
}

-- The `code` of a refusal.
pub data Code : Type 0 where
  forbidden role_forbidden not_owner not_assigned_worker not_participant : Code
  resource_not_found document_access_denied invalid_state unauthorized : Code

pub record PolicyDecision : Type 0 where
  pub allowed : Bool
  pub status_code : Option ℕ
  pub code : Option Code

abbrev pub allow : PolicyDecision
allow = record { allowed = true; status_code = none; code = none }

abbrev pub deny : ℕ → Code → PolicyDecision
deny status c = record { allowed = false; status_code = some status; code = some c }

-- `AuthorizationError`
pub record AuthorizationError : Type 0 where
  pub status_code : ℕ
  pub code : Code

-- `assertPolicy`
unfoldable pub assert_policy : PolicyDecision → Result AuthorizationError (Unit {0})
assert_policy d =
    if d.allowed
    then ok tt
    else err (record { status_code = or_else d.status_code 403; code = or_else d.code forbidden })
