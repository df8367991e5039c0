-- ===== src/Session/Table.antt =====
-- The tables behind the refresh sessions: src/features/auth/session.types.ts and the columns of
-- `refresh_session`, `Worker` and `customer` that the session service reads or writes.
use labour_baba_backend.Base.{ℕ, Bool, true, false, Option, List, Text}
use labour_baba_backend.Access.Role.{Role}

pub data SessionStatus : Type 0 where
  active rotated revoked expired : SessionStatus

pub data RevokeReason : Type 0 where
  logout reuse admin suspended security_incident : RevokeReason

pub record SessionRow : Type 0 where
  pub id : ℕ
  pub user_id : ℕ
  pub user_role : Role
  pub token_hash : ℕ
  pub family_id : ℕ
  pub device_id : Option Text
  pub user_agent : Option Text
  pub ip_address : Option Text
  pub status : SessionStatus
  pub expires_at : ℕ
  pub last_used_at : Option ℕ
  pub rotated_at : Option ℕ
  pub rotated_to_id : Option ℕ
  pub revoked_at : Option ℕ
  pub revoked_reason : Option RevokeReason

pub record Account : Type 0 where
  pub id : ℕ
  pub is_deleted : Bool  -- `deleted_at != null`
  pub is_suspended : Bool  -- `verification_status === "suspended"`, of workers

pub record SessionDb : Type 0 where
  pub sessions : List SessionRow
  pub workers : List Account
  pub customers : List Account

abbrev pub is_active : SessionStatus → Bool
is_active active = true
is_active _ = false

abbrev pub is_revoked : SessionStatus → Bool
is_revoked revoked = true
is_revoked _ = false

-- `[ACTIVE, ROTATED].includes(status)`
abbrev pub is_active_or_rotated : SessionStatus → Bool
is_active_or_rotated active = true
is_active_or_rotated rotated = true
is_active_or_rotated _ = false

-- `status === ROTATED || status === REVOKED`
abbrev pub is_spent : SessionStatus → Bool
is_spent rotated = true
is_spent revoked = true
is_spent _ = false
