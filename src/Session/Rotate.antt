-- ===== src/Session/Rotate.antt =====
-- `sessionService.rotateSession`, src/features/auth/session.service.ts. It is not one transaction:
-- the checks read the session, and revoke its family where they find a theft, and only the last
-- step is a transaction. So there are two operations here, `examine` and `swap`, with the session
-- as it was read handed from the one to the other. bcrypt's comparison is a parameter.
use labour_baba_backend.Base.{
  ℕ, ◌+◌, Bool, not, ◌&&◌, ◌||◌, Option, none, some, List, [], ◌∷◌, ◌++◌, Result, ok, err, find?,
  ltb, ◌==◌, update_where, count_where, if◌then◌else◌,
}
use labour_baba_backend.Access.Role.{Role, worker, customer}
use labour_baba_backend.Session.Table.{
  active, rotated, RevokeReason, reuse, suspended, SessionRow, Account, SessionDb, is_active,
  is_spent,
}
use labour_baba_backend.Session.Service.{Draw, days, revoke_family_by_family_id}

-- The `code` of what is thrown.
pub data RotateError : Type 0 where
  invalid_refresh_token refresh_token_reuse refresh_session_expired : RotateError
  account_suspended account_inactive concurrent_refresh_conflict : RotateError

pub record RotateSessionResult : Type 0 where
  pub new_session_id : ℕ
  pub expires_at : ℕ
  pub user_id : ℕ
  pub user_role : Role

abbrev pub has_id : ℕ → SessionRow → Bool
has_id n s = s.id == n

abbrev pub account_of : ℕ → List Account → Option Account
account_of n accounts = find? (λ a. a.id == n) accounts

abbrev pub worker_state : Option Account → Option RotateError
worker_state none = some account_suspended
worker_state (some a) = if a.is_deleted || a.is_suspended then some account_suspended else none

abbrev pub customer_state : Option Account → Option RotateError
customer_state none = some account_inactive
customer_state (some a) = if a.is_deleted then some account_inactive else none

-- Step 4.5: a worker or customer that is gone, deleted or suspended.
abbrev pub account_state : SessionRow → SessionDb → Option RotateError
account_state s db = elim s.user_role [
  | worker ↦ worker_state (account_of s.user_id db.workers)
  | customer ↦ customer_state (account_of s.user_id db.customers)
  | _ ↦ none
]

abbrev pub revoke_family_of : ℕ → RevokeReason → SessionRow → SessionDb → SessionDb
revoke_family_of now reason s db = record db {
  sessions = (revoke_family_by_family_id now s.family_id reason db.sessions).1;
}

abbrev pub is_current : ℕ → SessionRow → Bool
is_current id s = s.id == id && is_active s.status

-- `{ status: ROTATED, rotated_at, rotated_to_id }`
abbrev pub rotate : ℕ → ℕ → SessionRow → SessionRow
rotate now new_id s = record s {
  status = rotated;
  rotated_at = some now;
  rotated_to_id = some new_id;
}

-- The successor, in the family of the session that was read.
abbrev pub successor : ℕ → ℕ → Draw → SessionRow → SessionRow
successor now ttl_days d s = record {
  id = d.session_id;
  user_id = s.user_id;
  user_role = s.user_role;
  token_hash = d.token_hash;
  family_id = s.family_id;
  device_id = s.device_id;
  user_agent = s.user_agent;
  ip_address = s.ip_address;
  status = active;
  expires_at = now + days ttl_days;
  last_used_at = some now;
  rotated_at = none;
  rotated_to_id = none;
  revoked_at = none;
  revoked_reason = none;
}

module _ (compare : ℕ → ℕ → Bool) where
  -- Steps 3 to 4.5, on a session that is neither rotated nor revoked.
  abbrev pub check : ℕ → ℕ → SessionRow → SessionDb → Result RotateError SessionRow × SessionDb
  check now secret s db =
      if ltb s.expires_at now
      then (err refresh_session_expired, db)
      else if not (compare secret s.token_hash)
      then (err invalid_refresh_token, db)
      else elim (account_state s db) [
        | some e ↦ (err e, revoke_family_of now suspended s db)
        | none ↦ (ok s, db)
      ]

  -- Steps 1 to 4.5, on what `parseRawToken` reads.
  unfoldable pub examine :
      ℕ → Option (ℕ × ℕ) → SessionDb → Result RotateError SessionRow × SessionDb
  examine now none db = (err invalid_refresh_token, db)
  examine now (some (session_id, secret)) db = elim (find? (has_id session_id) db.sessions) [
    | none ↦ (err invalid_refresh_token, db)
    | some s ↦
        if is_spent s.status
        then (err refresh_token_reuse, revoke_family_of now reuse s db)
        else check now secret s db
  ]

-- Step 5: the compare-and-set and the successor, in one transaction.
unfoldable pub swap :
    ℕ → ℕ → Draw → SessionRow → SessionDb → Result RotateError RotateSessionResult × SessionDb
swap now ttl_days d s db =
    if count_where (is_current s.id) db.sessions == 0
    then (err concurrent_refresh_conflict, db)
    else (
      ok (record {
        new_session_id = d.session_id;
        expires_at = now + days ttl_days;
        user_id = s.user_id;
        user_role = s.user_role;
      }),
      record db {
        sessions =
            update_where (is_current s.id) (rotate now d.session_id) db.sessions
            ++ successor now ttl_days d s ∷ [];
      },
    )

-- `rotateSession` with nothing in between
unfoldable pub rotate_session :
    (ℕ → ℕ → Bool)
    → ℕ
    → ℕ
    → Draw
    → Option (ℕ × ℕ)
    → SessionDb
    → Result RotateError RotateSessionResult × SessionDb
rotate_session compare now ttl_days d token db =
    let (r, db') = examine compare now token db in
    elim r [ err e ↦ (err e, db') | ok s ↦ swap now ttl_days d s db' ]
