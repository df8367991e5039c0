-- ===== src/Session/Service.antt =====
-- The operations of `sessionService` that are one query each.
use labour_baba_backend.Base.{
  ℕ, ◌+◌, ◌*◌, Bool, not, ◌&&◌, Option, none, some, List, [], ◌∷◌, ◌++◌, Text, or_else, ltb, ◌==◌,
  update_where, count_where, filter_where,
}
use labour_baba_backend.Access.Role.{Role}
use labour_baba_backend.Session.Table.{
  active, revoked, RevokeReason, logout, SessionRow, is_revoked, is_active_or_rotated,
}

pub record CreateSessionOptions : Type 0 where
  pub user_id : ℕ
  pub user_role : Role
  pub device_id : Option Text
  pub user_agent : Option Text
  pub ip_address : Option Text
  pub ttl_days : Option ℕ

-- What the code draws at random: identifiers, and the hash of a new secret.
pub record Draw : Type 0 where
  pub session_id : ℕ
  pub family_id : ℕ
  pub token_hash : ℕ

-- milliseconds in some days
abbrev pub days : ℕ → ℕ
days n = n * (24 * 60 * 60 * 1000)

abbrev pub created : ℕ → ℕ → CreateSessionOptions → Draw → SessionRow
created now default_ttl opts d = record {
  id = d.session_id;
  user_id = opts.user_id;
  user_role = opts.user_role;
  token_hash = d.token_hash;
  family_id = d.family_id;
  device_id = opts.device_id;
  user_agent = opts.user_agent;
  ip_address = opts.ip_address;
  status = active;
  expires_at = now + days (or_else opts.ttl_days default_ttl);
  last_used_at = none;
  rotated_at = none;
  rotated_to_id = none;
  revoked_at = none;
  revoked_reason = none;
}

-- `createSession`
unfoldable pub create_session :
    ℕ → ℕ → CreateSessionOptions → Draw → List SessionRow → List SessionRow
create_session now default_ttl opts d sessions = sessions ++ created now default_ttl opts d ∷ []

-- `{ status: REVOKED, revoked_at, revoked_reason }`
abbrev pub revoke : ℕ → RevokeReason → SessionRow → SessionRow
revoke now reason s = record s {
  status = revoked;
  revoked_at = some now;
  revoked_reason = some reason;
}

abbrev pub revoke_where :
    (SessionRow → Bool) → ℕ → RevokeReason → List SessionRow → ℕ × List SessionRow
revoke_where p now reason sessions =
    (count_where p sessions, update_where p (revoke now reason) sessions)

abbrev pub is_own : ℕ → ℕ → SessionRow → Bool
is_own session_id user_id s =
    s.id == session_id && (s.user_id == user_id && is_active_or_rotated s.status)

unfoldable pub revoke_session : ℕ → ℕ → ℕ → RevokeReason → List SessionRow → ℕ × List SessionRow
revoke_session now session_id user_id reason sessions =
    revoke_where (is_own session_id user_id) now reason sessions

abbrev pub is_of_user : ℕ → SessionRow → Bool
is_of_user user_id s = s.user_id == user_id && is_active_or_rotated s.status

unfoldable pub revoke_all_user_sessions :
    ℕ → ℕ → RevokeReason → List SessionRow → ℕ × List SessionRow
revoke_all_user_sessions now user_id reason sessions =
    revoke_where (is_of_user user_id) now reason sessions

abbrev pub is_of_family : ℕ → SessionRow → Bool
is_of_family family_id s = s.family_id == family_id && not (is_revoked s.status)

unfoldable pub revoke_family_by_family_id :
    ℕ → ℕ → RevokeReason → List SessionRow → ℕ × List SessionRow
revoke_family_by_family_id now family_id reason sessions =
    revoke_where (is_of_family family_id) now reason sessions

-- `revokeByRawToken`, on what `parseRawToken` reads
unfoldable pub revoke_by_raw_token : ℕ → Option (ℕ × ℕ) → ℕ → List SessionRow → ℕ × List SessionRow
revoke_by_raw_token now none user_id sessions = (0, sessions)
revoke_by_raw_token now (some (session_id, _)) user_id sessions =
    revoke_session now session_id user_id logout sessions

-- `expires_at < now - days(retention)`, the difference being taken to the other side
abbrev pub is_outdated : ℕ → ℕ → SessionRow → Bool
is_outdated now retention s = ltb (s.expires_at + days retention) now

unfoldable pub cleanup_expired_sessions : ℕ → ℕ → List SessionRow → ℕ × List SessionRow
cleanup_expired_sessions now retention sessions = (
  count_where (is_outdated now retention) sessions,
  filter_where (λ s. not (is_outdated now retention s)) sessions,
)
