-- ===== src/Booking/Otp.antt =====
-- `bookingService.verifyOtp`, src/features/booking/bookingServices.ts. The bcrypt comparison of a
-- code with a hash is a parameter, `none` where it throws, and so is the configured number of
-- attempts.
use labour_baba_backend.Base.{
  ℕ, ◌+◌, Bool, true, false, not, ◌&&◌, ◌||◌, Option, none, some, text, Result, ok, err, find?,
  update_where, or_else, is_some, ltb, leb, ◌==◌, if◌then◌else◌,
}
use labour_baba_backend.Access.Role.{Role, Actor, worker, admin, same_role}
use labour_baba_backend.Access.Decision.{AuthorizationError, assert_policy, forbidden}
use labour_baba_backend.Access.Filter.{Parties}
use labour_baba_backend.Access.BookingPolicy.{can_verify_otp}
use labour_baba_backend.Booking.Status.{confirmed, start_work, normalize_status, same_status}
use labour_baba_backend.Booking.Machine
use labour_baba_backend.Job.Status.{JobStatus, JobAction}
use labour_baba_backend.Job
use labour_baba_backend.Store.Rows.{BookingRow, Db}
use labour_baba_backend.Store.Failure.{
  Failure, authorization, otp_invalid, otp_expired, otp_locked, otp_already_used, otp_wrong_state,
  job_invalid_transition,
}

abbrev pub parties : BookingRow → Parties
parties b = record { id = b.id; customer_id = b.customer_id; worker_id = b.worker_id }

abbrev pub is_admin : Option Actor → Bool
is_admin none = false
is_admin (some a) = same_role a.role admin

-- `actor?.role === WORKER ? actor.id : workerId`
abbrev pub effective_worker : Option Actor → ℕ → ℕ
effective_worker none worker_id = worker_id
effective_worker (some a) worker_id = if same_role a.role worker then a.id else worker_id

-- `actor?.role || UserRole.WORKER`
abbrev pub role_or_worker : Option Actor → Role
role_or_worker none = worker
role_or_worker (some a) = a.role

abbrev pub refused : ℕ → Failure
refused status = authorization (record { status_code = status; code = forbidden })

abbrev pub checked : Result AuthorizationError (Unit {0}) → Result Failure (Unit {0})
checked (ok u) = ok u
checked (err e) = err (authorization e)

-- `assertPolicy(canVerifyOtp)` for an actor; without one the row's worker must be `workerId`.
unfoldable pub authorize : Option Actor → ℕ → BookingRow → Result Failure (Unit {0})
authorize none worker_id b = if not (b.worker_id == worker_id) then err (refused 403) else ok tt
authorize (some a) worker_id b = checked (assert_policy (can_verify_otp a (parties b)))

-- The row that the scoped queries lock, or the one that the last query finds by id alone.
abbrev pub in_scope : Option Actor → ℕ → ℕ → BookingRow → Bool
in_scope actor worker_id booking_id b =
    b.id == booking_id && (is_admin actor || b.worker_id == effective_worker actor worker_id)

unfoldable pub lock : Option Actor → ℕ → ℕ → Db → Result Failure BookingRow
lock actor worker_id booking_id db =
    elim (find? (in_scope actor worker_id booking_id) db.bookings) [
      | some b ↦ ok b
      | none ↦ elim (find? (Machine.has_id booking_id) db.bookings) [
        | none ↦ err (refused 404)
        | some b ↦ elim (authorize actor (effective_worker actor worker_id) b) [
          | ok _ ↦ ok b
          | err e ↦ err e
        ]
      ]
    ]

pub data Attempt : Type 0 where
  started : Attempt
  rejected : Bool → Attempt  -- `isNowLocked`

module _ (compare_password : ℕ → ℕ → Option Bool) (max_attempts : ℕ) where
  -- steps 3 to 6: what keeps a code from being compared
  unfoldable pub obstacle : ℕ → BookingRow → Option Failure
  obstacle now b =
      if not (same_status (normalize_status b.status) confirmed)
      then some otp_wrong_state
      else if is_some b.otp_consumed_at || b.otp_verified
      then some otp_already_used
      else if is_some b.otp_locked_at || leb max_attempts (or_else b.otp_attempts 0)
      then some otp_locked
      else if elim b.otp_expires_at [ none ↦ false | some e ↦ ltb e now ]
      then some otp_expired
      else none

  -- step 7
  abbrev pub is_valid : ℕ → BookingRow → Bool
  is_valid otp b = elim b.otp_hash [
    | none ↦ false
    | some h ↦ or_else (compare_password otp h) false
  ]

  -- step 8
  abbrev pub counted : ℕ → ℕ → BookingRow → BookingRow
  counted now attempts b = record b {
    otp_attempts = some attempts;
    otp_locked_at = if leb max_attempts attempts then some now else b.otp_locked_at;
    updated_at = now;
  }

  abbrev pub reject : ℕ → ℕ → BookingRow → Db → Attempt × Db
  reject now booking_id b db =
      let attempts = or_else b.otp_attempts 0 + 1 in
      (
        rejected (leb max_attempts attempts),
        record db {
          bookings = update_where (Machine.has_id booking_id) (counted now attempts) db.bookings;
        },
      )

  abbrev pub start_booking : ℕ → Option Actor → ℕ → Machine.TransitionBookingParams
  start_booking booking_id actor worker_id = record {
    booking_id = booking_id;
    action = start_work;
    actor = record { id = some worker_id; role = role_or_worker actor };
    reason = some (text "Worker verified OTP");
    expected_status = none;
  }

  abbrev pub start_job : ℕ → ℕ → Job.Machine.TransitionJobParams
  start_job job_id worker_id = record {
    job_id = job_id;
    action = JobAction.start_work;
    actor = record { id = some worker_id; role = worker };
    reason = some (text "Worker verified OTP");
    expected_status = none;
  }

  -- An invalid transition from IN_PROGRESS is another worker's start, and ignored.
  abbrev pub ignores : Failure → Bool
  ignores (job_invalid_transition JobStatus.in_progress _) = true
  ignores _ = false

  unfoldable pub synchronize_job : ℕ → ℕ → ℕ → Db → Result Failure (Attempt × Db)
  synchronize_job now job_id worker_id db =
      elim (Job.Machine.transition now (start_job job_id worker_id) db) [
        | ok (_, db') ↦ ok (started, db')
        | err e ↦ if ignores e then ok (started, db) else err e
      ]

  -- step 9
  unfoldable pub start : ℕ → ℕ → Option Actor → ℕ → BookingRow → Db → Result Failure (Attempt × Db)
  start now booking_id actor worker_id b db =
      elim (Machine.transition now (start_booking booking_id actor worker_id) db) [
        | err e ↦ err e
        | ok (_, db') ↦ synchronize_job now b.job_id worker_id db'
      ]

  unfoldable pub attempt :
      ℕ → ℕ → Option Actor → ℕ → ℕ → BookingRow → Db → Result Failure (Attempt × Db)
  attempt now booking_id actor worker_id otp b db = elim (obstacle now b) [
    | some e ↦ err e
    | none ↦
        if not (is_valid otp b)
        then ok (reject now booking_id b db)
        else start now booking_id actor worker_id b db
  ]

  -- the transaction
  unfoldable pub verify_in_tx : ℕ → ℕ → ℕ → ℕ → Option Actor → Db → Result Failure (Attempt × Db)
  verify_in_tx now booking_id worker_id otp actor db = elim (lock actor worker_id booking_id db) [
    | err e ↦ err e
    | ok b ↦ elim (authorize actor worker_id b) [
      | err e ↦ err e
      | ok _ ↦ attempt now booking_id actor (effective_worker actor worker_id) otp b db
    ]
  ]

  -- `verifyOtp`: a rejected attempt is committed, and then thrown.
  unfoldable pub verify_otp : ℕ → ℕ → ℕ → ℕ → Option Actor → Db → Result Failure (Unit {0}) × Db
  verify_otp now booking_id worker_id otp actor db =
      elim (verify_in_tx now booking_id worker_id otp actor db) [
        | err e ↦ (err e, db)
        | ok (started, db') ↦ (ok tt, db')
        | ok (rejected is_now_locked, db') ↦
            (err (if is_now_locked then otp_locked else otp_invalid), db')
      ]
