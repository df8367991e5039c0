-- ===== src/Dispatch/Accept.antt =====
-- `acceptDispatch` and `checkJobComplete`, src/features/dispatch/dispatchServices.ts. The
-- transaction locks the requirement's row. The hash of a fresh code and the new booking's
-- identifier are drawn; the counters and messages that follow the transaction are left out.
use labour_baba_backend.Job
use labour_baba_backend.Requirement.Machine as Requirements
use labour_baba_backend.Base.{
  ltb, leb, ◌==◌, if◌then◌else◌, any, find?, update_where, count_where, text, text_eq, to_upper,
  Result, ok, err, ℕ, ◌+◌, ◌*◌, Bool, true, false, not, ◌&&◌, ◌||◌, Option, none, some, [], ◌∷◌,
  ◌++◌,
}
use labour_baba_backend.Access.Role.{customer, system}
use labour_baba_backend.Job.Status.{JobStatus, JobAction}
use labour_baba_backend.Booking.Status.{BookingStatus}
use labour_baba_backend.Requirement.Status.{RequirementStatus}
use labour_baba_backend.Store.Rows.{
  JobRow, BookingRow, RequirementRow, DispatchStatus, DispatchRow, OutboxRow, Db, pending, accepted,
  declined, timeout, expired, booking_confirmed,
}
use labour_baba_backend.Store.Failure.{Failure, job_invalid_transition, check_violation}

-- The `code` of a `DispatchAcceptanceError`, or what a step of the transaction throws.
pub data AcceptError : Type 0 where
  requirement_missing requirement_inactive slots_full booking_already_exists : AcceptError
  no_valid_dispatch dispatch_already_accepted dispatch_not_actionable : AcceptError
  dispatch_expired dispatch_not_acceptable : AcceptError
  failure : Failure → AcceptError

pub record AcceptDraw : Type 0 where
  pub booking_id : ℕ
  pub otp_hash : ℕ

-- `status?.toUpperCase() === RequirementStatus.CANCELLED`, and of a job
abbrev pub is_cancelled_requirement : RequirementStatus → Bool
is_cancelled_requirement RequirementStatus.cancelled = true
is_cancelled_requirement (RequirementStatus.other t) = text_eq (to_upper t) (text "CANCELLED")
is_cancelled_requirement _ = false

abbrev pub is_filled_requirement : RequirementStatus → Bool
is_filled_requirement RequirementStatus.filled = true
is_filled_requirement (RequirementStatus.other t) = text_eq (to_upper t) (text "FILLED")
is_filled_requirement _ = false

abbrev pub is_over : JobStatus → Bool
is_over JobStatus.cancelled = true
is_over JobStatus.completed = true
is_over (JobStatus.other t) =
    text_eq (to_upper t) (text "CANCELLED") || text_eq (to_upper t) (text "COMPLETED")
is_over _ = false

abbrev pub is_inactive : RequirementRow → JobRow → Bool
is_inactive req job = is_cancelled_requirement req.status || is_over job.status

abbrev pub is_full : RequirementRow → Bool
is_full req =
    is_filled_requirement req.status || leb req.worker_count_needed req.worker_count_filled

abbrev pub is_dispatch : ℕ → ℕ → DispatchRow → Bool
is_dispatch requirement_id worker_id d =
    d.requirement_id == requirement_id && d.worker_id == worker_id

abbrev pub is_pending : DispatchStatus → Bool
is_pending pending = true
is_pending _ = false

-- `expires_at: { gt: now }`, which no missing date meets
abbrev pub is_ahead : ℕ → Option ℕ → Bool
is_ahead now none = false
is_ahead now (some t) = ltb now t

-- `expires_at && expires_at <= now`
abbrev pub is_past : ℕ → Option ℕ → Bool
is_past now none = false
is_past now (some t) = leb t now

abbrev pub is_acceptable : ℕ → ℕ → ℕ → DispatchRow → Bool
is_acceptable now requirement_id worker_id d =
    is_dispatch requirement_id worker_id d && (is_pending d.status && is_ahead now d.expires_at)

-- Why the dispatch was not there to be accepted.
unfoldable pub unacceptable : ℕ → RequirementRow → Option DispatchRow → AcceptError
unacceptable now req none = no_valid_dispatch
unacceptable now req (some d) = elim d.status [
  | accepted ↦ dispatch_already_accepted
  | declined ↦ dispatch_not_actionable
  | timeout ↦ dispatch_not_actionable
  | expired ↦ if is_full req then slots_full else dispatch_not_actionable
  | _ ↦ if is_past now d.expires_at then dispatch_expired else dispatch_not_acceptable
]

-- The checks before the transaction, on the rows that were found.
abbrev pub preflight_requirement : Option (RequirementRow × JobRow) → Option AcceptError
preflight_requirement none = none
preflight_requirement (some (req, job)) =
    if is_inactive req job
    then some requirement_inactive
    else if is_full req
    then some slots_full
    else none

abbrev pub preflight_dispatch : ℕ → Option RequirementRow → Option DispatchRow → Option AcceptError
preflight_dispatch now req none = none
preflight_dispatch now req (some d) = elim d.status [
  | accepted ↦ some dispatch_already_accepted
  | declined ↦ some dispatch_not_actionable
  | timeout ↦ some dispatch_not_actionable
  | expired ↦ some (
      if elim req [ none ↦ false | some r ↦ is_full r ]
      then slots_full
      else dispatch_not_actionable)
  | _ ↦ if is_past now d.expires_at then some dispatch_expired else none
]

abbrev pub job_of : ℕ → Db → Option JobRow
job_of id db = find? (λ j. j.id == id) db.jobs

abbrev with_job : RequirementRow → Option JobRow → Option (RequirementRow × JobRow)
with_job req none = none
with_job req (some job) = some (req, job)

-- The requirement with its job, which a foreign key makes sure of.
abbrev pub requirement_of : ℕ → Db → Option (RequirementRow × JobRow)
requirement_of id db = elim (find? (Requirements.has_id id) db.requirements) [
  | none ↦ none
  | some req ↦ with_job req (job_of req.job_id db)
]

unfoldable pub preflight : ℕ → ℕ → ℕ → Db → Option AcceptError
preflight now requirement_id worker_id db =
    let req = requirement_of requirement_id db in
    let rest =
      preflight_dispatch now (elim req [ none ↦ none | some r ↦ some r.0 ])
        (find? (is_dispatch requirement_id worker_id) db.dispatches) in
    elim (preflight_requirement req) [ some e ↦ some e | none ↦ rest ]

abbrev pub mark_booked_params : ℕ → Job.Machine.TransitionJobParams
mark_booked_params job_id = record {
  job_id = job_id;
  action = JobAction.mark_booked;
  actor = record { id = none; role = system };
  reason = some (text "All job requirements filled");
  expected_status = none;
}

-- The invalid transitions that `checkJobComplete` ignores.
abbrev pub is_booked_already : Failure → Bool
is_booked_already (job_invalid_transition JobStatus.booked _) = true
is_booked_already (job_invalid_transition JobStatus.in_progress _) = true
is_booked_already (job_invalid_transition JobStatus.completed _) = true
is_booked_already _ = false

-- `status: { notIn: ['FILLED'] }`
abbrev is_filled_exactly : RequirementStatus → Bool
is_filled_exactly RequirementStatus.filled = true
is_filled_exactly _ = false

abbrev pub is_unfilled_of : ℕ → RequirementRow → Bool
is_unfilled_of job_id r = r.job_id == job_id && not (is_filled_exactly r.status)

abbrev pub mark_dispatch_filled : ℕ → ℕ → Db → Db
mark_dispatch_filled now job_id db = record db {
  jobs =
      update_where (λ j. j.id == job_id)
        (λ j. record j { dispatch_filled = true; updated_at = now }) db.jobs;
}

unfoldable pub check_job_complete : ℕ → ℕ → Db → Result Failure (Bool × Db)
check_job_complete now job_id db =
    let moved = Job.Machine.transition now (mark_booked_params job_id) db in
    if not (count_where (is_unfilled_of job_id) db.requirements == 0)
    then ok (false, db)
    else elim moved [
      | ok (_, db') ↦ ok (true, mark_dispatch_filled now job_id db')
      | err e ↦ if is_booked_already e then ok (true, mark_dispatch_filled now job_id db) else err e
    ]

abbrev pub confirmed_booking : ℕ → ℕ → AcceptDraw → RequirementRow → JobRow → ℕ → BookingRow
confirmed_booking now ttl d req job worker_id = record {
  id = d.booking_id;
  job_id = req.job_id;
  requirement_id = req.id;
  worker_id = worker_id;
  customer_id = job.customer_id;
  status = BookingStatus.confirmed;
  otp_hash = some d.otp_hash;
  otp_verified = false;
  otp_expires_at = some (now + ttl * 1000);
  otp_attempts = some 0;
  otp_locked_at = none;
  otp_consumed_at = none;
  verified_at = none;
  verified_by = none;
  started_at = none;
  completion_requested_at = none;
  completed_at = none;
  confirmed_at = none;
  confirmed_by = none;
  cancelled_at = none;
  cancelled_by = none;
  cancellation_reason = none;
  updated_at = now;
}

abbrev pub accept_row : ℕ → DispatchRow → DispatchRow
accept_row now d = record d { status = accepted; responded_at = some now }

abbrev pub is_pending_of : ℕ → DispatchRow → Bool
is_pending_of requirement_id d = d.requirement_id == requirement_id && is_pending d.status

abbrev pub expire_row : ℕ → DispatchRow → DispatchRow
expire_row now d = record d { status = expired; responded_at = some now }

-- 5. a requirement that is full: its other dispatches expire, and the job may be booked.
unfoldable pub close_full : ℕ → RequirementRow → Db → Result Failure Db
close_full now req db =
    elim (check_job_complete now req.job_id (record db {
      dispatches = update_where (is_pending_of req.id) (expire_row now) db.dispatches;
    })) [ ok (_, db') ↦ ok db' | err e ↦ err e ]

abbrev pub is_now_full : RequirementRow → Bool
is_now_full req = leb req.worker_count_needed (req.worker_count_filled + 1)

abbrev pub taken_up : ℕ → RequirementRow → RequirementRow → RequirementRow
taken_up now req r = record r {
  worker_count_filled = req.worker_count_filled + 1;
  status = if is_now_full req then RequirementStatus.filled else RequirementStatus.partially_filled;
  updated_at = now;
}

abbrev pub confirmation : BookingRow → OutboxRow
confirmation b = record {
  event_type = booking_confirmed;
  aggregate_id = b.id;
  recipient_type = customer;
  recipient_id = b.customer_id;
}

-- From the acceptance of the dispatch on.
unfoldable pub reserve :
    ℕ → ℕ → AcceptDraw → RequirementRow → JobRow → ℕ → Db → Result AcceptError (BookingRow × Db)
reserve now ttl d req job worker_id db =
    let b = confirmed_booking now ttl d req job worker_id in
    elim (Requirements.update_requirement (taken_up now req) req (record db {
      dispatches = update_where (is_acceptable now req.id worker_id) (accept_row now) db.dispatches;
    })) [
      | err e ↦ err (failure e)
      | ok db1 ↦
          let db2 = record db1 {
            bookings = db1.bookings ++ b ∷ [];
            outbox = db1.outbox ++ confirmation b ∷ [];
          } in
          let closed = close_full now req db2 in
          if is_now_full req
          then elim closed [ ok db3 ↦ ok (b, db3) | err e ↦ err (failure e) ]
          else ok (b, db2)
    ]

abbrev pub is_booking_for : ℕ → ℕ → BookingRow → Bool
is_booking_for requirement_id worker_id b =
    b.requirement_id == requirement_id && b.worker_id == worker_id

-- The transaction.
unfoldable pub accept_in_tx : ℕ → ℕ → AcceptDraw → ℕ → ℕ → Db → Result AcceptError (BookingRow × Db)
accept_in_tx now ttl d requirement_id worker_id db = elim (requirement_of requirement_id db) [
  | none ↦ err requirement_missing
  | some (req, job) ↦
      if is_inactive req job
      then err requirement_inactive
      else if is_full req
      then err slots_full
      else if any (is_booking_for requirement_id worker_id) db.bookings
      then err booking_already_exists
      else if count_where (is_acceptable now requirement_id worker_id) db.dispatches == 0
      then err (unacceptable now req (find? (is_dispatch requirement_id worker_id) db.dispatches))
      else reserve now ttl d req job worker_id db
]

-- The `catch` around the transaction: a row that the database refuses is one too many. In a
-- sequence of transactions no unique key is violated and no lock times out.
abbrev pub caught : AcceptError → AcceptError
caught (failure check_violation) = slots_full
caught e = e

-- `acceptDispatch`: the checks before the transaction on the database as it was then.
unfoldable pub accept_dispatch :
    ℕ → ℕ → AcceptDraw → ℕ → ℕ → Db → Db → Result AcceptError BookingRow × Db
accept_dispatch now ttl d requirement_id worker_id before db =
    elim (preflight now requirement_id worker_id before) [
      | some e ↦ (err e, db)
      | none ↦ elim (accept_in_tx now ttl d requirement_id worker_id db) [
        | err e ↦ (err (caught e), db)
        | ok (b, db') ↦ (ok b, db')
      ]
    ]
