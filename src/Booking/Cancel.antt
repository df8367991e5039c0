-- ===== src/Booking/Cancel.antt =====
-- `bookingService.cancelBooking`, src/features/booking/bookingServices.ts. What becomes of the
-- transaction when the outbox refuses a second row with one idempotency key is a parameter.
use labour_baba_backend.Base.{
  ℕ, Bool, true, false, not, ◌&&◌, Option, none, some, [], ◌∷◌, ◌++◌, Text, text, trim, Result, ok,
  err, find?, update_where, count_where, any, ◌==◌, if◌then◌else◌,
}
use labour_baba_backend.Access.Role.{Role, Actor, customer, worker, admin, system, same_role}
use labour_baba_backend.Access.Decision.{assert_policy}
use labour_baba_backend.Access.BookingPolicy.{can_cancel}
use labour_baba_backend.Booking.Status.{cancel}
use labour_baba_backend.Booking.Machine
use labour_baba_backend.Booking.Otp.{parties, refused, checked}
use labour_baba_backend.Job.Status.{JobStatus, JobAction}
use labour_baba_backend.Job
use labour_baba_backend.Requirement.Capacity.{is_active}
use labour_baba_backend.Requirement.Reconcile.{reconcile_capacity}
use labour_baba_backend.Store.Rows.{
  BookingRow, DispatchStatus, accepted, pending, DispatchRow, OutboxEvent, booking_cancelled,
  OutboxRow, Db,
}
use labour_baba_backend.Store.Failure.{Failure, booking_invalid_transition, job_invalid_transition}

-- `actor?.id || userId` and `actor?.role || UserRole.CUSTOMER`
abbrev pub effective_id : Option Actor → ℕ → ℕ
effective_id none user_id = user_id
effective_id (some a) user_id = a.id

abbrev pub effective_role : Option Actor → Role
effective_role none = customer
effective_role (some a) = a.role

-- step 1: the participant's rows
abbrev pub is_participant : Role → ℕ → BookingRow → Bool
is_participant role id b =
    if same_role role admin
    then true
    else if same_role role worker
    then b.worker_id == id
    else b.customer_id == id

abbrev pub in_scope : Option Actor → ℕ → ℕ → BookingRow → Bool
in_scope actor user_id booking_id b =
    b.id == booking_id && is_participant (effective_role actor) (effective_id actor user_id) b

-- step 2
unfoldable pub authorize : Option Actor → ℕ → BookingRow → Result Failure (Unit {0})
authorize none user_id b =
    if not (b.customer_id == user_id) && not (b.worker_id == user_id)
    then err (refused 403)
    else ok tt
authorize (some a) user_id b = checked (assert_policy (can_cancel a (parties b)))

abbrev trimmed : Option Text → Option Text
trimmed none = none
trimmed (some t) = some (trim t)

abbrev pub cancellation : ℕ → ℕ → Option Actor → Option Text → Machine.TransitionBookingParams
cancellation booking_id user_id actor reason = record {
  booking_id = booking_id;
  action = cancel;
  actor = record { id = some (effective_id actor user_id); role = effective_role actor };
  reason = trimmed reason;
  expected_status = none;
}

-- `status: { in: ['accepted', 'pending'] }` of the worker and requirement
abbrev is_outstanding : DispatchStatus → Bool
is_outstanding accepted = true
is_outstanding pending = true
is_outstanding _ = false

abbrev is_dispatch_of : BookingRow → DispatchRow → Bool
is_dispatch_of b d =
    d.requirement_id == b.requirement_id && (d.worker_id == b.worker_id && is_outstanding d.status)

abbrev pub cancel_dispatches : ℕ → BookingRow → Db → Db
cancel_dispatches now b db = record db {
  dispatches =
      update_where (is_dispatch_of b)
        (λ d. record d { status = DispatchStatus.cancelled; responded_at = some now })
        db.dispatches;
}

abbrev is_active_of_job : ℕ → BookingRow → Bool
is_active_of_job job_id b = b.job_id == job_id && is_active b.status

abbrev pub reopen : ℕ → Job.Machine.TransitionJobParams
reopen job_id = record {
  job_id = job_id;
  action = JobAction.reopen_dispatch;
  actor = record { id = none; role = system };
  reason = some (text "Booking cancelled, reopening dispatch");
  expected_status = none;
}

-- An invalid transition from a status that needs no reopening is ignored.
abbrev pub ignores : Failure → Bool
ignores (job_invalid_transition JobStatus.cancelled _) = true
ignores (job_invalid_transition JobStatus.dispatching _) = true
ignores (job_invalid_transition JobStatus.completed _) = true
ignores _ = false

unfoldable pub reopen_job : ℕ → ℕ → Db → Result Failure Db
reopen_job now job_id db =
    let reopened = Job.Machine.transition now (reopen job_id) db in
    if not (count_where (is_active_of_job job_id) db.bookings == 0)
    then ok db
    else elim reopened [ ok (_, db') ↦ ok db' | err e ↦ if ignores e then ok db else err e ]

abbrev pub cancellation_event : Option Actor → BookingRow → OutboxRow
cancellation_event actor b =
    let by_worker = same_role (effective_role actor) worker in
    record {
      event_type = booking_cancelled;
      aggregate_id = b.id;
      recipient_type = if by_worker then customer else worker;
      recipient_id = if by_worker then b.customer_id else b.worker_id;
    }

abbrev is_cancellation : OutboxEvent → Bool
is_cancellation booking_cancelled = true
is_cancellation _ = false

-- the same `idempotency_key`
abbrev has_key : OutboxRow → OutboxRow → Bool
has_key new row =
    is_cancellation row.event_type
    && (row.aggregate_id == new.aggregate_id
        && (same_role row.recipient_type new.recipient_type
            && row.recipient_id == new.recipient_id))

module _ (on_duplicate : Db → Result Failure Db) where
  unfoldable pub record_event : OutboxRow → Db → Result Failure Db
  record_event event db =
      if any (has_key event) db.outbox
      then on_duplicate db
      else ok (record db { outbox = db.outbox ++ event ∷ [] })

  -- step 5 and the event
  unfoldable pub release : ℕ → Option Actor → BookingRow → Db → Result Failure Db
  release now actor b db = elim (reconcile_capacity now b.requirement_id db) [
    | err e ↦ err e
    | ok (_, db') ↦ elim (reopen_job now b.job_id (cancel_dispatches now b db')) [
      | err e ↦ err e
      | ok db'' ↦ record_event (cancellation_event actor b) db''
    ]
  ]

  abbrev after_transition :
      ℕ → Option Actor → BookingRow → Machine.BookingTransitionResult × Db → Result Failure Db
  after_transition now actor b (r, db) = if r.is_idempotent then ok db else release now actor b db

  -- steps 3 to 5 on the locked row
  unfoldable pub cancel_from :
      ℕ → ℕ → ℕ → Option Text → Option Actor → BookingRow → Db → Result Failure Db
  cancel_from now booking_id user_id reason actor b db =
      if Machine.lacks_reason reason
      then err (booking_invalid_transition b.status cancel)
      else elim (Machine.transition now (cancellation booking_id user_id actor reason) db) [
        | err e ↦ err e
        | ok moved ↦ after_transition now actor b moved
      ]

  -- `cancelBooking`, within its transaction
  unfoldable pub cancel_booking : ℕ → ℕ → ℕ → Option Text → Option Actor → Db → Result Failure Db
  cancel_booking now booking_id user_id reason actor db =
      elim (find? (in_scope actor user_id booking_id) db.bookings) [
        | none ↦ err (refused 404)
        | some b ↦ elim (authorize actor user_id b) [
          | err e ↦ err e
          | ok _ ↦ cancel_from now booking_id user_id reason actor b db
        ]
      ]
