-- ===== src/Booking/Complete.antt =====
-- `completeBooking` and `confirmComplete` of `bookingService`,
-- src/features/booking/bookingServices.ts. What becomes of the transaction when a unique key
-- refuses a second review or outbox row is a parameter.
use labour_baba_backend.Access.BookingPolicy.{can_complete, can_confirm_completion}
use labour_baba_backend.Booking.Machine
use labour_baba_backend.Booking.Otp.{parties, refused, checked}
use labour_baba_backend.Job.Status.{JobStatus, JobAction}
use labour_baba_backend.Job
use labour_baba_backend.Base.{
  ◌==◌, if◌then◌else◌, is_some, any, find?, count_where, Text, text, Result, ok, err, ℕ, Bool, true,
  false, not, ◌&&◌, ◌||◌, Option, none, some, [], ◌∷◌, ◌++◌,
}
use labour_baba_backend.Access.Role.{Role, Actor, customer, worker, admin, same_role}
use labour_baba_backend.Access.Decision.{assert_policy}
use labour_baba_backend.Booking.Status.{
  BookingStatus, awaiting_confirmation, completed, cancelled, request_completion,
  confirm_completion, normalize_status,
}
use labour_baba_backend.Store.Rows.{
  BookingRow, ReviewRow, OutboxEvent, OutboxRow, Db, booking_completed,
}
use labour_baba_backend.Store.Failure.{Failure, job_invalid_transition, booking_invalid_transition}

abbrev pub is_role : Role → Option Actor → Bool
is_role r none = false
is_role r (some a) = same_role a.role r

-- `actor?.role === role ? actor.id : userId`
abbrev pub effective : Role → Option Actor → ℕ → ℕ
effective r none user_id = user_id
effective r (some a) user_id = if same_role a.role r then a.id else user_id

-- `actor?.role || role`
abbrev pub role_or : Role → Option Actor → Role
role_or r none = r
role_or r (some a) = a.role

abbrev pub of_worker : Option Actor → ℕ → ℕ → BookingRow → Bool
of_worker actor worker_id id b =
    b.id == id && (is_role admin actor || b.worker_id == effective worker actor worker_id)

abbrev pub of_customer : Option Actor → ℕ → ℕ → BookingRow → Bool
of_customer actor customer_id id b =
    b.id == id && (is_role admin actor || b.customer_id == effective customer actor customer_id)

unfoldable pub authorize_complete : Option Actor → ℕ → BookingRow → Result Failure (Unit {0})
authorize_complete none worker_id b =
    if not (b.worker_id == worker_id) then err (refused 403) else ok tt
authorize_complete (some a) worker_id b = checked (assert_policy (can_complete a (parties b)))

abbrev pub completion_request : ℕ → ℕ → Option Actor → Machine.TransitionBookingParams
completion_request id worker_id actor = record {
  booking_id = id;
  action = request_completion;
  actor = record { id = some (effective worker actor worker_id); role = role_or worker actor };
  reason = some (text "Worker marked work completed");
  expected_status = none;
}

-- `completeBooking`, within its transaction
unfoldable pub complete_booking : ℕ → ℕ → ℕ → Option Actor → Db → Result Failure Db
complete_booking now id worker_id actor db =
    elim (find? (of_worker actor worker_id id) db.bookings) [
      | none ↦ err (refused 404)
      | some b ↦ elim (authorize_complete actor worker_id b) [
        | err e ↦ err e
        | ok _ ↦ elim (Machine.transition now (completion_request id worker_id actor) db) [
          | err e ↦ err e
          | ok (_, db') ↦ ok db'
        ]
      ]
    ]

pub record ConfirmBookingCompleteReq : Type 0 where
  pub rating : Option ℕ
  pub comment : Text

-- a rating that is not falsy
abbrev pub given : Option ℕ → Option ℕ
given none = none
given (some n) = if n == 0 then none else some n

unfoldable pub authorize_confirm : Option Actor → ℕ → BookingRow → Result Failure (Unit {0})
authorize_confirm none customer_id b =
    if not (b.customer_id == customer_id) then err (refused 403) else ok tt
authorize_confirm (some a) customer_id b =
    checked (assert_policy (can_confirm_completion a (parties b)))

abbrev pub is_reviewable : BookingStatus → Bool
is_reviewable completed = true
is_reviewable awaiting_confirmation = true
is_reviewable _ = false

abbrev pub confirmation_request : ℕ → ℕ → Option Actor → Machine.TransitionBookingParams
confirmation_request id customer_id actor = record {
  booking_id = id;
  action = confirm_completion;
  actor = record {
    id = some (effective customer actor customer_id);
    role = role_or customer actor;
  };
  reason = some (text "Customer confirmed completion");
  expected_status = none;
}

abbrev pub is_review_of : ℕ → ReviewRow → Bool
is_review_of id r = r.booking_id == id

-- `status: { notIn: ['COMPLETED', 'CANCELLED'] }`
abbrev is_done : BookingStatus → Bool
is_done completed = true
is_done cancelled = true
is_done _ = false

abbrev pub is_uncompleted_of : ℕ → BookingRow → Bool
is_uncompleted_of job_id b = b.job_id == job_id && not (is_done b.status)

abbrev pub job_completion : ℕ → ℕ → Option Actor → Job.Machine.TransitionJobParams
job_completion job_id customer_id actor = record {
  job_id = job_id;
  action = JobAction.complete;
  actor = record {
    id = some (effective customer actor customer_id);
    role = role_or customer actor;
  };
  reason = some (text "All bookings completed and confirmed");
  expected_status = none;
}

abbrev pub is_completed_already : Failure → Bool
is_completed_already (job_invalid_transition JobStatus.completed _) = true
is_completed_already _ = false

-- The job is completed with the last of its bookings.
unfoldable pub complete_job : ℕ → ℕ → ℕ → Option Actor → Db → Result Failure Db
complete_job now job_id customer_id actor db =
    let moved = Job.Machine.transition now (job_completion job_id customer_id actor) db in
    if not (count_where (is_uncompleted_of job_id) db.bookings == 0) then ok db else elim moved [
      | ok (_, db') ↦ ok db'
      | err e ↦ if is_completed_already e then ok db else err e
    ]

abbrev is_completion : OutboxEvent → Bool
is_completion booking_completed = true
is_completion _ = false

-- the same `idempotency_key`
abbrev has_key : BookingRow → OutboxRow → Bool
has_key b row =
    is_completion row.event_type && (row.aggregate_id == b.id && row.recipient_id == b.worker_id)

abbrev pub completion_event : BookingRow → OutboxRow
completion_event b = record {
  event_type = booking_completed;
  aggregate_id = b.id;
  recipient_type = worker;
  recipient_id = b.worker_id;
}

module _ (on_duplicate : Db → Result Failure Db) where
  unfoldable pub create_review : ℕ → Option ℕ → Text → BookingRow → Db → Result Failure Db
  create_review customer_id none comment b db = ok db
  create_review customer_id (some rating) comment b db =
      if any (is_review_of b.id) db.reviews
      then on_duplicate db
      else ok (record db {
        reviews =
            db.reviews
            ++ record {
              booking_id = b.id;
              worker_id = b.worker_id;
              customer_id = customer_id;
              rating = rating;
              comment = comment;
            }
              ∷ [];
      })

  unfoldable pub record_completion : Bool → BookingRow → Db → Result Failure Db
  record_completion is_idempotent b db =
      if is_idempotent
      then ok db
      else if any (has_key b) db.outbox
      then on_duplicate db
      else ok (record db { outbox = db.outbox ++ completion_event b ∷ [] })

  -- what follows the transition
  unfoldable pub after_confirmation :
      ℕ → ℕ → ConfirmBookingCompleteReq → Option Actor → BookingRow → Bool → Db → Result Failure Db
  after_confirmation now customer_id payload actor b is_idempotent db =
      elim (create_review (effective customer actor customer_id) (given payload.rating)
        payload.comment b db) [
          | err e ↦ err e
          | ok db1 ↦ elim (complete_job now b.job_id customer_id actor db1) [
            | err e ↦ err e
            | ok db2 ↦ record_completion is_idempotent b db2
          ]
        ]

  unfoldable pub confirm_from :
      ℕ → ℕ → ℕ → ConfirmBookingCompleteReq → Option Actor → BookingRow → Db → Result Failure Db
  confirm_from now id customer_id payload actor b db =
      if is_some (given payload.rating) && not (is_reviewable (normalize_status b.status))
      then err (booking_invalid_transition (normalize_status b.status) confirm_completion)
      else elim (Machine.transition now (confirmation_request id customer_id actor) db) [
        | err e ↦ err e
        | ok (r, db') ↦ after_confirmation now customer_id payload actor b r.is_idempotent db'
      ]

  -- `confirmComplete`, within its transaction
  unfoldable pub confirm_complete :
      ℕ → ℕ → ℕ → ConfirmBookingCompleteReq → Option Actor → Db → Result Failure Db
  confirm_complete now id customer_id payload actor db =
      elim (find? (of_customer actor customer_id id) db.bookings) [
        | none ↦ err (refused 404)
        | some b ↦ elim (authorize_confirm actor customer_id b) [
          | err e ↦ err e
          | ok _ ↦ confirm_from now id customer_id payload actor b db
        ]
      ]
