-- ===== src/Booking/CancelExamples.antt =====
-- The theorem on cancellations at a concrete input.
use labour_baba_backend.Base.{
  true, false, Option, none, some, [], ◌∷◌, ◌≡◌, refl, arith, text, Result, ok, err, find?,
}
use labour_baba_backend.Access.Role.{Actor, customer}
use labour_baba_backend.Access.Decision.{assert_policy}
use labour_baba_backend.Access.BookingPolicy.{can_cancel}
use labour_baba_backend.Booking.Status.{confirmed, cancelled, normalize_status}
use labour_baba_backend.Booking.Table.{rule_for}
use labour_baba_backend.Booking.Machine
use labour_baba_backend.Booking.Evidence.{HasEvidence}
use labour_baba_backend.Booking.Cancel.{
  is_participant, authorize, reopen_job, record_event, release, cancel_from, cancel_booking,
}
use labour_baba_backend.Requirement.Places.{places_taken}
use labour_baba_backend.Booking.Outcome.{IsMoved}
use labour_baba_backend.Booking.Authority.{MayCancel}
use labour_baba_backend.Booking.Release.{cancel_booking_returns}
use labour_baba_backend.Job
use labour_baba_backend.Job.Status.{JobStatus}
use labour_baba_backend.Requirement.Status as Statuses
use labour_baba_backend.Requirement.Status.{RequirementStatus}
use labour_baba_backend.Requirement.Capacity.{calculate_requirement_capacity}
use labour_baba_backend.Requirement.Machine as Requirements
use labour_baba_backend.Requirement.Reconcile.{reconcile_capacity}
use labour_baba_backend.Store.Rows.{BookingRow, JobRow, RequirementRow, Db}
use labour_baba_backend.Store.Failure.{Failure}

abbrev booking : BookingRow
booking = record {
  id = 7;
  job_id = 3;
  requirement_id = 5;
  worker_id = 11;
  customer_id = 12;
  status = confirmed;
  otp_hash = some 1234;
  otp_verified = false;
  otp_expires_at = some 900;
  otp_attempts = some 1;
  otp_locked_at = none;
  otp_consumed_at = none;
  verified_at = none;
  verified_by = none;
  started_at = none;
  completion_requested_at = none;
  completed_at = none;
  confirmed_at = none;
  confirmed_by = none;
  cancelled_at = none;
  cancelled_by = none;
  cancellation_reason = none;
  updated_at = 1;
}

abbrev job : JobRow
job = record {
  id = 3;
  customer_id = 12;
  status = JobStatus.booked;
  dispatch_filled = true;
  updated_at = 1;
  cancelled_at = none;
  cancelled_by = none;
  completed_at = none;
}

abbrev requirement : RequirementRow
requirement = record {
  id = 5;
  job_id = 3;
  worker_count_needed = 1;
  worker_count_filled = 1;
  status = RequirementStatus.filled;
  updated_at = 1;
}

abbrev db : Db
db = record {
  jobs = job ∷ [];
  job_transitions = [];
  bookings = booking ∷ [];
  booking_transitions = [];
  requirements = requirement ∷ [];
  dispatches = [];
  reviews = [];
  outbox = [];
}

abbrev the_customer : Option Actor
the_customer = some (record { id = 12; role = customer })

booking-HasEvidence : HasEvidence booking
booking-HasEvidence = record {
  canonical = refl;
  started = λ h. ground arith;
  handed_over = λ h. ground arith;
  confirmation = λ h. ground arith;
  cancellation = λ h. ground arith;
}

-- A duplicate row of the outbox is passed over.
abbrev pass_over : Db → Result Failure Db
pass_over d = ok d

abbrev database_of : Result Failure Db → Db
database_of (ok d) = d
database_of (err _) = db

abbrev result : Result Failure Db
result = cancel_booking pass_over 50 7 12 (some (text "rain")) the_customer db

result_ok : result ≡ ok (database_of result)
unfolding cancel_booking cancel_from authorize can_cancel assert_policy release reopen_job
    record_event reconcile_capacity calculate_requirement_capacity Requirements.update_requirement
    Statuses.normalize_status normalize_status rule_for Machine.transition Machine.transition_from
    Machine.proceed Machine.write Machine.can_transition Machine.updated Job.Machine.transition
    Job.Machine.transition_from Job.Machine.can_transition Job.Machine.target_at Job.Machine.write
    Job.Machine.updated
result_ok = refl

cancel_booking_returns_example :
    (b : BookingRow) × (find? (Machine.has_id 7) (booking ∷ []) ≡ some b)
    × (is_participant customer 12 b ≡ true)
    × MayCancel the_customer 12 b
    × (Machine.lacks_reason (some (text "rain")) ≡ false)
    × ((b' : BookingRow) × (find? (Machine.has_id 7) (database_of result).bookings ≡ some b')
        × IsMoved 50 (record { id = some 12; role = customer }) cancelled b b')
    × ((row : RequirementRow) × (find?
            (Requirements.has_id b.requirement_id)
            (database_of result).requirements
          ≡ some row)
        × (row.worker_count_filled ≡ places_taken b.requirement_id (database_of result).bookings))
cancel_booking_returns_example =
    cancel_booking_returns pass_over (λ d d' h. (ground arith, ground arith)) 50 7 12
      (some (text "rain")) the_customer db (database_of result)
      (record { keyed = (refl, tt); evidence = (booking-HasEvidence, tt) }) result_ok
