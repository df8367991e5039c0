-- ===== src/Booking/CompleteExamples.antt =====
-- The theorem on confirmations at a concrete input.
use labour_baba_backend.Access.BookingPolicy.{can_confirm_completion}
use labour_baba_backend.Booking.Machine
use labour_baba_backend.Job.Status.{JobStatus}
use labour_baba_backend.Job
use labour_baba_backend.Job.Table as Rules
use labour_baba_backend.Base.{
  is_some, any, find?, text, Result, ok, err, ◌≡◌, refl, ◌⊎◌, true, false, Option, none, some, [],
  ◌∷◌, arith,
}
use labour_baba_backend.Access.Role.{Actor, customer}
use labour_baba_backend.Access.Decision.{assert_policy}
use labour_baba_backend.Booking.Status.{awaiting_confirmation, completed, normalize_status}
use labour_baba_backend.Booking.Table.{rule_for}
use labour_baba_backend.Booking.Evidence.{HasEvidence}
use labour_baba_backend.Booking.Complete.{
  ConfirmBookingCompleteReq, of_customer, given, authorize_confirm, is_review_of, complete_job,
  create_review, record_completion, after_confirmation, confirm_from, confirm_complete,
}
use labour_baba_backend.Booking.Outcome.{IsMoved}
use labour_baba_backend.Booking.Authority.{MayConfirm}
use labour_baba_backend.Booking.Completed.{confirm_complete_returns}
use labour_baba_backend.Store.Rows.{JobRow, BookingRow, Db, of_id}
use labour_baba_backend.Store.Failure.{Failure, type_error}

abbrev booking : BookingRow
booking = record {
  id = 7;
  job_id = 3;
  requirement_id = 5;
  worker_id = 11;
  customer_id = 12;
  status = awaiting_confirmation;
  otp_hash = some 1234;
  otp_verified = true;
  otp_expires_at = some 900;
  otp_attempts = some 0;
  otp_locked_at = none;
  otp_consumed_at = some 20;
  verified_at = some 20;
  verified_by = some (of_id 11);
  started_at = some 20;
  completion_requested_at = some 40;
  completed_at = none;
  confirmed_at = none;
  confirmed_by = none;
  cancelled_at = none;
  cancelled_by = none;
  cancellation_reason = none;
  updated_at = 40;
}

abbrev job : JobRow
job = record {
  id = 3;
  customer_id = 12;
  status = JobStatus.in_progress;
  dispatch_filled = true;
  updated_at = 1;
  cancelled_at = none;
  cancelled_by = none;
  completed_at = none;
}

abbrev db : Db
db = record {
  jobs = job ∷ [];
  job_transitions = [];
  bookings = booking ∷ [];
  booking_transitions = [];
  requirements = [];
  dispatches = [];
  reviews = [];
  outbox = [];
}

abbrev the_customer : Option Actor
the_customer = some (record { id = 12; role = customer })

abbrev payload : ConfirmBookingCompleteReq
payload = record { rating = some 5; comment = text "good work" }

booking-HasEvidence : HasEvidence booking
booking-HasEvidence = record {
  canonical = refl;
  started = λ h. (refl, refl, refl);
  handed_over = λ h. refl;
  confirmation = λ h. ground arith;
  cancellation = λ h. ground arith;
}

-- A duplicate row aborts the transaction.
abbrev abort : Db → Result Failure Db
abort d = err type_error

abbrev database_of : Result Failure Db → Db
database_of (ok d) = d
database_of (err _) = db

abbrev result : Result Failure Db
result = confirm_complete abort 50 7 12 payload the_customer db

result_ok : result ≡ ok (database_of result)
unfolding confirm_complete confirm_from authorize_confirm can_confirm_completion assert_policy
    after_confirmation create_review complete_job record_completion normalize_status rule_for
    Machine.transition Machine.transition_from Machine.proceed Machine.write Machine.can_transition
    Machine.updated Job.Machine.transition Job.Machine.transition_from Job.Machine.can_transition
    Job.Machine.target_at Job.Machine.write Job.Machine.updated Rules.rules_for
result_ok = refl

confirm_complete_returns_example :
    (b : BookingRow) × (find? (Machine.has_id 7) (booking ∷ []) ≡ some b)
    × (of_customer the_customer 12 7 b ≡ true)
    × MayConfirm the_customer 12 b
    × (((b.status ≡ awaiting_confirmation)
          × ((b' : BookingRow) × (find? (Machine.has_id 7) (database_of result).bookings ≡ some b')
              × IsMoved 50 (record { id = some 12; role = customer }) completed b b'))
        ⊎ ((b.status ≡ completed) × ((database_of result).bookings ≡ booking ∷ [])))
    × ((is_some (given (some 5)) ≡ false)
        ⊎ (any (is_review_of b.id) (database_of result).reviews ≡ true))
confirm_complete_returns_example =
    confirm_complete_returns abort (λ d d' h. ground arith) 50 7 12 payload the_customer db
      (database_of result) (record { keyed = (refl, tt); evidence = (booking-HasEvidence, tt) })
      result_ok
