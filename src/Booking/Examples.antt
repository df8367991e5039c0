-- ===== src/Booking/Examples.antt =====
-- The theorems on bookings at concrete inputs.
use labour_baba_backend.Base.{
  inl, ℕ, Bool, true, false, Option, none, some, [], ◌∷◌, ◌≡◌, ◌↔◌, refl, arith, text, ok, is_ok,
  ◌==◌, Result, find?, ◌⊎◌,
}
use labour_baba_backend.Access.Role.{Actor, customer, worker}
use labour_baba_backend.Booking.Status.{confirmed, in_progress, cancelled, start_work, cancel}
use labour_baba_backend.Booking.Diagram.{Edge}
use labour_baba_backend.Booking.Machine
use labour_baba_backend.Booking.Laws.{booking_allowed_iff}
use labour_baba_backend.Booking.Effect.{booking_transition_succeeds, is_repeat, after, moved}
use labour_baba_backend.Booking.Outcome.{
  IsExpected, GivesReason, IsMoved, IsTransition, booking_transition_moves,
  booking_transition_cases,
}
use labour_baba_backend.Booking.Authority.{MayVerify}
use labour_baba_backend.Booking.Evidence.{HasEvidence, IsSound, run, run-IsSound}
use labour_baba_backend.Booking.Otp.{
  authorize, lock, obstacle, attempt, start, synchronize_job, verify_in_tx, verify_otp,
}
use labour_baba_backend.Booking.Verify.{IsOpen}
use labour_baba_backend.Booking.Table.{rule_for}
use labour_baba_backend.Booking.Status.{normalize_status}
use labour_baba_backend.Access.BookingPolicy.{can_verify_otp}
use labour_baba_backend.Access.Decision.{assert_policy}
use labour_baba_backend.Job
use labour_baba_backend.Store.Failure.{Failure}
use labour_baba_backend.Booking.Guesses.{verify_otp_returns, verify_otp_locked}
use labour_baba_backend.Booking.Attempts.{Call}
use labour_baba_backend.Job.Status.{JobStatus}
use labour_baba_backend.Store.Rows.{BookingRow, JobRow, Db}

abbrev booking : BookingRow
booking = record {
  id = 7;
  job_id = 3;
  requirement_id = 5;
  worker_id = 11;
  customer_id = 12;
  status = confirmed;
  otp_hash = some 1234;
  otp_verified = false;
  otp_expires_at = some 900;
  otp_attempts = some 1;
  otp_locked_at = none;
  otp_consumed_at = none;
  verified_at = none;
  verified_by = none;
  started_at = none;
  completion_requested_at = none;
  completed_at = none;
  confirmed_at = none;
  confirmed_by = none;
  cancelled_at = none;
  cancelled_by = none;
  cancellation_reason = none;
  updated_at = 1;
}

abbrev job : JobRow
job = record {
  id = 3;
  customer_id = 12;
  status = JobStatus.booked;
  dispatch_filled = true;
  updated_at = 1;
  cancelled_at = none;
  cancelled_by = none;
  completed_at = none;
}

abbrev at : BookingRow → Db
at b = record {
  jobs = job ∷ [];
  job_transitions = [];
  bookings = b ∷ [];
  booking_transitions = [];
  requirements = [];
  dispatches = [];
  reviews = [];
  outbox = [];
}

abbrev ask : Machine.TransitionBookingParams
ask = record {
  booking_id = 7;
  action = start_work;
  actor = record { id = some 11; role = worker };
  reason = none;
  expected_status = none;
}

abbrev give_up : Machine.TransitionBookingParams
give_up = record {
  booking_id = 7;
  action = cancel;
  actor = record { id = some 12; role = customer };
  reason = some (text "rain");
  expected_status = some in_progress;
}

-- a hash that is the code
abbrev compare_codes : ℕ → ℕ → Option Bool
compare_codes otp hash = some (otp == hash)

abbrev the_worker : Option Actor
the_worker = some (record { id = 11; role = worker })

booking-HasEvidence :
    (attempts : Option ℕ) → HasEvidence (record booking { otp_attempts = attempts })
booking-HasEvidence attempts = record {
  canonical = refl;
  started = λ h. ground arith;
  handed_over = λ h. ground arith;
  confirmation = λ h. ground arith;
  cancellation = λ h. ground arith;
}

booking-IsSound :
    (attempts : Option ℕ) → IsSound (at (record booking { otp_attempts = attempts })).bookings
booking-IsSound attempts = record {
  keyed = (refl, tt);
  evidence = (booking-HasEvidence attempts, tt);
}

booking_allowed_iff_example :
    (Machine.can_transition confirmed cancel (record { id = some 12; role = customer }) booking
      ≡ Machine.allowed cancelled)
    ↔ (Edge confirmed cancel cancelled × (true ≡ true) × (true ≡ true))
booking_allowed_iff_example =
    booking_allowed_iff confirmed cancel (record { id = some 12; role = customer }) booking
      cancelled refl

booking_transition_moves_example :
    (r : Machine.BookingTransitionResult) × (db' : Db) × (Machine.transition 50 ask (at booking)
      ≡ ok (r, db'))
    × IsTransition 50 ask booking in_progress (at booking) db' r
booking_transition_moves_example =
    booking_transition_moves 50 ask (at booking) booking refl refl Edge.start refl refl (inl refl)
      (inl (λ e. ground arith))

started_result :
    Machine.transition 50 ask (at booking)
    ≡ ok (moved 50 ask in_progress booking, after 50 ask confirmed in_progress (at booking))
started_result =
    booking_transition_succeeds 50 ask (at booking) booking refl refl Edge.start refl refl refl refl

booking_transition_cases_example :
    ((is_repeat start_work confirmed ≡ true)
      × (Machine.updated 50 ask in_progress booking ≡ booking)
      × (after 50 ask confirmed in_progress (at booking) ≡ at booking))
    ⊎ (Edge confirmed start_work in_progress
        × (true ≡ true)
        × (true ≡ true)
        × IsExpected none confirmed
        × GivesReason start_work ask.reason
        × IsTransition 50 ask booking in_progress
            (at booking)
            (after 50 ask confirmed in_progress (at booking))
            (moved 50 ask in_progress booking))
booking_transition_cases_example =
    booking_transition_cases 50 ask (at booking) booking refl refl
      (moved 50 ask in_progress booking) (after 50 ask confirmed in_progress (at booking))
      started_result

run-IsSound_example : IsSound (run ((50, ask) ∷ (60, give_up) ∷ []) (at booking)).bookings
run-IsSound_example =
    run-IsSound ((50, ask) ∷ (60, give_up) ∷ []) (at booking) (booking-IsSound (some 1))

abbrev guess : ℕ → Call
guess otp = record { now = 100; booking_id = 7; worker_id = 11; otp = otp; actor = the_worker }

verify_otp_locked_example :
    (is_ok
        (verify_otp compare_codes 3 100 7 11 1234 the_worker
          (at (record booking { otp_attempts = some 3 }))).0
      ≡ false)
    × ((verify_otp compare_codes 3 100 7 11 1234 the_worker
          (at (record booking { otp_attempts = some 3 }))).1
        ≡ at (record booking { otp_attempts = some 3 }))
verify_otp_locked_example =
    verify_otp_locked compare_codes 3 100 7 11 1234 the_worker
      (at (record booking { otp_attempts = some 3 })) (booking-IsSound (some 3))
      (record booking { otp_attempts = some 3 }) refl refl

abbrev verified : Result Failure (Unit {0}) × Db
verified = verify_otp compare_codes 3 100 7 11 1234 the_worker (at booking)

verified_ok : verified ≡ (ok tt, verified.1)
unfolding verify_otp verify_in_tx lock authorize can_verify_otp assert_policy obstacle
    normalize_status attempt start synchronize_job Machine.transition Machine.transition_from
    Machine.proceed Machine.write Machine.can_transition rule_for Machine.updated
    Job.Machine.transition Job.Machine.transition_from Job.Machine.can_transition
    Job.Machine.target_at Job.Machine.write Job.Machine.updated
verified_ok = refl

verify_otp_returns_example :
    (b : BookingRow) × (find? (Machine.has_id 7) (booking ∷ []) ≡ some b)
    × MayVerify the_worker 11 b
    × IsOpen 3 100 b
    × ((hash : ℕ) × (b.otp_hash ≡ some hash) × (compare_codes 1234 hash ≡ some true))
    × ((b' : BookingRow) × (find? (Machine.has_id 7) verified.1.bookings ≡ some b')
        × IsMoved 100 (record { id = some 11; role = worker }) in_progress b b')
verify_otp_returns_example =
    verify_otp_returns compare_codes 3 100 7 11 1234 the_worker (at booking)
      (booking-IsSound (some 1)) verified.1 verified_ok
