-- ===== src/Requirement/Examples.antt =====
-- The theorems on requirements at concrete inputs.
use labour_baba_backend.Base.{ℕ, ◌≤◌, ◌<◌, true, false, none, some, [], ◌∷◌, ◌≡◌, refl, arith, ok}
use labour_baba_backend.Access.Role.{customer}
use labour_baba_backend.Booking.Status.{BookingStatus}
use labour_baba_backend.Requirement.Status.{
  RequirementStatus, partially_filled, filled, normalize_status,
}
use labour_baba_backend.Requirement.Capacity.{calculate_requirement_capacity, capacity_at}
use labour_baba_backend.Requirement.Machine.{fits_checks, update_requirement}
use labour_baba_backend.Requirement.Reconcile.{whole, update_demand, demand_from, is_other_customer}
use labour_baba_backend.Requirement.Laws.{IsSettled, demand-IsSettled}
use labour_baba_backend.Requirement.Places.{places_taken}
use labour_baba_backend.Store.Rows.{TransitionActor, BookingRow, RequirementRow, Db}

abbrev booking : ℕ → BookingRow
booking i = record {
  id = i;
  job_id = 3;
  requirement_id = 5;
  worker_id = i;
  customer_id = 12;
  status = BookingStatus.confirmed;
  otp_hash = none;
  otp_verified = false;
  otp_expires_at = none;
  otp_attempts = none;
  otp_locked_at = none;
  otp_consumed_at = none;
  verified_at = none;
  verified_by = none;
  started_at = none;
  completion_requested_at = none;
  completed_at = none;
  confirmed_at = none;
  confirmed_by = none;
  cancelled_at = none;
  cancelled_by = none;
  cancellation_reason = none;
  updated_at = 1;
}

abbrev requirement : ℕ → ℕ → RequirementStatus → RequirementRow
requirement needed count s = record {
  id = 5;
  job_id = 3;
  worker_count_needed = needed;
  worker_count_filled = count;
  status = s;
  updated_at = 1;
}

abbrev at : RequirementRow → Db
at r = record {
  jobs = [];
  job_transitions = [];
  bookings = booking 1 ∷ booking 2 ∷ [];
  booking_transitions = [];
  requirements = r ∷ [];
  dispatches = [];
  reviews = [];
  outbox = [];
}

abbrev asked : TransitionActor
asked = record { id = some 12; role = customer }

two_taken : places_taken 5 (booking 1 ∷ booking 2 ∷ []) ≡ 2
unfolding places_taken
two_taken = refl

partial-IsSettled : IsSettled (requirement 3 2 partially_filled)
unfolding normalize_status
partial-IsSettled = record {
  full = λ live. (λ h. ground arith, λ h. ground arith);
  partial = λ h. (omega arith, omega arith);
  vacant = λ h. ground arith;
}

demanded :
    update_demand 9 5 (whole 2) asked (at (requirement 3 2 partially_filled))
    ≡ ok (capacity_at 2 2, at (record (requirement 2 2 filled) { updated_at = 9 }))
unfolding update_demand demand_from calculate_requirement_capacity update_requirement
    normalize_status
demanded = refl

demand-IsSettled_example :
    (0 < 2)
    × (2 ≤ 2)
    × (is_other_customer asked none ≡ false)
    × ((row : RequirementRow) × (some (record (requirement 2 2 filled) { updated_at = 9 })
          ≡ some row)
        × (row.worker_count_needed ≡ 2)
        × (row.worker_count_filled ≡ 2)
        × (fits_checks row ≡ true)
        × IsSettled row)
demand-IsSettled_example =
    demand-IsSettled 9 5 2 asked (at (requirement 3 2 partially_filled))
      {req = requirement 3 2 partially_filled} refl refl partial-IsSettled demanded
