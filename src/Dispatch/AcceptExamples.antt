-- ===== src/Dispatch/AcceptExamples.antt =====
-- The theorem on acceptances at a concrete input.
use labour_baba_backend.Job
use labour_baba_backend.Requirement.Machine as Requirements
use labour_baba_backend.Base.{
  ◌==◌, find?, Result, ok, ℕ, ◌≡◌, refl, false, none, some, List, [], ◌∷◌, ◌++◌, map, arith,
}
use labour_baba_backend.Job.Status.{JobStatus}
use labour_baba_backend.Job.Table.{rules_for}
use labour_baba_backend.Requirement.Status.{RequirementStatus}
use labour_baba_backend.Store.Rows.{
  JobRow, BookingRow, RequirementRow, DispatchStatus, DispatchRow, Db,
}
use labour_baba_backend.Dispatch.Accept.{
  AcceptError, AcceptDraw, is_pending, preflight, check_job_complete, confirmed_booking, close_full,
  reserve, accept_in_tx, accept_dispatch,
}
use labour_baba_backend.Dispatch.Accepted.{IsAccepted, accept_dispatch_returns}
use labour_baba_backend.Dispatch.Decline.{QueuedWave, DispatchDb, decline_dispatch}
use labour_baba_backend.Dispatch.Overwrite.{decline_overwrites}
use labour_baba_backend.Dispatch.Examples.{configuration}
use labour_baba_backend.Requirement.Machine as Requirements
use labour_baba_backend.Requirement.Machine as Requirements

abbrev job : JobRow
job = record {
  id = 3;
  customer_id = 12;
  status = JobStatus.dispatching;
  dispatch_filled = false;
  updated_at = 1;
  cancelled_at = none;
  cancelled_by = none;
  completed_at = none;
}

abbrev requirement : RequirementRow
requirement = record {
  id = 5;
  job_id = 3;
  worker_count_needed = 1;
  worker_count_filled = 0;
  status = RequirementStatus.dispatching;
  updated_at = 1;
}

abbrev offer : ℕ → DispatchRow
offer worker_id = record {
  requirement_id = 5;
  worker_id = worker_id;
  wave_number = some 1;
  status = DispatchStatus.pending;
  expires_at = some 90;
  responded_at = none;
}

abbrev db : Db
db = record {
  jobs = job ∷ [];
  job_transitions = [];
  bookings = [];
  booking_transitions = [];
  requirements = requirement ∷ [];
  dispatches = offer 11 ∷ offer 13 ∷ [];
  reviews = [];
  outbox = [];
}

abbrev drawn : AcceptDraw
drawn = record { booking_id = 7; otp_hash = 1234 }

abbrev result : Result AcceptError BookingRow × Db
result = accept_dispatch 50 600 drawn 5 11 db db

-- The other worker's dispatch expires and the job is booked.
accepted_once : map (λ d. is_pending d.status) result.1.dispatches ≡ false ∷ false ∷ []
unfolding accept_dispatch preflight accept_in_tx reserve close_full check_job_complete
    Requirements.update_requirement Job.Machine.transition Job.Machine.transition_from
    Job.Machine.can_transition Job.Machine.write Job.Machine.updated Job.Machine.target_at rules_for
accepted_once = refl

accepted_once_result :
    accept_dispatch 50 600 drawn 5 11 db db
    ≡ (ok (confirmed_booking 50 600 drawn requirement job 11), result.1)
unfolding accept_dispatch preflight accept_in_tx reserve close_full check_job_complete
    Requirements.update_requirement Job.Machine.transition Job.Machine.transition_from
    Job.Machine.can_transition Job.Machine.write Job.Machine.updated Job.Machine.target_at rules_for
accepted_once_result = refl

accept_dispatch_returns_example :
    IsAccepted 50 5 11 db (confirmed_booking 50 600 drawn requirement job 11) result.1
accept_dispatch_returns_example =
    accept_dispatch_returns 50 600 drawn 5 11 db db result.1
      (confirmed_booking 50 600 drawn requirement job 11) (requirement, refl, refl)
      accepted_once_result

abbrev full_requirement : RequirementRow
full_requirement = record requirement { worker_count_filled = 1; status = RequirementStatus.filled }

abbrev full_state : DispatchDb
full_state = record {
  db = record db {
    requirements = full_requirement ∷ [];
    dispatches = record (offer 13) { status = DispatchStatus.expired } ∷ [];
  };
  workers = record { id = 13; decline_count = 0 } ∷ [];
  waves = [];
  queue = [];
}

abbrev append : QueuedWave → List QueuedWave → List QueuedWave
append w queue = queue ++ w ∷ []

decline_overwrites_example :
    find?
      (λ r. r.id == 5)
      (decline_dispatch configuration append 60 5 13 full_state).1.db.requirements
    ≡ some (record full_requirement {
      status = RequirementStatus.no_workers_available;
      updated_at = 60;
    })
decline_overwrites_example =
    decline_overwrites configuration append 60 5 13 full_state {req = full_requirement} refl refl
      refl refl refl (ground arith)
