-- ===== src/Job/Examples.antt =====
-- The theorems on jobs at concrete inputs.
use labour_baba_backend.Base.{false, none, some, [], ◌∷◌, ◌≡◌, refl, text, is_ok, find?}
use labour_baba_backend.Access.Role.{customer, admin}
use labour_baba_backend.Job.Status.{JobStatus, open_, completed, start_dispatch, cancel}
use labour_baba_backend.Job.Machine.{
  TransitionJobParams, allowed, can_transition, transition, has_id, trail_of,
}
use labour_baba_backend.Job.History.{run, replay, trail_replays, terminal_refuses}
use labour_baba_backend.Store.Rows.{JobRow, Db}

abbrev job : JobStatus → JobRow
job s = record {
  id = 3;
  customer_id = 12;
  status = s;
  dispatch_filled = false;
  updated_at = 1;
  cancelled_at = none;
  cancelled_by = none;
  completed_at = none;
}

abbrev at : JobStatus → Db
at s = record {
  jobs = job s ∷ [];
  job_transitions = [];
  bookings = [];
  booking_transitions = [];
  requirements = [];
  dispatches = [];
  reviews = [];
  outbox = [];
}

abbrev send : TransitionJobParams
send = record {
  job_id = 3;
  action = start_dispatch;
  actor = record { id = some 1; role = admin };
  reason = none;
  expected_status = some open_;
}

abbrev withdraw : TransitionJobParams
withdraw = record {
  job_id = 3;
  action = cancel;
  actor = record { id = some 12; role = customer };
  reason = some (text "rain");
  expected_status = none;
}

trail_replays_example :
    (job' : JobRow) × (find?
        (has_id 3)
        (run ((50, send) ∷ (60, withdraw) ∷ (70, send) ∷ []) (at open_)).jobs
      ≡ some job')
    × (replay open_ (trail_of 3 (run ((50, send) ∷ (60, withdraw) ∷ (70, send) ∷ []) (at open_)))
        ≡ some job'.status)
trail_replays_example =
    trail_replays ((50, send) ∷ (60, withdraw) ∷ (70, send) ∷ []) (at open_) 3 {job = job open_}
      (refl, tt) refl refl

terminal_refuses_example : is_ok (transition 50 withdraw (at completed)) ≡ false
terminal_refuses_example =
    terminal_refuses 50 withdraw (at completed) {job = job completed} refl refl refl

withdraw_allowed :
    can_transition
      (JobStatus.other (text "POSTED"))
      cancel
      (record { id = some 12; role = customer })
      12
    ≡ allowed
unfolding can_transition
withdraw_allowed = refl
