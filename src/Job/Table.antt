-- ===== src/Job/Table.antt =====
-- `JOB_TRANSITION_TABLE`, jobStateMachine.ts §3.
use labour_baba_backend.Base.{Option, none, some, List, [], ◌∷◌}
use labour_baba_backend.Access.Role.{Role, customer, worker, admin, system, dispatch_worker}
use labour_baba_backend.Job.Status.{
  JobStatus, open_, dispatching, booked, in_progress, completed, cancelled, JobAction,
  start_dispatch, mark_booked, reopen_dispatch, start_work, complete, cancel,
}

-- `TransitionRule`; its `requiresOwnership` and `guard` are read nowhere.
pub record TransitionRule : Type 0 where
  pub target_status : JobStatus
  pub allowed_roles : List Role

abbrev dispatchers : List Role
dispatchers = admin ∷ system ∷ dispatch_worker ∷ []

abbrev bookers : List Role
bookers = admin ∷ system ∷ dispatch_worker ∷ worker ∷ []

abbrev starters : List Role
starters = admin ∷ system ∷ worker ∷ []

abbrev owners : List Role
owners = customer ∷ admin ∷ system ∷ []

abbrev rule : JobStatus → List Role → Option TransitionRule
rule target roles = some (record { target_status = target; allowed_roles = roles })

abbrev open_rules : JobAction → Option TransitionRule
open_rules start_dispatch = rule dispatching dispatchers
open_rules mark_booked = rule booked bookers
open_rules cancel = rule cancelled owners
open_rules _ = none

abbrev dispatching_rules : JobAction → Option TransitionRule
dispatching_rules mark_booked = rule booked bookers
dispatching_rules start_work = rule in_progress starters
dispatching_rules cancel = rule cancelled owners
dispatching_rules _ = none

abbrev booked_rules : JobAction → Option TransitionRule
booked_rules start_work = rule in_progress starters
booked_rules reopen_dispatch = rule dispatching dispatchers
booked_rules complete = rule completed owners
booked_rules cancel = rule cancelled owners
booked_rules _ = none

abbrev in_progress_rules : JobAction → Option TransitionRule
in_progress_rules reopen_dispatch = rule dispatching dispatchers
in_progress_rules complete = rule completed owners
in_progress_rules cancel = rule cancelled (admin ∷ system ∷ [])
in_progress_rules _ = none

abbrev no_rules : JobAction → Option TransitionRule
no_rules _ = none

-- The table by status; `none` where it has no entry for the string.
unfoldable pub rules_for : JobStatus → Option (JobAction → Option TransitionRule)
rules_for open_ = some open_rules
rules_for dispatching = some dispatching_rules
rules_for booked = some booked_rules
rules_for in_progress = some in_progress_rules
rules_for completed = some no_rules
rules_for cancelled = some no_rules
rules_for (JobStatus.other _) = none
