-- ===== src/Job/Machine.antt =====
-- `jobStateService`, jobStateMachine.ts §4. The clients of the database are the real ones: each
-- query that the code first looks for is there.
use labour_baba_backend.Base.{
  or_null, ℕ, Bool, true, false, not, ◌&&◌, ◌||◌, Option, none, some, List, [], ◌∷◌, ◌++◌, Text,
  text, includes, Result, ok, err, find?, update_where, count_where, filter_where, ◌==◌,
  if◌then◌else◌,
}
use labour_baba_backend.Access.Role.{Role, role_text, customer, same_role, role_in}
use labour_baba_backend.Job.Status.{
  JobStatus, JobAction, start_dispatch, mark_booked, start_work, reopen_dispatch, complete, cancel,
  same_status, or_open, normalized,
}
use labour_baba_backend.Job.Table.{TransitionRule, rules_for}
use labour_baba_backend.Store.Rows.{TransitionActor, JobRow, JobTransitionRow, Db, signature}
use labour_baba_backend.Store.Failure.{
  Failure, job_not_found, job_state_conflict, job_forbidden, job_invalid_transition, type_error,
}

-- The reasons that `canTransition` gives.
pub data Reason : Type 0 where
  not_owner : Reason
  unknown_status : JobStatus → Reason
  action_not_allowed : JobAction → JobStatus → Reason
  role_not_authorized : Role → JobAction → Reason

pub data Verdict : Type 0 where
  allowed : Verdict
  denied : Reason → Verdict

-- `role === CUSTOMER && jobCustomerId && actor.id && jobCustomerId !== actor.id`
abbrev pub is_stranger : TransitionActor → ℕ → Bool
is_stranger a owner =
    same_role a.role customer && elim a.id [ some i ↦ not (owner == i) | none ↦ false ]

abbrev role_check : TransitionRule → JobAction → TransitionActor → Verdict
role_check r action a =
    if role_in r.allowed_roles a.role then allowed else denied (role_not_authorized a.role action)

abbrev rule_check : Option TransitionRule → JobStatus → JobAction → TransitionActor → Verdict
rule_check none s action a = denied (action_not_allowed action s)
rule_check (some r) s action a = role_check r action a

abbrev table_check :
    Option (JobAction → Option TransitionRule) → JobStatus → JobAction → TransitionActor → Verdict
table_check none s action a = denied (unknown_status s)
table_check (some rules) s action a = rule_check (rules action) s action a

unfoldable pub can_transition : JobStatus → JobAction → TransitionActor → ℕ → Verdict
unfolding rules_for
can_transition s action a owner =
    if is_stranger a owner
    then denied not_owner
    else table_check (rules_for (normalized s)) (normalized s) action a

-- `reason?.includes("Forbidden") || reason?.includes("not own")`: the wording holds neither but
-- in the ownership refusal; what is spliced into it may be a role or a status of any spelling.
abbrev says_forbidden : Text → Bool
says_forbidden t = includes t (text "Forbidden") || includes t (text "not own")

abbrev status_words : JobStatus → Text
status_words (JobStatus.other t) = t
status_words _ = []

abbrev reads_forbidden : Reason → Bool
reads_forbidden not_owner = true
reads_forbidden (unknown_status s) = says_forbidden (status_words s)
reads_forbidden (action_not_allowed _ s) = says_forbidden (status_words s)
reads_forbidden (role_not_authorized r _) = says_forbidden (role_text r)

unfoldable pub refusal : JobStatus → JobAction → Reason → Failure
refusal s action r = if reads_forbidden r then job_forbidden else job_invalid_transition s action

pub record TransitionJobParams : Type 0 where
  pub job_id : ℕ
  pub action : JobAction
  pub actor : TransitionActor
  pub reason : Option Text
  pub expected_status : Option JobStatus

pub record TransitionResult : Type 0 where
  pub previous_status : JobStatus
  pub current_status : JobStatus

-- `updateData`
unfoldable pub updated : ℕ → TransitionJobParams → JobStatus → JobRow → JobRow
updated now p target job =
    let j = record job { status = target; updated_at = now } in
    elim p.action [
      | cancel ↦ record j { cancelled_at = some now; cancelled_by = some (signature p.actor) }
      | complete ↦ record j { completed_at = some now }
      | _ ↦ j
    ]

abbrev pub audit : TransitionJobParams → JobStatus → JobStatus → JobTransitionRow
audit p current target = record {
  job_id = p.job_id;
  from_status = current;
  to_status = target;
  action = p.action;
  actor_type = p.actor.role;
  actor_id = p.actor.id;
  reason = or_null p.reason;
}

-- `where: { id, status: currentStatus }`
abbrev pub is_unchanged : TransitionJobParams → JobStatus → JobRow → Bool
is_unchanged p current j = j.id == p.job_id && same_status j.status current

-- Steps 5 and 6: the compare-and-set update and the audit record.
unfoldable pub write :
    ℕ → TransitionJobParams → JobStatus → JobStatus → Db → Result Failure (TransitionResult × Db)
unfolding updated
write now p current target db =
    if count_where (is_unchanged p current) db.jobs == 0
    then err job_state_conflict
    else ok (
      record { previous_status = current; current_status = target },
      record db {
        jobs = update_where (is_unchanged p current) (updated now p target) db.jobs;
        job_transitions = db.job_transitions ++ audit p current target ∷ [];
      },
    )

-- `JOB_TRANSITION_TABLE[currentStatus]![action]!.targetStatus`
abbrev target_of : Option TransitionRule → Option JobStatus
target_of none = none
target_of (some r) = some r.target_status

unfoldable pub target_at : JobStatus → JobAction → Option JobStatus
unfolding rules_for
target_at s action = elim (rules_for s) [ none ↦ none | some rules ↦ target_of (rules action) ]

-- `!expectedCurrentStatus || currentStatus === expectedCurrentStatus`
abbrev pub is_expected : Option JobStatus → JobStatus → Bool
is_expected none _ = true
is_expected (some s) current = same_status current s

-- Steps 2 to 6, on the row that step 1 has locked.
unfoldable pub transition_from :
    ℕ → TransitionJobParams → JobRow → Db → Result Failure (TransitionResult × Db)
transition_from now p job db =
    let current = or_open job.status in
    if not (is_expected p.expected_status current)
    then err job_state_conflict
    else elim (can_transition current p.action p.actor job.customer_id) [
      | denied r ↦ err (refusal current p.action r)
      | allowed ↦ elim (target_at current p.action) [
        | none ↦ err type_error
        | some target ↦ write now p current target db
      ]
    ]

abbrev pub has_id : ℕ → JobRow → Bool
has_id n j = j.id == n

unfoldable pub transition : ℕ → TransitionJobParams → Db → Result Failure (TransitionResult × Db)
transition now p db = elim (find? (has_id p.job_id) db.jobs) [
  | none ↦ err job_not_found
  | some job ↦ transition_from now p job db
]

-- The audit records of a job in the order in which they were written. `getTransitionHistory` reads
-- the same records by `created_at`, the same order on a clock that is not set back.
unfoldable pub trail_of : ℕ → Db → List JobTransitionRow
trail_of job_id db = filter_where (λ t. t.job_id == job_id) db.job_transitions

abbrev actions : List JobAction
actions = start_dispatch ∷ mark_booked ∷ start_work ∷ reopen_dispatch ∷ complete ∷ cancel ∷ []

abbrev keys : List JobAction → (JobAction → Option TransitionRule) → List JobAction
keys [] rules = []
keys (a ∷ rest) rules = elim (rules a) [ none ↦ keys rest rules | some _ ↦ a ∷ keys rest rules ]

-- `getLegalActions`: the table lists the actions of every status in this order.
unfoldable pub get_legal_actions : JobStatus → List JobAction
unfolding rules_for
get_legal_actions s = elim (rules_for s) [ none ↦ [] | some rules ↦ keys actions rules ]
