-- ===== src/Job/Status.antt =====
-- The job statuses and actions, jobStateMachine.ts §1. A status column holds a string: a
-- constructor for each string that the program names, `other` for any further text, with
-- `other []` for null and the empty text.
use labour_baba_backend.Base.{Bool, true, false, ◌||◌, Text, text, text_eq, is_blank, if◌then◌else◌}

pub data JobStatus : Type 0 where
  open_ dispatching booked in_progress completed cancelled : JobStatus
  other : Text → JobStatus

pub data JobAction : Type 0 where
  create start_dispatch mark_booked reopen_dispatch start_work complete cancel : JobAction

-- `a === b`
abbrev pub same_status : JobStatus → JobStatus → Bool
same_status open_ open_ = true
same_status dispatching dispatching = true
same_status booked booked = true
same_status in_progress in_progress = true
same_status completed completed = true
same_status cancelled cancelled = true
same_status (other s) (other t) = text_eq s t
same_status _ _ = false

-- `status || JobStatus.OPEN`
abbrev pub or_open : JobStatus → JobStatus
or_open (other t) = if is_blank t then open_ else other t
or_open s = s

-- The normalisation in `canTransition`: "POSTED" and a missing status are OPEN.
abbrev pub normalized : JobStatus → JobStatus
normalized (other t) = if text_eq t (text "POSTED") || is_blank t then open_ else other t
normalized s = s

-- `TERMINAL_JOB_STATES` and `isTerminal`
abbrev pub is_terminal : JobStatus → Bool
is_terminal completed = true
is_terminal cancelled = true
is_terminal _ = false

-- The strings that the `chk_job_status` constraint of the database admits.
abbrev pub is_canonical : JobStatus → Bool
is_canonical (other _) = false
is_canonical _ = true
