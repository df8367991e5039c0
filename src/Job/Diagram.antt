-- ===== src/Job/Diagram.antt =====
-- The job lifecycle as a diagram, and who may move along it, described by role instead of by
-- status: the specification that the transition table is held against.
use labour_baba_backend.Base.{Bool, true, false}
use labour_baba_backend.Access.Role.{Role, customer, worker, admin, system, dispatch_worker}
use labour_baba_backend.Job.Status.{
  JobStatus, open_, dispatching, booked, in_progress, completed, cancelled, JobAction,
  start_dispatch, mark_booked, reopen_dispatch, start_work, complete, cancel,
}

pub data Edge : JobStatus → JobAction → JobStatus → Type 0 where
  dispatch : Edge open_ start_dispatch dispatching
  fill_at_once : Edge open_ mark_booked booked
  fill : Edge dispatching mark_booked booked
  begin : Edge booked start_work in_progress
  begin_early : Edge dispatching start_work in_progress
  reopen : Edge booked reopen_dispatch dispatching
  reopen_started : Edge in_progress reopen_dispatch dispatching
  finish : Edge booked complete completed
  finish_started : Edge in_progress complete completed
  withdraw : Edge open_ cancel cancelled
  withdraw_dispatching : Edge dispatching cancel cancelled
  withdraw_booked : Edge booked cancel cancelled
  withdraw_started : Edge in_progress cancel cancelled

-- Administrators and the system may take every edge; the others the ones of their part.
abbrev pub role_may : Role → JobAction → JobStatus → Bool
role_may admin _ _ = true
role_may system _ _ = true
role_may dispatch_worker start_dispatch _ = true
role_may dispatch_worker mark_booked _ = true
role_may dispatch_worker reopen_dispatch _ = true
role_may worker mark_booked _ = true
role_may worker start_work _ = true
role_may customer complete _ = true
role_may customer cancel in_progress = false
role_may customer cancel _ = true
role_may _ _ _ = false
