-- ===== src/Booking/Diagram.antt =====
-- The booking lifecycle as a diagram, who may move along it by role, and whose booking it must
-- be: the specification of bookingStateMachine.ts.
use labour_baba_backend.Base.{Bool, true, false, is_id}
use labour_baba_backend.Access.Role.{Role, customer, worker, admin, system}
use labour_baba_backend.Booking.Status.{
  BookingStatus, confirmed, in_progress, awaiting_confirmation, completed, cancelled, BookingAction,
  start_work, request_completion, confirm_completion, cancel,
}
use labour_baba_backend.Store.Rows.{TransitionActor, BookingRow}

pub data Edge : BookingStatus → BookingAction → BookingStatus → Type 0 where
  start : Edge confirmed start_work in_progress
  request : Edge in_progress request_completion awaiting_confirmation
  confirm : Edge awaiting_confirmation confirm_completion completed
  call_off : Edge confirmed cancel cancelled
  break_off : Edge in_progress cancel cancelled
  reject : Edge awaiting_confirmation cancel cancelled

-- Administrators and the system may take every edge. A worker starts, asks for completion, and
-- cancels until then; a customer confirms and cancels.
abbrev pub role_may : Role → BookingAction → BookingStatus → Bool
role_may admin _ _ = true
role_may system _ _ = true
role_may worker start_work _ = true
role_may worker request_completion _ = true
role_may worker cancel confirmed = true
role_may worker cancel in_progress = true
role_may customer confirm_completion _ = true
role_may customer cancel _ = true
role_may _ _ _ = false

-- A worker works on the bookings that are theirs, and a customer confirms their own; a cancellation
-- is left to the policies of the callers.
abbrev party_by : Role → BookingAction → TransitionActor → BookingRow → Bool
party_by worker start_work a b = is_id a.id b.worker_id
party_by worker request_completion a b = is_id a.id b.worker_id
party_by customer confirm_completion a b = is_id a.id b.customer_id
party_by _ _ _ _ = true

abbrev pub is_party : TransitionActor → BookingAction → BookingRow → Bool
is_party a action b = party_by a.role action a b
