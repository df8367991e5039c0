-- ===== src/Booking/Table.antt =====
-- `BOOKING_TRANSITION_TABLE`, bookingStateMachine.ts §3.
use labour_baba_backend.Base.{Bool, true, false, Option, none, some, List, [], ◌∷◌}
use labour_baba_backend.Access.Role.{Role, customer, worker, admin, system}
use labour_baba_backend.Booking.Status.{
  BookingStatus, confirmed, in_progress, awaiting_confirmation, completed, cancelled, BookingAction,
  start_work, request_completion, confirm_completion, cancel,
}

-- `BookingTransitionRule`; its `guard` is set and read nowhere.
pub record BookingTransitionRule : Type 0 where
  pub target_status : BookingStatus
  pub allowed_roles : List Role
  pub requires_worker_match : Bool
  pub requires_customer_match : Bool

abbrev by_worker : BookingStatus → Option BookingTransitionRule
by_worker target = some (record {
  target_status = target;
  allowed_roles = worker ∷ admin ∷ system ∷ [];
  requires_worker_match = true;
  requires_customer_match = false;
})

abbrev by_customer : BookingStatus → Option BookingTransitionRule
by_customer target = some (record {
  target_status = target;
  allowed_roles = customer ∷ admin ∷ system ∷ [];
  requires_worker_match = false;
  requires_customer_match = true;
})

abbrev cancellation : List Role → Option BookingTransitionRule
cancellation roles = some (record {
  target_status = cancelled;
  allowed_roles = roles;
  requires_worker_match = false;
  requires_customer_match = false;
})

unfoldable pub rule_for : BookingStatus → BookingAction → Option BookingTransitionRule
rule_for confirmed start_work = by_worker in_progress
rule_for confirmed cancel = cancellation (customer ∷ worker ∷ admin ∷ system ∷ [])
rule_for in_progress request_completion = by_worker awaiting_confirmation
rule_for in_progress cancel = cancellation (admin ∷ system ∷ customer ∷ worker ∷ [])
rule_for awaiting_confirmation confirm_completion = by_customer completed
rule_for awaiting_confirmation cancel = cancellation (admin ∷ system ∷ customer ∷ [])
rule_for _ _ = none
