-- ===== src/Booking/Machine.antt =====
-- `bookingStateService`, bookingStateMachine.ts §4.
use labour_baba_backend.Base.{
  or_null, ℕ, Bool, true, false, not, ◌&&◌, ◌||◌, Option, none, some, [], ◌∷◌, ◌++◌, Text, trim,
  is_blank, Result, ok, err, find?, update_where, is_id, ◌==◌, if◌then◌else◌,
}
use labour_baba_backend.Access.Role.{customer, worker, admin, system, same_role, role_in}
use labour_baba_backend.Booking.Status.{
  BookingStatus, in_progress, awaiting_confirmation, completed, cancelled, BookingAction,
  request_completion, confirm_completion, cancel, same_status, normalize_status,
}
use labour_baba_backend.Booking.Table.{BookingTransitionRule, rule_for}
use labour_baba_backend.Store.Rows.{
  TransitionActor, BookingRow, BookingTransitionRow, Db, signature,
}
use labour_baba_backend.Store.Failure.{
  Failure, booking_not_found, booking_state_conflict, booking_forbidden, booking_invalid_transition,
}

-- What `canTransition` answers; the refusals by how their wording begins.
pub data Verdict : Type 0 where
  allowed : BookingStatus → Verdict
  illegal role_refused forbidden : Verdict

abbrev pub is_privileged : TransitionActor → Bool
is_privileged a = same_role a.role admin || same_role a.role system

-- `booking.worker_id !== actor.id` for an actor that the rule wants to be the worker
abbrev pub is_other_worker : BookingTransitionRule → TransitionActor → BookingRow → Bool
is_other_worker r a b =
    r.requires_worker_match && (same_role a.role worker && not (is_id a.id b.worker_id))

abbrev pub is_other_customer : BookingTransitionRule → TransitionActor → BookingRow → Bool
is_other_customer r a b =
    r.requires_customer_match && (same_role a.role customer && not (is_id a.id b.customer_id))

abbrev rule_check : BookingTransitionRule → TransitionActor → BookingRow → Verdict
rule_check r a b =
    if not (role_in r.allowed_roles a.role || is_privileged a)
    then role_refused
    else if not (is_privileged a) && (is_other_worker r a b || is_other_customer r a b)
    then forbidden
    else allowed r.target_status

unfoldable pub can_transition :
    BookingStatus → BookingAction → TransitionActor → BookingRow → Verdict
can_transition s action a b = elim (rule_for (normalize_status s) action) [
  | none ↦ illegal
  | some r ↦ rule_check r a b
]

pub record TransitionBookingParams : Type 0 where
  pub booking_id : ℕ
  pub action : BookingAction
  pub actor : TransitionActor
  pub reason : Option Text
  pub expected_status : Option BookingStatus

pub record BookingTransitionResult : Type 0 where
  pub booking : BookingRow
  pub previous_status : BookingStatus
  pub current_status : BookingStatus
  pub is_idempotent : Bool

-- `updateData`, by the target status
unfoldable pub updated : ℕ → TransitionBookingParams → BookingStatus → BookingRow → BookingRow
updated now p target row =
    let b = record row { status = target; updated_at = now } in
    elim target [
      | in_progress ↦ record b {
        started_at = some now;
        otp_verified = true;
        otp_consumed_at = some now;
        verified_at = some now;
        verified_by = some (signature p.actor);
      }
      | awaiting_confirmation ↦ record b { completion_requested_at = some now }
      | completed ↦ record b {
        completed_at = some now;
        confirmed_at = some now;
        confirmed_by = some (signature p.actor);
      }
      | cancelled ↦ record b {
        cancelled_at = some now;
        cancelled_by = some (signature p.actor);
        cancellation_reason = elim p.reason [ none ↦ none | some t ↦ some (trim t) ];
      }
      | _ ↦ b
    ]

abbrev pub audit : TransitionBookingParams → BookingStatus → BookingStatus → BookingTransitionRow
audit p current target = record {
  booking_id = p.booking_id;
  from_status = current;
  to_status = target;
  action = p.action;
  actor_type = p.actor.role;
  actor_id = p.actor.id;
  reason = or_null p.reason;
}

abbrev pub has_id : ℕ → BookingRow → Bool
has_id n b = b.id == n

-- Steps 5 to 7.
unfoldable pub write :
    ℕ
    → TransitionBookingParams
    → BookingStatus
    → BookingStatus
    → BookingRow
    → Db
    → BookingTransitionResult × Db
write now p current target row db = (
  record {
    booking = updated now p target row;
    previous_status = current;
    current_status = target;
    is_idempotent = false;
  },
  record db {
    bookings = update_where (has_id p.booking_id) (updated now p target) db.bookings;
    booking_transitions = db.booking_transitions ++ audit p current target ∷ [];
  },
)

-- `!reason || !reason.trim()`
abbrev pub lacks_reason : Option Text → Bool
lacks_reason none = true
lacks_reason (some t) = is_blank (trim t)

abbrev pub is_cancel : BookingAction → Bool
is_cancel cancel = true
is_cancel _ = false

abbrev pub is_expected : Option BookingStatus → BookingStatus → Bool
is_expected none _ = true
is_expected (some s) current = same_status current s

-- Steps 3 to 7.
unfoldable pub proceed :
    ℕ
    → TransitionBookingParams
    → BookingStatus
    → BookingRow
    → Db
    → Result Failure (BookingTransitionResult × Db)
proceed now p current row db =
    if not (is_expected p.expected_status current)
    then err booking_state_conflict
    else elim (can_transition current p.action p.actor row) [
      | illegal ↦ err (booking_invalid_transition current p.action)
      | role_refused ↦ err booking_forbidden
      | forbidden ↦ err booking_forbidden
      | allowed target ↦
          if is_cancel p.action && lacks_reason p.reason
          then err (booking_invalid_transition current p.action)
          else ok (write now p current target row db)
    ]

-- Step 2: a repeated confirmation or request returns the row as it is.
abbrev repeated :
    Bool → BookingStatus → BookingRow → Db → Result Failure (BookingTransitionResult × Db)
repeated is_other s row db =
    if is_other
    then err booking_forbidden
    else ok (
      record { booking = row; previous_status = s; current_status = s; is_idempotent = true },
      db,
    )

unfoldable pub transition_from :
    ℕ
    → TransitionBookingParams
    → BookingAction
    → BookingStatus
    → BookingRow
    → Db
    → Result Failure (BookingTransitionResult × Db)
transition_from now p confirm_completion completed row db =
    repeated (same_role p.actor.role customer && not (is_id p.actor.id row.customer_id)) completed
      row db
transition_from now p request_completion awaiting_confirmation row db =
    repeated (same_role p.actor.role worker && not (is_id p.actor.id row.worker_id))
      awaiting_confirmation row db
transition_from now p _ current row db = proceed now p current row db

unfoldable pub transition :
    ℕ → TransitionBookingParams → Db → Result Failure (BookingTransitionResult × Db)
transition now p db = elim (find? (has_id p.booking_id) db.bookings) [
  | none ↦ err booking_not_found
  | some row ↦ transition_from now p p.action (normalize_status row.status) row db
]
