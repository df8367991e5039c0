-- ===== src/Booking/Status.antt =====
-- The booking statuses and actions, bookingStateMachine.ts §1. A status column holds a string: a
-- constructor for each canonical string, `other` for any further text, with `other []` for null
-- and the empty text.
use labour_baba_backend.Base.{
  Bool, true, false, Text, text, text_eq, to_upper, trim, is_blank, if◌then◌else◌,
}

pub data BookingStatus : Type 0 where
  confirmed in_progress awaiting_confirmation completed cancelled : BookingStatus
  other : Text → BookingStatus

pub data BookingAction : Type 0 where
  create start_work request_completion confirm_completion cancel : BookingAction

-- `a === b`
abbrev pub same_status : BookingStatus → BookingStatus → Bool
same_status confirmed confirmed = true
same_status in_progress in_progress = true
same_status awaiting_confirmation awaiting_confirmation = true
same_status completed completed = true
same_status cancelled cancelled = true
same_status (other s) (other t) = text_eq s t
same_status _ _ = false

-- the tests of `normalizeStatus` on the upper-case text
abbrev of_upper : Text → BookingStatus
of_upper t =
    if text_eq t (text "CONFIRMED")
    then confirmed
    else if text_eq t (text "IN_PROGRESS")
    then in_progress
    else if text_eq t (text "AWAITING_CONFIRMATION")
    then awaiting_confirmation
    else if text_eq t (text "COMPLETED")
    then completed
    else if text_eq t (text "CANCELLED")
    then cancelled
    else other t

-- `normalizeStatus`; the canonical strings are their own upper case.
unfoldable pub normalize_status : BookingStatus → BookingStatus
normalize_status (other t) = if is_blank t then confirmed else of_upper (trim (to_upper t))
normalize_status s = s

-- `isTerminal`
unfoldable pub is_terminal : BookingStatus → Bool
unfolding normalize_status
is_terminal s = elim (normalize_status s) [ completed ↦ true | cancelled ↦ true | _ ↦ false ]

-- The strings that the `chk_booking_status` constraint of the database admits.
abbrev pub is_canonical : BookingStatus → Bool
is_canonical (other _) = false
is_canonical _ = true
