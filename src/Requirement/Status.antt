-- ===== src/Requirement/Status.antt =====
-- The requirement statuses and actions, requirementStateMachine.ts §1. A status column holds a
-- string: a constructor for each canonical string, `other` for any further text, with `other []`
-- for null and the empty text.
use labour_baba_backend.Base.{
  Bool, true, false, Text, text, text_eq, to_upper, is_blank, if◌then◌else◌,
}

pub data RequirementStatus : Type 0 where
  open_ dispatching partially_filled filled no_workers_available cancelled : RequirementStatus
  other : Text → RequirementStatus

pub data RequirementAction : Type 0 where
  create start_dispatch record_acceptance exhaust_dispatch release_slot cancel : RequirementAction
  update_demand : RequirementAction

-- `normalizeStatus`: a text that names no status, even in other letters, is OPEN.
unfoldable pub normalize_status : RequirementStatus → RequirementStatus
normalize_status (other t) =
    let upper = to_upper t in
    if is_blank t
    then open_
    else if text_eq upper (text "FILLED")
    then filled
    else if text_eq upper (text "DISPATCHING")
    then dispatching
    else if text_eq upper (text "PARTIALLY_FILLED")
    then partially_filled
    else if text_eq upper (text "NO_WORKERS_AVAILABLE")
    then no_workers_available
    else if text_eq upper (text "CANCELLED")
    then cancelled
    else open_
normalize_status s = s

-- `isTerminal`
unfoldable pub is_terminal : RequirementStatus → Bool
unfolding normalize_status
is_terminal s = elim (normalize_status s) [ cancelled ↦ true | _ ↦ false ]
