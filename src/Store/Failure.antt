-- ===== src/Store/Failure.antt =====
-- What a service throws: the error classes of the lifecycle modules with the fields that other
-- code reads, `TypeError` for a property read off undefined, and the HTTP status of each.
use labour_baba_backend.Base.{ℕ}
use labour_baba_backend.Access.Decision.{AuthorizationError}
use labour_baba_backend.Job.Status.{JobStatus, JobAction}
use labour_baba_backend.Booking.Status.{BookingStatus, BookingAction}
use labour_baba_backend.Requirement.Status.{RequirementStatus, RequirementAction}

pub data Failure : Type 0 where
  job_not_found job_state_conflict job_forbidden : Failure
  job_invalid_transition : JobStatus → JobAction → Failure
  booking_not_found booking_state_conflict booking_forbidden : Failure
  booking_invalid_transition : BookingStatus → BookingAction → Failure
  otp_invalid otp_expired otp_locked otp_already_used otp_wrong_state : Failure
  requirement_not_found requirement_capacity_exceeded requirement_worker_count_invalid : Failure
  requirement_forbidden : Failure
  requirement_invalid_transition : RequirementStatus → RequirementAction → Failure
  authorization : AuthorizationError → Failure
  check_violation : Failure  -- the database refuses a row (error 23514)
  type_error : Failure

-- `statusCode`; an error without one is answered with 500.
unfoldable pub status_code : Failure → ℕ
status_code job_not_found = 404
status_code job_state_conflict = 409
status_code job_forbidden = 403
status_code (job_invalid_transition _ _) = 400
status_code booking_not_found = 404
status_code booking_state_conflict = 409
status_code booking_forbidden = 403
status_code (booking_invalid_transition _ _) = 400
status_code otp_invalid = 400
status_code otp_expired = 400
status_code otp_locked = 400
status_code otp_already_used = 409
status_code otp_wrong_state = 400
status_code requirement_not_found = 404
status_code requirement_capacity_exceeded = 409
status_code requirement_worker_count_invalid = 400
status_code requirement_forbidden = 403
status_code (requirement_invalid_transition _ _) = 400
status_code (authorization e) = e.status_code
status_code check_violation = 500
status_code type_error = 500
