-- ===== src/Store/Rows.antt =====
-- The tables (prisma/schema.prisma) with the columns that the modelled code reads or writes.
-- Identifiers, hashes and timestamps are numbers: they are only compared. A `reason` keeps its
-- wording without the identifiers that the code splices into it; `metadata` is left out.
use labour_baba_backend.Base.{ℕ, Bool, Option, List, Text, some, none}
use labour_baba_backend.Access.Role.{Role}
use labour_baba_backend.Job.Status.{JobStatus, JobAction}
use labour_baba_backend.Booking.Status.{BookingStatus, BookingAction}
use labour_baba_backend.Requirement.Status.{RequirementStatus}

-- The actor of a transition: `id` is absent or empty for the system.
pub record TransitionActor : Type 0 where
  pub id : Option ℕ
  pub role : Role

-- `actor.id || String(actor.role)`
pub data Signature : Type 0 where
  of_id : ℕ → Signature
  of_role : Role → Signature

abbrev pub signature : TransitionActor → Signature
signature a = elim a.id [ some i ↦ of_id i | none ↦ of_role a.role ]

pub record JobRow : Type 0 where
  pub id : ℕ
  pub customer_id : ℕ
  pub status : JobStatus
  pub dispatch_filled : Bool  -- `dispatch_status` is 'FILLED'
  pub updated_at : ℕ
  pub cancelled_at : Option ℕ
  pub cancelled_by : Option Signature
  pub completed_at : Option ℕ

pub record JobTransitionRow : Type 0 where
  pub job_id : ℕ
  pub from_status : JobStatus
  pub to_status : JobStatus
  pub action : JobAction
  pub actor_type : Role
  pub actor_id : Option ℕ
  pub reason : Option Text

pub record BookingRow : Type 0 where
  pub id : ℕ
  pub job_id : ℕ
  pub requirement_id : ℕ
  pub worker_id : ℕ
  pub customer_id : ℕ
  pub status : BookingStatus
  pub otp_hash : Option ℕ
  pub otp_verified : Bool
  pub otp_expires_at : Option ℕ
  pub otp_attempts : Option ℕ
  pub otp_locked_at : Option ℕ
  pub otp_consumed_at : Option ℕ
  pub verified_at : Option ℕ
  pub verified_by : Option Signature
  pub started_at : Option ℕ
  pub completion_requested_at : Option ℕ
  pub completed_at : Option ℕ
  pub confirmed_at : Option ℕ
  pub confirmed_by : Option Signature
  pub cancelled_at : Option ℕ
  pub cancelled_by : Option Signature
  pub cancellation_reason : Option Text
  pub updated_at : ℕ

pub record BookingTransitionRow : Type 0 where
  pub booking_id : ℕ
  pub from_status : BookingStatus
  pub to_status : BookingStatus
  pub action : BookingAction
  pub actor_type : Role
  pub actor_id : Option ℕ
  pub reason : Option Text

pub record RequirementRow : Type 0 where
  pub id : ℕ
  pub job_id : ℕ
  pub worker_count_needed : ℕ
  pub worker_count_filled : ℕ
  pub status : RequirementStatus
  pub updated_at : ℕ

pub data DispatchStatus : Type 0 where
  pending accepted declined timeout expired cancelled : DispatchStatus

pub record DispatchRow : Type 0 where
  pub requirement_id : ℕ
  pub worker_id : ℕ
  pub wave_number : Option ℕ
  pub status : DispatchStatus
  pub expires_at : Option ℕ
  pub responded_at : Option ℕ

pub record ReviewRow : Type 0 where
  pub booking_id : ℕ
  pub worker_id : ℕ
  pub customer_id : ℕ
  pub rating : ℕ
  pub comment : Text

pub data OutboxEvent : Type 0 where
  booking_confirmed booking_completed booking_cancelled : OutboxEvent

-- The `idempotency_key` is built from the event, the aggregate and the recipient.
pub record OutboxRow : Type 0 where
  pub event_type : OutboxEvent
  pub aggregate_id : ℕ
  pub recipient_type : Role
  pub recipient_id : ℕ

pub record Db : Type 0 where
  pub jobs : List JobRow
  pub job_transitions : List JobTransitionRow
  pub bookings : List BookingRow
  pub booking_transitions : List BookingTransitionRow
  pub requirements : List RequirementRow
  pub dispatches : List DispatchRow
  pub reviews : List ReviewRow
  pub outbox : List OutboxRow
