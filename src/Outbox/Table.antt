-- ===== src/Outbox/Table.antt =====
-- The tables `notification_outbox` and `notification_delivery` (prisma/schema.prisma) with the
-- columns that the outbox service compares or sets; payload and correlation id are left out.
use labour_baba_backend.Base.{ℕ, Bool, true, false, ◌&&◌, Option, List, Text, ◌==◌}
use labour_baba_backend.Base.{text_eq}
use labour_baba_backend.Access.Role.{Role}

pub data EventType : Type 0 where
  payment_completed payment_failed refund_completed : EventType
  named : Text → EventType

pub data AggregateType : Type 0 where
  payment booking job : AggregateType

pub data OutboxStatus : Type 0 where
  pending processing sent failed : OutboxStatus

pub data ChannelStatus : Type 0 where
  channel_pending channel_sent channel_failed failed_permanent : ChannelStatus

pub data Channel : Type 0 where
  socket fcm : Channel

-- `${eventType}:${aggregateType}:${aggregateId}:${recipientId}`
pub record DerivedKey : Type 0 where
  pub event_type : EventType
  pub aggregate_type : AggregateType
  pub aggregate_id : ℕ
  pub recipient_id : ℕ

-- An idempotency key: one of the derived form, whoever built it, or any other string.
pub data Key : Type 0 where
  derived : DerivedKey → Key
  custom : Text → Key

pub record OutboxRecord : Type 0 where
  pub id : ℕ
  pub event_type : EventType
  pub aggregate_type : AggregateType
  pub aggregate_id : ℕ
  pub recipient_type : Role
  pub recipient_id : ℕ
  pub status : OutboxStatus
  pub socket_status : ChannelStatus
  pub socket_sent_at : Option ℕ
  pub socket_error : Option Text
  pub fcm_status : ChannelStatus
  pub fcm_sent_at : Option ℕ
  pub fcm_error : Option Text
  pub attempts : ℕ
  pub max_attempts : ℕ
  pub available_at : ℕ
  pub processed_at : Option ℕ
  pub failed_at : Option ℕ
  pub last_error : Option Text
  pub idempotency_key : Key
  pub acknowledged_at : Option ℕ
  pub created_at : ℕ
  pub updated_at : ℕ

pub record DeliveryRow : Type 0 where
  pub event_id : ℕ
  pub recipient_id : ℕ
  pub channel : Channel
  pub status : ChannelStatus
  pub attempt_count : ℕ
  pub last_error : Option Text
  pub delivered_at : Option ℕ
  pub updated_at : ℕ

pub record OutboxDb : Type 0 where
  pub events : List OutboxRecord
  pub deliveries : List DeliveryRow

abbrev pub same_event : EventType → EventType → Bool
same_event payment_completed payment_completed = true
same_event payment_failed payment_failed = true
same_event refund_completed refund_completed = true
same_event (named s) (named t) = text_eq s t
same_event _ _ = false

abbrev pub same_aggregate : AggregateType → AggregateType → Bool
same_aggregate payment payment = true
same_aggregate booking booking = true
same_aggregate job job = true
same_aggregate _ _ = false

abbrev pub same_channel : Channel → Channel → Bool
same_channel socket socket = true
same_channel fcm fcm = true
same_channel _ _ = false

abbrev pub same_derived : DerivedKey → DerivedKey → Bool
same_derived k l =
    same_event k.event_type l.event_type
    && (same_aggregate k.aggregate_type l.aggregate_type
        && (k.aggregate_id == l.aggregate_id && k.recipient_id == l.recipient_id))

unfoldable pub same_key : Key → Key → Bool
same_key (derived k) (derived l) = same_derived k l
same_key (custom s) (custom t) = text_eq s t
same_key _ _ = false

abbrev pub is_pending : OutboxStatus → Bool
is_pending pending = true
is_pending _ = false

abbrev pub is_processing : OutboxStatus → Bool
is_processing processing = true
is_processing _ = false

abbrev pub is_sent : OutboxStatus → Bool
is_sent sent = true
is_sent _ = false

abbrev pub is_failed : OutboxStatus → Bool
is_failed failed = true
is_failed _ = false

-- `["PROCESSING", "PENDING"].includes(status)`
abbrev pub is_open : OutboxStatus → Bool
is_open pending = true
is_open processing = true
is_open _ = false
