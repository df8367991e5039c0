-- ===== src/Payment/Table.antt =====
-- The tables behind payments (prisma/schema.prisma): `payment`, `payment_webhook_event`, the outbox
-- and what the service reads of a booking.
use labour_baba_backend.Base.{◌==◌, is_id, Text, text_eq, ℕ, Bool, false, not, ◌&&◌, Option, List}
use labour_baba_backend.Payment.Status.{PaymentStatus}
use labour_baba_backend.Outbox.Table.{OutboxDb}

pub record PaymentRow : Type 0 where
  pub id : ℕ
  pub booking_id : ℕ
  pub razorpay_order_id : Option ℕ
  pub razorpay_payment_id : Option ℕ
  pub razorpay_refund_id : Option ℕ
  pub status : PaymentStatus
  pub amount : Option ℕ  -- in paise
  pub currency : Text
  pub refund_amount : Option ℕ
  pub refund_status : Option Text
  pub refund_reason : Option Text
  pub quarantine_reason : Option Text
  pub updated_at : ℕ

-- What `deriveWebhookEventId` builds. The provider's identifiers hold no colon, so the four forms
-- differ.
pub data EventId : Type 0 where
  of_payment : ℕ → EventId
  of_failed_order : ℕ → EventId  -- `${orderId}:failed`
  of_refund : ℕ → Text → EventId  -- `${paymentEntityId}:${eventType}`
  of_order : ℕ → Text → EventId  -- `${orderId}:${eventType}`

unfoldable pub same_event_id : EventId → EventId → Bool
same_event_id (of_payment a) (of_payment b) = a == b
same_event_id (of_failed_order a) (of_failed_order b) = a == b
same_event_id (of_refund a s) (of_refund b t) = a == b && text_eq s t
same_event_id (of_order a s) (of_order b t) = a == b && text_eq s t
same_event_id _ _ = false

pub data WebhookEventStatus : Type 0 where
  event_processing event_processed event_failed : WebhookEventStatus

pub record WebhookEventRow : Type 0 where
  pub id : ℕ
  pub provider_event_id : EventId
  pub event_type : Text
  pub status : WebhookEventStatus
  pub failure_reason : Option Text
  pub processed_at : Option ℕ

-- A booking with the rate of its requirement.
pub record PayBooking : Type 0 where
  pub id : ℕ
  pub customer_id : ℕ
  pub worker_id : ℕ
  pub status : Text
  pub rate_per_day : Option ℕ

pub record PayDb : Type 0 where
  pub payments : List PaymentRow
  pub webhook_events : List WebhookEventRow
  pub bookings : List PayBooking
  pub outbox : OutboxDb

abbrev pub has_payment_id : ℕ → PaymentRow → Bool
has_payment_id n p = p.id == n

-- `findUnique({ where: { razorpay_order_id } })`
abbrev pub has_order : ℕ → PaymentRow → Bool
has_order n p = is_id p.razorpay_order_id n

-- `findFirst({ where: { razorpay_payment_id } })`
abbrev pub has_capture : ℕ → PaymentRow → Bool
has_capture n p = is_id p.razorpay_payment_id n

abbrev pub is_event : EventId → WebhookEventRow → Bool
is_event i e = same_event_id i e.provider_event_id

-- Another payment with a refund's identifier, which is unique.
abbrev pub other_refund : ℕ → ℕ → PaymentRow → Bool
other_refund id refund_id p = not (p.id == id) && is_id p.razorpay_refund_id refund_id
