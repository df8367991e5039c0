-- ===== src/Payment/Machine.antt =====
-- `transitionPaymentStatus` and the notices of payments, src/features/payment/paymentServices.ts.
use labour_baba_backend.Base.{
  ◌==◌, if◌then◌else◌, find?, update_where, count_where, Result, ok, err, ℕ, Bool, not, ◌&&◌,
  Option, none, some, List,
}
use labour_baba_backend.Access.Role.{Role, customer, worker}
use labour_baba_backend.Payment.Status.{
  PaymentStatus, PaymentError, payment_invalid_state_transition, same_status, is_legal,
}
use labour_baba_backend.Payment.Table.{PaymentRow, PayBooking, PayDb, has_payment_id}
use labour_baba_backend.Outbox.Table.{derived, EventType, payment}
use labour_baba_backend.Outbox.Service.{CreateOutboxEventDto, create_outbox_event}

abbrev pub is_at : ℕ → PaymentStatus → PaymentRow → Bool
is_at id from p = p.id == id && same_status p.status from

-- `transitionPaymentStatus`; `more` writes the metadata
unfoldable pub transition_payment_status :
    ℕ
    → ℕ
    → PaymentStatus
    → PaymentStatus
    → (PaymentRow → PaymentRow)
    → List PaymentRow
    → Result PaymentError (Bool × List PaymentRow)
transition_payment_status now id from to more payments =
    if not (is_legal from to)
    then err payment_invalid_state_transition
    else ok (
      not (count_where (is_at id from) payments == 0),
      update_where (is_at id from) (λ p. more (record p { status = to; updated_at = now }))
          payments,
    )

abbrev pub with_payments : List PaymentRow → PayDb → PayDb
with_payments payments db = record db { payments = payments }

abbrev pub update_payment : ℕ → (PaymentRow → PaymentRow) → PayDb → PayDb
update_payment id f db = with_payments (update_where (has_payment_id id) f db.payments) db

abbrev pub booking_of : ℕ → PayDb → Option PayBooking
booking_of id db = find? (λ b. b.id == id) db.bookings

-- `createOutboxEvent` with the key `${event}:payment:${paymentId}:${recipient}`
abbrev pub notice : EventType → ℕ → Role → ℕ → CreateOutboxEventDto
notice event id role recipient = record {
  event_type = event;
  aggregate_type = payment;
  aggregate_id = id;
  recipient_type = role;
  recipient_id = recipient;
  idempotency_key = some (
      derived (record {
        event_type = event;
        aggregate_type = payment;
        aggregate_id = id;
        recipient_id = recipient;
      }));
}

abbrev pub enqueue : ℕ → ℕ → CreateOutboxEventDto → PayDb → PayDb
enqueue now outbox_id dto db = record db {
  outbox = (create_outbox_event now outbox_id dto db.outbox).1;
}

abbrev pub notify_customer : ℕ → ℕ → EventType → PaymentRow → PayDb → PayDb
notify_customer now outbox_id event p db = elim (booking_of p.booking_id db) [
  | none ↦ db
  | some b ↦ enqueue now outbox_id (notice event p.id customer b.customer_id) db
]

abbrev pub notify_worker : ℕ → ℕ → EventType → PaymentRow → PayDb → PayDb
notify_worker now outbox_id event p db = elim (booking_of p.booking_id db) [
  | none ↦ db
  | some b ↦ enqueue now outbox_id (notice event p.id worker b.worker_id) db
]
