-- ===== src/Payment/Webhook.antt =====
-- The webhook events of the payment provider, src/features/payment/paymentServices.ts. Each is
-- processed in one transaction, in which only the unique event id and the unique refund id can
-- refuse a write.
use labour_baba_backend.Base.{
  ◌==◌, if◌then◌else◌, is_some, any, find?, update_where, Text, text, text_eq, starts_with,
  to_upper, is_blank, ok, err, ℕ, Bool, false, not, ◌&&◌, ◌||◌, Option, none, some, [], ◌∷◌, ◌++◌,
}
use labour_baba_backend.Payment.Status.{
  pending, completed, failed, refunded, same_status, is_refundable,
}
use labour_baba_backend.Payment.Table.{
  PaymentRow, EventId, WebhookEventRow, PayDb, of_payment, of_failed_order, of_refund, of_order,
  event_processing, event_processed, event_failed, has_order, has_capture, is_event, other_refund,
}
use labour_baba_backend.Payment.Machine.{
  transition_payment_status, with_payments, update_payment, notify_customer, notify_worker,
}
use labour_baba_backend.Outbox.Table.{payment_completed, payment_failed, refund_completed}

-- The identifiers that the database gives new rows.
pub record Draws : Type 0 where
  pub event : ℕ
  pub first_notice : ℕ
  pub second_notice : ℕ

-- The `message` of the answer.
pub data Message : Type 0 where
  no_stable_identity acknowledged missing_identifiers : Message
  no_matching_payment amount_mismatch currency_mismatch : Message
  payment_captured already_completed : Message
  payment_declined already_transitioned refund_done duplicate : Message

-- What the parsed body says; an absent and an empty field are both `none`.
pub record WebhookEvent : Type 0 where
  pub event : Text
  pub order_id : Option ℕ
  pub entity_id : Option ℕ
  pub captured_amount : Option ℕ
  pub captured_currency : Option Text
  pub refund_payment_id : Option ℕ
  pub refund_id : Option ℕ
  pub refund_amount : Option ℕ

-- `a || b`
abbrev pub or_other : Option ℕ → Option ℕ → Option ℕ
or_other none b = b
or_other (some a) b = some a

-- `a || b` where zero is falsy too
abbrev pub or_amount : Option ℕ → Option ℕ → Option ℕ
or_amount none b = b
or_amount (some a) b = if a == 0 then b else some a

unfoldable pub derive_webhook_event_id : Text → Option ℕ → Option ℕ → Option EventId
derive_webhook_event_id event entity order =
    if text_eq event (text "payment.captured") && is_some entity
    then map_id of_payment entity
    else if text_eq event (text "payment.failed") && is_some order
    then map_id of_failed_order order
    else if starts_with event (text "refund.") && is_some entity
    then map_id (λ n. of_refund n event) entity
    else map_id (λ n. of_order n event) order
  where
    map_id : (ℕ → EventId) → Option ℕ → Option EventId
    map_id f none = none
    map_id f (some n) = some (f n)

-- 1. the claim of the event, refused by `UNIQUE(provider, providerEventId)`
abbrev pub claim_event : Draws → EventId → Text → PayDb → PayDb
claim_event d i type db = record db {
  webhook_events =
      db.webhook_events
      ++ record {
        id = d.event;
        provider_event_id = i;
        event_type = type;
        status = event_processing;
        failure_reason = none;
        processed_at = none;
      }
        ∷ [];
}

abbrev pub set_event : ℕ → (WebhookEventRow → WebhookEventRow) → PayDb → PayDb
set_event id f db = record db {
  webhook_events = update_where (λ e. e.id == id) f db.webhook_events;
}

abbrev pub fail_event : Draws → Text → PayDb → PayDb
fail_event d reason db =
    set_event d.event (λ e. record e { status = event_failed; failure_reason = some reason }) db

abbrev pub finish_event : ℕ → Draws → PayDb → PayDb
finish_event now d db =
    set_event d.event (λ e. record e { status = event_processed; processed_at = some now }) db

abbrev pub quarantine : ℕ → Text → PaymentRow → PaymentRow
quarantine now reason p = record p { quarantine_reason = some reason; updated_at = now }

abbrev pub amount_differs : Option ℕ → Option ℕ → Bool
amount_differs (some a) (some b) = not (a == b)
amount_differs _ _ = false

abbrev pub currency_differs : Option Text → Text → Bool
currency_differs none _ = false
currency_differs (some c) d =
    not (is_blank c) && (not (is_blank d) && not (text_eq (to_upper c) (to_upper d)))

-- 5. to 7. for the payment that was found
unfoldable pub capture : ℕ → Draws → ℕ → PaymentRow → PayDb → Message × PayDb
capture now d payment_id p db =
    elim (transition_payment_status now p.id pending completed
      (λ q. record q { razorpay_payment_id = some payment_id }) db.payments) [
        | err _ ↦ (duplicate, db)  -- not reached: the transition is legal
        | ok (moved, payments) ↦
            if moved
            then (
              payment_captured,
              finish_event now d (
                  notify_worker now d.second_notice payment_completed p (
                    notify_customer now d.first_notice payment_completed p
                      (with_payments payments db))),
            )
            else (already_completed, finish_event now d (with_payments payments db))
      ]

-- 3. to 7., on the payment as it was read: what follows the unlocked `findUnique`
abbrev pub capture_read :
    ℕ → Draws → ℕ → Option ℕ → Option Text → PaymentRow → PayDb → Message × PayDb
capture_read now d payment_id amount currency p db =
    if amount_differs amount p.amount
    then (
      amount_mismatch,
      update_payment p.id (quarantine now (text "Amount mismatch"))
          (fail_event d (text "Amount mismatch") db),
    )
    else if currency_differs currency p.currency
    then (
      currency_mismatch,
      update_payment p.id (quarantine now (text "Currency mismatch"))
          (fail_event d (text "Currency mismatch") db),
    )
    else capture now d payment_id p db

-- The transaction of `processPaymentCaptured` after the claim of the event, with no commit of
-- another transaction between its read and its writes.
unfoldable pub captured_in_tx : ℕ → Draws → ℕ → ℕ → Option ℕ → Option Text → PayDb → Message × PayDb
captured_in_tx now d order_id payment_id amount currency db =
    elim (find? (has_order order_id) db.payments) [
      | none ↦ (no_matching_payment, fail_event d (text "No matching local payment") db)
      | some p ↦ capture_read now d payment_id amount currency p db
    ]

unfoldable pub failed_in_tx : ℕ → Draws → ℕ → PayDb → Message × PayDb
failed_in_tx now d order_id db = elim (find? (has_order order_id) db.payments) [
  | none ↦ (no_matching_payment, fail_event d (text "No matching local payment") db)
  | some p ↦ elim (transition_payment_status now p.id pending failed (λ q. q) db.payments) [
    | err _ ↦ (already_transitioned, finish_event now d db)
    | ok (moved, payments) ↦
        if moved
        then (
          payment_declined,
          finish_event now d
              (notify_customer now d.first_notice payment_failed p (with_payments payments db)),
        )
        else (already_transitioned, finish_event now d (with_payments payments db))
  ]
]

abbrev pub refund_row : ℕ → Option ℕ → Option ℕ → PaymentRow → PaymentRow → PaymentRow
refund_row now refund_id amount read p = record p {
  status = refunded;
  razorpay_refund_id = or_other refund_id read.razorpay_refund_id;
  refund_amount = or_amount amount read.refund_amount;
  refund_status = some (text "processed");
  updated_at = now;
}

abbrev pub enrich_row : ℕ → Option ℕ → Option ℕ → PaymentRow → PaymentRow → PaymentRow
enrich_row now refund_id amount read p = record p {
  razorpay_refund_id = refund_id;
  refund_amount = or_amount amount read.refund_amount;
  refund_status = some (text "processed");
  updated_at = now;
}

unfoldable pub refund_in_tx : ℕ → Draws → ℕ → Option ℕ → Option ℕ → PayDb → Message × PayDb
refund_in_tx now d payment_id refund_id amount db =
    elim (find? (has_capture payment_id) db.payments) [
      | none ↦ (no_matching_payment, fail_event d (text "No matching payment for refund") db)
      | some p ↦ (
        refund_done,
        finish_event now d (
            if is_refundable p.status
            then notify_customer now d.first_notice refund_completed p
                (update_payment p.id (refund_row now refund_id amount p) db)
            else if same_status p.status refunded
                && (not (is_some p.razorpay_refund_id) && is_some refund_id)
            then update_payment p.id (enrich_row now refund_id amount p) db
            else db),
      )
    ]

-- Whether the refund's write is refused, another payment having the refund's identifier.
unfoldable pub refund_refused : ℕ → Option ℕ → PayDb → Bool
refund_refused payment_id none db = false
refund_refused payment_id (some refund_id) db = elim (find? (has_capture payment_id) db.payments) [
  | none ↦ false
  | some p ↦
      (is_refundable p.status
        || (same_status p.status refunded && not (is_some p.razorpay_refund_id)))
      && any (other_refund p.id refund_id) db.payments
]

-- `$transaction` and its `catch`: a claim that is refused, the event being recorded, or a later
-- write that is refused rolls back and counts as a duplicate.
unfoldable pub once :
    Bool → Draws → EventId → Text → (PayDb → Message × PayDb) → PayDb → Message × PayDb
once refused d i type body db =
    if any (is_event i) db.webhook_events || refused
    then (duplicate, db)
    else body (claim_event d i type db)

unfoldable pub process_payment_captured :
    ℕ → Draws → EventId → WebhookEvent → Option ℕ → Option ℕ → PayDb → Message × PayDb
process_payment_captured now d i e none payment_id db = (missing_identifiers, db)
process_payment_captured now d i e (some order) none db = (missing_identifiers, db)
process_payment_captured now d i e (some order) (some n) db =
    once false d i e.event (captured_in_tx now d order n e.captured_amount e.captured_currency) db

unfoldable pub process_payment_failed :
    ℕ → Draws → EventId → WebhookEvent → Option ℕ → PayDb → Message × PayDb
process_payment_failed now d i e none db = (missing_identifiers, db)
process_payment_failed now d i e (some order) db =
    once false d i e.event (failed_in_tx now d order) db

unfoldable pub process_refund_processed :
    ℕ → Draws → EventId → WebhookEvent → Option ℕ → PayDb → Message × PayDb
process_refund_processed now d i e none db = (missing_identifiers, db)
process_refund_processed now d i e (some n) db =
    once (refund_refused n e.refund_id db) d i e.event
      (refund_in_tx now d n e.refund_id e.refund_amount) db

-- Step 5: by event type.
abbrev pub process : ℕ → Draws → EventId → WebhookEvent → Option ℕ → PayDb → Message × PayDb
process now d i e payment_id db =
    if text_eq e.event (text "payment.captured")
    then process_payment_captured now d i e e.order_id payment_id db
    else if text_eq e.event (text "payment.failed")
    then process_payment_failed now d i e e.order_id db
    else if text_eq e.event (text "refund.processed") || text_eq e.event (text "refund.created")
    then process_refund_processed now d i e payment_id db
    else (acknowledged, db)

-- Steps 4 and 5, on the parsed body.
unfoldable pub handle_event : ℕ → Draws → WebhookEvent → PayDb → Message × PayDb
handle_event now d e db =
    let payment_id = or_other e.entity_id e.refund_payment_id in
    elim (derive_webhook_event_id e.event payment_id e.order_id) [
      | none ↦ (no_stable_identity, db)
      | some i ↦ process now d i e payment_id db
    ]
