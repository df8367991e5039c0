-- ===== src/Payment/Redelivery.antt =====
-- A webhook event that was handled is not handled again.
use mathlib.Core.Path.{subst}
use labour_baba_backend.Base.{
  ==_refl, Bool-cases, Option-cases, any, Text, text, text_eq, text_eq_refl, any-append, ℕ, ◌≡◌,
  refl, ◌∙◌, inl, inr, Bool, true, false, ◌||◌, Option, none, some, List,
}
use labour_baba_backend.Payment.Table.{
  PaymentRow, EventId, PayDb, of_payment, of_failed_order, of_refund, of_order, same_event_id,
  is_event,
}
use labour_baba_backend.Payment.Webhook.{
  Draws, Message, WebhookEvent, or_other, derive_webhook_event_id, claim_event, captured_in_tx,
  failed_in_tx, refund_in_tx, refund_refused, once, process_payment_captured,
  process_payment_failed, process_refund_processed, process, handle_event,
}
use labour_baba_backend.Payment.Sound.{IsSound}
use labour_baba_backend.Payment.Hooks.{Handles, captured-Handles, failed-Handles}
use labour_baba_backend.Payment.Handled.{refund-Handles}

same_event_id_refl : (i : EventId) → same_event_id i i ≡ true
unfolding same_event_id
same_event_id_refl (of_payment a) = ==_refl a
same_event_id_refl (of_failed_order a) = ==_refl a
same_event_id_refl (of_refund a s) = rw (==_refl a, text_eq_refl s) refl
same_event_id_refl (of_order a s) = rw (==_refl a, text_eq_refl s) refl

-- Two tables of events, the second of which holds what the first does.
abbrev pub Stays : PayDb → PayDb → Type 0
Stays a b =
    (i : EventId)
    → any (is_event i) a.webhook_events ≡ true
    → any (is_event i) b.webhook_events ≡ true

module _ (claims : List ℕ) (d d' : Draws) (i : EventId) (type : Text) where
  once-recorded :
      (body : PayDb → Message × PayDb) (db : PayDb)
      → Handles claims (claim_event d i type db) (body (claim_event d i type db)).1
      → any (is_event i) (once false d i type body db).1.webhook_events ≡ true
  unfolding once
  once-recorded body db h = elim (Bool-cases (any (is_event i) db.webhook_events)) [
    | inl seen ↦ rw (once, seen) seen
    | inr new ↦
        rw (once, new)
          (h.events i
            ∙ any-append (is_event i) db.webhook_events _
            ∙ rw (new, same_event_id_refl i) refl)
  ]

  -- Once again after the first time is not at all.
  once-again :
      (refused refused' : Bool) (body body' : PayDb → Message × PayDb) (db later : PayDb)
      → refused ≡ false
      → Handles claims (claim_event d i type db) (body (claim_event d i type db)).1
      → Stays (once refused d i type body db).1 later
      → (once refused' d' i type body' later).1 ≡ later
  unfolding once
  once-again refused refused' body body' db later passed h stays =
      let stays' = subst (λ b. Stays (once b d i type body db).1 later) passed stays in
      let seen = stays' i (once-recorded body db h) in rw seen refl

-- Whether the write of an event's refund is refused.
unfoldable pub event_refused : WebhookEvent → PayDb → Bool
event_refused e db = elim (or_other e.entity_id e.refund_payment_id) [
  | none ↦ false
  | some n ↦ refund_refused n e.refund_id db
]

-- A webhook event that was handled once, delivered again after anything that loses no record of
-- an event, changes nothing.
pub handled-again :
    (claims : List ℕ) (refunds : List PaymentRow) (now now' : ℕ) (d d' : Draws) (e : WebhookEvent)
    (db later : PayDb)
    → IsSound db.payments claims refunds
    → event_refused e db ≡ false
    → Stays (handle_event now d e db).1 later
    → (handle_event now' d' e later).1 ≡ later
unfolding event_refused handle_event process_payment_captured process_payment_failed
    process_refund_processed
handled-again claims refunds now now' d d' e db later h passed =
    elim (Option-cases (derive_webhook_event_id e.event payment_id e.order_id)) [
      | inl none_ ↦ rw (handle_event, none_) (λ _. refl)
      | inr (i, known) ↦ rw (handle_event, known) (again i)
    ]
  where
    payment_id : Option ℕ
    payment_id = or_other e.entity_id e.refund_payment_id

    captured :
        (i : EventId) (order entity : Option ℕ)
        → Stays (process_payment_captured now d i e order entity db).1 later
        → (process_payment_captured now' d' i e order entity later).1 ≡ later
    captured i none entity s = refl
    captured i (some order) none s = refl
    captured i (some order) (some n) s =
        once-again claims d d' i e.event false false
          (captured_in_tx now d order n e.captured_amount e.captured_currency)
          (captured_in_tx now' d' order n e.captured_amount e.captured_currency) db later refl
          (captured-Handles claims refunds now d order n e.captured_amount e.captured_currency
            (claim_event d i e.event db) h)
          s

    declined :
        (i : EventId) (order : Option ℕ)
        → Stays (process_payment_failed now d i e order db).1 later
        → (process_payment_failed now' d' i e order later).1 ≡ later
    declined i none s = refl
    declined i (some order) s =
        once-again claims d d' i e.event false false (failed_in_tx now d order)
          (failed_in_tx now' d' order) db later refl
          (failed-Handles claims refunds now d order (claim_event d i e.event db) h) s

    returned :
        (i : EventId) (entity : Option ℕ)
        → elim entity [ none ↦ false | some n ↦ refund_refused n e.refund_id db ] ≡ false
        → Stays (process_refund_processed now d i e entity db).1 later
        → (process_refund_processed now' d' i e entity later).1 ≡ later
    returned i none free s = refl
    returned i (some n) free s =
        once-again claims d d' i e.event (refund_refused n e.refund_id db)
          (refund_refused n e.refund_id later) (refund_in_tx now d n e.refund_id e.refund_amount)
          (refund_in_tx now' d' n e.refund_id e.refund_amount) db later free
          (refund-Handles claims refunds now d n e.refund_id e.refund_amount
            (claim_event d i e.event db) h)
          s

    again :
        (i : EventId)
        → Stays (process now d i e payment_id db).1 later
        → (process now' d' i e payment_id later).1 ≡ later
    again i = elim (Bool-cases (text_eq e.event (text "payment.captured"))) [
      | inl yes_ ↦ rw (process, yes_) (captured i e.order_id payment_id)
      | inr no_ ↦ elim (Bool-cases (text_eq e.event (text "payment.failed"))) [
        | inl yes_ ↦ rw (process, no_, yes_) (declined i e.order_id)
        | inr none_ ↦
            elim (Bool-cases (
              text_eq e.event (text "refund.processed")
              || text_eq e.event (text "refund.created"))) [
                | inl yes_ ↦ rw (process, no_, none_, yes_) (returned i payment_id passed)
                | inr other ↦ rw (process, no_, none_, other) (λ _. refl)
              ]
      ]
    ]
