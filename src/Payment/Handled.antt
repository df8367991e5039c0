-- ===== src/Payment/Handled.antt =====
-- The handling of a webhook event as a whole: it keeps the payments sound, records the event, and
-- does nothing for an event that is recorded.
use labour_baba_backend.Base.{
  ◌==◌, Bool-cases, Option-cases, is_some, is_id, any, find?, update_where, All, find?-sound, Text,
  text, text_eq, All-map, everywhere, found_only, any-append, ℕ, ◌≡◌, refl, ap, ◌∙◌, inl, inr, Bool,
  true, false, not, ◌&&◌, ◌||◌, Option, none, some, List, arith,
}
use labour_baba_backend.Payment.Status.{refunded, same_status, is_refundable}
use labour_baba_backend.Payment.Table.{
  PaymentRow, EventId, PayDb, has_payment_id, has_capture, is_event,
}
use labour_baba_backend.Payment.Machine.{update_payment, notify_customer}
use labour_baba_backend.Payment.Webhook.{
  Draws, Message, WebhookEvent, or_other, derive_webhook_event_id, claim_event, finish_event,
  captured_in_tx, failed_in_tx, refund_row, enrich_row, refund_in_tx, refund_refused, once,
  process_payment_captured, process_payment_failed, process_refund_processed, process, handle_event,
}
use labour_baba_backend.Payment.Sound.{IsSound}
use labour_baba_backend.Payment.Writes.{Written, unchanged, written, captured-Written}
use labour_baba_backend.Payment.Hooks.{
  Handles, customer-Aside, then-Aside, Aside-Handles, written-Handles, finish-Aside, fail-Aside,
  captured-Handles, failed-Handles,
}
use labour_baba_backend.Outbox.Table.{refund_completed}

pub refund-Handles :
    (claims : List ℕ) (refunds : List PaymentRow) (now : ℕ) (d : Draws) (n : ℕ)
    (refund_id amount : Option ℕ) (db : PayDb)
    → IsSound db.payments claims refunds
    → Handles claims db (refund_in_tx now d n refund_id amount db).1
unfolding refund_in_tx
refund-Handles claims refunds now d n refund_id amount db h =
    elim (Option-cases (find? (has_capture n) db.payments)) [
      | inl missing ↦
          rw (refund_in_tx, missing)
            (Aside-Handles claims db _ (fail-Aside d (text "No matching payment for refund") db))
      | inr (p, found) ↦
          let back = update_payment p.id (refund_row now refund_id amount p) db in
          let told = notify_customer now d.first_notice refund_completed p back in
          let rich = update_payment p.id (enrich_row now refund_id amount p) db in
          elim (Bool-cases (is_refundable p.status)) [
            | inl open_ ↦
                rw (refund_in_tx, found, open_)
                  (written-Handles claims db (finish_event now d told) back.payments
                    (captured-Written claims refunds db.payments (has_payment_id p.id)
                      (refund_row now refund_id amount p) h (λ _. refl) (λ _. refl) (λ _. refl)
                      (λ _. refl) (captured p found))
                    (then-Aside (customer-Aside now d.first_notice refund_completed p back)
                      (finish-Aside now d told)))
            | inr closed ↦
                elim (Bool-cases (
                  same_status p.status refunded
                  && (not (is_some p.razorpay_refund_id) && is_some refund_id))) [
                    | inl bare ↦
                        rw (refund_in_tx, found, closed, bare)
                          (written-Handles claims db (finish_event now d rich) rich.payments
                            (enrich p found) (finish-Aside now d rich))
                    | inr full ↦
                        rw (refund_in_tx, found, closed, full)
                          (Aside-Handles claims db _ (finish-Aside now d db))
                  ]
          ]
    ]
  where
    captured :
        (p : PaymentRow)
        → find? (has_capture n) db.payments ≡ some p
        → All (λ r. (r.id == p.id) ≡ true → is_some r.razorpay_payment_id ≡ true) db.payments
    captured p found =
        All-map db.payments
          (λ r same i.
            ap (λ r. is_some r.razorpay_payment_id) (same i)
            ∙ known p.razorpay_payment_id (find?-sound (has_capture n) db.payments found))
          (found_only (λ r. r.id) (has_capture n) db.payments h.ids found)
      where
        known : (o : Option ℕ) → is_id o n ≡ true → is_some o ≡ true
        known o h = ground arith

    enrich :
        (p : PaymentRow)
        → find? (has_capture n) db.payments ≡ some p
        → Written claims db.payments
            (update_where (has_payment_id p.id) (enrich_row now refund_id amount p) db.payments)
    enrich p found =
        written (has_payment_id p.id) (enrich_row now refund_id amount p) (λ _. refl)
          (everywhere db.payments (λ r _ e. record { evidence = e; kept = λ m k. k }))
          (everywhere claims (λ c. everywhere db.payments (λ r _ _ u. u)))

-- What handling an event does.
pub record Handled (claims : List ℕ) (a b : PayDb) : Type 0 where
  pub payments : Written claims a.payments b.payments
  pub stays :
      (i : EventId)
      → any (is_event i) a.webhook_events ≡ true
      → any (is_event i) b.webhook_events ≡ true

idle-Handled : (claims : List ℕ) (a : PayDb) → Handled claims a a
idle-Handled claims a = record { payments = unchanged; stays = λ i h. h }

once-Handled :
    (claims : List ℕ) (refused : Bool) (d : Draws) (i : EventId) (type : Text)
    (body : PayDb → Message × PayDb) (db : PayDb)
    → Handles claims (claim_event d i type db) (body (claim_event d i type db)).1
    → Handled claims db (once refused d i type body db).1
unfolding once
once-Handled claims refused d i type body db h =
    elim (Bool-cases (any (is_event i) db.webhook_events || refused)) [
      | inl seen ↦ rw (once, seen) (idle-Handled claims db)
      | inr new ↦
          rw (once, new)
            (record {
              payments = h.payments;
              stays =
                  λ j was. h.events j ∙ any-append (is_event j) db.webhook_events _ ∙ rw was refl;
            })
    ]

pub event-Handled :
    (claims : List ℕ) (refunds : List PaymentRow) (now : ℕ) (d : Draws) (e : WebhookEvent)
    (db : PayDb)
    → IsSound db.payments claims refunds
    → Handled claims db (handle_event now d e db).1
unfolding handle_event process_payment_captured process_payment_failed process_refund_processed
event-Handled claims refunds now d e db h =
    elim (Option-cases (derive_webhook_event_id e.event payment_id e.order_id)) [
      | inl none_ ↦ rw (handle_event, none_) (idle-Handled claims db)
      | inr (i, known) ↦ rw (handle_event, known) (processed i)
    ]
  where
    payment_id : Option ℕ
    payment_id = or_other e.entity_id e.refund_payment_id

    captured :
        (i : EventId) (order entity : Option ℕ)
        → Handled claims db (process_payment_captured now d i e order entity db).1
    captured i none entity = idle-Handled claims db
    captured i (some order) none = idle-Handled claims db
    captured i (some order) (some n) =
        once-Handled claims false d i e.event
          (captured_in_tx now d order n e.captured_amount e.captured_currency) db
          (captured-Handles claims refunds now d order n e.captured_amount e.captured_currency
            (claim_event d i e.event db) h)

    declined :
        (i : EventId) (order : Option ℕ)
        → Handled claims db (process_payment_failed now d i e order db).1
    declined i none = idle-Handled claims db
    declined i (some order) =
        once-Handled claims false d i e.event (failed_in_tx now d order) db
          (failed-Handles claims refunds now d order (claim_event d i e.event db) h)

    returned :
        (i : EventId) (entity : Option ℕ)
        → Handled claims db (process_refund_processed now d i e entity db).1
    returned i none = idle-Handled claims db
    returned i (some n) =
        once-Handled claims (refund_refused n e.refund_id db) d i e.event
          (refund_in_tx now d n e.refund_id e.refund_amount) db
          (refund-Handles claims refunds now d n e.refund_id e.refund_amount
            (claim_event d i e.event db) h)

    processed : (i : EventId) → Handled claims db (process now d i e payment_id db).1
    processed i = elim (Bool-cases (text_eq e.event (text "payment.captured"))) [
      | inl yes_ ↦ rw (process, yes_) (captured i e.order_id payment_id)
      | inr no_ ↦ elim (Bool-cases (text_eq e.event (text "payment.failed"))) [
        | inl yes_ ↦ rw (process, no_, yes_) (declined i e.order_id)
        | inr none_ ↦
            elim (Bool-cases (
              text_eq e.event (text "refund.processed")
              || text_eq e.event (text "refund.created"))) [
                | inl yes_ ↦ rw (process, no_, none_, yes_) (returned i payment_id)
                | inr other ↦ rw (process, no_, none_, other) (idle-Handled claims db)
              ]
      ]
    ]
