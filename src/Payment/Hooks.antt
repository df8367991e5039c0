-- ===== src/Payment/Hooks.antt =====
-- What the handling of a webhook event does to the payments and to the record of events.
use labour_baba_backend.Base.{
  ◌==◌, Bool-cases, Option-cases, is_some, is_id, any, find?, update_where, count_where, All,
  find?-sound, Keyed, Text, text, All-map, everywhere, found_only, any-update_where, ℕ, ◌≡◌, refl,
  ap, ◌∙◌, inl, inr, true, Option, some, List, arith,
}
use labour_baba_backend.Payment.Status.{pending, completed, failed}
use labour_baba_backend.Payment.Table.{
  PaymentRow, EventId, WebhookEventRow, PayDb, event_processed, event_failed, same_event_id,
  has_payment_id, has_order, is_event,
}
use labour_baba_backend.Payment.Machine.{
  is_at, transition_payment_status, with_payments, update_payment, booking_of, notify_customer,
  notify_worker,
}
use labour_baba_backend.Payment.Webhook.{
  Draws, set_event, fail_event, finish_event, quarantine, amount_differs, currency_differs, capture,
  captured_in_tx, failed_in_tx,
}
use labour_baba_backend.Payment.Sound.{IsSound}
use labour_baba_backend.Payment.Writes.{Written, unchanged, written, pending-Written}
use labour_baba_backend.Outbox.Table.{EventType, payment_completed, payment_failed}

-- A part of a transaction that touches neither the payments nor which events are recorded.
pub record Aside (a b : PayDb) : Type 0 where
  pub payments : b.payments ≡ a.payments
  pub events : (i : EventId) → any (is_event i) b.webhook_events ≡ any (is_event i) a.webhook_events

pub customer-Aside :
    (now outbox_id : ℕ) (event : EventType) (p : PaymentRow) (db : PayDb)
    → Aside db (notify_customer now outbox_id event p db)
customer-Aside now outbox_id event p db = elim (Option-cases (booking_of p.booking_id db)) [
  | inl none_ ↦ rw (notify_customer, none_) (record { payments = refl; events = λ _. refl })
  | inr (b, here) ↦ rw (notify_customer, here) (record { payments = refl; events = λ _. refl })
]

pub worker-Aside :
    (now outbox_id : ℕ) (event : EventType) (p : PaymentRow) (db : PayDb)
    → Aside db (notify_worker now outbox_id event p db)
worker-Aside now outbox_id event p db = elim (Option-cases (booking_of p.booking_id db)) [
  | inl none_ ↦ rw (notify_worker, none_) (record { payments = refl; events = λ _. refl })
  | inr (b, here) ↦ rw (notify_worker, here) (record { payments = refl; events = λ _. refl })
]

set_event-Aside :
    (id : ℕ) (f : WebhookEventRow → WebhookEventRow) (db : PayDb)
    → ((e : WebhookEventRow) → (f e).provider_event_id ≡ e.provider_event_id)
    → Aside db (set_event id f db)
set_event-Aside id f db keep = record {
  payments = refl;
  events = λ i.
      any-update_where (is_event i) (λ e. e.id == id) f db.webhook_events
        (λ e. ap (same_event_id i) (keep e));
}

pub then-Aside : {a b c : PayDb} → Aside a b → Aside b c → Aside a c
then-Aside f g = record {
  payments = g.payments ∙ f.payments;
  events = λ i. g.events i ∙ f.events i;
}

-- What a transaction does after its claim of the event.
pub record Handles (claims : List ℕ) (a b : PayDb) : Type 0 where
  pub payments : Written claims a.payments b.payments
  pub events : (i : EventId) → any (is_event i) b.webhook_events ≡ any (is_event i) a.webhook_events

pub Aside-Handles : (claims : List ℕ) (a b : PayDb) → Aside a b → Handles claims a b
Aside-Handles claims a b w = record { payments = rw w.payments unchanged; events = w.events }

-- A write of payments with further parts around it.
pub written-Handles :
    (claims : List ℕ) (a b : PayDb) (payments : List PaymentRow)
    → Written claims a.payments payments
    → Aside (with_payments payments a) b
    → Handles claims a b
written-Handles claims a b payments w s = record { payments = rw s.payments w; events = s.events }

pub finish-Aside : (now : ℕ) (d : Draws) (db : PayDb) → Aside db (finish_event now d db)
finish-Aside now d db =
    set_event-Aside d.event (λ e. record e { status = event_processed; processed_at = some now }) db
      (λ _. refl)

pub fail-Aside : (d : Draws) (reason : Text) (db : PayDb) → Aside db (fail_event d reason db)
fail-Aside d reason db =
    set_event-Aside d.event (λ e. record e { status = event_failed; failure_reason = some reason })
      db (λ _. refl)

-- Every row with the id of the payment that was found is that payment.
found_ordered :
    (order : ℕ) (payments : List PaymentRow) {p : PaymentRow}
    → Keyed (λ r. r.id) payments
    → find? (has_order order) payments ≡ some p
    → All (λ r. (r.id == p.id) ≡ true → is_some r.razorpay_order_id ≡ true) payments
found_ordered order payments {p} k found =
    All-map payments
      (λ r same i.
        ap (λ r. is_some r.razorpay_order_id) (same i)
        ∙ known p.razorpay_order_id (find?-sound (has_order order) payments found))
      (found_only (λ r. r.id) (has_order order) payments k found)
  where
    known : (o : Option ℕ) → is_id o order ≡ true → is_some o ≡ true
    known o h = ground arith

pub capture-Handles :
    (claims : List ℕ) (refunds : List PaymentRow) (now : ℕ) (d : Draws) (order n : ℕ)
    (p : PaymentRow) (db : PayDb)
    → IsSound db.payments claims refunds
    → find? (has_order order) db.payments ≡ some p
    → Handles claims db (capture now d n p db).1
unfolding capture transition_payment_status
capture-Handles claims refunds now d order n p db h found =
    elim (Bool-cases (count_where (is_at p.id pending) db.payments == 0)) [
      | inl none_ ↦ rw none_ (
          written-Handles claims db (finish_event now d (with_payments payments db)) payments write
            (finish-Aside now d (with_payments payments db)))
      | inr moved ↦
          let paid = with_payments payments db in
          let told = notify_customer now d.first_notice payment_completed p paid in
          let both = notify_worker now d.second_notice payment_completed p told in
          rw moved (
            written-Handles claims db (finish_event now d both) payments write (
              then-Aside (customer-Aside now d.first_notice payment_completed p paid) (
                then-Aside (worker-Aside now d.second_notice payment_completed p told)
                  (finish-Aside now d both))))
    ]
  where
    f : PaymentRow → PaymentRow
    f r = record r { status = completed; updated_at = now; razorpay_payment_id = some n }

    payments : List PaymentRow
    payments = update_where (is_at p.id pending) f db.payments

    write : Written claims db.payments payments
    write =
        pending-Written claims refunds db.payments p.id f h (λ _. refl) (λ r o u. (refl, λ _. o))
          (found_ordered order db.payments h.ids found)

-- A quarantine leaves everything but the reason.
quarantine-Written :
    (claims : List ℕ) (now id : ℕ) (reason : Text) (payments : List PaymentRow)
    → Written claims payments (update_where (has_payment_id id) (quarantine now reason) payments)
quarantine-Written claims now id reason payments =
    written (has_payment_id id) (quarantine now reason) (λ _. refl)
      (everywhere payments (λ r _ e. record { evidence = e; kept = λ m h. h }))
      (everywhere claims (λ c. everywhere payments (λ r _ _ u. u)))

pub captured-Handles :
    (claims : List ℕ) (refunds : List PaymentRow) (now : ℕ) (d : Draws) (order n : ℕ)
    (amount : Option ℕ) (currency : Option Text) (db : PayDb)
    → IsSound db.payments claims refunds
    → Handles claims db (captured_in_tx now d order n amount currency db).1
unfolding captured_in_tx
captured-Handles claims refunds now d order n amount currency db h =
    elim (Option-cases (find? (has_order order) db.payments)) [
      | inl missing ↦
          rw (captured_in_tx, missing)
            (Aside-Handles claims db _ (fail-Aside d (text "No matching local payment") db))
      | inr (p, found) ↦ elim (Bool-cases (amount_differs amount p.amount)) [
        | inl differs ↦
            rw (captured_in_tx, found, differs)
              (written-Handles claims db _ _
                (quarantine-Written claims now p.id (text "Amount mismatch") db.payments)
                (fail-Aside d (text "Amount mismatch")
                  (update_payment p.id (quarantine now (text "Amount mismatch")) db)))
        | inr same ↦ elim (Bool-cases (currency_differs currency p.currency)) [
          | inl differs ↦
              rw (captured_in_tx, found, same, differs)
                (written-Handles claims db _ _
                  (quarantine-Written claims now p.id (text "Currency mismatch") db.payments)
                  (fail-Aside d (text "Currency mismatch")
                    (update_payment p.id (quarantine now (text "Currency mismatch")) db)))
          | inr fits ↦
              rw (captured_in_tx, found, same, fits)
                (capture-Handles claims refunds now d order n p db h found)
        ]
      ]
    ]

pub failed-Handles :
    (claims : List ℕ) (refunds : List PaymentRow) (now : ℕ) (d : Draws) (order : ℕ) (db : PayDb)
    → IsSound db.payments claims refunds
    → Handles claims db (failed_in_tx now d order db).1
unfolding failed_in_tx transition_payment_status
failed-Handles claims refunds now d order db h =
    elim (Option-cases (find? (has_order order) db.payments)) [
      | inl missing ↦
          rw (failed_in_tx, missing)
            (Aside-Handles claims db _ (fail-Aside d (text "No matching local payment") db))
      | inr (p, found) ↦
          let paid = with_payments (payments p) db in
          let told = notify_customer now d.first_notice payment_failed p paid in
          elim (Bool-cases (count_where (is_at p.id pending) db.payments == 0)) [
            | inl none_ ↦
                rw (failed_in_tx, found, none_)
                  (written-Handles claims db (finish_event now d paid) (payments p) (write p found)
                    (finish-Aside now d paid))
            | inr moved ↦
                rw (failed_in_tx, found, moved)
                  (written-Handles claims db (finish_event now d told) (payments p) (write p found)
                    (then-Aside (customer-Aside now d.first_notice payment_failed p paid)
                      (finish-Aside now d told)))
          ]
    ]
  where
    f : PaymentRow → PaymentRow
    f r = record r { status = failed; updated_at = now }

    payments : PaymentRow → List PaymentRow
    payments p = update_where (is_at p.id pending) f db.payments

    write :
        (p : PaymentRow)
        → find? (has_order order) db.payments ≡ some p
        → Written claims db.payments (payments p)
    write p found =
        pending-Written claims refunds db.payments p.id f h (λ _. refl)
          (λ r o u. (u, λ money. absurd (ground arith)))
          (found_ordered order db.payments h.ids found)
