-- ===== src/Payment/Examples.antt =====
-- Payments on concrete tables.
use labour_baba_backend.Base.{
  is_some, find?, text, ok, err, ◌≡◌, refl, true, false, none, some, [], ◌∷◌, arith,
}
use labour_baba_backend.Access.Role.{Actor, admin}
use labour_baba_backend.Payment.Status.{pending, completed, payment_not_authorized, same_status}
use labour_baba_backend.Payment.Table.{
  PaymentRow, PayBooking, PayDb, same_event_id, has_payment_id, has_order,
}
use labour_baba_backend.Payment.Machine.{transition_payment_status}
use labour_baba_backend.Payment.Webhook.{
  refund_refused, Draws, WebhookEvent, payment_captured, derive_webhook_event_id, currency_differs,
  capture, captured_in_tx, capture_read, failed_in_tx, once, process_payment_captured, handle_event,
}
use labour_baba_backend.Payment.Order.{claim_order, retry, create, plan_order, intent}
use labour_baba_backend.Payment.Sound.{IsSound, has_money}
use labour_baba_backend.Payment.Steps.{State, hooks, reads_refund, done, then_}
use labour_baba_backend.Payment.Reachable.{IsSoundState, payments-IsSound}
use labour_baba_backend.Payment.Capture.{Agrees, captured_only}
use labour_baba_backend.Payment.Money.{paid_stays_paid}
use labour_baba_backend.Payment.Redelivery.{event_refused}
use labour_baba_backend.Payment.Replay.{webhook_once}

abbrev booking : PayBooking
booking = record {
  id = 5;
  customer_id = 3;
  worker_id = 4;
  status = text "CONFIRMED";
  rate_per_day = some 700;
}

abbrev ordered_payment : PaymentRow
ordered_payment = record (intent 10 1 5 (text "INR") 70000) { razorpay_order_id = some 900 }

abbrev db : PayDb
db = record {
  payments = ordered_payment ∷ [];
  webhook_events = [];
  bookings = booking ∷ [];
  outbox = record { events = []; deliveries = [] };
}

abbrev state : State
state = record { db = db; claims = []; refunds = [] }

state-IsSound : IsSoundState state
state-IsSound = record {
  ids = (refl, tt);
  evidence = ((refl, λ m. absurd (ground arith)), tt);
  exclusive = tt;
  claimed = tt;
  captured = tt;
}

abbrev draws : Draws
draws = record { event = 100; first_notice = 101; second_notice = 102 }

abbrev captured_event : WebhookEvent
captured_event = record {
  event = text "payment.captured";
  order_id = some 900;
  entity_id = some 800;
  captured_amount = some 70000;
  captured_currency = some (text "inr");
  refund_payment_id = none;
  refund_id = none;
  refund_amount = none;
}

captured : (handle_event 20 draws captured_event db).0 ≡ payment_captured
unfolding handle_event derive_webhook_event_id process_payment_captured once same_event_id
    captured_in_tx capture transition_payment_status
captured = refl

-- A customer's first order: the amount is the rate in paise.
planned : plan_order 5 3 (record db { payments = [] }) ≡ ok (create 70000)
unfolding plan_order
planned = refl

unpaid_booking : plan_order 5 4 db ≡ err payment_not_authorized
unfolding plan_order
unpaid_booking = refl

payments-IsSound_example : IsSound (handle_event 20 draws captured_event db).1.payments [] []
payments-IsSound_example =
    payments-IsSound {a = state} (then_ (hooks 20 draws captured_event {st = state}) done)
      state-IsSound

now_captured :
    (captured_in_tx 20 draws 900 800 (some 70000) (some (text "inr")) db).0 ≡ payment_captured
unfolding captured_in_tx capture transition_payment_status
now_captured = refl

captured_only_example :
    (p : PaymentRow) × (find? (has_order 900) db.payments ≡ some p)
    × (same_status p.status pending ≡ true)
    × Agrees (some 70000) p.amount
    × (currency_differs (some (text "inr")) p.currency ≡ false)
    × (find?
          (has_payment_id p.id)
          (captured_in_tx 20 draws 900 800 (some 70000) (some (text "inr")) db).1.payments
        ≡ some (record p { status = completed; updated_at = 20; razorpay_payment_id = some 800 }))
captured_only_example =
    captured_only [] [] 20 draws 900 800 (some 70000) (some (text "inr")) db state-IsSound
      now_captured

abbrev paid_payment : PaymentRow
paid_payment = record ordered_payment { status = completed; razorpay_payment_id = some 800 }

abbrev paid : State
paid = record state { db = record db { payments = paid_payment ∷ [] } }

paid-IsSound : IsSoundState paid
paid-IsSound = record {
  ids = (refl, tt);
  evidence = ((refl, λ m. refl), tt);
  exclusive = tt;
  claimed = tt;
  captured = tt;
}

abbrev administrator : Actor
administrator = record { id = 1; role = admin }

paid_stays_paid_example :
    (r : PaymentRow) × (find? (has_payment_id 1) paid.db.payments ≡ some r)
    × (r.razorpay_payment_id ≡ some 800)
    × (has_money r.status ≡ true)
    × (is_some r.razorpay_order_id ≡ true)
unfolding handle_event derive_webhook_event_id process_payment_captured once captured_in_tx capture
    transition_payment_status
paid_stays_paid_example =
    paid_stays_paid 1 800 {a = paid} {p = paid_payment} paid-IsSound refl refl (
      then_ (reads_refund administrator 5 {st = paid}) (then_ (hooks 40 draws captured_event) done))

webhook_once_example :
    (handle_event 30 draws captured_event (handle_event 20 draws captured_event db).1).1
    ≡ (handle_event 20 draws captured_event db).1
unfolding event_refused refund_refused
webhook_once_example = webhook_once 20 30 draws draws captured_event state state-IsSound refl done

-- Between the unlocked read of a capture and its write, a payment.failed event and a new attempt
-- at the order: the payment is completed without an order.
abbrev between : PayDb
between =
    (claim_order 30 2 5 (text "INR") (retry 1 70000)
      (failed_in_tx 25 (record { event = 200; first_notice = 201; second_notice = 202 }) 900
        db).1).1

stale_capture :
    (capture_read 40 draws 800 (some 70000) none ordered_payment between).1.payments
    ≡ record ordered_payment {
      status = completed;
      razorpay_order_id = none;
      razorpay_payment_id = some 800;
      updated_at = 40;
    }
      ∷ []
unfolding claim_order failed_in_tx capture transition_payment_status
stale_capture = refl
