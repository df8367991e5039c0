-- ===== src/Payment/Replay.antt =====
-- A webhook event delivered again, over every interleaving.
use labour_baba_backend.Base.{
  any, All-find?, Text, Result, ok, err, ℕ, ◌≡◌, refl, ap, ◌∙◌, false, Option, none, some, arith,
}
use labour_baba_backend.Payment.Table.{PaymentRow, PayDb, is_event}
use labour_baba_backend.Payment.Webhook.{Draws, WebhookEvent, handle_event}
use labour_baba_backend.Payment.Order.{
  OrderPlan, ProviderOrder, respond, create, retry, contend, claim_order, settle_order,
}
use labour_baba_backend.Payment.Refund.{ProviderPayment, reconcile_refund, claim_refund}
use labour_baba_backend.Payment.Sound.{IsCaptured}
use labour_baba_backend.Payment.Handled.{event-Handled}
use labour_baba_backend.Payment.Redelivery.{Stays, event_refused, handled-again}
use labour_baba_backend.Payment.Steps.{
  State, Step, Steps, hooks, claims_order, settles_order, reads_refund, reconciles, claims_refund,
  settles_refund, changes_others, done, then_, with_db,
}
use labour_baba_backend.Payment.Requests.{settle_refund-Handles}
use labour_baba_backend.Payment.Reachable.{IsSoundState, Step-IsSound}

claim-events :
    (now new_id booking_id : ℕ) (currency : Text) (plan : OrderPlan) (db : PayDb)
    → (claim_order now new_id booking_id currency plan db).1.webhook_events ≡ db.webhook_events
unfolding claim_order
claim-events now new_id booking_id currency (respond r) db = refl
claim-events now new_id booking_id currency (contend p amount) db = refl
claim-events now new_id booking_id currency (create amount) db = ground (arith, claim_order)
claim-events now new_id booking_id currency (retry id amount) db = ground (arith, claim_order)

settle-events :
    (now booking_id id : ℕ) (answer : Result Text ProviderOrder) (db : PayDb)
    → (settle_order now booking_id id answer db).1.webhook_events ≡ db.webhook_events
unfolding settle_order
settle-events now booking_id id (err message) db = refl
settle-events now booking_id id (ok o) db = ground (arith, settle_order)

reconcile-events :
    (now : ℕ) (p : PaymentRow) (reason : Option Text) (answer : Option ProviderPayment) (db : PayDb)
    → (reconcile_refund now p reason answer db).1.webhook_events ≡ db.webhook_events
unfolding reconcile_refund
reconcile-events now p reason none db = refl
reconcile-events now p reason (some q) db = ground (arith, reconcile_refund)

claim_refund-events :
    (now : ℕ) (p : PaymentRow) (reason : Option Text) (db : PayDb)
    → (claim_refund now p reason db).1.webhook_events ≡ db.webhook_events
unfolding claim_refund
claim_refund-events now p reason db = ground (arith, claim_refund)

same_events-Stays : (a b : PayDb) → b.webhook_events ≡ a.webhook_events → Stays a b
same_events-Stays a b same i h = ap (any (is_event i)) same ∙ h

Step-Stays : {a b : State} → Step a b → IsSoundState a → Stays a.db b.db
Step-Stays {a} (hooks now d e) h = (event-Handled a.claims a.refunds now d e a.db h).stays
Step-Stays {a} {b} (claims_order now new_id booking_id currency plan new free unread) h =
    same_events-Stays a.db b.db (claim-events now new_id booking_id currency plan a.db)
Step-Stays {a} {b} (settles_order now booking_id id answer mine) h =
    same_events-Stays a.db b.db (settle-events now booking_id id answer a.db)
Step-Stays {a} (reads_refund actor booking_id) h = λ i was. was
Step-Stays {a} {b} (reconciles now which reason answer {p} found) h =
    same_events-Stays a.db b.db (reconcile-events now p reason answer a.db)
Step-Stays {a} {b} (claims_refund now which reason {p} found) h =
    same_events-Stays a.db b.db (claim_refund-events now p reason a.db)
Step-Stays {a} (settles_refund now outbox_id which answer {p} found) h = λ i was.
    (settle_refund-Handles a.claims a.refunds now p a.db h
        (All-find? (IsCaptured a.db.payments) which a.refunds h.captured found) outbox_id
        answer).events
      i
    ∙ was
Step-Stays {a} (changes_others bookings outbox) h = λ i was. was

Steps-Stays : {a b : State} → Steps a b → IsSoundState a → Stays a.db b.db
Steps-Stays done h = λ i was. was
Steps-Stays (then_ s rest) h = λ i was. Steps-Stays rest (Step-IsSound s h) i (Step-Stays s h i was)

-- A webhook event that was handled in a sound state, its refund's id being no other payment's,
-- delivered again after any interleaving of
-- webhooks, orders and refunds, changes nothing.
pub webhook_once :
    (now now' : ℕ) (d d' : Draws) (e : WebhookEvent) (a : State) {b : State}
    → IsSoundState a
    → event_refused e a.db ≡ false
    → Steps (with_db (handle_event now d e a.db).1 a) b
    → (handle_event now' d' e b.db).1 ≡ b.db
webhook_once now now' d d' e a {b} h passed steps =
    handled-again a.claims a.refunds now now' d d' e a.db b.db h passed
      (Steps-Stays steps (Step-IsSound (hooks now d e {st = a}) h))
