-- ===== src/Payment/Reachable.antt =====
-- Every interleaving of webhooks, orders and refunds keeps the payments sound; money that has come
-- in stays on the books; and a webhook event is handled once.
use labour_baba_backend.Access.PaymentPolicy.{can_refund}
use labour_baba_backend.Base.{
  ◌==◌, Bool-cases, Option-cases, is_some, find?, All, All-find?, Result-cases, All-map, All-append,
  found_only, ℕ, ◌≡◌, refl, ap, ◌∙◌, inl, inr, true, Option, none, some, List,
}
use labour_baba_backend.Access.Role.{Actor, worker, same_role}
use labour_baba_backend.Access.Decision.{assert_policy}
use labour_baba_backend.Payment.Status.{
  PaymentStatus, pending, completed, failed, refund_pending, refunded, refund_failed,
  refund_unknown,
}
use labour_baba_backend.Payment.Table.{PaymentRow}
use labour_baba_backend.Payment.Refund.{is_scoped, parties, plan_by, plan_payment, plan_refund}
use labour_baba_backend.Payment.Sound.{IsSound, IsCaptured}
use labour_baba_backend.Payment.Writes.{Written-IsSound}
use labour_baba_backend.Payment.Handled.{event-Handled}
use labour_baba_backend.Payment.Steps.{
  State, Step, Steps, hooks, claims_order, settles_order, reads_refund, reconciles, claims_refund,
  settles_refund, changes_others, done, then_, hold_refund,
}
use labour_baba_backend.Payment.Requests.{
  reconcile-Written, claim_refund-Written, settle_refund-Handles,
}
use labour_baba_backend.Payment.Claims.{settle_order-IsSound}
use labour_baba_backend.Payment.Intents.{claim_order-IsSound}

abbrev pub IsSoundState : State → Type 0
IsSoundState st = IsSound st.db.payments st.claims st.refunds

-- What a refund has read is captured.
read-IsCaptured :
    (payments refunds : List PaymentRow) (claims : List ℕ) (booking_id : ℕ) (p : PaymentRow)
    → IsSound payments claims refunds
    → find? (λ p. p.booking_id == booking_id) payments ≡ some p
    → is_some p.razorpay_payment_id ≡ true
    → IsCaptured payments p
read-IsCaptured payments refunds claims booking_id p h found paid =
    All-map payments (λ r same i. ap (λ r. is_some r.razorpay_payment_id) (same i) ∙ paid)
      (found_only (λ r. r.id) (λ p. p.booking_id == booking_id) payments h.ids found)

hold-All :
    (P : PaymentRow → Type 0) (p : PaymentRow) (refunds : List PaymentRow)
    → All P refunds
    → (is_some p.razorpay_payment_id ≡ true → P p)
    → All P (hold_refund (plan_payment p) refunds)
hold-All P p refunds a keep = go p.status p.razorpay_payment_id keep
  where
    go :
        (s : PaymentStatus) (o : Option ℕ)
        → (is_some o ≡ true → P p)
        → All P (hold_refund (plan_by s p o) refunds)
    go pending none k = a
    go pending (some n) k = All-append P refunds a (k refl)
    go completed none k = a
    go completed (some n) k = All-append P refunds a (k refl)
    go failed none k = a
    go failed (some n) k = All-append P refunds a (k refl)
    go refund_pending none k = a
    go refund_pending (some n) k = All-append P refunds a (k refl)
    go refund_unknown none k = a
    go refund_unknown (some n) k = All-append P refunds a (k refl)
    go refund_failed none k = a
    go refund_failed (some n) k = All-append P refunds a (k refl)
    go refunded o k = a

plan-IsCaptured :
    (actor : Actor) (booking_id : ℕ) (st : State)
    → IsSoundState st
    → All (IsCaptured st.db.payments) (hold_refund (plan_refund actor booking_id st.db) st.refunds)
unfolding plan_refund
plan-IsCaptured actor booking_id st h = elim (Bool-cases (same_role actor.role worker)) [
  | inl refused ↦ rw (plan_refund, refused) h.captured
  | inr fits ↦ elim (Option-cases (find? (is_scoped actor booking_id) st.db.bookings)) [
    | inl missing ↦ rw (plan_refund, fits, missing) h.captured
    | inr (b, here) ↦ elim (Result-cases (assert_policy (can_refund actor (parties b)))) [
      | inr (e, denied) ↦ rw (plan_refund, fits, here, denied) h.captured
      | inl (_, passed) ↦
          elim (Option-cases (find? (λ p. p.booking_id == booking_id) st.db.payments)) [
            | inl unpaid_ ↦ rw (plan_refund, fits, here, passed, unpaid_) h.captured
            | inr (p, found) ↦
                rw (plan_refund, fits, here, passed, found)
                  (hold-All (IsCaptured st.db.payments) p st.refunds h.captured
                    (read-IsCaptured st.db.payments st.refunds st.claims booking_id p h found))
          ]
    ]
  ]
]

-- Every step keeps the payments sound.
pub Step-IsSound : {a b : State} → Step a b → IsSoundState a → IsSoundState b
Step-IsSound {a} (hooks now d e) h =
    Written-IsSound a.claims a.refunds a.db.payments
      (event-Handled a.claims a.refunds now d e a.db h).payments h
Step-IsSound {a} (claims_order now new_id booking_id currency plan new free unread) h =
    claim_order-IsSound now new_id booking_id currency plan a.db a.claims a.refunds h new free
      unread
Step-IsSound {a} (settles_order now booking_id id answer mine) h =
    settle_order-IsSound now booking_id id answer a h mine
Step-IsSound {a} (reads_refund actor booking_id) h = record {
  ids = h.ids;
  evidence = h.evidence;
  exclusive = h.exclusive;
  claimed = h.claimed;
  captured = plan-IsCaptured actor booking_id a h;
}
Step-IsSound {a} (reconciles now which reason answer {p} held) h =
    Written-IsSound a.claims a.refunds a.db.payments
      (reconcile-Written a.claims a.refunds now p a.db h
        (All-find? (IsCaptured a.db.payments) which a.refunds h.captured held) reason answer)
      h
Step-IsSound {a} (claims_refund now which reason {p} held) h =
    Written-IsSound a.claims a.refunds a.db.payments
      (claim_refund-Written a.claims a.refunds now p a.db h
        (All-find? (IsCaptured a.db.payments) which a.refunds h.captured held) reason)
      h
Step-IsSound {a} (settles_refund now outbox_id which answer {p} held) h =
    Written-IsSound a.claims a.refunds a.db.payments
      (settle_refund-Handles a.claims a.refunds now p a.db h
        (All-find? (IsCaptured a.db.payments) which a.refunds h.captured held) outbox_id
        answer).payments
      h
Step-IsSound {a} (changes_others bookings outbox) h = h

-- Every interleaving of orders and refunds in their parts and of webhooks, each processed with no
-- other commit between its reads and its writes, keeps sound payments sound: a payment has the
-- provider's payment id exactly when its status is one of money that came in, and then an order;
-- the payment whose order is being created is pending, without an order and claimed once; the
-- refunds under way are of captured payments.
pub payments-IsSound : {a b : State} → Steps a b → IsSoundState a → IsSoundState b
payments-IsSound done h = h
payments-IsSound (then_ s rest) h = payments-IsSound rest (Step-IsSound s h)
