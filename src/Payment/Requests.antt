-- ===== src/Payment/Requests.antt =====
-- The writes of the requests to pay and to refund, each with what it keeps.
use labour_baba_backend.Outbox.Table.{refund_completed}
use labour_baba_backend.Base.{
  ltb, leb, ◌==◌, Bool-cases, any, update_where, count_where, Text, text, Result, ok, err, All-map,
  ℕ, ◌≡◌, refl, inl, inr, Bool, true, ◌&&◌, Option, none, some, List, arith,
}
use labour_baba_backend.Payment.Table.{PaymentRow, PayDb, has_payment_id, other_refund}
use labour_baba_backend.Payment.Machine.{update_payment}
use labour_baba_backend.Payment.Refund.{
  ProviderPayment, ProviderRefund, was_refunded, reconciled_row, is_unsettled, is_claimable,
  reconcile_refund, claim_refund, refund_settled, next_status, refund_lost, settle_refund,
}
use labour_baba_backend.Payment.Sound.{IsSound, has_money, IsCaptured}
use labour_baba_backend.Payment.Writes.{Written, unchanged, captured-Written}
use labour_baba_backend.Payment.Hooks.{Handles, customer-Aside, written-Handles}

-- A request on a payment that it read as captured.
module _ (claims : List ℕ) (refunds : List PaymentRow) (now : ℕ) (p : PaymentRow) (db : PayDb)
    (h : IsSound db.payments claims refunds) (captured : IsCaptured db.payments p) where
  row-Written :
      (f : PaymentRow → PaymentRow)
      → ((r : PaymentRow) → (f r).id ≡ r.id)
      → ((r : PaymentRow) → (f r).razorpay_payment_id ≡ r.razorpay_payment_id)
      → ((r : PaymentRow) → (f r).razorpay_order_id ≡ r.razorpay_order_id)
      → ((r : PaymentRow) → has_money (f r).status ≡ true)
      → Written claims db.payments (update_where (has_payment_id p.id) f db.payments)
  row-Written f same pay order money =
      captured-Written claims refunds db.payments (has_payment_id p.id) f h same pay order money
        captured

  first_of : (a b : Bool) → (a && b) ≡ true → a ≡ true
  first_of a b t = ground arith

  pub reconcile-Written :
      (reason : Option Text) (answer : Option ProviderPayment)
      → Written claims db.payments (reconcile_refund now p reason answer db).1.payments
  unfolding reconcile_refund
  reconcile-Written reason none = unchanged
  reconcile-Written reason (some q) = elim (Bool-cases (was_refunded q)) [
    | inl back ↦
        rw (reconcile_refund, back)
          (row-Written (reconciled_row now q p) (λ _. refl) (λ _. refl) (λ _. refl) (λ _. refl))
    | inr due ↦ elim (Bool-cases (count_where (is_unsettled p.id) db.payments == 0)) [
      | inl lost ↦ rw (reconcile_refund, due, lost) unchanged
      | inr won ↦
          rw (reconcile_refund, due, won)
            (captured-Written claims refunds db.payments (is_unsettled p.id) _ h (λ _. refl)
              (λ _. refl) (λ _. refl) (λ _. refl)
              (All-map db.payments (λ r c this. c (first_of (r.id == p.id) _ this)) captured))
    ]
  ]

  pub claim_refund-Written :
      (reason : Option Text) → Written claims db.payments (claim_refund now p reason db).1.payments
  unfolding claim_refund
  claim_refund-Written reason =
      elim (Bool-cases (count_where (is_claimable p.id) db.payments == 0)) [
        | inl lost ↦ rw (claim_refund, lost) unchanged
        | inr won ↦
            rw (claim_refund, won)
              (captured-Written claims refunds db.payments (is_claimable p.id) _ h (λ _. refl)
                (λ _. refl) (λ _. refl) (λ _. refl)
                (All-map db.payments (λ r c this. c (first_of (r.id == p.id) _ this)) captured))
      ]

  next_status_money : (code : ℕ) → has_money (next_status code) ≡ true
  next_status_money code = elim (Bool-cases (leb 400 code && ltb code 500)) [
    | inl definite ↦ rw definite refl
    | inr ambiguous ↦ rw ambiguous refl
  ]

  pub settle_refund-Handles :
      (outbox_id : ℕ) (answer : Result (ℕ × Text) ProviderRefund)
      → Handles claims db (settle_refund now outbox_id p answer db).1
  unfolding settle_refund
  settle_refund-Handles outbox_id (err (code, message)) = record {
    payments =
        row-Written (refund_lost now code message) (λ _. refl) (λ _. refl) (λ _. refl)
          (λ _. next_status_money code);
    events = λ _. refl;
  }
  settle_refund-Handles outbox_id (ok r) =
      elim (Bool-cases (any (other_refund p.id r.razorpay_refund_id) db.payments)) [
        | inl taken ↦
            rw (settle_refund, taken)
              (record {
                payments =
                    row-Written (refund_lost now 500 (text "Unique constraint failed")) (λ _. refl)
                      (λ _. refl) (λ _. refl) (λ _. refl);
                events = λ _. refl;
              })
        | inr free ↦
            let back = update_payment p.id (refund_settled now r) db in
            rw (settle_refund, free)
              (written-Handles claims db _ back.payments
                (row-Written (refund_settled now r) (λ _. refl) (λ _. refl) (λ _. refl) (λ _. refl))
                (customer-Aside now outbox_id refund_completed p back))
      ]
