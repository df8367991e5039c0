-- ===== src/Payment/Writes.antt =====
-- The writes of the webhooks and of the refunds, each with what it keeps.
use labour_baba_backend.Base.{
  ◌==◌, is_some, update_where, All, All-map, All-both, everywhere, ℕ, ◌≡◌, sym, ap, ◌∙◌, Bool, true,
  false, ◌&&◌, Option, some, List, arith,
}
use labour_baba_backend.Payment.Status.{PaymentStatus, pending, same_status}
use labour_baba_backend.Payment.Table.{PaymentRow}
use labour_baba_backend.Payment.Machine.{is_at}
use labour_baba_backend.Payment.Sound.{
  IsSound, Moves, has_money, Evidence, IsUnordered, HasCapture, rewrite-HasCapture, rewrite-IsSound,
}

-- What an operation makes of the payments, while some payments are claimed.
pub data Written (claims : List ℕ) (payments : List PaymentRow) : List PaymentRow → Type 0 where
  unchanged : Written claims payments payments
  written :
      (p : PaymentRow → Bool) (f : PaymentRow → PaymentRow)
      → ((r : PaymentRow) → (f r).id ≡ r.id)
      → All (λ r. p r ≡ true → Evidence r → Moves r (f r)) payments
      → All
          (λ c.
            All (λ r. p r ≡ true → (r.id == c) ≡ true → IsUnordered r → IsUnordered (f r)) payments)
          claims
      → Written claims payments (update_where p f payments)

pub Written-IsSound :
    (claims : List ℕ) (refunds payments : List PaymentRow) {payments' : List PaymentRow}
    → Written claims payments payments'
    → IsSound payments claims refunds
    → IsSound payments' claims refunds
Written-IsSound claims refunds payments unchanged h = h
Written-IsSound claims refunds payments (written p f same moves leaves) h =
    rewrite-IsSound p f same payments claims refunds moves leaves h

pub Written-HasCapture :
    (n m : ℕ) (claims : List ℕ) (payments : List PaymentRow) {payments' : List PaymentRow}
    → Written claims payments payments'
    → All Evidence payments
    → All (HasCapture n m) payments
    → All (HasCapture n m) payments'
Written-HasCapture n m claims payments unchanged e h = h
Written-HasCapture n m claims payments (written p f same moves leaves) e h =
    rewrite-HasCapture p f same n m payments moves e h

-- A write that hits only payments with an order.
ordered-leaves :
    (p : PaymentRow → Bool) (f : PaymentRow → PaymentRow) (claims : List ℕ)
    (payments : List PaymentRow)
    → All (λ r. p r ≡ true → is_some r.razorpay_order_id ≡ true) payments
    → All
        (λ c.
          All (λ r. p r ≡ true → (r.id == c) ≡ true → IsUnordered r → IsUnordered (f r)) payments)
        claims
ordered-leaves p f claims payments o = everywhere claims (λ c.
    All-map payments (λ r has this i u. absurd (clash (is_some r.razorpay_order_id) (has this) u.1))
      o)
  where
    clash : (b : Bool) → b ≡ true → b ≡ false → ⊥
    clash b t f = ground arith

-- A refund's write: the payment has money and keeps its capture.
captured-Moves :
    (r r' : PaymentRow)
    → is_some r.razorpay_payment_id ≡ true
    → r'.razorpay_payment_id ≡ r.razorpay_payment_id
    → r'.razorpay_order_id ≡ r.razorpay_order_id
    → has_money r'.status ≡ true
    → Evidence r
    → Moves r r'
captured-Moves r r' some_ pay order money e = record {
  evidence = (ap is_some pay ∙ some_ ∙ sym money, λ _. ap is_some order ∙ e.1 (sym e.0 ∙ some_));
  kept = λ m h. pay ∙ h;
}

-- A write to the captured payments with some id, by which money stays.
pub captured-Written :
    (claims : List ℕ) (refunds payments : List PaymentRow) (p : PaymentRow → Bool)
    (f : PaymentRow → PaymentRow)
    → IsSound payments claims refunds
    → ((r : PaymentRow) → (f r).id ≡ r.id)
    → ((r : PaymentRow) → (f r).razorpay_payment_id ≡ r.razorpay_payment_id)
    → ((r : PaymentRow) → (f r).razorpay_order_id ≡ r.razorpay_order_id)
    → ((r : PaymentRow) → has_money (f r).status ≡ true)
    → All (λ r. p r ≡ true → is_some r.razorpay_payment_id ≡ true) payments
    → Written claims payments (update_where p f payments)
captured-Written claims refunds payments p f h same pay order money hits =
    written p f same
      (All-map payments
        (λ r hit this e. captured-Moves r (f r) (hit this) (pay r) (order r) (money r) e) hits)
      (ordered-leaves p f claims payments
        (All-both payments (λ r hit e this. e.1 (sym e.0 ∙ hit this)) hits h.evidence))

-- `transitionPaymentStatus` away from PENDING, of a payment with an order.
pub pending-Written :
    (claims : List ℕ) (refunds payments : List PaymentRow) (id : ℕ) (f : PaymentRow → PaymentRow)
    → IsSound payments claims refunds
    → ((r : PaymentRow) → (f r).id ≡ r.id)
    → ((r : PaymentRow)
        → is_some r.razorpay_order_id ≡ true
        → is_some r.razorpay_payment_id ≡ false
        → Evidence (f r))
    → All (λ r. (r.id == id) ≡ true → is_some r.razorpay_order_id ≡ true) payments
    → Written claims payments (update_where (is_at id pending) f payments)
pending-Written claims refunds payments id f h same evident ordered =
    written (is_at id pending) f same
      (All-map payments
        (λ r o this e. record {
          evidence = evident r (o (at r this)) (uncaptured r this e);
          kept = λ m pay. absurd (clash r.razorpay_payment_id m (uncaptured r this e) pay);
        })
        ordered)
      (ordered-leaves (is_at id pending) f claims payments
        (All-map payments (λ r o this. o (at r this)) ordered))
  where
    at : (r : PaymentRow) → is_at id pending r ≡ true → (r.id == id) ≡ true
    at r this = go (r.id == id) (same_status r.status pending) this
      where
        go : (a b : Bool) → (a && b) ≡ true → a ≡ true
        go a b t = ground arith

    uncaptured :
        (r : PaymentRow)
        → is_at id pending r ≡ true
        → Evidence r
        → is_some r.razorpay_payment_id ≡ false
    uncaptured r this e = e.0 ∙ go (r.id == id) r.status this
      where
        go :
            (a : Bool) (s : PaymentStatus)
            → (a && same_status s pending) ≡ true
            → has_money s ≡ false
        go a s t = ground arith

    clash : (q : Option ℕ) (m : ℕ) → is_some q ≡ false → q ≡ some m → ⊥
    clash q m n e = ground arith
