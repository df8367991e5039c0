-- ===== src/Payment/Order.antt =====
-- `createOrder`, src/features/payment/paymentServices.ts, in the parts between which other
-- requests may come: what it reads, its claim, the provider's answer, and the polling.
use labour_baba_backend.Base.{
  ◌==◌, if◌then◌else◌, is_some, or_else, any, find?, update_where, count_where, Text, text, text_eq,
  Result, ok, err, ℕ, zero, suc, ◌*◌, Bool, not, ◌&&◌, ◌||◌, Option, none, some, [], ◌∷◌, ◌++◌,
}
use labour_baba_backend.Payment.Status.{
  PaymentStatus, PaymentError, pending, completed, failed, refunded, payment_not_authorized,
  payment_not_payable, payment_rate_missing, payment_already_completed, payment_persistence_failed,
  payment_order_creation_failed, payment_order_creation_in_progress, provider_error, same_status,
}
use labour_baba_backend.Payment.Table.{PaymentRow, PayDb, has_payment_id, has_order}
use labour_baba_backend.Payment.Machine.{is_at, with_payments, update_payment}

pub record PaymentOrderResponse : Type 0 where
  pub payment_id : ℕ
  pub razorpay_order_id : ℕ
  pub amount : ℕ
  pub currency : Text
  pub status : PaymentStatus
  pub booking_id : ℕ

-- What the request goes on to do after its reads.
pub data OrderPlan : Type 0 where
  respond : PaymentOrderResponse → OrderPlan
  create : ℕ → OrderPlan  -- a first payment of an amount
  retry : ℕ → ℕ → OrderPlan  -- a failed payment, with the amount
  contend : PaymentRow → ℕ → OrderPlan

abbrev pub is_payable : Text → Bool
is_payable s =
    text_eq s (text "confirmed")
    || (text_eq s (text "CONFIRMED")
        || (text_eq s (text "OTP_PENDING") || text_eq s (text "PENDING")))

-- Step 3: `rate_per_day` must be there and positive.
abbrev pub amount_paise : Option ℕ → Option ℕ
amount_paise none = none
amount_paise (some rate) = if rate == 0 then none else some (rate * 100)

abbrev pub response : ℕ → PaymentRow → ℕ → ℕ → PaymentOrderResponse
response booking_id p order amount = record {
  payment_id = p.id;
  razorpay_order_id = order;
  amount = or_else p.amount amount;
  currency = p.currency;
  status = p.status;
  booking_id = booking_id;
}

-- Step 4: the payment that exists.
abbrev pub plan_existing : ℕ → ℕ → PaymentRow → Result PaymentError OrderPlan
plan_existing booking_id amount p = elim p.status [
  | completed ↦ err payment_already_completed
  | refunded ↦ err payment_already_completed
  | failed ↦ ok (retry p.id amount)
  | pending ↦ elim p.razorpay_order_id [
    | some order ↦ ok (respond (response booking_id p order amount))
    | none ↦ ok (contend p amount)
  ]
  | _ ↦ ok (contend p amount)
]

-- Steps 1 to 4.
unfoldable pub plan_order : ℕ → ℕ → PayDb → Result PaymentError OrderPlan
plan_order booking_id customer_id db =
    elim (find? (λ b. b.id == booking_id && b.customer_id == customer_id) db.bookings) [
      | none ↦ err payment_not_authorized
      | some b ↦
          if not (is_payable b.status)
          then err payment_not_payable
          else elim (amount_paise b.rate_per_day) [
            | none ↦ err payment_rate_missing
            | some amount ↦ elim (find? (λ p. p.booking_id == booking_id) db.payments) [
              | none ↦ ok (create amount)
              | some p ↦ plan_existing booking_id amount p
            ]
          ]
    ]

-- Who calls the provider, and who waits for the one that does.
pub data Claim : Type 0 where
  responded : PaymentOrderResponse → Claim
  claimant : ℕ → Claim
  contender : Option PaymentRow → ℕ → Claim

abbrev pub intent : ℕ → ℕ → ℕ → Text → ℕ → PaymentRow
intent now id booking_id currency amount = record {
  id = id;
  booking_id = booking_id;
  razorpay_order_id = none;
  razorpay_payment_id = none;
  razorpay_refund_id = none;
  status = pending;
  amount = some amount;
  currency = currency;
  refund_amount = none;
  refund_status = none;
  refund_reason = none;
  quarantine_reason = none;
  updated_at = now;
}

abbrev pub reclaimed : ℕ → Text → ℕ → PaymentRow → PaymentRow
reclaimed now currency amount p = record p {
  status = pending;
  amount = some amount;
  currency = currency;
  razorpay_order_id = none;
  updated_at = now;
}

-- Step 5: the claim, by the unique booking of a payment or by compare-and-set.
unfoldable pub claim_order : ℕ → ℕ → ℕ → Text → OrderPlan → PayDb → Claim × PayDb
claim_order now new_id booking_id currency (respond r) db = (responded r, db)
claim_order now new_id booking_id currency (create amount) db =
    if any (λ p. p.booking_id == booking_id) db.payments
    then (contender (find? (λ p. p.booking_id == booking_id) db.payments) amount, db)
    else (
      claimant new_id,
      with_payments (db.payments ++ intent now new_id booking_id currency amount ∷ []) db,
    )
claim_order now new_id booking_id currency (retry id amount) db =
    if count_where (is_at id failed) db.payments == 0
    then (contender (find? (has_payment_id id) db.payments) amount, db)
    else (
      claimant id,
      with_payments (update_where (is_at id failed) (reclaimed now currency amount) db.payments) db,
    )
claim_order now new_id booking_id currency (contend p amount) db = (contender (some p) amount, db)

pub record ProviderOrder : Type 0 where
  pub razorpay_order_id : ℕ
  pub amount : ℕ
  pub currency : Text

abbrev pub is_orderless : ℕ → PaymentRow → Bool
is_orderless id p = p.id == id && not (is_some p.razorpay_order_id)

abbrev pub order_failed : ℕ → Text → PaymentRow → PaymentRow
order_failed now reason p = record p {
  status = failed;
  quarantine_reason = some reason;
  updated_at = now;
}

abbrev pub ordered : ℕ → ProviderOrder → PaymentRow → PaymentRow
ordered now o p = record p {
  razorpay_order_id = some o.razorpay_order_id;
  amount = some o.amount;
  currency = o.currency;
  status = pending;
  updated_at = now;
}

-- Step 6: what the claimant does with the provider's answer, an order or an error's message. The
-- order's id is unique, so the update can be refused.
unfoldable pub settle_order :
    ℕ → ℕ → ℕ → Result Text ProviderOrder → PayDb → Result PaymentError PaymentOrderResponse × PayDb
settle_order now booking_id id (err message) db = (
  err provider_error,
  with_payments (update_where (is_orderless id) (order_failed now message) db.payments) db,
)
settle_order now booking_id id (ok o) db =
    if any (has_order o.razorpay_order_id) db.payments
    then (err payment_persistence_failed, db)
    else if not (any (has_payment_id id) db.payments)
    then (err payment_persistence_failed, db)
    else (
      ok (record {
        payment_id = id;
        razorpay_order_id = o.razorpay_order_id;
        amount = o.amount;
        currency = o.currency;
        status = pending;
        booking_id = booking_id;
      }),
      update_payment id (ordered now o) db,
    )

abbrev pub poll : ℕ → ℕ → Option PaymentRow → Option (Result PaymentError PaymentOrderResponse)
poll booking_id amount none = none
poll booking_id amount (some p) = elim p.razorpay_order_id [
  | some order ↦ some (ok (response booking_id p order amount))
  | none ↦ if same_status p.status failed then some (err payment_order_creation_failed) else none
]

-- The bounded polling: the payment as it stands at each of the attempts left.
unfoldable pub await_order :
    ℕ → ℕ → ℕ → (ℕ → Option PaymentRow) → Result PaymentError PaymentOrderResponse
await_order zero booking_id amount seen = err payment_order_creation_in_progress
await_order (suc left) booking_id amount seen =
    let rest = await_order left booking_id amount seen in
    or_else (poll booking_id amount (seen left)) rest

-- Step 7.
unfoldable pub contend_order :
    ℕ → Option PaymentRow → ℕ → (ℕ → Option PaymentRow) → Result PaymentError PaymentOrderResponse
contend_order booking_id none amount seen = await_order 25 booking_id amount seen
contend_order booking_id (some p) amount seen = elim p.razorpay_order_id [
  | some order ↦ ok (response booking_id p order amount)
  | none ↦ await_order 25 booking_id amount seen
]
