-- ===== src/Payment/Refund.antt =====
-- `refundPayment` and `getPaymentStatus`, src/features/payment/paymentServices.ts. A refund is in
-- the parts between which other requests may come: its reads, its claim, the provider's answer.
use labour_baba_backend.Access.PaymentPolicy.{Payment, can_refund, scope_read, meets_all}
use labour_baba_backend.Base.{
  ltb, leb, ◌==◌, if◌then◌else◌, any, find?, update_where, count_where, Text, text, text_eq,
  is_blank, Result, ok, err, ℕ, Bool, true, false, not, ◌&&◌, ◌||◌, Option, none, some, List,
}
use labour_baba_backend.Access.Role.{Actor, customer, worker, same_role}
use labour_baba_backend.Access.Decision.{assert_policy}
use labour_baba_backend.Access.Filter.{Parties}
use labour_baba_backend.Payment.Status.{
  PaymentStatus, PaymentError, completed, refund_pending, refunded, refund_failed, refund_unknown,
  payment_not_authorized, payment_not_found, refund_not_authorized, refund_no_payment,
  refund_missing_capture_ref, refund_already_pending, refund_reconciliation_required,
  refund_invalid_state, refund_failed_error, refund_unknown_error, policy_refused, same_status,
}
use labour_baba_backend.Payment.Table.{PaymentRow, PayBooking, PayDb, has_payment_id, other_refund}
use labour_baba_backend.Payment.Machine.{with_payments, update_payment, notify_customer}
use labour_baba_backend.Outbox.Table.{refund_completed}

abbrev pub is_scoped : Actor → ℕ → PayBooking → Bool
is_scoped actor booking_id b =
    b.id == booking_id
    && (if same_role actor.role customer then b.customer_id == actor.id else true)

abbrev pub parties : PayBooking → Parties
parties b = record { id = b.id; customer_id = b.customer_id; worker_id = b.worker_id }

abbrev as_payment : PaymentRow → PayBooking → Payment
as_payment p b = record { id = p.id; booking_id = p.booking_id; booking = parties b }

-- `getPaymentStatus`
unfoldable pub get_payment_status : Actor → ℕ → PayDb → Result PaymentError PaymentRow
get_payment_status actor booking_id db =
    if same_role actor.role worker
    then err payment_not_authorized
    else if same_role actor.role customer
        && not (any (λ b. b.id == booking_id && b.customer_id == actor.id) db.bookings)
    then err payment_not_authorized
    else elim (find? (in_scope db.bookings) db.payments) [
      | none ↦ err payment_not_found
      | some p ↦ ok p
    ]
  where
    in_scope : List PayBooking → PaymentRow → Bool
    in_scope bookings p =
        any (λ b. b.id == p.booking_id && meets_all (as_payment p b) (scope_read actor booking_id))
          bookings

pub data RefundPlan : Type 0 where
  already_refunded : Option ℕ → RefundPlan
  reconcile : PaymentRow → ℕ → RefundPlan  -- with the capture's identifier
  claim : PaymentRow → ℕ → RefundPlan

abbrev pub with_capture : (ℕ → RefundPlan) → Option ℕ → Result PaymentError RefundPlan
with_capture plan none = err refund_missing_capture_ref
with_capture plan (some n) = ok (plan n)

-- What the request goes on to do, by the status of the payment and its capture.
abbrev pub plan_by : PaymentStatus → PaymentRow → Option ℕ → Result PaymentError RefundPlan
plan_by refunded p capture = ok (already_refunded p.razorpay_refund_id)
plan_by refund_unknown p capture = with_capture (reconcile p) capture
plan_by refund_pending p capture = with_capture (reconcile p) capture
plan_by _ p capture = with_capture (claim p) capture

abbrev pub plan_payment : PaymentRow → Result PaymentError RefundPlan
plan_payment p = plan_by p.status p p.razorpay_payment_id

-- Steps 1 and 2, and the branch of step 3.
unfoldable pub plan_refund : Actor → ℕ → PayDb → Result PaymentError RefundPlan
plan_refund actor booking_id db =
    if same_role actor.role worker
    then err refund_not_authorized
    else elim (find? (is_scoped actor booking_id) db.bookings) [
      | none ↦ err refund_not_authorized
      | some b ↦ elim (assert_policy (can_refund actor (parties b))) [
        | err _ ↦ err policy_refused
        | ok _ ↦ elim (find? (λ p. p.booking_id == booking_id) db.payments) [
          | none ↦ err refund_no_payment
          | some p ↦ plan_payment p
        ]
      ]
    ]

-- What the provider says of a payment.
pub record ProviderPayment : Type 0 where
  pub is_refunded : Bool  -- `status === "refunded"`
  pub amount_refunded : Option ℕ
  pub refund_status : Option Text

abbrev pub is_positive : Option ℕ → Bool
is_positive none = false
is_positive (some n) = not (n == 0)

abbrev pub is_named : Option Text → Bool
is_named none = false
is_named (some s) = not (text_eq s (text "null"))

abbrev pub was_refunded : ProviderPayment → Bool
was_refunded q = q.is_refunded || (is_positive q.amount_refunded || is_named q.refund_status)

abbrev pub or_text : Option Text → Text → Text
or_text none t = t
or_text (some s) t = if is_blank s then t else s

abbrev pub reconciled_row : ℕ → ProviderPayment → PaymentRow → PaymentRow → PaymentRow
reconciled_row now q read p = record p {
  status = refunded;
  refund_amount = elim q.amount_refunded [
    | some n ↦ if n == 0 then read.amount else some n
    | none ↦ read.amount
  ];
  refund_status = some (or_text q.refund_status (text "processed"));
  updated_at = now;
}

abbrev pub is_unsettled : ℕ → PaymentRow → Bool
is_unsettled id p =
    p.id == id && (same_status p.status refund_unknown || same_status p.status refund_pending)

abbrev pub is_claimable : ℕ → PaymentRow → Bool
is_claimable id p =
    p.id == id && (same_status p.status completed || same_status p.status refund_failed)

abbrev pub pending_refund : ℕ → Text → PaymentRow → PaymentRow
pending_refund now reason p = record p {
  status = refund_pending;
  refund_reason = some reason;
  updated_at = now;
}

-- Whether the request goes on to the provider, or the payment has been refunded already.
pub data Outcome : Type 0 where
  proceed : Outcome
  refunded_before : Option ℕ → Outcome

-- Step 3 of a refund that hangs; `none` is a call of the provider that threw.
unfoldable pub reconcile_refund :
    ℕ
    → PaymentRow
    → Option Text
    → Option ProviderPayment
    → PayDb
    → Result PaymentError Outcome × PayDb
reconcile_refund now p reason none db = (err refund_reconciliation_required, db)
reconcile_refund now p reason (some q) db =
    if was_refunded q
    then (
      ok (refunded_before p.razorpay_refund_id),
      update_payment p.id (reconciled_row now q p) db,
    )
    else if count_where (is_unsettled p.id) db.payments == 0
    then (err refund_already_pending, db)
    else (
      ok proceed,
      with_payments
          (update_where (is_unsettled p.id)
            (pending_refund now
              (or_text reason (text "Retry after provider reconciliation verified unrefunded")))
            db.payments)
          db,
    )

-- The claim that came to nothing, by what the payment has become.
abbrev pub lost_claim : Option PaymentRow → Result PaymentError Outcome
lost_claim none = err refund_invalid_state
lost_claim (some p) = elim p.status [
  | refunded ↦ ok (refunded_before p.razorpay_refund_id)
  | refund_pending ↦ err refund_already_pending
  | refund_unknown ↦ err refund_already_pending
  | _ ↦ err refund_invalid_state
]

-- Step 3 of a first refund or one that failed.
unfoldable pub claim_refund :
    ℕ → PaymentRow → Option Text → PayDb → Result PaymentError Outcome × PayDb
claim_refund now p reason db =
    if count_where (is_claimable p.id) db.payments == 0
    then (lost_claim (find? (has_payment_id p.id) db.payments), db)
    else (
      ok proceed,
      with_payments
          (update_where (is_claimable p.id)
            (pending_refund now (or_text reason (text "Customer/Admin requested refund")))
            db.payments)
          db,
    )

pub record ProviderRefund : Type 0 where
  pub razorpay_refund_id : ℕ
  pub amount : ℕ
  pub status : Text

abbrev pub refund_settled : ℕ → ProviderRefund → PaymentRow → PaymentRow
refund_settled now r p = record p {
  status = refunded;
  razorpay_refund_id = some r.razorpay_refund_id;
  refund_amount = some r.amount;
  refund_status = some r.status;
  updated_at = now;
}

-- Step 6: a client error is definite, anything else ambiguous.
abbrev pub next_status : ℕ → PaymentStatus
next_status code = if leb 400 code && ltb code 500 then refund_failed else refund_unknown

abbrev pub refund_lost : ℕ → ℕ → Text → PaymentRow → PaymentRow
refund_lost now code message p = record p {
  status = next_status code;
  refund_reason = some message;
  updated_at = now;
}

abbrev pub refund_error : ℕ → PaymentError
refund_error code =
    if leb 400 code && ltb code 500 then refund_failed_error else refund_unknown_error

-- Steps 5 and 6, on the provider's answer: a refund, or the status and message of an error. The
-- refund's id is unique, so that write can fail as well, which is an error of status 500.
unfoldable pub settle_refund :
    ℕ → ℕ → PaymentRow → Result (ℕ × Text) ProviderRefund → PayDb → Result PaymentError ℕ × PayDb
settle_refund now outbox_id p (err (code, message)) db =
    (err (refund_error code), update_payment p.id (refund_lost now code message) db)
settle_refund now outbox_id p (ok r) db =
    if any (other_refund p.id r.razorpay_refund_id) db.payments
    then (
      err refund_unknown_error,
      update_payment p.id (refund_lost now 500 (text "Unique constraint failed")) db,
    )
    else (
      ok r.razorpay_refund_id,
      notify_customer now outbox_id refund_completed p
          (update_payment p.id (refund_settled now r) db),
    )
