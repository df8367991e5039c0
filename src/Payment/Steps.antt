-- ===== src/Payment/Steps.antt =====
-- Webhooks, orders and refunds of many requests interleaved. A request that calls the provider
-- claims a payment in one step and writes the answer in a later one; in between anything may come. A webhook
-- event is one step: no other request commits between its reads and its writes.
use labour_baba_backend.Base.{
  ◌==◌, any, find?, filter_where, Text, Result, ok, err, ℕ, ◌≡◌, Bool, true, false, not, Option,
  some, List, [], ◌∷◌, ◌++◌,
}
use labour_baba_backend.Access.Role.{Actor}
use labour_baba_backend.Outbox.Table.{OutboxDb}
use labour_baba_backend.Payment.Status.{PaymentError}
use labour_baba_backend.Payment.Table.{PaymentRow, PayBooking, PayDb, has_payment_id}
use labour_baba_backend.Payment.Webhook.{Draws, WebhookEvent, handle_event}
use labour_baba_backend.Payment.Order.{
  OrderPlan, Claim, ProviderOrder, responded, claimant, contender, claim_order, settle_order,
}
use labour_baba_backend.Payment.Refund.{
  RefundPlan, ProviderPayment, ProviderRefund, already_refunded, reconcile, claim, plan_refund,
  reconcile_refund, claim_refund, settle_refund,
}

pub record State : Type 0 where
  pub db : PayDb
  pub claims : List ℕ  -- the payments for which a request is creating an order
  pub refunds : List PaymentRow  -- the payments as requests to refund have read them

abbrev pub is_claim : ℕ → ℕ → Bool
is_claim id c = c == id

-- The claimant of a payment goes on to the provider.
abbrev pub hold_claim : Claim → List ℕ → List ℕ
hold_claim (claimant id) claims = claims ++ id ∷ []
hold_claim (responded _) claims = claims
hold_claim (contender _ _) claims = claims

abbrev pub hold_refund : Result PaymentError RefundPlan → List PaymentRow → List PaymentRow
hold_refund (err _) refunds = refunds
hold_refund (ok (already_refunded _)) refunds = refunds
hold_refund (ok (reconcile p _)) refunds = refunds ++ p ∷ []
hold_refund (ok (claim p _)) refunds = refunds ++ p ∷ []

abbrev pub with_db : PayDb → State → State
with_db db st = record st { db = db }

abbrev pub claimed_by : Claim × PayDb → State → State
claimed_by r st = record st { db = r.1; claims = hold_claim r.0 st.claims }

abbrev pub settled_by : ℕ → PayDb → State → State
settled_by id db st = record st {
  db = db;
  claims = filter_where (λ c. not (is_claim id c)) st.claims;
}

pub data Step : State → State → Type 0 where
  hooks :
      (now : ℕ) (d : Draws) (e : WebhookEvent) {st : State}
      → Step st (with_db (handle_event now d e st.db).1 st)
  claims_order :
      (now new_id booking_id : ℕ) (currency : Text) (plan : OrderPlan) {st : State}
      → any (has_payment_id new_id) st.db.payments ≡ false
      → any (is_claim new_id) st.claims ≡ false
      → any (has_payment_id new_id) st.refunds ≡ false
      → Step st (claimed_by (claim_order now new_id booking_id currency plan st.db) st)
  settles_order :
      (now booking_id id : ℕ) (answer : Result Text ProviderOrder) {st : State}
      → any (is_claim id) st.claims ≡ true
      → Step st (settled_by id (settle_order now booking_id id answer st.db).1 st)
  reads_refund :
      (actor : Actor) (booking_id : ℕ) {st : State}
      → Step st
          (record st { refunds = hold_refund (plan_refund actor booking_id st.db) st.refunds })
  reconciles :
      (now : ℕ) (which : PaymentRow → Bool) (reason : Option Text) (answer : Option ProviderPayment)
      {p : PaymentRow} {st : State}
      → find? which st.refunds ≡ some p
      → Step st (with_db (reconcile_refund now p reason answer st.db).1 st)
  claims_refund :
      (now : ℕ) (which : PaymentRow → Bool) (reason : Option Text) {p : PaymentRow} {st : State}
      → find? which st.refunds ≡ some p
      → Step st (with_db (claim_refund now p reason st.db).1 st)
  settles_refund :
      (now outbox_id : ℕ) (which : PaymentRow → Bool) (answer : Result (ℕ × Text) ProviderRefund)
      {p : PaymentRow} {st : State}
      → find? which st.refunds ≡ some p
      → Step st (with_db (settle_refund now outbox_id p answer st.db).1 st)
  changes_others :
      (bookings : List PayBooking) (outbox : OutboxDb) {st : State}
      → Step st (with_db (record st.db { bookings = bookings; outbox = outbox }) st)

pub data Steps : State → State → Type 0 where
  done : {st : State} → Steps st st
  then_ : {a b c : State} → Step a b → Steps b c → Steps a c
