-- ===== src/Payment/Money.antt =====
-- What any interleaving leaves of a payment that was captured, and of a webhook event that was
-- handled.
use mathlib.Core.Path.{subst}
use labour_baba_backend.Base.{
  ◌==◌, ==_iff, Bool-cases, is_some, any, find?, count_where, filter_where, All, find?-sound,
  All-find?, Text, All-map, All-append, found_only, any-update_where, any-append, ℕ, ◌≡◌, refl, sym,
  ap, ◌∙◌, inl, inr, Bool, true, false, not, some, List, [], ◌∷◌, arith,
}
use labour_baba_backend.Payment.Status.{failed}
use labour_baba_backend.Payment.Table.{PaymentRow, PayDb, has_payment_id}
use labour_baba_backend.Payment.Machine.{is_at}
use labour_baba_backend.Payment.Order.{OrderPlan, respond, create, retry, contend, claim_order}
use labour_baba_backend.Payment.Sound.{IsSound, has_money, Evidence, IsCaptured, HasCapture}
use labour_baba_backend.Payment.Writes.{Written, unchanged, written, Written-HasCapture}
use labour_baba_backend.Payment.Handled.{event-Handled}
use labour_baba_backend.Payment.Steps.{
  State, Step, Steps, hooks, claims_order, settles_order, reads_refund, reconciles, claims_refund,
  settles_refund, changes_others, done, then_, is_claim,
}
use labour_baba_backend.Payment.Requests.{
  reconcile-Written, claim_refund-Written, settle_refund-Handles,
}
use labour_baba_backend.Payment.Claims.{clash, settle_order-Written}
use labour_baba_backend.Payment.Intents.{retry-Written}
use labour_baba_backend.Payment.Reachable.{IsSoundState, Step-IsSound, payments-IsSound}

-- The payment is there, with its capture.
abbrev Holds : ℕ → ℕ → List PaymentRow → Type 0
Holds n m payments = (any (has_payment_id n) payments ≡ true) × All (HasCapture n m) payments

written-Holds :
    (n m : ℕ) (claims : List ℕ) (payments : List PaymentRow) {payments' : List PaymentRow}
    → Written claims payments payments'
    → All Evidence payments
    → Holds n m payments
    → Holds n m payments'
written-Holds n m claims payments unchanged e h = h
written-Holds n m claims payments (written p f same moves leaves) e h = (
  any-update_where (has_payment_id n) p f payments (λ r. ap (λ k. k == n) (same r)) ∙ h.0,
  Written-HasCapture n m claims payments (written p f same moves leaves) e h.1,
)

claim-Holds :
    (n m now new_id booking_id : ℕ) (currency : Text) (plan : OrderPlan) (db : PayDb)
    (claims : List ℕ) (refunds : List PaymentRow)
    → IsSound db.payments claims refunds
    → any (has_payment_id new_id) db.payments ≡ false
    → Holds n m db.payments
    → Holds n m (claim_order now new_id booking_id currency plan db).1.payments
unfolding claim_order
claim-Holds n m now new_id booking_id currency (respond r) db claims refunds h new held = held
claim-Holds n m now new_id booking_id currency (contend p amount) db claims refunds h new held =
    held
claim-Holds n m now new_id booking_id currency (create amount) db claims refunds h new held =
    elim (Bool-cases (any (λ p. p.booking_id == booking_id) db.payments)) [
      | inl paid ↦ rw (claim_order, paid) held
      | inr first ↦
          rw (claim_order, first)
            (
              any-append (has_payment_id n) db.payments _ ∙ rw held.0 refl,
              All-append (HasCapture n m) db.payments held.1 (λ i. absurd (other i)),
            )
    ]
  where
    other : (new_id == n) ≡ true → ⊥
    other i =
        clash (any (has_payment_id n) db.payments) held.0
          (subst (λ k. any (has_payment_id k) db.payments ≡ false) ((==_iff new_id n).0 i) new)
claim-Holds n m now new_id booking_id currency (retry id amount) db claims refunds h new held =
    elim (Bool-cases (count_where (is_at id failed) db.payments == 0)) [
      | inl lost ↦ rw (claim_order, lost) held
      | inr won ↦
          rw (claim_order, won)
            (written-Holds n m claims db.payments
              (retry-Written now id amount currency db.payments claims refunds h) h.evidence held)
    ]

Step-Holds :
    (n m : ℕ) {a b : State}
    → Step a b
    → IsSoundState a
    → Holds n m a.db.payments
    → Holds n m b.db.payments
Step-Holds n m {a} (hooks now d e) h =
    written-Holds n m a.claims a.db.payments
      (event-Handled a.claims a.refunds now d e a.db h).payments h.evidence
Step-Holds n m {a} (claims_order now new_id booking_id currency plan new free unread) h =
    claim-Holds n m now new_id booking_id currency plan a.db a.claims a.refunds h new
Step-Holds n m {a} (settles_order now booking_id id answer mine) h =
    written-Holds n m (filter_where (λ c. not (is_claim id c)) a.claims) a.db.payments
      (settle_order-Written now booking_id id answer a.db a.claims a.refunds h mine) h.evidence
Step-Holds n m {a} (reads_refund actor booking_id) h = λ held. held
Step-Holds n m {a} (reconciles now which reason answer {p} found) h =
    written-Holds n m a.claims a.db.payments
      (reconcile-Written a.claims a.refunds now p a.db h
        (All-find? (IsCaptured a.db.payments) which a.refunds h.captured found) reason answer)
      h.evidence
Step-Holds n m {a} (claims_refund now which reason {p} found) h =
    written-Holds n m a.claims a.db.payments
      (claim_refund-Written a.claims a.refunds now p a.db h
        (All-find? (IsCaptured a.db.payments) which a.refunds h.captured found) reason)
      h.evidence
Step-Holds n m {a} (settles_refund now outbox_id which answer {p} found) h =
    written-Holds n m a.claims a.db.payments
      (settle_refund-Handles a.claims a.refunds now p a.db h
        (All-find? (IsCaptured a.db.payments) which a.refunds h.captured found) outbox_id
        answer).payments
      h.evidence
Step-Holds n m {a} (changes_others bookings outbox) h = λ held. held

Steps-Holds :
    (n m : ℕ) {a b : State}
    → Steps a b
    → IsSoundState a
    → Holds n m a.db.payments
    → Holds n m b.db.payments
Steps-Holds n m done h held = held
Steps-Holds n m (then_ s rest) h held =
    Steps-Holds n m rest (Step-IsSound s h) (Step-Holds n m s h held)

find?-any :
    (p : PaymentRow → Bool) (xs : List PaymentRow) {x : PaymentRow}
    → find? p xs ≡ some x
    → any p xs ≡ true
find?-any p [] h = ground arith
find?-any p (y ∷ ys) {x} h = ground (arith, find?-any p ys {x = x})

any-find? :
    (p : PaymentRow → Bool) (xs : List PaymentRow)
    → any p xs ≡ true
    → (x : PaymentRow) × (find? p xs ≡ some x)
any-find? p [] h = absurd (ground arith)
any-find? p (y ∷ ys) h = elim (Bool-cases (p y)) [
  | inl this ↦ (y, rw this refl)
  | inr other ↦ let (x, found) = any-find? p ys (ground arith) in (x, rw (other, find?) found)
]

-- A payment of a sound state whose money came in keeps the provider's payment id, an order and a
-- status of money that came in over every interleaving of webhooks, orders and refunds.
pub paid_stays_paid :
    (n m : ℕ) {a b : State} {p : PaymentRow}
    → IsSoundState a
    → find? (has_payment_id n) a.db.payments ≡ some p
    → p.razorpay_payment_id ≡ some m
    → Steps a b
    → (r : PaymentRow) × (find? (has_payment_id n) b.db.payments ≡ some r)
      × (r.razorpay_payment_id ≡ some m)
      × (has_money r.status ≡ true)
      × (is_some r.razorpay_order_id ≡ true)
paid_stays_paid n m {a} {b} {p} h found paid steps =
    let held = Steps-Holds n m steps h (find?-any (has_payment_id n) a.db.payments found, all) in
    let sound = payments-IsSound steps h in
    let (r, there) = any-find? (has_payment_id n) b.db.payments held.0 in
    let pay =
      All-find? (HasCapture n m) (has_payment_id n) b.db.payments held.1 there
        (find?-sound (has_payment_id n) b.db.payments there) in
    let e = All-find? Evidence (has_payment_id n) b.db.payments sound.evidence there in
    let money = sym e.0 ∙ ap is_some pay in (r, there, pay, money, e.1 money)
  where
    all : All (HasCapture n m) a.db.payments
    all =
        All-map a.db.payments (λ r same i. ap (λ r. r.razorpay_payment_id) (same (meet r i)) ∙ paid)
          (found_only (λ r. r.id) (has_payment_id n) a.db.payments h.ids found)
      where
        meet : (r : PaymentRow) → (r.id == n) ≡ true → (r.id == p.id) ≡ true
        meet r i = let this = find?-sound (has_payment_id n) a.db.payments found in ground arith
