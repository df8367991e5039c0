-- ===== src/Payment/Capture.antt =====
-- When a captured payment completes the local one.
use labour_baba_backend.Base.{
  ◌==◌, ==_refl, Bool-cases, Option-cases, find?, update_where, count_where, find?-update_where,
  All-find?, Keyed, Text, All-map, none-count_where, any-All, found_only, count_where-any, ℕ, ◌≡◌,
  refl, sym, ap, ◌∙◌, inl, inr, Bool, true, false, ◌&&◌, Option, none, some, List, [], ◌∷◌, arith,
}
use labour_baba_backend.Payment.Status.{pending, completed, same_status}
use labour_baba_backend.Payment.Table.{PaymentRow, PayDb, has_payment_id, has_order}
use labour_baba_backend.Payment.Machine.{
  is_at, transition_payment_status, with_payments, notify_customer, notify_worker,
}
use labour_baba_backend.Payment.Webhook.{
  Draws, payment_captured, amount_differs, currency_differs, capture, captured_in_tx,
}
use labour_baba_backend.Payment.Sound.{IsSound}
use labour_baba_backend.Payment.Hooks.{customer-Aside, worker-Aside, then-Aside, finish-Aside}
use labour_baba_backend.Outbox.Table.{payment_completed, is_pending}

abbrev capture_row : ℕ → ℕ → PaymentRow → PaymentRow
capture_row now n r = record r {
  status = completed;
  updated_at = now;
  razorpay_payment_id = some n;
}

-- Two amounts, where both are named, are the same.
abbrev pub Agrees : Option ℕ → Option ℕ → Type 0
Agrees none _ = Unit
Agrees (some a) none = Unit
Agrees (some a) (some b) = a ≡ b

same-Agrees : (a b : Option ℕ) → amount_differs a b ≡ false → Agrees a b
same-Agrees none b h = tt
same-Agrees (some a) none h = tt
same-Agrees (some a) (some b) h = ground arith

pending_found :
    (order : ℕ) (payments : List PaymentRow) {p : PaymentRow}
    → Keyed (λ r. r.id) payments
    → find? (has_order order) payments ≡ some p
    → (count_where (is_at p.id pending) payments == 0) ≡ false
    → same_status p.status pending ≡ true
pending_found order payments {p} k found some_ =
    any-All (is_at p.id pending) payments (count_where-any (is_at p.id pending) payments some_) (
      All-map payments
        (λ r same at.
          ap (λ r. same_status r.status pending) (sym (same (first_of (r.id == p.id) _ at)))
          ∙ second_of (r.id == p.id) _ at)
        (found_only (λ r. r.id) (has_order order) payments k found))
  where
    first_of : (a b : Bool) → (a && b) ≡ true → a ≡ true
    first_of a b t = ground arith

    second_of : (a b : Bool) → (a && b) ≡ true → b ≡ true
    second_of a b t = ground arith

capture_found :
    (now n order : ℕ) (payments : List PaymentRow) {p : PaymentRow}
    → Keyed (λ r. r.id) payments
    → find? (has_order order) payments ≡ some p
    → same_status p.status pending ≡ true
    → find? (has_payment_id p.id) (update_where (is_at p.id pending) (capture_row now n) payments)
      ≡ some (capture_row now n p)
capture_found now n order payments {p} k found is_pending =
    find?-update_where (is_at p.id pending) (has_payment_id p.id) (capture_row now n) payments
      (λ _. refl)
    ∙ rw (by_id payments k found, ==_refl p.id, is_pending) refl
  where
    by_id :
        (xs : List PaymentRow)
        → Keyed (λ r. r.id) xs
        → find? (has_order order) xs ≡ some p
        → find? (has_payment_id p.id) xs ≡ some p
    by_id [] k f = ground arith
    by_id (y ∷ ys) k f = elim (Bool-cases (has_order order y)) [
      | inl this ↦
          let same : y ≡ p = ground arith in
          rw (ap (has_payment_id p.id) same ∙ ==_refl p.id) (ap some same)
      | inr other ↦
          let later : find? (has_order order) ys ≡ some p = ground arith in
          let differ =
            All-find? (λ z. (z.id == y.id) ≡ false) (has_order order) ys
              (none-count_where (λ z. z.id == y.id) ys k.0) later in
          let apart : has_payment_id p.id y ≡ false = ground arith in
          rw (apart, find?) (by_id ys k.1 later)
    ]

-- When a captured event on sound payments reports the payment as captured, the local payment with
-- its order was pending, and where both sides name an amount or a currency they agree; the payment
-- is now completed with the provider's payment id.
pub captured_only :
    (claims : List ℕ) (refunds : List PaymentRow) (now : ℕ) (d : Draws) (order n : ℕ)
    (amount : Option ℕ) (currency : Option Text) (db : PayDb)
    → IsSound db.payments claims refunds
    → (captured_in_tx now d order n amount currency db).0 ≡ payment_captured
    → (p : PaymentRow) × (find? (has_order order) db.payments ≡ some p)
      × (same_status p.status pending ≡ true)
      × Agrees amount p.amount
      × (currency_differs currency p.currency ≡ false)
      × (find? (has_payment_id p.id) (captured_in_tx now d order n amount currency db).1.payments
          ≡ some (record p { status = completed; updated_at = now; razorpay_payment_id = some n }))
unfolding captured_in_tx capture transition_payment_status
captured_only claims refunds now d order n amount currency db h =
    elim (Option-cases (find? (has_order order) db.payments)) [
      | inl missing ↦ rw (captured_in_tx, missing) (λ e. absurd (ground arith))
      | inr (p, found) ↦ elim (Bool-cases (amount_differs amount p.amount)) [
        | inl differs ↦ rw (captured_in_tx, found, differs) (λ e. absurd (ground arith))
        | inr same ↦ elim (Bool-cases (currency_differs currency p.currency)) [
          | inl differs ↦ rw (captured_in_tx, found, same, differs) (λ e. absurd (ground arith))
          | inr fits ↦ elim (Bool-cases (count_where (is_at p.id pending) db.payments == 0)) [
            | inl none_ ↦ rw (captured_in_tx, found, same, fits, none_) (λ e. absurd (ground arith))
            | inr some_ ↦
                let was = pending_found order db.payments h.ids found some_ in
                let paid =
                  with_payments (update_where (is_at p.id pending) (capture_row now n) db.payments)
                    db in
                let told = notify_customer now d.first_notice payment_completed p paid in
                let both = notify_worker now d.second_notice payment_completed p told in
                let aside =
                  then-Aside (customer-Aside now d.first_notice payment_completed p paid) (
                    then-Aside (worker-Aside now d.second_notice payment_completed p told)
                      (finish-Aside now d both)) in
                rw (captured_in_tx, found, same, fits, some_)
                  (λ e. (
                    p,
                    refl,
                    was,
                    same-Agrees amount p.amount same,
                    fits,
                    ap (find? (has_payment_id p.id)) aside.payments
                        ∙ capture_found now n order db.payments h.ids found was,
                  ))
          ]
        ]
      ]
    ]
