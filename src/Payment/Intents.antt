-- ===== src/Payment/Intents.antt =====
-- The claim of an order's creation: a new payment, or a failed one taken up again.
use labour_baba_backend.Base.{
  ◌==◌, if◌then◌else◌, ==_iff, Bool-cases, is_some, any, update_where, count_where, All, Keyed,
  Text, All-map, All-both, All-append, Keyed-append, everywhere, any-All, any-Keyed, any-none-All,
  count_where-any, ℕ, ◌≡◌, refl, ap, ◌∙◌, ◌⊎◌, inl, inr, Bool, true, false, ◌&&◌, List, [], ◌∷◌,
  ◌++◌, arith,
}
use labour_baba_backend.Payment.Status.{PaymentStatus, pending, failed, same_status}
use labour_baba_backend.Payment.Table.{PaymentRow, PayDb, has_payment_id}
use labour_baba_backend.Payment.Machine.{is_at}
use labour_baba_backend.Payment.Order.{
  OrderPlan, respond, create, retry, contend, intent, reclaimed, claim_order,
}
use labour_baba_backend.Payment.Sound.{IsSound, has_money, Evidence, IsUnordered, IsClaimed}
use labour_baba_backend.Payment.Writes.{Written, written, Written-IsSound}
use labour_baba_backend.Payment.Steps.{is_claim, hold_claim}
use labour_baba_backend.Payment.Claims.{clash, unpaid-Moves}

-- A failed payment is nobody's claim.
failed_unclaimed : (id c : ℕ) (r : PaymentRow) → is_at id failed r ≡ true → IsUnordered r → ⊥
failed_unclaimed id c r this u = go (r.id == id) r.status this u.0
  where
    go :
        (a : Bool) (s : PaymentStatus)
        → (a && same_status s failed) ≡ true
        → same_status s pending ≡ true
        → ⊥
    go a s t v = ground arith

pub retry-Written :
    (now id amount : ℕ) (currency : Text) (payments : List PaymentRow) (claims : List ℕ)
    (refunds : List PaymentRow)
    → IsSound payments claims refunds
    → Written claims payments
        (update_where (is_at id failed) (reclaimed now currency amount) payments)
retry-Written now id amount currency payments claims refunds h =
    written (is_at id failed) (reclaimed now currency amount) (λ _. refl)
      (everywhere payments (λ r this e.
        unpaid-Moves r (reclaimed now currency amount r) (e.0 ∙ broke (r.id == id) r.status this)
          refl refl))
      (everywhere claims
        (λ c. everywhere payments (λ r this i u. absurd (failed_unclaimed id c r this u))))
  where
    broke :
        (a : Bool) (s : PaymentStatus) → (a && same_status s failed) ≡ true → has_money s ≡ false
    broke a s t = ground arith

-- Who has claimed a failed payment has it to itself.
retry-IsClaimed :
    (now id amount : ℕ) (currency : Text) (payments : List PaymentRow)
    → Keyed (λ r. r.id) payments
    → any (is_at id failed) payments ≡ true
    → IsClaimed (update_where (is_at id failed) (reclaimed now currency amount) payments) id
retry-IsClaimed now id amount currency payments k got =
    go payments (any-Keyed (λ r. r.id) (λ r. same_status r.status failed) payments k)
  where
    broke :
        (r : PaymentRow)
        → (any (λ x. x.id == r.id && same_status x.status failed) payments ≡ true
            → same_status r.status failed ≡ true)
        → (r.id == id) ≡ true
        → is_at id failed r ≡ true
    broke r same this =
        let n = (==_iff r.id id).0 this in
        let there =
          ap (λ m. any (λ x. x.id == m && same_status x.status failed) payments) n ∙ got in
        rw (this, same there) refl

    go :
        (xs : List PaymentRow)
        → All
            (λ r.
              any (λ x. x.id == r.id && same_status x.status failed) payments ≡ true
              → same_status r.status failed ≡ true)
            xs
        → IsClaimed (update_where (is_at id failed) (reclaimed now currency amount) xs) id
    go [] a = tt
    go (x ∷ xs) a = (here (Bool-cases (is_at id failed x)), go xs a.1)
      where
        here :
            (is_at id failed x ≡ true) ⊎ (is_at id failed x ≡ false)
            → ((if is_at id failed x then reclaimed now currency amount x else x).id == id) ≡ true
            → IsUnordered (if is_at id failed x then reclaimed now currency amount x else x)
        here (inl this) = rw this (λ _. (refl, refl))
        here (inr other) = rw other (λ i. absurd (clash (is_at id failed x) (broke x a.0 i) other))

-- A claim that nobody has is added.
add-IsSound :
    (payments : List PaymentRow) (claims : List ℕ) (refunds : List PaymentRow) (id : ℕ)
    → IsSound payments claims refunds
    → IsClaimed payments id
    → any (is_claim id) claims ≡ false
    → IsSound payments (claims ++ id ∷ []) refunds
add-IsSound payments claims refunds id h mine new = record {
  ids = h.ids;
  evidence = h.evidence;
  exclusive =
      Keyed-append (λ c. c) claims id h.exclusive
        (All-map claims (λ c other. ground arith) (any-none-All (is_claim id) claims new));
  claimed = All-append (IsClaimed payments) claims h.claimed mine;
  captured = h.captured;
}

-- A failed payment that is to be claimed is in nobody's hands.
retry_free :
    (id : ℕ) (payments : List PaymentRow) (claims : List ℕ)
    → All (IsClaimed payments) claims
    → any (is_at id failed) payments ≡ true
    → any (is_claim id) claims ≡ false
retry_free id payments claims h got = elim (Bool-cases (any (is_claim id) claims)) [
  | inr free ↦ free
  | inl taken ↦ absurd (
      any-All (is_claim id) claims taken (
        All-map claims
          (λ c k this.
            any-All (is_at id failed) payments got
              (All-map payments (λ r u at. failed_unclaimed id c r at (u (meet r c at this))) k))
          h))
]
  where
    meet :
        (r : PaymentRow) (c : ℕ)
        → is_at id failed r ≡ true
        → is_claim id c ≡ true
        → (r.id == c) ≡ true
    meet r c at this = go (r.id) (same_status r.status failed) at
      where
        go : (a : ℕ) (b : Bool) → (a == id && b) ≡ true → (a == c) ≡ true
        go a b t = ground arith

append-IsSound :
    (payments : List PaymentRow) (claims : List ℕ) (refunds : List PaymentRow) (r : PaymentRow)
    → IsSound payments claims refunds
    → Evidence r
    → any (has_payment_id r.id) payments ≡ false
    → any (is_claim r.id) claims ≡ false
    → any (has_payment_id r.id) refunds ≡ false
    → IsSound (payments ++ r ∷ []) claims refunds
append-IsSound payments claims refunds r h e new free unread = record {
  ids =
      Keyed-append (λ r. r.id) payments r h.ids
        (All-map payments (λ x other. ground arith)
          (any-none-All (has_payment_id r.id) payments new));
  evidence = All-append Evidence payments h.evidence e;
  exclusive = h.exclusive;
  claimed =
      All-both claims
        (λ c other k.
          All-append (λ x. (x.id == c) ≡ true → IsUnordered x) payments k
            (λ i. absurd (differ c other i)))
        (any-none-All (is_claim r.id) claims free) h.claimed;
  captured =
      All-both refunds
        (λ q other k.
          All-append (λ x. (x.id == q.id) ≡ true → is_some x.razorpay_payment_id ≡ true) payments k
            (λ i. absurd (differ q.id other i)))
        (any-none-All (has_payment_id r.id) refunds unread) h.captured;
}
  where
    differ : (c : ℕ) → (c == r.id) ≡ false → (r.id == c) ≡ true → ⊥
    differ c o i = ground arith

pub claim_order-IsSound :
    (now new_id booking_id : ℕ) (currency : Text) (plan : OrderPlan) (db : PayDb) (claims : List ℕ)
    (refunds : List PaymentRow)
    → IsSound db.payments claims refunds
    → any (has_payment_id new_id) db.payments ≡ false
    → any (is_claim new_id) claims ≡ false
    → any (has_payment_id new_id) refunds ≡ false
    → IsSound
        (claim_order now new_id booking_id currency plan db).1.payments
        (hold_claim (claim_order now new_id booking_id currency plan db).0 claims)
        refunds
unfolding claim_order
claim_order-IsSound now new_id booking_id currency (respond r) db claims refunds h new free unread =
    h
claim_order-IsSound now new_id booking_id currency (contend p amount) db claims refunds h new free
      unread =
    h
claim_order-IsSound now new_id booking_id currency (create amount) db claims refunds h new free
      unread =
    elim (Bool-cases (any (λ p. p.booking_id == booking_id) db.payments)) [
      | inl paid ↦ rw (claim_order, paid) h
      | inr first ↦
          rw (claim_order, first)
            (add-IsSound (db.payments ++ intent now new_id booking_id currency amount ∷ []) claims
              refunds new_id
              (append-IsSound db.payments claims refunds
                (intent now new_id booking_id currency amount) h (refl, λ m. absurd (ground arith))
                new free unread)
              (All-append (λ r. (r.id == new_id) ≡ true → IsUnordered r) db.payments
                (All-map db.payments (λ r other i. absurd (clash (r.id == new_id) i other))
                  (any-none-All (has_payment_id new_id) db.payments new))
                (λ _. (refl, refl)))
              free)
    ]
claim_order-IsSound now new_id booking_id currency (retry id amount) db claims refunds h new free
      unread =
    elim (Bool-cases (count_where (is_at id failed) db.payments == 0)) [
      | inl lost ↦ rw (claim_order, lost) h
      | inr won ↦
          let got = count_where-any (is_at id failed) db.payments won in
          let payments =
            update_where (is_at id failed) (reclaimed now currency amount) db.payments in
          rw (claim_order, won)
            (add-IsSound payments claims refunds id
              (Written-IsSound claims refunds db.payments
                (retry-Written now id amount currency db.payments claims refunds h) h)
              (retry-IsClaimed now id amount currency db.payments h.ids got)
              (retry_free id db.payments claims h.claimed got))
    ]
