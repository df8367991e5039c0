-- ===== src/Payment/Claims.antt =====
-- The creation of an order: the claimant has its payment to itself until it has settled it.
use mathlib.Core.Path.{subst}
use labour_baba_backend.Base.{
  ◌==◌, ==_iff, Bool-cases, is_some, any, update_where, filter_where, Text, Result, ok, err,
  All-map, All-filter_where, Keyed-filter_where, everywhere, any-All, filter_where-All, ℕ, ◌≡◌,
  refl, sym, ap, ◌∙◌, inl, inr, Bool, true, false, not, ◌&&◌, List, arith,
}
use labour_baba_backend.Payment.Status.{PaymentStatus, pending, same_status}
use labour_baba_backend.Payment.Table.{PaymentRow, PayDb, has_payment_id, has_order}
use labour_baba_backend.Payment.Order.{
  ProviderOrder, is_orderless, order_failed, ordered, settle_order,
}
use labour_baba_backend.Payment.Sound.{IsSound, Moves, has_money, Evidence, IsUnordered, IsClaimed}
use labour_baba_backend.Payment.Writes.{Written, unchanged, written, Written-IsSound}
use labour_baba_backend.Payment.Steps.{State, is_claim}

pub clash : (b : Bool) → b ≡ true → b ≡ false → ⊥
clash b t f = ground arith

pub unpaid : (r : PaymentRow) → IsUnordered r → Evidence r → is_some r.razorpay_payment_id ≡ false
unpaid r u e = e.0 ∙ go r.status u.0
  where
    go : (s : PaymentStatus) → same_status s pending ≡ true → has_money s ≡ false
    go s h = ground arith

-- A write to an unpaid payment by which it stays unpaid.
pub unpaid-Moves :
    (r r' : PaymentRow)
    → is_some r.razorpay_payment_id ≡ false
    → r'.razorpay_payment_id ≡ r.razorpay_payment_id
    → has_money r'.status ≡ false
    → Moves r r'
unpaid-Moves r r' none_ pay money = record {
  evidence =
      (ap is_some pay ∙ none_ ∙ sym money, λ m. absurd (clash (has_money r'.status) m money));
  kept = λ m h. pay ∙ h;
}

shrink-IsSound :
    (payments : List PaymentRow) (claims : List ℕ) (refunds : List PaymentRow) (q : ℕ → Bool)
    → IsSound payments claims refunds
    → IsSound payments (filter_where q claims) refunds
shrink-IsSound payments claims refunds q h = record {
  ids = h.ids;
  evidence = h.evidence;
  exclusive = Keyed-filter_where (λ c. c) q claims h.exclusive;
  claimed = All-filter_where (IsClaimed payments) q claims h.claimed;
  captured = h.captured;
}

-- The claimant's own payment is no other claimant's.
apart : (a id c : ℕ) → (a == id) ≡ true → (a == c) ≡ true → not (is_claim id c) ≡ true → ⊥
apart a id c p q r = ground arith

module _ (payments : List PaymentRow) (claims : List ℕ) (refunds : List PaymentRow) (id : ℕ)
    (h : IsSound payments claims refunds) (mine : any (is_claim id) claims ≡ true) where
  is_mine : IsClaimed payments id
  is_mine =
      any-All (is_claim id) claims mine
        (All-map claims (λ c k this. subst (IsClaimed payments) ((==_iff c id).0 this) k) h.claimed)

  -- A write to the claimed payment.
  pub own-Written :
      (p : PaymentRow → Bool) (f : PaymentRow → PaymentRow)
      → ((r : PaymentRow) → (f r).id ≡ r.id)
      → ((r : PaymentRow) → (f r).razorpay_payment_id ≡ r.razorpay_payment_id)
      → ((r : PaymentRow) → has_money (f r).status ≡ false)
      → ((r : PaymentRow) → p r ≡ true → (r.id == id) ≡ true)
      → Written
          (filter_where (λ c. not (is_claim id c)) claims)
          payments
          (update_where p f payments)
  own-Written p f same pay money own =
      written p f same
        (All-map payments
          (λ r u this e. unpaid-Moves r (f r) (unpaid r (u (own r this)) e) (pay r) (money r))
          is_mine)
        (All-map (filter_where (λ c. not (is_claim id c)) claims)
          (λ c other.
            everywhere payments (λ r this i u. absurd (apart r.id id c (own r this) i other)))
          (filter_where-All (λ c. not (is_claim id c)) claims))

pub settle_order-Written :
    (now booking_id id : ℕ) (answer : Result Text ProviderOrder) (db : PayDb) (claims : List ℕ)
    (refunds : List PaymentRow)
    → IsSound db.payments claims refunds
    → any (is_claim id) claims ≡ true
    → Written
        (filter_where (λ c. not (is_claim id c)) claims)
        db.payments
        (settle_order now booking_id id answer db).1.payments
unfolding settle_order
settle_order-Written now booking_id id (err message) db claims refunds h mine =
    own-Written db.payments claims refunds id h mine (is_orderless id) (order_failed now message)
      (λ _. refl) (λ _. refl) (λ _. refl) (λ r. first_of (r.id == id) _)
  where
    first_of : (a b : Bool) → (a && b) ≡ true → a ≡ true
    first_of a b t = ground arith
settle_order-Written now booking_id id (ok o) db claims refunds h mine =
    elim (Bool-cases (any (has_order o.razorpay_order_id) db.payments)) [
      | inl taken ↦ rw (settle_order, taken) unchanged
      | inr free ↦ elim (Bool-cases (any (has_payment_id id) db.payments)) [
        | inr gone ↦ rw (settle_order, free, gone) unchanged
        | inl here ↦
            rw (settle_order, free, here)
              (own-Written db.payments claims refunds id h mine (has_payment_id id) (ordered now o)
                (λ _. refl) (λ _. refl) (λ _. refl) (λ r this. this))
      ]
    ]

pub settle_order-IsSound :
    (now booking_id id : ℕ) (answer : Result Text ProviderOrder) (st : State)
    → IsSound st.db.payments st.claims st.refunds
    → any (is_claim id) st.claims ≡ true
    → IsSound
        (settle_order now booking_id id answer st.db).1.payments
        (filter_where (λ c. not (is_claim id c)) st.claims)
        st.refunds
settle_order-IsSound now booking_id id answer st h mine =
    Written-IsSound (filter_where (λ c. not (is_claim id c)) st.claims) st.refunds st.db.payments
      (settle_order-Written now booking_id id answer st.db st.claims st.refunds h mine)
      (shrink-IsSound st.db.payments st.claims st.refunds (λ c. not (is_claim id c)) h)
