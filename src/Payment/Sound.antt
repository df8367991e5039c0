-- ===== src/Payment/Sound.antt =====
-- What payments keep: a payment has the provider's payment id exactly when money has come in, and
-- then its order; the claimants of order creation have their payment to themselves; the refunds
-- under way are of payments that were captured.
use labour_baba_backend.Base.{
  ◌==◌, if◌then◌else◌, Bool-cases, is_some, update_where, All, Keyed, update_where-Keyed, All-map,
  All-both, ℕ, ◌≡◌, refl, sym, ap, ◌∙◌, ◌⊎◌, inl, inr, Bool, true, false, Option, none, some, List,
  [], ◌∷◌, arith,
}
use labour_baba_backend.Payment.Status.{PaymentStatus, pending, failed, same_status}
use labour_baba_backend.Payment.Table.{PaymentRow}

abbrev pub has_money : PaymentStatus → Bool
has_money pending = false
has_money failed = false
has_money _ = true

abbrev pub Evidence : PaymentRow → Type 0
Evidence r =
    (is_some r.razorpay_payment_id ≡ has_money r.status)
    × (has_money r.status ≡ true → is_some r.razorpay_order_id ≡ true)

-- A payment whose order is being created.
abbrev pub IsUnordered : PaymentRow → Type 0
IsUnordered r = (same_status r.status pending ≡ true) × (is_some r.razorpay_order_id ≡ false)

abbrev pub IsClaimed : List PaymentRow → ℕ → Type 0
IsClaimed payments c = All (λ r. (r.id == c) ≡ true → IsUnordered r) payments

abbrev pub IsCaptured : List PaymentRow → PaymentRow → Type 0
IsCaptured payments p =
    All (λ r. (r.id == p.id) ≡ true → is_some r.razorpay_payment_id ≡ true) payments

pub record IsSound (payments : List PaymentRow) (claims : List ℕ) (refunds : List PaymentRow)
    : Type 0 where
  pub ids : Keyed (λ r. r.id) payments
  pub evidence : All Evidence payments
  pub exclusive : Keyed (λ c. c) claims
  pub claimed : All (IsClaimed payments) claims
  pub captured : All (IsCaptured payments) refunds

-- What a write may do to a payment.
pub record Moves (r r' : PaymentRow) : Type 0 where
  pub evidence : Evidence r'
  pub kept : (m : ℕ) → r.razorpay_payment_id ≡ some m → r'.razorpay_payment_id ≡ some m

-- The payment of a captured row keeps its identifier.
abbrev pub HasCapture : ℕ → ℕ → PaymentRow → Type 0
HasCapture n m r = (r.id == n) ≡ true → r.razorpay_payment_id ≡ some m

module _ (p : PaymentRow → Bool) (f : PaymentRow → PaymentRow)
    (same : (r : PaymentRow) → (f r).id ≡ r.id) where
  rewrite-Evidence :
      (xs : List PaymentRow)
      → All (λ r. p r ≡ true → Evidence r → Moves r (f r)) xs
      → All Evidence xs
      → All Evidence (update_where p f xs)
  rewrite-Evidence [] m e = tt
  rewrite-Evidence (x ∷ xs) m e = (here (Bool-cases (p x)), rewrite-Evidence xs m.1 e.1)
    where
      here : (p x ≡ true) ⊎ (p x ≡ false) → Evidence (if p x then f x else x)
      here (inl this) = rw this (m.0 this e.0).evidence
      here (inr other) = rw other e.0

  pub rewrite-HasCapture :
      (n m : ℕ) (xs : List PaymentRow)
      → All (λ r. p r ≡ true → Evidence r → Moves r (f r)) xs
      → All Evidence xs
      → All (HasCapture n m) xs
      → All (HasCapture n m) (update_where p f xs)
  rewrite-HasCapture n m [] w e h = tt
  rewrite-HasCapture n m (x ∷ xs) w e h =
      (here (Bool-cases (p x)), rewrite-HasCapture n m xs w.1 e.1 h.1)
    where
      here : (p x ≡ true) ⊎ (p x ≡ false) → HasCapture n m (if p x then f x else x)
      here (inl this) =
          rw this (λ i. (w.0 this e.0).kept m (h.0 (ap (λ k. k == n) (sym (same x)) ∙ i)))
      here (inr other) = rw other h.0

  rewrite-IsCaptured :
      (q : PaymentRow) (xs : List PaymentRow)
      → All (λ r. p r ≡ true → Evidence r → Moves r (f r)) xs
      → All Evidence xs
      → IsCaptured xs q
      → IsCaptured (update_where p f xs) q
  rewrite-IsCaptured q [] w e h = tt
  rewrite-IsCaptured q (x ∷ xs) w e h =
      (here (Bool-cases (p x)), rewrite-IsCaptured q xs w.1 e.1 h.1)
    where
      still :
          (o : Option ℕ)
          → x.razorpay_payment_id ≡ o
          → is_some o ≡ true
          → p x ≡ true
          → is_some (f x).razorpay_payment_id ≡ true
      still none eq s this = absurd (ground arith)
      still (some m) eq s this = ap is_some ((w.0 this e.0).kept m eq)

      here :
          (p x ≡ true) ⊎ (p x ≡ false)
          → ((if p x then f x else x).id == q.id) ≡ true
          → is_some (if p x then f x else x).razorpay_payment_id ≡ true
      here (inl this) = rw this (λ i.
          still x.razorpay_payment_id refl (h.0 (ap (λ k. k == q.id) (sym (same x)) ∙ i)) this)
      here (inr other) = rw other h.0

  rewrite-IsClaimed :
      (c : ℕ) (xs : List PaymentRow)
      → All (λ r. p r ≡ true → (r.id == c) ≡ true → IsUnordered r → IsUnordered (f r)) xs
      → IsClaimed xs c
      → IsClaimed (update_where p f xs) c
  rewrite-IsClaimed c [] w h = tt
  rewrite-IsClaimed c (x ∷ xs) w h = (here (Bool-cases (p x)), rewrite-IsClaimed c xs w.1 h.1)
    where
      here :
          (p x ≡ true) ⊎ (p x ≡ false)
          → ((if p x then f x else x).id == c) ≡ true
          → IsUnordered (if p x then f x else x)
      here (inl this) =
          rw this (λ i. let j = ap (λ k. k == c) (sym (same x)) ∙ i in w.0 this j (h.0 j))
      here (inr other) = rw other h.0

  -- A write that moves the rows it hits and leaves the claimants their payments.
  pub rewrite-IsSound :
      (payments : List PaymentRow) (claims : List ℕ) (refunds : List PaymentRow)
      → All (λ r. p r ≡ true → Evidence r → Moves r (f r)) payments
      → All
          (λ c.
            All (λ r. p r ≡ true → (r.id == c) ≡ true → IsUnordered r → IsUnordered (f r)) payments)
          claims
      → IsSound payments claims refunds
      → IsSound (update_where p f payments) claims refunds
  rewrite-IsSound payments claims refunds w leaves h = record {
    ids = update_where-Keyed (λ r. r.id) p f payments same h.ids;
    evidence = rewrite-Evidence payments w h.evidence;
    exclusive = h.exclusive;
    claimed = All-both claims (λ c l k. rewrite-IsClaimed c payments l k) leaves h.claimed;
    captured = All-map refunds (λ q k. rewrite-IsCaptured q payments w h.evidence k) h.captured;
  }
