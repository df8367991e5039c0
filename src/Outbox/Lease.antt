-- ===== src/Outbox/Lease.antt =====
-- Who may settle an event: the claims of the outbox's workers against each other.
use labour_baba_backend.Base.{
  leb, if◌then◌else◌, ==_iff, Bool-cases, any, update_where, filter_where, All, All-map, everywhere,
  any-All, any-filter_where, ℕ, zero, suc, ◌+◌, ◌<◌, ◌≡◌, refl, ap, ◌⊎◌, inl, inr, Bool, true,
  false, not, ◌&&◌, ◌||◌, List, [], ◌∷◌, arith,
}
use labour_baba_backend.Outbox.Table.{OutboxStatus, OutboxRecord, is_pending, is_processing}
use labour_baba_backend.Outbox.Service.{
  minutes, insert_by_age, order_by_age, take, has_id, is_among, leased, is_free, claimable,
  claim_pending_events,
}

any-take :
    (p : OutboxRecord → Bool) (n : ℕ) (xs : List OutboxRecord)
    → any p (take n xs) ≡ true
    → any p xs ≡ true
any-take p zero xs h = ground arith
any-take p (suc n) [] h = ground arith
any-take p (suc n) (x ∷ xs) h = ground (arith, any-take p n xs)

any-insert_by_age :
    (p : OutboxRecord → Bool) (e : OutboxRecord) (xs : List OutboxRecord)
    → any p (insert_by_age e xs) ≡ true
    → (p e || any p xs) ≡ true
any-insert_by_age p e [] h = ground arith
any-insert_by_age p e (x ∷ xs) h = ground (arith, any-insert_by_age p e xs)

any-order_by_age :
    (p : OutboxRecord → Bool) (xs : List OutboxRecord)
    → any p (order_by_age xs) ≡ true
    → any p xs ≡ true
any-order_by_age p [] h = h
any-order_by_age p (x ∷ xs) h =
    let at = any-insert_by_age p x (order_by_age xs) h in ground (arith, any-order_by_age p xs)

-- What is chosen was eligible.
pub any-claimable :
    (p locked : OutboxRecord → Bool) (now threshold batch : ℕ) (events : List OutboxRecord)
    → any p (claimable locked now threshold batch events) ≡ true
    → any (λ e. p e && is_free locked now threshold e) events ≡ true
unfolding claimable
any-claimable p locked now threshold batch events h =
    any-filter_where p (is_free locked now threshold) events (
      any-order_by_age p (filter_where (is_free locked now threshold) events)
        (any-take p batch (order_by_age (filter_where (is_free locked now threshold) events)) h))

-- The row with an id is under the lease of a time.
abbrev pub IsLeased : ℕ → ℕ → OutboxRecord → Type 0
IsLeased n t e = has_id n e ≡ true → (is_processing e.status ≡ true) × (e.updated_at ≡ t)

among-same :
    (chosen : List OutboxRecord) (n : ℕ) (e : OutboxRecord)
    → has_id n e ≡ true
    → is_among chosen e ≡ any (has_id n) chosen
among-same chosen n e h = ap (λ m. any (has_id m) chosen) ((==_iff e.id n).0 h)

leased-IsLeased :
    (chosen : List OutboxRecord) (now n : ℕ) (events : List OutboxRecord)
    → any (has_id n) chosen ≡ true
    → All (IsLeased n now) (update_where (is_among chosen) (leased now) events)
leased-IsLeased chosen now n [] h = tt
leased-IsLeased chosen now n (x ∷ xs) h =
    (here (Bool-cases (is_among chosen x)), leased-IsLeased chosen now n xs h)
  where
    here :
        (is_among chosen x ≡ true) ⊎ (is_among chosen x ≡ false)
        → IsLeased n now (if is_among chosen x then leased now x else x)
    here (inl this) = rw this (λ _. (refl, refl))
    here (inr other) = rw other (λ e. absurd (ground (arith, among-same chosen n x e)))

-- What a claim returns it has chosen.
returned-chosen :
    (chosen written : List OutboxRecord) (n : ℕ)
    → any (has_id n) (filter_where (is_among chosen) written) ≡ true
    → any (has_id n) chosen ≡ true
returned-chosen chosen written n h =
    any-All (λ e. has_id n e && is_among chosen e) written
      (any-filter_where (has_id n) (is_among chosen) written h)
      (everywhere written (λ e both. ground (arith, among-same chosen n e)))

leased-unfit :
    (locked : OutboxRecord → Bool) (t now threshold n : ℕ) (e : OutboxRecord)
    → now < t + minutes threshold
    → IsLeased n t e
    → (has_id n e && is_free locked now threshold e) ≡ false
leased-unfit locked t now threshold n e early lease = elim (Bool-cases (has_id n e)) [
  | inr other ↦ ground arith
  | inl this ↦ let held = lease this in go e.status e.updated_at held.0 held.1
]
  where
    go :
        (s : OutboxStatus) (u : ℕ)
        → is_processing s ≡ true
        → u ≡ t
        → (has_id n e
            && (((is_pending s && leb e.available_at now)
                  || (is_processing s && leb (u + minutes threshold) now))
                && not (locked e)))
          ≡ false
    go s u p q = ground arith

-- A claim that returns an event leases it.
pub claimed-IsLeased :
    (locked : OutboxRecord → Bool) (now threshold batch n : ℕ) (events : List OutboxRecord)
    → any (has_id n) (claim_pending_events locked now threshold batch events).0 ≡ true
    → All (IsLeased n now) (claim_pending_events locked now threshold batch events).1
unfolding claim_pending_events
claimed-IsLeased locked now threshold batch n events h =
    let chosen = claimable locked now threshold batch events in
    let written = update_where (is_among chosen) (leased now) events in
    leased-IsLeased chosen now n events (returned-chosen chosen written n h)

-- A claim does not return an event whose lease has not timed out.
pub claim-passes :
    (locked : OutboxRecord → Bool) (t now threshold batch n : ℕ) (events : List OutboxRecord)
    → now < t + minutes threshold
    → All (IsLeased n t) events
    → any (has_id n) (claim_pending_events locked now threshold batch events).0 ≡ false
unfolding claim_pending_events
claim-passes locked t now threshold batch n events early l =
    let chosen = claimable locked now threshold batch events in
    let written = update_where (is_among chosen) (leased now) events in
    elim (Bool-cases (any (has_id n) (filter_where (is_among chosen) written))) [
      | inr passed ↦ passed
      | inl got ↦
          any-All (λ e. has_id n e && is_free locked now threshold e) events
            (any-claimable (has_id n) locked now threshold batch events
              (returned-chosen chosen written n got))
            (All-map events
              (λ e lease fits.
                absurd (ground (arith, leased-unfit locked t now threshold n e early lease)))
              l)
    ]

-- Of two claims in a row, the second before the lease of the first times out, no event is returned
-- by both.
pub claims_disjoint :
    (locked locked' : OutboxRecord → Bool) (t now threshold batch batch' n : ℕ)
    (events : List OutboxRecord)
    → now < t + minutes threshold
    → any (has_id n) (claim_pending_events locked t threshold batch events).0 ≡ true
    → any
        (has_id n)
        (claim_pending_events locked' now threshold batch'
          (claim_pending_events locked t threshold batch events).1).0
      ≡ false
claims_disjoint locked locked' t now threshold batch batch' n events early got =
    claim-passes locked' t now threshold batch' n
      (claim_pending_events locked t threshold batch events).1 early
      (claimed-IsLeased locked t threshold batch n events got)
