-- ===== src/Outbox/Sound.antt =====
-- What every call of the outbox keeps: identifiers and idempotency keys that occur once, and open
-- events with attempts left.
use labour_baba_backend.Base.{
  leb, if◌then◌else◌, Bool-cases, Option-cases, any, find?, update_where, All, Keyed,
  update_where-Keyed, All-map, All-append, All-filter_where, Keyed-append, Keyed-filter_where,
  everywhere, Distinct, update_where-Distinct, filter_where-Distinct, append-Distinct, any-Keyed,
  any-none-All, ℕ, ◌+◌, ◌≤◌, ◌<◌, ◌≡◌, refl, ap, ◌⊎◌, inl, inr, Bool, true, false, not, ◌&&◌, ◌||◌,
  Option, none, List, [], ◌∷◌, arith,
}
use labour_baba_backend.Outbox.Table.{
  OutboxStatus, OutboxRecord, OutboxDb, same_key, is_pending, is_processing, is_open,
}
use labour_baba_backend.Outbox.Service.{
  CreateOutboxEventDto, key_of, has_key, enqueued, create_outbox_event, minutes, is_stale, has_id,
  is_among, leased, is_free, claimable, claim_pending_events, is_held, delivered,
  mark_event_success, recovered, reconcile_stale_events,
}
use labour_baba_backend.Outbox.Channels.{Retention, is_aged, cleanup_aged_events}
use labour_baba_backend.Outbox.Lease.{any-claimable}

abbrev pub same_idempotency : OutboxRecord → OutboxRecord → Bool
same_idempotency e f = same_key e.idempotency_key f.idempotency_key

-- An event that is still to be delivered has attempts left; a settled one used no more than it had.
abbrev pub HasAttempts : OutboxRecord → Type 0
HasAttempts e =
    (is_open e.status ≡ true → e.attempts < e.max_attempts) × (e.attempts ≤ e.max_attempts)

pub record IsSound (events : List OutboxRecord) : Type 0 where
  pub ids : Keyed (λ e. e.id) events
  pub keys : Distinct same_idempotency events
  pub attempts : All HasAttempts events

-- An update that leaves identifier and key as they are, and the attempts in order.
pub update-IsSound :
    (p : OutboxRecord → Bool) (f : OutboxRecord → OutboxRecord) (events : List OutboxRecord)
    → ((e : OutboxRecord) → (f e).id ≡ e.id)
    → ((e : OutboxRecord) → (f e).idempotency_key ≡ e.idempotency_key)
    → All (λ e. p e ≡ true → HasAttempts e → HasAttempts (f e)) events
    → IsSound events
    → IsSound (update_where p f events)
update-IsSound p f events id key keep h = record {
  ids = update_where-Keyed (λ e. e.id) p f events id h.ids;
  keys =
      update_where-Distinct same_idempotency p f events
        (λ x y. ap (λ k. same_key k y.idempotency_key) (key x))
        (λ x y. ap (same_key x.idempotency_key) (key y)) h.keys;
  attempts = all events keep h.attempts;
}
  where
    all :
        (xs : List OutboxRecord)
        → All (λ e. p e ≡ true → HasAttempts e → HasAttempts (f e)) xs
        → All HasAttempts xs
        → All HasAttempts (update_where p f xs)
    all [] k a = tt
    all (x ∷ xs) k a = (here (Bool-cases (p x)), all xs k.1 a.1)
      where
        here : (p x ≡ true) ⊎ (p x ≡ false) → HasAttempts (if p x then f x else x)
        here (inl this) = rw this (k.0 this a.0)
        here (inr other) = rw other a.0

pub keep-IsSound :
    (p : OutboxRecord → Bool) (f : OutboxRecord → OutboxRecord) (events : List OutboxRecord)
    → ((e : OutboxRecord) → (f e).id ≡ e.id)
    → ((e : OutboxRecord) → (f e).idempotency_key ≡ e.idempotency_key)
    → ((e : OutboxRecord) → p e ≡ true → HasAttempts e → HasAttempts (f e))
    → IsSound events
    → IsSound (update_where p f events)
keep-IsSound p f events id key keep h = update-IsSound p f events id key (everywhere events keep) h

pub success-IsSound :
    (now id : ℕ) (lease : Option ℕ) (events : List OutboxRecord)
    → IsSound events
    → IsSound (mark_event_success now id lease events).1
unfolding mark_event_success
success-IsSound now id lease events h =
    keep-IsSound (is_held id lease) (delivered now) events (λ _. refl) (λ _. refl)
      (λ e fits a. (λ o. absurd (ground arith), a.1)) h

pub recover-IsSound :
    (now threshold : ℕ) (events : List OutboxRecord)
    → IsSound events
    → IsSound (reconcile_stale_events now threshold events).1
unfolding reconcile_stale_events
recover-IsSound now threshold events h =
    keep-IsSound (is_stale now threshold) (recovered now) events (λ _. refl) (λ _. refl)
      (λ e fits a. (λ _. a.0 (was_open e.status (ground arith)), a.1)) h
  where
    was_open : (s : OutboxStatus) → is_processing s ≡ true → is_open s ≡ true
    was_open s p = ground arith

pub prune-IsSound :
    (now : ℕ) (r : Retention) (events : List OutboxRecord)
    → IsSound events
    → IsSound (cleanup_aged_events now r events).1
unfolding cleanup_aged_events
prune-IsSound now r events h = record {
  ids = Keyed-filter_where (λ e. e.id) (λ e. not (is_aged now r e)) events h.ids;
  keys = filter_where-Distinct same_idempotency (λ e. not (is_aged now r e)) events h.keys;
  attempts = All-filter_where HasAttempts (λ e. not (is_aged now r e)) events h.attempts;
}

find?-none-All :
    (p : OutboxRecord → Bool) (xs : List OutboxRecord)
    → find? p xs ≡ none
    → All (λ x. p x ≡ false) xs
find?-none-All p [] h = tt
find?-none-All p (x ∷ xs) h = (ground arith, find?-none-All p xs (ground arith))

pub enqueue-IsSound :
    (now id : ℕ) (dto : CreateOutboxEventDto) (db : OutboxDb)
    → any (has_id id) db.events ≡ false
    → IsSound db.events
    → IsSound (create_outbox_event now id dto db).1.events
unfolding create_outbox_event
enqueue-IsSound now id dto db fresh h =
    elim (Option-cases (find? (has_key (key_of dto)) db.events)) [
      | inr (e, dup) ↦ rw (create_outbox_event, dup) h
      | inl new ↦
          rw (create_outbox_event, new)
            (record {
              ids =
                  Keyed-append (λ e. e.id) db.events (enqueued now id dto) h.ids
                    (All-map db.events (λ e other. ground arith)
                      (any-none-All (has_id id) db.events fresh));
              keys =
                  append-Distinct same_idempotency db.events (enqueued now id dto) h.keys
                    (find?-none-All (has_key (key_of dto)) db.events new);
              attempts =
                  All-append HasAttempts db.events h.attempts (λ _. ground arith, ground arith);
            })
    ]

free-open :
    (locked : OutboxRecord → Bool) (now threshold : ℕ) (e : OutboxRecord)
    → is_free locked now threshold e ≡ true
    → is_open e.status ≡ true
free-open locked now threshold e h = go e.status h
  where
    go :
        (s : OutboxStatus)
        → (((is_pending s && leb e.available_at now)
              || (is_processing s && leb (e.updated_at + minutes threshold) now))
            && not (locked e))
          ≡ true
        → is_open s ≡ true
    go s p = ground arith

pub claim-IsSound :
    (locked : OutboxRecord → Bool) (now threshold batch : ℕ) (events : List OutboxRecord)
    → IsSound events
    → IsSound (claim_pending_events locked now threshold batch events).1
unfolding claim_pending_events
claim-IsSound locked now threshold batch events h =
    update-IsSound (is_among (claimable locked now threshold batch events)) (leased now) events
      (λ _. refl) (λ _. refl)
      (All-map events
        (λ e was among a. (
          λ _. a.0 (
              free-open locked now threshold e
                (was (any-claimable (has_id e.id) locked now threshold batch events among))),
          a.1,
        ))
        (any-Keyed (λ e. e.id) (is_free locked now threshold) events h.ids))
      h
