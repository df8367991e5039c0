-- ===== src/Outbox/Lost.antt =====
-- A worker whose lease has timed out: once another worker has claimed its event, it settles
-- nothing any more.
use labour_baba_backend.Base.{
  ◌==◌, Bool-cases, Option-cases, any, find?, update_where, All, All-update_where,
  update_where-none, Text, All-map, All-append, All-filter_where, count_where-none, ℕ, ◌<◌, ◌≡◌,
  refl, inl, inr, Bool, true, false, not, ◌&&◌, Option, none, some, List, [], ◌∷◌, arith,
}
use labour_baba_backend.Outbox.Table.{
  OutboxStatus, OutboxRecord, OutboxDb, Channel, socket, fcm, is_open,
}
use labour_baba_backend.Outbox.Service.{
  CreateOutboxEventDto, key_of, has_key, create_outbox_event, is_stale, has_id, is_among, leased,
  claimable, claim_pending_events, is_held, delivered, mark_event_success, after_failure,
  mark_event_failure, recovered, reconcile_stale_events,
}
use labour_baba_backend.Outbox.Channels.{
  channel_sent_at, channel_failed_with, record_channel_success, record_channel_failure, is_aged,
  cleanup_aged_events,
}
use labour_baba_backend.Outbox.Lease.{IsLeased, claimed-IsLeased}
use labour_baba_backend.Outbox.Steps.{
  Step, Steps, enqueues, claims, succeeds, fails, recovers, delivers, misses, prunes, done, then_,
}
use labour_baba_backend.Outbox.Reachable.{is_last}

-- A row that the holder of a lease cannot settle.
abbrev IsLost : ℕ → ℕ → OutboxRecord → Type 0
IsLost n t e = is_held n (some t) e ≡ false

rewritten-IsLost :
    (n t now : ℕ) (p : OutboxRecord → Bool) (f : OutboxRecord → OutboxRecord)
    (events : List OutboxRecord)
    → t < now
    → ((e : OutboxRecord) → (f e).updated_at ≡ now)
    → All (IsLost n t) events
    → All (IsLost n t) (update_where p f events)
rewritten-IsLost n t now p f events later stamp l =
    All-update_where (IsLost n t) p f events (λ e _ _. late e) l
  where
    go : (i : ℕ) (s : OutboxStatus) (u : ℕ) → u ≡ now → (i == n && (is_open s && u == t)) ≡ false
    go i s u h = ground arith

    late : (e : OutboxRecord) → IsLost n t (f e)
    late e = go (f e).id (f e).status (f e).updated_at (stamp e)

enqueue-IsLost :
    (n t now id : ℕ) (dto : CreateOutboxEventDto) (db : OutboxDb)
    → t < now
    → All (IsLost n t) db.events
    → All (IsLost n t) (create_outbox_event now id dto db).1.events
unfolding create_outbox_event
enqueue-IsLost n t now id dto db later l =
    elim (Option-cases (find? (has_key (key_of dto)) db.events)) [
      | inr (e, dup) ↦ rw (create_outbox_event, dup) l
      | inl new ↦ rw (create_outbox_event, new) (All-append (IsLost n t) db.events l (ground arith))
    ]

failure-IsLost :
    (n t now id : ℕ) (error : Text) (is_permanent : Bool) (lease : Option ℕ)
    (events : List OutboxRecord)
    → t < now
    → All (IsLost n t) events
    → All (IsLost n t) (mark_event_failure now id error is_permanent lease events).1
unfolding mark_event_failure
failure-IsLost n t now id error is_permanent lease events later l =
    elim (Option-cases (find? (is_held id lease) events)) [
      | inl missing ↦ rw (mark_event_failure, missing) l
      | inr (read, found) ↦
          rw (mark_event_failure, found)
            (rewritten-IsLost n t now (is_held id lease) (after_failure now error is_permanent read)
              events later (stamp read) l)
    ]
  where
    stamp : (read e : OutboxRecord) → (after_failure now error is_permanent read e).updated_at ≡ now
    stamp read e = elim (Bool-cases (is_last is_permanent read)) [
      | inl last ↦ rw last refl
      | inr more ↦ rw more refl
    ]

-- A lost lease stays lost: the calls after it stamp the rows that they write with their own time.
Step-IsLost :
    (n t : ℕ) {a b : OutboxDb} → Step t a b → All (IsLost n t) a.events → All (IsLost n t) b.events
unfolding claim_pending_events mark_event_success reconcile_stale_events record_channel_success
    record_channel_failure cleanup_aged_events
Step-IsLost n t {a} (enqueues now id dto later fresh) l = enqueue-IsLost n t now id dto a later l
Step-IsLost n t {a} (claims locked now threshold batch later) l =
    rewritten-IsLost n t now (is_among (claimable locked now threshold batch a.events)) (leased now)
      a.events later (λ _. refl) l
Step-IsLost n t {a} (succeeds now id lease later) l =
    rewritten-IsLost n t now (is_held id lease) (delivered now) a.events later (λ _. refl) l
Step-IsLost n t {a} (fails now id error is_permanent lease later) l =
    failure-IsLost n t now id error is_permanent lease a.events later l
Step-IsLost n t {a} (recovers now threshold later) l =
    rewritten-IsLost n t now (is_stale now threshold) (recovered now) a.events later (λ _. refl) l
Step-IsLost n t {a} (delivers now id recipient socket at later) l =
    rewritten-IsLost n t now (has_id id) (channel_sent_at now at socket) a.events later (λ _. refl)
      l
Step-IsLost n t {a} (delivers now id recipient fcm at later) l =
    rewritten-IsLost n t now (has_id id) (channel_sent_at now at fcm) a.events later (λ _. refl) l
Step-IsLost n t {a} (misses now id recipient socket error is_permanent later) l =
    rewritten-IsLost n t now (has_id id) (channel_failed_with now error socket) a.events later
      (λ _. refl) l
Step-IsLost n t {a} (misses now id recipient fcm error is_permanent later) l =
    rewritten-IsLost n t now (has_id id) (channel_failed_with now error fcm) a.events later
      (λ _. refl) l
Step-IsLost n t {a} (prunes now r) l =
    All-filter_where (IsLost n t) (λ e. not (is_aged now r e)) a.events l

Steps-IsLost :
    (n t : ℕ) {a b : OutboxDb} → Steps t a b → All (IsLost n t) a.events → All (IsLost n t) b.events
Steps-IsLost n t done l = l
Steps-IsLost n t (then_ s rest) l = Steps-IsLost n t rest (Step-IsLost n t s l)

find?-All-none :
    (p : OutboxRecord → Bool) (xs : List OutboxRecord)
    → All (λ x. p x ≡ false) xs
    → find? p xs ≡ none
find?-All-none p [] h = refl
find?-All-none p (x ∷ xs) h = ground (arith, find?-All-none p xs h.1)

leased-IsLost : (n t t' : ℕ) (e : OutboxRecord) → t < t' → IsLeased n t' e → IsLost n t e
leased-IsLost n t t' e later l = elim (Bool-cases (has_id n e)) [
  | inl this ↦ let held = l this in go (e.id == n) (is_open e.status) e.updated_at held.1
  | inr other ↦ rw other refl
]
  where
    go : (b c : Bool) (u : ℕ) → u ≡ t' → (b && (c && u == t)) ≡ false
    go b c u h = ground arith

unsettled :
    (n t now : ℕ) (error : Text) (is_permanent : Bool) (b : OutboxDb)
    → All (IsLost n t) b.events
    → (mark_event_success now n (some t) b.events ≡ (false, b.events))
      × (mark_event_failure now n error is_permanent (some t) b.events ≡ (false, b.events))
unfolding mark_event_success mark_event_failure
unsettled n t now error is_permanent b lost =
    let unheld = count_where-none (is_held n (some t)) b.events lost in
    (
      rw (unheld, update_where-none (is_held n (some t)) (delivered now) b.events unheld) refl,
      rw (mark_event_failure, find?-All-none (is_held n (some t)) b.events lost) refl,
    )

-- When a worker claimed an event and a later claim returned it to another worker, then after any
-- calls since, both settlements by the first worker's lease return false and change nothing.
pub lost_lease :
    (locked : OutboxRecord → Bool) (t t' threshold batch n now : ℕ) (error : Text)
    (is_permanent : Bool) (a : OutboxDb) {b : OutboxDb}
    → t < t'
    → any (has_id n) (claim_pending_events locked t' threshold batch a.events).0 ≡ true
    → Steps t (record a { events = (claim_pending_events locked t' threshold batch a.events).1 }) b
    → (mark_event_success now n (some t) b.events ≡ (false, b.events))
      × (mark_event_failure now n error is_permanent (some t) b.events ≡ (false, b.events))
lost_lease locked t t' threshold batch n now error is_permanent a {b} later got steps =
    let leases = claimed-IsLeased locked t' threshold batch n a.events got in
    unsettled n t now error is_permanent b (
      Steps-IsLost n t steps (
        All-map (claim_pending_events locked t' threshold batch a.events).1
          (λ e l. leased-IsLost n t t' e later l) leases))

-- A delivery that is recorded after a claim stamps the row with its own time, so the claim's lease
-- is lost: after any calls since, both settlements by it return false and change nothing.
pub delivery_ends_lease :
    (n recipient : ℕ) (c : Channel) (t at at' now : ℕ) (error : Text) (is_permanent : Bool)
    (a : OutboxDb) {b : OutboxDb}
    → t < at
    → Steps t (record_channel_success at n recipient c at' a) b
    → (mark_event_success now n (some t) b.events ≡ (false, b.events))
      × (mark_event_failure now n error is_permanent (some t) b.events ≡ (false, b.events))
unfolding record_channel_success
delivery_ends_lease n recipient c t at at' now error is_permanent a {b} later steps =
    unsettled n t now error is_permanent b (Steps-IsLost n t steps (stamped c a.events))
  where
    go : (i : ℕ) (s : OutboxStatus) (u : ℕ) → u ≡ at → (i == n && (is_open s && u == t)) ≡ false
    go i s u h = ground arith

    idle : (e : OutboxRecord) → has_id n e ≡ false → IsLost n t e
    idle e h = rw h refl

    stamp : (c : Channel) (e : OutboxRecord) → (channel_sent_at at at' c e).updated_at ≡ at
    stamp socket e = refl
    stamp fcm e = refl

    lost_row : (c : Channel) (e : OutboxRecord) → IsLost n t (channel_sent_at at at' c e)
    lost_row c e =
        go (channel_sent_at at at' c e).id (channel_sent_at at at' c e).status
          (channel_sent_at at at' c e).updated_at (stamp c e)

    stamped :
        (c : Channel) (events : List OutboxRecord)
        → All (IsLost n t) (update_where (has_id n) (channel_sent_at at at' c) events)
    stamped c [] = tt
    stamped c (e ∷ es) = elim (Bool-cases (has_id n e)) [
      | inl this ↦ rw this (lost_row c e, stamped c es)
      | inr differs ↦ rw differs (idle e differs, stamped c es)
    ]
