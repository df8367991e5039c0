-- ===== src/Outbox/Reachable.antt =====
-- The outbox stays sound over failures and over every run of calls.
use labour_baba_backend.Base.{
  leb, ◌==◌, Bool-cases, Option-cases, find?, find?-sound, All-find?, find?-Keyed, Text, All-map,
  find?-alike, ℕ, suc, ◌≡◌, refl, inl, inr, Bool, true, ◌&&◌, ◌||◌, Option, none, some, List, arith,
}
use labour_baba_backend.Outbox.Table.{OutboxRecord, OutboxDb, socket, fcm, is_open}
use labour_baba_backend.Outbox.Service.{has_id, is_held, after_failure, mark_event_failure}
use labour_baba_backend.Outbox.Channels.{
  channel_sent_at, channel_failed_with, record_channel_success, record_channel_failure,
}
use labour_baba_backend.Outbox.Steps.{
  Step, Steps, enqueues, claims, succeeds, fails, recovers, delivers, misses, prunes, done, then_,
}
use labour_baba_backend.Outbox.Sound.{
  IsSound, HasAttempts, update-IsSound, keep-IsSound, success-IsSound, recover-IsSound,
  prune-IsSound, enqueue-IsSound, claim-IsSound,
}

-- Whether the failure is the last.
abbrev pub is_last : Bool → OutboxRecord → Bool
is_last is_permanent read = is_permanent || leb read.max_attempts (suc read.attempts)

pub after_failure-id :
    (now : ℕ) (error : Text) (is_permanent : Bool) (read e : OutboxRecord)
    → (after_failure now error is_permanent read e).id ≡ e.id
after_failure-id now error is_permanent read e = elim (Bool-cases (is_last is_permanent read)) [
  | inl last ↦ rw last refl
  | inr more ↦ rw more refl
]

after_failure-key :
    (now : ℕ) (error : Text) (is_permanent : Bool) (read e : OutboxRecord)
    → (after_failure now error is_permanent read e).idempotency_key ≡ e.idempotency_key
after_failure-key now error is_permanent read e = elim (Bool-cases (is_last is_permanent read)) [
  | inl last ↦ rw last refl
  | inr more ↦ rw more refl
]

after_failure-HasAttempts :
    (now : ℕ) (error : Text) (is_permanent : Bool) (read e : OutboxRecord)
    → is_open read.status ≡ true
    → HasAttempts read
    → e.max_attempts ≡ read.max_attempts
    → HasAttempts (after_failure now error is_permanent read e)
after_failure-HasAttempts now error is_permanent read e o a same =
    let left = a.0 o in
    elim (Bool-cases (is_last is_permanent read)) [
      | inl last ↦ rw (last, same) (λ o. absurd (ground arith), ground arith)
      | inr more ↦ rw (more, same) (λ _. ground arith, ground arith)
    ]

conjunct : (a b c : Bool) → (a && (b && c)) ≡ true → b ≡ true
conjunct a b c h = ground arith

pub failure-IsSound :
    (now id : ℕ) (error : Text) (is_permanent : Bool) (lease : Option ℕ)
    (events : List OutboxRecord)
    → IsSound events
    → IsSound (mark_event_failure now id error is_permanent lease events).1
unfolding mark_event_failure
failure-IsSound now id error is_permanent lease events h =
    elim (Option-cases (find? (is_held id lease) events)) [
      | inl missing ↦ rw (mark_event_failure, missing) h
      | inr (read, found) ↦
          rw (mark_event_failure, found)
            (update-IsSound (is_held id lease) (after_failure now error is_permanent read) events
              (after_failure-id now error is_permanent read)
              (after_failure-key now error is_permanent read)
              (All-map events
                (λ e same fits a.
                  after_failure-HasAttempts now error is_permanent read e
                    (found_open read (find?-sound (is_held id lease) events found))
                    (All-find? HasAttempts (is_held id lease) events h.attempts found)
                    (same (by_id e found fits)))
                (find?-alike (λ e. e.id) (λ e. e.max_attempts) id events h.ids
                  (find?-Keyed (λ e. e.id) id
                    (λ e.
                      is_open e.status && elim lease [ none ↦ true | some t ↦ e.updated_at == t ])
                    events h.ids found)))
              h)
    ]
  where
    found_open : (read : OutboxRecord) → is_held id lease read ≡ true → is_open read.status ≡ true
    found_open read p = conjunct (read.id == id) (is_open read.status) _ p

    by_id :
        (e : OutboxRecord) {read : OutboxRecord}
        → find? (is_held id lease) events ≡ some read
        → is_held id lease e ≡ true
        → (e.id == read.id) ≡ true
    by_id e {read} found fits =
        let there = find?-sound (is_held id lease) events found in ground arith

-- Every call, in any order, keeps the outbox sound.
Step-IsSound : (since : ℕ) {a b : OutboxDb} → Step since a b → IsSound a.events → IsSound b.events
unfolding record_channel_success record_channel_failure
Step-IsSound since {a} (enqueues now id dto after fresh) h = enqueue-IsSound now id dto a fresh h
Step-IsSound since {a} (claims locked now threshold batch after) h =
    claim-IsSound locked now threshold batch a.events h
Step-IsSound since {a} (succeeds now id lease after) h = success-IsSound now id lease a.events h
Step-IsSound since {a} (fails now id error is_permanent lease after) h =
    failure-IsSound now id error is_permanent lease a.events h
Step-IsSound since {a} (recovers now threshold after) h = recover-IsSound now threshold a.events h
Step-IsSound since {a} (delivers now id recipient socket at _) h =
    keep-IsSound (has_id id) (channel_sent_at now at socket) a.events (λ _. refl) (λ _. refl)
      (λ _ _ p. p) h
Step-IsSound since {a} (delivers now id recipient fcm at _) h =
    keep-IsSound (has_id id) (channel_sent_at now at fcm) a.events (λ _. refl) (λ _. refl)
      (λ _ _ p. p) h
Step-IsSound since {a} (misses now id recipient socket error is_permanent _) h =
    keep-IsSound (has_id id) (channel_failed_with now error socket) a.events (λ _. refl) (λ _. refl)
      (λ _ _ p. p) h
Step-IsSound since {a} (misses now id recipient fcm error is_permanent _) h =
    keep-IsSound (has_id id) (channel_failed_with now error fcm) a.events (λ _. refl) (λ _. refl)
      (λ _ _ p. p) h
Step-IsSound since {a} (prunes now r) h = prune-IsSound now r a.events h

-- Every run of calls of the outbox, by any workers and in any order, keeps a sound outbox sound:
-- identifiers and idempotency keys occur once, an open event has attempts left, and no event has
-- used more attempts than it had.
pub outbox-IsSound :
    (since : ℕ) {a b : OutboxDb} → Steps since a b → IsSound a.events → IsSound b.events
outbox-IsSound since done h = h
outbox-IsSound since (then_ s rest) h = outbox-IsSound since rest (Step-IsSound since s h)
