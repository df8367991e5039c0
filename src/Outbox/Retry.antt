-- ===== src/Outbox/Retry.antt =====
-- The retries of an event come to an end.
use labour_baba_backend.Base.{
  ◌==◌, Bool-cases, length, find?, find?-sound, find?-update_where, All-find?, Keyed, Text,
  find?-also, ℕ, suc, ◌+◌, ◌≤◌, ◌≡◌, refl, ap, ◌∙◌, inl, inr, true, false, ◌&&◌, none, some, List,
  [], ◌∷◌, arith,
}
use labour_baba_backend.Outbox.Table.{OutboxRecord, failed, is_open}
use labour_baba_backend.Outbox.Service.{
  has_id, is_held, given_up, put_back, after_failure, mark_event_failure,
}
use labour_baba_backend.Outbox.Sound.{IsSound, HasAttempts}
use labour_baba_backend.Outbox.Reachable.{is_last, after_failure-id, failure-IsSound}

-- A failure that is not permanent, reported without a lease: its time and its error.
pub record Attempt : Type 0 where
  pub at : ℕ
  pub error : Text

abbrev pub fail_all : ℕ → List Attempt → List OutboxRecord → List OutboxRecord
fail_all id [] events = events
fail_all id (a ∷ later) events =
    fail_all id later (mark_event_failure a.at id a.error false none events).1

-- One failure of an open event: one attempt more, and another try if attempts are left.
failure_lem :
    (id now : ℕ) (error : Text) (events : List OutboxRecord) {e : OutboxRecord}
    → Keyed (λ e. e.id) events
    → find? (has_id id) events ≡ some e
    → is_open e.status ≡ true
    → find? (has_id id) (mark_event_failure now id error false none events).1
      ≡ some (after_failure now error false e e)
unfolding mark_event_failure
failure_lem id now error events {e} k found o =
    rw
      (
        mark_event_failure,
        find?-also (has_id id) (λ x. is_open x.status && true) events found (rw o refl),
      )
      (find?-update_where (is_held id none) (has_id id) (after_failure now error false e) events
          (λ x. ap (λ i. i == id) (after_failure-id now error false e x))
        ∙ rw (found, fits) refl)
  where
    fits : is_held id none e ≡ true
    fits = let this = find?-sound (has_id id) events found in rw (o) (ground arith)

-- An open event of a sound outbox that has as many failures as it had attempts left, none of them
-- permanent and each reported without a lease, has failed for good with its attempts used up.
pub failures_end :
    (id : ℕ) (attempts : List Attempt) (events : List OutboxRecord) {e : OutboxRecord}
    → IsSound events
    → find? (has_id id) events ≡ some e
    → is_open e.status ≡ true
    → e.attempts + length attempts ≡ e.max_attempts
    → (d : OutboxRecord) × (find? (has_id id) (fail_all id attempts events) ≡ some d)
      × (d.status ≡ failed)
      × (d.attempts ≡ e.max_attempts)
failures_end id [] events {e} h found o count =
    let left = (All-find? HasAttempts (has_id id) events h.attempts found).0 o in
    absurd (omega arith)
failures_end id (a ∷ later) events {e} h found o count =
    let rest = failure_lem id a.at a.error events h.ids found o in
    let sound = failure-IsSound a.at id a.error false none events h in
    elim (Bool-cases (is_last false e)) [
      | inr more ↦
          failures_end id later (mark_event_failure a.at id a.error false none events).1
            {e = put_back a.at (suc e.attempts) a.error e} sound (rest ∙ rw more refl) refl
            (omega arith)
      | inl last ↦
          let used : e.max_attempts ≤ suc e.attempts = ground arith in
          let end = none_left later (omega arith) in
          rw end (given_up a.at (suc e.attempts) a.error e, rest ∙ rw last refl, refl, omega arith)
    ]
  where
    none_left : (rest : List Attempt) → length rest ≡ 0 → rest ≡ []
    none_left [] h = refl
    none_left (_ ∷ _) h = absurd (ground arith)
