-- ===== src/Booking/Verify.antt =====
-- What `verifyOtp` lets through, on a sound booking table.
use labour_baba_backend.Base.{
  ℕ, ◌≤◌, ◌<◌, ◌≡◌, refl, inl, inr, Bool, true, false, Option, none, some, arith, ok, find?,
  update_where, or_else, Option-cases, Result-cases, find?-Keyed, All-find?,
}
use labour_baba_backend.Access.Role.{Actor}
use labour_baba_backend.Booking.Status.{
  BookingStatus, BookingAction, normalize_status, same_status, confirmed, in_progress, start_work,
  is_canonical,
}
use labour_baba_backend.Booking.Machine
use labour_baba_backend.Booking.Machine.{has_id}
use labour_baba_backend.Booking.Effect.{booking_transition_only}
use labour_baba_backend.Booking.Evidence.{HasEvidence, IsSound}
use labour_baba_backend.Booking.Otp.{
  authorize, effective_worker, in_scope, lock, Attempt, started, rejected, obstacle, is_valid,
  reject, start_booking, start_job, synchronize_job, start, attempt, verify_in_tx,
}
use labour_baba_backend.Job
use labour_baba_backend.Booking.Diagram.{Edge}
use labour_baba_backend.Store.Rows.{BookingRow, Db}

-- The row that is locked is the row with the id.
pub lock-found :
    (actor : Option Actor) (worker_id id : ℕ) (db : Db) (b : BookingRow)
    → IsSound db.bookings
    → lock actor worker_id id db ≡ ok b
    → find? (has_id id) db.bookings ≡ some b
unfolding lock
lock-found actor worker_id id db b h e =
    elim (Option-cases (find? (in_scope actor worker_id id) db.bookings)) [
      | inl out ↦ ground arith
      | inr (c, found) ↦
          let here = find?-Keyed (λ x. x.id) id _ db.bookings h.keyed found in ground arith
    ]

-- The job's transition leaves the bookings alone.
job-bookings :
    (now : ℕ) (p : Job.Machine.TransitionJobParams) (db db' : Db) (r : Job.Machine.TransitionResult)
    → Job.Machine.transition now p db ≡ ok (r, db')
    → db'.bookings ≡ db.bookings
unfolding Job.Machine.transition Job.Machine.transition_from Job.Machine.write
job-bookings now p db db' r h = ground arith

confirmed_only :
    (s : BookingStatus)
    → is_canonical s ≡ true
    → same_status (normalize_status s) confirmed ≡ true
    → s ≡ confirmed
unfolding normalize_status
confirmed_only s c h = ground arith

-- What is read off an absent obstacle.
pub record IsOpen (max_attempts now : ℕ) (b : BookingRow) : Type 0 where
  pub is_confirmed : same_status (normalize_status b.status) confirmed ≡ true
  pub unconsumed : b.otp_consumed_at ≡ none
  pub unverified : b.otp_verified ≡ false
  pub unlocked : b.otp_locked_at ≡ none
  pub attempts_left : or_else b.otp_attempts 0 < max_attempts
  pub unexpired : (e : ℕ) → b.otp_expires_at ≡ some e → now ≤ e

module _ (compare_password : ℕ → ℕ → Option Bool) (max_attempts : ℕ) where
  pub obstacle-IsOpen :
      (now : ℕ) (b : BookingRow)
      → obstacle compare_password max_attempts now b ≡ none
      → IsOpen max_attempts now b
  unfolding obstacle
  obstacle-IsOpen now b h = record {
    is_confirmed = ground arith;
    unconsumed = ground arith;
    unverified = ground arith;
    unlocked = ground arith;
    attempts_left = ground arith;
    unexpired = λ e at. ground arith;
  }

  module _ (now id worker_id otp : ℕ) (actor : Option Actor) (db : Db) where
    pub record Passed (b : BookingRow) : Type 0 where
      pub locked : lock actor worker_id id db ≡ ok b
      pub authorized : authorize actor worker_id b ≡ ok tt
      pub clear : obstacle compare_password max_attempts now b ≡ none

    pub rejected_only :
        (l : Bool) (db' : Db)
        → verify_in_tx compare_password max_attempts now id worker_id otp actor db
          ≡ ok (rejected l, db')
        → (b : BookingRow) × Passed b
          × (is_valid compare_password max_attempts otp b ≡ false)
          × ((rejected l, db') ≡ reject compare_password max_attempts now id b db)
    unfolding verify_in_tx attempt start synchronize_job
    rejected_only l db' h = elim (Result-cases (lock actor worker_id id db)) [
      | inr (e, threw) ↦ ground arith
      | inl (b, locked) ↦ elim (Result-cases (authorize actor worker_id b)) [
        | inr (e, threw) ↦ ground arith
        | inl (u, may) ↦ elim (Option-cases (obstacle compare_password max_attempts now b)) [
          | inr (e, threw) ↦ ground arith
          | inl clear ↦ (
            b,
            record { locked = locked; authorized = may; clear = clear },
            ground arith,
            ground arith,
          )
        ]
      ]
    ]

    -- Step 9: the booking's transition, and then the job's, which leaves the bookings alone.
    pub start_only :
        (w : ℕ) (b : BookingRow) (a : Attempt) (db' : Db)
        → start compare_password max_attempts now id actor w b db ≡ ok (a, db')
        → (a ≡ started)
          × (r : Machine.BookingTransitionResult) × (db1 : Db) × (Machine.transition now
                (start_booking compare_password max_attempts id actor w)
                db
              ≡ ok (r, db1))
          × (db'.bookings ≡ db1.bookings)
    unfolding start synchronize_job
    start_only w b a db' h =
        elim (Result-cases
          (Machine.transition now (start_booking compare_password max_attempts id actor w) db)) [
            | inr (e, threw) ↦ ground arith
            | inl ((r, db1), done) ↦
                elim (Result-cases (
                  Job.Machine.transition now (start_job compare_password max_attempts b.job_id w)
                    db1)) [
                      | inr (e, threw) ↦ (ground arith, r, db1, done, ground arith)
                      | inl ((q, db2), moved) ↦
                          let same =
                            job-bookings now (start_job compare_password max_attempts b.job_id w)
                              db1 db2 q moved in
                          (ground arith, r, db1, done, ground arith)
                    ]
          ]

    pub started_only :
        (db' : Db)
        → verify_in_tx compare_password max_attempts now id worker_id otp actor db
          ≡ ok (started, db')
        → (b : BookingRow) × Passed b
          × (is_valid compare_password max_attempts otp b ≡ true)
          × (start compare_password max_attempts now id actor
                (effective_worker actor worker_id)
                b
                db
              ≡ ok (started, db'))
    unfolding verify_in_tx attempt
    started_only db' h = elim (Result-cases (lock actor worker_id id db)) [
      | inr (e, threw) ↦ ground arith
      | inl (b, locked) ↦ elim (Result-cases (authorize actor worker_id b)) [
        | inr (e, threw) ↦ ground arith
        | inl (u, may) ↦ elim (Option-cases (obstacle compare_password max_attempts now b)) [
          | inr (e, threw) ↦ ground arith
          | inl clear ↦ (
            b,
            record { locked = locked; authorized = may; clear = clear },
            ground arith,
            ground arith,
          )
        ]
      ]
    ]

    confirmed-Edge :
        {t : BookingStatus} {s : BookingStatus} {a : BookingAction}
        → Edge s a t
        → s ≡ confirmed
        → a ≡ start_work
        → t ≡ in_progress
    confirmed-Edge Edge.start es ea = refl
    confirmed-Edge Edge.request es ea = ground arith
    confirmed-Edge Edge.confirm es ea = ground arith
    confirmed-Edge Edge.call_off es ea = ground arith
    confirmed-Edge Edge.break_off es ea = ground arith
    confirmed-Edge Edge.reject es ea = ground arith

    -- A verified code rewrites the booking's row by the status IN_PROGRESS.
    pub started_row :
        (db' : Db)
        → IsSound db.bookings
        → verify_in_tx compare_password max_attempts now id worker_id otp actor db
          ≡ ok (started, db')
        → (b : BookingRow) × Passed b
          × (is_valid compare_password max_attempts otp b ≡ true)
          × (find? (has_id id) db.bookings ≡ some b)
          × (db'.bookings
              ≡ update_where
                  (has_id id)
                  (Machine.updated now
                    (start_booking compare_password max_attempts id actor
                      (effective_worker actor worker_id))
                    in_progress)
                  db.bookings)
    started_row db' sound h =
        let (b, pass, valid, begun) = started_only db' h in
        let (_, r, db1, done, same) =
          start_only (effective_worker actor worker_id) b started db' begun in
        let found = lock-found actor worker_id id db b sound pass.locked in
        let canonical =
          (All-find? HasEvidence (has_id id) db.bookings sound.evidence found).canonical in
        let was_confirmed : b.status ≡ confirmed =
          confirmed_only b.status canonical (obstacle-IsOpen now b pass.clear).is_confirmed in
        let p =
          start_booking compare_password max_attempts id actor (effective_worker actor worker_id) in
        elim (booking_transition_only now p db b found canonical r db1 done) [
          | inl again ↦ ground arith
          | inr (edge, _, _, _, _, _, e) ↦
              let target : r.current_status ≡ in_progress =
                confirmed-Edge edge was_confirmed refl in
              (b, pass, valid, found, ground (arith, same, e, target))
        ]
