-- ===== src/Booking/Guesses.antt =====
-- What a call of `verifyOtp` proves, and how often a code can be guessed.
use labour_baba_backend.Base.{
  ap, ◌∙◌, Option-cases, ℕ, ◌≡◌, refl, ◌⊎◌, inl, inr, Bool, true, false, ◌||◌, Option, some, arith,
  ok, is_ok, find?, or_else, is_some, leb, Result-cases,
}
use labour_baba_backend.Access.Role.{Actor}
use labour_baba_backend.Booking.Status.{in_progress}
use labour_baba_backend.Booking.Machine
use labour_baba_backend.Booking.Machine.{has_id}
use labour_baba_backend.Booking.Evidence.{IsSound}
use labour_baba_backend.Booking.Outcome.{IsMoved, updated-IsMoved, find?-moved}
use labour_baba_backend.Booking.Authority.{MayVerify, authorize-MayVerify}
use labour_baba_backend.Booking.Otp.{
  role_or_worker, effective_worker, Attempt, started, rejected, is_valid, start_booking,
  verify_in_tx, verify_otp,
}
use labour_baba_backend.Booking.Verify.{
  IsOpen, started_row, rejected_only, obstacle-IsOpen, lock-found,
}
use labour_baba_backend.Store.Rows.{BookingRow, Db}

pub Attempt-cases : (a : Attempt) → (a ≡ started) ⊎ ((l : Bool) × (a ≡ rejected l))
Attempt-cases started = inl refl
Attempt-cases (rejected l) = inr (l, refl)

valid-matches :
    (compare_password : ℕ → ℕ → Option Bool) (max_attempts otp : ℕ) (b : BookingRow)
    → is_valid compare_password max_attempts otp b ≡ true
    → (hash : ℕ) × (b.otp_hash ≡ some hash) × (compare_password otp hash ≡ some true)
valid-matches compare_password max_attempts otp b h = elim (Option-cases b.otp_hash) [
  | inl none_ ↦ ground arith
  | inr (hash, e) ↦ elim (Option-cases (compare_password otp hash)) [
    | inl none_ ↦ ground arith
    | inr (v, c) ↦ (hash, e, ground arith)
  ]
]

module _ (compare_password : ℕ → ℕ → Option Bool) (max_attempts : ℕ) where
  module _ (now id worker_id otp : ℕ) (actor : Option Actor) (db : Db)
      (sound : IsSound db.bookings) where
    -- If `verifyOtp` returns, on a sound booking table, then the booking with this id was
    -- confirmed, its code was neither consumed nor locked nor expired, attempts were left, the
    -- code that was given matches its hash, and the caller is its worker or an administrator; it
    -- is now in progress, its OTP verified and consumed by that caller, its parties as before.
    pub verify_otp_returns :
        (db' : Db)
        → verify_otp compare_password max_attempts now id worker_id otp actor db ≡ (ok tt, db')
        → (b : BookingRow) × (find? (has_id id) db.bookings ≡ some b)
          × MayVerify actor worker_id b
          × IsOpen max_attempts now b
          × ((hash : ℕ) × (b.otp_hash ≡ some hash) × (compare_password otp hash ≡ some true))
          × ((b' : BookingRow) × (find? (has_id id) db'.bookings ≡ some b')
              × IsMoved now
                  (record {
                    id = some (effective_worker actor worker_id);
                    role = role_or_worker actor;
                  })
                  in_progress
                  b
                  b')
    unfolding verify_otp
    verify_otp_returns db' h =
        elim (Result-cases
          (verify_in_tx compare_password max_attempts now id worker_id otp actor db)) [
            | inr (e, threw) ↦ ground arith
            | inl ((a, db1), done) ↦ elim (Attempt-cases a) [
              | inr (l, is) ↦ ground arith
              | inl is ↦
                  let same : db1 ≡ db' = ground arith in
                  let (b, pass, valid, found, rows) =
                    started_row compare_password max_attempts now id worker_id otp actor db db'
                      sound (ground arith) in
                  let p =
                    start_booking compare_password max_attempts id actor
                      (effective_worker actor worker_id) in
                  (
                    b,
                    found,
                    authorize-MayVerify actor worker_id b pass.authorized,
                    obstacle-IsOpen compare_password max_attempts now b pass.clear,
                    valid-matches compare_password max_attempts otp b valid,
                    (
                      Machine.updated now p in_progress b,
                      ap (find? (has_id id)) rows ∙ find?-moved now p in_progress db.bookings found,
                      updated-IsMoved now p in_progress b,
                    ),
                  )
            ]
          ]

    -- Once a booking is locked, or its attempts are used up, `verifyOtp` throws for everybody and
    -- changes nothing.
    pub verify_otp_locked :
        (b : BookingRow)
        → find? (has_id id) db.bookings ≡ some b
        → (is_some b.otp_locked_at || leb max_attempts (or_else b.otp_attempts 0)) ≡ true
        → (is_ok (verify_otp compare_password max_attempts now id worker_id otp actor db).0 ≡ false)
          × ((verify_otp compare_password max_attempts now id worker_id otp actor db).1 ≡ db)
    unfolding verify_otp
    verify_otp_locked b found shut =
        elim (Result-cases
          (verify_in_tx compare_password max_attempts now id worker_id otp actor db)) [
            | inr (e, threw) ↦ (ground arith, ground arith)
            | inl ((a, db1), done) ↦ elim (Attempt-cases a) [
              | inl is ↦
                  let (c, pass, _, here, _) =
                    started_row compare_password max_attempts now id worker_id otp actor db db1
                      sound (ground arith) in
                  let clear = obstacle-IsOpen compare_password max_attempts now c pass.clear in
                  let same : c ≡ b = ground arith in
                  absurd (ground (arith, clear.unlocked, clear.attempts_left))
              | inr (l, is) ↦
                  let (c, pass, _, _) =
                    rejected_only compare_password max_attempts now id worker_id otp actor db l db1
                      (ground arith) in
                  let here = lock-found actor worker_id id db c sound pass.locked in
                  let clear = obstacle-IsOpen compare_password max_attempts now c pass.clear in
                  let same : c ≡ b = ground arith in
                  absurd (ground (arith, clear.unlocked, clear.attempts_left))
            ]
          ]
