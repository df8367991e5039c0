-- ===== src/Booking/Attempts.antt =====
-- How often the code of a booking can be guessed, over any sequence of calls of `verifyOtp`.
use labour_baba_backend.Base.{
  ℕ, ◌+◌, ◌≡◌, inl, inr, Bool, Option, none, some, List, [], ◌∷◌, arith, Result, ok, find?, or_else,
  ◌==◌, Result-cases, if◌then◌else◌,
}
use labour_baba_backend.Access.Role.{Actor}
use labour_baba_backend.Booking.Machine
use labour_baba_backend.Booking.Machine.{has_id}
use labour_baba_backend.Booking.Evidence.{IsSound}
use labour_baba_backend.Booking.Otp.{Attempt, rejected, verify_in_tx, verify_otp}
use labour_baba_backend.Booking.Kept.{started-IsSound, rejected-IsSound}
use labour_baba_backend.Booking.Guesses.{Attempt-cases}
use labour_baba_backend.Store.Rows.{BookingRow, Db}
use labour_baba_backend.Store.Failure.{Failure}

-- `otp_attempts` of the booking with an id
abbrev pub attempts_of : ℕ → List BookingRow → ℕ
attempts_of id rows = elim (find? (has_id id) rows) [ none ↦ 0 | some b ↦ or_else b.otp_attempts 0 ]

-- One call of `verifyOtp`.
pub record Call : Type 0 where
  pub now : ℕ
  pub booking_id : ℕ
  pub worker_id : ℕ
  pub otp : ℕ
  pub actor : Option Actor

-- The calls that compared a wrong code for this booking.
abbrev pub is_wrong : ℕ → ℕ → Result Failure (Attempt × Db) → ℕ
is_wrong id booking_id (ok (rejected _, _)) = if booking_id == id then 1 else 0
is_wrong _ _ _ = 0

module _ (compare_password : ℕ → ℕ → Option Bool) (max_attempts : ℕ) where
  abbrev pub call : Call → Db → Result Failure (Attempt × Db)
  call c db =
      verify_in_tx compare_password max_attempts c.now c.booking_id c.worker_id c.otp c.actor db

  -- the database after the call
  abbrev pub next : Call → Db → Db
  next c db =
      (verify_otp compare_password max_attempts c.now c.booking_id c.worker_id c.otp c.actor db).1

  -- One call of `verifyOtp` keeps the booking table sound.
  pub verify_otp-IsSound : (c : Call) (db : Db) → IsSound db.bookings → IsSound (next c db).bookings
  unfolding verify_otp
  verify_otp-IsSound c db sound = elim (Result-cases (call c db)) [
    | inr (e, threw) ↦ let same : next c db ≡ db = ground arith in rw same sound
    | inl ((a, db1), done) ↦
        let same : next c db ≡ db1 = elim (Attempt-cases a) [
          | inl is ↦ ground arith
          | inr (l, is) ↦ ground arith
        ] in
        rw same (elim (Attempt-cases a) [
          | inl is ↦
              started-IsSound compare_password max_attempts c.now c.booking_id c.worker_id c.otp
                c.actor db db1 sound (ground arith)
          | inr (l, is) ↦
              rejected-IsSound compare_password max_attempts c.now c.booking_id c.worker_id c.otp
                c.actor db l db1 sound (ground arith)
        ])
  ]

  -- The calls for a booking that compared a wrong code, of a sequence of calls.
  pub wrong_guesses : ℕ → List Call → Db → ℕ
  wrong_guesses id [] db = 0
  wrong_guesses id (c ∷ calls) db =
      is_wrong id c.booking_id (call c db) + wrong_guesses id calls (next c db)
