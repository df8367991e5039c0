-- ===== src/Booking/Kept.antt =====
-- `verifyOtp` within its transaction keeps the booking table sound.
use labour_baba_backend.Base.{
  ℕ, ◌+◌, ◌≡◌, refl, Bool, Option, sym, commit, ok, or_else, All-update_where, update_where-Keyed,
}
use mathlib.Core.Path.{subst}
use labour_baba_backend.Access.Role.{Actor}
use labour_baba_backend.Booking.Machine.{has_id}
use labour_baba_backend.Booking.Evidence.{HasEvidence, IsSound, transition-IsSound}
use labour_baba_backend.Booking.Otp.{
  effective_worker, started, rejected, counted, start_booking, verify_in_tx,
}
use labour_baba_backend.Store.Rows.{BookingRow, Db}
use labour_baba_backend.Booking.Verify.{start_only, started_only, rejected_only}

module _ (compare_password : ℕ → ℕ → Option Bool) (max_attempts : ℕ) where
  module _ (now id worker_id otp : ℕ) (actor : Option Actor) (db : Db) where
    pub started-IsSound :
        (db' : Db)
        → IsSound db.bookings
        → verify_in_tx compare_password max_attempts now id worker_id otp actor db
          ≡ ok (started, db')
        → IsSound db'.bookings
    started-IsSound db' sound h =
        let (b, _, _, begun) =
          started_only compare_password max_attempts now id worker_id otp actor db db' h in
        let (_, r, db1, done, same) =
          start_only compare_password max_attempts now id worker_id otp actor db
            (effective_worker actor worker_id) b started db' begun in
        let moved =
          transition-IsSound now
            (start_booking compare_password max_attempts id actor
              (effective_worker actor worker_id))
            db sound in
        subst IsSound (sym same) (subst (λ x. IsSound (commit db x).1.bookings) done moved)

    pub rejected-IsSound :
        (l : Bool) (db' : Db)
        → IsSound db.bookings
        → verify_in_tx compare_password max_attempts now id worker_id otp actor db
          ≡ ok (rejected l, db')
        → IsSound db'.bookings
    rejected-IsSound l db' sound h =
        let (b, _, _, wrote) =
          rejected_only compare_password max_attempts now id worker_id otp actor db l db' h in
        let f = counted compare_password max_attempts now (or_else b.otp_attempts 0 + 1) in
        subst (λ x. IsSound (x.1.bookings)) (sym wrote)
          (record {
            keyed =
                update_where-Keyed (λ x. x.id) (has_id id) f db.bookings (λ x. refl) sound.keyed;
            evidence =
                All-update_where HasEvidence (has_id id) f db.bookings
                  (λ x old _. counted-HasEvidence (or_else b.otp_attempts 0 + 1) x old)
                  sound.evidence;
          })
      where
        counted-HasEvidence :
            (n : ℕ) (x : BookingRow)
            → HasEvidence x
            → HasEvidence (counted compare_password max_attempts now n x)
        counted-HasEvidence n x old = record {
          canonical = old.canonical;
          started = old.started;
          handed_over = old.handed_over;
          confirmation = old.confirmation;
          cancellation = old.cancellation;
        }
