-- ===== src/Booking/Evidence.antt =====
-- What the columns of a booking prove of its past, after any sequence of transitions.
use labour_baba_backend.Base.{
  ℕ, ◌≡◌, refl, inl, inr, Bool, true, false, not, ◌&&◌, Option, none, some, arith, err, find?,
  Option-cases, is_some, Text, is_blank, List, [], ◌∷◌, All, Keyed, All-update_found, All-find?,
  update_where-Keyed, commit, Result-cases,
}
use labour_baba_backend.Booking.Status.{
  BookingStatus, in_progress, awaiting_confirmation, completed, cancelled, BookingAction,
  is_canonical,
}
use labour_baba_backend.Booking.Diagram.{Edge, start, request, confirm, call_off, break_off, reject}
use labour_baba_backend.Booking.Effect.{after, booking_transition_only}
use labour_baba_backend.Booking.Machine.{
  TransitionBookingParams, updated, has_id, transition, is_cancel, lacks_reason,
}
use labour_baba_backend.Store.Rows.{BookingRow, Db}
use labour_baba_backend.Store.Failure.{booking_not_found}

abbrev is_underway : BookingStatus → Bool
is_underway in_progress = true
is_underway awaiting_confirmation = true
is_underway completed = true
is_underway _ = false

abbrev is_handed_over : BookingStatus → Bool
is_handed_over awaiting_confirmation = true
is_handed_over completed = true
is_handed_over _ = false

abbrev is_written : Option Text → Bool
is_written none = false
is_written (some t) = not (is_blank t)

-- A booking under way was started with its OTP verified; one handed over has its completion
-- requested; a completed one is confirmed and signed; a cancelled one says when, by whom and why.
pub record HasEvidence (b : BookingRow) : Type 0 where
  pub canonical : is_canonical b.status ≡ true
  pub started :
      is_underway b.status ≡ true
      → (b.otp_verified ≡ true) × (is_some b.started_at ≡ true) × (is_some b.verified_by ≡ true)
  pub handed_over : is_handed_over b.status ≡ true → is_some b.completion_requested_at ≡ true
  pub confirmation :
      b.status ≡ completed → (is_some b.confirmed_at ≡ true) × (is_some b.confirmed_by ≡ true)
  pub cancellation :
      b.status ≡ cancelled
      → (is_some b.cancelled_at ≡ true)
        × (is_some b.cancelled_by ≡ true)
        × (is_written b.cancellation_reason ≡ true)

-- A step along the diagram writes the evidence of the status that it reaches.
updated-HasEvidence_at :
    (now : ℕ) (p : TransitionBookingParams) (b : BookingRow) {s t : BookingStatus}
    {a : BookingAction}
    → Edge s a t
    → b.status ≡ s
    → p.action ≡ a
    → (is_cancel p.action && lacks_reason p.reason) ≡ false
    → HasEvidence b
    → HasEvidence (updated now p t b)
unfolding updated
updated-HasEvidence_at now p b start es ea reason h = ground arith
updated-HasEvidence_at now p b request es ea reason h = ground arith
updated-HasEvidence_at now p b confirm es ea reason h = ground arith
updated-HasEvidence_at now p b call_off es ea reason h = ground arith
updated-HasEvidence_at now p b break_off es ea reason h = ground arith
updated-HasEvidence_at now p b reject es ea reason h = ground arith

pub updated-HasEvidence :
    (now : ℕ) (p : TransitionBookingParams) (b : BookingRow) (t : BookingStatus)
    → Edge b.status p.action t
    → (is_cancel p.action && lacks_reason p.reason) ≡ false
    → HasEvidence b
    → HasEvidence (updated now p t b)
updated-HasEvidence now p b t e reason h = updated-HasEvidence_at now p b e refl refl reason h

pub updated-id :
    (now : ℕ) (p : TransitionBookingParams) (t : BookingStatus) (b : BookingRow)
    → (updated now p t b).id ≡ b.id
unfolding updated
updated-id now p t b = ground arith

-- The booking table: rows with ids of their own, each with the evidence of its status.
pub record IsSound (bookings : List BookingRow) : Type 0 where
  pub keyed : Keyed (λ b. b.id) bookings
  pub evidence : All HasEvidence bookings

module _ (now : ℕ) (p : TransitionBookingParams) (db : Db) where
  after-IsSound :
      (row : BookingRow) (t : BookingStatus)
      → find? (has_id p.booking_id) db.bookings ≡ some row
      → Edge row.status p.action t
      → (is_cancel p.action && lacks_reason p.reason) ≡ false
      → IsSound db.bookings
      → IsSound (after now p row.status t db).bookings
  after-IsSound row t found edge reason h = record {
    keyed =
        update_where-Keyed (λ b. b.id) (has_id p.booking_id) (updated now p t) db.bookings
          (updated-id now p t) h.keyed;
    evidence =
        All-update_found HasEvidence (λ b. b.id) p.booking_id (updated now p t) db.bookings h.keyed
          found (updated-HasEvidence now p row t edge reason) h.evidence;
  }

  -- One call of `transition`, by anybody, keeps the booking table sound: when it throws, when it
  -- repeats a step, and when it makes one.
  pub transition-IsSound :
      IsSound db.bookings → IsSound (commit db (transition now p db)).1.bookings
  unfolding transition
  transition-IsSound h = elim (Option-cases (find? (has_id p.booking_id) db.bookings)) [
    | inl missing ↦
        let threw : transition now p db ≡ err booking_not_found = ground arith in rw threw h
    | inr (row, found) ↦ elim (Result-cases (transition now p db)) [
      | inr (e, threw) ↦ rw threw h
      | inl ((r, db'), done) ↦
          rw done
            (elim (booking_transition_only now p db row found
              (All-find? _ _ db.bookings h.evidence found).canonical r db' done) [
                | inl again ↦ rw again.3 h
                | inr (edge, _, _, _, reason, _, e) ↦
                    rw e (after-IsSound row r.current_status found edge reason h)
              ])
    ]
  ]

-- Calls one after the other, each in its transaction.
pub run : List (ℕ × TransitionBookingParams) → Db → Db
run [] db = db
run ((now, p) ∷ calls) db = run calls (commit db (transition now p db)).1

-- After any sequence of transition calls by anybody, the booking table is sound if it was: each
-- row has the evidence of its status, so no booking is completed whose OTP was not verified,
-- whose completion was not requested, or that nobody confirmed.
pub run-IsSound :
    (calls : List (ℕ × TransitionBookingParams)) (db : Db)
    → IsSound db.bookings
    → IsSound (run calls db).bookings
unfolding run
run-IsSound [] db h = h
run-IsSound ((now, p) ∷ calls) db h =
    run-IsSound calls (commit db (transition now p db)).1 (transition-IsSound now p db h)
