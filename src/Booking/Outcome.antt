-- ===== src/Booking/Outcome.antt =====
-- What a transition writes, column by column: the contract of `bookingStateService.transition`,
-- independent of how the service builds the row and the audit record.
use labour_baba_backend.Base.{
  Option, none, ap, ◌↔◌, ◌≢◌, Text, trim, is_blank, Bool-cases, ◌==◌, find?, update_where,
  find?-sound, find?-update_where, ok, ℕ, ◌≡◌, refl, sym, ◌⊎◌, inl, inr, true, false, ◌&&◌, some,
  List, [], ◌∷◌, ◌++◌, arith,
}
use mathlib.Core.Path.{subst}
use labour_baba_backend.Booking.Status.{
  BookingAction, cancel, BookingStatus, in_progress, awaiting_confirmation, completed, cancelled,
  is_canonical,
}
use labour_baba_backend.Booking.Machine.{
  TransitionBookingParams, BookingTransitionResult, updated, audit, has_id, lacks_reason, is_cancel,
  is_expected, transition,
}
use labour_baba_backend.Booking.Diagram.{Edge, role_may, is_party}
use labour_baba_backend.Booking.Effect.{
  is_repeat, after, moved, booking_transition_succeeds, booking_transition_only,
}
use labour_baba_backend.Booking.Evidence.{updated-id}
use labour_baba_backend.Store.Rows.{
  TransitionActor, BookingRow, BookingTransitionRow, Db, signature,
}

-- The booking `b'` is `b` moved to the status `t` at the time `now` by this actor.
pub record IsMoved (now : ℕ) (a : TransitionActor) (t : BookingStatus) (b b' : BookingRow)
    : Type 0 where
  pub status : b'.status ≡ t
  pub stamped : b'.updated_at ≡ now
  pub same_id : b'.id ≡ b.id
  pub same_parties : (b'.worker_id ≡ b.worker_id) × (b'.customer_id ≡ b.customer_id)
  pub same_parents : (b'.job_id ≡ b.job_id) × (b'.requirement_id ≡ b.requirement_id)
  pub started :
      t ≡ in_progress
      → (b'.started_at ≡ some now)
        × (b'.otp_verified ≡ true)
        × (b'.otp_consumed_at ≡ some now)
        × (b'.verified_at ≡ some now)
        × (b'.verified_by ≡ some (signature a))
  pub requested : t ≡ awaiting_confirmation → b'.completion_requested_at ≡ some now
  pub finished :
      t ≡ completed
      → (b'.completed_at ≡ some now)
        × (b'.confirmed_at ≡ some now)
        × (b'.confirmed_by ≡ some (signature a))
  pub called_off :
      t ≡ cancelled → (b'.cancelled_at ≡ some now) × (b'.cancelled_by ≡ some (signature a))

pub updated-IsMoved :
    (now : ℕ) (p : TransitionBookingParams) (t : BookingStatus) (b : BookingRow)
    → IsMoved now p.actor t b (updated now p t b)
unfolding updated
updated-IsMoved now p t b = record {
  status = ground arith;
  stamped = ground arith;
  same_id = ground arith;
  same_parties = (ground arith, ground arith);
  same_parents = (ground arith, ground arith);
  started = λ h. ground arith;
  requested = λ h. ground arith;
  finished = λ h. ground arith;
  called_off = λ h. ground arith;
}

-- One audit record was appended, and it says who moved the booking, from where, to where and by
-- which action.
pub record IsAudited (p : TransitionBookingParams) (s t : BookingStatus)
    (before after_ : List BookingTransitionRow) : Type 0 where
  pub entry : BookingTransitionRow
  pub appended : after_ ≡ before ++ entry ∷ []
  pub of_booking : entry.booking_id ≡ p.booking_id
  pub from_to : (entry.from_status ≡ s) × (entry.to_status ≡ t)
  pub by_action : entry.action ≡ p.action
  pub by_actor : (entry.actor_type ≡ p.actor.role) × (entry.actor_id ≡ p.actor.id)

-- The whole effect: the answer, the row of the booking, the other bookings, the audit trail, and
-- the tables that stay.
pub record IsTransition (now : ℕ) (p : TransitionBookingParams) (b : BookingRow) (t : BookingStatus)
    (db db' : Db) (r : BookingTransitionResult) : Type 0 where
  pub answered : (r.previous_status ≡ b.status) × (r.current_status ≡ t)
  pub is_first : r.is_idempotent ≡ false
  pub row : IsMoved now p.actor t b r.booking
  pub stored : find? (λ x. x.id == p.booking_id) db'.bookings ≡ some r.booking
  pub others :
      (n : ℕ)
      → (n == p.booking_id) ≡ false
      → find? (λ x. x.id == n) db'.bookings ≡ find? (λ x. x.id == n) db.bookings
  pub audited : IsAudited p b.status t db.booking_transitions db'.booking_transitions
  pub untouched :
      db' ≡ record db { bookings = db'.bookings; booking_transitions = db'.booking_transitions }

-- A write to the rows with one id leaves the rows with another as they are.
find?-other :
    (now n : ℕ) (p : TransitionBookingParams) (t : BookingStatus) (bookings : List BookingRow)
    → (n == p.booking_id) ≡ false
    → find? (λ x. x.id == n) (update_where (has_id p.booking_id) (updated now p t) bookings)
      ≡ find? (λ x. x.id == n) bookings
find?-other now n p t [] differs = refl
find?-other now n p t (b ∷ bs) differs =
    ground (arith, find?-other now n p t bs differs, updated-id now p t b)

pub find?-moved :
    (now : ℕ) (p : TransitionBookingParams) (t : BookingStatus) (bookings : List BookingRow)
    {b : BookingRow}
    → find? (has_id p.booking_id) bookings ≡ some b
    → find? (has_id p.booking_id) (update_where (has_id p.booking_id) (updated now p t) bookings)
      ≡ some (updated now p t b)
find?-moved now p t bookings {b} found =
    let own = find?-sound (has_id p.booking_id) bookings found in
    let look =
      find?-update_where (has_id p.booking_id) (has_id p.booking_id) (updated now p t) bookings
        (λ x. ground (arith, updated-id now p t x)) in
    ground (arith, look)

after-IsTransition :
    (now : ℕ) (p : TransitionBookingParams) (b : BookingRow) (t : BookingStatus) (db : Db)
    → find? (has_id p.booking_id) db.bookings ≡ some b
    → IsTransition now p b t db (after now p b.status t db) (moved now p t b)
after-IsTransition now p b t db found = record {
  answered = (refl, refl);
  is_first = refl;
  row = updated-IsMoved now p t b;
  stored = find?-moved now p t db.bookings found;
  others = λ n differs. find?-other now n p t db.bookings differs;
  audited = record {
    entry = audit p b.status t;
    appended = refl;
    of_booking = refl;
    from_to = (refl, refl);
    by_action = refl;
    by_actor = (refl, refl);
  };
  untouched = refl;
}

-- No status was expected, or this one.
abbrev pub IsExpected : Option BookingStatus → BookingStatus → Type 0
IsExpected e s = (e ≡ none) ⊎ (e ≡ some s)

IsExpected-iff :
    (e : Option BookingStatus) (s : BookingStatus)
    → is_canonical s ≡ true
    → (is_expected e s ≡ true) ↔ IsExpected e s
IsExpected-iff none s c = (λ _. inl refl, λ _. refl)
IsExpected-iff (some t) s c =
    (λ h. let same : t ≡ s = ground arith in inr (ap some same), λ h. ground arith)

-- An action other than a cancellation, or a reason that is not blank.
abbrev pub GivesReason : BookingAction → Option Text → Type 0
GivesReason a reason = (a ≢ cancel) ⊎ ((t : Text) × (reason ≡ some t) × (is_blank (trim t) ≡ false))

reason_iff :
    (a : BookingAction) (reason : Option Text)
    → ((is_cancel a && lacks_reason reason) ≡ false) ↔ GivesReason a reason
reason_iff a none = (λ h. inl (λ e. ground arith), λ h. ground arith)
reason_iff a (some t) = elim (Bool-cases (is_cancel a)) [
  | inl cancels ↦ (λ h. inr (t, refl, ground arith), λ h. ground arith)
  | inr others_ ↦ (λ h. inl (λ e. ground arith), λ h. ground arith)
]

module _ (now : ℕ) (p : TransitionBookingParams) (db : Db) (b : BookingRow)
    (found : find? (has_id p.booking_id) db.bookings ≡ some b)
    (canonical : is_canonical b.status ≡ true) where
  -- On a booking with a status of the machine: along an edge of the diagram, for a role that may
  -- take it, by the party that the action is for, with the status that was expected if one was,
  -- and with a reason if it cancels, the call succeeds. The booking has the target status, the
  -- columns that prove it and its parties as before; the other bookings and tables are as they
  -- were; one audit record from the old to the new status is appended.
  pub booking_transition_moves :
      {t : BookingStatus}
      → Edge b.status p.action t
      → role_may p.actor.role p.action b.status ≡ true
      → is_party p.actor p.action b ≡ true
      → IsExpected p.expected_status b.status
      → GivesReason p.action p.reason
      → (r : BookingTransitionResult) × (db' : Db) × (transition now p db ≡ ok (r, db'))
        × IsTransition now p b t db db' r
  booking_transition_moves {t} e may own expected reason = (
    moved now p t b,
    after now p b.status t db,
    booking_transition_succeeds now p db b found canonical e may own
        ((IsExpected-iff p.expected_status b.status canonical).1 expected)
        ((reason_iff p.action p.reason).1 reason),
    after-IsTransition now p b t db found,
  )

  -- On a booking with a status of the machine, a call that succeeds either did exactly that, its
  -- conditions being met, or repeats a step that was already made; a repeat returns the row and
  -- changes nothing.
  pub booking_transition_cases :
      (r : BookingTransitionResult) (db' : Db)
      → transition now p db ≡ ok (r, db')
      → ((is_repeat p.action b.status ≡ true) × (r.booking ≡ b) × (db' ≡ db))
        ⊎ (Edge b.status p.action r.current_status
            × (role_may p.actor.role p.action b.status ≡ true)
            × (is_party p.actor p.action b ≡ true)
            × IsExpected p.expected_status b.status
            × GivesReason p.action p.reason
            × IsTransition now p b r.current_status db db' r)
  booking_transition_cases r db' h =
      elim (booking_transition_only now p db b found canonical r db' h) [
        | inl (again, _, row, same) ↦ inl (again, row, same)
        | inr (edge, role, own, expected, reason, answer, effect) ↦ inr (
          edge,
          role,
          own,
          (IsExpected-iff p.expected_status b.status canonical).0 expected,
          (reason_iff p.action p.reason).0 reason,
          rw (effect) (
              subst
                (IsTransition now p b r.current_status db
                  (after now p b.status r.current_status db))
                (sym answer) (after-IsTransition now p b r.current_status db found)),
        )
      ]
