-- ===== src/Booking/Effect.antt =====
-- What a call of `bookingStateService.transition` does, on a booking whose status is canonical.
use labour_baba_backend.Base.{
  ℕ, ◌≡◌, refl, ◌⊎◌, inl, inr, Bool, true, false, ◌&&◌, some, arith, ok, find?, [], ◌∷◌, ◌++◌,
  Bool-cases, update_where, sym, ◌∙◌,
}
use mathlib.Core.Path.{subst}
use labour_baba_backend.Booking.Status.{
  BookingStatus, awaiting_confirmation, completed, BookingAction, request_completion,
  confirm_completion, normalize_status, is_canonical,
}
use labour_baba_backend.Booking.Diagram.{
  Edge, start, request, confirm, call_off, break_off, reject, role_may, is_party,
}
use labour_baba_backend.Booking.Laws.{booking_allowed_iff}
use labour_baba_backend.Booking.Machine.{
  Verdict, allowed, illegal, role_refused, forbidden, can_transition, TransitionBookingParams,
  BookingTransitionResult, updated, audit, has_id, write, lacks_reason, is_cancel, is_expected,
  proceed, transition_from, transition,
}
use labour_baba_backend.Store.Rows.{BookingRow, Db}

pub normalize_status-canonical :
    (s : BookingStatus) → is_canonical s ≡ true → normalize_status s ≡ s
unfolding normalize_status
normalize_status-canonical s c = ground arith

-- The repeats that step 2 answers with the row as it is.
abbrev pub is_repeat : BookingAction → BookingStatus → Bool
is_repeat confirm_completion completed = true
is_repeat request_completion awaiting_confirmation = true
is_repeat _ _ = false

Verdict-cases :
    (v : Verdict)
    → ((t : BookingStatus) × (v ≡ allowed t))
      ⊎ ((v ≡ illegal) ⊎ ((v ≡ role_refused) ⊎ (v ≡ forbidden)))
Verdict-cases (allowed t) = inl (t, refl)
Verdict-cases illegal = inr (inl refl)
Verdict-cases role_refused = inr (inr (inl refl))
Verdict-cases forbidden = inr (inr (inr refl))

proceed_only :
    (now : ℕ) (p : TransitionBookingParams) (s : BookingStatus) (row : BookingRow) (db db' : Db)
    (r : BookingTransitionResult)
    → proceed now p s row db ≡ ok (r, db')
    → (t : BookingStatus) × (can_transition s p.action p.actor row ≡ allowed t)
      × (is_expected p.expected_status s ≡ true)
      × ((is_cancel p.action && lacks_reason p.reason) ≡ false)
      × (write now p s t row db ≡ (r, db'))
unfolding proceed
proceed_only now p s row db db' r h = elim (Verdict-cases (can_transition s p.action p.actor row)) [
  | inl (t, e) ↦ (t, e, ground arith, ground arith, ground arith)
  | inr refused ↦ ground arith
]

Edge-fresh : {s t : BookingStatus} {a : BookingAction} → Edge s a t → is_repeat a s ≡ false
Edge-fresh start = refl
Edge-fresh request = refl
Edge-fresh confirm = refl
Edge-fresh call_off = refl
Edge-fresh break_off = refl
Edge-fresh reject = refl

-- The database after a transition.
abbrev pub after : ℕ → TransitionBookingParams → BookingStatus → BookingStatus → Db → Db
after now p s t db = record db {
  bookings = update_where (has_id p.booking_id) (updated now p t) db.bookings;
  booking_transitions = db.booking_transitions ++ audit p s t ∷ [];
}

abbrev pub moved :
    ℕ → TransitionBookingParams → BookingStatus → BookingRow → BookingTransitionResult
moved now p t row = record {
  booking = updated now p t row;
  previous_status = row.status;
  current_status = t;
  is_idempotent = false;
}

module _ (now : ℕ) (p : TransitionBookingParams) (db : Db) (row : BookingRow)
    (found : find? (has_id p.booking_id) db.bookings ≡ some row)
    (canonical : is_canonical row.status ≡ true) where
  reaches :
      is_repeat p.action row.status ≡ false → transition now p db ≡ proceed now p row.status row db
  unfolding transition transition_from
  reaches fresh = ground (arith, normalize_status-canonical row.status canonical)

  -- Along an edge of the diagram, for a role that may take it, by the party that the action is
  -- for, with the status that was expected if one was, and with a reason if it cancels, the call
  -- succeeds: it rewrites the row by the target and appends one audit record.
  pub booking_transition_succeeds :
      {t : BookingStatus}
      → Edge row.status p.action t
      → role_may p.actor.role p.action row.status ≡ true
      → is_party p.actor p.action row ≡ true
      → is_expected p.expected_status row.status ≡ true
      → (is_cancel p.action && lacks_reason p.reason) ≡ false
      → transition now p db ≡ ok (moved now p t row, after now p row.status t db)
  unfolding proceed write
  booking_transition_succeeds {t} e may own expected reason = ground (
    arith,
    reaches (Edge-fresh e),
    (booking_allowed_iff row.status p.action p.actor row t canonical).1 (e, may, own),
  )

  -- A call that succeeds either moved the booking so, or repeats a step that was already made;
  -- a repeat returns the row and changes nothing.
  pub booking_transition_only :
      (r : BookingTransitionResult) (db' : Db)
      → transition now p db ≡ ok (r, db')
      → ((is_repeat p.action row.status ≡ true)
          × (r.is_idempotent ≡ true)
          × (r.booking ≡ row)
          × (db' ≡ db))
        ⊎ (Edge row.status p.action r.current_status
            × (role_may p.actor.role p.action row.status ≡ true)
            × (is_party p.actor p.action row ≡ true)
            × (is_expected p.expected_status row.status ≡ true)
            × ((is_cancel p.action && lacks_reason p.reason) ≡ false)
            × (r ≡ moved now p r.current_status row)
            × (db' ≡ after now p row.status r.current_status db))
  unfolding transition transition_from write
  booking_transition_only r db' h = elim (Bool-cases (is_repeat p.action row.status)) [
    | inl again ↦ inl (
      again,
      ground (arith, normalize_status-canonical row.status canonical),
      ground (arith, normalize_status-canonical row.status canonical),
      ground (arith, normalize_status-canonical row.status canonical),
    )
    | inr fresh ↦
        let (t, may, expected, reason, wrote) =
          proceed_only now p row.status row db db' r (sym (reaches fresh) ∙ h) in
        let (edge, role, own) =
          (booking_allowed_iff row.status p.action p.actor row t canonical).0 may in
        let current : t ≡ r.current_status = ground arith in
        inr (
          subst (Edge row.status p.action) current edge,
          role,
          own,
          expected,
          reason,
          ground arith,
          ground arith,
        )
  ]
