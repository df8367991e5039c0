-- ===== src/Booking/Release.antt =====
-- What a cancellation that succeeds has done, on a sound booking table.
use labour_baba_backend.Base.{
  ℕ, ◌≡◌, refl, inl, inr, true, false, Option, some, arith, sym, ◌∙◌, Text, Result, ok, find?,
  find?-sound, find?-Keyed, count_where, All-find?, Option-cases, Result-cases,
}
use mathlib.Core.Path.{ap, subst}
use labour_baba_backend.Access.Role.{Actor}
use labour_baba_backend.Booking.Status.{cancel, cancelled, BookingStatus, BookingAction}
use labour_baba_backend.Booking.Diagram.{Edge}
use labour_baba_backend.Booking.Machine
use labour_baba_backend.Booking.Machine.{has_id}
use labour_baba_backend.Booking.Outcome.{IsMoved, booking_transition_cases}
use labour_baba_backend.Booking.Authority.{MayCancel, authorize-MayCancel}
use labour_baba_backend.Booking.Evidence.{HasEvidence, IsSound}
use labour_baba_backend.Booking.Cancel.{
  cancellation_event, in_scope, is_participant, effective_id, effective_role, authorize,
  cancellation, cancel_dispatches, reopen, reopen_job, record_event, release, cancel_from,
  cancel_booking,
}
use labour_baba_backend.Job
use labour_baba_backend.Requirement.Machine as Requirements
use labour_baba_backend.Requirement.Status.{normalize_status}
use labour_baba_backend.Requirement.Capacity.{RequirementCapacity, calculate_requirement_capacity}
use labour_baba_backend.Requirement.Reconcile.{
  is_active_for, active_bookings, reconcile_capacity, recounted, reconciled_status,
}
use labour_baba_backend.Requirement.Places.{places_taken, taken-active}
use labour_baba_backend.Requirement.Laws.{find?-update_requirement}
use labour_baba_backend.Store.Rows.{BookingRow, RequirementRow, OutboxRow, Db}
use labour_baba_backend.Store.Failure.{Failure}

-- A requirement's row counts the active bookings of the table.
abbrev pub IsCounted : ℕ → Db → Type 0
IsCounted id db =
    (row : RequirementRow) × (find? (Requirements.has_id id) db.requirements ≡ some row)
    × (row.worker_count_filled ≡ active_bookings id db)

pub update-bookings :
    (f : RequirementRow → RequirementRow) (req : RequirementRow) (db db' : Db)
    → Requirements.update_requirement f req db ≡ ok db'
    → db'.bookings ≡ db.bookings
unfolding Requirements.update_requirement
update-bookings f req db db' h = ground arith

reconcile-IsCounted :
    (now id : ℕ) (db db' : Db) (c : RequirementCapacity)
    → reconcile_capacity now id db ≡ ok (c, db')
    → IsCounted id db' × (db'.bookings ≡ db.bookings)
unfolding reconcile_capacity
reconcile-IsCounted now id db db' c h =
    elim (Option-cases (find? (Requirements.has_id id) db.requirements)) [
      | inl missing ↦ ground arith
      | inr (req, found) ↦
          elim (Result-cases
            (calculate_requirement_capacity req.worker_count_needed (active_bookings id db))) [
              | inr (e, threw) ↦ ground arith
              | inl (cap, computed) ↦
                  let write =
                    recounted now (active_bookings id db)
                      (reconciled_status (normalize_status req.status) cap) in
                  let stored : Requirements.update_requirement write req db ≡ ok db' =
                    ground arith in
                  let (row, _) =
                    find?-update_requirement write req id db (λ r. refl) found stored in
                  let same = update-bookings write req db db' stored in
                  ((write req, row, rw same refl), same)
            ]
    ]

-- The job's transition leaves the bookings and the requirements alone.
job-tables :
    (now : ℕ) (p : Job.Machine.TransitionJobParams) (db db' : Db) (r : Job.Machine.TransitionResult)
    → Job.Machine.transition now p db ≡ ok (r, db')
    → (db'.bookings ≡ db.bookings) × (db'.requirements ≡ db.requirements)
unfolding Job.Machine.transition Job.Machine.transition_from Job.Machine.write
job-tables now p db db' r h = (ground arith, ground arith)

reopen-tables :
    (now job_id : ℕ) (db db' : Db)
    → reopen_job now job_id db ≡ ok db'
    → (db'.bookings ≡ db.bookings) × (db'.requirements ≡ db.requirements)
unfolding reopen_job
reopen-tables now job_id db db' h =
    elim (Result-cases (Job.Machine.transition now (reopen job_id) db)) [
      | inr (e, threw) ↦ (ground arith, ground arith)
      | inl ((r, db1), done) ↦
          let (bookings, requirements) = job-tables now (reopen job_id) db db1 r done in
          (ground arith, ground arith)
    ]

module _ (on_duplicate : Db → Result Failure Db)
    (ignored : (d d' : Db)
      → on_duplicate d ≡ ok d'
      → (d'.bookings ≡ d.bookings) × (d'.requirements ≡ d.requirements)) where
  event-tables :
      (event : OutboxRow) (db db' : Db)
      → record_event on_duplicate event db ≡ ok db'
      → (db'.bookings ≡ db.bookings) × (db'.requirements ≡ db.requirements)
  unfolding record_event
  event-tables event db db' h = (ground (arith, ignored db db'), ground (arith, ignored db db'))

  release-IsCounted :
      (now : ℕ) (actor : Option Actor) (b : BookingRow) (db db' : Db)
      → release on_duplicate now actor b db ≡ ok db'
      → IsCounted b.requirement_id db' × (db'.bookings ≡ db.bookings)
  unfolding release
  release-IsCounted now actor b db db' h =
      elim (Result-cases (reconcile_capacity now b.requirement_id db)) [
        | inr (e, threw) ↦ ground arith
        | inl ((c, db1), counted) ↦
            elim (Result-cases (reopen_job now b.job_id (cancel_dispatches now b db1))) [
              | inr (e, threw) ↦ ground arith
              | inl (db2, reopened) ↦
                  let ((row, found, count), same) =
                    reconcile-IsCounted now b.requirement_id db db1 c counted in
                  let (bookings, requirements) =
                    reopen-tables now b.job_id (cancel_dispatches now b db1) db2 reopened in
                  let (bookings', requirements') =
                    event-tables (cancellation_event actor b) db2 db' (ground arith) in
                  let all : db'.bookings ≡ db1.bookings = bookings' ∙ bookings in
                  let all' : db'.requirements ≡ db1.requirements = requirements' ∙ requirements in
                  (
                    (
                      row,
                      ground arith,
                      count ∙ ap (count_where (is_active_for b.requirement_id)) (sym all),
                    ),
                    all ∙ same,
                  )
            ]
      ]

  cancel-Edge : {s t : BookingStatus} {a : BookingAction} → Edge s a t → a ≡ cancel → t ≡ cancelled
  cancel-Edge Edge.start e = ground arith
  cancel-Edge Edge.request e = ground arith
  cancel-Edge Edge.confirm e = ground arith
  cancel-Edge Edge.call_off e = refl
  cancel-Edge Edge.break_off e = refl
  cancel-Edge Edge.reject e = refl

  -- If `cancelBooking` returns, on a sound booking table, and a duplicate row of the outbox is
  -- passed over without a change to bookings and requirements, then the booking was in the
  -- caller's scope, the caller is a party to it or an administrator and gave a reason; the booking
  -- is now cancelled by that caller, its parties as before, and
  -- its requirement counts exactly its bookings that are not cancelled.
  pub cancel_booking_returns :
      (now id user_id : ℕ) (reason : Option Text) (actor : Option Actor) (db db' : Db)
      → IsSound db.bookings
      → cancel_booking on_duplicate now id user_id reason actor db ≡ ok db'
      → (b : BookingRow) × (find? (has_id id) db.bookings ≡ some b)
        × (is_participant (effective_role actor) (effective_id actor user_id) b ≡ true)
        × MayCancel actor user_id b
        × (Machine.lacks_reason reason ≡ false)
        × ((b' : BookingRow) × (find? (has_id id) db'.bookings ≡ some b')
            × IsMoved now (cancellation id user_id actor reason).actor cancelled b b')
        × ((row : RequirementRow) × (find? (Requirements.has_id b.requirement_id) db'.requirements
              ≡ some row)
            × (row.worker_count_filled ≡ places_taken b.requirement_id db'.bookings))
  unfolding cancel_booking cancel_from
  cancel_booking_returns now id user_id reason actor db db' sound h =
      elim (Option-cases (find? (in_scope actor user_id id) db.bookings)) [
        | inl missing ↦ ground arith
        | inr (b, read) ↦
            elim (Result-cases (Machine.transition now (cancellation id user_id actor reason) db)) [
              | inr (e, threw) ↦ ground arith
              | inl ((r, db1), moved) ↦
                  let found = find?-Keyed (λ x. x.id) id _ db.bookings sound.keyed read in
                  let own = find?-sound (in_scope actor user_id id) db.bookings read in
                  let canonical =
                    (All-find? HasEvidence (has_id id) db.bookings sound.evidence
                      found).canonical in
                  let p = cancellation id user_id actor reason in
                  elim (booking_transition_cases now p db b found canonical r db1 moved) [
                    | inl again ↦ ground arith
                    | inr (edge, _, _, _, _, done) ↦
                        let released : release on_duplicate now actor b db1 ≡ ok db' =
                          ground arith in
                        let ((row, here, count), same) =
                          release-IsCounted now actor b db1 db' released in
                        let passed : authorize actor user_id b ≡ ok tt = ground arith in
                        (
                          b,
                          found,
                          ground arith,
                          authorize-MayCancel actor user_id b passed,
                          ground arith,
                          (
                            r.booking,
                            ap (find? (has_id id)) same ∙ done.stored,
                            subst (λ t. IsMoved now p.actor t b r.booking) (cancel-Edge edge refl)
                                done.row,
                          ),
                          (row, here, count ∙ taken-active b.requirement_id db'.bookings),
                        )
                  ]
            ]
      ]
