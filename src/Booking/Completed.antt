-- ===== src/Booking/Completed.antt =====
-- What a confirmation that returns has done, on a sound booking table.
use labour_baba_backend.Booking.Machine
use labour_baba_backend.Booking.Machine.{has_id}
use labour_baba_backend.Job
use labour_baba_backend.Base.{
  ==_refl, Bool-cases, Option-cases, is_some, any, find?, find?-sound, All-find?, find?-Keyed, Text,
  Result, ok, Result-cases, any-append, ℕ, ◌≡◌, refl, ap, ◌∙◌, ◌⊎◌, inl, inr, Bool, true, false,
  Option, none, some, [], ◌∷◌, ◌++◌, arith,
}
use labour_baba_backend.Access.Role.{Actor, customer}
use labour_baba_backend.Booking.Status.{
  BookingStatus, BookingAction, awaiting_confirmation, completed, confirm_completion,
}
use labour_baba_backend.Booking.Diagram.{Edge}
use labour_baba_backend.Booking.Effect.{is_repeat}
use labour_baba_backend.Booking.Outcome.{IsMoved, booking_transition_cases}
use labour_baba_backend.Booking.Authority.{MayConfirm, authorize_confirm-MayConfirm}
use mathlib.Core.Path.{subst}
use labour_baba_backend.Booking.Evidence.{HasEvidence, IsSound}
use labour_baba_backend.Booking.Complete.{
  ConfirmBookingCompleteReq, effective, of_customer, given, authorize_confirm, confirmation_request,
  is_review_of, complete_job, create_review, record_completion, after_confirmation, confirm_from,
  confirm_complete,
}
use labour_baba_backend.Store.Rows.{BookingRow, ReviewRow, Db}
use labour_baba_backend.Store.Failure.{Failure}

complete_job-same :
    (now job_id customer_id : ℕ) (actor : Option Actor) (db db' : Db)
    → complete_job now job_id customer_id actor db ≡ ok db'
    → (db'.bookings ≡ db.bookings) × (db'.reviews ≡ db.reviews)
unfolding complete_job Job.Machine.transition Job.Machine.transition_from Job.Machine.write
complete_job-same now job_id customer_id actor db db' h = (ground arith, ground arith)

confirm-Edge :
    {s t : BookingStatus} {a : BookingAction}
    → Edge s a t
    → a ≡ confirm_completion
    → (s ≡ awaiting_confirmation) × (t ≡ completed)
confirm-Edge Edge.start e = ground arith
confirm-Edge Edge.request e = ground arith
confirm-Edge Edge.confirm e = (refl, refl)
confirm-Edge Edge.call_off e = ground arith
confirm-Edge Edge.break_off e = ground arith
confirm-Edge Edge.reject e = ground arith

module _ (on_duplicate : Db → Result Failure Db)
    (ignored : (d d' : Db) → on_duplicate d ≡ ok d' → d' ≡ d) where
  review-done :
      (customer_id : ℕ) (rating : Option ℕ) (comment : Text) (b : BookingRow) (db db' : Db)
      → create_review on_duplicate customer_id rating comment b db ≡ ok db'
      → (db'.bookings ≡ db.bookings)
        × ((is_some rating ≡ false) ⊎ (any (is_review_of b.id) db'.reviews ≡ true))
  unfolding create_review
  review-done customer_id none comment b db db' h = (ground arith, inl refl)
  review-done customer_id (some rating) comment b db db' h =
      elim (Bool-cases (any (is_review_of b.id) db.reviews)) [
        | inl already ↦
            let same = ignored db db' (ground arith) in
            (
              ap (λ d. d.bookings) same,
              inr (ap (λ d. any (is_review_of b.id) d.reviews) same ∙ already),
            )
        | inr first ↦
            let made : ReviewRow = record {
              booking_id = b.id;
              worker_id = b.worker_id;
              customer_id = customer_id;
              rating = rating;
              comment = comment;
            } in
            let same : db' ≡ record db { reviews = db.reviews ++ made ∷ [] } = ground arith in
            (
              ap (λ d. d.bookings) same,
              inr (
                  ap (λ d. any (is_review_of b.id) d.reviews) same
                  ∙ any-append (is_review_of b.id) db.reviews made
                  ∙ rw (first, ==_refl b.id) refl),
            )
      ]

  event-done :
      (is_idempotent : Bool) (b : BookingRow) (db db' : Db)
      → record_completion on_duplicate is_idempotent b db ≡ ok db'
      → (db'.bookings ≡ db.bookings) × (db'.reviews ≡ db.reviews)
  unfolding record_completion
  event-done is_idempotent b db db' h =
      (ground (arith, ignored db db'), ground (arith, ignored db db'))

  after-done :
      (now customer_id : ℕ) (payload : ConfirmBookingCompleteReq) (actor : Option Actor)
      (b : BookingRow) (is_idempotent : Bool) (db db' : Db)
      → after_confirmation on_duplicate now customer_id payload actor b is_idempotent db ≡ ok db'
      → (db'.bookings ≡ db.bookings)
        × ((is_some (given payload.rating) ≡ false) ⊎ (any (is_review_of b.id) db'.reviews ≡ true))
  unfolding after_confirmation
  after-done now customer_id payload actor b is_idempotent db db' h =
      elim (Result-cases (
        create_review on_duplicate (effective customer actor customer_id) (given payload.rating)
          payload.comment b db)) [
            | inr (e, threw) ↦ ground arith
            | inl (db1, reviewed) ↦
                elim (Result-cases (complete_job now b.job_id customer_id actor db1)) [
                  | inr (e, threw) ↦ ground arith
                  | inl (db2, moved) ↦
                      let (bookings, review) =
                        review-done (effective customer actor customer_id) (given payload.rating)
                          payload.comment b db db1 reviewed in
                      let (bookings', reviews') =
                        complete_job-same now b.job_id customer_id actor db1 db2 moved in
                      let (bookings'', reviews'') =
                        event-done is_idempotent b db2 db' (ground arith) in
                      (
                        bookings'' ∙ bookings' ∙ bookings,
                        elim review [
                          | inl none_ ↦ inl none_
                          | inr there ↦
                              inr (ap (any (is_review_of b.id)) (reviews'' ∙ reviews') ∙ there)
                        ],
                      )
                ]
          ]

  -- If `confirmComplete` returns, on a sound booking table, and a row that a unique key refuses is
  -- passed over without a change, then the booking was in the caller's scope and the caller is its
  -- customer; either it awaited its confirmation and is now completed and confirmed by that
  -- caller, or it was completed and the bookings are as they were; and it has a review if a rating
  -- was given.
  pub confirm_complete_returns :
      (now id customer_id : ℕ) (payload : ConfirmBookingCompleteReq) (actor : Option Actor)
      (db db' : Db)
      → IsSound db.bookings
      → confirm_complete on_duplicate now id customer_id payload actor db ≡ ok db'
      → (b : BookingRow) × (find? (has_id id) db.bookings ≡ some b)
        × (of_customer actor customer_id id b ≡ true)
        × MayConfirm actor customer_id b
        × (((b.status ≡ awaiting_confirmation)
              × ((b' : BookingRow) × (find? (has_id id) db'.bookings ≡ some b')
                  × IsMoved now (confirmation_request id customer_id actor).actor completed b b'))
            ⊎ ((b.status ≡ completed) × (db'.bookings ≡ db.bookings)))
        × ((is_some (given payload.rating) ≡ false) ⊎ (any (is_review_of b.id) db'.reviews ≡ true))
  unfolding confirm_complete confirm_from
  confirm_complete_returns now id customer_id payload actor db db' sound h =
      elim (Option-cases (find? (of_customer actor customer_id id) db.bookings)) [
        | inl missing ↦ ground arith
        | inr (b, here) ↦
            elim (Result-cases
              (Machine.transition now (confirmation_request id customer_id actor) db)) [
                | inr (e, threw) ↦ ground arith
                | inl ((r, db1), moved) ↦
                    let found = find?-Keyed (λ x. x.id) id _ db.bookings sound.keyed here in
                    let own = find?-sound (of_customer actor customer_id id) db.bookings here in
                    let canonical =
                      (All-find? HasEvidence (has_id id) db.bookings sound.evidence
                        found).canonical in
                    let p = confirmation_request id customer_id actor in
                    let followed : after_confirmation on_duplicate now customer_id payload actor b
                          r.is_idempotent db1
                        ≡ ok db' =
                      ground arith in
                    let allowed_ : authorize_confirm actor customer_id b ≡ ok tt = ground arith in
                    let (same, review) =
                      after-done now customer_id payload actor b r.is_idempotent db1 db' followed in
                    let may = authorize_confirm-MayConfirm actor customer_id b allowed_ in
                    elim (booking_transition_cases now p db b found canonical r db1 moved) [
                      | inl (again, _, e) ↦ (
                        b,
                        found,
                        own,
                        may,
                        inr (repeats b.status again, same ∙ ap (λ d. d.bookings) e),
                        review,
                      )
                      | inr (edge, _, _, _, _, done) ↦
                          let (was, target) = confirm-Edge edge refl in
                          let row =
                            subst (λ t. IsMoved now p.actor t b r.booking) target done.row in
                          let stored = ap (find? (has_id id)) same ∙ done.stored in
                          (b, found, own, may, inl (was, (r.booking, stored, row)), review)
                    ]
              ]
      ]
    where
      repeats : (s : BookingStatus) → is_repeat confirm_completion s ≡ true → s ≡ completed
      repeats s again = ground arith
