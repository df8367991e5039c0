-- ===== src/Dispatch/Reserve.antt =====
-- What an acceptance that succeeds has done.
use labour_baba_backend.Job
use labour_baba_backend.Requirement.Machine as Requirements
use labour_baba_backend.Base.{
  Bool-cases, find?, update_where, count_where, ok, Result-cases, count_where-all, ℕ, ◌+◌, ◌≤◌, ◌≡◌,
  refl, sym, ap, ◌∙◌, ◌⊎◌, inl, inr, Bool, true, false, some, [], ◌∷◌, ◌++◌, arith,
}
use labour_baba_backend.Requirement.Laws.{find?-update_requirement}
use labour_baba_backend.Store.Rows.{JobRow, BookingRow, RequirementRow, Db}
use labour_baba_backend.Booking.Release.{update-bookings}
use labour_baba_backend.Dispatch.Accept.{
  AcceptDraw, is_acceptable, mark_booked_params, check_job_complete, confirmed_booking, accept_row,
  is_pending_of, expire_row, close_full, is_now_full, taken_up, confirmation, reserve,
}
use labour_baba_backend.Requirement.Machine as Requirements
use labour_baba_backend.Requirement.Machine as Requirements

job-same :
    (now : ℕ) (p : Job.Machine.TransitionJobParams) (db db' : Db) (r : Job.Machine.TransitionResult)
    → Job.Machine.transition now p db ≡ ok (r, db')
    → (db'.bookings ≡ db.bookings)
      × (db'.requirements ≡ db.requirements)
      × (db'.dispatches ≡ db.dispatches)
unfolding Job.Machine.transition Job.Machine.transition_from Job.Machine.write
job-same now p db db' r h = (ground arith, ground arith, ground arith)

complete-same :
    (now job_id : ℕ) (db db' : Db) (all_booked : Bool)
    → check_job_complete now job_id db ≡ ok (all_booked, db')
    → (db'.bookings ≡ db.bookings)
      × (db'.requirements ≡ db.requirements)
      × (db'.dispatches ≡ db.dispatches)
unfolding check_job_complete
complete-same now job_id db db' all_booked h =
    elim (Result-cases (Job.Machine.transition now (mark_booked_params job_id) db)) [
      | inr (e, threw) ↦ (ground arith, ground arith, ground arith)
      | inl ((r, db1), done) ↦
          let (bookings, requirements, dispatches) =
            job-same now (mark_booked_params job_id) db db1 r done in
          (ground arith, ground arith, ground arith)
    ]

-- What is left of a requirement that is full: no pending dispatch.
close_full_lem :
    (now : ℕ) (req : RequirementRow) (db db' : Db)
    → close_full now req db ≡ ok db'
    → (db'.bookings ≡ db.bookings)
      × (db'.requirements ≡ db.requirements)
      × (count_where (is_pending_of req.id) db'.dispatches ≡ 0)
unfolding close_full
close_full_lem now req db db' h =
    let swept = record db {
      dispatches = update_where (is_pending_of req.id) (expire_row now) db.dispatches;
    } in
    elim (Result-cases (check_job_complete now req.job_id swept)) [
      | inr (e, threw) ↦ ground arith
      | inl ((all_booked, db1), done) ↦
          let (bookings, requirements, dispatches) =
            complete-same now req.job_id swept db1 all_booked done in
          let same : db1 ≡ db' = ground arith in
          (
            ap (λ d. d.bookings) (sym same) ∙ bookings,
            ap (λ d. d.requirements) (sym same) ∙ requirements,
            ap (λ d. count_where (is_pending_of req.id) d.dispatches) (sym same)
                ∙ ap (count_where (is_pending_of req.id)) dispatches
                ∙ count_where-all (is_pending_of req.id) (expire_row now) (is_pending_of req.id)
                    db.dispatches (λ d. ground arith) (λ d p. p),
          )
    ]

-- What a reservation writes.
pub record IsReserved (now ttl : ℕ) (d : AcceptDraw) (req : RequirementRow) (job : JobRow)
    (worker_id : ℕ) (db : Db) (b : BookingRow) (db' : Db) : Type 0 where
  pub booking : b ≡ confirmed_booking now ttl d req job worker_id
  pub bookings : db'.bookings ≡ db.bookings ++ b ∷ []
  pub row : find? (Requirements.has_id req.id) db'.requirements ≡ some (taken_up now req req)
  pub fits : req.worker_count_filled + 1 ≤ req.worker_count_needed
  pub closed : (is_now_full req ≡ false) ⊎ (count_where (is_pending_of req.id) db'.dispatches ≡ 0)

pub reserve-IsReserved :
    (now ttl : ℕ) (d : AcceptDraw) (req : RequirementRow) (job : JobRow) (worker_id : ℕ)
    (db db' : Db) (b : BookingRow)
    → find? (Requirements.has_id req.id) db.requirements ≡ some req
    → reserve now ttl d req job worker_id db ≡ ok (b, db')
    → IsReserved now ttl d req job worker_id db b db'
unfolding reserve
reserve-IsReserved now ttl d req job worker_id db db' b found h =
    elim (Result-cases (Requirements.update_requirement (taken_up now req) req taken)) [
      | inr (e, threw) ↦ ground arith
      | inl (db1, stored) ↦
          let (row, fits) =
            find?-update_requirement (taken_up now req) req req.id taken (λ r. refl) found stored in
          let same = update-bookings (taken_up now req) req taken db1 stored in
          let db2 = record db1 {
            bookings = db1.bookings ++ made ∷ [];
            outbox = db1.outbox ++ confirmation made ∷ [];
          } in
          elim (Bool-cases (is_now_full req)) [
            | inr vacant ↦
                let b_is : b ≡ made = ground arith in
                let db_is : db' ≡ db2 = ground arith in
                record {
                  booking = b_is;
                  bookings = ap (λ x. x.bookings) db_is ∙ rw (same, b_is) refl;
                  row = ap (λ x. find? (Requirements.has_id req.id) x.requirements) db_is ∙ row;
                  fits = within fits;
                  closed = inl vacant;
                }
            | inl full ↦ elim (Result-cases (close_full now req db2)) [
              | inr (e, threw) ↦ ground arith
              | inl (db3, done) ↦
                  let (bookings, requirements, gone) = close_full_lem now req db2 db3 done in
                  let b_is : b ≡ made = ground arith in
                  let db_is : db' ≡ db3 = ground arith in
                  record {
                    booking = b_is;
                    bookings = ap (λ x. x.bookings) db_is ∙ bookings ∙ rw (same, b_is) refl;
                    row =
                        ap (λ x. find? (Requirements.has_id req.id) x.requirements) db_is
                        ∙ ap (find? (Requirements.has_id req.id)) requirements
                        ∙ row;
                    fits = within fits;
                    closed =
                        inr
                          (ap (λ x. count_where (is_pending_of req.id) x.dispatches) db_is ∙ gone);
                  }
            ]
          ]
    ]
  where
    taken : Db
    taken = record db {
      dispatches = update_where (is_acceptable now req.id worker_id) (accept_row now) db.dispatches;
    }

    made : BookingRow
    made = confirmed_booking now ttl d req job worker_id

    within :
        Requirements.fits_checks (taken_up now req req) ≡ true
        → req.worker_count_filled + 1 ≤ req.worker_count_needed
    within fits = ground arith
