-- ===== src/Dispatch/Accepted.antt =====
-- What `acceptDispatch` has done when it returns.
use mathlib.Core.Path.{subst}
use labour_baba_backend.Requirement.Machine as Requirements
use labour_baba_backend.Base.{
  ◌==◌, ==_iff, ==_refl, Bool-cases, Option-cases, any, find?, count_where, find?-sound, ok,
  Result-cases, count_where-append, ℕ, ◌+◌, ◌≤◌, ◌<◌, ◌≡◌, refl, sym, ap, ◌∙◌, ◌⊎◌, inl, inr, true,
  false, some, [], ◌∷◌, ◌++◌, arith,
}
use labour_baba_backend.Booking.Status.{BookingStatus}
use labour_baba_backend.Requirement.Reconcile.{is_active_for, active_bookings}
use labour_baba_backend.Store.Rows.{JobRow, BookingRow, RequirementRow, Db}
use labour_baba_backend.Booking.Release.{IsCounted}
use labour_baba_backend.Dispatch.Accept.{
  AcceptDraw, is_inactive, is_full, is_acceptable, job_of, preflight, is_pending_of, taken_up,
  reserve, is_booking_for, accept_in_tx, accept_dispatch,
}
use labour_baba_backend.Dispatch.Reserve.{IsReserved, reserve-IsReserved}

-- A worker accepted a dispatch: there was an open place, a dispatch to accept and no earlier
-- booking; the worker has the one new booking, confirmed, the requirement counts its bookings
-- within its demand, and no dispatch is pending once it is full.
pub record IsAccepted (now requirement_id worker_id : ℕ) (db : Db) (b : BookingRow) (db' : Db)
    : Type 0 where
  pub req : RequirementRow
  pub found : find? (Requirements.has_id requirement_id) db.requirements ≡ some req
  pub vacant : req.worker_count_filled < req.worker_count_needed
  pub unbooked : any (is_booking_for requirement_id worker_id) db.bookings ≡ false
  pub dispatched : 1 ≤ count_where (is_acceptable now requirement_id worker_id) db.dispatches
  pub theirs : (b.worker_id ≡ worker_id) × (b.requirement_id ≡ requirement_id)
  pub confirmed_ : b.status ≡ BookingStatus.confirmed
  pub bookings : db'.bookings ≡ db.bookings ++ b ∷ []
  pub counted : IsCounted requirement_id db'
  pub bounded : active_bookings requirement_id db' ≤ req.worker_count_needed
  pub closed :
      (req.worker_count_filled + 1 < req.worker_count_needed)
      ⊎ (count_where (is_pending_of requirement_id) db'.dispatches ≡ 0)

reserve-IsAccepted :
    (now ttl : ℕ) (d : AcceptDraw) (requirement_id worker_id : ℕ) (req : RequirementRow)
    (job : JobRow) (db db' : Db) (b : BookingRow)
    → IsCounted requirement_id db
    → find? (Requirements.has_id requirement_id) db.requirements ≡ some req
    → req.id ≡ requirement_id
    → any (is_booking_for requirement_id worker_id) db.bookings ≡ false
    → 1 ≤ count_where (is_acceptable now requirement_id worker_id) db.dispatches
    → IsReserved now ttl d req job worker_id db b db'
    → IsAccepted now requirement_id worker_id db b db'
reserve-IsAccepted now ttl d requirement_id worker_id req job db db' b (row, there, count) found id
      unbooked dispatched r =
    let same : row ≡ req = ground arith in
    let fits = r.fits in
    let filled_ : req.worker_count_filled ≡ active_bookings requirement_id db =
      ap (λ x. x.worker_count_filled) (sym same) ∙ count in
    let new : is_active_for requirement_id b ≡ true =
      ap (is_active_for requirement_id) r.booking ∙ rw (id, ==_refl requirement_id) refl in
    let more : active_bookings requirement_id db' ≡ active_bookings requirement_id db + 1 =
      ap (count_where (is_active_for requirement_id)) r.bookings
      ∙ count_where-append (is_active_for requirement_id) db.bookings b
      ∙ rw new refl in
    record {
      req = req;
      found = found;
      vacant = omega arith;
      unbooked = unbooked;
      dispatched = dispatched;
      theirs = (ap (λ x. x.worker_id) r.booking, ap (λ x. x.requirement_id) r.booking ∙ id);
      confirmed_ = ap (λ x. x.status) r.booking;
      bookings = r.bookings;
      counted = (
        taken_up now req req,
        subst (λ n. find? (Requirements.has_id n) db'.requirements ≡ some (taken_up now req req)) id
            r.row,
        ap (λ n. n + 1) filled_ ∙ sym more,
      );
      bounded = rw more (omega arith);
      closed = elim r.closed [
        | inl vacant ↦ inl (ground arith)
        | inr gone ↦ inr (subst (λ n. count_where (is_pending_of n) db'.dispatches ≡ 0) id gone)
      ];
    }

accept-IsAccepted :
    (now ttl : ℕ) (d : AcceptDraw) (requirement_id worker_id : ℕ) (db db' : Db) (b : BookingRow)
    → IsCounted requirement_id db
    → accept_in_tx now ttl d requirement_id worker_id db ≡ ok (b, db')
    → IsAccepted now requirement_id worker_id db b db'
unfolding accept_in_tx
accept-IsAccepted now ttl d requirement_id worker_id db db' b counted h =
    elim (Option-cases (find? (Requirements.has_id requirement_id) db.requirements)) [
      | inl missing ↦ ground arith
      | inr (req, found) ↦ elim (Option-cases (job_of req.job_id db)) [
        | inl orphan ↦ ground arith
        | inr (job, owner) ↦ elim (Bool-cases (is_inactive req job)) [
          | inl over ↦ ground arith
          | inr live ↦ elim (Bool-cases (is_full req)) [
            | inl full ↦ ground arith
            | inr vacant ↦
                elim (Bool-cases (any (is_booking_for requirement_id worker_id) db.bookings)) [
                  | inl again ↦ ground arith
                  | inr unbooked ↦
                      elim (Bool-cases (
                        count_where (is_acceptable now requirement_id worker_id) db.dispatches
                        == 0)) [
                          | inl none_ ↦ ground arith
                          | inr some_ ↦
                              let id = (==_iff req.id requirement_id).0 (
                                find?-sound (Requirements.has_id requirement_id) db.requirements
                                  found) in
                              let reserved : reserve now ttl d req job worker_id db ≡ ok (b, db') =
                                ground arith in
                              reserve-IsAccepted now ttl d requirement_id worker_id req job db db' b
                                counted found id unbooked (ground arith)
                                (reserve-IsReserved now ttl d req job worker_id db db' b
                                  (subst
                                    (λ n. find? (Requirements.has_id n) db.requirements ≡ some req)
                                    (sym id) found)
                                  reserved)
                        ]
                ]
          ]
        ]
      ]
    ]

-- When a requirement counts its active bookings and acceptDispatch returns, there was an open
-- place, a pending dispatch that had not expired and no earlier booking of the worker; the worker
-- has one new booking, confirmed; the requirement counts its bookings, within its demand; and
-- either places are left or no dispatch of it is pending.
pub accept_dispatch_returns :
    (now ttl : ℕ) (d : AcceptDraw) (requirement_id worker_id : ℕ) (before db db' : Db)
    (b : BookingRow)
    → IsCounted requirement_id db
    → accept_dispatch now ttl d requirement_id worker_id before db ≡ (ok b, db')
    → IsAccepted now requirement_id worker_id db b db'
unfolding accept_dispatch
accept_dispatch_returns now ttl d requirement_id worker_id before db db' b counted h =
    elim (Option-cases (preflight now requirement_id worker_id before)) [
      | inr (e, refused) ↦ ground arith
      | inl passed ↦ elim (Result-cases (accept_in_tx now ttl d requirement_id worker_id db)) [
        | inr (e, threw) ↦ ground arith
        | inl ((b', db1), done) ↦
            accept-IsAccepted now ttl d requirement_id worker_id db db' b counted (ground arith)
      ]
    ]
