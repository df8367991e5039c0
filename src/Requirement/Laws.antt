-- ===== src/Requirement/Laws.antt =====
-- The requirement's status against its counts.
use labour_baba_backend.Base.{
  ℕ, ◌≤◌, ◌<◌, ◌≡◌, refl, ◌↔◌, ◌≢◌, true, false, some, ok, err, find?, arith, find?-update_where,
  find?-sound, ==_refl, max, update_where,
}
use labour_baba_backend.Requirement.Status.{
  RequirementStatus, open_, partially_filled, filled, cancelled, normalize_status,
}
use labour_baba_backend.Requirement.Capacity.{
  RequirementCapacity, capacity_at, calculate_requirement_capacity,
}
use labour_baba_backend.Requirement.Machine.{has_id, fits_checks, update_requirement, owner_of}
use labour_baba_backend.Requirement.Reconcile.{
  active_bookings, recounted, reconciled_status, reconcile_capacity, whole, update_demand,
  demand_from, is_other_customer, redemanded, demanded_status,
}
use labour_baba_backend.Store.Rows.{TransitionActor, RequirementRow, Db}
use labour_baba_backend.Store.Failure.{check_violation}

-- The status says what the counts say: full is FILLED and nothing else is, unless the
-- requirement is cancelled; PARTIALLY_FILLED has some but not all, OPEN has none.
pub record IsSettled (r : RequirementRow) : Type 0 where
  pub full :
      normalize_status r.status ≢ cancelled
      → (normalize_status r.status ≡ filled) ↔ (r.worker_count_needed ≤ r.worker_count_filled)
  pub partial :
      normalize_status r.status ≡ partially_filled
      → (0 < r.worker_count_filled) × (r.worker_count_filled < r.worker_count_needed)
  pub vacant : normalize_status r.status ≡ open_ → r.worker_count_filled ≡ 0

-- A write to the row that was found is the row that is found next.
pub find?-update_requirement :
    (f : RequirementRow → RequirementRow) (req : RequirementRow) (id : ℕ) (db : Db) {db' : Db}
    → ((r : RequirementRow) → (f r).id ≡ r.id)
    → find? (has_id id) db.requirements ≡ some req
    → update_requirement f req db ≡ ok db'
    → (find? (has_id id) db'.requirements ≡ some (f req)) × (fits_checks (f req) ≡ true)
unfolding update_requirement
find?-update_requirement f req id db {db'} keep found done =
    let row = find?-update_where (has_id req.id) (has_id id) f db.requirements (λ x. rw (keep x)) in
    (ground (arith, row, ==_refl req.id), ground arith)

-- the status that `reconcileCapacity` computes for a count
reconciled-IsSettled :
    (now count : ℕ) (s : RequirementStatus) (req : RequirementRow)
    → 0 < req.worker_count_needed
    → IsSettled (
        recounted now count
          (reconciled_status s (capacity_at req.worker_count_needed (max 0 count)))
          req)
unfolding normalize_status
reconciled-IsSettled now count s req positive = record {
  full = λ live. (λ h. ground arith, λ h. ground arith);
  partial = λ h. ground arith;
  vacant = λ h. ground arith;
}

-- When no more workers are booked than needed, reconciling a requirement succeeds: the row that
-- is found afterwards counts exactly the active bookings, keeps its demand, is settled, and is
-- cancelled exactly when it was.
pub reconcile_by_count :
    (now id : ℕ) (db : Db) {req : RequirementRow}
    → find? (has_id id) db.requirements ≡ some req
    → 0 < req.worker_count_needed
    → active_bookings id db ≤ req.worker_count_needed
    → (c : RequirementCapacity) × (db' : Db) × (row : RequirementRow) × (reconcile_capacity now id
          db
        ≡ ok (c, db'))
      × (find? (has_id id) db'.requirements ≡ some row)
      × (row.worker_count_filled ≡ active_bookings id db)
      × (row.worker_count_needed ≡ req.worker_count_needed)
      × IsSettled row
      × ((row.status ≡ cancelled) ↔ (normalize_status req.status ≡ cancelled))
      × (db'.bookings ≡ db.bookings)
unfolding reconcile_capacity calculate_requirement_capacity update_requirement
reconcile_by_count now id db {req} found positive few =
    let count = active_bookings id db in
    let c = capacity_at req.worker_count_needed (max 0 count) in
    let next = reconciled_status (normalize_status req.status) c in
    let row =
      find?-update_where (has_id req.id) (has_id id) (recounted now count next) db.requirements
        (λ x. refl) in
    (
      c,
      record db {
        requirements = update_where (has_id req.id) (recounted now count next) db.requirements;
      },
      recounted now count next req,
      ground arith,
      ground (arith, row, ==_refl req.id, find?-sound (has_id id) db.requirements found),
      refl,
      refl,
      reconciled-IsSettled now count (normalize_status req.status) req positive,
      (λ h. ground arith, λ h. ground arith),
      refl,
    )

-- When more workers are booked than needed, reconciling throws: the database's check refuses the
-- row, and nothing is written.
pub reconcile_overbooked :
    (now id : ℕ) (db : Db) {req : RequirementRow}
    → find? (has_id id) db.requirements ≡ some req
    → 0 < req.worker_count_needed
    → req.worker_count_needed < active_bookings id db
    → reconcile_capacity now id db ≡ err check_violation
unfolding reconcile_capacity calculate_requirement_capacity update_requirement
reconcile_overbooked now id db {req} found positive many = ground arith

normalize-normalize :
    (s : RequirementStatus) → normalize_status (normalize_status s) ≡ normalize_status s
unfolding normalize_status
normalize-normalize s = ground arith

normalize-demanded :
    (s : RequirementStatus) (c : RequirementCapacity)
    → normalize_status s ≡ s
    → normalize_status (demanded_status s c) ≡ demanded_status s c
unfolding normalize_status
normalize-demanded s c h = ground arith

demanded-IsSettled :
    (now needed : ℕ) (req : RequirementRow)
    → 0 < needed
    → req.worker_count_filled ≤ needed
    → 0 < req.worker_count_needed
    → req.worker_count_filled ≤ req.worker_count_needed
    → IsSettled req
    → IsSettled (
        redemanded now needed
          (demanded_status
            (normalize_status req.status)
            (capacity_at needed (max 0 req.worker_count_filled)))
          req)
demanded-IsSettled now needed req positive room before full h =
    let kept =
      normalize-demanded (normalize_status req.status)
        (capacity_at needed (max 0 req.worker_count_filled)) (normalize-normalize req.status) in
    record {
      full = λ live. (λ e. ground (arith, h.full), λ e. ground arith);
      partial = λ e. ground arith;
      vacant = λ e. ground arith;
    }

-- A change of demand that succeeds, on a settled row that meets the database's checks, asks for
-- one worker or more and for no fewer than are booked; the row found afterwards has that demand
-- and the same workers, meets the checks and is settled. A customer who does not own the parent
-- job never gets that far.
pub demand-IsSettled :
    (now id needed : ℕ) (actor : TransitionActor) (db : Db) {req : RequirementRow}
    {c : RequirementCapacity} {db' : Db}
    → find? (has_id id) db.requirements ≡ some req
    → fits_checks req ≡ true
    → IsSettled req
    → update_demand now id (whole needed) actor db ≡ ok (c, db')
    → (0 < needed)
      × (req.worker_count_filled ≤ needed)
      × (is_other_customer actor (owner_of req db) ≡ false)
      × ((row : RequirementRow) × (find? (has_id id) db'.requirements ≡ some row)
          × (row.worker_count_needed ≡ needed)
          × (row.worker_count_filled ≡ req.worker_count_filled)
          × (fits_checks row ≡ true)
          × IsSettled row)
unfolding update_demand demand_from calculate_requirement_capacity
demand-IsSettled now id needed actor db {req} {c} {db'} found fits h done =
    let next =
      demanded_status (normalize_status req.status)
        (capacity_at needed (max 0 req.worker_count_filled)) in
    let write = redemanded now needed next in
    let stored : update_requirement write req db ≡ ok db' = ground arith in
    let kept = find?-update_requirement write req id db (λ r. refl) found stored in
    (
      ground arith,
      ground arith,
      ground arith,
      (
        write req,
        kept.0,
        refl,
        refl,
        kept.1,
        demanded-IsSettled now needed req (ground arith) (ground arith) (ground arith)
            (ground arith) h,
      ),
    )
