-- ===== src/Requirement/Reconcile.antt =====
-- `reconcileCapacity` and `updateDemand` of `requirementStateService`, requirementStateMachine.ts
-- §5: the two operations that keep the status in step with the counts.
use labour_baba_backend.Base.{
  ℕ, Bool, true, false, not, ◌&&◌, Option, none, some, Result, ok, err, find?, count_where, ltb,
  leb, ◌==◌, if◌then◌else◌,
}
use labour_baba_backend.Access.Role.{customer, same_role}
use labour_baba_backend.Requirement.Status.{
  RequirementStatus, open_, dispatching, partially_filled, filled, cancelled, RequirementAction,
  normalize_status,
}
use labour_baba_backend.Requirement.Capacity.{
  RequirementCapacity, is_active, calculate_requirement_capacity,
}
use labour_baba_backend.Requirement.Machine.{has_id, update_requirement, owner_of}
use labour_baba_backend.Store.Rows.{TransitionActor, BookingRow, RequirementRow, Db}
use labour_baba_backend.Store.Failure.{
  Failure, requirement_not_found, requirement_forbidden, requirement_invalid_transition,
  requirement_capacity_exceeded, requirement_worker_count_invalid,
}

-- `where: { requirement_id, status: { in: ACTIVE_BOOKING_STATUSES } }`
abbrev pub is_active_for : ℕ → BookingRow → Bool
is_active_for requirement_id b = b.requirement_id == requirement_id && is_active b.status

abbrev pub active_bookings : ℕ → Db → ℕ
active_bookings requirement_id db = count_where (is_active_for requirement_id) db.bookings

abbrev pub reconciled_status : RequirementStatus → RequirementCapacity → RequirementStatus
reconciled_status cancelled c = cancelled
reconciled_status dispatching c =
    if c.is_filled then filled else if c.is_partially_filled then partially_filled else dispatching
reconciled_status _ c =
    if c.is_filled then filled else if c.is_partially_filled then partially_filled else open_

abbrev pub recounted : ℕ → ℕ → RequirementStatus → RequirementRow → RequirementRow
recounted now count next r = record r {
  worker_count_filled = count;
  status = next;
  updated_at = now;
}

abbrev store_count :
    ℕ
    → ℕ
    → RequirementRow
    → Db
    → Result Failure RequirementCapacity
    → Result Failure (RequirementCapacity × Db)
store_count now count req db (err e) = err e
store_count now count req db (ok c) =
    let next = reconciled_status (normalize_status req.status) c in
    elim (update_requirement (recounted now count next) req db) [
      | err e ↦ err e
      | ok db' ↦ ok (c, db')
    ]

unfoldable pub reconcile_capacity : ℕ → ℕ → Db → Result Failure (RequirementCapacity × Db)
reconcile_capacity now requirement_id db = elim (find? (has_id requirement_id) db.requirements) [
  | none ↦ err requirement_not_found
  | some req ↦
      store_count now (active_bookings requirement_id db) req db
        (calculate_requirement_capacity req.worker_count_needed (active_bookings requirement_id db))
]

-- The number that a client sends: a whole number, or one that `Number.isInteger` or the sign
-- refuses.
pub data Demand : Type 0 where
  whole : ℕ → Demand
  fraction_or_negative : Demand

-- `actor.role === CUSTOMER && req.job?.customer_id && actor.id !== req.job.customer_id`
abbrev pub is_other_customer : TransitionActor → Option ℕ → Bool
is_other_customer a none = false
is_other_customer a (some owner) =
    same_role a.role customer && elim a.id [ some i ↦ not (i == owner) | none ↦ true ]

abbrev pub demanded_status : RequirementStatus → RequirementCapacity → RequirementStatus
demanded_status filled c =
    if c.is_filled then filled else if c.is_partially_filled then partially_filled else filled
demanded_status s c = if c.is_filled then filled else s

abbrev pub redemanded : ℕ → ℕ → RequirementStatus → RequirementRow → RequirementRow
redemanded now needed next r = record r {
  worker_count_needed = needed;
  status = next;
  updated_at = now;
}

abbrev store_demand :
    ℕ
    → ℕ
    → RequirementRow
    → Db
    → Result Failure RequirementCapacity
    → Result Failure (RequirementCapacity × Db)
store_demand now needed req db (err e) = err e
store_demand now needed req db (ok c) =
    let next = demanded_status (normalize_status req.status) c in
    elim (update_requirement (redemanded now needed next) req db) [
      | err e ↦ err e
      | ok db' ↦ ok (c, db')
    ]

abbrev is_cancelled : RequirementStatus → Bool
is_cancelled cancelled = true
is_cancelled _ = false

-- `updateDemand` on the row that was found
unfoldable pub demand_from :
    ℕ → ℕ → TransitionActor → RequirementRow → Db → Result Failure (RequirementCapacity × Db)
demand_from now needed actor req db =
    let current = normalize_status req.status in
    if is_other_customer actor (owner_of req db)
    then err requirement_forbidden
    else if is_cancelled current
    then err (requirement_invalid_transition current RequirementAction.update_demand)
    else if ltb needed req.worker_count_filled
    then err requirement_capacity_exceeded
    else store_demand now needed req db
        (calculate_requirement_capacity needed req.worker_count_filled)

unfoldable pub update_demand :
    ℕ → ℕ → Demand → TransitionActor → Db → Result Failure (RequirementCapacity × Db)
update_demand now requirement_id fraction_or_negative actor db =
    err requirement_worker_count_invalid
update_demand now requirement_id (whole needed) actor db =
    if leb needed 0
    then err requirement_worker_count_invalid
    else elim (find? (has_id requirement_id) db.requirements) [
      | none ↦ err requirement_not_found
      | some req ↦ demand_from now needed actor req db
    ]
