-- ===== src/Requirement/Capacity.antt =====
-- The capacity model, requirementStateMachine.ts §3. The counts are integer columns that the
-- database keeps at zero or more.
use labour_baba_backend.Base.{
  ℕ, ◌+◌, ◌-◌, ◌<◌, ◌≡◌, ◌⊎◌, Bool, true, false, ◌&&◌, Result, ok, err, ltb, leb, ◌==◌,
  if◌then◌else◌, max, arith, text, text_eq,
}
use labour_baba_backend.Booking.Status.{
  BookingStatus, confirmed, in_progress, awaiting_confirmation, completed,
}
use labour_baba_backend.Store.Failure.{Failure, requirement_worker_count_invalid}

pub record RequirementCapacity : Type 0 where
  pub worker_count_needed : ℕ
  pub filled_capacity : ℕ
  pub remaining_capacity : ℕ
  pub is_filled : Bool
  pub is_open : Bool
  pub is_partially_filled : Bool

-- `ACTIVE_BOOKING_STATUSES`
abbrev pub is_active : BookingStatus → Bool
is_active confirmed = true
is_active in_progress = true
is_active awaiting_confirmation = true
is_active completed = true
is_active (BookingStatus.other t) = text_eq t (text "confirmed")
is_active _ = false

-- The object that is returned, from the demand and the clipped count.
abbrev pub capacity_at : ℕ → ℕ → RequirementCapacity
capacity_at needed filled = record {
  worker_count_needed = needed;
  filled_capacity = filled;
  remaining_capacity = max 0 (needed - filled);
  is_filled = leb needed filled;
  is_open = filled == 0;
  is_partially_filled = ltb 0 filled && ltb filled needed;
}

unfoldable pub calculate_requirement_capacity : ℕ → ℕ → Result Failure RequirementCapacity
calculate_requirement_capacity needed filled_capacity =
    if leb needed 0
    then err requirement_worker_count_invalid
    else ok (capacity_at needed (max 0 filled_capacity))

-- For a positive demand the capacity is computed, what is filled and what remains make up the
-- demand unless it is exceeded, something remains exactly when it is not filled, and exactly one
-- of open, partially filled and filled holds.
pub capacity_partition :
    (needed filled : ℕ)
    → 0 < needed
    → (c : RequirementCapacity) × (calculate_requirement_capacity needed filled ≡ ok c)
      × (c.filled_capacity + c.remaining_capacity ≡ max needed filled)
      × (c.is_filled ≡ (c.remaining_capacity == 0))
      × (((c.is_open ≡ true) × (c.is_partially_filled ≡ false) × (c.is_filled ≡ false))
          ⊎ ((c.is_open ≡ false) × (c.is_partially_filled ≡ true) × (c.is_filled ≡ false))
          ⊎ ((c.is_open ≡ false) × (c.is_partially_filled ≡ false) × (c.is_filled ≡ true)))
unfolding calculate_requirement_capacity
capacity_partition needed filled h =
    (capacity_at needed (max 0 filled), ground arith, ground arith, ground arith, ground arith)
