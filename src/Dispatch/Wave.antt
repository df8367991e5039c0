-- ===== src/Dispatch/Wave.antt =====
-- src/features/dispatch/wavePlanner.ts and the configuration of src/config/dispatchWaveConfig.ts.
-- The numbers are non-negative safe integers, which `nonNegativeInteger` makes sure of, and so
-- natural numbers; a plan whose target leaves the safe integers is outside the model.
use labour_baba_backend.Base.{
  ℕ, ◌-◌, ◌*◌, min, Bool, not, ◌&&◌, Option, none, some, List, [], ◌∷◌, Result, ok, err, ltb, leb,
  ◌==◌, if◌then◌else◌,
}

pub record DispatchWaveConfiguration : Type 0 where
  pub worker_multiplier : ℕ
  pub radius_meters_by_wave : List ℕ
  pub timeout_ms : ℕ
  pub max_waves : ℕ

pub record DispatchWavePlanInput : Type 0 where
  pub worker_count_needed : ℕ
  pub workers_already_assigned : ℕ
  pub wave_number : ℕ
  pub available_candidates : Option ℕ
  pub candidates_exhausted : Bool  -- false if it is left out

pub record DispatchWavePlan : Type 0 where
  pub wave_number : ℕ
  pub remaining_capacity : ℕ
  pub target_candidate_count : ℕ
  pub radius_meters : Option ℕ  -- `none`: undefined
  pub timeout_ms : ℕ
  pub is_final_allowed_wave : Bool
  pub can_dispatch : Bool
  pub should_try_next_wave : Bool

-- "waveNumber must start at 1"
pub data PlanError : Type 0 where
  wave_number_must_start_at_1 : PlanError

-- `xs[i]`
abbrev pub get_elem? : List ℕ → ℕ → Option ℕ
get_elem? [] _ = none
get_elem? (x ∷ xs) i = if i == 0 then some x else get_elem? xs (i - 1)

abbrev pub target_count : ℕ → Option ℕ → ℕ
target_count by_capacity none = by_capacity
target_count by_capacity (some available) = min by_capacity available

-- The plan that is returned; a difference on ℕ stops at 0, as `Math.max(0, _)` does.
abbrev pub planned : DispatchWaveConfiguration → DispatchWavePlanInput → DispatchWavePlan
planned c i =
    let remaining = i.worker_count_needed - i.workers_already_assigned in
    let is_final = leb c.max_waves i.wave_number in
    let target = target_count (remaining * c.worker_multiplier) i.available_candidates in
    let can = leb i.wave_number c.max_waves && (ltb 0 remaining && ltb 0 target) in
    record {
      wave_number = i.wave_number;
      remaining_capacity = remaining;
      target_candidate_count = target;
      radius_meters = get_elem? c.radius_meters_by_wave (min i.wave_number c.max_waves - 1);
      timeout_ms = c.timeout_ms;
      is_final_allowed_wave = is_final;
      can_dispatch = can;
      should_try_next_wave = can && (not is_final && not i.candidates_exhausted);
    }

-- `planDispatchWave`
unfoldable pub plan_dispatch_wave :
    DispatchWaveConfiguration → DispatchWavePlanInput → Result PlanError DispatchWavePlan
plan_dispatch_wave c i =
    if i.wave_number == 0 then err wave_number_must_start_at_1 else ok (planned c i)
