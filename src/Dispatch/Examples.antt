-- ===== src/Dispatch/Examples.antt =====
-- The theorem on the wave planner at a concrete input.
use labour_baba_backend.Base.{
  ℕ, ◌*◌, ◌≤◌, ◌<◌, ◌≡◌, ◌↔◌, refl, true, false, some, [], ◌∷◌, arith, ok,
}
use labour_baba_backend.Dispatch.Wave.{
  DispatchWaveConfiguration, DispatchWavePlanInput, DispatchWavePlan, plan_dispatch_wave,
}
use labour_baba_backend.Dispatch.Plan.{MayHaveCandidates, plan_dispatch_wave_lem}

-- the configuration of an empty environment
abbrev pub configuration : DispatchWaveConfiguration
configuration = record {
  worker_multiplier = 2;
  radius_meters_by_wave = 3000 ∷ 5000 ∷ 10000 ∷ 15000 ∷ [];
  timeout_ms = 30000;
  max_waves = 4;
}

abbrev input : DispatchWavePlanInput
input = record {
  worker_count_needed = 3;
  workers_already_assigned = 1;
  wave_number = 2;
  available_candidates = some 3;
  candidates_exhausted = false;
}

plan_dispatch_wave_lem_example :
    (p : DispatchWavePlan) × (r : ℕ) × (plan_dispatch_wave configuration input ≡ ok p)
    × (p.radius_meters ≡ some r)
    × (p.target_candidate_count ≤ p.remaining_capacity * 2)
    × ((p.can_dispatch ≡ true) ↔ ((2 ≤ 4) × (1 < 3) × MayHaveCandidates (some 3)))
    × ((p.should_try_next_wave ≡ true)
        ↔ ((p.can_dispatch ≡ true) × (2 < 4) × (input.candidates_exhausted ≡ false)))
plan_dispatch_wave_lem_example =
    plan_dispatch_wave_lem configuration input
      (record { multiplies = omega arith; has_wave = omega arith; radii = refl }) (omega arith)
