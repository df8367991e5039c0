-- ===== src/Dispatch/Plan.antt =====
-- What the wave planner promises for a configuration that `getDispatchWaveConfiguration` returns.
use labour_baba_backend.Base.{
  Option, none, refl, ◌⊎◌, ℕ, ◌-◌, ◌*◌, ◌≤◌, ◌<◌, ◌≡◌, ◌↔◌, inl, inr, min, true, false, some, List,
  [], ◌∷◌, arith, ok, length, ◌==◌, Bool-cases,
}
use labour_baba_backend.Dispatch.Wave.{
  DispatchWaveConfiguration, DispatchWavePlanInput, DispatchWavePlan, get_elem?, target_count,
  planned, plan_dispatch_wave,
}

-- The radii are cut to one for each wave, and the numbers are positive.
pub record IsValid (c : DispatchWaveConfiguration) : Type 0 where
  pub multiplies : 1 ≤ c.worker_multiplier
  pub has_wave : 1 ≤ c.max_waves
  pub radii : length c.radius_meters_by_wave ≡ c.max_waves

get_elem?-length : (xs : List ℕ) (i : ℕ) → i < length xs → (r : ℕ) × (get_elem? xs i ≡ some r)
get_elem?-length [] i h = absurd (omega arith)
get_elem?-length (x ∷ xs) i h = elim (Bool-cases (i == 0)) [
  | inl first ↦ (x, ground arith)
  | inr later ↦ let (r, e) = get_elem?-length xs (i - 1) (ground arith) in (r, ground (arith, e))
]

-- The candidates were not counted, or some were.
abbrev pub MayHaveCandidates : Option ℕ → Type 0
MayHaveCandidates available = (available ≡ none) ⊎ ((n : ℕ) × (available ≡ some n) × (0 < n))

may_have-target :
    (k : ℕ) (available : Option ℕ)
    → 0 < k
    → (0 < target_count k available) ↔ MayHaveCandidates available
may_have-target k none h = (λ _. inl refl, λ _. h)
may_have-target k (some n) h = (λ e. inr (n, refl, ground arith), λ e. ground arith)

times_positive : (m k : ℕ) → 0 < m → 1 ≤ k → 0 < m * k
times_positive m k h one = grind arith

-- For a valid configuration and a wave number from 1 on there is a plan. It has a radius, and its
-- target is at most the multiple of the open places. A wave is dispatched exactly if its number is
-- allowed, places are open and it is not known that there are no candidates; the next wave is
-- tried exactly after a wave that is dispatched and is not the last one, while the candidates are
-- not exhausted.
pub plan_dispatch_wave_lem :
    (c : DispatchWaveConfiguration) (i : DispatchWavePlanInput)
    → IsValid c
    → 1 ≤ i.wave_number
    → (p : DispatchWavePlan) × (r : ℕ) × (plan_dispatch_wave c i ≡ ok p)
      × (p.radius_meters ≡ some r)
      × (p.target_candidate_count ≤ p.remaining_capacity * c.worker_multiplier)
      × ((p.can_dispatch ≡ true) ↔ (
          (i.wave_number ≤ c.max_waves)
          × (i.workers_already_assigned < i.worker_count_needed)
          × MayHaveCandidates i.available_candidates))
      × ((p.should_try_next_wave ≡ true) ↔ (
          (p.can_dispatch ≡ true)
          × (i.wave_number < c.max_waves)
          × (i.candidates_exhausted ≡ false)))
unfolding plan_dispatch_wave
plan_dispatch_wave_lem c i valid from_1 =
    let index : min i.wave_number c.max_waves - 1 < length c.radius_meters_by_wave =
      ground (arith, valid.has_wave, valid.radii) in
    let (r, radius) =
      get_elem?-length c.radius_meters_by_wave (min i.wave_number c.max_waves - 1) index in
    let open_places = i.worker_count_needed - i.workers_already_assigned in
    (
      planned c i,
      r,
      ground arith,
      radius,
      ground arith,
      (
        λ h.
            let room : 0 < open_places = ground arith in
            let many = times_positive open_places c.worker_multiplier room valid.multiplies in
            let counted : 0
                < target_count (open_places * c.worker_multiplier) i.available_candidates =
              ground arith in
            (
              ground arith,
              ground arith,
              (may_have-target (open_places * c.worker_multiplier) i.available_candidates many).0
                  counted,
            ),
        λ h.
            let room : 0 < open_places = ground arith in
            let many = times_positive open_places c.worker_multiplier room valid.multiplies in
            let counted =
              (may_have-target (open_places * c.worker_multiplier) i.available_candidates many).1
                h.2 in
            ground (arith, counted),
      ),
      (λ h. ground arith, λ h. ground arith),
    )
