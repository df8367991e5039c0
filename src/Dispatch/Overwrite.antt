-- ===== src/Dispatch/Overwrite.antt =====
-- What `declineDispatch` does to a requirement that is full.
use labour_baba_backend.Base.{
  ◌==◌, ==_iff, ==_refl, or_else, is_id, any, find?, update_where, count_where, find?-sound,
  find?-update_where, update_where-none, ok, ℕ, suc, ◌+◌, ◌≤◌, ◌≡◌, refl, ap, ◌∙◌, Bool, true,
  false, ◌&&◌, some, List, [], ◌∷◌, arith,
}
use labour_baba_backend.Requirement.Status.{RequirementStatus}
use labour_baba_backend.Store.Rows.{RequirementRow, DispatchRow}
use labour_baba_backend.Dispatch.Wave.{DispatchWaveConfiguration, planned, plan_dispatch_wave}
use labour_baba_backend.Dispatch.Accept.{is_dispatch, is_pending, is_pending_of}
use labour_baba_backend.Dispatch.Decline.{
  QueuedWave, DispatchDb, decline_row, decline_in_tx, is_lowercase_filled, is_pending_in,
  exhaust_wave, give_up, plan_input, fire_next, after_decline, decline_dispatch,
}

narrower-none :
    (p q : DispatchRow → Bool) (xs : List DispatchRow)
    → ((d : DispatchRow) → p d ≡ true → q d ≡ true)
    → count_where q xs ≡ 0
    → count_where p xs ≡ 0
narrower-none p q [] narrow h = refl
narrower-none p q (x ∷ xs) narrow h = ground (arith, narrow x, narrower-none p q xs narrow)

-- The planner dispatches no wave for a requirement without an open place.
no_wave :
    (config : DispatchWaveConfiguration) (req : RequirementRow) (wave : ℕ)
    → req.worker_count_needed ≤ req.worker_count_filled
    → (planned config (plan_input req wave)).can_dispatch ≡ false
no_wave config req wave full = ground arith

planned_next :
    (config : DispatchWaveConfiguration) (req : RequirementRow) (wave : ℕ)
    → plan_dispatch_wave config (plan_input req (wave + 1))
      ≡ ok (planned config (plan_input req (wave + 1)))
unfolding plan_dispatch_wave
planned_next config req wave =
    let positive : ((wave + 1) == 0) ≡ false = ground arith in rw positive refl

-- So the decline that would fire the next wave gives up instead.
fire_next-full :
    (config : DispatchWaveConfiguration) (add : QueuedWave → List QueuedWave → List QueuedWave)
    (now : ℕ) (req : RequirementRow) (wave : ℕ) (s : DispatchDb)
    → req.worker_count_needed ≤ req.worker_count_filled
    → fire_next config add now req wave s ≡ give_up now req.id s
unfolding fire_next
fire_next-full config add now req wave s full =
    rw (fire_next, planned_next config req wave, no_wave config req (wave + 1) full) refl

-- When a requirement is FILLED, all its places taken and none of its dispatches pending, as an
-- acceptance leaves it, a decline by a worker who had a dispatch of it rewrites its status to
-- NO_WORKERS_AVAILABLE, whatever the configuration and the queue.
pub decline_overwrites :
    (config : DispatchWaveConfiguration) (add : QueuedWave → List QueuedWave → List QueuedWave)
    (now requirement_id worker_id : ℕ) (s : DispatchDb) {d : DispatchRow} {req : RequirementRow}
    → any (λ w. w.id == worker_id) s.workers ≡ true
    → find? (is_dispatch requirement_id worker_id) s.db.dispatches ≡ some d
    → count_where (is_pending_of requirement_id) s.db.dispatches ≡ 0
    → find? (λ r. r.id == requirement_id) s.db.requirements ≡ some req
    → req.status ≡ RequirementStatus.filled
    → req.worker_count_needed ≤ req.worker_count_filled
    → find?
        (λ r. r.id == requirement_id)
        (decline_dispatch config add now requirement_id worker_id s).1.db.requirements
      ≡ some (record req { status = RequirementStatus.no_workers_available; updated_at = now })
unfolding decline_dispatch decline_in_tx after_decline
decline_overwrites config add now requirement_id worker_id s {d} {req} here dispatched none_ found
      filled_ full =
    let wave = or_else d.wave_number 1 in
    let unmarked =
      update_where-none (λ d. is_dispatch requirement_id worker_id d && is_pending d.status)
        (decline_row now) s.db.dispatches
        (narrower-none (λ d. is_dispatch requirement_id worker_id d && is_pending d.status)
          (is_pending_of requirement_id) s.db.dispatches
          (λ d p.
            narrow (d.requirement_id == requirement_id) (d.worker_id == worker_id)
              (is_pending d.status) p)
          none_) in
    let unwaved =
      narrower-none (is_pending_in requirement_id wave) (is_pending_of requirement_id)
        s.db.dispatches
        (λ d p.
          narrow' (d.requirement_id == requirement_id) (is_id d.wave_number wave)
            (is_pending d.status) p)
        none_ in
    let this =
      (==_iff req.id requirement_id).0
        (find?-sound (λ r. r.id == requirement_id) s.db.requirements found) in
    let s1 = record s {
      db = record s.db {
        dispatches =
            update_where (λ d. is_dispatch requirement_id worker_id d && is_pending d.status)
              (decline_row now) s.db.dispatches;
      };
      workers =
          update_where (λ w. w.id == worker_id)
            (λ w. record w { decline_count = suc w.decline_count }) s.workers;
    } in
    let upper : is_lowercase_filled req.status ≡ false = ap is_lowercase_filled filled_ in
    rw
      (
        decline_dispatch,
        decline_in_tx,
        here,
        unmarked,
        dispatched,
        after_decline,
        unmarked,
        unwaved,
        found,
        upper,
        fire_next-full config add now req wave (exhaust_wave now requirement_id wave s1) full,
      )
      (find?-update_where (λ r. r.id == req.id) (λ r. r.id == requirement_id) rewritten
          s.db.requirements (λ r. refl)
        ∙ rw (found, ==_refl req.id) refl)
  where
    rewritten : RequirementRow → RequirementRow
    rewritten r = record r { status = RequirementStatus.no_workers_available; updated_at = now }

    narrow : (a b c : Bool) → ((a && b) && c) ≡ true → (a && c) ≡ true
    narrow a b c h = ground arith

    narrow' : (a b c : Bool) → (a && (b && c)) ≡ true → (a && c) ≡ true
    narrow' a b c h = ground arith
