-- ===== src/Dispatch/Decline.antt =====
-- `declineDispatch`, src/features/dispatch/dispatchServices.ts: a transaction that declines, and
-- queries of their own after it. The job queue's `add` and the configuration are parameters; an
-- error of `add` is caught, so it gives back a queue.
use labour_baba_backend.Base.{
  ◌==◌, if◌then◌else◌, or_else, is_id, any, find?, update_where, count_where, text, text_eq, ok,
  err, ℕ, suc, ◌+◌, Bool, true, false, not, ◌&&◌, Option, none, some, List,
}
use labour_baba_backend.Requirement.Status.{RequirementStatus}
use labour_baba_backend.Store.Rows.{RequirementRow, DispatchRow, Db, declined}
use labour_baba_backend.Dispatch.Wave.{
  DispatchWaveConfiguration, DispatchWavePlanInput, plan_dispatch_wave,
}
use labour_baba_backend.Dispatch.Accept.{is_dispatch, is_pending}

pub record DispatchWaveRow : Type 0 where
  pub requirement_id : ℕ
  pub wave_number : ℕ
  pub is_exhausted : Bool  -- `status` is 'exhausted'
  pub resolved_at : Option ℕ

pub record WorkerRow : Type 0 where
  pub id : ℕ
  pub decline_count : ℕ

-- A 'dispatch-wave' job; its id is made of the requirement and the wave.
pub record QueuedWave : Type 0 where
  pub requirement_id : ℕ
  pub job_id : ℕ
  pub wave_number : ℕ
  pub offset : ℕ

pub record DispatchDb : Type 0 where
  pub db : Db
  pub workers : List WorkerRow
  pub waves : List DispatchWaveRow
  pub queue : List QueuedWave

abbrev pub decline_row : ℕ → DispatchRow → DispatchRow
decline_row now d = record d { status = declined; responded_at = some now }

-- 1. the transaction; a worker that is not there rolls it back
unfoldable pub decline_in_tx : ℕ → ℕ → ℕ → DispatchDb → Option DispatchDb
decline_in_tx now requirement_id worker_id s =
    if not (any (λ w. w.id == worker_id) s.workers)
    then none
    else some (record s {
      db = record s.db {
        dispatches =
            update_where (λ d. is_dispatch requirement_id worker_id d && is_pending d.status)
              (decline_row now) s.db.dispatches;
      };
      workers =
          update_where (λ w. w.id == worker_id)
            (λ w. record w { decline_count = suc w.decline_count }) s.workers;
    })

-- `req.status !== 'filled'`: no status of the program is written so.
abbrev pub is_lowercase_filled : RequirementStatus → Bool
is_lowercase_filled (RequirementStatus.other t) = text_eq t (text "filled")
is_lowercase_filled _ = false

abbrev pub is_pending_in : ℕ → ℕ → DispatchRow → Bool
is_pending_in requirement_id wave d =
    d.requirement_id == requirement_id && (is_id d.wave_number wave && is_pending d.status)

abbrev pub exhaust_wave : ℕ → ℕ → ℕ → DispatchDb → DispatchDb
exhaust_wave now requirement_id wave s = record s {
  waves =
      update_where (λ w. w.requirement_id == requirement_id && w.wave_number == wave)
        (λ w. record w { is_exhausted = true; resolved_at = some now }) s.waves;
}

abbrev pub give_up : ℕ → ℕ → DispatchDb → DispatchDb
give_up now requirement_id s = record s {
  db = record s.db {
    requirements =
        update_where (λ r. r.id == requirement_id)
          (λ r. record r { status = RequirementStatus.no_workers_available; updated_at = now })
          s.db.requirements;
  };
}

abbrev pub plan_input : RequirementRow → ℕ → DispatchWavePlanInput
plan_input req wave = record {
  worker_count_needed = req.worker_count_needed;
  workers_already_assigned = req.worker_count_filled;
  wave_number = wave;
  available_candidates = none;
  candidates_exhausted = false;
}

module _ (config : DispatchWaveConfiguration)
    (add : QueuedWave → List QueuedWave → List QueuedWave) where
  -- 3. the next wave; its number is positive, so there is a plan
  unfoldable pub fire_next : ℕ → RequirementRow → ℕ → DispatchDb → DispatchDb
  fire_next now req wave s = elim (plan_dispatch_wave config (plan_input req (wave + 1))) [
    | err _ ↦ s
    | ok plan ↦ if not plan.can_dispatch then give_up now req.id s else record s {
      queue =
          add
            (record {
              requirement_id = req.id;
              job_id = req.job_id;
              wave_number = wave + 1;
              offset = 0;
            })
            s.queue;
    }
  ]

  -- 2. and 3., on the worker's dispatch
  unfoldable pub after_decline : ℕ → ℕ → DispatchRow → DispatchDb → DispatchDb
  after_decline now requirement_id d s =
      let wave = or_else d.wave_number 1 in
      if not (count_where (is_pending_in requirement_id wave) s.db.dispatches == 0)
      then s
      else elim (find? (λ r. r.id == requirement_id) s.db.requirements) [
        | none ↦ s
        | some req ↦
            if is_lowercase_filled req.status
            then s
            else fire_next now req wave (exhaust_wave now requirement_id wave s)
      ]

  -- `declineDispatch`; `false` is the error of the transaction
  unfoldable pub decline_dispatch : ℕ → ℕ → ℕ → DispatchDb → Bool × DispatchDb
  decline_dispatch now requirement_id worker_id s =
      elim (decline_in_tx now requirement_id worker_id s) [
        | none ↦ (false, s)
        | some s1 ↦ elim (find? (is_dispatch requirement_id worker_id) s1.db.dispatches) [
          | none ↦ (true, s1)
          | some d ↦ (true, after_decline now requirement_id d s1)
        ]
      ]
