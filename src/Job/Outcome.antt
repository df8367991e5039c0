-- ===== src/Job/Outcome.antt =====
-- What a transition of a job writes, column by column, and to whom it is allowed: the contract of
-- `jobStateService.transition`, independent of how the service builds its rows.
use labour_baba_backend.Base.{
  ◌==◌, find?, ℕ, ◌≡◌, refl, ap, ◌↔◌, ◌⊎◌, inl, inr, Bool, true, false, not, ◌&&◌, Option, none,
  some, [], ◌∷◌, ◌++◌, arith,
}
use labour_baba_backend.Access.Role.{customer, same_role}
use labour_baba_backend.Job.Status.{JobStatus, JobAction, complete, cancel}
use labour_baba_backend.Job.Machine.{TransitionJobParams, TransitionResult, is_stranger}
use labour_baba_backend.Store.Rows.{TransitionActor, JobRow, JobTransitionRow, Db, signature}

-- An actor that is no customer, that has no id, or that the job belongs to.
abbrev pub IsNoStranger : TransitionActor → ℕ → Type 0
IsNoStranger a owner = (same_role a.role customer ≡ false) ⊎ ((a.id ≡ none) ⊎ (a.id ≡ some owner))

pub stranger_iff :
    (a : TransitionActor) (owner : ℕ) → (is_stranger a owner ≡ false) ↔ IsNoStranger a owner
stranger_iff a owner = (λ h. go a.id (same_role a.role customer) h, λ h. ground arith)
  where
    go :
        (id : Option ℕ) (c : Bool)
        → (c && elim id [ some i ↦ not (owner == i) | none ↦ false ]) ≡ false
        → (c ≡ false) ⊎ ((id ≡ none) ⊎ (id ≡ some owner))
    go id false h = inl refl
    go none true h = inr (inl refl)
    go (some i) true h = let same : i ≡ owner = ground arith in inr (inr (ap some same))

-- The job `j'` is `j` moved to the status `t` by the action `a` at the time `now`.
pub record IsMoved (now : ℕ) (actor : TransitionActor) (a : JobAction) (t : JobStatus)
    (j j' : JobRow) : Type 0 where
  pub status : j'.status ≡ t
  pub stamped : j'.updated_at ≡ now
  pub same_job : (j'.id ≡ j.id) × (j'.customer_id ≡ j.customer_id)
  pub same_fill : j'.dispatch_filled ≡ j.dispatch_filled
  pub withdrawn :
      a ≡ cancel → (j'.cancelled_at ≡ some now) × (j'.cancelled_by ≡ some (signature actor))
  pub finished : a ≡ complete → j'.completed_at ≡ some now

-- The whole effect: the answer, the job's row, the other jobs, one audit record from the old to
-- the new status, and the tables that stay.
pub record IsTransition (now : ℕ) (p : TransitionJobParams) (j : JobRow) (t : JobStatus)
    (db db' : Db) (r : TransitionResult) : Type 0 where
  pub answered : (r.previous_status ≡ j.status) × (r.current_status ≡ t)
  pub row : JobRow
  pub stored : find? (λ x. x.id == p.job_id) db'.jobs ≡ some row
  pub moved : IsMoved now p.actor p.action t j row
  pub others :
      (n : ℕ)
      → (n == p.job_id) ≡ false
      → find? (λ x. x.id == n) db'.jobs ≡ find? (λ x. x.id == n) db.jobs
  pub entry : JobTransitionRow
  pub appended : db'.job_transitions ≡ db.job_transitions ++ entry ∷ []
  pub of_job : entry.job_id ≡ p.job_id
  pub from_to : (entry.from_status ≡ j.status) × (entry.to_status ≡ t)
  pub by_action : entry.action ≡ p.action
  pub by_actor : (entry.actor_type ≡ p.actor.role) × (entry.actor_id ≡ p.actor.id)
  pub untouched : db' ≡ record db { jobs = db'.jobs; job_transitions = db'.job_transitions }

-- No status was expected, or this one.
abbrev pub IsExpected : Option JobStatus → JobStatus → Type 0
IsExpected e s = (e ≡ none) ⊎ (e ≡ some s)
