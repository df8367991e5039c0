-- ===== src/Job/Effect.antt =====
-- What a call of `jobStateService.transition` does, on a job whose status is canonical.
use labour_baba_backend.Base.{
  ℕ, ◌≤◌, ◌≡◌, refl, true, false, inl, inr, some, List, [], ◌∷◌, ◌++◌, arith, ok, find?,
  update_where, count_where, Option-cases,
}
use labour_baba_backend.Job.Status.{JobStatus, same_status, is_canonical, or_open}
use labour_baba_backend.Job.Diagram.{Edge, role_may}
use labour_baba_backend.Job.Laws.{target-Edge, Edge-target, job_allowed_iff}
use labour_baba_backend.Job.Machine.{
  TransitionJobParams, TransitionResult, allowed, is_stranger, can_transition, target_at,
  transition_from, transition, updated, audit, is_unchanged, has_id, is_expected, write,
}
use labour_baba_backend.Store.Rows.{JobRow, Db}

pub same_status_refl : (s : JobStatus) → is_canonical s ≡ true → same_status s s ≡ true
same_status_refl s c = ground arith

or_open-canonical : (s : JobStatus) → is_canonical s ≡ true → or_open s ≡ s
or_open-canonical s c = ground arith

-- A row that is found with its own status is matched by the compare-and-set.
count_where-found :
    (p : TransitionJobParams) (jobs : List JobRow) (job : JobRow)
    → find? (has_id p.job_id) jobs ≡ some job
    → is_canonical job.status ≡ true
    → 1 ≤ count_where (is_unchanged p job.status) jobs
count_where-found p [] job h c = cc
count_where-found p (j ∷ js) job h c =
    ground (arith, same_status_refl job.status, count_where-found p js job)

-- The database after a transition.
abbrev pub after : ℕ → TransitionJobParams → JobStatus → JobStatus → Db → Db
after now p s t db = record db {
  jobs = update_where (is_unchanged p s) (updated now p t) db.jobs;
  job_transitions = db.job_transitions ++ audit p s t ∷ [];
}

module _ (now : ℕ) (p : TransitionJobParams) (db : Db) (job : JobRow)
    (found : find? (has_id p.job_id) db.jobs ≡ some job)
    (canonical : is_canonical job.status ≡ true) where
  write_lem :
      (t : JobStatus)
      → write now p job.status t db
        ≡ ok (
          record { previous_status = job.status; current_status = t },
          after now p job.status t db,
        )
  unfolding write
  write_lem t = ground (arith, count_where-found p db.jobs job found canonical)

  -- Along an edge of the diagram, for a role that may take it, no stranger to the job, and with
  -- the status that was expected if one was, the call succeeds: it rewrites the row and appends
  -- one audit record, and touches nothing else.
  pub job_transition_succeeds :
      {t : JobStatus}
      → Edge job.status p.action t
      → role_may p.actor.role p.action job.status ≡ true
      → is_stranger p.actor job.customer_id ≡ false
      → is_expected p.expected_status job.status ≡ true
      → transition now p db
        ≡ ok (
          record { previous_status = job.status; current_status = t },
          after now p job.status t db,
        )
  unfolding transition transition_from
  job_transition_succeeds {t} e may own expected = ground (
    arith,
    write_lem t,
    or_open-canonical job.status,
    (job_allowed_iff job.status p.action p.actor job.customer_id canonical).1
        (rw (Edge-target e) refl, may, own),
    Edge-target e,
  )

  transition_target :
      {r : TransitionResult} {db' : Db}
      → transition now p db ≡ ok (r, db')
      → (target_at job.status p.action ≡ some r.current_status)
        × (can_transition job.status p.action p.actor job.customer_id ≡ allowed)
        × (is_expected p.expected_status job.status ≡ true)
        × (r.previous_status ≡ job.status)
        × (db' ≡ after now p job.status r.current_status db)
  unfolding transition transition_from
  transition_target {r} {db'} h = elim (Option-cases (target_at job.status p.action)) [
    | inl nowhere ↦ ground (arith, or_open-canonical job.status)
    | inr (t, e) ↦ ground (arith, or_open-canonical job.status, write_lem t)
  ]

  -- The call succeeds only so.
  pub job_transition_only :
      {r : TransitionResult} {db' : Db}
      → transition now p db ≡ ok (r, db')
      → Edge job.status p.action r.current_status
        × (role_may p.actor.role p.action job.status ≡ true)
        × (is_stranger p.actor job.customer_id ≡ false)
        × (is_expected p.expected_status job.status ≡ true)
        × (r.previous_status ≡ job.status)
        × (db' ≡ after now p job.status r.current_status db)
  job_transition_only h =
      let (target, may, expected, previous, effect) = transition_target h in
      let (_, role, own) =
        (job_allowed_iff job.status p.action p.actor job.customer_id canonical).0 may in
      (target-Edge job.status p.action target, role, own, expected, previous, effect)
