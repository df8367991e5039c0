-- ===== src/Job/History.antt =====
-- Sequences of calls: the audit trail that `job_transition` keeps, terminal statuses, and what
-- happens on the legacy status "POSTED".
use labour_baba_backend.Base.{
  ℕ, ◌≡◌, true, false, ◌⊎◌, inl, inr, Option, none, some, List, [], ◌∷◌, ◌++◌, arith, err, find?,
  ◌==◌, ==_iff, Bool-cases, Option-cases, text, is_ok, if◌then◌else◌, find?-update_where,
  find?-sound, commit, All, All-update_where, All-find?, Result-cases, filter_where-append,
}
use mathlib.Core.List.{append-nil}
use mathlib.Core.Path.{subst}
use labour_baba_backend.Job.Status.{JobStatus, JobAction, same_status, is_canonical, is_terminal}
use labour_baba_backend.Job.Diagram.{Edge}
use labour_baba_backend.Job.Laws.{Edge-target}
use labour_baba_backend.Job.Effect.{after, job_transition_only, same_status_refl}
use labour_baba_backend.Job.Machine.{
  TransitionJobParams, allowed, can_transition, target_at, transition_from, transition, updated,
  audit, is_unchanged, has_id, trail_of,
}
use labour_baba_backend.Store.Rows.{JobRow, JobTransitionRow, Db}
use labour_baba_backend.Store.Failure.{type_error}

-- Calls one after the other, each in its transaction; a call that throws changes nothing.
pub run : List (ℕ × TransitionJobParams) → Db → Db
run [] db = db
run ((now, p) ∷ calls) db = run calls (commit db (transition now p db)).1

-- Reading an audit trail from a status: each record must start where the one before it ended.
abbrev pub replay : JobStatus → List JobTransitionRow → Option JobStatus
replay s [] = some s
replay s (t ∷ ts) = if same_status t.from_status s then replay t.to_status ts else none

replay-append :
    (s : JobStatus) (ts : List JobTransitionRow) (t : JobTransitionRow) {u : JobStatus}
    → replay s ts ≡ some u
    → same_status t.from_status u ≡ true
    → replay s (ts ++ t ∷ []) ≡ some t.to_status
replay-append s [] t h e = ground arith
replay-append s (r ∷ ts) t {u} h e = ground (arith, replay-append r.to_status ts t {u = u})

-- Whether a row, and a table, holds only statuses that the database constraint admits.
abbrev pub CanonicalJobs : List JobRow → Type 0
CanonicalJobs = All (λ j. is_canonical j.status ≡ true)

target-canonical :
    (s : JobStatus) (a : JobAction) {t : JobStatus} → target_at s a ≡ some t → is_canonical t ≡ true
unfolding target_at
target-canonical s a h = ground arith

updated-status :
    (now : ℕ) (p : TransitionJobParams) (t : JobStatus) (j : JobRow)
    → ((updated now p t j).status ≡ t) × ((updated now p t j).id ≡ j.id)
unfolding updated
updated-status now p t j = ground arith

-- One call keeps the statuses canonical, and keeps a trail that leads to the row's status.
abbrev Trails : ℕ → JobStatus → Db → Type 0
Trails n s db =
    (job : JobRow) × (find? (has_id n) db.jobs ≡ some job)
    × (replay s (trail_of n db) ≡ some job.status)

module _ (now : ℕ) (p : TransitionJobParams) (db : Db) where
  after-canonical :
      (s t : JobStatus)
      → is_canonical t ≡ true
      → CanonicalJobs db.jobs
      → CanonicalJobs (after now p s t db).jobs
  after-canonical s t c h =
      All-update_where (λ j. is_canonical j.status ≡ true) (is_unchanged p s) (updated now p t)
        db.jobs (λ j _ _. rw (updated-status now p t j).0 c) h

  -- A call throws, or moves one job along an edge.
  commit-cases :
      CanonicalJobs db.jobs
      → ((commit db (transition now p db)).1 ≡ db)
        ⊎ ((job : JobRow) × (t : JobStatus) × (find? (has_id p.job_id) db.jobs ≡ some job)
            × Edge job.status p.action t
            × ((commit db (transition now p db)).1 ≡ after now p job.status t db))
  unfolding transition
  commit-cases c = elim (Option-cases (find? (has_id p.job_id) db.jobs)) [
    | inl missing ↦ inl (ground arith)
    | inr (job, found) ↦ elim (Result-cases (transition now p db)) [
      | inr (e, threw) ↦ inl (ground arith)
      | inl ((r, db'), done) ↦
          let only = job_transition_only now p db job found (All-find? _ _ db.jobs c found) done in
          inr (job, r.current_status, found, only.0, ground (arith, only.5))
    ]
  ]

  commit-canonical : CanonicalJobs db.jobs → CanonicalJobs (commit db (transition now p db)).1.jobs
  commit-canonical c = elim (commit-cases c) [
    | inl same ↦ rw same c
    | inr (job, t, found, edge, e) ↦
        rw e (after-canonical job.status t (target-canonical _ p.action (Edge-target edge)) c)
  ]

  history-after :
      (n : ℕ) (s t : JobStatus)
      → trail_of n (after now p s t db)
        ≡ trail_of n db ++ (if p.job_id == n then audit p s t ∷ [] else [])
  unfolding trail_of
  history-after n s t = filter_where-append (λ r. r.job_id == n) db.job_transitions (audit p s t)

  module _ (s t : JobStatus) (job : JobRow) (c : CanonicalJobs db.jobs)
      (found : find? (has_id p.job_id) db.jobs ≡ some job) where
    row-after :
        (n : ℕ)
        → find? (has_id n) (after now p job.status t db).jobs ≡ elim (find? (has_id n) db.jobs) [
          | none ↦ none
          | some x ↦ some (if is_unchanged p job.status x then updated now p t x else x)
        ]
    row-after n =
        find?-update_where (is_unchanged p job.status) (has_id n) (updated now p t) db.jobs
          (λ x. rw (updated-status now p t x).1)

    after-Trails_self : Trails p.job_id s db → Trails p.job_id s (after now p job.status t db)
    after-Trails_self (j, here, trail) =
        let same = same_status_refl job.status (All-find? _ _ db.jobs c found) in
        let id = find?-sound (has_id p.job_id) db.jobs found in
        (
          updated now p t job,
          ground (arith, row-after p.job_id),
          ground (
            arith,
            history-after p.job_id job.status t,
            replay-append s (trail_of p.job_id db) (audit p job.status t) {u = j.status},
            updated-status now p t job,
            ==_iff p.job_id p.job_id,
          ),
        )

    after-Trails_other :
        (n : ℕ) → (p.job_id == n) ≡ false → Trails n s db → Trails n s (after now p job.status t db)
    after-Trails_other n other (j, here, trail) =
        let id = find?-sound (has_id n) db.jobs here in
        (
          j,
          ground (arith, row-after n),
          ground (arith, history-after n job.status t, append-nil (trail_of n db)),
        )

    after-Trails : (n : ℕ) → Trails n s db → Trails n s (after now p job.status t db)
    after-Trails n h = elim (Bool-cases (p.job_id == n)) [
      | inl this ↦
          subst (λ k. Trails k s db → Trails k s (after now p job.status t db))
            ((==_iff p.job_id n).0 this) after-Trails_self h
      | inr another ↦ after-Trails_other n another h
    ]

  commit-Trails :
      (n : ℕ) (s : JobStatus)
      → CanonicalJobs db.jobs
      → Trails n s db
      → Trails n s (commit db (transition now p db)).1
  commit-Trails n s c h = elim (commit-cases c) [
    | inl same ↦ rw same h
    | inr (job, t, found, edge, e) ↦ rw e (after-Trails s t job c found n h)
  ]

run-Trails :
    (calls : List (ℕ × TransitionJobParams)) (db : Db) (n : ℕ) (s : JobStatus)
    → CanonicalJobs db.jobs
    → Trails n s db
    → Trails n s (run calls db)
unfolding run
run-Trails [] db n s c h = h
run-Trails ((now, p) ∷ calls) db n s c h =
    run-Trails calls (commit db (transition now p db)).1 n s (commit-canonical now p db c)
      (commit-Trails now p db n s c h)

-- From a database whose job statuses are canonical and whose audit table is empty, after any
-- sequence of transition calls by anybody (those that throw included), the audit trail of a job
-- replays from the status it had at first to the status it has: no move is missing from the
-- trail, and none is recorded that was not made.
pub trail_replays :
    (calls : List (ℕ × TransitionJobParams)) (db : Db) (n : ℕ) {job : JobRow}
    → CanonicalJobs db.jobs
    → db.job_transitions ≡ []
    → find? (has_id n) db.jobs ≡ some job
    → (job' : JobRow) × (find? (has_id n) (run calls db).jobs ≡ some job')
      × (replay job.status (trail_of n (run calls db)) ≡ some job'.status)
trail_replays calls db n {job} c empty here =
    run-Trails calls db n job.status c (job, here, unfold trail_of in rw empty)

-- A terminal job stays as it is: on a canonical table, every call on it throws, whoever makes it.
pub terminal_refuses :
    (now : ℕ) (p : TransitionJobParams) (db : Db) {job : JobRow}
    → find? (has_id p.job_id) db.jobs ≡ some job
    → is_canonical job.status ≡ true
    → is_terminal job.status ≡ true
    → is_ok (transition now p db) ≡ false
unfolding transition transition_from can_transition
terminal_refuses now p db {job} found c t = ground arith

-- `canTransition` takes a "POSTED" job for an open one, and `transition` then reads the table at
-- "POSTED" itself: every action that `canTransition` allows on it ends in a TypeError.
pub posted_crashes :
    (now : ℕ) (p : TransitionJobParams) (db : Db) {job : JobRow}
    → find? (has_id p.job_id) db.jobs ≡ some job
    → job.status ≡ JobStatus.other (text "POSTED")
    → p.expected_status ≡ none
    → can_transition job.status p.action p.actor job.customer_id ≡ allowed
    → transition now p db ≡ err type_error
unfolding transition transition_from target_at
posted_crashes now p db {job} found posted none_expected may = ground arith
