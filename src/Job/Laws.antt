-- ===== src/Job/Laws.antt =====
-- The job transition table and service against the diagram.
use labour_baba_backend.Base.{ℕ, ◌≡◌, refl, true, false, some, arith, is_some, ◌↔◌}
use labour_baba_backend.Job.Status.{JobStatus, JobAction, is_canonical}
use labour_baba_backend.Job.Diagram.{
  Edge, dispatch, fill_at_once, fill, begin, begin_early, reopen, reopen_started, finish,
  finish_started, withdraw, withdraw_dispatching, withdraw_booked, withdraw_started, role_may,
}
use labour_baba_backend.Job.Machine.{allowed, is_stranger, can_transition, target_at}
use labour_baba_backend.Store.Rows.{TransitionActor}

ruleset edges = (
  dispatch, fill_at_once, fill, begin, begin_early, reopen, reopen_started, finish, finish_started,
  withdraw, withdraw_dispatching, withdraw_booked, withdraw_started,
)

-- The table has only edges of the diagram, and all of them.
pub target-Edge :
    (s : JobStatus) (a : JobAction) {t : JobStatus} → target_at s a ≡ some t → Edge s a t
unfolding target_at
target-Edge s a h = grind (arith, edges)

pub Edge-target : {s t : JobStatus} {a : JobAction} → Edge s a t → target_at s a ≡ some t
unfolding target_at
Edge-target dispatch = refl
Edge-target fill_at_once = refl
Edge-target fill = refl
Edge-target begin = refl
Edge-target begin_early = refl
Edge-target reopen = refl
Edge-target reopen_started = refl
Edge-target finish = refl
Edge-target finish_started = refl
Edge-target withdraw = refl
Edge-target withdraw_dispatching = refl
Edge-target withdraw_booked = refl
Edge-target withdraw_started = refl

-- On a canonical status `canTransition` allows an action exactly when the table has a target for
-- it, the role may perform it, and the actor is no customer that the job does not belong to.
pub job_allowed_iff :
    (s : JobStatus) (a : JobAction) (actor : TransitionActor) (owner : ℕ)
    → is_canonical s ≡ true
    → (can_transition s a actor owner ≡ allowed) ↔ (
        (is_some (target_at s a) ≡ true)
        × (role_may actor.role a s ≡ true)
        × (is_stranger actor owner ≡ false))
unfolding can_transition target_at
job_allowed_iff s a actor owner c = (λ h. ground arith, λ h. ground arith)
