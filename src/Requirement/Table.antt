-- ===== src/Requirement/Table.antt =====
-- `REQUIREMENT_TRANSITION_TABLE`, requirementStateMachine.ts §4. A target may depend on the
-- requirement's counts and on the count that the caller hands in.
use labour_baba_backend.Base.{
  ℕ, ◌+◌, ◌-◌, ◌==◌, Option, none, some, List, [], ◌∷◌, or_else, leb, ltb, max, if◌then◌else◌,
}
use labour_baba_backend.Access.Role.{Role, customer, worker, admin, system, dispatch_worker}
use labour_baba_backend.Requirement.Status.{
  RequirementStatus, open_, dispatching, partially_filled, filled, no_workers_available, cancelled,
  RequirementAction, start_dispatch, record_acceptance, exhaust_dispatch, release_slot, cancel,
}
use labour_baba_backend.Store.Rows.{RequirementRow}

-- `RequirementTransitionContext`, without the fields that no target reads.
pub record Context : Type 0 where
  pub requirement : RequirementRow
  pub new_filled_count : Option ℕ

pub record TransitionRule : Type 0 where
  pub target_status : Context → RequirementStatus
  pub allowed_roles : List Role

abbrev pub after_acceptance : Context → RequirementStatus
after_acceptance ctx =
    let count = or_else ctx.new_filled_count (ctx.requirement.worker_count_filled + 1) in
    if leb ctx.requirement.worker_count_needed count then filled else partially_filled

abbrev pub after_exhaustion : Context → RequirementStatus
after_exhaustion ctx =
    if ltb 0 ctx.requirement.worker_count_filled then partially_filled else no_workers_available

abbrev pub after_release : Context → RequirementStatus
after_release ctx =
    let count = or_else ctx.new_filled_count (max 0 (ctx.requirement.worker_count_filled - 1)) in
    if count == 0 then open_ else partially_filled

abbrev dispatchers : List Role
dispatchers = admin ∷ system ∷ dispatch_worker ∷ []

abbrev acceptors : List Role
acceptors = admin ∷ system ∷ dispatch_worker ∷ worker ∷ []

abbrev owners : List Role
owners = customer ∷ admin ∷ system ∷ []

abbrev releasers : List Role
releasers = customer ∷ admin ∷ system ∷ worker ∷ []

abbrev rule : (Context → RequirementStatus) → List Role → Option TransitionRule
rule target roles = some (record { target_status = target; allowed_roles = roles })

abbrev open_rules : RequirementAction → Option TransitionRule
open_rules start_dispatch = rule (λ _. dispatching) dispatchers
open_rules record_acceptance = rule after_acceptance acceptors
open_rules cancel = rule (λ _. cancelled) owners
open_rules _ = none

abbrev dispatching_rules : RequirementAction → Option TransitionRule
dispatching_rules record_acceptance = rule after_acceptance acceptors
dispatching_rules exhaust_dispatch = rule after_exhaustion dispatchers
dispatching_rules cancel = rule (λ _. cancelled) owners
dispatching_rules _ = none

abbrev partially_filled_rules : RequirementAction → Option TransitionRule
partially_filled_rules start_dispatch = rule (λ _. dispatching) dispatchers
partially_filled_rules record_acceptance = rule after_acceptance acceptors
partially_filled_rules exhaust_dispatch = rule (λ _. partially_filled) dispatchers
partially_filled_rules release_slot = rule after_release releasers
partially_filled_rules cancel = rule (λ _. cancelled) owners
partially_filled_rules _ = none

abbrev filled_rules : RequirementAction → Option TransitionRule
filled_rules release_slot = rule after_release releasers
filled_rules cancel = rule (λ _. cancelled) owners
filled_rules _ = none

abbrev no_workers_rules : RequirementAction → Option TransitionRule
no_workers_rules start_dispatch =
    rule (λ _. dispatching) (admin ∷ system ∷ dispatch_worker ∷ customer ∷ [])
no_workers_rules cancel = rule (λ _. cancelled) owners
no_workers_rules _ = none

-- The table is read at normalised statuses only; `none` where it has no rule.
unfoldable pub rule_for : RequirementStatus → RequirementAction → Option TransitionRule
rule_for open_ a = open_rules a
rule_for dispatching a = dispatching_rules a
rule_for partially_filled a = partially_filled_rules a
rule_for filled a = filled_rules a
rule_for no_workers_available a = no_workers_rules a
rule_for cancelled _ = none
rule_for (RequirementStatus.other _) _ = none
