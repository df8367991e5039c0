-- ===== src/Requirement/Machine.antt =====
-- `requirementStateService`, requirementStateMachine.ts §5.
use labour_baba_backend.Base.{
  ℕ, Bool, true, false, not, ◌&&◌, Option, none, some, text, includes, Result, ok, err, find?,
  update_where, ltb, leb, ◌==◌, or_else, if◌then◌else◌,
}
use labour_baba_backend.Access.Role.{Role, role_text, customer, same_role, role_in}
use labour_baba_backend.Requirement.Status.{RequirementStatus, RequirementAction, normalize_status}
use labour_baba_backend.Requirement.Table.{TransitionRule, rule_for}
use labour_baba_backend.Requirement.Capacity.{RequirementCapacity, calculate_requirement_capacity}
use labour_baba_backend.Store.Rows.{TransitionActor, RequirementRow, Db}
use labour_baba_backend.Store.Failure.{
  Failure, requirement_not_found, requirement_forbidden, requirement_invalid_transition,
  check_violation, type_error,
}

-- The reasons that `canTransition` gives; a normalised status always has an entry in the table.
pub data Reason : Type 0 where
  not_owner : Reason
  action_not_allowed : RequirementAction → RequirementStatus → Reason
  role_not_authorized : Role → RequirementAction → Reason

pub data Verdict : Type 0 where
  allowed : Verdict
  denied : Reason → Verdict

-- `role === CUSTOMER && ownerId && actor.id && ownerId !== actor.id`
abbrev pub is_stranger : TransitionActor → Option ℕ → Bool
is_stranger a none = false
is_stranger a (some owner) =
    same_role a.role customer && elim a.id [ some i ↦ not (owner == i) | none ↦ false ]

abbrev rule_check : Option TransitionRule → RequirementStatus → RequirementAction → Role → Verdict
rule_check none s action r = denied (action_not_allowed action s)
rule_check (some t) s action r =
    if role_in t.allowed_roles r then allowed else denied (role_not_authorized r action)

unfoldable pub can_transition :
    RequirementStatus → RequirementAction → TransitionActor → Option ℕ → Verdict
can_transition s action a owner =
    let normalized = normalize_status s in
    if is_stranger a owner
    then denied not_owner
    else rule_check (rule_for normalized action) normalized action a.role

-- `reason?.includes("Forbidden")`: what is spliced into the wording may be a role of any spelling.
abbrev reads_forbidden : Reason → Bool
reads_forbidden not_owner = true
reads_forbidden (action_not_allowed _ _) = false
reads_forbidden (role_not_authorized r _) = includes (role_text r) (text "Forbidden")

unfoldable pub refusal : RequirementStatus → RequirementAction → Reason → Failure
refusal s action r =
    if reads_forbidden r then requirement_forbidden else requirement_invalid_transition s action

abbrev pub has_id : ℕ → RequirementRow → Bool
has_id n r = r.id == n

-- The checks that the database puts on a requirement row: a positive demand, and no more filled
-- than needed.
abbrev pub fits_checks : RequirementRow → Bool
fits_checks r = ltb 0 r.worker_count_needed && leb r.worker_count_filled r.worker_count_needed

-- `tx.job_requirement.update({ where: { id }, data })` on the row that was read.
unfoldable pub update_requirement :
    (RequirementRow → RequirementRow) → RequirementRow → Db → Result Failure Db
update_requirement f row db =
    if fits_checks (f row)
    then ok (record db { requirements = update_where (has_id row.id) f db.requirements })
    else err check_violation

-- `requirement.job?.customer_id`
abbrev pub owner_of : RequirementRow → Db → Option ℕ
owner_of r db = elim (find? (λ j. j.id == r.job_id) db.jobs) [
  | none ↦ none
  | some j ↦ some j.customer_id
]

pub record TransitionRequirementParams : Type 0 where
  pub requirement_id : ℕ
  pub action : RequirementAction
  pub actor : TransitionActor
  pub new_filled_count : Option ℕ

pub record TransitionResult : Type 0 where
  pub previous_status : RequirementStatus
  pub current_status : RequirementStatus
  pub capacity : RequirementCapacity

-- `updateData`
abbrev pub moved : ℕ → Option ℕ → RequirementStatus → RequirementRow → RequirementRow
moved now count target r = record r {
  status = target;
  updated_at = now;
  worker_count_filled = or_else count r.worker_count_filled;
}

abbrev with_capacity :
    RequirementStatus
    → RequirementStatus
    → Result Failure RequirementCapacity
    → Db
    → Result Failure (TransitionResult × Db)
with_capacity s t (ok c) db =
    ok (record { previous_status = s; current_status = t; capacity = c }, db)
with_capacity s t (err e) db = err e

abbrev written :
    RequirementStatus
    → RequirementStatus
    → RequirementRow
    → Result Failure Db
    → Result Failure (TransitionResult × Db)
written s t r (ok db) =
    with_capacity s t (calculate_requirement_capacity r.worker_count_needed r.worker_count_filled)
      db
written s t r (err e) = err e

-- The rest of `transition`, on the row that was found.
unfoldable pub transition_from :
    ℕ → TransitionRequirementParams → RequirementRow → Db → Result Failure (TransitionResult × Db)
transition_from now p req db =
    let current = normalize_status req.status in
    elim (can_transition current p.action p.actor (owner_of req db)) [
      | denied r ↦ err (refusal current p.action r)
      | allowed ↦ elim (rule_for current p.action) [
        | none ↦ err type_error
        | some rule ↦
            let target =
              rule.target_status
                (record { requirement = req; new_filled_count = p.new_filled_count }) in
            written current target (moved now p.new_filled_count target req)
              (update_requirement (moved now p.new_filled_count target) req db)
      ]
    ]

unfoldable pub transition :
    ℕ → TransitionRequirementParams → Db → Result Failure (TransitionResult × Db)
transition now p db = elim (find? (has_id p.requirement_id) db.requirements) [
  | none ↦ err requirement_not_found
  | some req ↦ transition_from now p req db
]
