-- ===== src/Access/RequirementPolicy.antt =====
-- src/policies/requirement.policy.ts.
use labour_baba_backend.Base.{
  ℕ, Bool, true, ◌&&◌, ◌||◌, Option, none, some, List, [], ◌∷◌, ◌++◌, any, is_id, ◌==◌,
  if◌then◌else◌,
}
use labour_baba_backend.Access.Role.{Actor, customer, worker, admin, same_role}
use labour_baba_backend.Access.Decision.{
  PolicyDecision, allow, deny, forbidden, role_forbidden, not_owner, resource_not_found,
}
use labour_baba_backend.Access.Filter.{nil_id}

-- `job_customer` is `job?.customer_id`, absent when the parent job was not loaded.
pub record RequirementResource : Type 0 where
  pub id : ℕ
  pub job_customer : Option ℕ
  pub job_dispatch : List ℕ
  pub booking : List ℕ

unfoldable pub can_read : Actor → RequirementResource → PolicyDecision
can_read actor req =
    if same_role actor.role admin
    then allow
    else if same_role actor.role customer
    then (if is_id req.job_customer actor.id then allow else deny 404 resource_not_found)
    else if same_role actor.role worker
    then (if any (λ d. d == actor.id) req.job_dispatch || any (λ b. b == actor.id) req.booking
        then allow
        else deny 404 resource_not_found)
    else deny 403 forbidden

unfoldable pub can_update : Actor → RequirementResource → PolicyDecision
can_update actor req =
    if same_role actor.role admin
    then allow
    else if same_role actor.role customer
    then (if is_id req.job_customer actor.id then allow else deny 403 not_owner)
    else deny 403 role_forbidden

pub data RequirementCondition : Type 0 where
  id_is job_customer_is involves : ℕ → RequirementCondition

abbrev pub meets : RequirementResource → RequirementCondition → Bool
meets req (id_is n) = req.id == n
meets req (job_customer_is n) = is_id req.job_customer n
meets req (involves w) = any (λ b. b == w) req.booking || any (λ d. d == w) req.job_dispatch

abbrev pub meets_all : RequirementResource → List RequirementCondition → Bool
meets_all req [] = true
meets_all req (c ∷ cs) = meets req c && meets_all req cs

abbrev id_filter : Option ℕ → List RequirementCondition
id_filter none = []
id_filter (some n) = id_is n ∷ []

unfoldable pub scope_read : Actor → Option ℕ → List RequirementCondition
scope_read actor requirement_id =
    if same_role actor.role admin
    then id_filter requirement_id
    else if same_role actor.role customer
    then id_filter requirement_id ++ job_customer_is actor.id ∷ []
    else if same_role actor.role worker
    then id_filter requirement_id ++ involves actor.id ∷ []
    else id_is nil_id ∷ []
