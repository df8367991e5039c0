-- ===== src/Access/JobPolicy.antt =====
-- src/policies/job.policy.ts.
use labour_baba_backend.Base.{
  ℕ, Bool, true, not, ◌&&◌, ◌||◌, Option, none, some, List, [], ◌∷◌, ◌++◌, any, ◌==◌, if◌then◌else◌,
  Text, text, text_eq,
}
use labour_baba_backend.Access.Role.{Actor, customer, worker, admin, same_role}
use labour_baba_backend.Access.Decision.{
  PolicyDecision, allow, deny, forbidden, role_forbidden, not_owner, resource_not_found,
  invalid_state,
}
use labour_baba_backend.Access.Filter.{nil_id}

-- A job with the workers of its bookings, and those of the dispatches of each requirement. An
-- array that was not loaded is empty, which the code treats alike.
pub record JobResource : Type 0 where
  pub id : ℕ
  pub customer_id : ℕ
  pub status : Text
  pub booking : List ℕ
  pub job_requirement : List (List ℕ)

abbrev pub has_worker : ℕ → List ℕ → Bool
has_worker w ws = any (λ v. v == w) ws

abbrev pub booked_or_dispatched : ℕ → JobResource → Bool
booked_or_dispatched w job =
    has_worker w job.booking || any (λ req. has_worker w req) job.job_requirement

unfoldable pub can_create : Actor → PolicyDecision
can_create actor = if not (same_role actor.role customer) then deny 403 role_forbidden else allow

unfoldable pub can_read : Actor → JobResource → PolicyDecision
can_read actor job =
    if same_role actor.role admin
    then allow
    else if same_role actor.role customer
    then (if job.customer_id == actor.id then allow else deny 404 resource_not_found)
    else if same_role actor.role worker
    then (if booked_or_dispatched actor.id job then allow else deny 404 resource_not_found)
    else deny 403 forbidden

unfoldable pub can_cancel : Actor → JobResource → PolicyDecision
can_cancel actor job =
    if same_role actor.role admin
    then allow
    else if same_role actor.role customer
    then (if not (job.customer_id == actor.id)
        then deny 403 not_owner
        else if text_eq job.status (text "COMPLETED") || text_eq job.status (text "CANCELLED")
        then deny 403 invalid_state
        else allow)
    else deny 403 role_forbidden

unfoldable pub can_create_requirement : Actor → JobResource → PolicyDecision
can_create_requirement actor job =
    if same_role actor.role admin
    then allow
    else if same_role actor.role customer
    then (if job.customer_id == actor.id then allow else deny 403 not_owner)
    else deny 403 role_forbidden

unfoldable pub can_read_bookings : Actor → JobResource → PolicyDecision
can_read_bookings actor job =
    if same_role actor.role admin
    then allow
    else if same_role actor.role customer
    then (if job.customer_id == actor.id then allow else deny 404 resource_not_found)
    else if same_role actor.role worker
    then (if booked_or_dispatched actor.id job then allow else deny 404 resource_not_found)
    else deny 403 forbidden

-- The conditions of the job queries; `involves` is the `OR` over bookings and dispatches.
pub data JobCondition : Type 0 where
  id_is customer_is involves : ℕ → JobCondition

abbrev pub meets : JobResource → JobCondition → Bool
meets job (id_is n) = job.id == n
meets job (customer_is n) = job.customer_id == n
meets job (involves w) = booked_or_dispatched w job

abbrev pub meets_all : JobResource → List JobCondition → Bool
meets_all job [] = true
meets_all job (c ∷ cs) = meets job c && meets_all job cs

abbrev id_filter : Option ℕ → List JobCondition
id_filter none = []
id_filter (some n) = id_is n ∷ []

unfoldable pub scope_read : Actor → Option ℕ → List JobCondition
scope_read actor job_id =
    if same_role actor.role admin
    then id_filter job_id
    else if same_role actor.role customer
    then id_filter job_id ++ customer_is actor.id ∷ []
    else if same_role actor.role worker
    then id_filter job_id ++ involves actor.id ∷ []
    else id_is nil_id ∷ []

abbrev customer_filter : Option ℕ → List JobCondition
customer_filter none = []
customer_filter (some n) = customer_is n ∷ []

unfoldable pub scope_list : Actor → Option ℕ → List JobCondition
scope_list actor filter_customer_id =
    if same_role actor.role admin
    then customer_filter filter_customer_id
    else if same_role actor.role customer
    then customer_is actor.id ∷ []
    else if same_role actor.role worker
    then involves actor.id ∷ []
    else id_is nil_id ∷ []
