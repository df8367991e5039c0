-- ===== src/Access/DispatchPolicy.antt =====
-- src/policies/dispatch.policy.ts.
use labour_baba_backend.Base.{
  ℕ, Bool, true, not, ◌&&◌, Option, none, some, List, [], ◌∷◌, ◌++◌, ◌==◌, if◌then◌else◌,
}
use labour_baba_backend.Access.Role.{Actor, worker, admin, same_role}
use labour_baba_backend.Access.Decision.{
  PolicyDecision, allow, deny, role_forbidden, not_assigned_worker, resource_not_found,
}
use labour_baba_backend.Access.Filter.{nil_id}

pub record DispatchResource : Type 0 where
  pub id : ℕ
  pub requirement_id : ℕ
  pub worker_id : ℕ

unfoldable pub can_read : Actor → DispatchResource → PolicyDecision
can_read actor d =
    if same_role actor.role admin
    then allow
    else if same_role actor.role worker
    then (if d.worker_id == actor.id then allow else deny 404 resource_not_found)
    else deny 403 role_forbidden

unfoldable pub can_accept : Actor → DispatchResource → PolicyDecision
can_accept actor d =
    if not (same_role actor.role worker)
    then deny 403 role_forbidden
    else if not (d.worker_id == actor.id)
    then deny 403 not_assigned_worker
    else allow

unfoldable pub can_decline : Actor → DispatchResource → PolicyDecision
can_decline actor d =
    if not (same_role actor.role worker)
    then deny 403 role_forbidden
    else if not (d.worker_id == actor.id)
    then deny 403 not_assigned_worker
    else allow

pub data DispatchCondition : Type 0 where
  id_is requirement_is worker_is : ℕ → DispatchCondition

abbrev pub meets : DispatchResource → DispatchCondition → Bool
meets d (id_is n) = d.id == n
meets d (requirement_is n) = d.requirement_id == n
meets d (worker_is n) = d.worker_id == n

abbrev pub meets_all : DispatchResource → List DispatchCondition → Bool
meets_all d [] = true
meets_all d (c ∷ cs) = meets d c && meets_all d cs

abbrev requirement_filter : Option ℕ → List DispatchCondition
requirement_filter none = []
requirement_filter (some n) = requirement_is n ∷ []

unfoldable pub scope_read : Actor → Option ℕ → List DispatchCondition
scope_read actor requirement_id =
    if same_role actor.role admin
    then requirement_filter requirement_id
    else if same_role actor.role worker
    then requirement_filter requirement_id ++ worker_is actor.id ∷ []
    else id_is nil_id ∷ []
