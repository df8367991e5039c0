-- ===== src/Access/BookingPolicy.antt =====
-- src/policies/booking.policy.ts.
use labour_baba_backend.Base.{ℕ, not, ◌&&◌, Option, List, [], ◌∷◌, ◌++◌, ◌==◌, if◌then◌else◌}
use labour_baba_backend.Access.Role.{Actor, customer, worker, admin, same_role}
use labour_baba_backend.Access.Decision.{
  PolicyDecision, allow, deny, forbidden, role_forbidden, not_owner, not_assigned_worker,
  not_participant, resource_not_found,
}
use labour_baba_backend.Access.Filter.{
  Parties, Condition, id_is, customer_is, worker_is, nil_id, id_filter,
}

unfoldable pub can_read : Actor → Parties → PolicyDecision
can_read actor b =
    if same_role actor.role admin
    then allow
    else if same_role actor.role customer
    then (if b.customer_id == actor.id then allow else deny 404 resource_not_found)
    else if same_role actor.role worker
    then (if b.worker_id == actor.id then allow else deny 404 resource_not_found)
    else deny 403 forbidden

unfoldable pub can_verify_otp : Actor → Parties → PolicyDecision
can_verify_otp actor b =
    if same_role actor.role admin
    then allow
    else if not (same_role actor.role worker)
    then deny 403 role_forbidden
    else if not (b.worker_id == actor.id)
    then deny 403 not_assigned_worker
    else allow

unfoldable pub can_complete : Actor → Parties → PolicyDecision
can_complete actor b =
    if not (same_role actor.role worker)
    then deny 403 role_forbidden
    else if not (b.worker_id == actor.id)
    then deny 403 not_assigned_worker
    else allow

unfoldable pub can_confirm_completion : Actor → Parties → PolicyDecision
can_confirm_completion actor b =
    if not (same_role actor.role customer)
    then deny 403 role_forbidden
    else if not (b.customer_id == actor.id)
    then deny 403 not_owner
    else allow

unfoldable pub can_cancel : Actor → Parties → PolicyDecision
can_cancel actor b =
    if same_role actor.role admin
    then allow
    else if same_role actor.role customer && b.customer_id == actor.id
    then allow
    else if same_role actor.role worker && b.worker_id == actor.id
    then allow
    else deny 403 not_participant

unfoldable pub can_get_worker_location : Actor → Parties → PolicyDecision
can_get_worker_location actor b =
    if same_role actor.role admin
    then allow
    else if same_role actor.role customer && b.customer_id == actor.id
    then allow
    else deny 403 not_owner

unfoldable pub scope_read : Actor → Option ℕ → List Condition
scope_read actor booking_id =
    if same_role actor.role admin
    then id_filter booking_id
    else if same_role actor.role customer
    then id_filter booking_id ++ customer_is actor.id ∷ []
    else if same_role actor.role worker
    then id_filter booking_id ++ worker_is actor.id ∷ []
    else id_is nil_id ∷ []
