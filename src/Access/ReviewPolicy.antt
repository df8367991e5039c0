-- ===== src/Access/ReviewPolicy.antt =====
-- src/policies/review.policy.ts.
use labour_baba_backend.Base.{
  ℕ, Bool, true, not, ◌&&◌, Option, none, some, List, [], ◌∷◌, ◌==◌, if◌then◌else◌,
}
use labour_baba_backend.Access.Role.{Actor, customer, worker, admin, same_role}
use labour_baba_backend.Access.Decision.{
  PolicyDecision, allow, deny, role_forbidden, not_owner, not_participant, unauthorized,
}
use labour_baba_backend.Access.Filter.{Parties, nil_id}

unfoldable pub can_create : Actor → Parties → PolicyDecision
can_create actor b =
    if not (same_role actor.role customer)
    then deny 403 role_forbidden
    else if not (b.customer_id == actor.id)
    then deny 403 not_owner
    else allow

unfoldable pub can_read_booking_review : Actor → Parties → PolicyDecision
can_read_booking_review actor b =
    if same_role actor.role admin
    then allow
    else if same_role actor.role customer && b.customer_id == actor.id
    then allow
    else if same_role actor.role worker && b.worker_id == actor.id
    then allow
    else deny 403 not_participant

-- `none`: no actor, or an actor with no id.
unfoldable pub can_read_worker_reviews : Option Actor → PolicyDecision
can_read_worker_reviews none = deny 403 unauthorized
can_read_worker_reviews (some _) = allow

-- A review's own columns, as its query sees them.
pub record Review : Type 0 where
  pub id : ℕ
  pub booking_id : ℕ
  pub customer_id : ℕ
  pub worker_id : ℕ

pub data Condition : Type 0 where
  id_is booking_id_is customer_is worker_is : ℕ → Condition

abbrev pub meets : Review → Condition → Bool
meets r (id_is n) = r.id == n
meets r (booking_id_is n) = r.booking_id == n
meets r (customer_is n) = r.customer_id == n
meets r (worker_is n) = r.worker_id == n

abbrev pub meets_all : Review → List Condition → Bool
meets_all r [] = true
meets_all r (c ∷ cs) = meets r c && meets_all r cs

unfoldable pub scope_booking_review : Actor → ℕ → List Condition
scope_booking_review actor booking_id =
    if same_role actor.role admin
    then booking_id_is booking_id ∷ []
    else if same_role actor.role customer
    then booking_id_is booking_id ∷ customer_is actor.id ∷ []
    else if same_role actor.role worker
    then booking_id_is booking_id ∷ worker_is actor.id ∷ []
    else id_is nil_id ∷ []
