-- ===== src/Access/PaymentPolicy.antt =====
-- src/policies/payment.policy.ts.
use labour_baba_backend.Base.{ℕ, Bool, true, not, ◌&&◌, List, [], ◌∷◌, ◌==◌, if◌then◌else◌}
use labour_baba_backend.Access.Role.{Actor, customer, admin, same_role}
use labour_baba_backend.Access.Decision.{
  PolicyDecision, allow, deny, forbidden, role_forbidden, not_owner,
}
use labour_baba_backend.Access.Filter.{Parties, nil_id}

unfoldable pub can_create_order : Actor → Parties → PolicyDecision
can_create_order actor b =
    if not (same_role actor.role customer)
    then deny 403 role_forbidden
    else if not (b.customer_id == actor.id)
    then deny 403 not_owner
    else allow

unfoldable pub can_read : Actor → Parties → PolicyDecision
can_read actor b =
    if same_role actor.role admin
    then allow
    else if same_role actor.role customer && b.customer_id == actor.id
    then allow
    else deny 403 forbidden

unfoldable pub can_refund : Actor → Parties → PolicyDecision
can_refund actor b =
    if same_role actor.role admin
    then allow
    else if same_role actor.role customer && b.customer_id == actor.id
    then allow
    else deny 403 not_owner

-- A payment as its query sees it: its own columns, and its booking.
pub record Payment : Type 0 where
  pub id : ℕ
  pub booking_id : ℕ
  pub booking : Parties

-- `id`, `booking_id` and the nested `booking: { customer_id }`
pub data Condition : Type 0 where
  id_is booking_id_is booking_customer_is : ℕ → Condition

abbrev pub meets : Payment → Condition → Bool
meets p (id_is n) = p.id == n
meets p (booking_id_is n) = p.booking_id == n
meets p (booking_customer_is n) = p.booking.customer_id == n

abbrev pub meets_all : Payment → List Condition → Bool
meets_all p [] = true
meets_all p (c ∷ cs) = meets p c && meets_all p cs

unfoldable pub scope_read : Actor → ℕ → List Condition
scope_read actor booking_id =
    if same_role actor.role admin
    then booking_id_is booking_id ∷ []
    else if same_role actor.role customer
    then booking_id_is booking_id ∷ booking_customer_is actor.id ∷ []
    else id_is nil_id ∷ []
