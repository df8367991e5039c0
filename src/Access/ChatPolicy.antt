-- ===== src/Access/ChatPolicy.antt =====
-- src/policies/chat.policy.ts.
use labour_baba_backend.Base.{ℕ, not, ◌&&◌, List, [], ◌∷◌, ◌==◌, if◌then◌else◌, text}
use labour_baba_backend.Access.Role.{Actor, lower_is}
use labour_baba_backend.Access.Decision.{PolicyDecision, allow, deny, not_participant}
use labour_baba_backend.Access.Filter.{Parties, Condition, id_is, customer_is, worker_is, nil_id}

unfoldable pub can_read_conversation : Actor → Parties → PolicyDecision
can_read_conversation actor b =
    if lower_is actor.role (text "admin")
    then allow
    else if lower_is actor.role (text "customer") && b.customer_id == actor.id
    then allow
    else if lower_is actor.role (text "worker") && b.worker_id == actor.id
    then allow
    else deny 403 not_participant

unfoldable pub can_send_message : Actor → Parties → PolicyDecision
unfolding can_read_conversation
can_send_message actor b = can_read_conversation actor b

-- Only the wording of a refusal differs.
unfoldable pub can_join_room : Actor → Parties → PolicyDecision
unfolding can_read_conversation
can_join_room actor b =
    let decision = can_read_conversation actor b in
    if not decision.allowed then record decision { allowed = decision.allowed } else decision

unfoldable pub scope_booking : Actor → ℕ → List Condition
scope_booking actor booking_id =
    if lower_is actor.role (text "admin")
    then id_is booking_id ∷ []
    else if lower_is actor.role (text "customer")
    then id_is booking_id ∷ customer_is actor.id ∷ []
    else if lower_is actor.role (text "worker")
    then id_is booking_id ∷ worker_is actor.id ∷ []
    else id_is nil_id ∷ []
