-- ===== src/Access/WorkerPolicy.antt =====
-- src/policies/worker.policy.ts.
use labour_baba_backend.Base.{ℕ, ◌&&◌, ◌==◌, if◌then◌else◌, text}
use labour_baba_backend.Access.Role.{Actor, worker, admin, same_role, lower_is}
use labour_baba_backend.Access.Decision.{
  PolicyDecision, allow, deny, forbidden, role_forbidden, not_owner, document_access_denied,
}

unfoldable pub can_read_self : Actor → ℕ → PolicyDecision
can_read_self actor target =
    if same_role actor.role admin
    then allow
    else if same_role actor.role worker && actor.id == target
    then allow
    else deny 403 not_owner

unfoldable pub can_update_self : Actor → ℕ → PolicyDecision
can_update_self actor target =
    if same_role actor.role worker && actor.id == target then allow else deny 403 not_owner

unfoldable pub can_update_location : Actor → ℕ → PolicyDecision
can_update_location actor target =
    if same_role actor.role worker && actor.id == target then allow else deny 403 not_owner

unfoldable pub can_read_documents : Actor → ℕ → PolicyDecision
can_read_documents actor target =
    if lower_is actor.role (text "admin")
    then allow
    else if lower_is actor.role (text "worker") && actor.id == target
    then allow
    else deny 403 document_access_denied

-- The document's `worker_id` stands for the document.
unfoldable pub can_read_document : Actor → ℕ → PolicyDecision
can_read_document actor owner =
    if lower_is actor.role (text "admin")
    then allow
    else if lower_is actor.role (text "worker") && actor.id == owner
    then allow
    else deny 403 document_access_denied

unfoldable pub can_delete_document : Actor → ℕ → PolicyDecision
can_delete_document actor owner =
    if lower_is actor.role (text "admin")
    then allow
    else if lower_is actor.role (text "worker") && actor.id == owner
    then allow
    else deny 403 document_access_denied

unfoldable pub can_upload_documents : Actor → ℕ → PolicyDecision
can_upload_documents actor target =
    if same_role actor.role worker && actor.id == target then allow else deny 403 not_owner

unfoldable pub can_admin_verify : Actor → PolicyDecision
can_admin_verify actor = if same_role actor.role admin then allow else deny 403 role_forbidden

unfoldable pub can_admin_suspend : Actor → PolicyDecision
can_admin_suspend actor = if same_role actor.role admin then allow else deny 403 role_forbidden

unfoldable pub can_join_room : Actor → ℕ → PolicyDecision
can_join_room actor target =
    if same_role actor.role admin
    then allow
    else if same_role actor.role worker && actor.id == target
    then allow
    else deny 403 forbidden
