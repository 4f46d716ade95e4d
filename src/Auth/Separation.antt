-- ===== src/Auth/Separation.antt =====
-- Which role an action needs, and that the two steward roles share a principal with no other.
use workflow_helper_public.Base.{◌≡◌, true, false, Option, arith, ok}
use workflow_helper_public.Text.{Text}
use workflow_helper_public.Scope.{TenantWorkspaceScope}
use workflow_helper_public.Auth.{
  ControlRole, capture_uploader, deterministic_worker, reviewer, audit_reader, retention_steward,
  safety_steward, ControlAction, AuthenticatedPrincipal, RoleSet, is_exclusive,
  authenticated_principal, mixes_exclusive, allows, session_register, session_presign,
  session_upload_complete, session_list, session_read, session_timeline_read, review_append,
  review_read, audit_read, retention_register, retention_read, retention_hold,
  retention_stage_trash, retention_attest_delete, safety_read, safety_engage,
}

-- The one role that carries an action.
abbrev pub role_of : ControlAction → ControlRole
role_of session_register = capture_uploader
role_of session_presign = capture_uploader
role_of session_upload_complete = capture_uploader
role_of session_list = reviewer
role_of session_read = reviewer
role_of session_timeline_read = reviewer
role_of review_append = reviewer
role_of review_read = reviewer
role_of audit_read = audit_reader
role_of retention_register = retention_steward
role_of retention_read = retention_steward
role_of retention_hold = retention_steward
role_of retention_stage_trash = retention_steward
role_of retention_attest_delete = retention_steward
role_of safety_read = safety_steward
role_of safety_engage = safety_steward
role_of _ = deterministic_worker

-- A principal may do an action exactly if it holds the one role that carries it.
allows-role_of :
    (principal : AuthenticatedPrincipal) (action : ControlAction)
    → allows principal action ≡ principal.roles (role_of action)
unfolding allows
allows-role_of principal session_register = ground arith
allows-role_of principal _ = ground arith

exclusive_alone :
    (roles : RoleSet) (r r' : ControlRole)
    → mixes_exclusive roles ≡ false
    → is_exclusive r ≡ true
    → roles r ≡ true
    → roles r' ≡ true
    → r' ≡ r
unfolding mixes_exclusive
exclusive_alone roles retention_steward r' free e h h' = ground arith
exclusive_alone roles _ r' free e h h' = ground arith

-- A principal that was accepted and may do an action of the retention or the safety steward may do
-- only actions of that same role.
pub steward_separated :
    (subject : Text) (roles : RoleSet) (scope : Option TenantWorkspaceScope) (a b : ControlAction)
    {principal : AuthenticatedPrincipal}
    → authenticated_principal subject roles scope ≡ ok principal
    → is_exclusive (role_of a) ≡ true
    → allows principal a ≡ true
    → allows principal b ≡ true
    → role_of b ≡ role_of a
unfolding authenticated_principal
steward_separated subject roles scope a b {principal} h e ha hb = ground (
  arith,
  exclusive_alone roles (role_of a) (role_of b),
  allows-role_of principal a,
  allows-role_of principal b,
)
