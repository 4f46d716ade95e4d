-- ===== src/Service/Unrecorded.antt =====
-- Denials that leave no evidence: the control store's audit log takes three roles only.
use workflow_helper_public.Base.{
  ◌≡◌, ◌≢◌, sym, Bool, true, false, ◌&&◌, List, [], ◌∷◌, arith, ok, any, select, map, inl, inr,
}
use workflow_helper_public.Text.{codes, Text, text_eq}
use workflow_helper_public.Text.Equality.{text_eq_iff, text_eq_refl}
use workflow_helper_public.Platform.{Platform}
use workflow_helper_public.Audit.{contains, control_audit_roles, check_role, check_roles}
use workflow_helper_public.Scope.{TenantWorkspaceScope}
use workflow_helper_public.Auth.{
  ControlRole, capture_uploader, deterministic_worker, reviewer, audit_reader, retention_steward,
  safety_steward, ControlAction, AuthenticatedPrincipal, role_value, role_values, allows, all_roles,
}
use workflow_helper_public.Service.Session.{ControlService, Request}
use workflow_helper_public.Service.Authorize.{
  authorize, records_in_ledger, require_scope, audit_context,
}
use workflow_helper_public.Service.Evidence.{IsDenied, authorize-IsDenied}

check_roles-refuses :
    (roles : List Text) (role : Text) (u : Unit {0})
    → contains roles role ≡ true
    → contains control_audit_roles role ≡ false
    → check_roles roles ≢ ok u
unfolding check_roles check_role
check_roles-refuses [] role u h n e = cc
check_roles-refuses (r ∷ roles) role u h n e =
    ground (arith, text_eq_iff r role, check_roles-refuses roles role u)

contains-select :
    (p : ControlRole → Bool) (roles : List ControlRole) (value : Text)
    → any (λ role. p role && text_eq (role_value role) value) roles ≡ true
    → contains (map role_value (select p roles)) value ≡ true
contains-select p [] value h = cc
contains-select p (role ∷ roles) value h = ground (arith, contains-select p roles value)

held_role :
    (p : ControlRole → Bool) (role : ControlRole)
    → p role ≡ true
    → any (λ r. p r && text_eq (role_value r) (role_value role)) all_roles ≡ true
held_role p capture_uploader h = ground (arith, text_eq_refl (role_value capture_uploader))
held_role p deterministic_worker h = ground (arith, text_eq_refl (role_value deterministic_worker))
held_role p reviewer h = ground (arith, text_eq_refl (role_value reviewer))
held_role p audit_reader h = ground (arith, text_eq_refl (role_value audit_reader))
held_role p retention_steward h = ground (arith, text_eq_refl (role_value retention_steward))
held_role p safety_steward h = ground (arith, text_eq_refl (role_value safety_steward))

-- A principal with a scope, a role that the control store's audit log does not take, and no ledger
-- that records for it, as where it is no retention steward or the service has no ledger: a request for
-- an action that it is not allowed changes no store, so it leaves no evidence.
pub unrecorded_denial :
    (platform : Platform) (principal : AuthenticatedPrincipal) (role : ControlRole)
    (action : ControlAction) (target_id : Text) (request : Request) (s : ControlService)
    (scope : TenantWorkspaceScope)
    → require_scope principal ≡ ok scope
    → principal.roles role ≡ true
    → contains control_audit_roles (role_value role) ≡ false
    → allows principal action ≡ false
    → records_in_ledger principal s ≡ false
    → (authorize platform principal action target_id request s).1 ≡ s
unfolding role_values
unrecorded_denial platform principal role action target_id request s scope scoped held outside
      forbidden here =
    outcome
      (authorize-IsDenied platform principal action target_id request s scope scoped forbidden here)
  where
    outcome :
        IsDenied platform principal action request.audit_event
          (audit_context scope principal action target_id request (codes "denied"))
          s
          (authorize platform principal action target_id request s)
        → (authorize platform principal action target_id request s).1 ≡ s
    outcome (inr (e, _, q, _)) = q
    outcome (inl (row, _, _, evidence)) =
        elim (check_roles-refuses (role_values principal) (role_value role) tt
          (contains-select principal.roles all_roles (role_value role)
            (held_role principal.roles role held))
          outside (rw (sym evidence.roles) evidence.covered)) [ ]
