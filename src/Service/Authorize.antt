-- ===== src/Service/Authorize.antt =====
-- `_require_scope`, `_audit_context`, `_authorize` and `_authorize_retention`: a request is allowed
-- or denied before any store is asked, and a denial leaves evidence.
use workflow_helper_public.Base.{
  Bool, false, Option, none, some, if◌then◌else◌, authorization_denied, Error, Result, ok, err,
}
use workflow_helper_public.Text.{Text, codes}
use workflow_helper_public.Platform.{Platform}
use workflow_helper_public.Audit.{AuditContext}
use workflow_helper_public.Scope.{TenantWorkspaceScope, validate_scope, qualify}
use workflow_helper_public.Auth.{
  ControlAction, AuthenticatedPrincipal, retention_steward, require, role_values, action_value,
}
use workflow_helper_public.Store.Rows as StoreRows
use workflow_helper_public.Retention.Rows as RetentionRows
use workflow_helper_public.Service.Session.{
  ControlService, Request, Svc, ◌>>=◌, ◌>>◌, raise, attempt, in_store, in_ledger, require_retention,
}

-- `_require_scope`; a principal that is not an `AuthenticatedPrincipal` cannot be written here.
unfoldable pub require_scope : AuthenticatedPrincipal → Result TenantWorkspaceScope
require_scope principal = elim principal.scope [
  | none ↦ err (authorization_denied "action forbidden")
  | some scope ↦ elim (validate_scope scope) [
    | err e ↦ err (authorization_denied "action forbidden")
    | ok _ ↦ ok scope
  ]
]

abbrev pub qualify_key : TenantWorkspaceScope → Option Text → Result (Option Text)
qualify_key scope none = ok none
qualify_key scope (some key) = elim (qualify scope (codes "audit_idempotency") key) [
  | err e ↦ err e
  | ok qualified ↦ ok (some qualified)
]

-- `_audit_context`
unfoldable pub audit_context :
    TenantWorkspaceScope
    → AuthenticatedPrincipal
    → ControlAction
    → Text
    → Request
    → Text
    → Result AuditContext
audit_context scope principal action target_id request result =
    elim (qualify_key scope request.idempotency_key) [
      | err e ↦ err e
      | ok key ↦ elim (qualify scope (codes "audit_target") target_id) [
        | err e ↦ err e
        | ok target ↦ ok (record {
          correlation_id = request.correlation_id;
          idempotency_key = key;
          subject_id = principal.subject;
          roles = role_values principal;
          action = action_value action;
          target_id = target;
          result = result;
          occurred_at = request.occurred_at;
        })
      ]
    ]

-- The ledger is there and the principal is its steward.
unfoldable pub records_in_ledger : AuthenticatedPrincipal → ControlService → Bool
records_in_ledger principal s = elim s.retention [
  | none ↦ false
  | some _ ↦ principal.roles retention_steward
]

-- `append_audit_event` of the store that keeps a denial's evidence.
unfoldable pub record_denial :
    Platform → AuthenticatedPrincipal → Text → AuditContext → Svc (Unit {0})
record_denial platform principal event_id audit s =
    if records_in_ledger principal s
    then in_ledger (RetentionRows.append_audit_event platform (some audit) event_id) s
    else in_store (StoreRows.append_audit_event platform (some audit) event_id) s

-- The `except AuthorizationDeniedError` of `_authorize`.
unfoldable pub deny :
    Platform → AuthenticatedPrincipal → Text → Result AuditContext → Error → Svc AuditContext
deny platform principal event_id denied e = do
  audit ← attempt denied
  record_denial platform principal event_id audit
  raise e

-- What `_authorize` does with the outcome of `principal.require(action)`.
unfoldable pub decided :
    Platform
    → AuthenticatedPrincipal
    → ControlAction
    → Text
    → Request
    → TenantWorkspaceScope
    → Result (Unit {0})
    → Svc AuditContext
decided platform principal action target_id request scope (err e) =
    deny platform principal request.audit_event
      (audit_context scope principal action target_id request (codes "denied")) e
decided platform principal action target_id request scope (ok _) =
    attempt (audit_context scope principal action target_id request (codes "accepted"))

-- `_authorize`
unfoldable pub authorize :
    Platform → AuthenticatedPrincipal → ControlAction → Text → Request → Svc AuditContext
authorize platform principal action target_id request = do
  scope ← attempt (require_scope principal)
  decided platform principal action target_id request scope (require principal action)

unfoldable pub deny_in_ledger : Platform → Text → Result AuditContext → Error → Svc AuditContext
deny_in_ledger platform event_id denied e = do
  audit ← attempt denied
  in_ledger (RetentionRows.append_audit_event platform (some audit) event_id)
  raise e

-- `_authorize_retention`
unfoldable pub authorize_retention :
    Platform → AuthenticatedPrincipal → ControlAction → Text → Request → Svc AuditContext
authorize_retention platform principal action target_id request = do
  require_retention
  scope ← attempt (require_scope principal)
  elim (require principal action) [
    | err e ↦
        deny_in_ledger platform request.audit_event
          (audit_context scope principal action target_id request (codes "denied")) e
    | ok _ ↦ attempt (audit_context scope principal action target_id request (codes "accepted"))
  ]
