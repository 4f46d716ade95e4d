-- ===== src/Service/Denial.antt =====
-- What authorization lets through.
use workflow_helper_public.Base.{
  ◌∙◌, ◌≡◌, ◌≢◌, refl, true, false, arith, Result, ok, err, Error, authorization_denied,
}
use workflow_helper_public.Text.{Text, codes}
use workflow_helper_public.Platform.{Platform}
use workflow_helper_public.Audit.{AuditContext}
use workflow_helper_public.Scope.{TenantWorkspaceScope}
use workflow_helper_public.Auth.{
  ControlAction, AuthenticatedPrincipal, require, allows, action_value, role_values,
}
use workflow_helper_public.Service.Session.{ControlService, Request, ◌>>=◌, attempt}
use workflow_helper_public.Service.Authorize.{
  require_scope, audit_context, record_denial, deny, decided, authorize,
}

require-ok :
    (principal : AuthenticatedPrincipal) (action : ControlAction) {u : Unit {0}}
    → require principal action ≡ ok u
    → allows principal action ≡ true
unfolding require
require-ok principal action h = ground arith

pub require-denied :
    (principal : AuthenticatedPrincipal) (action : ControlAction)
    → allows principal action ≡ false
    → require principal action ≡ err (authorization_denied "action forbidden")
unfolding require
require-denied principal action h = rw h refl

-- What an accepted context says.
pub record IsAccepted (principal : AuthenticatedPrincipal) (action : ControlAction)
    (audit : AuditContext) : Type 0 where
  pub allowed : allows principal action ≡ true
  pub subject : audit.subject_id ≡ principal.subject
  pub roles : audit.roles ≡ role_values principal
  pub acts : audit.action ≡ action_value action
  pub result : audit.result ≡ codes "accepted"

pub audit_context-ok :
    (scope : TenantWorkspaceScope) (principal : AuthenticatedPrincipal) (action : ControlAction)
    (target_id : Text) (request : Request) (result : Text) (audit : AuditContext)
    → audit_context scope principal action target_id request result ≡ ok audit
    → (audit.subject_id ≡ principal.subject)
      × (audit.roles ≡ role_values principal)
      × (audit.action ≡ action_value action)
      × (audit.result ≡ result)
unfolding audit_context
audit_context-ok scope principal action target_id request result audit h = ground arith

-- A denial is never taken for an acceptance.
deny-not_ok :
    (platform : Platform) (principal : AuthenticatedPrincipal) (event_id : Text)
    (denied : Result AuditContext) (e : Error) (s : ControlService) (audit : AuditContext)
    → (deny platform principal event_id denied e s).0 ≢ ok audit
unfolding deny ◌>>=◌ attempt
deny-not_ok platform principal event_id (err e') e s audit h = cc
deny-not_ok platform principal event_id (ok context) e s audit h =
    by_record (record_denial platform principal event_id context s).0 h
  where
    by_record :
        (r : Result (Unit {0}))
        → (elim r as (λ _. Result AuditContext × ControlService) [
          | ok _ ↦ (err e, (record_denial platform principal event_id context s).1)
          | err e' ↦ (err e', (record_denial platform principal event_id context s).1)
        ]).0
          ≢ ok audit
    by_record (ok _) h = cc
    by_record (err e') h = cc

-- A decision that returned is an acceptance, which changed neither store.
pub decided-returned :
    (platform : Platform) (principal : AuthenticatedPrincipal) (action : ControlAction)
    (target_id : Text) (request : Request) (scope : TenantWorkspaceScope) (s : ControlService)
    (audit : AuditContext) (r : Result (Unit {0}))
    → (decided platform principal action target_id request scope r s).0 ≡ ok audit
    → (r ≡ ok tt)
      × ((decided platform principal action target_id request scope r s).1 ≡ s)
      × (audit_context scope principal action target_id request (codes "accepted") ≡ ok audit)
unfolding decided attempt
decided-returned platform principal action target_id request scope s audit (err e) h =
    elim (deny-not_ok platform principal request.audit_event
      (audit_context scope principal action target_id request (codes "denied")) e s audit h) [ ]
decided-returned platform principal action target_id request scope s audit (ok _) h =
    (refl, refl, h)

decided-ok :
    (platform : Platform) (principal : AuthenticatedPrincipal) (action : ControlAction)
    (target_id : Text) (request : Request) (scope : TenantWorkspaceScope) (s : ControlService)
    (audit : AuditContext) (r : Result (Unit {0}))
    → require principal action ≡ r
    → (decided platform principal action target_id request scope r s).0 ≡ ok audit
    → ((decided platform principal action target_id request scope r s).1 ≡ s)
      × IsAccepted principal action audit
decided-ok platform principal action target_id request scope s audit r p h =
    let (allowed, kept, written) =
      decided-returned platform principal action target_id request scope s audit r h in
    let (subject, roles, acts, result) =
      audit_context-ok scope principal action target_id request (codes "accepted") audit written in
    (
      kept,
      record {
        allowed = require-ok principal action (p ∙ allowed);
        subject = subject;
        roles = roles;
        acts = acts;
        result = result;
      },
    )

-- Authorization returns a context only to a principal that is allowed the action, and then it has
-- changed neither store and the context names that principal, its roles and the action.
pub authorize_sound :
    (platform : Platform) (principal : AuthenticatedPrincipal) (action : ControlAction)
    (target_id : Text) (request : Request) (s : ControlService) (audit : AuditContext)
    → (authorize platform principal action target_id request s).0 ≡ ok audit
    → ((authorize platform principal action target_id request s).1 ≡ s)
      × IsAccepted principal action audit
unfolding authorize ◌>>=◌ attempt
authorize_sound platform principal action target_id request s audit h =
    in_scope (require_scope principal) h
  where
    in_scope :
        (r : Result TenantWorkspaceScope)
        → ((attempt r >>= λ scope.
              decided platform principal action target_id request scope (require principal action))
            s).0
          ≡ ok audit
        → ((attempt r >>= λ scope.
                decided platform principal action target_id request scope
                  (require principal action))
              s).1
            ≡ s
          × IsAccepted principal action audit
    in_scope (err e) h = cc
    in_scope (ok scope) h =
        decided-ok platform principal action target_id request scope s audit
          (require principal action) refl h
