-- ===== src/Service/Reviews/Written.antt =====
-- The audit context that is written when a candidate review is authorized, and its second check.
use workflow_helper_public.Base.{◌≡◌, refl, ap, subst, true, some, Result, ok, after_ok}
use workflow_helper_public.Text.{Text, codes}
use workflow_helper_public.Text.Equality.{text_eq_refl}
use workflow_helper_public.Platform.{Platform}
use workflow_helper_public.Audit.{AuditContext, ◌then_check◌, then_check-right}
use workflow_helper_public.Scope.{TenantWorkspaceScope, qualify}
use workflow_helper_public.Auth.{
  AuthenticatedPrincipal, review_append, require, role_values, action_value,
}
use workflow_helper_public.Service.Session.{ControlService, Request, attempt}
use workflow_helper_public.Service.Authorize.{require_scope, qualify_key, audit_context}
use workflow_helper_public.Service.Denial.{decided-returned}
use workflow_helper_public.Service.Reads.{bind-returned, attempt-returned}
use workflow_helper_public.Service.Reviews.{keyed}
use workflow_helper_public.Service.Reviews.Equality.{same_texts_refl}
use workflow_helper_public.Service.Reviews.Capability.{
  validate_reviewer_subject, authorize_reviewer, is_bound_audit, checked_audit,
}

-- What an accepted context holds, its time aside.
pub record IsWritten (principal : AuthenticatedPrincipal) (scope : TenantWorkspaceScope)
    (target_id correlation_id idempotency_key : Text) (audit : AuditContext) : Type 0 where
  pub target : Text
  pub key : Text
  pub target_written : qualify scope (codes "audit_target") target_id ≡ ok target
  pub key_written : qualify scope (codes "audit_idempotency") idempotency_key ≡ ok key
  pub correlation : audit.correlation_id ≡ correlation_id
  pub keyed_by : audit.idempotency_key ≡ some key
  pub subject : audit.subject_id ≡ principal.subject
  pub roles : audit.roles ≡ role_values principal
  pub action : audit.action ≡ action_value review_append
  pub targets : audit.target_id ≡ target
  pub result : audit.result ≡ codes "accepted"

audit_context-IsWritten :
    (principal : AuthenticatedPrincipal) (scope : TenantWorkspaceScope)
    (target_id idempotency_key : Text) (request : Request) (audit : AuditContext)
    → audit_context scope principal review_append target_id
        (keyed request idempotency_key)
        (codes "accepted")
      ≡ ok audit
    → IsWritten principal scope target_id request.correlation_id idempotency_key audit
unfolding audit_context
audit_context-IsWritten principal scope target_id idempotency_key request audit h =
    let (key', keyed_ok, rest) = after_ok (qualify_key scope (some idempotency_key)) _ h in
    let (key, key_written, kept) =
      after_ok (qualify scope (codes "audit_idempotency") idempotency_key) _ keyed_ok in
    let (target, target_written, made) =
      after_ok (qualify scope (codes "audit_target") target_id) _ rest in
    record {
      target = target;
      key = key;
      target_written = target_written;
      key_written = key_written;
      correlation = cc;
      keyed_by = cc;
      subject = cc;
      roles = cc;
      action = cc;
      targets = cc;
      result = cc;
    }

pub checked_audit-written :
    (principal : AuthenticatedPrincipal) (scope : TenantWorkspaceScope)
    (target_id correlation_id idempotency_key : Text) (audit : AuditContext)
    → IsWritten principal scope target_id correlation_id idempotency_key audit
    → checked_audit principal scope target_id correlation_id idempotency_key audit true ≡ ok audit
unfolding checked_audit is_bound_audit
checked_audit-written principal scope target_id correlation_id idempotency_key audit w =
    rw
      (
        checked_audit,
        is_bound_audit,
        w.target_written,
        w.key_written,
        w.correlation,
        w.keyed_by,
        w.subject,
        w.roles,
        w.action,
        w.targets,
        w.result,
        text_eq_refl correlation_id,
        text_eq_refl w.key,
        text_eq_refl principal.subject,
        same_texts_refl (role_values principal),
        text_eq_refl (action_value review_append),
        text_eq_refl w.target,
        text_eq_refl (codes "accepted"),
      )
      refl

pub authorize_reviewer-returned :
    (platform : Platform) (principal : AuthenticatedPrincipal) (target_id idempotency_key : Text)
    (request : Request) (scope : TenantWorkspaceScope) (s : ControlService) {audit : AuditContext}
    {s' : ControlService}
    → require_scope principal ≡ ok scope
    → authorize_reviewer platform principal review_append target_id
        (keyed request idempotency_key)
        s
      ≡ (ok audit, s')
    → (validate_reviewer_subject principal.subject ≡ ok tt)
      × IsWritten principal scope target_id request.correlation_id idempotency_key audit
      × (s' ≡ s)
unfolding authorize_reviewer
authorize_reviewer-returned platform principal target_id idempotency_key request scope s {audit}
      {s'} scoped h =
    let checks : Result (Unit {0}) =
      require principal review_append then_check validate_reviewer_subject principal.subject in
    let (own, between, first, rest) = bind-returned (attempt (require_scope principal)) _ s h in
    let (is_own, same) = attempt-returned (require_scope principal) s first in
    let (passed, kept, accepted) =
      decided-returned platform principal review_append target_id (keyed request idempotency_key)
        own between audit checks (ap (λ (r : Result AuditContext × ControlService). r.0) rest) in
    let own_is : own ≡ scope = cc in
    (
      then_check-right (require principal review_append) _ passed,
      audit_context-IsWritten principal scope target_id idempotency_key request audit (
          subst
            (λ (t : TenantWorkspaceScope).
              audit_context t principal review_append target_id (keyed request idempotency_key)
                (codes "accepted")
              ≡ ok audit)
            own_is accepted),
      cc,
    )
