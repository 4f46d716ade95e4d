-- ===== src/Service/Reviews/Sealed.antt =====
-- What an accepted capability was sealed for.
use workflow_helper_public.Service.Reviews.Checked.{
  check_seal-some, checked_audit-ok, check_bound-ok, is_sealed-agrees,
}
use workflow_helper_public.Base.{
  ℕ, ◌≡◌, ◌∙◌, sym, subst, ==_iff, Error, Bool, true, not, some, ◌==◌, Result, ok, reject_if,
  reject_if-false, checked_first, not-false, conflict_error, after_ok,
}
use workflow_helper_public.Text.{Text, codes}
use workflow_helper_public.Audit.{AuditContext, ◌then_check◌, then_check-left, then_check-right}
use workflow_helper_public.Scope.{TenantWorkspaceScope, equal_scopes, qualify}
use workflow_helper_public.Auth.{AuthenticatedPrincipal, role_values}
use workflow_helper_public.Service.Authorize.{require_scope}
use workflow_helper_public.Service.Reviews.Equality.{equal_scopes→eq, equal_principals→eq}
use workflow_helper_public.Service.Reviews.Capability.{
  Bindings, CandidateReviewCapability, equal_principals, validate_candidate_review_identity,
  checked_audit, check_seal, check_bound, validate_candidate_review_capability,
}

-- The seal names this service and this call, and the audit context is of this principal and target.
pub record IsFor (self : ℕ) (capability : CandidateReviewCapability)
    (principal : AuthenticatedPrincipal)
    (publication_key review_target_id correlation_id idempotency_key : Text) (audit : AuditContext)
    : Type 0 where
  pub seal : Bindings
  pub sealed : capability.seal ≡ some seal
  pub service : seal.control_service ≡ self
  pub subject : seal.principal.subject ≡ principal.subject
  pub roles : role_values seal.principal ≡ role_values principal
  pub scoped : require_scope principal ≡ ok seal.scope
  pub publication : seal.publication_key ≡ publication_key
  pub target : seal.review_target_id ≡ review_target_id
  pub correlation : seal.correlation_id ≡ correlation_id
  pub key : seal.idempotency_key ≡ idempotency_key
  pub audited : audit ≡ capability.bound.audit
  pub by_principal : audit.subject_id ≡ principal.subject
  pub for_target : qualify seal.scope (codes "audit_target") review_target_id ≡ ok audit.target_id

-- The checks that an accepted capability passed.
record Passed (self : ℕ) (capability : CandidateReviewCapability)
    (principal : AuthenticatedPrincipal)
    (publication_key review_target_id correlation_id idempotency_key : Text) (audit : AuditContext)
    : Type 0 where
  scope : TenantWorkspaceScope
  scoped : require_scope principal ≡ ok scope
  sealing : check_seal capability ≡ ok tt
  serving : (capability.bound.control_service == self) ≡ true
  owning : equal_principals principal capability.bound.principal ≡ true
  scoping : equal_scopes capability.bound.scope scope ≡ true
  binding :
      check_bound capability.bound publication_key review_target_id correlation_id idempotency_key
      ≡ ok tt
  auditing :
      checked_audit principal scope review_target_id correlation_id idempotency_key
        capability.bound.audit capability.audit_in_utc
      ≡ ok audit

-- A test whose failure is reported, and that did not fail.
held : (b : Bool) (e : Error) → reject_if (not b) e ≡ ok tt → b ≡ true
held b e h = not-false b (reject_if-false (not b) e h)

validated-Passed :
    (self : ℕ) (capability : CandidateReviewCapability) (principal : AuthenticatedPrincipal)
    (publication_key review_target_id correlation_id idempotency_key : Text) (audit : AuditContext)
    → validate_candidate_review_capability self capability principal publication_key
        review_target_id correlation_id idempotency_key
      ≡ ok audit
    → Passed self capability principal publication_key review_target_id correlation_id
        idempotency_key audit
unfolding validate_candidate_review_capability
validated-Passed self capability principal publication_key review_target_id correlation_id
      idempotency_key audit h =
    let sealing : Result (Unit {0}) = check_seal capability in
    let serving : Result (Unit {0}) =
      reject_if (not (capability.bound.control_service == self))
        (conflict_error "candidate review capability authority conflicts") in
    let (first, rest) = checked_first (sealing then_check serving then_check _) _ h in
    let (scope, scoped, rest') = after_ok (require_scope principal) _ rest in
    let scoping : Result (Unit {0}) =
      reject_if (not (equal_scopes capability.bound.scope scope))
        (conflict_error "candidate review scope conflicts") in
    let naming : Result (Unit {0}) =
      validate_candidate_review_identity publication_key review_target_id in
    let binding : Result (Unit {0}) =
      check_bound capability.bound publication_key review_target_id correlation_id
        idempotency_key in
    let (second, last) =
      checked_first (scoping then_check naming then_check binding then_check _) _ rest' in
    let served = then_check-left (sealing then_check serving) _ first in
    let bounds = then_check-left (scoping then_check naming then_check binding) _ second in
    record {
      scope = scope;
      scoped = scoped;
      sealing = then_check-left sealing serving served;
      serving = held _ _ (then_check-right sealing serving served);
      owning = held _ _ (then_check-right (sealing then_check serving) _ first);
      scoping = held _ _ (
          then_check-left scoping naming
            (then_check-left (scoping then_check naming) binding bounds));
      binding = then_check-right (scoping then_check naming) binding bounds;
      auditing = last;
    }

-- A capability that a service accepts for a call carries a seal, whatever was written over its
-- bindings since, and the seal is of this service and names the call's principal (its subject, its
-- roles and its scope), publication, review target, correlation and idempotency key. The audit
-- context that is given back is the one bound, of this principal and of the target's key.
pub accepted_capability-IsFor :
    (self : ℕ) (capability : CandidateReviewCapability) (principal : AuthenticatedPrincipal)
    (publication_key review_target_id correlation_id idempotency_key : Text) (audit : AuditContext)
    → validate_candidate_review_capability self capability principal publication_key
        review_target_id correlation_id idempotency_key
      ≡ ok audit
    → IsFor self capability principal publication_key review_target_id correlation_id
        idempotency_key audit
accepted_capability-IsFor self capability principal publication_key review_target_id correlation_id
      idempotency_key audit h =
    let bound : Bindings = capability.bound in
    let p =
      validated-Passed self capability principal publication_key review_target_id correlation_id
        idempotency_key audit h in
    let (seal, sealed, agrees) = check_seal-some capability p.sealing in
    let (subjects, roles) = equal_principals→eq principal bound.principal p.owning in
    let (s_subject, s_roles, s_scope, s_key, s_target, s_correlation, s_idempotency, s_service) =
      is_sealed-agrees seal bound agrees in
    let (b_key, b_target, b_correlation, b_idempotency) =
      check_bound-ok bound publication_key review_target_id correlation_id idempotency_key
        p.binding in
    let scope_is : p.scope ≡ seal.scope =
      sym (s_scope ∙ equal_scopes→eq bound.scope p.scope p.scoping) in
    let (audited, by_principal, for_target) =
      checked_audit-ok principal p.scope review_target_id correlation_id idempotency_key bound.audit
        capability.audit_in_utc audit p.auditing in
    record {
      seal = seal;
      sealed = sealed;
      service = s_service ∙ (==_iff bound.control_service self).0 p.serving;
      subject = s_subject ∙ sym subjects;
      roles = s_roles ∙ sym roles;
      scoped =
          subst (λ (t : TenantWorkspaceScope). require_scope principal ≡ ok t) scope_is p.scoped;
      publication = s_key ∙ b_key;
      target = s_target ∙ b_target;
      correlation = s_correlation ∙ b_correlation;
      key = s_idempotency ∙ b_idempotency;
      audited = audited;
      by_principal = by_principal;
      for_target =
          subst
            (λ (t : TenantWorkspaceScope).
              qualify t (codes "audit_target") review_target_id ≡ ok audit.target_id)
            scope_is for_target;
    }
