-- ===== src/Service/Reviews/Checked.antt =====
-- What each check of `validate_candidate_review_capability` comes down to.
use workflow_helper_public.Base.{
  ◌≡◌, Bool, true, some, arith, ok, after_ok, reject_if-false, not-false, after_some,
}
use workflow_helper_public.Text.{Text, codes}
use workflow_helper_public.Text.Equality.{text_eq→eq}
use workflow_helper_public.Audit.{AuditContext}
use workflow_helper_public.Scope.{TenantWorkspaceScope, qualify}
use workflow_helper_public.Auth.{AuthenticatedPrincipal, role_values}
use workflow_helper_public.Service.Reviews.Equality.{equal_scopes→eq, equal_principals→eq}
use workflow_helper_public.Service.Reviews.Capability.{
  Bindings, CandidateReviewCapability, is_sealed, is_bound_audit, checked_audit, check_seal,
  check_bound,
}

pub check_seal-some :
    (capability : CandidateReviewCapability)
    → check_seal capability ≡ ok tt
    → (seal : Bindings) × (capability.seal ≡ some seal) × (is_sealed seal capability.bound ≡ true)
unfolding check_seal
check_seal-some capability h =
    let (seal, sealed, agrees) = after_some capability.seal _ _ h in
    (seal, sealed, not-false (is_sealed seal capability.bound) (reject_if-false _ _ agrees))

-- What the two qualified keys and the audit's fields come down to.
pub checked_audit-ok :
    (principal : AuthenticatedPrincipal) (scope : TenantWorkspaceScope)
    (target_id correlation_id idempotency_key : Text) (bound : AuditContext) (in_utc : Bool)
    (audit : AuditContext)
    → checked_audit principal scope target_id correlation_id idempotency_key bound in_utc ≡ ok audit
    → (audit ≡ bound)
      × (audit.subject_id ≡ principal.subject)
      × (qualify scope (codes "audit_target") target_id ≡ ok audit.target_id)
unfolding checked_audit is_bound_audit
checked_audit-ok principal scope target_id correlation_id idempotency_key bound in_utc audit h =
    let (target, target_written, with_key) =
      after_ok (qualify scope (codes "audit_target") target_id) _ h in
    let (_, _, bound_ok) =
      after_ok (qualify scope (codes "audit_idempotency") idempotency_key) _ with_key in
    ground (arith, text_eq→eq bound.subject_id principal.subject, text_eq→eq bound.target_id target)

pub check_bound-ok :
    (bound : Bindings) (publication_key review_target_id correlation_id idempotency_key : Text)
    → check_bound bound publication_key review_target_id correlation_id idempotency_key ≡ ok tt
    → (bound.publication_key ≡ publication_key)
      × (bound.review_target_id ≡ review_target_id)
      × (bound.correlation_id ≡ correlation_id)
      × (bound.idempotency_key ≡ idempotency_key)
unfolding check_bound
check_bound-ok bound publication_key review_target_id correlation_id idempotency_key h = ground (
  arith,
  text_eq→eq bound.publication_key publication_key,
  text_eq→eq bound.review_target_id review_target_id,
  text_eq→eq bound.correlation_id correlation_id,
  text_eq→eq bound.idempotency_key idempotency_key,
)

-- What the seal's agreement with the bindings comes down to.
pub is_sealed-agrees :
    (seal bound : Bindings)
    → is_sealed seal bound ≡ true
    → (seal.principal.subject ≡ bound.principal.subject)
      × (role_values seal.principal ≡ role_values bound.principal)
      × (seal.scope ≡ bound.scope)
      × (seal.publication_key ≡ bound.publication_key)
      × (seal.review_target_id ≡ bound.review_target_id)
      × (seal.correlation_id ≡ bound.correlation_id)
      × (seal.idempotency_key ≡ bound.idempotency_key)
      × (seal.control_service ≡ bound.control_service)
unfolding is_sealed
is_sealed-agrees seal bound h = ground (
  arith,
  equal_principals→eq seal.principal bound.principal,
  equal_scopes→eq seal.scope bound.scope,
  text_eq→eq seal.publication_key bound.publication_key,
  text_eq→eq seal.review_target_id bound.review_target_id,
  text_eq→eq seal.correlation_id bound.correlation_id,
  text_eq→eq seal.idempotency_key bound.idempotency_key,
)
