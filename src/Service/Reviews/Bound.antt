-- ===== src/Service/Reviews/Bound.antt =====
-- What a capability for a candidate review is good for.
use workflow_helper_public.Base.{ℕ, ◌≡◌, sym, subst, true, ◌==◌, arith, ok, reject_if}
use workflow_helper_public.Text.{Text, is_blank}
use workflow_helper_public.Text.Equality.{text_eq_refl}
use workflow_helper_public.Platform.{Platform}
use workflow_helper_public.Audit.{AuditContext}
use workflow_helper_public.Scope.{TenantWorkspaceScope}
use workflow_helper_public.Auth.{AuthenticatedPrincipal, review_append}
use workflow_helper_public.Service.Session.{ControlService, Request, attempt}
use workflow_helper_public.Service.Authorize.{require_scope}
use workflow_helper_public.Service.Reads.{bind-returned, attempt-returned}
use workflow_helper_public.Service.Reviews.{keyed}
use workflow_helper_public.Service.Reviews.Equality.{
  equal_scopes_refl, equal_principals_refl, is_sealed_refl,
}
use workflow_helper_public.Service.Reviews.Written.{
  IsWritten, checked_audit-written, authorize_reviewer-returned,
}
use workflow_helper_public.Service.Reviews.Capability.{
  CandidateReviewCapability, validate_reviewer_subject, validate_candidate_review_identity, issue,
  authorize_reviewer, authorize_candidate_review, check_seal, check_bound,
  validate_candidate_review_capability,
}

-- What a capability rests on that was issued.
record IsIssued (self : ℕ) (principal : AuthenticatedPrincipal)
    (publication_key review_target_id idempotency_key correlation_id : Text)
    (capability : CandidateReviewCapability) : Type 0 where
  scope : TenantWorkspaceScope
  audit : AuditContext
  scoped : require_scope principal ≡ ok scope
  identity : validate_candidate_review_identity publication_key review_target_id ≡ ok tt
  reviewer : validate_reviewer_subject principal.subject ≡ ok tt
  written : IsWritten principal scope review_target_id correlation_id idempotency_key audit
  made :
      capability
      ≡ issue (record {
        principal = principal;
        scope = scope;
        publication_key = publication_key;
        review_target_id = review_target_id;
        correlation_id = correlation_id;
        idempotency_key = idempotency_key;
        audit = audit;
        control_service = self;
      })

authorize_candidate_review-IsIssued :
    (platform : Platform) (principal : AuthenticatedPrincipal) (self : ℕ)
    (publication_key review_target_id idempotency_key : Text) (request : Request)
    (s s' : ControlService) (capability : CandidateReviewCapability)
    → authorize_candidate_review platform principal self publication_key review_target_id
        idempotency_key request s
      ≡ (ok capability, s')
    → IsIssued self principal publication_key review_target_id idempotency_key
        request.correlation_id capability
      × (s' ≡ s)
unfolding authorize_candidate_review
authorize_candidate_review-IsIssued platform principal self publication_key review_target_id
      idempotency_key request s s' capability h =
    let (scope, s1, h1, r1) = bind-returned (attempt (require_scope principal)) _ s h in
    let (_, s2, h2, r2) =
      bind-returned (attempt (reject_if (is_blank request.correlation_id) _)) _ s1 r1 in
    let (_, s3, h3, r3) =
      bind-returned (attempt (reject_if (is_blank idempotency_key) _)) _ s2 r2 in
    let (audit, s4, h4, r4) =
      bind-returned
        (authorize_reviewer platform principal review_append review_target_id
          (keyed request idempotency_key))
        _ s3 r3 in
    let (_, s5, h5, r5) =
      bind-returned (attempt (validate_candidate_review_identity publication_key review_target_id))
        _ s4 r4 in
    let (scoped, e1) = attempt-returned (require_scope principal) s h1 in
    let (_, e2) = attempt-returned _ s1 h2 in
    let (_, e3) = attempt-returned _ s2 h3 in
    let (identity, e5) =
      attempt-returned (validate_candidate_review_identity publication_key review_target_id) s4
        h5 in
    let (reviewer, written, e4) =
      authorize_reviewer-returned platform principal review_target_id idempotency_key request scope
        s3 scoped h4 in
    (
      record {
        scope = scope;
        audit = audit;
        scoped = scoped;
        identity = identity;
        reviewer = reviewer;
        written = written;
        made = cc;
      },
      cc,
    )

nat_eq_refl : (n : ℕ) → (n == n) ≡ true
nat_eq_refl n = ground arith

accepted_when_issued :
    (self : ℕ) (principal : AuthenticatedPrincipal)
    (publication_key review_target_id correlation_id idempotency_key : Text)
    (scope : TenantWorkspaceScope) (audit : AuditContext)
    → require_scope principal ≡ ok scope
    → validate_candidate_review_identity publication_key review_target_id ≡ ok tt
    → validate_reviewer_subject principal.subject ≡ ok tt
    → IsWritten principal scope review_target_id correlation_id idempotency_key audit
    → validate_candidate_review_capability self
        (issue (record {
          principal = principal;
          scope = scope;
          publication_key = publication_key;
          review_target_id = review_target_id;
          correlation_id = correlation_id;
          idempotency_key = idempotency_key;
          audit = audit;
          control_service = self;
        }))
        principal
        publication_key
        review_target_id
        correlation_id
        idempotency_key
      ≡ ok audit
unfolding validate_candidate_review_capability check_seal check_bound issue
accepted_when_issued self principal publication_key review_target_id correlation_id idempotency_key
      scope audit scoped identity reviewer written =
    rw
      (
        validate_candidate_review_capability,
        check_seal,
        check_bound,
        is_sealed_refl (record {
          principal = principal;
          scope = scope;
          publication_key = publication_key;
          review_target_id = review_target_id;
          correlation_id = correlation_id;
          idempotency_key = idempotency_key;
          audit = audit;
          control_service = self;
        }),
        nat_eq_refl self,
        equal_principals_refl principal,
        scoped,
        equal_scopes_refl scope,
        identity,
        text_eq_refl publication_key,
        text_eq_refl review_target_id,
        text_eq_refl correlation_id,
        text_eq_refl idempotency_key,
        reviewer,
      )
      (checked_audit-written principal scope review_target_id correlation_id idempotency_key audit
        written)

-- The capability that `authorize_candidate_review` returns is accepted by the same service for the
-- same principal, publication, review target, correlation and idempotency key, and gives back the
-- audit context of the authorization; issuing it changed neither store.
pub issued_capability_accepted :
    (platform : Platform) (principal : AuthenticatedPrincipal) (self : ℕ)
    (publication_key review_target_id idempotency_key : Text) (request : Request)
    (s s' : ControlService) (capability : CandidateReviewCapability)
    → authorize_candidate_review platform principal self publication_key review_target_id
        idempotency_key request s
      ≡ (ok capability, s')
    → (s' ≡ s)
      × (validate_candidate_review_capability self capability principal publication_key
            review_target_id request.correlation_id idempotency_key
          ≡ ok capability.bound.audit)
unfolding issue
issued_capability_accepted platform principal self publication_key review_target_id idempotency_key
      request s s' capability h =
    let (issued, kept) =
      authorize_candidate_review-IsIssued platform principal self publication_key review_target_id
        idempotency_key request s s' capability h in
    (
      kept,
      subst
          (λ (c : CandidateReviewCapability).
            validate_candidate_review_capability self c principal publication_key review_target_id
              request.correlation_id idempotency_key
            ≡ ok c.bound.audit)
          (sym issued.made)
          (accepted_when_issued self principal publication_key review_target_id
            request.correlation_id idempotency_key issued.scope issued.audit issued.scoped
            issued.identity issued.reviewer issued.written),
    )
