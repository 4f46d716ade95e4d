-- ===== src/Service/Reviews/Candidate.antt =====
-- `append_candidate_review` of apps/api/src/workflow_api/control_service.py. `_UNSET` is `none`.
use workflow_helper_public.Base.{
  ℕ, false, ◌||◌, not, Option, none, some, if◌then◌else◌, value_error, conflict_error, Result, ok,
  err, reject_if, is_some,
}
use workflow_helper_public.Text.{Text, text_eq, opt_text_eq}
use workflow_helper_public.Json.{Json, Fields}
use workflow_helper_public.Platform.{Platform, Timestamp}
use workflow_helper_public.Audit.{AuditContext}
use workflow_helper_public.Scope.{TenantWorkspaceScope}
use workflow_helper_public.Auth.{AuthenticatedPrincipal, review_append}
use workflow_helper_public.Store.Candidates.{is_candidate_review_target}
use workflow_helper_public.Store.ReviewRows.{ReviewEvent}
use workflow_helper_public.Store.Reviews.Keys.{scope_object}
use workflow_helper_public.Store.Reviews.Request.{CandidateReview, first_given}
use workflow_helper_public.Store.Reviews.Writer.{append_candidate_review_event}
use workflow_helper_public.Service.Session.{Request, Svc, ◌>>=◌, ◌>>◌, raise, attempt, in_store}
use workflow_helper_public.Service.Authorize.{require_scope, authorize}
use workflow_helper_public.Service.Reviews.{keyed}
use workflow_helper_public.Service.Reviews.Public.{public_review_event}
use workflow_helper_public.Service.Reviews.Capability.{
  CandidateReviewCapability, validate_candidate_review_capability,
}

-- The fields that `_publication_review_fields` copies of a publication and the call reads.
pub record Publication : Type 0 where
  pub publication_key : Option Text
  pub review_target_id : Option Text
  pub content_sha256 : Option Text
  pub full_sha256 : Option Text
  pub source_result_sha256 : Option Text

abbrev pub no_publication : Publication
no_publication = record {
  publication_key = none;
  review_target_id = none;
  content_sha256 = none;
  full_sha256 = none;
  source_result_sha256 = none;
}

-- The keyword arguments.
pub record CandidateAppend : Type 0 where
  pub publication_key : Option Text
  pub publication : Publication
  pub review_target_id : Option Text
  pub target_id : Option Text
  pub idempotency_key : Text
  pub status : Option Text
  pub destination_status : Option Text
  pub schema_version : Text
  pub candidate_id : Option Text
  pub skill_id : Option Text
  pub content_sha256 : Option Text
  pub full_sha256 : Option Text
  pub source_result_sha256 : Option Text
  pub reason : Option Json
  pub evidence : Option Json
  pub expected_prior_state : Option Json
  pub expected_prior_version : Option Json
  pub expected_prior_event_id : Option Json
  pub occurred_at : Option Timestamp
  pub now : Option Timestamp
  pub capability : Option CandidateReviewCapability
  pub legacy_provenance : Option Fields
  pub legacy_detail : Option Fields

-- `_coalesce_review_field`
unfoldable pub coalesce_review_field : Option Text → Option Text → Result (Option Text)
unfolding text_eq
coalesce_review_field (some value) (some published) =
    if text_eq value published
    then ok (some value)
    else err (conflict_error "candidate publication conflicts")
coalesce_review_field (some value) none = ok (some value)
coalesce_review_field none published = ok published

-- The identities and digests of the call, its own or its publication's.
pub record Identities : Type 0 where
  pub publication_key : Text
  pub review_target_id : Text
  pub content_sha256 : Text
  pub full_sha256 : Text
  pub source_result_sha256 : Text

-- What is left once the five values are known.
identities : Option Text → Option Text → Option Text → Option Text → Option Text → Result Identities
identities (some key) (some target) (some content) (some full) (some source) = ok (record {
  publication_key = key;
  review_target_id = target;
  content_sha256 = content;
  full_sha256 = full;
  source_result_sha256 = source;
})
identities key target content full source =
    if not (is_some key) || not (is_some target)
    then err (value_error "candidate publication and review target are required")
    else err (value_error "candidate publication digests are required")

unfoldable pub resolved_identities : CandidateAppend → Svc Identities
unfolding coalesce_review_field identities
resolved_identities call = do
  key ← attempt (coalesce_review_field call.publication_key call.publication.publication_key)
  target ← attempt (
      coalesce_review_field (first_given call.review_target_id call.target_id)
        call.publication.review_target_id)
  attempt (
      reject_if (if is_some call.target_id then not (opt_text_eq target call.target_id) else false)
        (conflict_error "candidate review target conflicts"))
  content ← attempt (coalesce_review_field call.content_sha256 call.publication.content_sha256)
  full ← attempt (coalesce_review_field call.full_sha256 call.publication.full_sha256)
  source ←
      attempt
        (coalesce_review_field call.source_result_sha256 call.publication.source_result_sha256)
  attempt (identities key target content full source)

-- The store's arguments: the scope and the reviewer are the principal's.
unfoldable pub guarded_call :
    CandidateAppend
    → Identities
    → AuthenticatedPrincipal
    → TenantWorkspaceScope
    → AuditContext
    → CandidateReview
guarded_call call named principal scope audit = record {
  scope = some (scope_object scope);
  server_scope = none;
  publication_key = named.publication_key;
  review_target_id = some named.review_target_id;
  target_id = none;
  idempotency_key = some call.idempotency_key;
  qualified_idempotency_key = none;
  actor_id = principal.subject;
  status = call.status;
  destination_status = call.destination_status;
  schema_version = call.schema_version;
  candidate_id = call.candidate_id;
  skill_id = call.skill_id;
  content_sha256 = named.content_sha256;
  full_sha256 = named.full_sha256;
  source_result_sha256 = named.source_result_sha256;
  reason = call.reason;
  evidence = call.evidence;
  expected_prior_state = call.expected_prior_state;
  expected_prior_version = call.expected_prior_version;
  expected_prior_event_id = call.expected_prior_event_id;
  occurred_at = call.occurred_at;
  now = call.now;
  audit = some audit;
  legacy_provenance = call.legacy_provenance;
  legacy_detail = call.legacy_detail;
}

module _ (platform : Platform) (self : ℕ) (principal : AuthenticatedPrincipal) where
  -- The call's authorization: a capability in place of a new one, never with the older payload.
  unfoldable pub authorized_by :
      CandidateAppend → Identities → Request → Option CandidateReviewCapability → Svc AuditContext
  unfolding validate_candidate_review_capability
  authorized_by call named request none =
      authorize platform principal review_append named.review_target_id
        (keyed request call.idempotency_key)
  authorized_by call named request (some capability) =
      if is_some call.legacy_provenance || is_some call.legacy_detail
      then raise (conflict_error "legacy candidate review payload cannot use a capability")
      else attempt (
          validate_candidate_review_capability self capability principal named.publication_key
            named.review_target_id request.correlation_id call.idempotency_key)

  unfoldable pub append_candidate_review : CandidateAppend → Request → Svc ReviewEvent
  unfolding resolved_identities is_candidate_review_target authorized_by guarded_call
  append_candidate_review call request = do
    named ← resolved_identities call
    scope ← attempt (require_scope principal)
    attempt (
        reject_if (not (is_candidate_review_target named.review_target_id))
          (conflict_error "candidate review target syntax is invalid"))
    audit ← authorized_by call named request call.capability
    event ← in_store (
        append_candidate_review_event platform request.now
          (guarded_call call named principal scope audit) request.event_id request.audit_event)
    attempt (public_review_event platform scope event)
