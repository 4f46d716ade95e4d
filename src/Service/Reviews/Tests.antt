-- ===== src/Service/Reviews/Tests.antt =====
-- A reviewer is authorized, and reviews a candidate with the capability.
use workflow_helper_public.Store.Reviews.Request.{CheckedReview}
use workflow_helper_public.Text.Decimal.{parse, print}
use workflow_helper_public.Store.Reviews.Writer.{append_candidate_review_event}
use workflow_helper_public.Store.Reviews.{review_row}
use workflow_helper_public.Base.{
  ◌≡◌, refl, ℕ, true, false, [], ◌∷◌, ◌++◌, none, some, Result, ok, err, ◌⊎◌,
}
use workflow_helper_public.Text.{Text, codes}
use workflow_helper_public.Json.{end}
use workflow_helper_public.Platform.{Platform, Timestamp, exact_platform}
use workflow_helper_public.Audit.{AuditContext, append_audit, validate_audit_context}
use workflow_helper_public.Scope.{
  TenantWorkspaceScope, is_kind, kind_prefix, qualify, unqualify, validate_scope,
}
use workflow_helper_public.Auth.{
  AuthenticatedPrincipal, RoleSet, reviewer, action_value, allows, require, role_values,
}
use workflow_helper_public.Store.ReviewRows.{ReviewEvent}
use workflow_helper_public.Store.Rows.{empty_db}
use workflow_helper_public.Store.Reviews.Accepted.{Accepted, IsOf, Replayed}
use workflow_helper_public.Service.Session.{ControlService, Request, attempt, in_store, ◌>>=◌}
use workflow_helper_public.Service.Authorize.{require_scope, audit_context, decided}
use workflow_helper_public.Service.Reviews.Public.{public_review_event}
use workflow_helper_public.Service.Reviews.Capability.{
  CandidateReviewCapability, authorize_candidate_review, validate_candidate_review_capability,
}
use workflow_helper_public.Service.Reviews.Candidate.{
  CandidateAppend, append_candidate_review, Identities, resolved_identities,
}
use workflow_helper_public.Service.Reviews.Bound.{issued_capability_accepted}
use workflow_helper_public.Service.Reviews.Sealed.{IsFor, accepted_capability-IsFor}
use workflow_helper_public.Service.Reviews.Outcome.{append_candidate_review_outcome, IsRequested}

abbrev digest : Text
digest = codes "aaaaaaaaaaaaaaaaaaaaaaaaaaaaaaaaaaaaaaaaaaaaaaaaaaaaaaaaaaaaaaaa"

-- A platform whose digests are short.
abbrev platform : Platform
platform = record exact_platform { sha256 = λ value. digest }

abbrev acme : TenantWorkspaceScope
acme = record { tenant_id = codes "acme"; workspace_id = codes "main" }

abbrev reviews_only : RoleSet
reviews_only reviewer = true
reviews_only _ = false

abbrev ann : AuthenticatedPrincipal
ann = record { subject = codes "reviewer_ann"; roles = reviews_only; scope = some acme }

abbrev skill : Text
skill = codes "00000000-0000-4000-8000-000000000001"

abbrev candidate : Text
candidate = codes "candidate-skill:1.0:" ++ skill ++ codes ":sha256:" ++ digest

abbrev publication_key : Text
publication_key = codes "candidate-publication:1.0:" ++ skill

abbrev second : ℕ → Timestamp
second n = record { aware = true; instant = n }

abbrev request : Request
request = record {
  correlation_id = codes "c1";
  idempotency_key = none;
  occurred_at = second 1;
  now = second 2;
  event_id = codes "00000000-0000-4000-8000-00000000000a";
  audit_event = codes "a1";
}

abbrev start : ControlService
start = record { store = empty_db; retention = none }

abbrev audit : AuditContext
audit = record {
  correlation_id = codes "c1";
  idempotency_key = some (codes "whscope1|4:acme4:main17:audit_idempotency2:k1");
  subject_id = codes "reviewer_ann";
  roles = codes "reviewer" ∷ [];
  action = codes "review.append";
  target_id = codes "whscope1|4:acme4:main12:audit_target128:" ++ candidate;
  result = codes "accepted";
  occurred_at = second 1;
}

abbrev capability : CandidateReviewCapability
capability = record {
  bound = record {
    principal = ann;
    scope = acme;
    publication_key = publication_key;
    review_target_id = candidate;
    correlation_id = codes "c1";
    idempotency_key = codes "k1";
    audit = audit;
    control_service = 7;
  };
  seal = some (record {
    principal = ann;
    scope = acme;
    publication_key = publication_key;
    review_target_id = candidate;
    correlation_id = codes "c1";
    idempotency_key = codes "k1";
    audit = audit;
    control_service = 7;
  });
  audit_in_utc = true;
}

capability_code : Unit {0}
unfolding append_audit validate_audit_context action_value allows require role_values is_kind
    kind_prefix qualify unqualify validate_scope audit_context decided require_scope
    append_candidate_review authorize_candidate_review public_review_event attempt in_store ◌>>=◌
    review_row append_candidate_review_event parse print
capability_code = tt

authorized :
    authorize_candidate_review platform ann 7 publication_key candidate (codes "k1") request start
    ≡ (ok capability, start)
unfolding capability_code
authorized = refl

issued_capability_accepted_example :
    (start ≡ start)
    × (validate_candidate_review_capability 7 capability ann publication_key candidate
          (codes "c1")
          (codes "k1")
        ≡ ok audit)
issued_capability_accepted_example =
    issued_capability_accepted platform ann 7 publication_key candidate (codes "k1") request start
      start capability authorized

-- The capability is accepted again for the call that it was issued for.
validated :
    validate_candidate_review_capability 7 capability ann publication_key candidate
      (codes "c1")
      (codes "k1")
    ≡ ok audit
unfolding capability_code
validated = refl

accepted_capability-IsFor_example :
    IsFor 7 capability ann publication_key candidate (codes "c1") (codes "k1") audit
accepted_capability-IsFor_example =
    accepted_capability-IsFor 7 capability ann publication_key candidate (codes "c1") (codes "k1")
      audit validated

abbrev call : CandidateAppend
call = record {
  publication_key = some publication_key;
  publication = record {
    publication_key = some publication_key;
    review_target_id = some candidate;
    content_sha256 = some digest;
    full_sha256 = some digest;
    source_result_sha256 = some digest;
  };
  review_target_id = none;
  target_id = none;
  idempotency_key = codes "k1";
  status = some (codes "pending");
  destination_status = none;
  schema_version = codes "1.0";
  candidate_id = none;
  skill_id = none;
  content_sha256 = none;
  full_sha256 = none;
  source_result_sha256 = none;
  reason = none;
  evidence = none;
  expected_prior_state = none;
  expected_prior_version = none;
  expected_prior_event_id = none;
  occurred_at = none;
  now = none;
  capability = some capability;
  legacy_provenance = none;
  legacy_detail = none;
}

abbrev appended : Result ReviewEvent × ControlService
appended = append_candidate_review platform 7 ann call request start

-- The event of an answer, and another one where it is an exception.
abbrev event_or : Result ReviewEvent → ReviewEvent
event_or (ok event) = event
event_or (err e) = record {
  sequence = 0;
  event_id = [];
  target_id = [];
  idempotency_key = [];
  actor_id = [];
  status = [];
  provenance = end;
  detail = end;
  occurred_at = second 0;
  content_digest = [];
}

returned : appended ≡ (ok (event_or appended.0), appended.1)
unfolding capability_code
returned = refl

append_candidate_review_outcome_example :
    (scope : TenantWorkspaceScope) × (named : Identities) × (stored : ReviewEvent)
    × (checked : CheckedReview) × (require_scope ann ≡ ok scope)
    × (resolved_identities call start ≡ (ok named, start))
    × IsRequested call named scope checked
    × (public_review_event platform scope stored ≡ ok (event_or appended.0))
    × IsOf platform ann.subject checked stored
    × (appended.1.retention ≡ start.retention)
    × ((Accepted platform ann.subject checked start.store stored appended.1.store)
        ⊎ (Replayed platform start.store stored × (appended.1 ≡ start)))
append_candidate_review_outcome_example =
    append_candidate_review_outcome platform 7 ann call request start appended.1
      (event_or appended.0) returned
