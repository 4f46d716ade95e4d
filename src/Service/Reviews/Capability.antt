-- ===== src/Service/Reviews/Capability.antt =====
-- `CandidateReviewCapability`, `authorize_candidate_review` and
-- `validate_candidate_review_capability` of apps/api/src/workflow_api/control_service.py. Which
-- object a service is, is a number. The zone of an audit's time is not part of a `Timestamp`, so
-- the capability says whether it is UTC.
use workflow_helper_public.Base.{
  ℕ, Bool, true, false, ◌&&◌, ◌||◌, not, List, [], ◌∷◌, Option, none, some, ◌==◌, if◌then◌else◌,
  value_error, conflict_error, authorization_denied, Result, ok, err, reject_if,
}
use workflow_helper_public.Text.{Text, codes, text_eq, opt_text_eq, is_blank}
use workflow_helper_public.Platform.{Platform, Timestamp}
use workflow_helper_public.Audit.{AuditContext, ◌then_check◌}
use workflow_helper_public.Scope.{TenantWorkspaceScope, equal_scopes, qualify}
use workflow_helper_public.Auth.{
  ControlAction, AuthenticatedPrincipal, review_append, require, role_values, action_value,
}
use workflow_helper_public.Store.Candidates.{candidate_target, publication_skill, is_reviewer_id}
use workflow_helper_public.Service.Session.{Request, Svc, ◌>>=◌, ◌>>◌, pure, attempt}
use workflow_helper_public.Service.Authorize.{require_scope, decided}
use workflow_helper_public.Service.Reviews.{keyed}

-- What a capability binds, and what its private seal repeats.
pub record Bindings : Type 0 where
  pub principal : AuthenticatedPrincipal
  pub scope : TenantWorkspaceScope
  pub publication_key : Text
  pub review_target_id : Text
  pub correlation_id : Text
  pub idempotency_key : Text
  pub audit : AuditContext
  pub control_service : ℕ

-- `seal` is `none` where it is no tuple of nine that begins with `_CAPABILITY_SEAL`.
pub record CandidateReviewCapability : Type 0 where
  pub bound : Bindings
  pub seal : Option Bindings
  pub audit_in_utc : Bool

abbrev pub same_texts : List Text → List Text → Bool
same_texts [] [] = true
same_texts (s ∷ ss) (t ∷ ts) = text_eq s t && same_texts ss ts
same_texts _ _ = false

abbrev pub equal_optional_scopes : Option TenantWorkspaceScope → Option TenantWorkspaceScope → Bool
equal_optional_scopes none none = true
equal_optional_scopes (some s) (some t) = equal_scopes s t
equal_optional_scopes _ _ = false

-- `==` of principals; sets of roles are equal where their sorted values are.
unfoldable pub equal_principals : AuthenticatedPrincipal → AuthenticatedPrincipal → Bool
equal_principals p q =
    text_eq p.subject q.subject
    && same_texts (role_values p) (role_values q)
    && equal_optional_scopes p.scope q.scope

-- `==` of datetimes: an aware one never equals a naive one.
abbrev pub equal_times : Timestamp → Timestamp → Bool
equal_times s t = (if s.aware then t.aware else not t.aware) && s.instant == t.instant

-- `==` of audit contexts
unfoldable pub equal_audits : AuditContext → AuditContext → Bool
equal_audits a b =
    text_eq a.correlation_id b.correlation_id
    && opt_text_eq a.idempotency_key b.idempotency_key
    && text_eq a.subject_id b.subject_id
    && same_texts a.roles b.roles
    && text_eq a.action b.action
    && text_eq a.target_id b.target_id
    && text_eq a.result b.result
    && equal_times a.occurred_at b.occurred_at

-- The seal repeats every binding.
unfoldable pub is_sealed : Bindings → Bindings → Bool
unfolding equal_principals equal_audits
is_sealed seal bound =
    equal_principals seal.principal bound.principal
    && equal_scopes seal.scope bound.scope
    && text_eq seal.publication_key bound.publication_key
    && text_eq seal.review_target_id bound.review_target_id
    && text_eq seal.correlation_id bound.correlation_id
    && text_eq seal.idempotency_key bound.idempotency_key
    && equal_audits seal.audit bound.audit
    && seal.control_service == bound.control_service

-- `_validate_reviewer_subject_value`
unfoldable pub validate_reviewer_subject : Text → Result (Unit {0})
unfolding is_reviewer_id
validate_reviewer_subject subject =
    reject_if (not (is_reviewer_id subject)) (authorization_denied "action forbidden")

-- `_validate_candidate_review_identity`
unfoldable pub validate_candidate_review_identity : Text → Text → Result (Unit {0})
unfolding publication_skill candidate_target
validate_candidate_review_identity publication_key review_target_id =
    elim (publication_skill publication_key) [
      | none ↦ err (value_error "candidate publication key is invalid")
      | some skill ↦ elim (candidate_target review_target_id) [
        | none ↦ err (value_error "candidate review target is invalid")
        | some (target_skill, content) ↦
            reject_if (not (text_eq skill target_skill))
              (conflict_error "candidate publication and target identities conflict")
      ]
    ]

-- `CandidateReviewCapability._issue`
unfoldable pub issue : Bindings → CandidateReviewCapability
issue bound = record { bound = bound; seal = some bound; audit_in_utc = true }

module _ (platform : Platform) (principal : AuthenticatedPrincipal) where
  -- `_authorize` with `_validate_reviewer_subject=True`.
  unfoldable pub authorize_reviewer : ControlAction → Text → Request → Svc AuditContext
  unfolding validate_reviewer_subject
  authorize_reviewer action target_id request = do
    scope ← attempt (require_scope principal)
    decided platform principal action target_id request scope
        (require principal action then_check validate_reviewer_subject principal.subject)

  unfoldable pub authorize_candidate_review :
      ℕ → Text → Text → Text → Request → Svc CandidateReviewCapability
  unfolding authorize_reviewer validate_candidate_review_identity issue
  authorize_candidate_review self publication_key review_target_id idempotency_key request = do
    scope ← attempt (require_scope principal)
    attempt (reject_if (is_blank request.correlation_id) (value_error "correlation_id is required"))
    attempt (reject_if (is_blank idempotency_key) (value_error "idempotency_key is required"))
    audit ← authorize_reviewer review_append review_target_id (keyed request idempotency_key)
    attempt (validate_candidate_review_identity publication_key review_target_id)
    pure (
        issue (record {
          principal = principal;
          scope = scope;
          publication_key = publication_key;
          review_target_id = review_target_id;
          correlation_id = request.correlation_id;
          idempotency_key = idempotency_key;
          audit = audit;
          control_service = self;
        }))

-- The audit context that the bindings ask for, its time aside.
unfoldable pub is_bound_audit :
    AuthenticatedPrincipal → Text → Text → Text → AuditContext → Bool → Bool
is_bound_audit principal correlation_id target key audit in_utc =
    text_eq audit.correlation_id correlation_id
    && opt_text_eq audit.idempotency_key (some key)
    && text_eq audit.subject_id principal.subject
    && same_texts audit.roles (role_values principal)
    && text_eq audit.action (action_value review_append)
    && text_eq audit.target_id target
    && text_eq audit.result (codes "accepted")
    && in_utc

-- The audit of a capability whose other bindings are checked.
unfoldable pub checked_audit :
    AuthenticatedPrincipal
    → TenantWorkspaceScope
    → Text
    → Text
    → Text
    → AuditContext
    → Bool
    → Result AuditContext
unfolding is_bound_audit
checked_audit principal scope target_id correlation_id idempotency_key audit in_utc =
    elim (qualify scope (codes "audit_target") target_id) [
      | err e ↦ err e
      | ok target ↦ elim (qualify scope (codes "audit_idempotency") idempotency_key) [
        | err e ↦ err e
        | ok key ↦
            if is_bound_audit principal correlation_id target key audit in_utc
            then ok audit
            else err (conflict_error "candidate review audit binding conflicts")
      ]
    ]

-- `capability._seal` is a seal and repeats the bindings.
unfoldable pub check_seal : CandidateReviewCapability → Result (Unit {0})
unfolding is_sealed
check_seal capability = elim capability.seal [
  | none ↦ err (conflict_error "candidate review capability is invalid")
  | some seal ↦
      reject_if (not (is_sealed seal capability.bound))
        (conflict_error "candidate review capability is invalid")
]

-- The bindings against the ids of the call.
unfoldable pub check_bound : Bindings → Text → Text → Text → Text → Result (Unit {0})
check_bound bound publication_key review_target_id correlation_id idempotency_key =
    reject_if
      (not (text_eq bound.publication_key publication_key)
        || not (text_eq bound.review_target_id review_target_id)
        || not (text_eq bound.correlation_id correlation_id)
        || not (text_eq bound.idempotency_key idempotency_key))
      (conflict_error "candidate review capability binding conflicts")

-- Nothing is authorized again: only the bindings are checked.
unfoldable pub validate_candidate_review_capability :
    ℕ
    → CandidateReviewCapability
    → AuthenticatedPrincipal
    → Text
    → Text
    → Text
    → Text
    → Result AuditContext
unfolding check_seal equal_principals validate_candidate_review_identity check_bound
    validate_reviewer_subject checked_audit
validate_candidate_review_capability self capability principal publication_key review_target_id
      correlation_id idempotency_key =
    elim (check_seal capability
      then_check reject_if (not (capability.bound.control_service == self))
          (conflict_error "candidate review capability authority conflicts")
      then_check reject_if (not (equal_principals principal capability.bound.principal))
          (conflict_error "candidate review principal conflicts")) [
            | err e ↦ err e
            | ok _ ↦ elim (require_scope principal) [
              | err e ↦ err e
              | ok scope ↦
                  elim (reject_if (not (equal_scopes capability.bound.scope scope))
                      (conflict_error "candidate review scope conflicts")
                    then_check validate_candidate_review_identity publication_key review_target_id
                    then_check check_bound capability.bound publication_key review_target_id
                        correlation_id idempotency_key
                    then_check validate_reviewer_subject principal.subject) [
                      | err e ↦ err e
                      | ok _ ↦
                          checked_audit principal scope review_target_id correlation_id
                            idempotency_key capability.bound.audit capability.audit_in_utc
                    ]
            ]
          ]
