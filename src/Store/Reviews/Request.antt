-- ===== src/Store/Reviews/Request.antt =====
-- The arguments of `append_candidate_review_event` of control_store.py, and what it checks of them
-- before its transaction. `_UNSET` is `none`; where a caller may pass any value, it is JSON.
pub mod Named
use workflow_helper_public.Base.{
  Bool, true, ◌&&◌, ◌||◌, not, Option, none, some, String, ◌==◌, if◌then◌else◌, value_error,
  conflict_error, Result, ok, err, Tx, ◌>>=◌, ◌>>◌, pure, lift, raise_if, is_some,
}
use workflow_helper_public.Text.{Text, codes, text_eq, opt_text_eq}
use workflow_helper_public.Json.{Json, null, Fields}
use workflow_helper_public.Platform.{Platform, Timestamp, to_micros}
use workflow_helper_public.Checks.{require_text, require_sha256}
use workflow_helper_public.Audit.{AuditContext, contains}
use workflow_helper_public.Store.Candidates.{
  candidate_target, is_uuid, is_reviewer_id, publication_skill,
}
use workflow_helper_public.Store.Reviews.Lifecycle.{review_statuses}
use workflow_helper_public.Store.Reviews.Keys.{
  ScopeValue, scope_key, qualify_scope_key, candidate_idempotency_key, bounded_review_value,
  bounded_review_mapping, require_candidate_publication_key, validate_review_provenance,
  is_review_reason,
}

pub record CandidateReview : Type 0 where
  pub scope : Option ScopeValue
  pub server_scope : Option ScopeValue
  pub publication_key : Text
  pub review_target_id : Option Text
  pub target_id : Option Text
  pub idempotency_key : Option Text
  pub qualified_idempotency_key : Option Text
  pub actor_id : Text
  pub status : Option Text
  pub destination_status : Option Text
  pub schema_version : Text
  pub candidate_id : Option Text
  pub skill_id : Option Text
  pub content_sha256 : Text
  pub full_sha256 : Text
  pub source_result_sha256 : Text
  pub reason : Option Json
  pub evidence : Option Json
  pub expected_prior_state : Option Json
  pub expected_prior_version : Option Json
  pub expected_prior_event_id : Option Json
  pub occurred_at : Option Timestamp
  pub now : Option Timestamp
  pub audit : Option AuditContext
  pub legacy_provenance : Option Fields
  pub legacy_detail : Option Fields

-- The local variables that the checks leave behind.
pub record CheckedReview : Type 0 where
  pub scope_key : Text
  pub selected_target : Text
  pub selected_skill_id : Text
  pub selected_status : Text
  pub qualified_target : Text
  pub qualified_key : Text
  pub legacy : Option (Fields × Fields)
  pub evidence_value : Json
  pub explicit_time : Option Timestamp

-- `first if first is not None else second`
abbrev pub first_given {ℓ} : {A : Type ℓ} → Option A → Option A → Option A
first_given (some a) second = some a
first_given none second = second

-- Two spellings of one argument, which must agree where both are given.
unfoldable pub one_of : String → Option Text → Option Text → Result (Option Text)
unfolding text_eq
one_of message (some a) (some b) = if text_eq a b then ok (some a) else err (conflict_error message)
one_of message (some a) none = ok (some a)
one_of message none second = ok second

-- `_require_text`, where `None` is no text either.
required : String → Option Text → Result Text
unfolding require_text
required name none = err (value_error name)
required name (some value) = elim (require_text name value) [ err e ↦ err e | ok _ ↦ ok value ]

abbrev given_scope : CandidateReview → Result Text
given_scope call = elim (scope_key (first_given call.scope call.server_scope)) [
  | err e ↦ err e
  | ok key ↦
      if is_some call.scope && is_some call.server_scope
      then elim (scope_key call.server_scope) [
        | err e ↦ err e
        | ok other ↦
            if text_eq other key
            then ok key
            else err (conflict_error "candidate review scope conflicts")
      ]
      else ok key
]

-- The candidate's target and its skill, which the publication key and the caller's ids share.
identity : CandidateReview → Result (Text × (Text × Text))
unfolding require_candidate_publication_key one_of required candidate_target publication_skill
    is_uuid text_eq
identity call = elim (require_candidate_publication_key call.publication_key) [
  | err e ↦ err e
  | ok _ ↦ elim (one_of "candidate review target conflicts" call.review_target_id call.target_id) [
    | err e ↦ err e
    | ok given ↦ elim (required "review_target_id" given) [
      | err e ↦ err e
      | ok target ↦ elim (candidate_target target) [
        | none ↦ err (conflict_error "candidate review target syntax is invalid")
        | some (skill, content) ↦
            if not (opt_text_eq (publication_skill call.publication_key) (some skill))
            then err (conflict_error "candidate publication and target identities conflict")
            else elim (one_of "candidate and skill identities conflict" call.skill_id
                call.candidate_id) [
                  | err e ↦ err e
                  | ok named ↦
                      if not (opt_text_eq (first_given named (some skill)) (some skill))
                        || not (is_uuid skill)
                      then err (conflict_error "candidate skill identity is invalid")
                      else ok (target, (skill, content))
                ]
      ]
    ]
  ]
]

-- The JSON objects of the older approvals, both or none.
legacy_objects : CandidateReview → Result (Option (Fields × Fields))
unfolding bounded_review_mapping validate_review_provenance
legacy_objects call = objects call.legacy_provenance call.legacy_detail
  where
    objects : Option Fields → Option Fields → Result (Option (Fields × Fields))
    objects none none = ok none
    objects (some provenance) (some detail) = elim (bounded_review_mapping provenance) [
      | err e ↦ err e
      | ok p ↦ elim (bounded_review_mapping detail) [
        | err e ↦ err e
        | ok d ↦ elim (validate_review_provenance p) [ err e ↦ err e | ok _ ↦ ok (some (p, d)) ]
      ]
    ]
    objects _ _ = err (value_error "legacy candidate event requires both JSON objects")

abbrev given_evidence : Option Json → Result Json
given_evidence none = ok null
given_evidence (some value) = bounded_review_value value

-- `occurred_at` or `now`, which must be the same instant where both are given.
given_time : Platform → Option Timestamp → Option Timestamp → Result (Option Timestamp)
given_time platform (some a) (some b) = elim (to_micros platform a) [
  | err e ↦ err e
  | ok a_us ↦ elim (to_micros platform b) [
    | err e ↦ err e
    | ok b_us ↦
        if a_us == b_us then ok (some a) else err (value_error "occurred_at and now conflict")
  ]
]
given_time platform (some a) none = ok (some a)
given_time platform none b = ok b

abbrev is_given_reason : Option Json → Bool
is_given_reason none = true
is_given_reason (some reason) = is_review_reason reason

-- The checks in the source's order, on a state that none of them reads.
check_arguments : Platform → CandidateReview → Tx (Unit {0}) CheckedReview
unfolding identity require_sha256 one_of required text_eq is_reviewer_id qualify_scope_key
    candidate_idempotency_key legacy_objects is_review_reason bounded_review_value given_time
    scope_key
check_arguments platform call = do
  key ← lift (given_scope call)
  named ← lift (identity call)
  raise_if (not (text_eq call.schema_version (codes "1.0")))
      (value_error "schema_version must be exactly \"1.0\"")
  lift (require_sha256 "content_sha256" call.content_sha256)
  lift (require_sha256 "full_sha256" call.full_sha256)
  lift (require_sha256 "source_result_sha256" call.source_result_sha256)
  raise_if (not (text_eq named.1.1 call.content_sha256))
      (conflict_error "candidate target content digest conflicts")
  destination ←
      lift (one_of "candidate destination status conflicts" call.status call.destination_status)
  status ← lift (elim destination [
    | none ↦ err (value_error "unsupported candidate review status")
    | some value ↦
        if contains review_statuses value
        then ok value
        else err (value_error "unsupported candidate review status")
  ])
  lift (require_text "actor_id" call.actor_id)
  raise_if (not (is_reviewer_id call.actor_id))
      (conflict_error "candidate reviewer identity is invalid")
  target ← lift (qualify_scope_key key (codes "review_target") named.0)
  idempotency ←
      lift (candidate_idempotency_key key call.idempotency_key call.qualified_idempotency_key)
  legacy ← lift (legacy_objects call)
  raise_if (not (is_given_reason call.reason))
      (value_error "candidate review reason is outside the bound")
  evidence ← lift (given_evidence call.evidence)
  time ← lift (given_time platform call.occurred_at call.now)
  pure (record {
    scope_key = key;
    selected_target = named.0;
    selected_skill_id = named.1.0;
    selected_status = status;
    qualified_target = target;
    qualified_key = idempotency;
    legacy = legacy;
    evidence_value = evidence;
    explicit_time = time;
  })

-- All that `append_candidate_review_event` does before its transaction.
unfoldable pub check_candidate : Platform → CandidateReview → Result CheckedReview
unfolding check_arguments
check_candidate platform call = elim (check_arguments platform call tt) [
  | err e ↦ err e
  | ok (checked, _) ↦ ok checked
]
