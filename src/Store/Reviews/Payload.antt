-- ===== src/Store/Reviews/Payload.antt =====
-- `_candidate_event_payload` and `_validate_expected_prior` of control_store.py: the objects that a
-- candidate event stores, and the state that its caller saw.
pub mod Digest
use workflow_helper_public.Base.{
  ◌-◌, ◌^◌, not, ◌∷◌, Option, none, some, leb, value_error, type_error, Result, ok, err, reject_if,
}
use workflow_helper_public.Text.{Text, codes, text_eq}
use workflow_helper_public.Json.{
  Json, null, number, text, array, object, Fields, end, field, loaded, same_json,
}
use workflow_helper_public.Platform.{Platform, Timestamp, to_micros, from_micros}
use workflow_helper_public.Audit.{contains, ◌then_check◌}
use workflow_helper_public.Store.Candidates.{is_uuid}
use workflow_helper_public.Store.ReviewRows.{review_content_digest}
use workflow_helper_public.Store.Reviews.Keys.{validate_review_provenance}
use workflow_helper_public.Store.Reviews.Lifecycle.{
  review_statuses, ReviewPosition, text_or_null, refuse,
}
use workflow_helper_public.Store.Reviews.Request.{CandidateReview, CheckedReview}

-- The prior state that an event names.
pub record ExpectedPrior : Type 0 where
  pub state : Option Json
  pub version : Option Json
  pub event_id : Option Json

abbrev pub or_default : Option Json → Json → Json
or_default none default = default
or_default (some value) default = value

-- `value in {...}`; a list or an object cannot be hashed.
check_prior_state : Json → Result (Unit {0})
unfolding text_eq
check_prior_state (text value) =
    reject_if (not (contains (codes "unreviewed" ∷ review_statuses) value))
      (value_error "expected_prior_state is invalid")
check_prior_state (array items) = err (type_error "unhashable type")
check_prior_state (object fields) = err (type_error "unhashable type")
check_prior_state _ = err (value_error "expected_prior_state is invalid")

check_prior_version : Json → Result (Unit {0})
check_prior_version (number n) =
    reject_if (not (leb n (2 ^ 63 - 1))) (value_error "expected_prior_version is invalid")
check_prior_version _ = err (value_error "expected_prior_version is invalid")

check_prior_event : Json → Result (Unit {0})
unfolding is_uuid
check_prior_event null = ok tt
check_prior_event (text value) =
    reject_if (not (is_uuid value)) (value_error "expected_prior_event_id is invalid")
check_prior_event _ = err (value_error "expected_prior_event_id is invalid")

-- What both objects of an event carry, before the fields of `rest`.
bindings :
    Platform → CandidateReview → CheckedReview → Json → Json → Json → Timestamp → Fields → Fields
bindings platform call checked state version event_id occurred_at rest =
    field (codes "scope") (text checked.scope_key) (
      field (codes "publication_key") (text call.publication_key) (
        field (codes "review_target_id") (text checked.selected_target) (
          field (codes "schema_version") (text call.schema_version) (
            field (codes "candidate_id") (text checked.selected_skill_id) (
              field (codes "skill_id") (text checked.selected_skill_id) (
                field (codes "content_sha256") (text call.content_sha256) (
                  field (codes "full_sha256") (text call.full_sha256) (
                    field (codes "source_result_sha256") (text call.source_result_sha256) (
                      field (codes "destination_status") (text checked.selected_status) (
                        field (codes "expected_prior_state") state (
                          field (codes "expected_prior_version") version (
                            field (codes "expected_prior_event_id") event_id (
                              field (codes "reviewer_id") (text call.actor_id) (
                                field (codes "server_reviewer_id") (text call.actor_id) (
                                  field (codes "server_utc_time")
                                    (text (platform.iso_of occurred_at.instant))
                                    (field (codes "qualified_idempotency_key")
                                      (text checked.qualified_key) rest))))))))))))))))

-- The provenance and the detail of an event of the lifecycle.
lifecycle_objects :
    Platform
    → CandidateReview
    → CheckedReview
    → Json
    → Json
    → Json
    → Json
    → Json
    → Timestamp
    → Fields × Fields
unfolding bindings
lifecycle_objects platform call checked reason evidence state version event_id occurred_at = (
  field (codes "source") (text (codes "candidate_publication_review")) (
      field (codes "artifact_id") (text call.publication_key) (
        field (codes "revision") (text call.schema_version) (
          field (codes "sha256") (text call.content_sha256)
            (bindings platform call checked state version event_id occurred_at end)))),
  field (codes "lifecycle_schema_version") (text (codes "138.1")) (
      field (codes "status") (text checked.selected_status) (
        field (codes "reason") reason (
          field (codes "evidence") evidence
            (bindings platform call checked state version event_id occurred_at end)))),
)

-- The two objects, the older shape passed through.
event_objects :
    Platform
    → CandidateReview
    → CheckedReview
    → Json
    → Json
    → ExpectedPrior
    → Timestamp
    → Result (Fields × Fields)
unfolding lifecycle_objects check_prior_state check_prior_version check_prior_event
event_objects platform call checked reason evidence prior occurred_at = elim checked.legacy [
  | some objects ↦ ok objects
  | none ↦
      let state = or_default prior.state (text (codes "unreviewed")) in
      let version = or_default prior.version (number 0) in
      let event_id = or_default prior.event_id null in
      elim (check_prior_state state
        then_check check_prior_version version
        then_check check_prior_event event_id) [
          | err e ↦ err e
          | ok _ ↦ ok (
              lifecycle_objects platform call checked reason evidence state version event_id
                occurred_at)
        ]
]

-- `_candidate_event_payload`: the digest, and the objects as they are read back.
unfoldable pub candidate_event_payload :
    Platform
    → CandidateReview
    → CheckedReview
    → Json
    → Json
    → ExpectedPrior
    → Timestamp
    → Result (Text × (Fields × Fields))
unfolding event_objects validate_review_provenance review_content_digest loaded
candidate_event_payload platform call checked reason evidence prior occurred_at =
    elim (event_objects platform call checked reason evidence prior occurred_at) [
      | err e ↦ err e
      | ok (provenance, detail) ↦ elim (validate_review_provenance provenance) [
        | err e ↦ err e
        | ok _ ↦ ok (
          review_content_digest platform checked.qualified_target call.actor_id
              checked.selected_status provenance detail,
          (loaded provenance, loaded detail),
        )
      ]
    ]

-- `_validate_expected_prior`
unfoldable pub validate_expected_prior : ReviewPosition → Json → Json → Json → Result (Unit {0})
unfolding same_json
validate_expected_prior current state version event_id =
    refuse "candidate review expected prior state conflicts"
      (not (same_json state (text current.state)))
    then_check refuse "candidate review expected prior version conflicts"
        (not (same_json version (number current.version)))
    then_check refuse "candidate review expected prior event conflicts"
        (not (same_json event_id (text_or_null current.event_id)))

-- `_resolve_review_time`
unfoldable pub resolve_review_time : Platform → Option Timestamp → Timestamp → Result Timestamp
resolve_review_time platform explicit clock = elim (to_micros platform (chosen explicit)) [
  | err e ↦ err (value_error "candidate review timestamp must be timezone-aware")
  | ok us ↦ ok (from_micros platform us)
]
  where
    chosen : Option Timestamp → Timestamp
    chosen none = clock
    chosen (some value) = value
