-- ===== src/Store/Reviews/Chain.antt =====
-- `_validate_candidate_projection` of control_store.py, with the older shape of one approval that
-- it still takes.
use workflow_helper_public.Base.{
  ◌+◌, Bool, false, ◌&&◌, ◌||◌, not, List, [], ◌∷◌, none, some, ◌==◌, if◌then◌else◌, length, all,
  any, conflict_error, Result, ok, err,
}
use workflow_helper_public.Text.{Text, codes, text_eq, opt_text_eq}
use workflow_helper_public.Json.{
  Json, object, Fields, has_field, field_or_null, get_field, field_count, same_json,
}
use workflow_helper_public.Platform.{Platform}
use workflow_helper_public.Audit.{contains, ◌then_check◌}
use workflow_helper_public.Store.Candidates.{
  is_candidate_review_target, is_uuid, is_reviewer_id, search_legacy_target,
}
use workflow_helper_public.Store.ReviewRows.{
  ReviewEventRow, ReviewProjectionRow, row_digest, find_review_event,
}
use workflow_helper_public.Store.Reviews.Keys.{is_present}
use workflow_helper_public.Store.Reviews.Lifecycle.{
  review_statuses, legal_candidate_transition, ReviewPosition, unreviewed,
  validate_candidate_lifecycle_event, is_text, refuse,
}

abbrev has_exactly : List Text → Fields → Bool
has_exactly names fields =
    field_count fields == length names && all (λ name. has_field name fields) names

-- `_validate_legacy_candidate_event`
unfoldable pub validate_legacy_candidate_event : ReviewEventRow → Bool
unfolding field_count has_field field_or_null get_field is_candidate_review_target
    search_legacy_target is_present is_reviewer_id text_eq
validate_legacy_candidate_event event =
    let provenance : Text → Json = λ name. field_or_null name event.provenance in
    let detail : Text → Json = λ name. field_or_null name event.detail in
    has_exactly (codes "source" ∷ codes "artifact_id" ∷ codes "revision" ∷ codes "sha256" ∷ [])
      event.provenance
    && has_exactly
        (codes "kind"
          ∷ codes "decision"
          ∷ codes "schema_version"
          ∷ codes "skill_id"
          ∷ codes "content_sha256"
          ∷ codes "approval_basis"
          ∷ [])
        event.detail
    && is_candidate_review_target event.target_id
    && elim (search_legacy_target event.target_id) [
      | none ↦ false
      | some (skill, content) ↦
          is_text (codes "candidate_skill_canonical_sha256") (provenance (codes "source"))
          && is_text skill (provenance (codes "artifact_id"))
          && is_text (codes "1.0") (provenance (codes "revision"))
          && is_text content (provenance (codes "sha256"))
          && is_text (codes "candidate_skill_approval") (detail (codes "kind"))
          && is_text (codes "approve") (detail (codes "decision"))
          && is_text (codes "1.0") (detail (codes "schema_version"))
          && is_text skill (detail (codes "skill_id"))
          && is_text content (detail (codes "content_sha256"))
          && is_present (get_field (codes "approval_basis") event.detail)
          && is_reviewer_id event.actor_id
    ]

abbrev lifecycle_markers : List Text
lifecycle_markers =
    codes "lifecycle_schema_version"
    ∷ codes "publication_key"
    ∷ codes "review_target_id"
    ∷ codes "destination_status"
    ∷ codes "expected_prior_state"
    ∷ codes "expected_prior_version"
    ∷ codes "expected_prior_event_id"
    ∷ codes "qualified_idempotency_key"
    ∷ []

-- An event of the lifecycle has its bindings checked; any other is the first and an approval.
unfoldable pub check_shape : Platform → ReviewEventRow → ReviewPosition → Result (Unit {0})
unfolding validate_candidate_lifecycle_event validate_legacy_candidate_event has_field text_eq
check_shape platform event prior =
    if any (λ name. has_field name event.detail || has_field name event.provenance)
      lifecycle_markers
    then validate_candidate_lifecycle_event platform event prior
    else refuse "candidate review event lifecycle is corrupt" (
        not (prior.version == 0)
        || not (text_eq event.status (codes "approved"))
        || not (validate_legacy_candidate_event event))

-- The row of an event is of its target, and has its id and its digest.
unfoldable pub check_row : Platform → Text → ReviewEventRow → Result (Unit {0})
unfolding text_eq is_uuid row_digest
check_row platform target_id event =
    refuse "candidate review event target is corrupt" (not (text_eq event.target_id target_id))
    then_check refuse "candidate review event id is corrupt" (not (is_uuid event.event_id))
    then_check refuse "candidate review event digest is corrupt"
        (not (text_eq event.content_digest (row_digest platform event)))

-- One round of the loop over a candidate's events.
unfoldable pub check_event : Platform → Text → ReviewEventRow → ReviewPosition → Result (Unit {0})
unfolding check_row legal_candidate_transition check_shape
check_event platform target_id event prior =
    check_row platform target_id event
    then_check refuse "candidate review event transition is corrupt"
        (not (legal_candidate_transition prior.state event.status))
    then_check check_shape platform event prior

-- Where the candidate stands after an event.
abbrev pub after : ReviewEventRow → ReviewPosition → ReviewPosition
after event prior = record {
  state = event.status;
  version = prior.version + 1;
  event_id = some event.event_id;
}

-- The loop, and where it ends.
unfoldable pub check_events :
    Platform → Text → ReviewPosition → List ReviewEventRow → Result ReviewPosition
unfolding check_event
check_events platform target_id prior [] = ok prior
check_events platform target_id prior (event ∷ events) =
    elim (check_event platform target_id event prior) [
      | err e ↦ err e
      | ok _ ↦ check_events platform target_id (after event prior) events
    ]

-- `_validate_candidate_rows`
unfoldable pub validate_candidate_rows :
    Platform → ReviewEventRow → ReviewProjectionRow → Result (Unit {0})
unfolding text_eq same_json row_digest
validate_candidate_rows platform event projection =
    refuse "candidate review target projection is corrupt"
      (not (text_eq event.target_id projection.target_id))
    then_check refuse "candidate review projection does not match event" (
        not (text_eq event.status projection.status)
        || not (text_eq event.actor_id projection.actor_id))
    then_check refuse "candidate review projection event is corrupt"
        (not (text_eq event.event_id projection.last_event_id))
    then_check refuse "candidate review projection time is corrupt"
        (not (event.occurred_at == projection.occurred_at))
    then_check refuse "candidate review projection JSON is corrupt" (
        not (same_json (object event.provenance) (object projection.provenance))
        || not (same_json (object event.detail) (object projection.detail)))
    then_check refuse "candidate review content digest is corrupt"
        (not (text_eq event.content_digest (row_digest platform event)))

-- What `_validate_candidate_projection` asks of the projection before its loop.
unfoldable pub check_projection : ReviewProjectionRow → List ReviewEventRow → Result (Unit {0})
unfolding text_eq is_candidate_review_target
check_projection projection events =
    refuse "candidate review event history is missing" (length events == 0)
    then_check refuse "candidate review target is corrupt"
        (not (is_candidate_review_target projection.target_id))
    then_check refuse "candidate review projection status is invalid"
        (not (contains review_statuses projection.status))
    then_check refuse "candidate review projection version is corrupt"
        (not (projection.version == length events))

-- What it asks of the event that the projection names, once the loop ended at a position.
unfoldable pub check_last_event :
    Platform → List ReviewEventRow → ReviewProjectionRow → ReviewPosition → Result (Unit {0})
unfolding text_eq validate_candidate_rows row_digest find_review_event
check_last_event platform rows projection position =
    elim (find_review_event projection.last_event_id rows) [
      | none ↦ err (conflict_error "candidate review projection event is corrupt")
      | some event ↦
          refuse "candidate review projection event is corrupt"
            (not (opt_text_eq (some event.event_id) position.event_id))
          then_check validate_candidate_rows platform event projection
          then_check refuse "candidate review event digest is corrupt"
              (not (text_eq event.content_digest (row_digest platform event)))
    ]

-- What follows the loop, from where it ended.
unfoldable pub chain_end :
    Platform → List ReviewEventRow → ReviewProjectionRow → Result ReviewPosition → Result (Unit {0})
unfolding check_last_event
chain_end platform rows projection (err e) = err e
chain_end platform rows projection (ok position) =
    check_last_event platform rows projection position

-- `_validate_candidate_projection`, over all rows of `review_events` and those of the target.
unfoldable pub validate_candidate_projection :
    Platform → List ReviewEventRow → ReviewProjectionRow → List ReviewEventRow → Result (Unit {0})
unfolding check_projection check_events chain_end
validate_candidate_projection platform rows projection events =
    check_projection projection events
    then_check chain_end platform rows projection
        (check_events platform projection.target_id unreviewed events)
