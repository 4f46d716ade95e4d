-- ===== src/Store/Reviews/Lifecycle.antt =====
-- How control_store.py reads the review of a candidate: the whole chain of its events is checked
-- against the projection before anything of it is shown.
use workflow_helper_public.Base.{
  ℕ, Bool, false, ◌||◌, not, List, [], ◌∷◌, ◌++◌, Option, none, some, String, ◌==◌, if◌then◌else◌,
  any, conflict_error, Result, ok, err, reject_if,
}
use workflow_helper_public.Text.{Text, codes, text_eq}
use workflow_helper_public.Json.{Json, null, text, number, has_field, field_or_null, same_json}
use workflow_helper_public.Platform.{Platform, from_micros}
use workflow_helper_public.Checks.{is_sha256}
use workflow_helper_public.Audit.{contains, ◌then_check◌}
use workflow_helper_public.Store.Candidates.{candidate_target, is_reviewer_id, publication_skill}
use workflow_helper_public.Store.ReviewRows.{ReviewEventRow}
use workflow_helper_public.Store.Reviews.Keys.{
  valid_scope_key, qualify_scope_key, candidate_idempotency_key, validate_review_provenance,
  is_review_reason, bounded_review_value,
}

abbrev pub review_statuses : List Text
review_statuses = codes "pending" ∷ codes "approved" ∷ codes "rejected" ∷ codes "needs_changes" ∷ []

-- The statuses that may follow one. `unreviewed` is the state before the first event.
abbrev destinations : Text → List Text
destinations current =
    if text_eq current (codes "unreviewed")
    then codes "pending" ∷ codes "approved" ∷ []
    else if text_eq current (codes "pending")
    then codes "approved" ∷ codes "rejected" ∷ codes "needs_changes" ∷ []
    else []

-- `_legal_candidate_transition`
unfoldable pub legal_candidate_transition : Text → Text → Bool
unfolding text_eq
legal_candidate_transition current destination = contains (destinations current) destination

-- Where a candidate stands between two of its events.
pub record ReviewPosition : Type 0 where
  pub state : Text
  pub version : ℕ
  pub event_id : Option Text

abbrev pub unreviewed : ReviewPosition
unreviewed = record { state = codes "unreviewed"; version = 0; event_id = none }

abbrev pub text_or_null : Option Text → Json
text_or_null none = null
text_or_null (some value) = text value

abbrev pub is_text : Text → Json → Bool
is_text expected (text value) = text_eq value expected
is_text expected _ = false

-- A check of a field that must hold a text.
abbrev with_text : String → Json → (Text → Result (Unit {0})) → Result (Unit {0})
with_text message (text value) check = check value
with_text message _ check = err (conflict_error message)

abbrev pub refuse : String → Bool → Result (Unit {0})
refuse message test = reject_if test (conflict_error message)

abbrev required_bindings : List Text
required_bindings =
    codes "scope"
    ∷ codes "publication_key"
    ∷ codes "review_target_id"
    ∷ codes "schema_version"
    ∷ codes "candidate_id"
    ∷ codes "skill_id"
    ∷ codes "content_sha256"
    ∷ codes "full_sha256"
    ∷ codes "source_result_sha256"
    ∷ codes "destination_status"
    ∷ codes "expected_prior_state"
    ∷ codes "expected_prior_version"
    ∷ codes "expected_prior_event_id"
    ∷ codes "reviewer_id"
    ∷ codes "server_reviewer_id"
    ∷ codes "server_utc_time"
    ∷ codes "qualified_idempotency_key"
    ∷ []

-- Whatever a check raises is reported as this conflict.
abbrev reported_as {ℓ} : String → {A : Type ℓ} → Result A → Result A
reported_as message (ok a) = ok a
reported_as message (err e) = err (conflict_error message)

-- The bindings that both objects repeat, and the four fields of the provenance.
check_bindings : ReviewEventRow → Result (Unit {0})
unfolding has_field field_or_null same_json text_eq validate_review_provenance
check_bindings event =
    let provenance : Text → Json = λ name. field_or_null name event.provenance in
    let detail : Text → Json = λ name. field_or_null name event.detail in
    refuse "candidate review lifecycle schema is corrupt"
      (not (is_text (codes "138.1") (detail (codes "lifecycle_schema_version"))))
    then_check refuse "candidate review lifecycle binding is incomplete" (
        any (λ name. not (has_field name event.provenance) || not (has_field name event.detail))
          required_bindings)
    then_check refuse "candidate review reason/evidence binding is incomplete" (
        not (has_field (codes "reason") event.detail)
        || not (has_field (codes "evidence") event.detail))
    then_check refuse "candidate review destination status is corrupt"
        (not (is_text event.status (detail (codes "status"))))
    then_check refuse "candidate review lifecycle binding conflicts"
        (any (λ name. not (same_json (provenance name) (detail name))) required_bindings)
    then_check reported_as "candidate review provenance is corrupt"
        (validate_review_provenance event.provenance)
    then_check refuse "candidate review provenance binding conflicts" (
        not (is_text (codes "candidate_publication_review") (provenance (codes "source")))
        || not (same_json (provenance (codes "artifact_id")) (detail (codes "publication_key")))
        || not (same_json (provenance (codes "revision")) (detail (codes "schema_version")))
        || not (same_json (provenance (codes "sha256")) (detail (codes "content_sha256"))))

-- `isinstance(value, str) and _SHA256_PATTERN.fullmatch(value)`
is_digest : Json → Bool
unfolding is_sha256
is_digest (text value) = is_sha256 value
is_digest _ = false

-- The bindings to the target, once its pattern gave the skill and the content's digest.
check_target : ReviewEventRow → Text → Text → Text × Text → Result (Unit {0})
unfolding field_or_null text_eq qualify_scope_key publication_skill is_digest
check_target event scope target (skill, content) =
    let detail : Text → Json = λ name. field_or_null name event.detail in
    elim (qualify_scope_key scope (codes "review_target") target) [
      | err e ↦ err e
      | ok qualified ↦
          refuse "candidate review scope binding conflicts"
            (not (text_eq qualified event.target_id))
    ]
    then_check with_text "candidate publication binding is corrupt"
        (detail (codes "publication_key"))
        (λ key. elim (publication_skill key) [
          | none ↦ err (conflict_error "candidate publication binding is corrupt")
          | some _ ↦
              refuse "candidate publication binding conflicts"
                (not (text_eq key (codes "candidate-publication:1.0:" ++ skill)))
        ])
    then_check refuse "candidate schema binding conflicts" (
        not (is_text (codes "1.0") (detail (codes "schema_version")))
        || not (is_text skill (detail (codes "candidate_id")))
        || not (is_text skill (detail (codes "skill_id"))))
    then_check refuse "candidate digest binding is corrupt" (
        not (is_digest (detail (codes "content_sha256")))
        || not (is_digest (detail (codes "full_sha256")))
        || not (is_digest (detail (codes "source_result_sha256"))))
    then_check refuse "candidate content binding conflicts"
        (not (is_text content (detail (codes "content_sha256"))))
    then_check refuse "candidate destination binding conflicts"
        (not (is_text event.status (detail (codes "destination_status"))))

-- The bindings to the events before this one, and to its reviewer.
unfoldable pub check_prior : ReviewEventRow → ReviewPosition → Result (Unit {0})
unfolding field_or_null same_json text_eq is_reviewer_id
check_prior event prior =
    let detail : Text → Json = λ name. field_or_null name event.detail in
    refuse "candidate prior state binding conflicts"
      (not (same_json (detail (codes "expected_prior_state")) (text prior.state)))
    then_check refuse "candidate prior version binding conflicts"
        (not (same_json (detail (codes "expected_prior_version")) (number prior.version)))
    then_check refuse "candidate prior event binding conflicts"
        (not (same_json (detail (codes "expected_prior_event_id")) (text_or_null prior.event_id)))
    then_check refuse "candidate reviewer binding conflicts" (
        not (is_text event.actor_id (detail (codes "reviewer_id")))
        || not (is_text event.actor_id (detail (codes "server_reviewer_id"))))
    then_check refuse "candidate reviewer identity is corrupt" (not (is_reviewer_id event.actor_id))

-- `value.endswith("Z")`
ends_with_z : Text → Bool
ends_with_z [] = false
ends_with_z (c ∷ []) = c == b'Z'
ends_with_z (c ∷ (d ∷ s)) = ends_with_z (d ∷ s)

-- The time that the server wrote is the event's, in its one spelling.
check_server_time : Platform → ReviewEventRow → Text → Result (Unit {0})
unfolding ends_with_z text_eq
check_server_time platform event server_time =
    refuse "candidate review server time is corrupt" (not (ends_with_z server_time))
    then_check elim (platform.instant_of_iso server_time) [
      | none ↦ err (conflict_error "candidate review server time is corrupt")
      | some (aware, instant) ↦
          refuse "candidate review server time is corrupt" (not aware)
          then_check refuse "candidate review server time conflicts"
              (not (platform.micros_of instant == event.occurred_at))
    ]
    then_check refuse "candidate review server time is not canonical" (
        not
          (text_eq server_time (platform.iso_of (from_micros platform event.occurred_at).instant)))

-- The key that `_candidate_idempotency_key` makes of the event's and of the one in the detail. No
-- other value than a text or `null` equals the event's key.
detail_key : Text → Text → Json → Result Text
unfolding candidate_idempotency_key
detail_key scope key null = candidate_idempotency_key scope (some key) none
detail_key scope key (text qualified) = candidate_idempotency_key scope (some key) (some qualified)
detail_key scope key _ = err (conflict_error "candidate idempotency keys conflict")

-- The idempotency key, the reason and the evidence.
check_content : ReviewEventRow → Text → Result (Unit {0})
unfolding field_or_null same_json text_eq detail_key is_review_reason bounded_review_value
check_content event scope =
    let detail : Text → Json = λ name. field_or_null name event.detail in
    let provenance : Text → Json = λ name. field_or_null name event.provenance in
    elim (detail_key scope event.idempotency_key (detail (codes "qualified_idempotency_key"))) [
      | err e ↦ err e
      | ok key ↦
          refuse "candidate idempotency binding conflicts" (not (text_eq key event.idempotency_key))
    ]
    then_check refuse "candidate idempotency binding conflicts" (
        not (
          same_json (detail (codes "qualified_idempotency_key"))
            (provenance (codes "qualified_idempotency_key"))))
    then_check refuse "candidate review reason is corrupt"
        (not (is_review_reason (detail (codes "reason"))))
    then_check elim (bounded_review_value (detail (codes "evidence"))) [
      | err e ↦ err (conflict_error "candidate review evidence is corrupt")
      | ok value ↦
          refuse "candidate review evidence is not canonical"
            (not (same_json value (detail (codes "evidence"))))
    ]

-- `_validate_candidate_lifecycle_event`
unfoldable pub validate_candidate_lifecycle_event :
    Platform → ReviewEventRow → ReviewPosition → Result (Unit {0})
unfolding check_bindings check_target check_prior check_server_time check_content field_or_null
    valid_scope_key candidate_target
validate_candidate_lifecycle_event platform event prior =
    let detail : Text → Json = λ name. field_or_null name event.detail in
    check_bindings event
    then_check with_text "candidate review scope binding is corrupt" (detail (codes "scope"))
        (λ scope.
          refuse "candidate review scope binding is corrupt" (not (valid_scope_key scope))
          then_check with_text "candidate review target binding is corrupt"
              (detail (codes "review_target_id"))
              (λ target. elim (candidate_target target) [
                | none ↦ err (conflict_error "candidate review target binding is corrupt")
                | some groups ↦ check_target event scope target groups
              ])
          then_check check_prior event prior
          then_check with_text "candidate review server time is corrupt"
              (detail (codes "server_utc_time")) (check_server_time platform event)
          then_check check_content event scope)
