-- ===== src/Store/Reviews/Tests.antt =====
-- Runs of the review operations, and the theorems about them at concrete stores.
use workflow_helper_public.Base.{
  ℕ, ◌*◌, ◌≡◌, ◌≤◌, refl, true, List, [], ◌∷◌, ◌++◌, none, some, ok, length, ◌>>◌, pure,
}
use workflow_helper_public.Text.{Text, codes, text_eq}
use workflow_helper_public.Text.Order.{text_lt}
use workflow_helper_public.Text.Decimal.{print, parse}
use workflow_helper_public.Json.{text, Fields, end, field}
use workflow_helper_public.Platform.{Platform, Timestamp, exact_platform}
use workflow_helper_public.Audit.{append_audit, append_valid, AuditContext}
use workflow_helper_public.Store.Candidates.{is_candidate_review_target}
use workflow_helper_public.Store.Rows.{ControlDb, empty_db, append_audit_event}
use workflow_helper_public.Store.ReviewRows.{
  ReviewProjectionRow, ReviewEvent, ReviewProjection, find_projection, target_events,
  find_review_key, public_event,
}
use workflow_helper_public.Store.Reviews.{append_review_event, review_row}
use workflow_helper_public.Store.Reviews.Lifecycle.{legal_candidate_transition}
use workflow_helper_public.Store.Reviews.Keys.{scope_text}
use workflow_helper_public.Store.Reviews.Reading.{get_candidate_review_projection, scoped_page}
use workflow_helper_public.Store.Reviews.Request.{CandidateReview}
use workflow_helper_public.Store.Reviews.Writer.{append_candidate_review_event}
use workflow_helper_public.Store.Reviews.Calls.{ReviewCall, ReviewArguments, review_run}
use workflow_helper_public.Store.Reviews.Projection.{summary, projection_refines_events}
use workflow_helper_public.Store.Reviews.Decided.{is_decided, decision_is_final}
use workflow_helper_public.Store.Reviews.History.{candidate_history_bounded}
use workflow_helper_public.Store.Reviews.Repeated.{append_review_repeated}

abbrev second : ℕ → Timestamp
second n = record { aware = true; instant = n * 1000 }

abbrev digest_a : Text
digest_a = codes "aaaaaaaaaaaaaaaaaaaaaaaaaaaaaaaaaaaaaaaaaaaaaaaaaaaaaaaaaaaaaaaa"

abbrev skill : Text
skill = codes "00000000-0000-4000-8000-000000000001"

abbrev candidate : Text
candidate = codes "candidate-skill:1.0:" ++ skill ++ codes ":sha256:" ++ digest_a

abbrev scope : Text
scope = codes "whscope1|4:acme4:main"

abbrev qualified : Text
qualified = scope ++ codes "13:review_target128:" ++ candidate

-- A platform whose digests are short.
abbrev platform : Platform
platform = record exact_platform { sha256 = λ value. digest_a }

abbrev call : CandidateReview
call = record {
  scope = some (scope_text scope);
  server_scope = none;
  publication_key = codes "candidate-publication:1.0:" ++ skill;
  review_target_id = some candidate;
  target_id = none;
  idempotency_key = some (codes "k1");
  qualified_idempotency_key = none;
  actor_id = codes "reviewer_one";
  status = some (codes "pending");
  destination_status = none;
  schema_version = codes "1.0";
  candidate_id = none;
  skill_id = none;
  content_sha256 = digest_a;
  full_sha256 = digest_a;
  source_result_sha256 = digest_a;
  reason = none;
  evidence = none;
  expected_prior_state = none;
  expected_prior_version = none;
  expected_prior_event_id = none;
  occurred_at = none;
  now = none;
  audit = none;
  legacy_provenance = none;
  legacy_detail = none;
}

abbrev approval : CandidateReview
approval = record call { idempotency_key = some (codes "k2"); status = some (codes "approved") }

abbrev event_1 : Text
event_1 = codes "00000000-0000-4000-8000-00000000000a"

abbrev event_2 : Text
event_2 = codes "00000000-0000-4000-8000-00000000000b"

-- The code that a run goes through.
review_code : Unit {0}
unfolding append_candidate_review_event print parse append_audit append_valid review_row review_run
    is_decided is_candidate_review_target get_candidate_review_projection append_review_event
    text_eq public_event find_review_key find_projection target_events summary scoped_page
    legal_candidate_transition text_lt
review_code = tt

abbrev pending_call : ReviewCall
pending_call = ReviewCall.candidate (second 1) call event_1 []

abbrev approval_call : ReviewCall
approval_call = ReviewCall.candidate (second 2) approval event_2 []

-- An ordinary review of a target of the scope.
abbrev reviewed : Text
reviewed = scope ++ codes "13:review_target2:s1"

abbrev provenance : Fields
provenance = field (codes "source") (text (codes "manual")) (
    field (codes "artifact_id") (text (codes "a1"))
      (field (codes "revision") (text (codes "1")) (field (codes "sha256") (text digest_a) end)))

abbrev arguments : ReviewArguments
arguments = record {
  target_id = reviewed;
  idempotency_key = codes "r1";
  actor_id = codes "reviewer_two";
  status = codes "needs_changes";
  provenance = provenance;
  detail = none;
  occurred_at = second 3;
  audit = none;
}

abbrev ordinary_call : ReviewCall
ordinary_call = ReviewCall.review arguments (codes "e3") []

-- The candidate is put up for review and approved, in an empty store.
abbrev decided_db : ControlDb
decided_db = review_run platform (pending_call ∷ approval_call ∷ []) empty_db

abbrev both : List ReviewCall
both = pending_call ∷ ordinary_call ∷ approval_call ∷ []

projection_refines_events_example :
    find_projection qualified (review_run platform both empty_db).review_projection
    ≡ summary (target_events qualified (review_run platform both empty_db).review_events)
projection_refines_events_example = projection_refines_events platform both qualified

decided_row :
    (row : ReviewProjectionRow) × (find_projection qualified decided_db.review_projection
      ≡ some row)
    × (is_decided row.status ≡ true)
unfolding review_code
decided_row = (_, refl, refl)

is_candidate : is_candidate_review_target qualified ≡ true
unfolding review_code
is_candidate = refl

decision_is_final_example :
    find_projection qualified
      (review_run platform (ordinary_call ∷ pending_call ∷ []) decided_db).review_projection
    ≡ some decided_row.0
decision_is_final_example =
    decision_is_final platform (ordinary_call ∷ pending_call ∷ []) decided_db qualified
      decided_row.0 is_candidate decided_row.1 decided_row.2

shown_projection_found :
    (shown : ReviewProjection) × (get_candidate_review_projection platform qualified decided_db
      ≡ ok (some shown))
unfolding review_code
shown_projection_found = (_, refl)

candidate_history_bounded_example :
    (shown_projection_found.0.version ≡ length (target_events qualified decided_db.review_events))
    × (shown_projection_found.0.version ≤ 2)
candidate_history_bounded_example =
    candidate_history_bounded platform qualified decided_db shown_projection_found.0
      shown_projection_found.1

reviewed_once :
    (event : ReviewEvent) × (db : ControlDb) × (append_review_event platform reviewed
        (codes "r1")
        (codes "reviewer_two")
        (codes "needs_changes")
        provenance
        none
        (second 3)
        none
        (codes "e3")
        []
        decided_db
      ≡ ok (event, db))
unfolding review_code
reviewed_once = (_, _, refl)

abbrev reviewer_audit : AuditContext
reviewer_audit = record {
  correlation_id = codes "c4";
  idempotency_key = none;
  subject_id = codes "reviewer_two";
  roles = codes "reviewer" ∷ [];
  action = codes "review.append";
  target_id = codes "reviewed";
  result = codes "accepted";
  occurred_at = second 90;
}

append_review_repeated_example :
    append_review_event platform reviewed
      (codes "r1")
      (codes "reviewer_two")
      (codes "needs_changes")
      provenance
      none
      (second 4)
      (some reviewer_audit)
      (codes "e4")
      (codes "a4")
      reviewed_once.1
    ≡ (append_audit_event platform (some reviewer_audit) (codes "a4") >> pure reviewed_once.0)
        reviewed_once.1
append_review_repeated_example =
    append_review_repeated platform reviewed (codes "r1") (codes "reviewer_two")
      (codes "needs_changes") provenance none (second 3) (second 4) none (some reviewer_audit)
      (codes "e3") [] (codes "e4") (codes "a4") decided_db reviewed_once.1 reviewed_once.0 refl
      reviewed_once.2
