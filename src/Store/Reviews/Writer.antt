-- ===== src/Store/Reviews/Writer.antt =====
-- `append_candidate_review_event` of control_store.py, the one writer of candidate reviews: one
-- transition of the lifecycle, against the projection that the caller saw. `clock` is what
-- `datetime.now(UTC)` gives.
pub mod Replay
use workflow_helper_public.Base.{
  Bool, true, false, List, ℕ, ◌&&◌, ◌||◌, not, Option, none, some, ◌==◌, if◌then◌else◌, length, ltb,
  any, conflict_error, Result, ok, err, Tx, ◌>>=◌, ◌>>◌, lift, raise_if, is_some,
}
use workflow_helper_public.Text.{Text, codes, text_eq}
use workflow_helper_public.Json.{Json, null, text, number, Fields, get_field}
use workflow_helper_public.Platform.{Platform, Timestamp, to_micros, from_micros}
use workflow_helper_public.Store.ReviewRows.{
  ReviewEventRow, ReviewProjectionRow, ReviewEvent, review_event_from_row, find_review_key,
  target_events, find_projection,
}
use workflow_helper_public.Store.Rows.{ControlDb}
use workflow_helper_public.Store.Reviews.{ReviewContent, record_new_review}
use workflow_helper_public.Store.Reviews.Lifecycle.{
  ReviewPosition, unreviewed, legal_candidate_transition, text_or_null,
}
use workflow_helper_public.Store.Reviews.Chain.{validate_candidate_projection}
use workflow_helper_public.Store.Reviews.Request.{
  CandidateReview, CheckedReview, first_given, check_candidate,
}
use workflow_helper_public.Store.Reviews.Payload.{
  ExpectedPrior, or_default, candidate_event_payload, validate_expected_prior, resolve_review_time,
}

abbrev ambiguous : Result (Unit {0})
ambiguous = err (conflict_error "candidate review authority is ambiguous")

-- The stored chain of an event that is answered again.
unfoldable pub check_replayed : Platform → ReviewEventRow → ControlDb → Result (Unit {0})
unfolding find_projection target_events text_eq validate_candidate_projection
check_replayed platform existing db =
    let history = target_events existing.target_id db.review_events in
    elim (find_projection existing.target_id db.review_projection) [
      | none ↦ ambiguous
      | some projection ↦
          if any (λ row. text_eq row.event_id existing.event_id) history
          then validate_candidate_projection platform db.review_events projection history
          else ambiguous
    ]

-- What the caller left out is taken from the stored event; the older shape takes nothing from it.
replayed : CheckedReview → ReviewEventRow → Text → Option Json → Option Json
unfolding get_field
replayed checked existing name given =
    if is_some checked.legacy then given else first_given given (get_field name existing.detail)

replayed_prior : CandidateReview → CheckedReview → ReviewEventRow → ExpectedPrior
unfolding replayed
replayed_prior call checked existing = record {
  state = replayed checked existing (codes "expected_prior_state") call.expected_prior_state;
  version = replayed checked existing (codes "expected_prior_version") call.expected_prior_version;
  event_id =
      replayed checked existing (codes "expected_prior_event_id") call.expected_prior_event_id;
}

-- `evidence_value` where evidence was given, and the stored one where it was not.
replayed_evidence : CandidateReview → CheckedReview → ReviewEventRow → Json
unfolding replayed
replayed_evidence call checked existing = elim call.evidence [
  | some _ ↦ checked.evidence_value
  | none ↦ or_default (replayed checked existing (codes "evidence") none) checked.evidence_value
]

abbrev given_or : Option Timestamp → Timestamp → Timestamp
given_or none other = other
given_or (some value) other = value

-- What is answered to a known key: the stored event of an exact retry.
unfoldable pub replayed_event :
    Platform → CandidateReview → CheckedReview → ReviewEventRow → ControlDb → Result ReviewEvent
unfolding replayed replayed_prior replayed_evidence candidate_event_payload check_replayed text_eq
    review_event_from_row
replayed_event platform call checked existing db =
    let reason = or_default (replayed checked existing (codes "reason") call.reason) null in
    let time = given_or checked.explicit_time (from_micros platform existing.occurred_at) in
    elim (candidate_event_payload platform call checked reason
      (replayed_evidence call checked existing) (replayed_prior call checked existing) time) [
        | err e ↦ err e
        | ok payload ↦
            if not (text_eq existing.content_digest payload.0)
            then err
                (conflict_error "candidate review idempotency key conflicts with stored content")
            else elim (check_replayed platform existing db) [
              | err e ↦ err e
              | ok _ ↦ review_event_from_row platform existing
            ]
      ]

-- A known key: nothing is written.
unfoldable pub replay_candidate :
    Platform → CandidateReview → CheckedReview → ReviewEventRow → Tx ControlDb ReviewEvent
unfolding replayed_event
replay_candidate platform call checked existing db =
    lift (replayed_event platform call checked existing db) db

abbrev pub position_of : ReviewProjectionRow → ReviewPosition
position_of projection = record {
  state = projection.status;
  version = projection.version;
  event_id = some projection.last_event_id;
}

-- A position, unless the projection is corrupt or its chain is not valid.
abbrev pub position_if : Bool → Result (Unit {0}) → ReviewPosition → Result ReviewPosition
position_if true valid position = err (conflict_error "candidate review projection is corrupt")
position_if false (err e) position = err e
position_if false (ok _) position = ok position

-- The position of a projection, once the stored chain is checked.
unfoldable pub checked_position :
    Platform
    → List ReviewEventRow
    → List ReviewEventRow
    → Option ReviewProjectionRow
    → Result ReviewPosition
unfolding validate_candidate_projection text_eq
checked_position platform rows prior_events none =
    if ltb 0 (length prior_events)
    then err (conflict_error "candidate review authority is ambiguous")
    else ok unreviewed
checked_position platform rows prior_events (some projection) =
    position_if
      (length prior_events == 0
        || not (length prior_events == 1) && text_eq projection.status (codes "unreviewed"))
      (validate_candidate_projection platform rows projection prior_events) (position_of projection)

-- Where the candidate stands.
unfoldable pub current_position : Platform → Text → ControlDb → Result ReviewPosition
unfolding find_projection target_events checked_position
current_position platform target db =
    checked_position platform db.review_events (target_events target db.review_events)
      (find_projection target db.review_projection)

-- The state that the caller expects, the current one where it names none.
abbrev pub resolved : CandidateReview → ReviewPosition → ExpectedPrior
resolved call current = record {
  state = some (or_default call.expected_prior_state (text current.state));
  version = some (or_default call.expected_prior_version (number current.version));
  event_id = some (or_default call.expected_prior_event_id (text_or_null current.event_id));
}

abbrev pub candidate_content :
    CandidateReview → CheckedReview → Text × (Fields × Fields) → ℕ → ReviewContent
candidate_content call checked payload occurred_us = record {
  target_id = checked.qualified_target;
  idempotency_key = checked.qualified_key;
  content_digest = payload.0;
  actor_id = call.actor_id;
  status = checked.selected_status;
  provenance = payload.1.0;
  detail = payload.1.1;
  occurred_at = occurred_us;
}

-- The rows that a checked transition writes, and the event as it is read back.
unfoldable pub write_candidate :
    Platform
    → CandidateReview
    → CheckedReview
    → ReviewPosition
    → Timestamp
    → Text
    → Text
    → Tx ControlDb ReviewEvent
unfolding candidate_event_payload record_new_review
write_candidate platform call checked current event_time event_id audit_event = do
  payload ← lift (
      candidate_event_payload platform call checked (or_default call.reason null)
        checked.evidence_value (resolved call current) event_time)
  occurred_us ← lift (to_micros platform event_time)
  record_new_review platform (candidate_content call checked payload occurred_us) call.audit
      event_id audit_event

-- A new key: one legal transition from the state that the caller expects.
unfoldable pub record_candidate :
    Platform → Timestamp → CandidateReview → CheckedReview → Text → Text → Tx ControlDb ReviewEvent
unfolding current_position validate_expected_prior legal_candidate_transition resolve_review_time
    write_candidate
record_candidate platform clock call checked event_id audit_event db =
    (do
      current ← lift (current_position platform checked.qualified_target db)
      lift (
          validate_expected_prior current
            (or_default call.expected_prior_state (text current.state))
            (or_default call.expected_prior_version (number current.version))
            (or_default call.expected_prior_event_id (text_or_null current.event_id)))
      raise_if (not (legal_candidate_transition current.state checked.selected_status))
          (conflict_error "candidate review transition is not legal")
      event_time ← lift (resolve_review_time platform checked.explicit_time clock)
      write_candidate platform call checked current event_time event_id audit_event)
      db

-- The transaction, once the arguments are checked.
unfoldable pub put_candidate :
    Platform → Timestamp → CandidateReview → CheckedReview → Text → Text → Tx ControlDb ReviewEvent
unfolding find_review_key replay_candidate record_candidate
put_candidate platform clock call checked event_id audit_event db =
    elim (find_review_key checked.qualified_key db.review_events) [
      | some existing ↦ replay_candidate platform call checked existing db
      | none ↦ record_candidate platform clock call checked event_id audit_event db
    ]

-- `append_candidate_review_event`; `event_id` and `audit_event` are what `uuid4()` gives.
unfoldable pub append_candidate_review_event :
    Platform → Timestamp → CandidateReview → Text → Text → Tx ControlDb ReviewEvent
unfolding check_candidate put_candidate
append_candidate_review_event platform clock call event_id audit_event = do
  checked ← lift (check_candidate platform call)
  put_candidate platform clock call checked event_id audit_event
