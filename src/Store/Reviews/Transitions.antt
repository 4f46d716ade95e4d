-- ===== src/Store/Reviews/Transitions.antt =====
-- The candidate writer's call as a step of the review tables, along the lifecycle.
use workflow_helper_public.Store.Reviews.Payload.Digest.{
  IsDigestOf, candidate_event_payload-IsDigestOf,
}
use workflow_helper_public.Store.Reviews.Recorded.{new_event, Recorded, record_new_review-Recorded}
use workflow_helper_public.Base.{
  ℕ, ◌≡◌, refl, sym, ap, true, false, Bool, not, List, [], ◌∷◌, Option, none, some, arith, length,
  Result, ok, err, ◌>>=◌, ◌>>◌, lift, raise_if, lift-eq-ok, raise_if-eq-ok, conflict_error, ◌&&◌,
  ◌||◌, ◌==◌, not-false, lift-ok, found_or_not, inl, inr,
}
use workflow_helper_public.Text.{Text, codes, text_eq}
use workflow_helper_public.Json.{null, text, number, Fields}
use workflow_helper_public.Platform.{Platform, Timestamp, to_micros}
use workflow_helper_public.Store.ReviewRows.{
  ReviewEventRow, ReviewProjectionRow, ReviewEvent, review_event_from_row, find_review_key,
  find_projection, target_events,
}
use workflow_helper_public.Store.Rows.{ControlDb}
use workflow_helper_public.Store.Reviews.{ReviewContent, record_new_review}
use workflow_helper_public.Store.Reviews.Lifecycle.{
  ReviewPosition, unreviewed, legal_candidate_transition, text_or_null,
}
use workflow_helper_public.Store.Reviews.Chain.{validate_candidate_projection}
use workflow_helper_public.Store.Reviews.Request.{CandidateReview, CheckedReview, check_candidate}
use workflow_helper_public.Store.Reviews.Payload.{
  or_default, candidate_event_payload, validate_expected_prior, resolve_review_time,
}
use workflow_helper_public.Store.Reviews.Writer.{
  replay_candidate, replayed_event, current_position, resolved, candidate_content, write_candidate,
  record_candidate, put_candidate, append_candidate_review_event, position_of, position_if,
  checked_position,
}
use workflow_helper_public.Store.Reviews.Steps.{ReviewStep, kept, recorded, state_of}

position_if-ok :
    (corrupt : Bool) (valid : Result (Unit {0})) (position current : ReviewPosition)
    → position_if corrupt valid position ≡ ok current
    → current ≡ position
position_if-ok true valid position current h = cc
position_if-ok false (err e) position current h = cc
position_if-ok false (ok _) position current h = cc

-- Which of the two the projection gives.
IsPositionOf : Option ReviewProjectionRow → ReviewPosition → Type 0
IsPositionOf none current = current ≡ unreviewed
IsPositionOf (some projection) current = current ≡ position_of projection

checked_position-of :
    (platform : Platform) (rows prior_events : List ReviewEventRow)
    (found : Option ReviewProjectionRow) (current : ReviewPosition)
    → checked_position platform rows prior_events found ≡ ok current
    → IsPositionOf found current
unfolding checked_position IsPositionOf
checked_position-of platform rows [] none current h = cc
checked_position-of platform rows (event ∷ events) none current h = ground arith
checked_position-of platform rows prior_events (some projection) current h =
    position_if-ok
      (length prior_events == 0
        || not (length prior_events == 1) && text_eq projection.status (codes "unreviewed"))
      (validate_candidate_projection platform rows projection prior_events) (position_of projection)
      current h

-- The position that the writer starts from is the stored projection's.
pub current_position-state :
    (platform : Platform) (target : Text) (db : ControlDb) (current : ReviewPosition)
    → current_position platform target db ≡ ok current
    → current.state ≡ state_of target db
unfolding current_position IsPositionOf
current_position-state platform target db current h =
    state (find_projection target db.review_projection) (
      checked_position-of platform db.review_events (target_events target db.review_events)
        (find_projection target db.review_projection) current h)
  where
    state :
        (found : Option ReviewProjectionRow)
        → IsPositionOf found current
        → current.state ≡ (elim found as (λ _. Text) [
          | none ↦ codes "unreviewed"
          | some projection ↦ projection.status
        ])
    state none e = ap (λ (p : ReviewPosition). p.state) e
    state (some projection) e = ap (λ (p : ReviewPosition). p.state) e

-- What an accepted transition did.
pub record Moved (platform : Platform) (call : CandidateReview) (checked : CheckedReview)
    (event_id : Text) (db : ControlDb) (event : ReviewEvent) (db' : ControlDb) : Type 0 where
  pub current : ReviewPosition
  pub content : ReviewContent
  pub here : current_position platform checked.qualified_target db ≡ ok current
  pub seen :
      validate_expected_prior current
        (or_default call.expected_prior_state (text current.state))
        (or_default call.expected_prior_version (number current.version))
        (or_default call.expected_prior_event_id (text_or_null current.event_id))
      ≡ ok tt
  pub legal : legal_candidate_transition current.state checked.selected_status ≡ true
  pub target : content.target_id ≡ checked.qualified_target
  pub key : content.idempotency_key ≡ checked.qualified_key
  pub status : content.status ≡ checked.selected_status
  pub actor : content.actor_id ≡ call.actor_id
  pub digest : IsDigestOf platform call.actor_id checked content.content_digest
  pub made : Recorded db event_id content db'
  pub read : review_event_from_row platform (new_event db event_id content) ≡ ok event

abbrev expected_ok : CandidateReview → ReviewPosition → Result (Unit {0})
expected_ok call current =
    validate_expected_prior current (or_default call.expected_prior_state (text current.state))
      (or_default call.expected_prior_version (number current.version))
      (or_default call.expected_prior_event_id (text_or_null current.event_id))

module _ (platform : Platform) (call : CandidateReview) (checked : CheckedReview)
    (event_id audit_event : Text) (db : ControlDb) where
  -- What the writing ends with.
  write_candidate-Recorded :
      (current : ReviewPosition) (event_time : Timestamp) {event : ReviewEvent} {db' : ControlDb}
      → write_candidate platform call checked current event_time event_id audit_event db
        ≡ ok (event, db')
      → (payload : Text × (Fields × Fields)) × (us : ℕ) × (IsDigestOf platform call.actor_id checked
          payload.0)
        × Recorded db event_id (candidate_content call checked payload us) db'
        × (review_event_from_row platform
              (new_event db event_id (candidate_content call checked payload us))
            ≡ ok event)
  unfolding write_candidate
  write_candidate-Recorded current event_time h =
      let rest = λ (payload : Text × (Fields × Fields)) (us : ℕ).
        record_new_review platform (candidate_content call checked payload us) call.audit event_id
          audit_event in
      let (payload, is_payload, h1) =
        lift-eq-ok
          (candidate_event_payload platform call checked (or_default call.reason null)
            checked.evidence_value (resolved call current) event_time)
          (λ payload. lift (to_micros platform event_time) >>= rest payload) db h in
      let (us, _, h2) = lift-eq-ok (to_micros platform event_time) (rest payload) db h1 in
      let (made, read) =
        record_new_review-Recorded platform event_id (candidate_content call checked payload us)
          call.audit audit_event db h2 in
      let digest =
        candidate_event_payload-IsDigestOf platform call checked (or_default call.reason null)
          checked.evidence_value (resolved call current) event_time is_payload in
      (payload, us, digest, made, read)

  pub record_candidate-Moved :
      (clock : Timestamp) {event : ReviewEvent} {db' : ControlDb}
      → record_candidate platform clock call checked event_id audit_event db ≡ ok (event, db')
      → Moved platform call checked event_id db event db'
  unfolding record_candidate
  record_candidate-Moved clock {event} {db'} h =
      let write = λ (current : ReviewPosition) (event_time : Timestamp).
        write_candidate platform call checked current event_time event_id audit_event in
      let timed = λ (current : ReviewPosition).
        lift {S = ControlDb} (resolve_review_time platform checked.explicit_time clock)
        >>= write current in
      let illegal = conflict_error "candidate review transition is not legal" in
      let guarded = λ (current : ReviewPosition).
        raise_if (not (legal_candidate_transition current.state checked.selected_status)) illegal
        >> timed current in
      let (current, here, h1) =
        lift-eq-ok (current_position platform checked.qualified_target db)
          (λ current. lift (expected_ok call current) >> guarded current) db h in
      let (u, seen, h2) = lift-eq-ok (expected_ok call current) (λ _. guarded current) db h1 in
      let (legal, h3) =
        raise_if-eq-ok (not (legal_candidate_transition current.state checked.selected_status))
          illegal (timed current) db h2 in
      let (event_time, _, h4) =
        lift-eq-ok (resolve_review_time platform checked.explicit_time clock) (write current) db
          h3 in
      let (payload, us, digest, made, read) = write_candidate-Recorded current event_time h4 in
      record {
        current = current;
        content = candidate_content call checked payload us;
        here = here;
        seen = seen;
        legal = not-false (legal_candidate_transition current.state checked.selected_status) legal;
        target = refl;
        key = refl;
        status = refl;
        actor = refl;
        digest = digest;
        made = made;
        read = read;
      }

  -- An exact retry writes nothing at all.
  pub replay_candidate-same :
      (existing : ReviewEventRow) {event : ReviewEvent} {db' : ControlDb}
      → replay_candidate platform call checked existing db ≡ ok (event, db')
      → db' ≡ db
  unfolding replay_candidate
  replay_candidate-same existing h =
      (lift-ok (replayed_event platform call checked existing db) h).1

  put_candidate-ReviewStep :
      (clock : Timestamp) {event : ReviewEvent} {db' : ControlDb}
      → put_candidate platform clock call checked event_id audit_event db ≡ ok (event, db')
      → ReviewStep db db'
  unfolding put_candidate
  put_candidate-ReviewStep clock h =
      elim (found_or_not (find_review_key checked.qualified_key db.review_events) _ _ h) [
        | inl (existing, _, replay) ↦
            let same = replay_candidate-same existing replay in
            kept (ap (λ (d : ControlDb). d.review_events) same)
              (ap (λ (d : ControlDb). d.review_projection) same)
        | inr (_, new) ↦
            let moved = record_candidate-Moved clock new in
            let from =
              current_position-state platform checked.qualified_target db moved.current
                moved.here in
            recorded event_id moved.content moved.made
              (λ _. rw moved.target (rw moved.status (rw (sym from) moved.legal)))
      ]

-- A call that is answered had arguments that pass the checks.
pub append_candidate-checked :
    (platform : Platform) (clock : Timestamp) (call : CandidateReview) (event_id audit_event : Text)
    (db : ControlDb) {event : ReviewEvent} {db' : ControlDb}
    → append_candidate_review_event platform clock call event_id audit_event db ≡ ok (event, db')
    → (checked : CheckedReview) × (check_candidate platform call ≡ ok checked)
      × (put_candidate platform clock call checked event_id audit_event db ≡ ok (event, db'))
unfolding append_candidate_review_event
append_candidate-checked platform clock call event_id audit_event db h =
    lift-eq-ok (check_candidate platform call)
      (λ checked. put_candidate platform clock call checked event_id audit_event) db h

pub append_candidate-ReviewStep :
    (platform : Platform) (clock : Timestamp) (call : CandidateReview) (event_id audit_event : Text)
    (db : ControlDb) {event : ReviewEvent} {db' : ControlDb}
    → append_candidate_review_event platform clock call event_id audit_event db ≡ ok (event, db')
    → ReviewStep db db'
append_candidate-ReviewStep platform clock call event_id audit_event db h =
    let (checked, _, h1) = append_candidate-checked platform clock call event_id audit_event db h in
    put_candidate-ReviewStep platform call checked event_id audit_event db clock h1
