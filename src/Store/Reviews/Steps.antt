-- ===== src/Store/Reviews/Steps.antt =====
-- What a call of either writer does to the review tables: nothing, or one event with the new
-- projection of its target.
use workflow_helper_public.Store.Reviews.Recorded.{
  Recorded, append_audit_event-reviews, record_new_review-Recorded,
}
use workflow_helper_public.Base.{
  ◌≡◌, true, false, Option, none, some, Result, ok, conflict_error, reject_if, lift-eq-ok,
  raise_if-eq-ok, >>=-eq-ok, not, lift, ◌>>=◌, ◌>>◌, reject_if-false, lift-ok, found_or_not, inl,
  inr,
}
use workflow_helper_public.Text.{Text, codes, text_eq}
use workflow_helper_public.Platform.{Platform, Timestamp, to_micros}
use workflow_helper_public.Json.{Fields}
use workflow_helper_public.Audit.{AuditContext, ◌then_check◌, then_check-left, then_check-right}
use workflow_helper_public.Checks.{require_text}
use workflow_helper_public.Store.Candidates.{is_candidate_review_target}
use workflow_helper_public.Store.ReviewRows.{
  ReviewEventRow, ReviewProjectionRow, ReviewEvent, review_event_from_row, find_review_key,
  find_projection,
}
use workflow_helper_public.Store.Rows.{ControlDb, append_audit_event}
use workflow_helper_public.Store.Reviews.{
  ReviewContent, put_review, replay_review, review_content, check_review, check_review_ids,
  check_review_content, append_review_event,
}
use workflow_helper_public.Store.Reviews.Lifecycle.{legal_candidate_transition}

-- An ordinary review is not of a candidate.
check_review-plain :
    (target_id idempotency_key actor_id status : Text) (provenance : Fields) {u : Unit {0}}
    → check_review target_id idempotency_key actor_id status provenance ≡ ok u
    → is_candidate_review_target target_id ≡ false
unfolding check_review check_review_ids
check_review-plain target_id idempotency_key actor_id status provenance h =
    let candidate_refused : Result (Unit {0}) = reject_if (is_candidate_review_target target_id) (
      conflict_error
        "candidate review targets require the guarded candidate lifecycle operation") in
    let texts : Result (Unit {0}) =
      require_text "target_id" target_id
      then_check require_text "idempotency_key" idempotency_key
      then_check require_text "actor_id" actor_id in
    reject_if-false (is_candidate_review_target target_id) _ (
      then_check-right texts candidate_refused (
        then_check-left (check_review_ids target_id idempotency_key actor_id)
          (check_review_content status provenance) h))

-- The status that a projection gives, `unreviewed` where there is none.
abbrev pub status_of : Option ReviewProjectionRow → Text
status_of none = codes "unreviewed"
status_of (some projection) = projection.status

abbrev pub state_of : Text → ControlDb → Text
state_of target db = status_of (find_projection target db.review_projection)

-- One call: nothing changes, or one event is recorded, which moves a candidate along its lifecycle.
pub data ReviewStep (db db' : ControlDb) : Type 0 where
  kept :
      db'.review_events ≡ db.review_events
      → db'.review_projection ≡ db.review_projection
      → ReviewStep db db'
  recorded :
      (event_id : Text) (content : ReviewContent)
      → Recorded db event_id content db'
      → (is_candidate_review_target content.target_id ≡ true
          → legal_candidate_transition (state_of content.target_id db) content.status ≡ true)
      → ReviewStep db db'

pub replay_review-kept :
    (platform : Platform) (digest : Text) (audit : Option AuditContext) (audit_event : Text)
    (existing : ReviewEventRow) (db : ControlDb) {event : ReviewEvent} {db' : ControlDb}
    → replay_review platform digest audit audit_event existing db ≡ ok (event, db')
    → (db'.review_events ≡ db.review_events) × (db'.review_projection ≡ db.review_projection)
unfolding replay_review
replay_review-kept platform digest audit audit_event existing db h =
    let (_, h1) =
      raise_if-eq-ok (not (text_eq existing.content_digest digest))
        (conflict_error "review idempotency key conflicts with stored content")
        (append_audit_event platform audit audit_event
          >> lift (review_event_from_row platform existing))
        db h in
    let (u, db_1, h2, h3) =
      >>=-eq-ok (append_audit_event platform audit audit_event)
        (λ _. lift (review_event_from_row platform existing)) db h1 in
    let (events, projection) = append_audit_event-reviews platform audit audit_event db h2 in
    let (_, last) = lift-ok (review_event_from_row platform existing) h3 in (cc, cc)

-- An ordinary append, whose target is no candidate.
put_review-ReviewStep :
    (platform : Platform) (content : ReviewContent) (audit : Option AuditContext)
    (event_id audit_event : Text) (db : ControlDb) {event : ReviewEvent} {db' : ControlDb}
    → is_candidate_review_target content.target_id ≡ false
    → put_review platform content audit event_id audit_event db ≡ ok (event, db')
    → ReviewStep db db'
unfolding put_review
put_review-ReviewStep platform content audit event_id audit_event db plain h =
    elim (found_or_not (find_review_key content.idempotency_key db.review_events) _ _ h) [
      | inl (existing, _, replay) ↦
          let (e, p) =
            replay_review-kept platform content.content_digest audit audit_event existing db
              replay in
          kept e p
      | inr (_, new) ↦
          recorded event_id content
            (record_new_review-Recorded platform event_id content audit audit_event db new).0
            (λ candidate. cc)
    ]

pub append_review_event-ReviewStep :
    (platform : Platform) (target_id idempotency_key actor_id status : Text) (provenance : Fields)
    (detail : Option Fields) (occurred_at : Timestamp) (audit : Option AuditContext)
    (event_id audit_event : Text) (db : ControlDb) {event : ReviewEvent} {db' : ControlDb}
    → append_review_event platform target_id idempotency_key actor_id status provenance detail
        occurred_at audit event_id audit_event db
      ≡ ok (event, db')
    → ReviewStep db db'
unfolding append_review_event review_content
append_review_event-ReviewStep platform target_id idempotency_key actor_id status provenance detail
      occurred_at audit event_id audit_event db h =
    let (u, checked, h1) =
      lift-eq-ok (check_review target_id idempotency_key actor_id status provenance)
        (λ _. lift (to_micros platform occurred_at) >>= λ us.
          put_review platform
            (review_content platform target_id idempotency_key actor_id status provenance detail us)
            audit event_id audit_event)
        db h in
    let (us, _, h2) =
      lift-eq-ok (to_micros platform occurred_at)
        (λ us.
          put_review platform
            (review_content platform target_id idempotency_key actor_id status provenance detail us)
            audit event_id audit_event)
        db h1 in
    put_review-ReviewStep platform
      (review_content platform target_id idempotency_key actor_id status provenance detail us) audit
      event_id audit_event db
      (check_review-plain target_id idempotency_key actor_id status provenance checked) h2
