-- ===== src/Store/Reviews/Repeated.antt =====
-- An ordinary review of control_store.py may be sent again: its key answers for it.
use workflow_helper_public.Store.Reviews.Recorded.{new_event, record_new_review-Recorded}
use workflow_helper_public.Base.{
  ℕ, ◌≡◌, refl, sym, true, not, List, [], ◌∷◌, ◌++◌, Option, none, some, ok, ◌>>=◌, ◌>>◌, pure,
  lift, lift-eq-ok, raise_if-eq-ok, >>=-eq-ok, conflict_error, find-append_new, not, not-false,
  lift-ok, found_or_not, inl, inr,
}
use workflow_helper_public.Text.{Text, text_eq}
use workflow_helper_public.Text.Equality.{text_eq→eq, text_eq_refl}
use workflow_helper_public.Json.{Fields}
use workflow_helper_public.Platform.{Platform, Timestamp, to_micros}
use workflow_helper_public.Audit.{AuditContext}
use workflow_helper_public.Store.ReviewRows.{
  ReviewEventRow, ReviewEvent, review_event_from_row, find_review_key,
}
use workflow_helper_public.Store.Rows.{ControlDb, append_audit_event}
use workflow_helper_public.Store.Reviews.{
  ReviewContent, review_content, review_row, put_review, replay_review, append_review_event,
  check_review,
}
use workflow_helper_public.Store.Reviews.Steps.{replay_review-kept}

-- The event of a key is stored with a content, and reads as this event.
record Answers (platform : Platform) (db : ControlDb) (key digest : Text) (event : ReviewEvent)
    : Type 0 where
  row : ReviewEventRow
  found : find_review_key key db.review_events ≡ some row
  same : row.content_digest ≡ digest
  read : review_event_from_row platform row ≡ ok event

-- Such an event is answered again, and all that is written is the audit of the call.
answer_again :
    (platform : Platform) (content : ReviewContent) (audit : Option AuditContext)
    (event_id audit_event : Text) (db : ControlDb) (event : ReviewEvent)
    → Answers platform db content.idempotency_key content.content_digest event
    → put_review platform content audit event_id audit_event db
      ≡ (append_audit_event platform audit audit_event >> pure event) db
unfolding put_review replay_review
answer_again platform content audit event_id audit_event db event a =
    let equal : text_eq a.row.content_digest content.content_digest ≡ true =
      rw (sym a.same) (text_eq_refl a.row.content_digest) in
    rw (a.found, put_review) (rw (equal, replay_review) (rw a.read refl))

own_key :
    (db : ControlDb) (event_id : Text) (content : ReviewContent)
    → (new_event db event_id content).idempotency_key ≡ content.idempotency_key
unfolding review_row
own_key db event_id content = refl

own_digest :
    (db : ControlDb) (event_id : Text) (content : ReviewContent)
    → (new_event db event_id content).content_digest ≡ content.content_digest
unfolding review_row
own_digest db event_id content = refl

find-append_key :
    (key : Text) (rows : List ReviewEventRow) (new : ReviewEventRow)
    → find_review_key key rows ≡ none
    → new.idempotency_key ≡ key
    → find_review_key key (rows ++ new ∷ []) ≡ some new
unfolding find_review_key
find-append_key key rows new unknown own =
    find-append_new (λ (row : ReviewEventRow). text_eq row.idempotency_key key) rows new unknown
      (rw own (text_eq_refl key))

-- What is answered from a stored event.
replay_review-read :
    (platform : Platform) (digest : Text) (audit : Option AuditContext) (audit_event : Text)
    (existing : ReviewEventRow) (db : ControlDb) {event : ReviewEvent} {db' : ControlDb}
    → replay_review platform digest audit audit_event existing db ≡ ok (event, db')
    → (existing.content_digest ≡ digest) × (review_event_from_row platform existing ≡ ok event)
unfolding replay_review
replay_review-read platform digest audit audit_event existing db h =
    let (same, h1) =
      raise_if-eq-ok (not (text_eq existing.content_digest digest))
        (conflict_error "review idempotency key conflicts with stored content")
        (append_audit_event platform audit audit_event
          >> lift (review_event_from_row platform existing))
        db h in
    let (u, db_1, _, h2) =
      >>=-eq-ok (append_audit_event platform audit audit_event)
        (λ _. lift (review_event_from_row platform existing)) db h1 in
    (
      text_eq→eq existing.content_digest digest
          (not-false (text_eq existing.content_digest digest) same),
      (lift-ok (review_event_from_row platform existing) h2).0,
    )

-- What an append that is answered leaves stored.
put_review-Answers :
    (platform : Platform) (content : ReviewContent) (audit : Option AuditContext)
    (event_id audit_event : Text) (db db' : ControlDb) (event : ReviewEvent)
    → put_review platform content audit event_id audit_event db ≡ ok (event, db')
    → Answers platform db' content.idempotency_key content.content_digest event
unfolding put_review
put_review-Answers platform content audit event_id audit_event db db' event h =
    elim (found_or_not (find_review_key content.idempotency_key db.review_events) _ _ h) [
      | inl (existing, e, replay) ↦
          let (events, _) =
            replay_review-kept platform content.content_digest audit audit_event existing db
              replay in
          let (same, read) =
            replay_review-read platform content.content_digest audit audit_event existing db
              replay in
          record { row = existing; found = rw events e; same = same; read = read }
      | inr (e, new) ↦
          let (made, read) =
            record_new_review-Recorded platform event_id content audit audit_event db new in
          record {
            row = new_event db event_id content;
            found = rw made.events (
                find-append_key content.idempotency_key db.review_events
                  (new_event db event_id content) e (own_key db event_id content));
            same = own_digest db event_id content;
            read = read;
          }
    ]

-- A review that was accepted may be sent again with the same target, key, actor, status, provenance
-- and detail, at whatever time with a time zone, and with whatever audit context or none. The call
-- then does no more than append that audit context to the database as the first call left it: it
-- raises what the appending raises, and otherwise answers the same event.
pub append_review_repeated :
    (platform : Platform) (target_id idempotency_key actor_id status : Text) (provenance : Fields)
    (detail : Option Fields) (occurred_at again : Timestamp) (audit audit' : Option AuditContext)
    (event_id audit_event event_id' audit_event' : Text) (db db' : ControlDb) (event : ReviewEvent)
    → again.aware ≡ true
    → append_review_event platform target_id idempotency_key actor_id status provenance detail
        occurred_at audit event_id audit_event db
      ≡ ok (event, db')
    → append_review_event platform target_id idempotency_key actor_id status provenance detail again
        audit' event_id' audit_event' db'
      ≡ (append_audit_event platform audit' audit_event' >> pure event) db'
unfolding append_review_event review_content
append_review_repeated platform target_id idempotency_key actor_id status provenance detail
      occurred_at again audit audit' event_id audit_event event_id' audit_event' db db' event aware
      h =
    let content = λ (us : ℕ).
      review_content platform target_id idempotency_key actor_id status provenance detail us in
    let put = λ (us : ℕ). put_review platform (content us) audit event_id audit_event in
    let (u, checked, h1) =
      lift-eq-ok (check_review target_id idempotency_key actor_id status provenance)
        (λ _. lift (to_micros platform occurred_at) >>= put) db h in
    let (us, _, h2) = lift-eq-ok (to_micros platform occurred_at) put db h1 in
    let answers =
      put_review-Answers platform (content us) audit event_id audit_event db db' event h2 in
    let us' = platform.micros_of again.instant in
    rw checked (
      rw aware
        (answer_again platform (content us') audit' event_id' audit_event' db' event answers))
