-- ===== src/Store/Reviews/Recorded.antt =====
-- What recording a new review does to the tables.
use workflow_helper_public.Base.{
  ◌+◌, ◌≡◌, false, Bool, [], ◌∷◌, ◌++◌, Option, none, arith, length, ok, sym, >>=-eq-ok, Bool-cases,
  inl, inr, ◌||◌, not, lift, ◌>>◌, is_some, lift-ok, after_ok,
}
use workflow_helper_public.Text.{Text}
use workflow_helper_public.Platform.{Platform}
use workflow_helper_public.Audit.{AuditContext, append_audit, contains}
use workflow_helper_public.Store.ReviewRows.{
  ReviewEventRow, ReviewEvent, review_event_from_row, find_review_key, find_review_event,
  find_projection,
}
use workflow_helper_public.Store.Rows.{ControlDb, append_audit_event}
use workflow_helper_public.Store.Reviews.{
  review_row, ReviewContent, insert_review_event, record_review, next_projection, upsert_projection,
  record_new_review,
}
use workflow_helper_public.Store.Reviews.Lifecycle.{review_statuses}

abbrev pub new_event : ControlDb → Text → ReviewContent → ReviewEventRow
new_event db event_id content = review_row event_id content (length db.review_events + 1)

-- The tables after the event of a content that is new.
pub record Recorded (db : ControlDb) (event_id : Text) (content : ReviewContent) (db' : ControlDb)
    : Type 0 where
  pub fresh_event : find_review_event event_id db.review_events ≡ none
  pub fresh_key : find_review_key content.idempotency_key db.review_events ≡ none
  pub events : db'.review_events ≡ db.review_events ++ new_event db event_id content ∷ []
  pub projection :
      db'.review_projection
      ≡ upsert_projection
          (next_projection
            (find_projection content.target_id db.review_projection)
            (new_event db event_id content))
          db.review_projection

-- The three tests of the insert.
refused : Text → ReviewContent → ControlDb → Bool
refused event_id content db =
    is_some (find_review_event event_id db.review_events)
    || is_some (find_review_key content.idempotency_key db.review_events)
    || not (contains review_statuses content.status)

not_refused :
    (event_id : Text) (content : ReviewContent) (db : ControlDb)
    → refused event_id content db ≡ false
    → (find_review_event event_id db.review_events ≡ none)
      × (find_review_key content.idempotency_key db.review_events ≡ none)
unfolding refused
not_refused event_id content db h = ground arith

pub record_review-Recorded :
    (event_id : Text) (content : ReviewContent) (db : ControlDb) {row : ReviewEventRow}
    {db' : ControlDb}
    → record_review event_id content db ≡ ok (row, db')
    → (row ≡ new_event db event_id content) × Recorded db event_id content db'
unfolding record_review insert_review_event refused
record_review-Recorded event_id content db h = elim (Bool-cases (refused event_id content db)) [
  | inl e ↦ cc
  | inr e ↦
      let (f, k) = not_refused event_id content db e in
      (cc, record { fresh_event = f; fresh_key = k; events = cc; projection = cc })
]

-- Recording an audit event leaves the review tables as they are.
pub append_audit_event-reviews :
    (platform : Platform) (audit : Option AuditContext) (event_id : Text) (db : ControlDb)
    {u : Unit {0}} {db' : ControlDb}
    → append_audit_event platform audit event_id db ≡ ok (u, db')
    → (db'.review_events ≡ db.review_events) × (db'.review_projection ≡ db.review_projection)
unfolding append_audit_event
append_audit_event-reviews platform audit event_id db h =
    let (rows, _, kept) = after_ok (append_audit platform audit event_id db.audit_events) _ h in
    (cc, cc)

-- The tables of the recorded event are those of the database that is committed.
settled_row :
    (platform : Platform) (event_id : Text) (content : ReviewContent) (db : ControlDb)
    (row : ReviewEventRow) (db_1 db_2 : ControlDb) {event : ReviewEvent} {db' : ControlDb}
    → (row ≡ new_event db event_id content) × Recorded db event_id content db_1
    → (db_2.review_events ≡ db_1.review_events) × (db_2.review_projection ≡ db_1.review_projection)
    → lift (review_event_from_row platform row) db_2 ≡ ok (event, db')
    → Recorded db event_id content db'
      × (review_event_from_row platform (new_event db event_id content) ≡ ok event)
settled_row platform event_id content db row db_1 db_2 (same, made) (events, projection) h =
    let (read, last) = lift-ok (review_event_from_row platform row) h in
    (
      record {
        fresh_event = made.fresh_event;
        fresh_key = made.fresh_key;
        events = cc;
        projection = cc;
      },
      rw (sym same) read,
    )

-- What a writer ends with: the recorded event, its audit, and the event as it is read back.
pub record_new_review-Recorded :
    (platform : Platform) (event_id : Text) (content : ReviewContent) (audit : Option AuditContext)
    (audit_event : Text) (db : ControlDb) {event : ReviewEvent} {db' : ControlDb}
    → record_new_review platform content audit event_id audit_event db ≡ ok (event, db')
    → Recorded db event_id content db'
      × (review_event_from_row platform (new_event db event_id content) ≡ ok event)
unfolding record_new_review
record_new_review-Recorded platform event_id content audit audit_event db h =
    let (row, db_1, h1, h2) =
      >>=-eq-ok (record_review event_id content)
        (λ row.
          append_audit_event platform audit audit_event
          >> lift (review_event_from_row platform row))
        db h in
    let (u, db_2, h3, h4) =
      >>=-eq-ok (append_audit_event platform audit audit_event)
        (λ _. lift (review_event_from_row platform row)) db_1 h2 in
    settled_row platform event_id content db row db_1 db_2
      (record_review-Recorded event_id content db h1)
      (append_audit_event-reviews platform audit audit_event db_1 h3) h4

-- An event that is answered again.
