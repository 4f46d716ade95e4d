-- ===== src/Store/Reviews.antt =====
-- The ordinary reviews of control_store.py: one event per decision, and a projection of each
-- target's last one. The candidate reviews share both tables and are in `Lifecycle`, their reading,
-- and in `Writer`.
pub mod Keys
pub mod Lifecycle
pub mod Chain
pub mod Reading
pub mod Request
pub mod Payload
pub mod Writer
pub mod Steps
pub mod Recorded
pub mod Transitions
pub mod Calls
pub mod Projection
pub mod Decided
pub mod History
pub mod Accepted
pub mod Repeated
pub mod Paging
mod Tests
use workflow_helper_public.Base.{
  ℕ, ◌+◌, Bool, false, ◌||◌, not, List, [], ◌∷◌, ◌++◌, Option, none, some, length, value_error,
  conflict_error, integrity_error, Result, reject_if, Tx, ◌>>=◌, ◌>>◌, pure, gets, lift, modify,
  raise_if, replace, is_some,
}
use workflow_helper_public.Text.{Text, codes, text_eq, is_blank}
use workflow_helper_public.Json.{Json, text, Fields, end, get_field, loaded}
use workflow_helper_public.Platform.{Platform, Timestamp, to_micros}
use workflow_helper_public.Checks.{require_text, is_sha256}
use workflow_helper_public.Audit.{AuditContext, contains, ◌then_check◌}
use workflow_helper_public.Store.Reviews.Keys.{is_present}
use workflow_helper_public.Store.Reviews.Lifecycle.{review_statuses}
use workflow_helper_public.Store.Candidates.{is_candidate_review_target}
use workflow_helper_public.Store.ReviewRows.{
  ReviewEventRow, ReviewProjectionRow, ReviewEvent, review_content_digest, review_event_from_row,
  find_review_key, find_review_event, find_projection,
}
use workflow_helper_public.Store.Rows.{ControlDb, append_audit_event}

-- `isinstance(value, str) and _SHA256_PATTERN.fullmatch(value)`
unfoldable pub is_digest : Option Json → Bool
unfolding is_sha256
is_digest (some (text value)) = is_sha256 value
is_digest _ = false

-- The checks that an append makes of its identifiers.
unfoldable check_review_ids : Text → Text → Text → Result (Unit {0})
unfolding require_text
check_review_ids target_id idempotency_key actor_id =
    require_text "target_id" target_id
    then_check require_text "idempotency_key" idempotency_key
    then_check require_text "actor_id" actor_id
    then_check reject_if (is_candidate_review_target target_id) (
        conflict_error "candidate review targets require the guarded candidate lifecycle operation")

-- Those that it makes of the status and of the provenance.
unfoldable check_review_content : Text → Fields → Result (Unit {0})
unfolding is_present is_digest get_field text_eq
check_review_content status provenance =
    reject_if (not (contains review_statuses status)) (value_error "unsupported review status")
    then_check reject_if (not (is_present (get_field (codes "source") provenance)))
        (value_error "provenance.source is required")
    then_check reject_if (not (is_present (get_field (codes "artifact_id") provenance)))
        (value_error "provenance.artifact_id is required")
    then_check reject_if (not (is_present (get_field (codes "revision") provenance)))
        (value_error "provenance.revision is required")
    then_check reject_if (not (is_digest (get_field (codes "sha256") provenance)))
        (value_error "provenance.sha256 must be a lowercase SHA-256 digest")

-- All the checks of the arguments, in the source's order.
unfoldable check_review : Text → Text → Text → Text → Fields → Result (Unit {0})
unfolding check_review_ids check_review_content
check_review target_id idempotency_key actor_id status provenance =
    check_review_ids target_id idempotency_key actor_id
    then_check check_review_content status provenance

-- What one event says, without its place in the table.
pub record ReviewContent : Type 0 where
  pub target_id : Text
  pub idempotency_key : Text
  pub content_digest : Text
  pub actor_id : Text
  pub status : Text
  pub provenance : Fields
  pub detail : Fields
  pub occurred_at : ℕ

unfoldable pub review_row : Text → ReviewContent → ℕ → ReviewEventRow
review_row event_id content sequence = record {
  sequence = sequence;
  event_id = event_id;
  target_id = content.target_id;
  idempotency_key = content.idempotency_key;
  content_digest = content.content_digest;
  actor_id = content.actor_id;
  status = content.status;
  provenance = content.provenance;
  detail = content.detail;
  occurred_at = content.occurred_at;
}

-- `insert into review_events`: the event's id and key are unique and its status is a known one.
unfoldable pub insert_review_event : Text → ReviewContent → Tx ControlDb ReviewEventRow
unfolding find_review_event find_review_key
insert_review_event event_id content = do
  refused ← gets λ db.
      is_some (find_review_event event_id db.review_events)
      || is_some (find_review_key content.idempotency_key db.review_events)
      || not (contains review_statuses content.status)
  raise_if refused (integrity_error "review_events")
  sequence ← gets λ db. length db.review_events + 1
  modify λ db. record db {
    review_events = db.review_events ++ review_row event_id content sequence ∷ [];
  }
  pure (review_row event_id content sequence)

-- The projection of a target after an event, of the version that follows the prior one's.
unfoldable pub next_projection : Option ReviewProjectionRow → ReviewEventRow → ReviewProjectionRow
next_projection prior event = record {
  target_id = event.target_id;
  status = event.status;
  version = elim prior [ none ↦ 1 | some projection ↦ projection.version + 1 ];
  last_event_id = event.event_id;
  actor_id = event.actor_id;
  provenance = event.provenance;
  detail = event.detail;
  occurred_at = event.occurred_at;
}

-- `insert into review_projection ... on conflict(target_id) do update`
unfoldable pub upsert_projection :
    ReviewProjectionRow → List ReviewProjectionRow → List ReviewProjectionRow
unfolding find_projection
upsert_projection new rows = elim (find_projection new.target_id rows) [
  | none ↦ rows ++ new ∷ []
  | some prior ↦ replace (λ row. text_eq row.target_id new.target_id) new rows
]

-- The new event and the new projection of its target: what both writers end with.
unfoldable pub record_review : Text → ReviewContent → Tx ControlDb ReviewEventRow
unfolding insert_review_event find_projection next_projection upsert_projection
record_review event_id content = do
  event ← insert_review_event event_id content
  prior ← gets λ db. find_projection content.target_id db.review_projection
  modify λ db. record db {
    review_projection = upsert_projection (next_projection prior event) db.review_projection;
  }
  pure event

-- A known key: the same content is answered again, another content is a conflict.
unfoldable pub replay_review :
    Platform → Text → Option AuditContext → Text → ReviewEventRow → Tx ControlDb ReviewEvent
unfolding append_audit_event review_event_from_row
replay_review platform content_digest audit audit_event existing = do
  raise_if (not (text_eq existing.content_digest content_digest))
      (conflict_error "review idempotency key conflicts with stored content")
  append_audit_event platform audit audit_event
  lift (review_event_from_row platform existing)

-- A new key.
unfoldable pub record_new_review :
    Platform → ReviewContent → Option AuditContext → Text → Text → Tx ControlDb ReviewEvent
unfolding record_review append_audit_event review_event_from_row
record_new_review platform content audit event_id audit_event = do
  event ← record_review event_id content
  append_audit_event platform audit audit_event
  lift (review_event_from_row platform event)

abbrev pub or_empty : Option Fields → Fields
or_empty none = end
or_empty (some fields) = fields

-- The content that the arguments make; both objects go through their canonical text.
unfoldable pub review_content :
    Platform → Text → Text → Text → Text → Fields → Option Fields → ℕ → ReviewContent
unfolding review_content_digest loaded
review_content platform target_id idempotency_key actor_id status provenance detail occurred_us =
    record {
      target_id = target_id;
      idempotency_key = idempotency_key;
      content_digest =
          review_content_digest platform target_id actor_id status (loaded provenance)
            (loaded (or_empty detail));
      actor_id = actor_id;
      status = status;
      provenance = loaded provenance;
      detail = loaded (or_empty detail);
      occurred_at = occurred_us;
    }

-- The transaction of an append: `select * from review_events where idempotency_key = ?` and what
-- follows from it.
unfoldable pub put_review :
    Platform → ReviewContent → Option AuditContext → Text → Text → Tx ControlDb ReviewEvent
unfolding find_review_key replay_review record_new_review
put_review platform content audit event_id audit_event db =
    elim (find_review_key content.idempotency_key db.review_events) [
      | some existing ↦ replay_review platform content.content_digest audit audit_event existing db
      | none ↦ record_new_review platform content audit event_id audit_event db
    ]

-- `append_review_event`. `occurred_at` is the argument, or the clock's reading where it is left
-- out; `event_id` and `audit_event` are what `uuid4()` gives.
unfoldable pub append_review_event :
    Platform
    → Text
    → Text
    → Text
    → Text
    → Fields
    → Option Fields
    → Timestamp
    → Option AuditContext
    → Text
    → Text
    → Tx ControlDb ReviewEvent
unfolding check_review review_content put_review
append_review_event platform target_id idempotency_key actor_id status provenance detail occurred_at
      audit event_id audit_event =
    do
      lift (check_review target_id idempotency_key actor_id status provenance)
      occurred_us ← lift (to_micros platform occurred_at)
      put_review platform
          (review_content platform target_id idempotency_key actor_id status provenance detail
            occurred_us)
          audit event_id audit_event
