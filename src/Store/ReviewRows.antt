-- ===== src/Store/ReviewRows.antt =====
-- The review tables of control_store.py, and the records that are read from them.
use workflow_helper_public.Base.{
  ℕ, not, List, Option, if◌then◌else◌, find, select, control_store_error, Result, ok, err, each,
}
use workflow_helper_public.Text.{Text, codes, text_eq}
use workflow_helper_public.Json.{Fields, end, field, text, object, canonical_json}
use workflow_helper_public.Platform.{Platform, Timestamp, from_micros}

-- A row of `review_events`, with the objects that `provenance_json` and `detail_json` hold: both
-- columns are the canonical text of an object. The triggers abort every update and delete.
pub record ReviewEventRow : Type 0 where
  pub sequence : ℕ
  pub event_id : Text
  pub target_id : Text
  pub idempotency_key : Text
  pub content_digest : Text
  pub actor_id : Text
  pub status : Text
  pub provenance : Fields
  pub detail : Fields
  pub occurred_at : ℕ

-- A row of `review_projection`.
pub record ReviewProjectionRow : Type 0 where
  pub target_id : Text
  pub status : Text
  pub version : ℕ
  pub last_event_id : Text
  pub actor_id : Text
  pub provenance : Fields
  pub detail : Fields
  pub occurred_at : ℕ

pub record ReviewEvent : Type 0 where
  pub sequence : ℕ
  pub event_id : Text
  pub target_id : Text
  pub idempotency_key : Text
  pub actor_id : Text
  pub status : Text
  pub provenance : Fields
  pub detail : Fields
  pub occurred_at : Timestamp
  pub content_digest : Text

pub record ReviewProjection : Type 0 where
  pub target_id : Text
  pub status : Text
  pub version : ℕ
  pub last_event_id : Text
  pub actor_id : Text
  pub provenance : Fields
  pub detail : Fields
  pub occurred_at : Timestamp
  pub content_digest : Text

-- `_review_content_digest`
unfoldable pub review_content_digest : Platform → Text → Text → Text → Fields → Fields → Text
review_content_digest platform target_id actor_id status provenance detail = platform.sha256 (
    canonical_json (
      object (
        field (codes "target_id") (text target_id) (
          field (codes "actor_id") (text actor_id) (
            field (codes "status") (text status) (
              field (codes "provenance") (object provenance)
                (field (codes "detail") (object detail) end)))))))

-- The digest that the public fields of a row give.
unfoldable pub row_digest : Platform → ReviewEventRow → Text
unfolding review_content_digest
row_digest platform row =
    review_content_digest platform row.target_id row.actor_id row.status row.provenance row.detail

-- The record of a row, once its digest is checked.
unfoldable pub public_event : Platform → ReviewEventRow → ReviewEvent
public_event platform row = record {
  sequence = row.sequence;
  event_id = row.event_id;
  target_id = row.target_id;
  idempotency_key = row.idempotency_key;
  actor_id = row.actor_id;
  status = row.status;
  provenance = row.provenance;
  detail = row.detail;
  occurred_at = from_micros platform row.occurred_at;
  content_digest = row.content_digest;
}

-- `_review_event_from_row`
unfoldable pub review_event_from_row : Platform → ReviewEventRow → Result ReviewEvent
unfolding row_digest public_event
review_event_from_row platform row =
    if not (text_eq row.content_digest (row_digest platform row))
    then err (control_store_error "stored review event content digest is invalid")
    else ok (public_event platform row)

-- `[_review_event_from_row(row) for row in rows]`
unfoldable pub review_events_from_rows : Platform → List ReviewEventRow → Result (List ReviewEvent)
unfolding review_event_from_row
review_events_from_rows platform rows = each (review_event_from_row platform) rows

-- `_review_projection_from_row`
unfoldable pub review_projection_from_row : Platform → ReviewProjectionRow → ReviewProjection
unfolding review_content_digest
review_projection_from_row platform row = record {
  target_id = row.target_id;
  status = row.status;
  version = row.version;
  last_event_id = row.last_event_id;
  actor_id = row.actor_id;
  provenance = row.provenance;
  detail = row.detail;
  occurred_at = from_micros platform row.occurred_at;
  content_digest =
      review_content_digest platform row.target_id row.actor_id row.status row.provenance
        row.detail;
}

-- `select * from review_events where idempotency_key = ?`
unfoldable pub find_review_key : Text → List ReviewEventRow → Option ReviewEventRow
find_review_key key rows = find (λ row. text_eq row.idempotency_key key) rows

-- `select * from review_events where event_id = ?`
unfoldable pub find_review_event : Text → List ReviewEventRow → Option ReviewEventRow
find_review_event event_id rows = find (λ row. text_eq row.event_id event_id) rows

-- `select * from review_events where target_id = ? order by sequence`; the rows are in order.
unfoldable pub target_events : Text → List ReviewEventRow → List ReviewEventRow
target_events target_id rows = select (λ row. text_eq row.target_id target_id) rows

-- `select * from review_projection where target_id = ?`
unfoldable pub find_projection : Text → List ReviewProjectionRow → Option ReviewProjectionRow
find_projection target_id rows = find (λ row. text_eq row.target_id target_id) rows
