-- ===== src/Retention/Listing.antt =====
-- The reads of `RetentionLedger`: a target, the overdue ones and the events.
pub mod Overdue
use workflow_helper_public.Json.{Json}
use workflow_helper_public.Base.{
  ℕ, Bool, true, not, ◌&&◌, List, [], ◌∷◌, Option, none, some, leb, if◌then◌else◌, select, any, Tx,
  ◌>>=◌, ◌>>◌, gets, pure, lift, map,
}
use workflow_helper_public.Text.{Text, text_eq, starts_with}
use workflow_helper_public.Text.Order.{sort_by}
use workflow_helper_public.Platform.{Platform, Timestamp, to_micros, from_micros}
use workflow_helper_public.Audit.{AuditContext}
use workflow_helper_public.Retention.Rows.{
  TargetRow, RetentionEventRow, RetentionDb, RetentionTargetState, require_bounded,
  append_audit_event, is_target, target_state,
}
use workflow_helper_public.Retention.Ledger.{is_complete}

unfoldable pub get_target :
    Platform → Text → Option AuditContext → Text → Tx RetentionDb (Option RetentionTargetState)
get_target platform target_id audit audit_event = do
  lift (require_bounded "target_id" target_id)
  found ← gets (λ db. any (is_target target_id) db.targets)
  append_audit_event platform audit audit_event
  if found then (do state ← target_state platform target_id; pure (some state)) else pure none

-- `expires_at <= ? and legal_hold = 0 and completed_at is null`
unfoldable pub is_overdue : ℕ → TargetRow → Bool
is_overdue now_us row = leb row.expires_at now_us && not row.legal_hold && not (is_complete row)

unfoldable pub insert_due : TargetRow → List TargetRow → List TargetRow
insert_due x [] = x ∷ []
insert_due x (y ∷ ys) = if leb x.expires_at y.expires_at then x ∷ y ∷ ys else y ∷ insert_due x ys

-- A stable sort by `expires_at`; after a sort by `target_id` it is `order by expires_at, target_id`.
unfoldable pub by_expiry : List TargetRow → List TargetRow
unfolding insert_due
by_expiry [] = []
by_expiry (x ∷ xs) = insert_due x (by_expiry xs)

-- The targets that a listing selects, in its order.
unfoldable pub overdue_rows : (TargetRow → Bool) → ℕ → List TargetRow → List TargetRow
unfolding by_expiry
overdue_rows in_scope now_us targets = by_expiry (
    sort_by (λ (row : TargetRow). row.target_id)
      (select (λ row. in_scope row && is_overdue now_us row) targets))

unfoldable pub states : Platform → List TargetRow → Tx RetentionDb (List RetentionTargetState)
states platform [] = pure []
states platform (row ∷ rest) = do
  state ← target_state platform row.target_id
  others ← states platform rest
  pure (state ∷ others)

unfoldable pub list_overdue :
    Platform → Timestamp → Option AuditContext → Text → Tx RetentionDb (List RetentionTargetState)
unfolding states
list_overdue platform now audit audit_event = do
  now_us ← lift (to_micros platform now)
  rows ← gets (λ db. overdue_rows (λ _. true) now_us db.targets)
  append_audit_event platform audit audit_event
  states platform rows

unfoldable pub list_scoped_overdue :
    Platform
    → Text
    → Timestamp
    → Option AuditContext
    → Text
    → Tx RetentionDb (List RetentionTargetState)
unfolding states
list_scoped_overdue platform scope_prefix now audit audit_event = do
  lift (require_bounded "scope_prefix" scope_prefix)
  now_us ← lift (to_micros platform now)
  rows ← gets λ db. overdue_rows (λ row. starts_with row.target_id scope_prefix) now_us db.targets
  append_audit_event platform audit audit_event
  states platform rows

-- `RetentionEvent`
pub record RetentionEvent : Type 0 where
  pub sequence : ℕ
  pub event_id : Text
  pub target_id : Text
  pub copy_id : Option Text
  pub idempotency_key : Text
  pub actor_id : Text
  pub event_type : Text
  pub detail : Json
  pub occurred_at : Timestamp

-- What comes of `json.loads`, of texts that are JSON.
module _ (platform : Platform) (loads : Text → Json) where
  -- `_retention_event_from_row`
  abbrev retention_event_from_row : RetentionEventRow → RetentionEvent
  retention_event_from_row row = record {
    sequence = row.sequence;
    event_id = row.event_id;
    target_id = row.target_id;
    copy_id = row.copy_id;
    idempotency_key = row.idempotency_key;
    actor_id = row.actor_id;
    event_type = row.event_type;
    detail = loads row.detail_json;
    occurred_at = from_micros platform row.occurred_at;
  }

  -- Rows are kept in the order of their `sequence`.
  unfoldable pub list_events : Text → Tx RetentionDb (List RetentionEvent)
  list_events target_id = do
    lift (require_bounded "target_id" target_id)
    gets λ db.
        map retention_event_from_row
          (select (λ (row : RetentionEventRow). text_eq row.target_id target_id) db.events)
