-- ===== src/Retention/Rows.antt =====
-- The tables of retention_store.py, its argument checks and the states that it returns.
use workflow_helper_public.Base.{
  ℕ, ◌+◌, Bool, true, false, not, ◌&&◌, ◌||◌, List, [], ◌∷◌, ◌++◌, Option, none, some, ltb,
  if◌then◌else◌, find, select, any, length, String, value_error, conflict_error,
  control_store_error, integrity_error, Result, ok, err, reject_if, Tx, ◌>>=◌, ◌>>◌, gets, modify,
  raise_if, require_row, pure,
}
use workflow_helper_public.Text.{Text, codes, text_eq, is_blank}
use workflow_helper_public.Text.Order.{sort_by}
use workflow_helper_public.Json.{Json, canonical_json}
use workflow_helper_public.Json
use workflow_helper_public.Platform.{Platform, Timestamp, from_micros}
use workflow_helper_public.Audit.{
  AuditContext, AuditEventRow, append_valid, contains, is_sorted_unique, control_audit_actions,
  control_audit_roles, ◌then_check◌,
}

-- `DEFAULT_RAW_RETENTION_DAYS`
abbrev pub retention_days : ℕ
retention_days = 14

pub data CopyState : Type 0 where
  active trash_staged deleted : CopyState

abbrev pub is_active : CopyState → Bool
is_active active = true
is_active _ = false

abbrev pub is_trash_staged : CopyState → Bool
is_trash_staged trash_staged = true
is_trash_staged _ = false

abbrev pub is_deleted : CopyState → Bool
is_deleted deleted = true
is_deleted _ = false

-- A row of `retention_targets`.
pub record TargetRow : Type 0 where
  pub target_id : Text
  pub created_by : Text
  pub created_at : ℕ
  pub expires_at : ℕ
  pub legal_hold : Bool
  pub hold_reason : Option Text
  pub completed_at : Option ℕ
  pub updated_at : ℕ

-- A row of `retention_copies`.
pub record CopyRow : Type 0 where
  pub target_id : Text
  pub copy_id : Text
  pub provider : Text
  pub file_id : Text
  pub revision : Text
  pub sha256 : Text
  pub state : CopyState
  pub trash_staged_at : Option ℕ
  pub deletion_attested_at : Option ℕ
  pub deletion_receipt_sha256 : Option Text

-- A row of `retention_events`, which no statement changes or deletes.
pub record RetentionEventRow : Type 0 where
  pub sequence : ℕ
  pub event_id : Text
  pub target_id : Text
  pub copy_id : Option Text
  pub idempotency_key : Text
  pub content_digest : Text
  pub actor_id : Text
  pub event_type : Text
  pub detail_json : Text
  pub occurred_at : ℕ

pub record RetentionDb : Type 0 where
  pub targets : List TargetRow
  pub copies : List CopyRow
  pub events : List RetentionEventRow
  pub audit_events : List AuditEventRow

abbrev pub empty_db : RetentionDb
empty_db = record { targets = []; copies = []; events = []; audit_events = [] }

-- `RetentionTargetState` with its copies' rows, whose times are converted one by one.
pub record RetentionTargetState : Type 0 where
  pub target_id : Text
  pub created_by : Text
  pub created_at : Timestamp
  pub expires_at : Timestamp
  pub legal_hold : Bool
  pub hold_reason : Option Text
  pub completed_at : Option Timestamp
  pub copies : List CopyRow

-- `_require_text` of retention_store.py, which also bounds the length.
unfoldable pub require_bounded : String → Text → Result (Unit {0})
require_bounded name value =
    reject_if (is_blank value) (value_error name)
    then_check reject_if (ltb 512 (length value)) (value_error name)

abbrev pub retention_audit_actions : List Text
retention_audit_actions =
    codes "retention.register"
    ∷ codes "retention.read"
    ∷ codes "retention.hold"
    ∷ codes "retention.stage_trash"
    ∷ codes "retention.attest_delete"
    ∷ []

check_shared_roles : List Text → Result (Unit {0})
check_shared_roles [] = ok tt
check_shared_roles (role ∷ rest) =
    reject_if (not (contains (codes "retention_steward" ∷ control_audit_roles) role))
      (value_error "unsupported audit role")
    then_check check_shared_roles rest

abbrev check_key : Option Text → Result (Unit {0})
check_key none = ok tt
check_key (some key) = require_bounded "idempotency_key" key

-- `_validate_audit_context` of retention_store.py, up to the timestamp.
unfoldable pub validate_shared_audit : AuditContext → Result (Unit {0})
unfolding check_shared_roles require_bounded is_sorted_unique
validate_shared_audit audit =
    reject_if
      (not (
        contains control_audit_actions audit.action
        || contains retention_audit_actions audit.action))
      (value_error "unsupported audit action")
    then_check reject_if
        (not (text_eq audit.result (codes "accepted") || text_eq audit.result (codes "denied")))
        (value_error "unsupported audit result")
    then_check reject_if (not (is_sorted_unique audit.roles))
        (value_error "roles must be a sorted unique tuple")
    then_check check_shared_roles audit.roles
    then_check require_bounded "correlation_id" audit.correlation_id
    then_check require_bounded "subject_id" audit.subject_id
    then_check require_bounded "target_id" audit.target_id
    then_check check_key audit.idempotency_key

-- `_append_audit_event`
unfoldable pub append_audit_event :
    Platform → Option AuditContext → Text → Tx RetentionDb (Unit {0})
append_audit_event platform audit event_id db =
    elim (append_valid validate_shared_audit platform audit event_id db.audit_events) [
      | err e ↦ err e
      | ok rows ↦ ok (tt, record db { audit_events = rows })
    ]

abbrev pub optional_text : Option Text → Json
optional_text none = Json.null
optional_text (some s) = Json.text s

-- `_content_digest`
unfoldable pub content_digest : Platform → Text → Option Text → Text → Text → Json → Text
content_digest platform target_id copy_id actor_id event_type detail = platform.sha256 (
    canonical_json (
      Json.object (
        Json.field (codes "target_id") (Json.text target_id) (
          Json.field (codes "copy_id") (optional_text copy_id) (
            Json.field (codes "actor_id") (Json.text actor_id) (
              Json.field (codes "event_type") (Json.text event_type)
                (Json.field (codes "detail") detail Json.end)))))))

abbrev pub is_target : Text → TargetRow → Bool
is_target target_id row = text_eq row.target_id target_id

abbrev pub is_copy : Text → Text → CopyRow → Bool
is_copy target_id copy_id row = text_eq row.target_id target_id && text_eq row.copy_id copy_id

abbrev pub is_copy_of : Text → CopyRow → Bool
is_copy_of target_id row = text_eq row.target_id target_id

abbrev pub has_key : Text → RetentionEventRow → Bool
has_key key row = text_eq row.idempotency_key key

-- `_idempotent_replay`: whether the key was used, for the same content.
unfoldable pub idempotent_replay : Text → Text → Tx RetentionDb Bool
idempotent_replay key digest db = elim (find (has_key key) db.events) [
  | none ↦ ok (false, db)
  | some row ↦
      if text_eq row.content_digest digest
      then ok (true, db)
      else err (conflict_error "retention idempotency key conflicts with stored content")
]

-- `_target_row`
unfoldable pub target_row : Text → Tx RetentionDb TargetRow
target_row target_id db =
    require_row (find (is_target target_id) db.targets)
      (control_store_error "retention target not found") db

-- `_copy_row`
unfoldable pub copy_row : Text → Text → Tx RetentionDb CopyRow
copy_row target_id copy_id db =
    require_row (find (is_copy target_id copy_id) db.copies)
      (control_store_error "retention copy not found") db

-- `_append_retention_event`, with the unique columns of the table.
unfoldable pub append_retention_event :
    Text → Text → Option Text → Text → Text → Text → Text → Json → ℕ → Tx RetentionDb (Unit {0})
append_retention_event event_id target_id copy_id key digest actor_id event_type detail
      occurred_at =
    do
      refused ←
          gets λ db.
            any (λ row. text_eq row.event_id event_id) db.events || any (has_key key) db.events
      raise_if refused (integrity_error "retention_events")
      modify λ db. record db {
        events =
            db.events
            ++ record {
              sequence = length db.events + 1;
              event_id = event_id;
              target_id = target_id;
              copy_id = copy_id;
              idempotency_key = key;
              content_digest = digest;
              actor_id = actor_id;
              event_type = event_type;
              detail_json = canonical_json detail;
              occurred_at = occurred_at;
            }
              ∷ [];
      }

-- `_target_state`; every copy of the target, by `copy_id`.
unfoldable pub target_state : Platform → Text → Tx RetentionDb RetentionTargetState
target_state platform target_id = do
  target ← target_row target_id
  copies ←
      gets
        (λ db. sort_by (λ (row : CopyRow). row.copy_id) (select (is_copy_of target_id) db.copies))
  pure (record {
    target_id = target.target_id;
    created_by = target.created_by;
    created_at = from_micros platform target.created_at;
    expires_at = from_micros platform target.expires_at;
    legal_hold = target.legal_hold;
    hold_reason = target.hold_reason;
    completed_at = elim target.completed_at [
      | none ↦ none
      | some at ↦ some (from_micros platform at)
    ];
    copies = copies;
  })
