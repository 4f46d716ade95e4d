-- ===== src/Store/Audits.antt =====
-- The audit events of control_store.py as they are read: the whole log, and the part of one scope
-- under its own numbers.
pub mod Numbering
pub mod Scoped
mod Tests
use workflow_helper_public.Base.{
  ℕ, suc, Bool, ◌&&◌, List, [], ◌∷◌, Option, none, some, leb, ltb, if◌then◌else◌, take, find, count,
  Result, ok, err,
}
use workflow_helper_public.Text.{Text, text_eq, starts_with}
use workflow_helper_public.Platform.{Platform, Timestamp, from_micros}
use workflow_helper_public.Checks.{require_text, require_pagination}
use workflow_helper_public.Audit.{AuditEventRow, ◌then_check◌}
use workflow_helper_public.Store.Rows.{ControlDb}

pub record AuditEvent : Type 0 where
  pub sequence : ℕ
  pub event_id : Text
  pub correlation_id : Text
  pub idempotency_key : Option Text
  pub subject_id : Text
  pub roles : List Text
  pub action : Text
  pub target_id : Text
  pub result : Text
  pub occurred_at : Timestamp

-- `_audit_event_from_row`
unfoldable pub audit_event_from_row : Platform → AuditEventRow → AuditEvent
audit_event_from_row platform row = record {
  sequence = row.sequence;
  event_id = row.event_id;
  correlation_id = row.correlation_id;
  idempotency_key = row.idempotency_key;
  subject_id = row.subject_id;
  roles = row.roles;
  action = row.action;
  target_id = row.target_id;
  result = row.result;
  occurred_at = from_micros platform row.occurred_at;
}

unfoldable pub audit_events_from_rows : Platform → List AuditEventRow → List AuditEvent
unfolding audit_event_from_row
audit_events_from_rows platform [] = []
audit_events_from_rows platform (row ∷ rows) =
    audit_event_from_row platform row ∷ audit_events_from_rows platform rows

-- `where sequence > ?`
unfoldable pub audit_beyond : ℕ → List AuditEventRow → List AuditEventRow
audit_beyond after_sequence [] = []
audit_beyond after_sequence (row ∷ rows) =
    let rest = audit_beyond after_sequence rows in
    if ltb after_sequence row.sequence then row ∷ rest else rest

-- `list_audit_events`
unfoldable pub list_audit_events : Platform → ℕ → ℕ → ControlDb → Result (List AuditEvent)
unfolding require_pagination audit_beyond audit_events_from_rows
list_audit_events platform after_sequence limit db = elim (require_pagination limit) [
  | err e ↦ err e
  | ok _ ↦
      ok
        (audit_events_from_rows platform (take limit (audit_beyond after_sequence db.audit_events)))
]

-- `get_audit_event`
unfoldable pub get_audit_event : Platform → Text → ControlDb → Result (Option AuditEvent)
unfolding require_text text_eq audit_event_from_row
get_audit_event platform event_id db = elim (require_text "event_id" event_id) [
  | err e ↦ err e
  | ok _ ↦ elim (find (λ row. text_eq row.event_id event_id) db.audit_events) [
    | none ↦ ok none
    | some row ↦ ok (some (audit_event_from_row platform row))
  ]
]

-- `substr(target_id, 1, length(?)) = ?`
unfoldable pub in_scope : Text → AuditEventRow → Bool
unfolding starts_with
in_scope scope_prefix row = starts_with row.target_id scope_prefix

-- The rows of a scope, each under its place among them: `row_number() over (order by sequence)`.
unfoldable pub scoped_rows : ℕ → Text → List AuditEventRow → List AuditEventRow
unfolding in_scope
scoped_rows first scope_prefix [] = []
scoped_rows first scope_prefix (row ∷ rows) =
    if in_scope scope_prefix row
    then record row { sequence = first } ∷ scoped_rows (suc first) scope_prefix rows
    else scoped_rows first scope_prefix rows

-- `list_scoped_audit_events`
unfoldable pub list_scoped_audit_events :
    Platform → Text → ℕ → ℕ → ControlDb → Result (List AuditEvent)
unfolding require_text require_pagination scoped_rows audit_beyond audit_events_from_rows
list_scoped_audit_events platform scope_prefix after_sequence limit db =
    elim (require_text "scope_prefix" scope_prefix then_check require_pagination limit) [
      | err e ↦ err e
      | ok _ ↦ ok (
          audit_events_from_rows platform
            (take limit (audit_beyond after_sequence (scoped_rows 1 scope_prefix db.audit_events))))
    ]

-- `select count(*) from audit_events prior where ... and prior.sequence <= current.sequence`
unfoldable pub scoped_sequence : Text → AuditEventRow → List AuditEventRow → ℕ
unfolding in_scope
scoped_sequence scope_prefix current rows =
    count (λ prior. in_scope scope_prefix prior && leb prior.sequence current.sequence) rows

-- `get_scoped_audit_event`
unfoldable pub get_scoped_audit_event :
    Platform → Text → Text → ControlDb → Result (Option AuditEvent)
unfolding require_text in_scope text_eq scoped_sequence audit_event_from_row
get_scoped_audit_event platform event_id scope_prefix db =
    elim (require_text "event_id" event_id then_check require_text "scope_prefix" scope_prefix) [
      | err e ↦ err e
      | ok _ ↦
          elim (find (λ current. text_eq current.event_id event_id && in_scope scope_prefix current)
            db.audit_events) [
              | none ↦ ok none
              | some current ↦ ok (
                  some (
                    audit_event_from_row platform (record current {
                      sequence = scoped_sequence scope_prefix current db.audit_events;
                    })))
            ]
    ]
