-- ===== src/Store/Rows.antt =====
-- The tables of control_store.py and the records that its operations return.
pub mod Lookup
use workflow_helper_public.Base.{
  ℕ, Bool, true, false, ◌&&◌, ◌||◌, not, List, [], ◌∷◌, ◌++◌, Option, none, some, ltb,
  if◌then◌else◌, find, count, any, type_error, integrity_error, job_not_found, Result, ok, err, Tx,
  ◌>>=◌, ◌>>◌, gets, modify, raise_if, require_row, length, ◌+◌, is_some,
}
use workflow_helper_public.Text.{Text, text_eq}
use workflow_helper_public.Platform.{Platform, Timestamp, from_micros}
use workflow_helper_public.Audit.{AuditContext, AuditEventRow, append_audit}
use workflow_helper_public.Store.ReviewRows.{ReviewEventRow, ReviewProjectionRow}

pub data JobState : Type 0 where
  queued leased completed : JobState

abbrev pub is_leased : JobState → Bool
is_leased leased = true
is_leased _ = false

abbrev pub is_completed : JobState → Bool
is_completed completed = true
is_completed _ = false

-- A row of `control_jobs`.
pub record JobRow : Type 0 where
  pub job_id : Text
  pub payload_digest : Text
  pub state : JobState
  pub current_owner_id : Option Text
  pub current_fencing_token : ℕ
  pub current_attempt : ℕ
  pub lease_acquired_at : Option ℕ
  pub lease_expires_at : Option ℕ
  pub heartbeat_at : Option ℕ
  pub completion_idempotency_key : Option Text
  pub completion_result_digest : Option Text
  pub completed_at : Option ℕ
  pub created_at : ℕ
  pub updated_at : ℕ

pub data LeaseEventType : Type 0 where
  acquired reacquired heartbeat completed : LeaseEventType

-- A row of `lease_events`. Its triggers abort every update and delete.
pub record LeaseEventRow : Type 0 where
  pub sequence : ℕ
  pub event_id : Text
  pub job_id : Text
  pub event_type : LeaseEventType
  pub owner_id : Text
  pub fencing_token : ℕ
  pub attempt : ℕ
  pub occurred_at : ℕ
  pub lease_expires_at : Option ℕ
  pub result_digest : Option Text

-- The database of the control store.
pub record ControlDb : Type 0 where
  pub jobs : List JobRow
  pub lease_events : List LeaseEventRow
  pub review_events : List ReviewEventRow
  pub review_projection : List ReviewProjectionRow
  pub audit_events : List AuditEventRow

abbrev pub empty_db : ControlDb
empty_db = record {
  jobs = [];
  lease_events = [];
  review_events = [];
  review_projection = [];
  audit_events = [];
}

pub record JobRecord : Type 0 where
  pub job_id : Text
  pub payload_digest : Text
  pub state : JobState
  pub created_at : Timestamp
  pub updated_at : Timestamp

pub record Lease : Type 0 where
  pub job_id : Text
  pub owner_id : Text
  pub fencing_token : ℕ
  pub attempt : ℕ
  pub acquired_at : Timestamp
  pub expires_at : Timestamp

pub record Completion : Type 0 where
  pub job_id : Text
  pub idempotency_key : Text
  pub result_digest : Text
  pub fencing_token : ℕ
  pub completed_at : Timestamp

-- The `check` constraints of `control_jobs`.
unfoldable pub job_checks : JobRow → Bool
job_checks row =
    (is_some row.current_owner_id && is_some row.lease_expires_at || not (is_leased row.state))
    && (is_some row.completion_idempotency_key
          && is_some row.completion_result_digest
          && is_some row.completed_at
        || not (is_completed row.state))

-- `select * from control_jobs where job_id = ?`
unfoldable pub find_job : Text → List JobRow → Option JobRow
find_job job_id rows = find (λ row. text_eq row.job_id job_id) rows

-- The row of that primary key is replaced.
unfoldable pub replace_job : Text → JobRow → List JobRow → List JobRow
replace_job job_id new [] = []
replace_job job_id new (row ∷ rows) =
    if text_eq row.job_id job_id then new ∷ rows else row ∷ replace_job job_id new rows

-- `state = 'leased' and lease_expires_at > ?`; a comparison with NULL selects nothing.
unfoldable pub is_live : ℕ → JobRow → Bool
is_live now row =
    is_leased row.state
    && elim row.lease_expires_at [ none ↦ false | some expires ↦ ltb now expires ]

-- `select count(*) from control_jobs where state = 'leased' and lease_expires_at > ?`
unfoldable pub active_count : ℕ → List JobRow → ℕ
active_count now rows = count (is_live now) rows

-- `insert into control_jobs`
unfoldable pub insert_job : JobRow → Tx ControlDb (Unit {0})
insert_job row = do
  known ← gets (λ db. is_some (find_job row.job_id db.jobs))
  raise_if (known || not (job_checks row)) (integrity_error "control_jobs")
  modify (λ db. record db { jobs = db.jobs ++ row ∷ [] })

-- `update control_jobs set ... where job_id = ?`, of the row that the statement finds.
unfoldable pub update_job : Text → (JobRow → JobRow) → Tx ControlDb (Unit {0})
update_job job_id change db = elim (find_job job_id db.jobs) [
  | none ↦ ok (tt, db)
  | some row ↦
      if job_checks (change row)
      then ok (tt, record db { jobs = replace_job job_id (change row) db.jobs })
      else err (integrity_error "control_jobs")
]

-- `_job_row`
unfoldable pub job_row : Text → Tx ControlDb JobRow
job_row job_id db = require_row (find_job job_id db.jobs) job_not_found db

unfoldable pub has_lease_event : Text → List LeaseEventRow → Bool
has_lease_event event_id rows = any (λ row. text_eq row.event_id event_id) rows

-- `_append_lease_event`, with the id from `uuid4()` and the constraints of the table.
unfoldable pub append_lease_event :
    Text
    → Text
    → LeaseEventType
    → Text
    → ℕ
    → ℕ
    → ℕ
    → Option ℕ
    → Option Text
    → Tx ControlDb (Unit {0})
unfolding has_lease_event
append_lease_event event_id job_id event_type owner_id fencing_token attempt occurred_at expires
      digest =
    do
      refused ← gets λ db.
          has_lease_event event_id db.lease_events
          || not (is_some (find_job job_id db.jobs))
          || not (ltb 0 fencing_token)
          || not (ltb 0 attempt)
      raise_if refused (integrity_error "lease_events")
      modify λ db. record db {
        lease_events =
            db.lease_events
            ++ record {
              sequence = length db.lease_events + 1;
              event_id = event_id;
              job_id = job_id;
              event_type = event_type;
              owner_id = owner_id;
              fencing_token = fencing_token;
              attempt = attempt;
              occurred_at = occurred_at;
              lease_expires_at = expires;
              result_digest = digest;
            }
              ∷ [];
      }

-- `_append_audit_event`
unfoldable pub append_audit_event : Platform → Option AuditContext → Text → Tx ControlDb (Unit {0})
append_audit_event platform audit event_id db =
    elim (append_audit platform audit event_id db.audit_events) [
      | err e ↦ err e
      | ok rows ↦ ok (tt, record db { audit_events = rows })
    ]

-- A column that Python computes with; on NULL it raises.
abbrev pub not_null {ℓ} : {A : Type ℓ} → Option A → Result A
not_null none = err (type_error "NULL")
not_null (some a) = ok a

-- `_job_from_row`
unfoldable pub job_from_row : Platform → JobRow → JobRecord
job_from_row platform row = record {
  job_id = row.job_id;
  payload_digest = row.payload_digest;
  state = row.state;
  created_at = from_micros platform row.created_at;
  updated_at = from_micros platform row.updated_at;
}

-- `_lease_from_row`
unfoldable pub lease_from_row : Platform → JobRow → Result Lease
lease_from_row platform row = elim (not_null row.current_owner_id) [
  | err e ↦ err e
  | ok owner ↦ elim (not_null row.lease_acquired_at) [
    | err e ↦ err e
    | ok from ↦ elim (not_null row.lease_expires_at) [
      | err e ↦ err e
      | ok until ↦ ok (record {
        job_id = row.job_id;
        owner_id = owner;
        fencing_token = row.current_fencing_token;
        attempt = row.current_attempt;
        acquired_at = from_micros platform from;
        expires_at = from_micros platform until;
      })
    ]
  ]
]

-- `_completion_from_row`
unfoldable pub completion_from_row : Platform → JobRow → Result Completion
completion_from_row platform row = elim (not_null row.completion_idempotency_key) [
  | err e ↦ err e
  | ok key ↦ elim (not_null row.completion_result_digest) [
    | err e ↦ err e
    | ok digest ↦ elim (not_null row.completed_at) [
      | err e ↦ err e
      | ok at ↦ ok (record {
        job_id = row.job_id;
        idempotency_key = key;
        result_digest = digest;
        fencing_token = row.current_fencing_token;
        completed_at = from_micros platform at;
      })
    ]
  ]
]
