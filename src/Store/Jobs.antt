-- ===== src/Store/Jobs.antt =====
-- The job and lease operations of `SQLiteControlStore`. Each is the body of its transaction: on an
-- exception the caller sees the database as it was. `now` is the argument, or the clock's reading
-- where it was left out, and an `event_id` is what `uuid4()` gives.
pub mod Transitions
pub mod Others
pub mod Calls
pub mod Limit
pub mod Leases
pub mod Fencing
pub mod Replay
pub mod Progress
mod Tests
use workflow_helper_public.Base.{
  ℕ, ◌+◌, Bool, false, ◌&&◌, ◌||◌, not, Option, none, some, leb, ltb, ◌==◌, if◌then◌else◌,
  conflict_error, lease_unavailable, stale_lease, Result, ok, err, Tx, ◌>>=◌, ◌>>◌, pure, gets,
  lift, raise_if,
}
use workflow_helper_public.Text.{Text, text_eq, opt_text_eq}
use workflow_helper_public.Platform.{Platform, Timestamp, add_seconds, to_micros}
use workflow_helper_public.Checks.{require_text, require_sha256, require_ttl}
use workflow_helper_public.Audit.{AuditContext}
use workflow_helper_public.Store.Rows.{
  queued, leased, completed, is_leased, is_completed, JobRow, LeaseEventType, acquired, reacquired,
  heartbeat, ControlDb, JobRecord, Lease, Completion, find_job, active_count, insert_job,
  update_job, job_row, append_lease_event, append_audit_event, not_null, job_from_row,
  lease_from_row, completion_from_row,
}

pub new_job : Text → Text → ℕ → JobRow
new_job job_id payload_digest now_us = record {
  job_id = job_id;
  payload_digest = payload_digest;
  state = queued;
  current_owner_id = none;
  current_fencing_token = 0;
  current_attempt = 0;
  lease_acquired_at = none;
  lease_expires_at = none;
  heartbeat_at = none;
  completion_idempotency_key = none;
  completion_result_digest = none;
  completed_at = none;
  created_at = now_us;
  updated_at = now_us;
}

pub leased_row : Text → ℕ → ℕ → JobRow → JobRow
leased_row owner_id now_us expires_us row = record row {
  state = leased;
  current_owner_id = some owner_id;
  current_fencing_token = row.current_fencing_token + 1;
  current_attempt = row.current_attempt + 1;
  lease_acquired_at = some now_us;
  lease_expires_at = some expires_us;
  heartbeat_at = some now_us;
  updated_at = now_us;
}

pub renewed_row : ℕ → ℕ → JobRow → JobRow
renewed_row now_us expires_us row = record row {
  lease_expires_at = some expires_us;
  heartbeat_at = some now_us;
  updated_at = now_us;
}

pub completed_row : Text → Text → ℕ → JobRow → JobRow
completed_row idempotency_key result_digest now_us row = record row {
  state = completed;
  completion_idempotency_key = some idempotency_key;
  completion_result_digest = some result_digest;
  completed_at = some now_us;
  updated_at = now_us;
}

-- What `register_job` does with the row that it found, if any.
register_row :
    Platform → Text → Text → ℕ → Option AuditContext → Text → Option JobRow → Tx ControlDb JobRecord
register_row platform job_id payload_digest now_us audit event_id (some row) = do
  raise_if (not (text_eq row.payload_digest payload_digest))
      (conflict_error "job_id already has a different payload digest")
  append_audit_event platform audit event_id
  pure (job_from_row platform row)
register_row platform job_id payload_digest now_us audit event_id none = do
  insert_job (new_job job_id payload_digest now_us)
  row ← job_row job_id
  append_audit_event platform audit event_id
  pure (job_from_row platform row)

pub register_job :
    Platform → Text → Text → Timestamp → Option AuditContext → Text → Tx ControlDb JobRecord
register_job platform job_id payload_digest now audit event_id = do
  lift (require_text "job_id" job_id)
  lift (require_sha256 "payload_digest" payload_digest)
  now_us ← lift (to_micros platform now)
  found ← gets (λ db. find_job job_id db.jobs)
  register_row platform job_id payload_digest now_us audit event_id found

pub get_job : Platform → Text → Tx ControlDb JobRecord
get_job platform job_id = do row ← job_row job_id; pure (job_from_row platform row)

-- `row["state"] == "leased" and row["lease_expires_at"] > now_us`
holds_lease : ℕ → JobRow → Result Bool
holds_lease now_us row =
    if is_leased row.state
    then elim (not_null row.lease_expires_at) [
      | err e ↦ err e
      | ok expires ↦ ok (ltb now_us expires)
    ]
    else ok false

-- The branch of `acquire` for a job that no unexpired lease holds.
pub acquire_free :
    Platform
    → ℕ
    → Text
    → Text
    → ℕ
    → ℕ
    → Option AuditContext
    → Text
    → Text
    → JobRow
    → Tx ControlDb Lease
acquire_free platform max_active_leases job_id owner_id now_us expires_us audit lease_event
      audit_event row =
    do
      active ← gets (λ db. active_count now_us db.jobs)
      raise_if (leb max_active_leases active) (lease_unavailable "active lease limit reached")
      update_job job_id (leased_row owner_id now_us expires_us)
      append_lease_event lease_event job_id
          (if row.current_fencing_token + 1 == 1 then acquired else reacquired) owner_id
          (row.current_fencing_token + 1) (row.current_attempt + 1) now_us (some expires_us) none
      row' ← job_row job_id
      append_audit_event platform audit audit_event
      lift (lease_from_row platform row')

-- The branch for a job under an unexpired lease: its owner gets the same lease again.
pub acquire_held : Platform → Text → Option AuditContext → Text → JobRow → Tx ControlDb Lease
acquire_held platform owner_id audit audit_event row = do
  raise_if (not (opt_text_eq row.current_owner_id (some owner_id)))
      (lease_unavailable "job has an unexpired lease")
  append_audit_event platform audit audit_event
  lift (lease_from_row platform row)

pub acquire :
    Platform
    → ℕ
    → Text
    → Text
    → Timestamp
    → ℕ
    → Option AuditContext
    → Text
    → Text
    → Tx ControlDb Lease
acquire platform max_active_leases job_id owner_id now ttl_seconds audit lease_event audit_event =
    do
      lift (require_text "job_id" job_id)
      lift (require_text "owner_id" owner_id)
      lift (require_ttl ttl_seconds)
      now_us ← lift (to_micros platform now)
      expires_us ← lift (to_micros platform (add_seconds now ttl_seconds))
      row ← job_row job_id
      raise_if (is_completed row.state) (lease_unavailable "job is already completed")
      held ← lift (holds_lease now_us row)
      if held
          then acquire_held platform owner_id audit audit_event row
          else acquire_free platform max_active_leases job_id owner_id now_us expires_us audit
              lease_event audit_event row

-- `current_owner_id`, `current_fencing_token` and `current_attempt` are those of the lease.
pub same_lease : JobRow → Lease → Bool
same_lease row lease =
    opt_text_eq row.current_owner_id (some lease.owner_id)
    && row.current_fencing_token == lease.fencing_token
    && row.current_attempt == lease.attempt

-- `_require_current_lease`
pub require_current_lease : JobRow → Lease → ℕ → Result (Unit {0})
require_current_lease row lease now_us =
    if not (is_leased row.state) || not (same_lease row lease)
    then err (stale_lease "lease is expired, superseded, or not current")
    else elim (not_null row.lease_expires_at) [
      | err e ↦ err e
      | ok expires ↦
          if leb expires now_us
          then err (stale_lease "lease is expired, superseded, or not current")
          else ok tt
    ]

-- The statements of `heartbeat` once the lease is known to be current.
heartbeat_write : Platform → Lease → ℕ → ℕ → Option AuditContext → Text → Text → Tx ControlDb Lease
heartbeat_write platform lease now_us expires_us audit lease_event audit_event = do
  update_job lease.job_id (renewed_row now_us expires_us)
  append_lease_event lease_event lease.job_id heartbeat lease.owner_id lease.fencing_token
      lease.attempt now_us (some expires_us) none
  append_audit_event platform audit audit_event
  row ← job_row lease.job_id
  lift (lease_from_row platform row)

pub heartbeat_lease :
    Platform → Lease → Timestamp → ℕ → Option AuditContext → Text → Text → Tx ControlDb Lease
heartbeat_lease platform lease now ttl_seconds audit lease_event audit_event = do
  lift (require_ttl ttl_seconds)
  now_us ← lift (to_micros platform now)
  expires_us ← lift (to_micros platform (add_seconds now ttl_seconds))
  row ← job_row lease.job_id
  lift (require_current_lease row lease now_us)
  heartbeat_write platform lease now_us expires_us audit lease_event audit_event

-- `complete` on a job that is completed: a replay, or an exception.
pub complete_again :
    Platform → Lease → Text → Text → Option AuditContext → Text → JobRow → Tx ControlDb Completion
complete_again platform lease idempotency_key result_digest audit audit_event row = do
  raise_if (not (same_lease row lease))
      (stale_lease "completion replay is not from the completing lease")
  raise_if
      (not (
        opt_text_eq row.completion_idempotency_key (some idempotency_key)
        && opt_text_eq row.completion_result_digest (some result_digest)))
      (conflict_error "completion conflicts with the immutable result")
  append_audit_event platform audit audit_event
  lift (completion_from_row platform row)

pub complete_now :
    Platform
    → Lease
    → Text
    → Text
    → ℕ
    → Option AuditContext
    → Text
    → Text
    → JobRow
    → Tx ControlDb Completion
complete_now platform lease idempotency_key result_digest now_us audit lease_event audit_event row =
    do
      lift (require_current_lease row lease now_us)
      update_job lease.job_id (completed_row idempotency_key result_digest now_us)
      append_lease_event lease_event lease.job_id LeaseEventType.completed lease.owner_id
          lease.fencing_token lease.attempt now_us none (some result_digest)
      append_audit_event platform audit audit_event
      row' ← job_row lease.job_id
      lift (completion_from_row platform row')

pub complete :
    Platform
    → Lease
    → Text
    → Text
    → Timestamp
    → Option AuditContext
    → Text
    → Text
    → Tx ControlDb Completion
complete platform lease idempotency_key result_digest now audit lease_event audit_event = do
  lift (require_text "idempotency_key" idempotency_key)
  lift (require_sha256 "result_digest" result_digest)
  now_us ← lift (to_micros platform now)
  row ← job_row lease.job_id
  if is_completed row.state
      then complete_again platform lease idempotency_key result_digest audit audit_event row
      else complete_now platform lease idempotency_key result_digest now_us audit lease_event
          audit_event row
