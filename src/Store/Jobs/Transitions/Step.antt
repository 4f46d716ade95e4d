-- ===== src/Store/Jobs/Transitions/Step.antt =====
-- The changes of the table of jobs, and what registering a job leaves there.
use workflow_helper_public.Base.{
  ℕ, ◌<◌, ◌≡◌, refl, true, false, List, [], ◌∷◌, ◌++◌, Option, none, some, arith, lift-eq-ok, ok,
}
use workflow_helper_public.Text.{Text}
use workflow_helper_public.Platform.{Platform, Timestamp, to_micros}
use workflow_helper_public.Checks.{require_text, require_sha256}
use workflow_helper_public.Audit.{AuditContext}
use workflow_helper_public.Store.Rows.{
  is_completed, JobRow, ControlDb, JobRecord, Lease, find_job, replace_job, is_live, active_count,
  insert_job, job_row, append_audit_event,
}
use workflow_helper_public.Store.Jobs.{
  new_job, leased_row, renewed_row, completed_row, register_job, require_current_lease, same_lease,
  register_row,
}

-- A change of the table of jobs, at one time and under one limit on leases.
pub data JobsStep (max now : ℕ) (jobs jobs' : List JobRow) : Type 0 where
  kept : jobs' ≡ jobs → JobsStep max now jobs jobs'
  registered :
      (id digest : Text)
      → find_job id jobs ≡ none
      → jobs' ≡ jobs ++ new_job id digest now ∷ []
      → JobsStep max now jobs jobs'
  leased_to :
      (id owner : Text) (expires : ℕ) (row : JobRow)
      → find_job id jobs ≡ some row
      → is_completed row.state ≡ false
      → is_live now row ≡ false
      → active_count now jobs < max
      → jobs' ≡ replace_job id (leased_row owner now expires row) jobs
      → JobsStep max now jobs jobs'
  renewed :
      (id : Text) (expires : ℕ) (row : JobRow)
      → find_job id jobs ≡ some row
      → is_live now row ≡ true
      → jobs' ≡ replace_job id (renewed_row now expires row) jobs
      → JobsStep max now jobs jobs'
  finished :
      (id key digest : Text) (row : JobRow)
      → find_job id jobs ≡ some row
      → is_live now row ≡ true
      → jobs' ≡ replace_job id (completed_row key digest now row) jobs
      → JobsStep max now jobs jobs'

pub require_current_lease-ok :
    (row : JobRow) (lease : Lease) (now : ℕ) {u : Unit {0}}
    → require_current_lease row lease now ≡ ok u
    → (is_live now row ≡ true) × (same_lease row lease ≡ true)
unfolding require_current_lease is_live
require_current_lease-ok row lease now h = ground arith

pub register_job-JobsStep :
    (max : ℕ) (platform : Platform) (job_id digest : Text) (now : Timestamp)
    (audit : Option AuditContext) (event_id : Text) (db : ControlDb) {record' : JobRecord}
    {db' : ControlDb}
    → register_job platform job_id digest now audit event_id db ≡ ok (record', db')
    → (now_us : ℕ) × (to_micros platform now ≡ ok now_us) × JobsStep max now_us db.jobs db'.jobs
unfolding register_job register_row insert_job append_audit_event job_row
register_job-JobsStep max platform job_id digest now audit event_id db {record'} {db'} h =
    let (_, _, h1) = lift-eq-ok (require_text "job_id" job_id) _ db h in
    let (_, _, h2) = lift-eq-ok (require_sha256 "payload_digest" digest) _ db h1 in
    let (now_us, at, h3) = lift-eq-ok (to_micros platform now) _ db h2 in
    (now_us, at, branch now_us (find_job job_id db.jobs) refl h3)
  where
    branch :
        (now_us : ℕ) (found : Option JobRow)
        → find_job job_id db.jobs ≡ found
        → register_row platform job_id digest now_us audit event_id found db ≡ ok (record', db')
        → JobsStep max now_us db.jobs db'.jobs
    branch now_us none e h = registered job_id digest e (ground arith)
    branch now_us (some row) e h = kept (ground arith)
