-- ===== src/Store/Jobs/Transitions/Complete.antt =====
-- What `complete` found in the tables and left there.
use workflow_helper_public.Base.{
  ℕ, ◌≡◌, refl, Bool, true, false, Option, some, arith, if◌then◌else◌, lift-eq-ok,
  require_row-eq-ok, job_not_found, ok,
}
use workflow_helper_public.Text.{Text}
use workflow_helper_public.Text.Equality.{opt_text_eq_iff}
use workflow_helper_public.Platform.{Platform, Timestamp, to_micros}
use workflow_helper_public.Checks.{require_text, require_sha256}
use workflow_helper_public.Audit.{AuditContext}
use workflow_helper_public.Store.Rows.{
  is_completed, JobRow, ControlDb, Lease, Completion, find_job, replace_job, is_live, update_job,
  job_row, append_lease_event, append_audit_event, completion_from_row,
}
use workflow_helper_public.Store.Jobs.{
  completed_row, complete, complete_now, complete_again, require_current_lease, same_lease,
}
use workflow_helper_public.Store.Jobs.Transitions.Step.{
  JobsStep, kept, finished, require_current_lease-ok,
}

pub complete_now-ok :
    (platform : Platform) (lease : Lease) (key digest : Text) (now : ℕ)
    (audit : Option AuditContext) (lease_event audit_event : Text) (row : JobRow) (db : ControlDb)
    {completion : Completion} {db' : ControlDb}
    → find_job lease.job_id db.jobs ≡ some row
    → complete_now platform lease key digest now audit lease_event audit_event row db
      ≡ ok (completion, db')
    → (is_live now row ≡ true)
      × (same_lease row lease ≡ true)
      × (db'.jobs ≡ replace_job lease.job_id (completed_row key digest now row) db.jobs)
unfolding complete_now update_job append_lease_event job_row append_audit_event
complete_now-ok platform lease key digest now audit lease_event audit_event row db found h =
    let (_, current, h1) = lift-eq-ok (require_current_lease row lease now) _ db h in
    let (live, same) = require_current_lease-ok row lease now current in (live, same, ground arith)

pub complete_again-ok :
    (platform : Platform) (lease : Lease) (key digest : Text) (audit : Option AuditContext)
    (audit_event : Text) (row : JobRow) (db : ControlDb) {completion : Completion} {db' : ControlDb}
    → complete_again platform lease key digest audit audit_event row db ≡ ok (completion, db')
    → (db'.jobs ≡ db.jobs)
      × (same_lease row lease ≡ true)
      × (row.completion_idempotency_key ≡ some key)
      × (row.completion_result_digest ≡ some digest)
      × (completion_from_row platform row ≡ ok completion)
unfolding complete_again append_audit_event
complete_again-ok platform lease key digest audit audit_event row db h = ground (
  arith,
  opt_text_eq_iff row.completion_idempotency_key (some key),
  opt_text_eq_iff row.completion_result_digest (some digest),
)

-- How `complete` succeeded: a job that was completed already, or one under a current lease.
pub record Completed (platform : Platform) (lease : Lease) (key digest : Text) (now : Timestamp)
    (audit : Option AuditContext) (lease_event audit_event : Text) (db : ControlDb)
    (completion : Completion) (db' : ControlDb) : Type 0 where
  pub row : JobRow
  pub now_us : ℕ
  pub at : to_micros platform now ≡ ok now_us
  pub found : find_job lease.job_id db.jobs ≡ some row
  pub run :
      (if is_completed row.state
          then complete_again platform lease key digest audit audit_event row
          else complete_now platform lease key digest now_us audit lease_event audit_event row)
        db
      ≡ ok (completion, db')

pub complete-Completed :
    (platform : Platform) (lease : Lease) (key digest : Text) (now : Timestamp)
    (audit : Option AuditContext) (lease_event audit_event : Text) (db : ControlDb)
    {completion : Completion} {db' : ControlDb}
    → complete platform lease key digest now audit lease_event audit_event db ≡ ok (completion, db')
    → Completed platform lease key digest now audit lease_event audit_event db completion db'
unfolding complete job_row
complete-Completed platform lease key digest now audit lease_event audit_event db h =
    let (_, _, h1) = lift-eq-ok (require_text "idempotency_key" key) _ db h in
    let (_, _, h2) = lift-eq-ok (require_sha256 "result_digest" digest) _ db h1 in
    let (now_us, at, h3) = lift-eq-ok (to_micros platform now) _ db h2 in
    let (row, found, h4) =
      require_row-eq-ok (find_job lease.job_id db.jobs) job_not_found _ db h3 in
    record { row = row; now_us = now_us; at = at; found = found; run = h4 }

pub complete-JobsStep :
    (max : ℕ) (platform : Platform) (lease : Lease) (key digest : Text) (now : Timestamp)
    (audit : Option AuditContext) (lease_event audit_event : Text) (db : ControlDb)
    {completion : Completion} {db' : ControlDb}
    → complete platform lease key digest now audit lease_event audit_event db ≡ ok (completion, db')
    → (now_us : ℕ) × (to_micros platform now ≡ ok now_us) × JobsStep max now_us db.jobs db'.jobs
complete-JobsStep max platform lease key digest now audit lease_event audit_event db {completion}
      {db'} h =
    let c = complete-Completed platform lease key digest now audit lease_event audit_event db h in
    (c.now_us, c.at, branch c (is_completed c.row.state) refl)
  where
    branch :
        (c : Completed platform lease key digest now audit lease_event audit_event db completion
          db')
        (done : Bool)
        → is_completed c.row.state ≡ done
        → JobsStep max c.now_us db.jobs db'.jobs
    branch c true e =
        kept
          (complete_again-ok platform lease key digest audit audit_event c.row db (rw e at c.run)).0
    branch c false e =
        let (live, _, changed) =
          complete_now-ok platform lease key digest c.now_us audit lease_event audit_event c.row db
            c.found (rw e at c.run) in
        finished lease.job_id key digest c.row c.found live changed
