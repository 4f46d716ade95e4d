-- ===== src/Store/Jobs/Fencing.antt =====
-- Fencing tokens: they only grow, and an outdated lease is refused for ever.
use workflow_helper_public.Base.{
  ℕ, ◌≤◌, ◌<◌, ◌≡◌, ◌≢◌, refl, true, false, List, [], ◌∷◌, Option, some, arith, ok, inl, inr, Bool,
  ◌∙◌, subst,
}
use workflow_helper_public.Text.{Text}
use workflow_helper_public.Text.Equality.{Text-cases, text_eq_iff}
use workflow_helper_public.Platform.{Platform, Timestamp}
use workflow_helper_public.Audit.{AuditContext}
use workflow_helper_public.Store.Rows.{
  JobRow, ControlDb, Lease, Completion, find_job, replace_job, is_live, is_completed,
}
use workflow_helper_public.Store.Rows.Lookup.{
  find_job-replace_job, find_job-append, find_job-job_id,
}
use workflow_helper_public.Store.Jobs
use workflow_helper_public.Store.Jobs.{
  new_job, leased_row, renewed_row, completed_row, heartbeat_lease, same_lease,
}
use workflow_helper_public.Store.Jobs.Transitions.{
  JobsStep, kept, registered, leased_to, renewed, finished, heartbeat_lease-Renewed, Completed,
  complete-Completed, complete_again-ok, complete_now-ok, acquire-Acquired, acquire_held-ok,
}
use workflow_helper_public.Store.Jobs.Leases.{IsLeaseOf, acquire-Granted, lease_from_row-IsLeaseOf}
use workflow_helper_public.Store.Jobs.Calls.{Call, step, run, clock, step-JobsStep}

-- What no call changes in a job: its payload and its creation; its token and attempts never fall.
pub record Advances (row row' : JobRow) : Type 0 where
  pub same_payload : row'.payload_digest ≡ row.payload_digest
  pub same_creation : row'.created_at ≡ row.created_at
  pub token : row.current_fencing_token ≤ row'.current_fencing_token
  pub attempt : row.current_attempt ≤ row'.current_attempt

abbrev pub Later : Text → JobRow → List JobRow → Type 0
Later id row jobs = (row' : JobRow) × (find_job id jobs ≡ some row') × Advances row row'

replace_job-Later :
    (id other : Text) (row old new : JobRow) (jobs : List JobRow)
    → find_job id jobs ≡ some row
    → find_job other jobs ≡ some old
    → new.job_id ≡ other
    → Advances old new
    → Later id row (replace_job other new jobs)
replace_job-Later id other row old new jobs here there own advance = elim (Text-cases other id) [
  | inl same ↦ (
    new,
    ground (arith, find_job-replace_job other id new jobs old own there, text_eq_iff other id),
    ground arith,
  )
  | inr differs ↦
      (row, ground (arith, find_job-replace_job other id new jobs old own there), ground arith)
]

JobsStep-Later :
    (max now : ℕ) (jobs jobs' : List JobRow) (id : Text) (row : JobRow)
    → JobsStep max now jobs jobs'
    → find_job id jobs ≡ some row
    → Later id row jobs'
unfolding leased_row renewed_row completed_row new_job
JobsStep-Later max now jobs jobs' id row (kept e) f = (row, rw e f, ground arith)
JobsStep-Later max now jobs jobs' id row (registered other digest new e) f = (
  row,
  rw e (ground (arith, find_job-append id (new_job other digest now) jobs, text_eq_iff other id)),
  ground arith,
)
JobsStep-Later max now jobs jobs' id row (leased_to other owner expires old there _ _ _ e) f =
    rw e (
      replace_job-Later id other row old (leased_row owner now expires old) jobs f there
        (find_job-job_id other jobs old there) (ground arith))
JobsStep-Later max now jobs jobs' id row (renewed other expires old there _ e) f = rw e (
    replace_job-Later id other row old (renewed_row now expires old) jobs f there
      (find_job-job_id other jobs old there) (ground arith))
JobsStep-Later max now jobs jobs' id row (finished other key digest old there _ e) f = rw e (
    replace_job-Later id other row old (completed_row key digest now old) jobs f there
      (find_job-job_id other jobs old there) (ground arith))

-- A registered job stays registered under the same payload digest and creation time, whatever is
-- called, and its fencing token and attempt count never fall.
pub run-Later :
    (platform : Platform) (max : ℕ) (calls : List Call) (db : ControlDb) (id : Text) (row : JobRow)
    → find_job id db.jobs ≡ some row
    → Later id row (run platform max calls db).jobs
unfolding run
run-Later platform max [] db id row f = (row, f, ground arith)
run-Later platform max (call ∷ calls) db id row f =
    let (row₁, f₁, a₁) =
      JobsStep-Later max (clock platform max call) db.jobs (step platform max call db).jobs id row
        (step-JobsStep platform max call db) f in
    let (row₂, f₂, a₂) = run-Later platform max calls (step platform max call db) id row₁ f₁ in
    (row₂, f₂, ground arith)

-- Neither `heartbeat` nor `complete` returns for the lease, with whatever other arguments.
pub record Refused (platform : Platform) (lease : Lease) (db : ControlDb) : Type 0 where
  pub no_heartbeat :
      (now : Timestamp) (ttl : ℕ) (audit : Option AuditContext) (lease_event audit_event : Text)
      (r : Lease × ControlDb)
      → heartbeat_lease platform lease now ttl audit lease_event audit_event db ≢ ok r
  pub no_completion :
      (key digest : Text) (now : Timestamp) (audit : Option AuditContext)
      (lease_event audit_event : Text) (r : Completion × ControlDb)
      → Jobs.complete platform lease key digest now audit lease_event audit_event db ≢ ok r

same_lease-token :
    (row : JobRow) (lease : Lease)
    → same_lease row lease ≡ true
    → row.current_fencing_token ≡ lease.fencing_token
unfolding same_lease
same_lease-token row lease h = ground arith

complete-token :
    (platform : Platform) (lease : Lease) (key digest : Text) (now : Timestamp)
    (audit : Option AuditContext) (lease_event audit_event : Text) (db : ControlDb)
    {completion : Completion} {db' : ControlDb}
    → Jobs.complete platform lease key digest now audit lease_event audit_event db
      ≡ ok (completion, db')
    → (row : JobRow) × (find_job lease.job_id db.jobs ≡ some row)
      × (row.current_fencing_token ≡ lease.fencing_token)
complete-token platform lease key digest now audit lease_event audit_event db {completion} {db'} h =
    let c = complete-Completed platform lease key digest now audit lease_event audit_event db h in
    (c.row, c.found, same_lease-token c.row lease (branch c (is_completed c.row.state) refl))
  where
    branch :
        (c : Completed platform lease key digest now audit lease_event audit_event db completion
          db')
        (done : Bool)
        → is_completed c.row.state ≡ done
        → same_lease c.row lease ≡ true
    branch c true e =
        (complete_again-ok platform lease key digest audit audit_event c.row db (rw e at c.run)).1
    branch c false e =
        (complete_now-ok platform lease key digest c.now_us audit lease_event audit_event c.row db
          c.found (rw e at c.run)).1

outdated-Refused :
    (platform : Platform) (lease : Lease) (db : ControlDb) (row : JobRow)
    → find_job lease.job_id db.jobs ≡ some row
    → lease.fencing_token < row.current_fencing_token
    → Refused platform lease db
outdated-Refused platform lease db row found newer = record {
  no_heartbeat = λ now ttl audit e e' (renewal, db') h.
      let r = heartbeat_lease-Renewed platform lease now ttl audit e e' db h in
      ground (arith, r.found, same_lease-token r.row lease r.same);
  no_completion = λ key digest now audit e e' (completion, db') h.
      let (row', found', token) = complete-token platform lease key digest now audit e e' db h in
      ground (arith, found', token);
}

-- Once a job whose lease has run out is acquired again, the earlier lease is refused for ever:
-- whatever calls follow, no heartbeat and no completion with it returns.
pub acquire-Refused :
    (platform : Platform) (max : ℕ) (job_id owner_id : Text) (now : Timestamp) (ttl : ℕ)
    (audit : Option AuditContext) (lease_event audit_event : Text) (db : ControlDb)
    (before : JobRow) (earlier lease : Lease) (db' : ControlDb)
    → find_job job_id db.jobs ≡ some before
    → is_live (platform.micros_of now.instant) before ≡ false
    → IsLeaseOf earlier before
    → Jobs.acquire platform max job_id owner_id now ttl audit lease_event audit_event db
      ≡ ok (lease, db')
    → (calls : List Call) → Refused platform earlier (run platform max calls db')
acquire-Refused platform max job_id owner_id now ttl audit lease_event audit_event db before earlier
      lease db' found expired held h calls =
    let (now_us, expires_us, old, at, there, g) =
      acquire-Granted platform max job_id owner_id now ttl audit lease_event audit_event db h in
    let (row, still, advance) = run-Later platform max calls db' job_id g.row g.found in
    let own : earlier.job_id ≡ job_id = held.of_job ∙ find_job-job_id job_id db.jobs before found in
    outdated-Refused platform earlier (run platform max calls db') row (rw own still)
      (ground (arith, there, found, at, g.token, advance.token, held.of_token, expired))

-- While a lease is live, only its owner acquires the job, and that changes no job.
pub acquire_exclusive :
    (platform : Platform) (max : ℕ) (job_id owner_id : Text) (now : Timestamp) (ttl : ℕ)
    (audit : Option AuditContext) (lease_event audit_event : Text) (db : ControlDb) (row : JobRow)
    (lease : Lease) (db' : ControlDb)
    → find_job job_id db.jobs ≡ some row
    → is_live (platform.micros_of now.instant) row ≡ true
    → Jobs.acquire platform max job_id owner_id now ttl audit lease_event audit_event db
      ≡ ok (lease, db')
    → (row.current_owner_id ≡ some owner_id) × IsLeaseOf lease row × (db'.jobs ≡ db.jobs)
acquire_exclusive platform max job_id owner_id now ttl audit lease_event audit_event db row lease
      db' found live h =
    let a =
      acquire-Acquired platform max job_id owner_id now ttl audit lease_event audit_event db h in
    let held : a.held ≡ true = ground (arith, a.found, a.live, a.at) in
    let (same, owner, lease_of) =
      acquire_held-ok platform owner_id audit audit_event a.row db (rw held at a.run) in
    let is_row : a.row ≡ row = ground (arith, a.found) in
    (
      rw (← is_row) owner,
      subst (IsLeaseOf lease) is_row (lease_from_row-IsLeaseOf platform a.row lease lease_of),
      same,
    )
