-- ===== src/Store/Jobs/Others.antt =====
-- An operation on one job leaves every other job alone.
use workflow_helper_public.Base.{
  ℕ, ◌≡◌, refl, ◌∙◌, Bool, true, false, List, [], ◌∷◌, ◌++◌, Option, none, some, arith, lift-eq-ok,
  ok,
}
use workflow_helper_public.Text.{Text, text_eq}
use workflow_helper_public.Platform.{Platform, Timestamp, to_micros}
use workflow_helper_public.Checks.{require_text, require_sha256}
use workflow_helper_public.Audit.{AuditContext}
use workflow_helper_public.Store.Rows.{
  JobRow, ControlDb, JobRecord, Lease, Completion, find_job, replace_job, is_completed, insert_job,
  append_audit_event, job_row,
}
use workflow_helper_public.Store.Rows.Lookup.{
  find_job-job_id, find_job-replace_job, find_job-append,
}
use workflow_helper_public.Store.Jobs.{
  new_job, leased_row, renewed_row, completed_row, register_job, register_row, acquire,
  heartbeat_lease, complete,
}
use workflow_helper_public.Store.Jobs.Transitions.{
  Acquired, acquire-Acquired, acquire_held-ok, acquire_free-ok, heartbeat_lease-Renewed, Completed,
  complete-Completed, complete_again-ok, complete_now-ok,
}

replaced_others :
    (id j : Text) (jobs jobs' : List JobRow) (row new : JobRow)
    → jobs' ≡ replace_job id new jobs
    → find_job id jobs ≡ some row
    → new.job_id ≡ row.job_id
    → text_eq id j ≡ false
    → find_job j jobs' ≡ find_job j jobs
replaced_others id j jobs jobs' row new changed found same ne =
    let at =
      find_job-replace_job id j new jobs row (same ∙ find_job-job_id id jobs row found) found in
    rw changed ((rw ne at at))

module _ (platform : Platform) (audit : Option AuditContext) (lease_event audit_event : Text)
    (db : ControlDb) (j : Text) where
  pub register_job-others :
      (job_id digest : Text) (now : Timestamp) {value : JobRecord} {db' : ControlDb}
      → register_job platform job_id digest now audit audit_event db ≡ ok (value, db')
      → text_eq job_id j ≡ false
      → find_job j db'.jobs ≡ find_job j db.jobs
  unfolding register_job register_row insert_job append_audit_event job_row new_job
  register_job-others job_id digest now {value} {db'} h ne =
      let (_, _, h1) = lift-eq-ok (require_text "job_id" job_id) _ db h in
      let (_, _, h2) = lift-eq-ok (require_sha256 "payload_digest" digest) _ db h1 in
      let (now_us, at, h3) = lift-eq-ok (to_micros platform now) _ db h2 in
      branch now_us (find_job job_id db.jobs) refl h3
    where
      branch :
          (now_us : ℕ) (found : Option JobRow)
          → find_job job_id db.jobs ≡ found
          → register_row platform job_id digest now_us audit audit_event found db ≡ ok (value, db')
          → find_job j db'.jobs ≡ find_job j db.jobs
      branch now_us none e h =
          let added : db'.jobs ≡ db.jobs ++ new_job job_id digest now_us ∷ [] = ground arith in
          rw added ((rw ne at (find_job-append j (new_job job_id digest now_us) db.jobs e)))
      branch now_us (some row) e h = let kept : db'.jobs ≡ db.jobs = ground arith in rw kept refl

  pub acquire-others :
      (max : ℕ) (job_id owner_id : Text) (now : Timestamp) (ttl : ℕ) {lease : Lease}
      {db' : ControlDb}
      → acquire platform max job_id owner_id now ttl audit lease_event audit_event db
        ≡ ok (lease, db')
      → text_eq job_id j ≡ false
      → find_job j db'.jobs ≡ find_job j db.jobs
  unfolding leased_row
  acquire-others max job_id owner_id now ttl {lease} {db'} h ne =
      let a =
        acquire-Acquired platform max job_id owner_id now ttl audit lease_event audit_event db h in
      branch a a.held refl
    where
      branch :
          (a : Acquired platform max job_id owner_id now ttl audit lease_event audit_event db lease
            db')
          (held : Bool)
          → a.held ≡ held
          → find_job j db'.jobs ≡ find_job j db.jobs
      branch a true e =
          rw (acquire_held-ok platform owner_id audit audit_event a.row db (rw e at a.run)).0 refl
      branch a false e =
          replaced_others job_id j db.jobs db'.jobs a.row _
            (acquire_free-ok platform max job_id owner_id a.now_us a.expires_us audit lease_event
              audit_event a.row db a.found (rw e at a.run)).1
            a.found refl ne

  pub heartbeat_lease-others :
      (lease : Lease) (now : Timestamp) (ttl : ℕ) {renewal : Lease} {db' : ControlDb}
      → heartbeat_lease platform lease now ttl audit lease_event audit_event db ≡ ok (renewal, db')
      → text_eq lease.job_id j ≡ false
      → find_job j db'.jobs ≡ find_job j db.jobs
  unfolding renewed_row
  heartbeat_lease-others lease now ttl {renewal} {db'} h ne =
      let r = heartbeat_lease-Renewed platform lease now ttl audit lease_event audit_event db h in
      replaced_others lease.job_id j db.jobs db'.jobs r.row _ r.changed r.found refl ne

  pub complete-others :
      (lease : Lease) (key digest : Text) (now : Timestamp) {completion : Completion}
      {db' : ControlDb}
      → complete platform lease key digest now audit lease_event audit_event db
        ≡ ok (completion, db')
      → text_eq lease.job_id j ≡ false
      → find_job j db'.jobs ≡ find_job j db.jobs
  unfolding completed_row
  complete-others lease key digest now {completion} {db'} h ne =
      let c = complete-Completed platform lease key digest now audit lease_event audit_event db h in
      branch c (is_completed c.row.state) refl
    where
      branch :
          (c : Completed platform lease key digest now audit lease_event audit_event db completion
            db')
          (done : Bool)
          → is_completed c.row.state ≡ done
          → find_job j db'.jobs ≡ find_job j db.jobs
      branch c true e =
          rw
            (complete_again-ok platform lease key digest audit audit_event c.row db
              (rw e at c.run)).0
            refl
      branch c false e =
          let (_, _, changed) =
            complete_now-ok platform lease key digest c.now_us audit lease_event audit_event c.row
              db c.found (rw e at c.run) in
          replaced_others lease.job_id j db.jobs db'.jobs c.row _ changed c.found refl ne
