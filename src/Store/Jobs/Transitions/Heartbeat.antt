-- ===== src/Store/Jobs/Transitions/Heartbeat.antt =====
-- What `heartbeat` found in the tables and left there.
use workflow_helper_public.Base.{
  ℕ, ◌≡◌, true, Option, some, arith, lift-eq-ok, require_row-eq-ok, job_not_found, ok,
}
use workflow_helper_public.Text.{Text}
use workflow_helper_public.Platform.{Platform, Timestamp, to_micros, add_seconds}
use workflow_helper_public.Checks.{require_ttl}
use workflow_helper_public.Audit.{AuditContext}
use workflow_helper_public.Store.Rows.{
  JobRow, ControlDb, Lease, find_job, replace_job, is_live, update_job, job_row, append_lease_event,
  append_audit_event,
}
use workflow_helper_public.Store.Jobs.{
  renewed_row, heartbeat_lease, heartbeat_write, require_current_lease, same_lease,
}
use workflow_helper_public.Store.Jobs.Transitions.Step.{require_current_lease-ok}

-- What a successful heartbeat found and wrote.
pub record Renewed (platform : Platform) (lease : Lease) (now : Timestamp) (ttl : ℕ)
    (db : ControlDb) (renewal : Lease) (db' : ControlDb) : Type 0 where
  pub row : JobRow
  pub now_us : ℕ
  pub expires_us : ℕ
  pub at : to_micros platform now ≡ ok now_us
  pub until : to_micros platform (add_seconds now ttl) ≡ ok expires_us
  pub found : find_job lease.job_id db.jobs ≡ some row
  pub live : is_live now_us row ≡ true
  pub same : same_lease row lease ≡ true
  pub changed : db'.jobs ≡ replace_job lease.job_id (renewed_row now_us expires_us row) db.jobs

heartbeat_write-ok :
    (platform : Platform) (lease : Lease) (now expires : ℕ) (audit : Option AuditContext)
    (lease_event audit_event : Text) (row : JobRow) (db : ControlDb) {renewal : Lease}
    {db' : ControlDb}
    → find_job lease.job_id db.jobs ≡ some row
    → heartbeat_write platform lease now expires audit lease_event audit_event db
      ≡ ok (renewal, db')
    → db'.jobs ≡ replace_job lease.job_id (renewed_row now expires row) db.jobs
unfolding heartbeat_write update_job append_lease_event job_row append_audit_event
heartbeat_write-ok platform lease now expires audit lease_event audit_event row db found h =
    ground arith

pub heartbeat_lease-Renewed :
    (platform : Platform) (lease : Lease) (now : Timestamp) (ttl : ℕ) (audit : Option AuditContext)
    (lease_event audit_event : Text) (db : ControlDb) {renewal : Lease} {db' : ControlDb}
    → heartbeat_lease platform lease now ttl audit lease_event audit_event db ≡ ok (renewal, db')
    → Renewed platform lease now ttl db renewal db'
unfolding heartbeat_lease job_row
heartbeat_lease-Renewed platform lease now ttl audit lease_event audit_event db h =
    let (_, _, h1) = lift-eq-ok (require_ttl ttl) _ db h in
    let (now_us, at, h2) = lift-eq-ok (to_micros platform now) _ db h1 in
    let (expires_us, until, h3) = lift-eq-ok (to_micros platform (add_seconds now ttl)) _ db h2 in
    let (row, found, h4) =
      require_row-eq-ok (find_job lease.job_id db.jobs) job_not_found _ db h3 in
    let (_, current, h5) = lift-eq-ok (require_current_lease row lease now_us) _ db h4 in
    let (live, same) = require_current_lease-ok row lease now_us current in
    record {
      row = row;
      now_us = now_us;
      expires_us = expires_us;
      at = at;
      until = until;
      found = found;
      live = live;
      same = same;
      changed =
          heartbeat_write-ok platform lease now_us expires_us audit lease_event audit_event row db
            found h5;
    }
