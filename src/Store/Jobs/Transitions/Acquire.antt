-- ===== src/Store/Jobs/Transitions/Acquire.antt =====
-- What `acquire` found in the tables and left there.
use workflow_helper_public.Base.{
  ℕ, ◌<◌, ◌≡◌, refl, Bool, true, false, Option, some, arith, if◌then◌else◌, lift-eq-ok,
  require_row-eq-ok, raise_if-eq-ok, job_not_found, ok,
}
use workflow_helper_public.Text.{Text}
use workflow_helper_public.Text.Equality.{opt_text_eq_iff}
use workflow_helper_public.Platform.{Platform, Timestamp, to_micros, add_seconds}
use workflow_helper_public.Checks.{require_text, require_ttl}
use workflow_helper_public.Audit.{AuditContext}
use workflow_helper_public.Store.Rows.{
  is_completed, JobRow, ControlDb, Lease, find_job, replace_job, is_live, active_count, update_job,
  job_row, append_lease_event, append_audit_event, lease_from_row,
}
use workflow_helper_public.Store.Jobs.{leased_row, acquire, acquire_free, acquire_held, holds_lease}
use workflow_helper_public.Store.Jobs.Transitions.Step.{JobsStep, kept, leased_to}

pub acquire_free-ok :
    (platform : Platform) (max : ℕ) (job_id owner_id : Text) (now expires : ℕ)
    (audit : Option AuditContext) (lease_event audit_event : Text) (row : JobRow) (db : ControlDb)
    {lease : Lease} {db' : ControlDb}
    → find_job job_id db.jobs ≡ some row
    → acquire_free platform max job_id owner_id now expires audit lease_event audit_event row db
      ≡ ok (lease, db')
    → (active_count now db.jobs < max)
      × (db'.jobs ≡ replace_job job_id (leased_row owner_id now expires row) db.jobs)
unfolding acquire_free update_job append_lease_event job_row append_audit_event
acquire_free-ok platform max job_id owner_id now expires audit lease_event audit_event row db found
      h =
    ground arith

pub acquire_held-ok :
    (platform : Platform) (owner_id : Text) (audit : Option AuditContext) (audit_event : Text)
    (row : JobRow) (db : ControlDb) {lease : Lease} {db' : ControlDb}
    → acquire_held platform owner_id audit audit_event row db ≡ ok (lease, db')
    → (db'.jobs ≡ db.jobs)
      × (row.current_owner_id ≡ some owner_id)
      × (lease_from_row platform row ≡ ok lease)
unfolding acquire_held append_audit_event
acquire_held-ok platform owner_id audit audit_event row db h =
    ground (arith, opt_text_eq_iff row.current_owner_id (some owner_id))

holds_lease-live :
    (now : ℕ) (row : JobRow) (held : Bool) → holds_lease now row ≡ ok held → is_live now row ≡ held
unfolding holds_lease is_live
holds_lease-live now row held h = ground arith

-- How `acquire` succeeded: the owner found its own unexpired lease, or a free job was leased.
pub record Acquired (platform : Platform) (max : ℕ) (job_id owner_id : Text) (now : Timestamp)
    (ttl : ℕ) (audit : Option AuditContext) (lease_event audit_event : Text) (db : ControlDb)
    (lease : Lease) (db' : ControlDb) : Type 0 where
  pub row : JobRow
  pub now_us : ℕ
  pub expires_us : ℕ
  pub held : Bool
  pub at : to_micros platform now ≡ ok now_us
  pub until : to_micros platform (add_seconds now ttl) ≡ ok expires_us
  pub found : find_job job_id db.jobs ≡ some row
  pub open_job : is_completed row.state ≡ false
  pub live : is_live now_us row ≡ held
  pub run :
      (if held
          then acquire_held platform owner_id audit audit_event row
          else acquire_free platform max job_id owner_id now_us expires_us audit lease_event
              audit_event row)
        db
      ≡ ok (lease, db')

pub acquire-Acquired :
    (platform : Platform) (max : ℕ) (job_id owner_id : Text) (now : Timestamp) (ttl : ℕ)
    (audit : Option AuditContext) (lease_event audit_event : Text) (db : ControlDb) {lease : Lease}
    {db' : ControlDb}
    → acquire platform max job_id owner_id now ttl audit lease_event audit_event db
      ≡ ok (lease, db')
    → Acquired platform max job_id owner_id now ttl audit lease_event audit_event db lease db'
unfolding acquire job_row
acquire-Acquired platform max job_id owner_id now ttl audit lease_event audit_event db h =
    let (_, _, h1) = lift-eq-ok (require_text "job_id" job_id) _ db h in
    let (_, _, h2) = lift-eq-ok (require_text "owner_id" owner_id) _ db h1 in
    let (_, _, h3) = lift-eq-ok (require_ttl ttl) _ db h2 in
    let (now_us, at, h4) = lift-eq-ok (to_micros platform now) _ db h3 in
    let (expires_us, until, h5) = lift-eq-ok (to_micros platform (add_seconds now ttl)) _ db h4 in
    let (row, found, h6) = require_row-eq-ok (find_job job_id db.jobs) job_not_found _ db h5 in
    let (open_job, h7) = raise_if-eq-ok (is_completed row.state) _ _ db h6 in
    let (held, live, h8) = lift-eq-ok (holds_lease now_us row) _ db h7 in
    record {
      row = row;
      now_us = now_us;
      expires_us = expires_us;
      held = held;
      at = at;
      until = until;
      found = found;
      open_job = open_job;
      live = holds_lease-live now_us row held live;
      run = h8;
    }

pub acquire-JobsStep :
    (platform : Platform) (max : ℕ) (job_id owner_id : Text) (now : Timestamp) (ttl : ℕ)
    (audit : Option AuditContext) (lease_event audit_event : Text) (db : ControlDb) {lease : Lease}
    {db' : ControlDb}
    → acquire platform max job_id owner_id now ttl audit lease_event audit_event db
      ≡ ok (lease, db')
    → (now_us : ℕ) × (to_micros platform now ≡ ok now_us) × JobsStep max now_us db.jobs db'.jobs
acquire-JobsStep platform max job_id owner_id now ttl audit lease_event audit_event db {lease} {db'}
      h =
    let a =
      acquire-Acquired platform max job_id owner_id now ttl audit lease_event audit_event db h in
    (a.now_us, a.at, branch a a.held refl)
  where
    branch :
        (a : Acquired platform max job_id owner_id now ttl audit lease_event audit_event db lease
          db')
        (held : Bool)
        → a.held ≡ held
        → JobsStep max a.now_us db.jobs db'.jobs
    branch a true e =
        kept (acquire_held-ok platform owner_id audit audit_event a.row db (rw e at a.run)).0
    branch a false e =
        let (room, changed) =
          acquire_free-ok platform max job_id owner_id a.now_us a.expires_us audit lease_event
            audit_event a.row db a.found (rw e at a.run) in
        leased_to job_id owner_id a.expires_us a.row a.found a.open_job (rw e at a.live) room
          changed
