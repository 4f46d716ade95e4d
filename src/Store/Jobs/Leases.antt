-- ===== src/Store/Jobs/Leases.antt =====
-- The lease that `acquire` returns is the one that its job's row then holds.
use workflow_helper_public.Base.{
  ℕ, ◌+◌, ◌≡◌, refl, true, false, Bool, Option, some, arith, if◌then◌else◌, ok,
}
use workflow_helper_public.Text.{Text}
use workflow_helper_public.Text.Equality.{text_eq_refl}
use workflow_helper_public.Platform.{Platform, Timestamp, to_micros}
use workflow_helper_public.Audit.{AuditContext}
use workflow_helper_public.Store.Rows.{
  JobRow, ControlDb, Lease, find_job, is_live, is_completed, lease_from_row, update_job, job_row,
  append_lease_event, append_audit_event,
}
use workflow_helper_public.Store.Rows.Lookup.{find_job-replace_job, find_job-job_id}
use workflow_helper_public.Store.Jobs
use workflow_helper_public.Store.Jobs.{leased_row, acquire_free, acquire_held}
use workflow_helper_public.Store.Jobs.Transitions.{
  Acquired, acquire-Acquired, acquire_free-ok, acquire_held-ok,
}

-- A lease with the owner, the token and the attempt of a row.
pub record IsLeaseOf (lease : Lease) (row : JobRow) : Type 0 where
  pub of_job : lease.job_id ≡ row.job_id
  pub of_owner : row.current_owner_id ≡ some lease.owner_id
  pub of_token : lease.fencing_token ≡ row.current_fencing_token
  pub of_attempt : lease.attempt ≡ row.current_attempt

pub lease_from_row-IsLeaseOf :
    (platform : Platform) (row : JobRow) (lease : Lease)
    → lease_from_row platform row ≡ ok lease
    → IsLeaseOf lease row
unfolding lease_from_row
lease_from_row-IsLeaseOf platform row lease h = ground arith

acquire_free-lease :
    (platform : Platform) (max : ℕ) (job_id owner_id : Text) (now expires : ℕ)
    (audit : Option AuditContext) (lease_event audit_event : Text) (row : JobRow) (db : ControlDb)
    {lease : Lease} {db' : ControlDb}
    → find_job job_id db.jobs ≡ some row
    → acquire_free platform max job_id owner_id now expires audit lease_event audit_event row db
      ≡ ok (lease, db')
    → lease_from_row platform (leased_row owner_id now expires row) ≡ ok lease
unfolding acquire_free update_job append_lease_event job_row append_audit_event
acquire_free-lease platform max job_id owner_id now expires audit lease_event audit_event row db
      found h =
    ground (
      arith,
      find_job-replace_job job_id job_id (leased_row owner_id now expires row) db.jobs row
          (unfold leased_row in find_job-job_id job_id db.jobs row found),
      text_eq_refl job_id,
    )

-- How a job stands once a call of `acquire` has returned.
pub record Granted (job_id owner_id : Text) (now_us expires_us : ℕ) (old : JobRow) (lease : Lease)
    (db' : ControlDb) : Type 0 where
  pub row : JobRow
  pub found : find_job job_id db'.jobs ≡ some row
  pub granted : IsLeaseOf lease row
  pub owned : row.current_owner_id ≡ some owner_id
  pub is_open : is_completed row.state ≡ false
  -- A fresh lease has a token of its own; an owner that still holds one gets it again.
  pub token :
      row.current_fencing_token
      ≡ (if is_live now_us old then old.current_fencing_token else old.current_fencing_token + 1)

pub acquire-Granted :
    (platform : Platform) (max : ℕ) (job_id owner_id : Text) (now : Timestamp) (ttl : ℕ)
    (audit : Option AuditContext) (lease_event audit_event : Text) (db : ControlDb) {lease : Lease}
    {db' : ControlDb}
    → Jobs.acquire platform max job_id owner_id now ttl audit lease_event audit_event db
      ≡ ok (lease, db')
    → (now_us expires_us : ℕ) × (old : JobRow) × (to_micros platform now ≡ ok now_us)
      × (find_job job_id db.jobs ≡ some old)
      × Granted job_id owner_id now_us expires_us old lease db'
unfolding leased_row
acquire-Granted platform max job_id owner_id now ttl audit lease_event audit_event db {lease} {db'}
      h =
    let a =
      acquire-Acquired platform max job_id owner_id now ttl audit lease_event audit_event db h in
    (a.now_us, a.expires_us, a.row, a.at, a.found, branch a a.held refl)
  where
    branch :
        (a : Acquired platform max job_id owner_id now ttl audit lease_event audit_event db lease
          db')
        (held : Bool)
        → a.held ≡ held
        → Granted job_id owner_id a.now_us a.expires_us a.row lease db'
    branch a true e =
        let (same, owner, lease_of) =
          acquire_held-ok platform owner_id audit audit_event a.row db (rw e at a.run) in
        record {
          row = a.row;
          found = rw same a.found;
          granted = lease_from_row-IsLeaseOf platform a.row lease lease_of;
          owned = owner;
          is_open = a.open_job;
          token = ground (arith, a.live, e);
        }
    branch a false e =
        let run = rw e at a.run in
        let (_, changed) =
          acquire_free-ok platform max job_id owner_id a.now_us a.expires_us audit lease_event
            audit_event a.row db a.found run in
        let lease_of =
          acquire_free-lease platform max job_id owner_id a.now_us a.expires_us audit lease_event
            audit_event a.row db a.found run in
        let new = leased_row owner_id a.now_us a.expires_us a.row in
        record {
          row = new;
          found = rw changed (
              ground (
                arith,
                find_job-replace_job job_id job_id new db.jobs a.row
                    (find_job-job_id job_id db.jobs a.row a.found) a.found,
                text_eq_refl job_id,
              ));
          granted = lease_from_row-IsLeaseOf platform new lease lease_of;
          owned = refl;
          is_open = refl;
          token = ground (arith, a.live, e);
        }
