-- ===== src/Store/Jobs/Replay.antt =====
-- A completed job never changes, and `complete` may be repeated.
use workflow_helper_public.Base.{
  ℕ, ◌≡◌, ◌≢◌, refl, true, false, List, [], ◌∷◌, Option, none, some, arith, ok, Bool, err, ◌⊎◌,
  conflict_error, lift-eq-ok, ◌>>◌, pure,
}
use workflow_helper_public.Text.{Text, is_blank}
use workflow_helper_public.Text.Equality.{text_eq_iff, text_eq_refl, opt_text_eq_iff}
use workflow_helper_public.Platform.{Platform, Timestamp}
use workflow_helper_public.Checks.{is_sha256, require_text, require_sha256}
use workflow_helper_public.Audit.{AuditContext}
use workflow_helper_public.Store.Rows.{
  JobRow, ControlDb, Lease, Completion, find_job, replace_job, is_live, is_completed,
  completion_from_row, update_job, job_row, append_lease_event, append_audit_event,
}
use workflow_helper_public.Store.Rows.Lookup.{
  find_job-replace_job, find_job-append, find_job-job_id,
}
use workflow_helper_public.Store.Jobs
use workflow_helper_public.Store.Jobs.{
  new_job, leased_row, renewed_row, completed_row, complete_again, complete_now, same_lease,
}
use workflow_helper_public.Store.Jobs.Transitions.{
  JobsStep, kept, registered, leased_to, renewed, finished, Completed, complete-Completed,
  complete_again-ok, complete_now-ok,
}
use workflow_helper_public.Store.Jobs.Calls.{Call, step, run, clock, step-JobsStep}

replace_job-other :
    (id other : Text) (row old new : JobRow) (jobs : List JobRow)
    → find_job id jobs ≡ some row
    → find_job other jobs ≡ some old
    → new.job_id ≡ other
    → is_completed row.state ≡ true
    → is_completed old.state ≡ false
    → find_job id (replace_job other new jobs) ≡ some row
replace_job-other id other row old new jobs here there own done live =
    ground (arith, find_job-replace_job other id new jobs old own there, text_eq_iff other id)

live-not_completed :
    (now : ℕ) (row : JobRow) → is_live now row ≡ true → is_completed row.state ≡ false
unfolding is_live
live-not_completed now row h = ground arith

JobsStep-completed :
    (max now : ℕ) (jobs jobs' : List JobRow) (id : Text) (row : JobRow)
    → JobsStep max now jobs jobs'
    → find_job id jobs ≡ some row
    → is_completed row.state ≡ true
    → find_job id jobs' ≡ some row
unfolding new_job leased_row renewed_row completed_row
JobsStep-completed max now jobs jobs' id row (kept e) f d = rw e f
JobsStep-completed max now jobs jobs' id row (registered other digest new e) f d =
    rw e (ground (arith, find_job-append id (new_job other digest now) jobs, text_eq_iff other id))
JobsStep-completed max now jobs jobs' id row (leased_to other owner expires old there is_open _ _ e)
      f d =
    rw e (
      replace_job-other id other row old (leased_row owner now expires old) jobs f there
        (find_job-job_id other jobs old there) d is_open)
JobsStep-completed max now jobs jobs' id row (renewed other expires old there live e) f d = rw e (
    replace_job-other id other row old (renewed_row now expires old) jobs f there
      (find_job-job_id other jobs old there) d (live-not_completed now old live))
JobsStep-completed max now jobs jobs' id row (finished other key digest old there live e) f d =
    rw e (
      replace_job-other id other row old (completed_row key digest now old) jobs f there
        (find_job-job_id other jobs old there) d (live-not_completed now old live))

-- A completed job keeps its row, with its result and its completing lease, whatever is called.
pub completed_immutable :
    (platform : Platform) (max : ℕ) (calls : List Call) (db : ControlDb) (id : Text) (row : JobRow)
    → find_job id db.jobs ≡ some row
    → is_completed row.state ≡ true
    → find_job id (run platform max calls db).jobs ≡ some row
unfolding run
completed_immutable platform max [] db id row f d = f
completed_immutable platform max (call ∷ calls) db id row f d =
    completed_immutable platform max calls (step platform max call db) id row
      (JobsStep-completed max (clock platform max call) db.jobs (step platform max call db).jobs id
        row (step-JobsStep platform max call db) f d)
      d

-- How a job stands once `complete` has returned.
record Settled (platform : Platform) (lease : Lease) (key digest : Text) (completion : Completion)
    (db' : ControlDb) : Type 0 where
  row : JobRow
  found : find_job lease.job_id db'.jobs ≡ some row
  done : is_completed row.state ≡ true
  same : same_lease row lease ≡ true
  keyed : row.completion_idempotency_key ≡ some key
  digested : row.completion_result_digest ≡ some digest
  returned : completion_from_row platform row ≡ ok completion

complete_now-returned :
    (platform : Platform) (lease : Lease) (key digest : Text) (now : ℕ)
    (audit : Option AuditContext) (lease_event audit_event : Text) (row : JobRow) (db : ControlDb)
    {completion : Completion} {db' : ControlDb}
    → find_job lease.job_id db.jobs ≡ some row
    → complete_now platform lease key digest now audit lease_event audit_event row db
      ≡ ok (completion, db')
    → completion_from_row platform (completed_row key digest now row) ≡ ok completion
unfolding complete_now update_job append_lease_event job_row append_audit_event
complete_now-returned platform lease key digest now audit lease_event audit_event row db found h =
    ground (
      arith,
      find_job-replace_job lease.job_id lease.job_id (completed_row key digest now row) db.jobs row
          (unfold completed_row in find_job-job_id lease.job_id db.jobs row found),
      text_eq_refl lease.job_id,
    )

complete-Settled :
    (platform : Platform) (lease : Lease) (key digest : Text) (now : Timestamp)
    (audit : Option AuditContext) (lease_event audit_event : Text) (db : ControlDb)
    {completion : Completion} {db' : ControlDb}
    → Jobs.complete platform lease key digest now audit lease_event audit_event db
      ≡ ok (completion, db')
    → Settled platform lease key digest completion db'
unfolding completed_row
complete-Settled platform lease key digest now audit lease_event audit_event db {completion} {db'}
      h =
    let c = complete-Completed platform lease key digest now audit lease_event audit_event db h in
    branch c (is_completed c.row.state) refl
  where
    branch :
        (c : Completed platform lease key digest now audit lease_event audit_event db completion
          db')
        (done : Bool)
        → is_completed c.row.state ≡ done
        → Settled platform lease key digest completion db'
    branch c true e =
        let (jobs, same, keyed, digested, returned) =
          complete_again-ok platform lease key digest audit audit_event c.row db (rw e at c.run) in
        record {
          row = c.row;
          found = rw jobs c.found;
          done = e;
          same = same;
          keyed = keyed;
          digested = digested;
          returned = returned;
        }
    branch c false e =
        let run = rw e at c.run in
        let (live, same, changed) =
          complete_now-ok platform lease key digest c.now_us audit lease_event audit_event c.row db
            c.found run in
        let new = completed_row key digest c.now_us c.row in
        record {
          row = new;
          found = rw changed (
              ground (
                arith,
                find_job-replace_job lease.job_id lease.job_id new db.jobs c.row
                    (find_job-job_id lease.job_id db.jobs c.row c.found) c.found,
                text_eq_refl lease.job_id,
              ));
          done = refl;
          same = unfold same_lease in same;
          keyed = refl;
          digested = refl;
          returned =
              complete_now-returned platform lease key digest c.now_us audit lease_event audit_event
                c.row db c.found run;
        }

complete-arguments :
    (platform : Platform) (lease : Lease) (key digest : Text) (now : Timestamp)
    (audit : Option AuditContext) (lease_event audit_event : Text) (db : ControlDb)
    {completion : Completion} {db' : ControlDb}
    → Jobs.complete platform lease key digest now audit lease_event audit_event db
      ≡ ok (completion, db')
    → (is_blank key ≡ false) × (is_sha256 digest ≡ true)
unfolding Jobs.complete require_text require_sha256
complete-arguments platform lease key digest now audit lease_event audit_event db h =
    let (_, a, h1) = lift-eq-ok (require_text "idempotency_key" key) _ db h in
    let (_, b, h2) = lift-eq-ok (require_sha256 "result_digest" digest) _ db h1 in
    (ground arith, ground arith)

module _ (platform : Platform) (max : ℕ) (lease : Lease) (key digest : Text) (now : Timestamp)
    (audit : Option AuditContext) (lease_event audit_event : Text) (db : ControlDb)
    (completion : Completion) (db' : ControlDb)
    (first : Jobs.complete platform lease key digest now audit lease_event audit_event db
      ≡ ok (completion, db'))
    (calls : List Call) (later : Timestamp) (in_utc : later.aware ≡ true)
    (event event' : Text) where
  abbrev after : ControlDb
  after = run platform max calls db'

  -- A completion that returned may be repeated by its lease at any later time with a time zone,
  -- whatever was called in between, and with whatever audit context or none. The call then does no
  -- more than append that audit context: it raises what the appending raises, and otherwise returns
  -- the same completion.
  pub complete_replayed :
      (again : Option AuditContext)
      → Jobs.complete platform lease key digest later again event event' after
        ≡ (append_audit_event platform again event' >> pure completion) after
  unfolding Jobs.complete complete_again job_row require_text require_sha256
  complete_replayed again =
      let s =
        complete-Settled platform lease key digest now audit lease_event audit_event db first in
      let (texted, hashed) =
        complete-arguments platform lease key digest now audit lease_event audit_event db first in
      let found = completed_immutable platform max calls db' lease.job_id s.row s.found s.done in
      ground (
        arith,
        opt_text_eq_iff s.row.completion_idempotency_key (some key),
        opt_text_eq_iff s.row.completion_result_digest (some digest),
      )

  -- The same lease cannot put another result in its place: with another key or another digest the
  -- call raises a conflict, at any later time.
  pub complete_conflicts :
      (key' digest' : Text)
      → is_blank key' ≡ false
      → is_sha256 digest' ≡ true
      → (key' ≢ key) ⊎ (digest' ≢ digest)
      → Jobs.complete platform lease key' digest' later none event event' after
        ≡ err (conflict_error "completion conflicts with the immutable result")
  unfolding Jobs.complete complete_again job_row require_text require_sha256
  complete_conflicts key' digest' texted hashed other =
      let s =
        complete-Settled platform lease key digest now audit lease_event audit_event db first in
      let found = completed_immutable platform max calls db' lease.job_id s.row s.found s.done in
      ground (
        arith,
        opt_text_eq_iff s.row.completion_idempotency_key (some key'),
        opt_text_eq_iff s.row.completion_result_digest (some digest'),
      )
