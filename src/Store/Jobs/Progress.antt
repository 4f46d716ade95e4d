-- ===== src/Store/Jobs/Progress.antt =====
-- The rows that the store can hold, and that a job which nobody leases can be acquired.
use workflow_helper_public.Base.{
  ℕ, ◌+◌, ◌≤◌, ◌<◌, ◌≡◌, true, false, List, [], ◌∷◌, ◌++◌, none, some, arith, if◌then◌else◌, ok,
  inl, inr, ◌==◌, subst, length, is_some,
}
use workflow_helper_public.Text.{Text, is_blank}
use workflow_helper_public.Text.Equality.{Text-cases, text_eq_iff, text_eq_refl}
use workflow_helper_public.Platform.{Platform, Timestamp, from_micros, add_seconds}
use workflow_helper_public.Checks.{require_text, require_ttl, max_lease_seconds}
use workflow_helper_public.Audit.{append_audit}
use workflow_helper_public.Store.Rows.{
  JobRow, LeaseEventRow, acquired, reacquired, ControlDb, empty_db, find_job, replace_job, is_live,
  is_completed, is_leased, job_checks, lease_from_row, update_job, job_row, append_lease_event,
  append_audit_event, active_count, has_lease_event,
}
use workflow_helper_public.Store.Rows.Lookup.{
  find_job-replace_job, find_job-append, find_job-job_id,
}
use workflow_helper_public.Store.Jobs
use workflow_helper_public.Store.Jobs.{
  new_job, leased_row, renewed_row, completed_row, acquire_free, holds_lease,
}
use workflow_helper_public.Store.Jobs.Transitions.{
  JobsStep, kept, registered, leased_to, renewed, finished,
}
use workflow_helper_public.Store.Jobs.Calls.{Call, step, run, clock, step-JobsStep}

-- A row that satisfies the table's constraints, counts its attempts by its tokens, and knows
-- when its lease began.
pub record IsStored (row : JobRow) : Type 0 where
  pub checked : job_checks row ≡ true
  pub counted : row.current_attempt ≡ row.current_fencing_token
  pub dated : is_leased row.state ≡ true → is_some row.lease_acquired_at ≡ true
  pub tokened : is_leased row.state ≡ true → 0 < row.current_fencing_token

abbrev AllStored : List JobRow → Type 0
AllStored jobs = (id : Text) (row : JobRow) → find_job id jobs ≡ some row → IsStored row

new_job-IsStored : (id digest : Text) (now : ℕ) → IsStored (new_job id digest now)
unfolding new_job job_checks
new_job-IsStored id digest now = ground arith

leased_row-IsStored :
    (owner : Text) (now expires : ℕ) (row : JobRow)
    → IsStored row
    → IsStored (leased_row owner now expires row)
unfolding leased_row job_checks
leased_row-IsStored owner now expires row h = ground arith

renewed_row-IsStored :
    (now expires : ℕ) (row : JobRow) → IsStored row → IsStored (renewed_row now expires row)
unfolding renewed_row job_checks
renewed_row-IsStored now expires row h = ground arith

completed_row-IsStored :
    (key digest : Text) (now : ℕ) (row : JobRow)
    → IsStored row
    → IsStored (completed_row key digest now row)
unfolding completed_row job_checks
completed_row-IsStored key digest now row h = ground arith

replace_job-AllStored :
    (other : Text) (old new : JobRow) (jobs : List JobRow)
    → find_job other jobs ≡ some old
    → new.job_id ≡ other
    → IsStored new
    → AllStored jobs
    → AllStored (replace_job other new jobs)
replace_job-AllStored other old new jobs there own stored all id row found =
    elim (Text-cases other id) [
      | inl same ↦
          let is_new : new ≡ row =
            ground
              (arith, find_job-replace_job other id new jobs old own there, text_eq_iff other id) in
          subst IsStored is_new stored
      | inr differs ↦
          all id row (ground (arith, find_job-replace_job other id new jobs old own there))
    ]

append-AllStored :
    (new : JobRow) (jobs : List JobRow)
    → find_job new.job_id jobs ≡ none
    → IsStored new
    → AllStored jobs
    → AllStored (jobs ++ new ∷ [])
append-AllStored new jobs absent stored all id row found = elim (Text-cases new.job_id id) [
  | inl same ↦
      let is_new : new ≡ row =
        ground (arith, find_job-append id new jobs absent, text_eq_iff new.job_id id) in
      subst IsStored is_new stored
  | inr differs ↦ all id row (ground (arith, find_job-append id new jobs absent))
]

JobsStep-AllStored :
    (max now : ℕ) (jobs jobs' : List JobRow)
    → JobsStep max now jobs jobs'
    → AllStored jobs
    → AllStored jobs'
unfolding new_job leased_row renewed_row completed_row
JobsStep-AllStored max now jobs jobs' (kept e) all = rw e all
JobsStep-AllStored max now jobs jobs' (registered id digest absent e) all =
    rw e (append-AllStored (new_job id digest now) jobs absent (new_job-IsStored id digest now) all)
JobsStep-AllStored max now jobs jobs' (leased_to other owner expires old there _ _ _ e) all = rw e (
    replace_job-AllStored other old (leased_row owner now expires old) jobs there
      (find_job-job_id other jobs old there)
      (leased_row-IsStored owner now expires old (all other old there)) all)
JobsStep-AllStored max now jobs jobs' (renewed other expires old there _ e) all = rw e (
    replace_job-AllStored other old (renewed_row now expires old) jobs there
      (find_job-job_id other jobs old there)
      (renewed_row-IsStored now expires old (all other old there)) all)
JobsStep-AllStored max now jobs jobs' (finished other key digest old there _ e) all = rw e (
    replace_job-AllStored other old (completed_row key digest now old) jobs there
      (find_job-job_id other jobs old there)
      (completed_row-IsStored key digest now old (all other old there)) all)

run-AllStored :
    (platform : Platform) (max : ℕ) (calls : List Call) (db : ControlDb)
    → AllStored db.jobs
    → AllStored (run platform max calls db).jobs
unfolding run
run-AllStored platform max [] db all = all
run-AllStored platform max (call ∷ calls) db all =
    run-AllStored platform max calls (step platform max call db) (
      JobsStep-AllStored max (clock platform max call) db.jobs (step platform max call db).jobs
        (step-JobsStep platform max call db) all)

-- Every job of a store that was built by calls satisfies the constraints of its table, has made as
-- many attempts as its fencing token says, and if leased, knows since when and has a token above 0.
pub reached-IsStored :
    (platform : Platform) (max : ℕ) (calls : List Call) (id : Text) (row : JobRow)
    → find_job id (run platform max calls empty_db).jobs ≡ some row
    → IsStored row
unfolding find_job
reached-IsStored platform max calls = run-AllStored platform max calls empty_db (λ id row h. cc)

-- The lease event that `acquire` writes for a fresh lease.
pub acquire_event : Text → Text → ℕ → ℕ → Text → JobRow → ℕ → LeaseEventRow
acquire_event job_id owner_id now_us expires_us event_id row sequence = record {
  sequence = sequence;
  event_id = event_id;
  job_id = job_id;
  event_type = if row.current_fencing_token + 1 == 1 then acquired else reacquired;
  owner_id = owner_id;
  fencing_token = row.current_fencing_token + 1;
  attempt = row.current_attempt + 1;
  occurred_at = now_us;
  lease_expires_at = some expires_us;
  result_digest = none;
}

acquire_free-run :
    (platform : Platform) (max : ℕ) (job_id owner_id : Text) (now_us expires_us : ℕ)
    (event event' : Text) (db : ControlDb) (row : JobRow)
    → find_job job_id db.jobs ≡ some row
    → active_count now_us db.jobs < max
    → has_lease_event event db.lease_events ≡ false
    → acquire_free platform max job_id owner_id now_us expires_us none event event' row db
      ≡ ok (
        record {
          job_id = row.job_id;
          owner_id = owner_id;
          fencing_token = row.current_fencing_token + 1;
          attempt = row.current_attempt + 1;
          acquired_at = from_micros platform now_us;
          expires_at = from_micros platform expires_us;
        },
        record db {
          jobs = replace_job job_id (leased_row owner_id now_us expires_us row) db.jobs;
          lease_events =
              db.lease_events
              ++ acquire_event job_id owner_id now_us expires_us event row
                  (length db.lease_events + 1)
                ∷ [];
        },
      )
unfolding acquire_free update_job append_lease_event job_row append_audit_event append_audit
    job_checks leased_row lease_from_row acquire_event
acquire_free-run platform max job_id owner_id now_us expires_us event event' db row found room
      fresh =
    ground (
      arith,
      find_job-replace_job job_id job_id (leased_row owner_id now_us expires_us row) db.jobs row
          (find_job-job_id job_id db.jobs row found),
      text_eq_refl job_id,
    )

holds_lease-run :
    (now_us : ℕ) (row : JobRow)
    → job_checks row ≡ true
    → is_live now_us row ≡ false
    → holds_lease now_us row ≡ ok false
unfolding holds_lease is_live job_checks
holds_lease-run now_us row checked free = ground arith

-- A job that is not completed and that no live lease holds can be acquired whenever there is room:
-- the lease has the next token and attempt and lasts as long as was asked for.
pub acquire_succeeds :
    (platform : Platform) (max : ℕ) (job_id owner_id : Text) (now : Timestamp) (ttl : ℕ)
    (event event' : Text) (db : ControlDb) (row : JobRow)
    → is_blank job_id ≡ false
    → is_blank owner_id ≡ false
    → 1 ≤ ttl
    → ttl ≤ max_lease_seconds
    → now.aware ≡ true
    → find_job job_id db.jobs ≡ some row
    → IsStored row
    → is_completed row.state ≡ false
    → is_live (platform.micros_of now.instant) row ≡ false
    → active_count (platform.micros_of now.instant) db.jobs < max
    → has_lease_event event db.lease_events ≡ false
    → let now_us = platform.micros_of now.instant in
      let expires_us = platform.micros_of (add_seconds now ttl).instant in
      Jobs.acquire platform max job_id owner_id now ttl none event event' db
      ≡ ok (
        record {
          job_id = row.job_id;
          owner_id = owner_id;
          fencing_token = row.current_fencing_token + 1;
          attempt = row.current_attempt + 1;
          acquired_at = from_micros platform now_us;
          expires_at = from_micros platform expires_us;
        },
        record db {
          jobs = replace_job job_id (leased_row owner_id now_us expires_us row) db.jobs;
          lease_events =
              db.lease_events
              ++ acquire_event job_id owner_id now_us expires_us event row
                  (length db.lease_events + 1)
                ∷ [];
        },
      )
unfolding Jobs.acquire require_text require_ttl job_row
acquire_succeeds platform max job_id owner_id now ttl event event' db row a b c d e found stored
      open_job free room fresh =
    ground (
      arith,
      holds_lease-run (platform.micros_of now.instant) row stored.checked free,
      acquire_free-run platform max job_id owner_id (platform.micros_of now.instant)
          (platform.micros_of (add_seconds now ttl).instant) event event' db row found room fresh,
    )
