-- ===== src/Store/Jobs/Calls.antt =====
-- Calls of the store in sequence, by any number of processes: SQLite lets one transaction in at a
-- time, so a history is a list of calls.
use workflow_helper_public.Base.{
  ℕ, ◌≤◌, ◌≡◌, refl, List, [], ◌∷◌, Option, arith, Result, ok, err, Tx, transaction, subst,
}
use workflow_helper_public.Text.{Text}
use workflow_helper_public.Platform.{Platform, Timestamp, to_micros}
use workflow_helper_public.Audit.{AuditContext}
use workflow_helper_public.Store.Rows.{ControlDb, Lease}
use workflow_helper_public.Store.Jobs
use workflow_helper_public.Store.Jobs.{register_job, heartbeat_lease}
use workflow_helper_public.Store.Jobs.Transitions.{
  JobsStep, kept, acquire-JobsStep, heartbeat_lease-Renewed, renewed, complete-JobsStep,
  register_job-JobsStep,
}

-- A call with its arguments; the last texts are what `uuid4()` gives to it.
pub data Call : Type 0 where
  register : Text → Text → Timestamp → Option AuditContext → Text → Call
  acquire : Text → Text → Timestamp → ℕ → Option AuditContext → Text → Text → Call
  heartbeat : Lease → Timestamp → ℕ → Option AuditContext → Text → Text → Call
  complete : Lease → Text → Text → Timestamp → Option AuditContext → Text → Text → Call

abbrev pub time_of : Call → Timestamp
time_of (Call.register _ _ now _ _) = now
time_of (Call.acquire _ _ now _ _ _ _) = now
time_of (Call.heartbeat _ now _ _ _ _) = now
time_of (Call.complete _ _ _ now _ _ _) = now

module _ (platform : Platform) (max : ℕ) where
  -- The database after one call, whether it returned or raised.
  unfoldable pub step : Call → ControlDb → ControlDb
  step (Call.register id digest now audit event) db =
      (transaction (register_job platform id digest now audit event) db).1
  step (Call.acquire id owner now ttl audit event event') db =
      (transaction (Jobs.acquire platform max id owner now ttl audit event event') db).1
  step (Call.heartbeat lease now ttl audit event event') db =
      (transaction (heartbeat_lease platform lease now ttl audit event event') db).1
  step (Call.complete lease key digest now audit event event') db =
      (transaction (Jobs.complete platform lease key digest now audit event event') db).1

  unfoldable pub run : List Call → ControlDb → ControlDb
  run [] db = db
  run (call ∷ calls) db = run calls (step call db)

  abbrev pub clock : Call → ℕ
  clock call = platform.micros_of (time_of call).instant

  -- The clock readings of the calls do not go back, from `now` on.
  abbrev pub IsOrdered : ℕ → List Call → Type 0
  IsOrdered now [] = Unit
  IsOrdered now (call ∷ calls) = (now ≤ clock call) × IsOrdered (clock call) calls

  -- The reading of the last call.
  abbrev pub last_clock : ℕ → List Call → ℕ
  last_clock now [] = now
  last_clock now (call ∷ calls) = last_clock (clock call) calls

  to_micros-clock :
      (now : Timestamp) (us : ℕ)
      → to_micros platform now ≡ ok us
      → us ≡ platform.micros_of now.instant
  to_micros-clock now us h = ground arith

  committed :
      {A : Type 0} (m : Tx ControlDb A) (db : ControlDb) (now : Timestamp)
      → ((a : A) (db' : ControlDb)
          → m db ≡ ok (a, db')
          → (us : ℕ) × (to_micros platform now ≡ ok us) × JobsStep max us db.jobs db'.jobs)
      → JobsStep max (platform.micros_of now.instant) db.jobs (transaction m db).1.jobs
  committed {A} m db now h = outcome (m db) refl
    where
      outcome :
          (r : Result (A × ControlDb))
          → m db ≡ r
          → JobsStep max (platform.micros_of now.instant) db.jobs (transaction (λ _. r) db).1.jobs
      outcome (err e) p = kept refl
      outcome (ok (a, db')) p =
          let (us, at, changed) = h a db' p in
          subst (λ t. JobsStep max t db.jobs db'.jobs) (to_micros-clock now us at) changed

  -- Every call changes the jobs by one transition, at its own clock reading.
  pub step-JobsStep :
      (call : Call) (db : ControlDb) → JobsStep max (clock call) db.jobs (step call db).jobs
  unfolding step
  step-JobsStep (Call.register id digest now audit event) db =
      committed (register_job platform id digest now audit event) db now
        (λ _ _ h. register_job-JobsStep max platform id digest now audit event db h)
  step-JobsStep (Call.acquire id owner now ttl audit event event') db =
      committed (Jobs.acquire platform max id owner now ttl audit event event') db now
        (λ _ _ h. acquire-JobsStep platform max id owner now ttl audit event event' db h)
  step-JobsStep (Call.heartbeat lease now ttl audit event event') db =
      committed (heartbeat_lease platform lease now ttl audit event event') db now (λ _ _ h.
        let r = heartbeat_lease-Renewed platform lease now ttl audit event event' db h in
        (r.now_us, r.at, renewed lease.job_id r.expires_us r.row r.found r.live r.changed))
  step-JobsStep (Call.complete lease key digest now audit event event') db =
      committed (Jobs.complete platform lease key digest now audit event event') db now
        (λ _ _ h. complete-JobsStep max platform lease key digest now audit event event' db h)
