-- ===== src/Store/Jobs/Tests.antt =====
-- Runs of the job operations, and the theorems about them at concrete stores.
use workflow_helper_public.Base.{
  ℕ, ◌*◌, ◌+◌, ◌≤◌, ◌≡◌, ◌≢◌, refl, true, false, List, [], ◌∷◌, ◌++◌, none, some, arith, ok, err,
  inr, lease_unavailable, conflict_error, length, ◌>>◌, pure,
}
use workflow_helper_public.Text.{Text, codes, text_eq, is_blank, is_hex, is_space}
use workflow_helper_public.Platform.{Timestamp, exact_platform}
use workflow_helper_public.Checks.{is_sha256, require_text, require_sha256, require_ttl}
use workflow_helper_public.Audit.{append_audit, AuditContext}
use workflow_helper_public.Store.Rows.{
  JobRow, ControlDb, empty_db, Lease, Completion, find_job, replace_job, is_live, is_completed,
  active_count, insert_job, update_job, job_row, append_lease_event, append_audit_event,
  job_from_row, lease_from_row, completion_from_row, job_checks, has_lease_event,
}
use workflow_helper_public.Store.Jobs
use workflow_helper_public.Store.Jobs.{
  new_job, leased_row, renewed_row, completed_row, register_job, heartbeat_lease, same_lease,
  require_current_lease, acquire_free, acquire_held, complete_again, complete_now, holds_lease,
  register_row, heartbeat_write,
}
use workflow_helper_public.Store.Jobs.Leases.{IsLeaseOf}
use workflow_helper_public.Store.Jobs.Calls.{Call, step, run}
use workflow_helper_public.Store.Jobs.Limit.{active_leases_bounded}
use workflow_helper_public.Store.Jobs.Fencing.{
  Later, run-Later, Refused, acquire-Refused, acquire_exclusive,
}
use workflow_helper_public.Store.Jobs.Replay.{
  completed_immutable, complete_replayed, complete_conflicts,
}
use workflow_helper_public.Store.Jobs.Progress.{
  IsStored, reached-IsStored, acquire_succeeds, acquire_event,
}

-- The code that a run goes through.
store_code : Unit {0}
unfolding text_eq is_blank is_hex is_sha256 require_text require_sha256 require_ttl append_audit
    find_job replace_job is_live active_count insert_job update_job job_row append_lease_event
    append_audit_event job_from_row lease_from_row completion_from_row job_checks has_lease_event
    new_job leased_row renewed_row completed_row register_job Jobs.acquire heartbeat_lease
    Jobs.complete same_lease require_current_lease acquire_free acquire_held complete_again
    complete_now holds_lease register_row heartbeat_write step run
store_code = tt

abbrev second : ℕ → Timestamp
second n = record { aware = true; instant = n * 1000000 }

abbrev digest_a : Text
digest_a = codes "aaaaaaaaaaaaaaaaaaaaaaaaaaaaaaaaaaaaaaaaaaaaaaaaaaaaaaaaaaaaaaaa"

abbrev digest_b : Text
digest_b = codes "bbbbbbbbbbbbbbbbbbbbbbbbbbbbbbbbbbbbbbbbbbbbbbbbbbbbbbbbbbbbbbbb"

abbrev job : Text
job = codes "j1"

abbrev registration : Call
registration = Call.register job digest_a (second 1) none (codes "e1")

abbrev first_acquire : Call
first_acquire = Call.acquire job (codes "w1") (second 2) 10 none (codes "e2") (codes "e3")

-- A second worker, when the first lease has run out.
abbrev second_acquire : Call
second_acquire = Call.acquire job (codes "w2") (second 20) 10 none (codes "e4") (codes "e5")

abbrev first_lease : Lease
first_lease = record {
  job_id = job;
  owner_id = codes "w1";
  fencing_token = 1;
  attempt = 1;
  acquired_at = second 2;
  expires_at = second 12;
}

abbrev second_lease : Lease
second_lease = record {
  job_id = job;
  owner_id = codes "w2";
  fencing_token = 2;
  attempt = 2;
  acquired_at = second 20;
  expires_at = second 30;
}

abbrev history : List Call
history = registration ∷ first_acquire ∷ second_acquire ∷ []

abbrev db₁ : ControlDb
db₁ = run exact_platform 1 (registration ∷ []) empty_db

abbrev db₂ : ControlDb
db₂ = run exact_platform 1 (registration ∷ first_acquire ∷ []) empty_db

abbrev db₃ : ControlDb
db₃ = run exact_platform 1 history empty_db

abbrev row₁ : JobRow
row₁ = new_job job digest_a 1000000

abbrev row₂ : JobRow
row₂ = leased_row (codes "w1") 2000000 12000000 row₁

abbrev row₃ : JobRow
row₃ = leased_row (codes "w2") 20000000 30000000 row₂

first_leased :
    Jobs.acquire exact_platform 1 job (codes "w1") (second 2) 10 none (codes "e2") (codes "e3") db₁
    ≡ ok (first_lease, db₂)
unfolding store_code
first_leased = refl

second_leased :
    Jobs.acquire exact_platform 1 job (codes "w2") (second 20) 10 none (codes "e4") (codes "e5") db₂
    ≡ ok (second_lease, db₃)
unfolding store_code
second_leased = refl

while_leased_refused :
    Jobs.acquire exact_platform 1 job (codes "w2") (second 5) 10 none (codes "e4") (codes "e5") db₂
    ≡ err (lease_unavailable "job has an unexpired lease")
unfolding store_code
while_leased_refused = refl

found₂ : find_job job db₂.jobs ≡ some row₂
unfolding store_code
found₂ = refl

active_leases_bounded_example :
    active_count 21000000 (run exact_platform 1 history empty_db).jobs ≤ 1
active_leases_bounded_example =
    active_leases_bounded exact_platform 1 history 21000000 (omega arith) (omega arith)

run-Later_example : Later job row₂ (run exact_platform 1 (second_acquire ∷ []) db₂).jobs
run-Later_example = run-Later exact_platform 1 (second_acquire ∷ []) db₂ job row₂ found₂

held₂ : IsLeaseOf first_lease row₂
unfolding leased_row new_job
held₂ = record { of_job = refl; of_owner = refl; of_token = refl; of_attempt = refl }

expired₂ : is_live 20000000 row₂ ≡ false
unfolding leased_row new_job is_live
expired₂ = refl

acquire-Refused_example :
    Refused exact_platform first_lease (run exact_platform 1 (registration ∷ []) db₃)
acquire-Refused_example =
    acquire-Refused exact_platform 1 job (codes "w2") (second 20) 10 none (codes "e4") (codes "e5")
      db₂ row₂ first_lease second_lease db₃ found₂ expired₂ held₂ second_leased (registration ∷ [])

live₂ : is_live 5000000 row₂ ≡ true
unfolding leased_row new_job is_live
live₂ = refl

again₂ :
    Jobs.acquire exact_platform 1 job (codes "w1") (second 5) 10 none (codes "e4") (codes "e5") db₂
    ≡ ok (first_lease, db₂)
unfolding store_code
again₂ = refl

acquire_exclusive_example :
    (row₂.current_owner_id ≡ some (codes "w1")) × IsLeaseOf first_lease row₂ × (db₂.jobs ≡ db₂.jobs)
acquire_exclusive_example =
    acquire_exclusive exact_platform 1 job (codes "w1") (second 5) 10 none (codes "e4") (codes "e5")
      db₂ row₂ first_lease db₂ found₂ live₂ again₂

abbrev result_key : Text
result_key = codes "done"

abbrev result : Completion
result = record {
  job_id = job;
  idempotency_key = result_key;
  result_digest = digest_b;
  fencing_token = 2;
  completed_at = second 25;
}

abbrev db₄ : ControlDb
db₄ =
    step exact_platform 1
      (Call.complete second_lease result_key digest_b (second 25) none (codes "e6") (codes "e7"))
      db₃

completes :
    Jobs.complete exact_platform second_lease result_key digest_b
      (second 25)
      none
      (codes "e6")
      (codes "e7")
      db₃
    ≡ ok (result, db₄)
unfolding store_code
completes = refl

abbrev row₄ : JobRow
row₄ = completed_row result_key digest_b 25000000 row₃

found₄ : find_job job db₄.jobs ≡ some row₄
unfolding store_code
found₄ = refl

done₄ : is_completed row₄.state ≡ true
unfolding completed_row
done₄ = refl

completed_immutable_example : find_job job (run exact_platform 1 history db₄).jobs ≡ some row₄
completed_immutable_example = completed_immutable exact_platform 1 history db₄ job row₄ found₄ done₄

abbrev worker_audit : AuditContext
worker_audit = record {
  correlation_id = codes "c9";
  idempotency_key = none;
  subject_id = codes "worker";
  roles = codes "deterministic_worker" ∷ [];
  action = codes "job.complete";
  target_id = codes "job";
  result = codes "accepted";
  occurred_at = second 90;
}

complete_replayed_example :
    Jobs.complete exact_platform second_lease result_key digest_b
      (second 90)
      (some worker_audit)
      (codes "e8")
      (codes "e9")
      (run exact_platform 1 history db₄)
    ≡ (append_audit_event exact_platform (some worker_audit) (codes "e9") >> pure result)
        (run exact_platform 1 history db₄)
complete_replayed_example =
    complete_replayed exact_platform 1 second_lease result_key digest_b (second 25) none
      (codes "e6") (codes "e7") db₃ result db₄ completes history (second 90) refl (codes "e8")
      (codes "e9") (some worker_audit)

digest_a_hex : is_sha256 digest_a ≡ true
unfolding store_code
digest_a_hex = refl

key_text : is_blank result_key ≡ false
unfolding store_code is_space
key_text = refl

digests_differ : digest_a ≢ digest_b
digests_differ e = ground arith

complete_conflicts_example :
    Jobs.complete exact_platform second_lease result_key digest_a
      (second 90)
      none
      (codes "e8")
      (codes "e9")
      (run exact_platform 1 history db₄)
    ≡ err (conflict_error "completion conflicts with the immutable result")
complete_conflicts_example =
    complete_conflicts exact_platform 1 second_lease result_key digest_b (second 25) none
      (codes "e6") (codes "e7") db₃ result db₄ completes history (second 90) refl (codes "e8")
      (codes "e9") result_key digest_a key_text digest_a_hex (inr digests_differ)

reached-IsStored_example : IsStored row₂
reached-IsStored_example =
    reached-IsStored exact_platform 1 (registration ∷ first_acquire ∷ []) job row₂ found₂

row₁-IsStored : IsStored row₁
row₁-IsStored =
    reached-IsStored exact_platform 1 (registration ∷ []) job row₁ (unfold store_code in refl)

-- The first acquire by its theorem: the database that it leaves is written out there.
acquire_succeeds_example :
    Jobs.acquire exact_platform 1 job (codes "w1") (second 2) 10 none (codes "e2") (codes "e3") db₁
    ≡ ok (
      first_lease,
      record db₁ {
        jobs = replace_job job (leased_row (codes "w1") 2000000 12000000 row₁) db₁.jobs;
        lease_events =
            db₁.lease_events
            ++ acquire_event job
                (codes "w1")
                2000000
                12000000
                (codes "e2")
                row₁
                (length db₁.lease_events + 1)
              ∷ [];
      },
    )
unfolding store_code is_space
acquire_succeeds_example =
    acquire_succeeds exact_platform 1 job (codes "w1") (second 2) 10 (codes "e2") (codes "e3") db₁
      row₁ refl refl (omega arith) (omega arith) refl refl row₁-IsStored refl refl (omega arith)
      refl
