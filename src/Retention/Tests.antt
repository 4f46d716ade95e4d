-- ===== src/Retention/Tests.antt =====
-- A ledger run on concrete calls, and the theorems applied to it.
use workflow_helper_public.Retention.Deletion.{
  require_not_held_or_completed, staged_row, touched_row, stage_copy, stage_trash, deleted_row,
  remaining_copies, attested_row, attest_copy, attest_deleted,
}
use workflow_helper_public.Base.{
  ℕ, ◌*◌, ◌==◌, ◌≡◌, refl, true, false, Bool, List, [], ◌∷◌, none, some, Option, find, Every,
  length, ok, map,
}
use workflow_helper_public.Text.{
  Text, codes, text_eq, is_blank, is_hex, is_space, strip, starts_with,
}
use workflow_helper_public.Text.Order.{text_lt, sort_by}
use workflow_helper_public.Platform.{Timestamp, exact_platform, to_micros}
use workflow_helper_public.Checks.{is_sha256, require_sha256}
use workflow_helper_public.Audit.{append_valid}
use workflow_helper_public.Retention.Rows.{
  TargetRow, RetentionDb, empty_db, is_target, is_copy, require_bounded, append_audit_event,
  content_digest, idempotent_replay, target_row, copy_row, append_retention_event, target_state,
  RetentionTargetState,
}
use workflow_helper_public.Retention.Copies.{RawCopy, canonicalize_copies}
use workflow_helper_public.Retention.Ledger.{
  Call, check_call, replayed, settle, new_target, new_copy, register_new, register_target,
  hold_reason, held_row, update_target, update_copy, change_hold, set_legal_hold, is_complete,
}
use workflow_helper_public.Retention.Calls.{LedgerCall, body, step, run}
use workflow_helper_public.Retention.Listing.{
  overdue_rows, is_overdue, list_scoped_overdue, insert_due, by_expiry, states,
}
use workflow_helper_public.Retention.Listing.Overdue.{
  IsListing, shown_ids, list_scoped_overdue-IsListing,
}
use workflow_helper_public.Retention.Evidence.{IsAccounted, run-IsAccounted}
use workflow_helper_public.Retention.Completion.{run-IsSettled, completed_final}
use workflow_helper_public.Retention.Hold.{held_blocks}

-- The code that a run goes through.
ledger_code : Unit {0}
unfolding text_eq is_blank is_hex is_space is_sha256 require_sha256 append_valid require_bounded
    append_audit_event content_digest idempotent_replay target_row copy_row append_retention_event
    target_state canonicalize_copies check_call replayed settle new_target new_copy register_new
    register_target hold_reason held_row update_target update_copy change_hold set_legal_hold
    require_not_held_or_completed staged_row touched_row stage_copy stage_trash deleted_row
    remaining_copies attested_row attest_copy attest_deleted body step run sort_by text_lt strip
ledger_code = tt

abbrev day : ℕ → Timestamp
day n = record { aware = true; instant = n * 86400000000 }

abbrev sha : Text
sha = codes "aaaaaaaaaaaaaaaaaaaaaaaaaaaaaaaaaaaaaaaaaaaaaaaaaaaaaaaaaaaaaaaa"

abbrev call_on : ℕ → Text → Call
call_on n key = record {
  target_id = codes "t";
  idempotency_key = key;
  actor_id = codes "steward";
  now = day n;
  audit = none;
  event_id = key;
  audit_event = key;
}

abbrev raw_copy : RawCopy
raw_copy = record {
  copy_id = some (codes "c");
  provider = some (codes "s3");
  file_id = some (codes "f");
  revision = some (codes "r");
  sha256 = some sha;
}

abbrev registration : LedgerCall
registration = LedgerCall.register (call_on 1 (codes "k1")) (raw_copy ∷ [])

abbrev holding : LedgerCall
holding = LedgerCall.set_hold (call_on 2 (codes "k2")) true (some (codes "case"))

abbrev staging : LedgerCall
staging = LedgerCall.stage (call_on 15 (codes "k3")) (codes "c")

abbrev attesting : LedgerCall
attesting = LedgerCall.attest (call_on 16 (codes "k4")) (codes "c") sha

abbrev target_at : Bool → Option Text → Option ℕ → ℕ → TargetRow
target_at held reason completed updated = record {
  target_id = codes "t";
  created_by = codes "steward";
  created_at = 86400000000;
  expires_at = 1296000000000;
  legal_hold = held;
  hold_reason = reason;
  completed_at = completed;
  updated_at = updated;
}

abbrev held_target : TargetRow
held_target = target_at true (some (codes "case")) none 172800000000

abbrev done_target : TargetRow
done_target = target_at false none (some 1382400000000) 1382400000000

abbrev held_db : RetentionDb
held_db = run exact_platform (registration ∷ holding ∷ []) empty_db

abbrev done_calls : List LedgerCall
done_calls = registration ∷ staging ∷ attesting ∷ []

abbrev done_db : RetentionDb
done_db = run exact_platform done_calls empty_db

held_found : find (is_target (codes "t")) held_db.targets ≡ some held_target
unfolding ledger_code
held_found = refl

done_found : find (is_target (codes "t")) done_db.targets ≡ some done_target
unfolding ledger_code
done_found = refl

-- A hold placed before the expiry is in the way of staging; without it the copy is staged.
staging_needs_no_hold :
    (length (step exact_platform staging held_db).events ≡ 2) × (length done_db.events ≡ 3)
unfolding ledger_code
staging_needs_no_hold = (refl, refl)

run-IsAccounted_example : Every (IsAccounted done_db.targets) done_db.copies
run-IsAccounted_example = run-IsAccounted exact_platform done_calls

run-IsSettled_example : is_complete done_target ≡ (remaining_copies (codes "t") done_db.copies == 0)
run-IsSettled_example = run-IsSettled exact_platform done_calls (codes "t") done_target done_found

completed_final_example :
    find (is_target (codes "t")) (run exact_platform (holding ∷ staging ∷ []) done_db).targets
    ≡ some done_target
completed_final_example =
    completed_final exact_platform (holding ∷ staging ∷ []) done_db (codes "t") done_target
      done_found refl

held_blocks_example :
    find (is_copy (codes "t") (codes "c")) (step exact_platform staging held_db).copies
    ≡ find (is_copy (codes "t") (codes "c")) held_db.copies
held_blocks_example =
    held_blocks exact_platform staging held_db (codes "t") (codes "c") held_target held_found refl

-- After the retention time the registered target is due.
abbrev registered_db : RetentionDb
registered_db = run exact_platform (registration ∷ []) empty_db

listed :
    (shown : List RetentionTargetState) × (db : RetentionDb) × (list_scoped_overdue exact_platform
        (codes "t")
        (day 16)
        none
        (codes "a9")
        registered_db
      ≡ ok (shown, db))
    × (shown_ids shown ≡ codes "t" ∷ [])
unfolding ledger_code starts_with is_overdue overdue_rows by_expiry insert_due states
    list_scoped_overdue
listed = (_, _, refl, refl)

list_scoped_overdue-IsListing_example :
    (now_us : ℕ) × (rows : List TargetRow) × (to_micros exact_platform (day 16) ≡ ok now_us)
    × IsListing (λ row. starts_with row.target_id (codes "t")) now_us registered_db.targets rows
    × (shown_ids listed.0 ≡ map (λ (row : TargetRow). row.target_id) rows)
list_scoped_overdue-IsListing_example =
    list_scoped_overdue-IsListing exact_platform (codes "t") (day 16) none (codes "a9")
      registered_db listed.1 listed.0 listed.2
