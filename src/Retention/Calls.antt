-- ===== src/Retention/Calls.antt =====
-- Calls of the ledger in sequence, by any number of processes: SQLite lets one transaction in at a
-- time, so a history is a list of calls.
use workflow_helper_public.Retention.Deletion.{stage_trash, attest_deleted}
use workflow_helper_public.Base.{
  ◌≡◌, refl, Bool, List, [], ◌∷◌, Option, Result, ok, err, Tx, transaction,
}
use workflow_helper_public.Text.{Text}
use workflow_helper_public.Platform.{Platform}
use workflow_helper_public.Retention.Rows.{RetentionDb, RetentionTargetState}
use workflow_helper_public.Retention.Copies.{RawCopy}
use workflow_helper_public.Retention.Ledger.{Call, register_target, set_legal_hold}
use workflow_helper_public.Retention.Transitions.{LedgerStep, kept}
use workflow_helper_public.Retention.Steps.{
  register_target-LedgerStep, set_legal_hold-LedgerStep, stage_trash-LedgerStep,
  attest_deleted-LedgerStep,
}

-- A call of a method that changes the ledger, with the arguments of its own.
pub data LedgerCall : Type 0 where
  register : Call → List RawCopy → LedgerCall
  set_hold : Call → Bool → Option Text → LedgerCall
  stage : Call → Text → LedgerCall
  attest : Call → Text → Text → LedgerCall

module _ (platform : Platform) where
  -- The transaction of a call.
  unfoldable pub body : LedgerCall → Tx RetentionDb RetentionTargetState
  body (LedgerCall.register call copies) = register_target platform call copies
  body (LedgerCall.set_hold call hold reason) = set_legal_hold platform call hold reason
  body (LedgerCall.stage call copy_id) = stage_trash platform call copy_id
  body (LedgerCall.attest call copy_id receipt) = attest_deleted platform call copy_id receipt

  -- The ledger after one call, whether it returned or raised.
  unfoldable pub step : LedgerCall → RetentionDb → RetentionDb
  step call db = (transaction (body call) db).1

  unfoldable pub run : List LedgerCall → RetentionDb → RetentionDb
  run [] db = db
  run (call ∷ calls) db = run calls (step call db)

  body-LedgerStep :
      (call : LedgerCall) (db : RetentionDb) (state : RetentionTargetState) (db' : RetentionDb)
      → body call db ≡ ok (state, db')
      → LedgerStep db db'
  unfolding body
  body-LedgerStep (LedgerCall.register call copies) db state db' h =
      register_target-LedgerStep platform call db copies h
  body-LedgerStep (LedgerCall.set_hold call hold reason) db state db' h =
      set_legal_hold-LedgerStep platform call db hold reason h
  body-LedgerStep (LedgerCall.stage call copy_id) db state db' h =
      stage_trash-LedgerStep platform call db copy_id h
  body-LedgerStep (LedgerCall.attest call copy_id receipt) db state db' h =
      attest_deleted-LedgerStep platform call db copy_id receipt h

  pub step-LedgerStep : (call : LedgerCall) (db : RetentionDb) → LedgerStep db (step call db)
  unfolding step
  step-LedgerStep call db = outcome (body call db) refl
    where
      outcome :
          (r : Result (RetentionTargetState × RetentionDb))
          → body call db ≡ r
          → LedgerStep db (transaction (λ _. r) db).1
      outcome (err e) p = kept refl refl
      outcome (ok (state, db')) p = body-LedgerStep call db state db' p

  -- What every step keeps holds after any calls.
  pub run-invariant :
      (P : RetentionDb → Type 0)
      → ((db db' : RetentionDb) → LedgerStep db db' → P db → P db')
      → (calls : List LedgerCall) (db : RetentionDb) → P db
      → P (run calls db)
  unfolding run
  run-invariant P keeps [] db p = p
  run-invariant P keeps (call ∷ calls) db p =
      run-invariant P keeps calls (step call db)
        (keeps db (step call db) (step-LedgerStep call db) p)
