-- ===== src/Retention/Deletion.antt =====
-- `RetentionLedger.stage_trash` and `attest_deleted` of
-- apps/api/src/workflow_api/retention_store.py.
use workflow_helper_public.Base.{
  ℕ, false, not, ◌&&◌, List, Option, none, some, ltb, ◌==◌, if◌then◌else◌, count, conflict_error,
  Tx, ◌>>=◌, ◌>>◌, gets, raise_if, lift,
}
use workflow_helper_public.Text.{Text, codes, text_eq}
use workflow_helper_public.Json.{Json}
use workflow_helper_public.Json
use workflow_helper_public.Checks.{require_sha256}
use workflow_helper_public.Platform.{Platform, to_micros}
use workflow_helper_public.Retention.Rows.{
  is_active, is_trash_staged, is_deleted, trash_staged, deleted, TargetRow, CopyRow, RetentionDb,
  RetentionTargetState, require_bounded, content_digest, idempotent_replay, target_row, copy_row,
}
use workflow_helper_public.Retention.Ledger.{
  Call, check_call, replayed, settle, is_complete, update_target, update_copy,
}

-- `_require_not_held_or_completed`
unfoldable pub require_not_held_or_completed : TargetRow → Tx RetentionDb (Unit {0})
require_not_held_or_completed target = do
  raise_if target.legal_hold (conflict_error "legal hold blocks retention mutation")
  raise_if (is_complete target) (conflict_error "retention target is already complete")

unfoldable pub staged_row : ℕ → CopyRow → CopyRow
staged_row occurred_us row = record row { state = trash_staged; trash_staged_at = some occurred_us }

unfoldable pub touched_row : ℕ → TargetRow → TargetRow
touched_row occurred_us row = record row { updated_at = occurred_us }

unfoldable pub stage_copy :
    Platform → Call → Text → Text → Json → ℕ → Tx RetentionDb RetentionTargetState
stage_copy platform call copy_id digest detail occurred_us = do
  target ← target_row call.target_id
  require_not_held_or_completed target
  raise_if (ltb occurred_us target.expires_at)
      (conflict_error "retention target has not reached its expiry")
  copy ← copy_row call.target_id copy_id
  raise_if (not (is_active copy.state))
      (conflict_error "retention copy is not eligible for trash staging")
  update_copy call.target_id copy_id (staged_row occurred_us)
  update_target call.target_id (touched_row occurred_us)
  settle platform call (some copy_id) digest (codes "trash_staged") detail occurred_us

unfoldable pub stage_trash : Platform → Call → Text → Tx RetentionDb RetentionTargetState
stage_trash platform call copy_id = do
  lift (check_call call)
  lift (require_bounded "copy_id" copy_id)
  let detail = Json.object (
      Json.field (codes "copy_id") (Json.text copy_id)
        (Json.field (codes "provider_call") (Json.boolean false) Json.end))
  let digest =
      content_digest platform call.target_id (some copy_id) call.actor_id (codes "trash_staged")
        detail
  occurred_us ← lift (to_micros platform call.now)
  replay ← idempotent_replay call.idempotency_key digest
  if replay
      then replayed platform call
      else stage_copy platform call copy_id digest detail occurred_us

unfoldable pub deleted_row : ℕ → Text → CopyRow → CopyRow
deleted_row occurred_us receipt row = record row {
  state = deleted;
  deletion_attested_at = some occurred_us;
  deletion_receipt_sha256 = some receipt;
}

-- `select count(*) ... where target_id = ? and state != 'deleted'`
unfoldable pub remaining_copies : Text → List CopyRow → ℕ
remaining_copies target_id copies =
    count (λ (row : CopyRow). text_eq row.target_id target_id && not (is_deleted row.state)) copies

-- `completed_at = coalesce(completed_at, ?)`
unfoldable pub attested_row : ℕ → Option ℕ → TargetRow → TargetRow
attested_row occurred_us completed_at row = record row {
  completed_at = elim row.completed_at [ none ↦ completed_at | some at ↦ some at ];
  updated_at = occurred_us;
}

unfoldable pub attest_copy :
    Platform → Call → Text → Text → Text → Json → ℕ → Tx RetentionDb RetentionTargetState
attest_copy platform call copy_id receipt digest detail occurred_us = do
  target ← target_row call.target_id
  require_not_held_or_completed target
  copy ← copy_row call.target_id copy_id
  raise_if (not (is_trash_staged copy.state))
      (conflict_error "retention copy must be trash staged before attestation")
  update_copy call.target_id copy_id (deleted_row occurred_us receipt)
  remaining ← gets (λ db. remaining_copies call.target_id db.copies)
  update_target call.target_id
      (attested_row occurred_us (if remaining == 0 then some occurred_us else none))
  settle platform call (some copy_id) digest (codes "deletion_attested") detail occurred_us

unfoldable pub attest_deleted : Platform → Call → Text → Text → Tx RetentionDb RetentionTargetState
attest_deleted platform call copy_id receipt = do
  lift (check_call call)
  lift (require_bounded "copy_id" copy_id)
  lift (require_sha256 "deletion_receipt_sha256" receipt)
  let detail = Json.object (
      Json.field (codes "copy_id") (Json.text copy_id) (
        Json.field (codes "deletion_receipt_sha256") (Json.text receipt)
          (Json.field (codes "provider_call") (Json.boolean false) Json.end)))
  let digest =
      content_digest platform call.target_id (some copy_id) call.actor_id
        (codes "deletion_attested") detail
  occurred_us ← lift (to_micros platform call.now)
  replay ← idempotent_replay call.idempotency_key digest
  if replay
      then replayed platform call
      else attest_copy platform call copy_id receipt digest detail occurred_us
