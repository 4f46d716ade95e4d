-- ===== src/Retention/Ledger.antt =====
-- `RetentionLedger.register_target` and `set_legal_hold` of
-- apps/api/src/workflow_api/retention_store.py. Each is the body of one transaction; the arguments
-- that the caller cannot choose (the identifiers that `uuid4()` gives) come with the call.
use workflow_helper_public.Base.{
  ℕ, ◌*◌, Bool, true, false, not, List, [], ◌∷◌, ◌++◌, map, Option, none, some, leb, if◌then◌else◌,
  find, any, replace, value_error, conflict_error, integrity_error, Result, ok, err, Tx, ◌>>=◌,
  ◌>>◌, gets, modify, raise_if, lift,
}
use workflow_helper_public.Text.{Text, codes, strip}
use workflow_helper_public.Json.{Json}
use workflow_helper_public.Json
use workflow_helper_public.Platform.{Platform, Timestamp, add_seconds, to_micros}
use workflow_helper_public.Audit.{AuditContext}
use workflow_helper_public.Retention.Rows.{
  retention_days, active, TargetRow, CopyRow, RetentionDb, RetentionTargetState, require_bounded,
  append_audit_event, optional_text, content_digest, is_target, is_copy, idempotent_replay,
  target_row, append_retention_event, target_state,
}
use workflow_helper_public.Retention.Copies.{RawCopy, CopyReference, canonicalize_copies}

-- The keyword arguments that every method that changes the ledger takes.
pub record Call : Type 0 where
  pub target_id : Text
  pub idempotency_key : Text
  pub actor_id : Text
  pub now : Timestamp
  pub audit : Option AuditContext
  pub event_id : Text
  pub audit_event : Text

-- The checks that each of those methods begins with.
unfoldable pub check_call : Call → Result (Unit {0})
unfolding require_bounded
check_call call = elim (require_bounded "target_id" call.target_id) [
  | err e ↦ err e
  | ok _ ↦ elim (require_bounded "idempotency_key" call.idempotency_key) [
    | err e ↦ err e
    | ok _ ↦ require_bounded "actor_id" call.actor_id
  ]
]

-- What follows a replay: audit evidence and the target as it is.
unfoldable pub replayed : Platform → Call → Tx RetentionDb RetentionTargetState
replayed platform call = do
  append_audit_event platform call.audit call.audit_event
  target_state platform call.target_id

-- What follows a change: the event of the ledger, audit evidence and the target as it is now.
unfoldable pub settle :
    Platform → Call → Option Text → Text → Text → Json → ℕ → Tx RetentionDb RetentionTargetState
settle platform call copy_id digest event_type detail occurred_us = do
  append_retention_event call.event_id call.target_id copy_id call.idempotency_key digest
      call.actor_id event_type detail occurred_us
  append_audit_event platform call.audit call.audit_event
  target_state platform call.target_id

abbrev pub seconds_per_day : ℕ
seconds_per_day = 24 * 60 * 60

-- The row that `register_target` inserts, under `check (expires_at > created_at)`.
unfoldable pub new_target : Text → Text → ℕ → ℕ → TargetRow
new_target target_id created_by created_us expires_us = record {
  target_id = target_id;
  created_by = created_by;
  created_at = created_us;
  expires_at = expires_us;
  legal_hold = false;
  hold_reason = none;
  completed_at = none;
  updated_at = created_us;
}

unfoldable pub new_copy : Text → CopyReference → CopyRow
new_copy target_id copy = record {
  target_id = target_id;
  copy_id = copy.copy_id;
  provider = copy.provider;
  file_id = copy.file_id;
  revision = copy.revision;
  sha256 = copy.sha256;
  state = active;
  trash_staged_at = none;
  deletion_attested_at = none;
  deletion_receipt_sha256 = none;
}

copy_json : CopyReference → Json
copy_json copy = Json.object (
    Json.field (codes "copy_id") (Json.text copy.copy_id) (
      Json.field (codes "provider") (Json.text copy.provider) (
        Json.field (codes "file_id") (Json.text copy.file_id) (
          Json.field (codes "revision") (Json.text copy.revision)
            (Json.field (codes "sha256") (Json.text copy.sha256) Json.end)))))

copies_json : List CopyReference → Json.Items
unfolding copy_json
copies_json [] = Json.nil
copies_json (copy ∷ rest) = Json.cons (copy_json copy) (copies_json rest)

-- `register_target` once the call is known to be no replay.
unfoldable pub register_new :
    Platform → Call → Text → Json → List CopyReference → ℕ → ℕ → Tx RetentionDb RetentionTargetState
register_new platform call digest detail copies created_us expires_us = do
  existing ← gets (λ db. any (is_target call.target_id) db.targets)
  raise_if existing (conflict_error "retention target is already registered")
  raise_if (leb expires_us created_us) (integrity_error "expires_at > created_at")
  modify (λ db. record db {
    targets = db.targets ++ new_target call.target_id call.actor_id created_us expires_us ∷ [];
    copies = db.copies ++ map (new_copy call.target_id) copies;
  })
  settle platform call none digest (codes "registered") detail created_us

unfoldable pub register_target :
    Platform → Call → List RawCopy → Tx RetentionDb RetentionTargetState
unfolding copies_json
register_target platform call copies = do
  lift (check_call call)
  canonical_copies ← lift (canonicalize_copies copies)
  created_us ← lift (to_micros platform call.now)
  expires_us ← lift (to_micros platform (add_seconds call.now (retention_days * seconds_per_day)))
  let detail = Json.object (
      Json.field (codes "copies") (Json.array (copies_json canonical_copies))
        (Json.field (codes "retention_days") (Json.number retention_days) Json.end))
  let digest = content_digest platform call.target_id none call.actor_id (codes "registered") detail
  replay ← idempotent_replay call.idempotency_key digest
  if replay
      then replayed platform call
      else register_new platform call digest detail canonical_copies created_us expires_us

-- The reason as it is stored, and the event's type.
unfoldable pub hold_reason : Bool → Option Text → Result (Option Text)
hold_reason true none = elim (require_bounded "reason" []) [ err e ↦ err e | ok _ ↦ ok none ]
hold_reason true (some reason) = elim (require_bounded "reason" reason) [
  | err e ↦ err e
  | ok _ ↦ ok (some (strip reason))
]
hold_reason false none = ok none
hold_reason false (some reason) =
    err (value_error "reason must be omitted when releasing a legal hold")

abbrev pub hold_event : Bool → Text
hold_event hold = if hold then codes "hold_placed" else codes "hold_released"

abbrev pub is_complete : TargetRow → Bool
is_complete row = elim row.completed_at [ none ↦ false | some _ ↦ true ]

abbrev pub same_bool : Bool → Bool → Bool
same_bool a b = if a then b else not b

unfoldable pub held_row : Bool → Option Text → ℕ → TargetRow → TargetRow
held_row hold reason occurred_us row = record row {
  legal_hold = hold;
  hold_reason = reason;
  updated_at = occurred_us;
}

-- `update retention_targets ... where target_id = ?`
unfoldable pub update_target : Text → (TargetRow → TargetRow) → Tx RetentionDb (Unit {0})
update_target target_id change db = elim (find (is_target target_id) db.targets) [
  | none ↦ ok (tt, db)
  | some row ↦
      ok (tt, record db { targets = replace (is_target target_id) (change row) db.targets })
]

-- `update retention_copies ... where target_id = ? and copy_id = ?`
unfoldable pub update_copy : Text → Text → (CopyRow → CopyRow) → Tx RetentionDb (Unit {0})
update_copy target_id copy_id change db = elim (find (is_copy target_id copy_id) db.copies) [
  | none ↦ ok (tt, db)
  | some row ↦
      ok (tt, record db { copies = replace (is_copy target_id copy_id) (change row) db.copies })
]

unfoldable pub change_hold :
    Platform → Call → Bool → Option Text → Text → Json → ℕ → Tx RetentionDb RetentionTargetState
change_hold platform call hold reason digest detail occurred_us = do
  target ← target_row call.target_id
  raise_if (is_complete target)
      (conflict_error "completed retention target cannot change legal hold")
  raise_if (same_bool target.legal_hold hold)
      (conflict_error "legal hold already has the requested state")
  update_target call.target_id (held_row hold reason occurred_us)
  settle platform call none digest (hold_event hold) detail occurred_us

unfoldable pub set_legal_hold :
    Platform → Call → Bool → Option Text → Tx RetentionDb RetentionTargetState
set_legal_hold platform call hold reason = do
  lift (check_call call)
  normalized_reason ← lift (hold_reason hold reason)
  let detail = Json.object (
      Json.field (codes "hold") (Json.boolean hold)
        (Json.field (codes "reason") (optional_text normalized_reason) Json.end))
  let digest = content_digest platform call.target_id none call.actor_id (hold_event hold) detail
  occurred_us ← lift (to_micros platform call.now)
  replay ← idempotent_replay call.idempotency_key digest
  if replay
      then replayed platform call
      else change_hold platform call hold normalized_reason digest detail occurred_us
