-- ===== src/Retention/Transitions.antt =====
-- What each ledger operation that succeeds found in the tables of targets and copies, and left there.
use workflow_helper_public.Retention.Deletion.{
  staged_row, touched_row, deleted_row, remaining_copies, attested_row,
}
use workflow_helper_public.Base.{
  ℕ, ◌<◌, ◌≤◌, ◌≡◌, Bool, true, false, List, [], ◌∷◌, ◌++◌, map, Option, none, some, arith, ◌==◌,
  if◌then◌else◌, find, replace, >>=-eq-ok, ok,
}
use workflow_helper_public.Text.{Text}
use workflow_helper_public.Json.{Json}
use workflow_helper_public.Platform.{Platform}
use workflow_helper_public.Retention.Rows.{
  TargetRow, CopyRow, RetentionDb, RetentionTargetState, is_target, is_copy, is_active,
  is_trash_staged, append_audit_event, target_row, target_state, append_retention_event,
}
use workflow_helper_public.Retention.Copies.{CopyReference}
use workflow_helper_public.Retention.Ledger.{
  Call, settle, replayed, new_target, new_copy, held_row, is_complete,
}

-- The tables after an operation, from those before it.
pub data LedgerStep (db db' : RetentionDb) : Type 0 where
  kept : db'.targets ≡ db.targets → db'.copies ≡ db.copies → LedgerStep db db'
  registered :
      (id by : Text) (created expires : ℕ) (copy : CopyReference) (copies : List CopyReference)
      → find (is_target id) db.targets ≡ none
      → created < expires
      → db'.targets ≡ db.targets ++ new_target id by created expires ∷ []
      → db'.copies ≡ db.copies ++ map (new_copy id) (copy ∷ copies)
      → LedgerStep db db'
  hold_changed :
      (id : Text) (hold : Bool) (reason : Option Text) (now : ℕ) (target : TargetRow)
      → find (is_target id) db.targets ≡ some target
      → is_complete target ≡ false
      → db'.targets ≡ replace (is_target id) (held_row hold reason now target) db.targets
      → db'.copies ≡ db.copies
      → LedgerStep db db'
  staged :
      (id copy_id : Text) (now : ℕ) (target : TargetRow) (copy : CopyRow)
      → find (is_target id) db.targets ≡ some target
      → target.legal_hold ≡ false
      → is_complete target ≡ false
      → target.expires_at ≤ now
      → find (is_copy id copy_id) db.copies ≡ some copy
      → is_active copy.state ≡ true
      → db'.targets ≡ replace (is_target id) (touched_row now target) db.targets
      → db'.copies ≡ replace (is_copy id copy_id) (staged_row now copy) db.copies
      → LedgerStep db db'
  attested :
      (id copy_id receipt : Text) (now : ℕ) (target : TargetRow) (copy : CopyRow)
      → find (is_target id) db.targets ≡ some target
      → target.legal_hold ≡ false
      → is_complete target ≡ false
      → find (is_copy id copy_id) db.copies ≡ some copy
      → is_trash_staged copy.state ≡ true
      → db'.copies ≡ replace (is_copy id copy_id) (deleted_row now receipt copy) db.copies
      → db'.targets
        ≡ replace
            (is_target id)
            (attested_row now
              (if remaining_copies id db'.copies == 0 then some now else none)
              target)
            db.targets
      → LedgerStep db db'

append_audit_event-kept :
    (platform : Platform) (call : Call) (db : RetentionDb) {db' : RetentionDb}
    → append_audit_event platform call.audit call.audit_event db ≡ ok (tt, db')
    → (db'.targets ≡ db.targets) × (db'.copies ≡ db.copies)
unfolding append_audit_event
append_audit_event-kept platform call db h = ground arith

target_state-kept :
    (platform : Platform) (id : Text) (db : RetentionDb) {state : RetentionTargetState}
    {db' : RetentionDb}
    → target_state platform id db ≡ ok (state, db')
    → db' ≡ db
unfolding target_state target_row
target_state-kept platform id db h = ground arith

pub replayed-kept :
    (platform : Platform) (call : Call) (db : RetentionDb) {state : RetentionTargetState}
    {db' : RetentionDb}
    → replayed platform call db ≡ ok (state, db')
    → (db'.targets ≡ db.targets) × (db'.copies ≡ db.copies)
unfolding replayed
replayed-kept platform call db h =
    let (tt, db1, h1, h2) =
      >>=-eq-ok (append_audit_event platform call.audit call.audit_event) _ db h in
    let (a, b) = append_audit_event-kept platform call db h1 in
    let same = target_state-kept platform call.target_id db1 h2 in rw same (a, b)

pub settle-kept :
    (platform : Platform) (call : Call) (copy_id : Option Text) (digest event_type : Text)
    (detail : Json) (now : ℕ) (db : RetentionDb) {state : RetentionTargetState} {db' : RetentionDb}
    → settle platform call copy_id digest event_type detail now db ≡ ok (state, db')
    → (db'.targets ≡ db.targets) × (db'.copies ≡ db.copies)
unfolding settle append_retention_event
settle-kept platform call copy_id digest event_type detail now db h =
    let (tt, db1, h1, h2) =
      >>=-eq-ok
        (append_retention_event call.event_id call.target_id copy_id call.idempotency_key digest
          call.actor_id event_type detail now)
        _ db h in
    let (tt, db2, h3, h4) =
      >>=-eq-ok (append_audit_event platform call.audit call.audit_event) _ db1 h2 in
    let (a, b) = append_audit_event-kept platform call db1 h3 in
    let same = target_state-kept platform call.target_id db2 h4 in
    let kept1 : (db1.targets ≡ db.targets) × (db1.copies ≡ db.copies) = ground arith in ground arith
