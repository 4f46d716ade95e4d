-- ===== src/Retention/Steps.antt =====
-- Each operation of the ledger makes one step on the tables of targets and copies.
use workflow_helper_public.Retention.Deletion.{
  require_not_held_or_completed, staged_row, touched_row, stage_copy, deleted_row, remaining_copies,
  attested_row, attest_copy, stage_trash, attest_deleted,
}
use workflow_helper_public.Base.{
  ℕ, ◌*◌, Tx, ◌>>=◌, ◌<◌, ◌≡◌, ◌∙◌, Bool, true, false, not, List, ◌∷◌, Option, none, some, arith,
  ◌==◌, if◌then◌else◌, find, any, replace, lift-eq-ok, require_row-eq-ok, raise_if-eq-ok, >>=-eq-ok,
  ok, ltb, leb, not-false, any-find-none,
}
use workflow_helper_public.Text.{Text, codes}
use workflow_helper_public.Json.{Json}
use workflow_helper_public.Platform.{Platform, to_micros, add_seconds}
use workflow_helper_public.Checks.{require_sha256}
use workflow_helper_public.Retention.Rows.{
  retention_days, TargetRow, CopyRow, RetentionDb, RetentionTargetState, is_target, is_copy,
  is_active, is_trash_staged, target_row, copy_row, require_bounded, idempotent_replay,
}
use workflow_helper_public.Retention.Copies.{
  CopyReference, RawCopy, canonicalize_copies, canonicalize_copies-cons,
}
use workflow_helper_public.Retention.Ledger.{
  Call, settle, replayed, register_new, held_row, is_complete, same_bool, update_target,
  update_copy, change_hold, hold_event, register_target, set_legal_hold, seconds_per_day,
  check_call, hold_reason,
}
use workflow_helper_public.Retention.Transitions.{
  LedgerStep, kept, hold_changed, staged, attested, registered, replayed-kept, settle-kept,
}

update_target-ok :
    (id : Text) (change : TargetRow → TargetRow) (db : RetentionDb) (target : TargetRow)
    {db' : RetentionDb}
    → find (is_target id) db.targets ≡ some target
    → update_target id change db ≡ ok (tt, db')
    → (db'.targets ≡ replace (is_target id) (change target) db.targets) × (db'.copies ≡ db.copies)
unfolding update_target
update_target-ok id change db target found h = ground arith

update_copy-ok :
    (id copy_id : Text) (change : CopyRow → CopyRow) (db : RetentionDb) (copy : CopyRow)
    {db' : RetentionDb}
    → find (is_copy id copy_id) db.copies ≡ some copy
    → update_copy id copy_id change db ≡ ok (tt, db')
    → (db'.copies ≡ replace (is_copy id copy_id) (change copy) db.copies)
      × (db'.targets ≡ db.targets)
unfolding update_copy
update_copy-ok id copy_id change db copy found h = ground arith

-- An equation of a value computed from two tables moves to equal tables.
computed_from :
    {A B : Type 0} (f : A → B → B) {a a' : A} {b b1 b2 b' : B}
    → b' ≡ b2
    → b2 ≡ f a b1
    → a' ≡ a
    → b1 ≡ b
    → b' ≡ f a' b
computed_from f p q r s = cc

module _ (platform : Platform) (call : Call) (digest : Text) (detail : Json) (now : ℕ)
    (db : RetentionDb) {state : RetentionTargetState} {db' : RetentionDb} where
  pub change_hold-LedgerStep :
      (hold : Bool) (reason : Option Text)
      → change_hold platform call hold reason digest detail now db ≡ ok (state, db')
      → LedgerStep db db'
  unfolding change_hold target_row update_target
  change_hold-LedgerStep hold reason h =
      let (target, found, h1) =
        require_row-eq-ok (find (is_target call.target_id) db.targets) _ _ db h in
      let (open_target, h2) = raise_if-eq-ok (is_complete target) _ _ db h1 in
      let (_, h3) = raise_if-eq-ok (same_bool target.legal_hold hold) _ _ db h2 in
      let (tt, db1, h4, h5) =
        >>=-eq-ok (update_target call.target_id (held_row hold reason now)) _ db h3 in
      let (a, b) = settle-kept platform call none digest (hold_event hold) detail now db1 h5 in
      hold_changed call.target_id hold reason now target found open_target (ground arith)
        (ground arith)

  pub stage_copy-LedgerStep :
      (copy_id : Text)
      → stage_copy platform call copy_id digest detail now db ≡ ok (state, db')
      → LedgerStep db db'
  unfolding stage_copy target_row copy_row update_target update_copy require_not_held_or_completed
  stage_copy-LedgerStep copy_id h =
      let (target, found, h1) =
        require_row-eq-ok (find (is_target call.target_id) db.targets) _ _ db h in
      let (tt, db0, h2, h3) = >>=-eq-ok (require_not_held_or_completed target) _ db h1 in
      let same : db0 ≡ db = ground arith in
      let free : (target.legal_hold ≡ false) × (is_complete target ≡ false) = ground arith in
      let h3' = rw same at h3 in
      let (due, h4) = raise_if-eq-ok (ltb now target.expires_at) _ _ db h3' in
      let (copy, found_copy, h5) =
        require_row-eq-ok (find (is_copy call.target_id copy_id) db.copies) _ _ db h4 in
      let (active_copy, h6) = raise_if-eq-ok (not (is_active copy.state)) _ _ db h5 in
      let (tt, db1, h7, h8) =
        >>=-eq-ok (update_copy call.target_id copy_id (staged_row now)) _ db h6 in
      let (tt, db2, h9, h10) =
        >>=-eq-ok (update_target call.target_id (touched_row now)) _ db1 h8 in
      let (a, b) =
        settle-kept platform call (some copy_id) digest (codes "trash_staged") detail now db2 h10 in
      let kept1 : (db1.targets ≡ db.targets)
          × (db1.copies
              ≡ replace (is_copy call.target_id copy_id) (staged_row now copy) db.copies) =
        ground arith in
      staged call.target_id copy_id now target copy found free.0 free.1 (ground arith) found_copy
        (ground arith) (ground arith) (ground arith)

  attest_writes :
      (copy_id receipt : Text) (target : TargetRow) (copy : CopyRow) (db1 db2 : RetentionDb)
      → find (is_target call.target_id) db.targets ≡ some target
      → (target.legal_hold ≡ false) × (is_complete target ≡ false)
      → find (is_copy call.target_id copy_id) db.copies ≡ some copy
      → is_trash_staged copy.state ≡ true
      → update_copy call.target_id copy_id (deleted_row now receipt) db ≡ ok (tt, db1)
      → update_target call.target_id
          (attested_row now
            (if remaining_copies call.target_id db1.copies == 0 then some now else none))
          db1
        ≡ ok (tt, db2)
      → settle platform call (some copy_id) digest (codes "deletion_attested") detail now db2
        ≡ ok (state, db')
      → LedgerStep db db'
  attest_writes copy_id receipt target copy db1 db2 found free found_copy staged_copy h1 h2 h3 =
      let (a, b) =
        settle-kept platform call (some copy_id) digest (codes "deletion_attested") detail now db2
          h3 in
      let (copies1, targets1) =
        update_copy-ok call.target_id copy_id (deleted_row now receipt) db copy found_copy h1 in
      let (targets2, copies2) =
        update_target-ok call.target_id
          (attested_row now
            (if remaining_copies call.target_id db1.copies == 0 then some now else none))
          db1 target (rw targets1 found) h2 in
      attested call.target_id copy_id receipt now target copy found free.0 free.1 found_copy
        staged_copy (b ∙ copies2 ∙ copies1)
        (computed_from
          (λ copies targets.
            replace (is_target call.target_id)
              (attested_row now
                (if remaining_copies call.target_id copies == 0 then some now else none) target)
              targets)
          a targets2 (b ∙ copies2) targets1)

  pub attest_copy-LedgerStep :
      (copy_id receipt : Text)
      → attest_copy platform call copy_id receipt digest detail now db ≡ ok (state, db')
      → LedgerStep db db'
  unfolding attest_copy target_row copy_row require_not_held_or_completed
  attest_copy-LedgerStep copy_id receipt h =
      let (target, found, h1) =
        require_row-eq-ok (find (is_target call.target_id) db.targets) _ _ db h in
      let (tt, db0, h2, h3) = >>=-eq-ok (require_not_held_or_completed target) _ db h1 in
      let same : db0 ≡ db = ground arith in
      let free : (target.legal_hold ≡ false) × (is_complete target ≡ false) = ground arith in
      let (copy, found_copy, h5) =
        require_row-eq-ok (find (is_copy call.target_id copy_id) db.copies) _ _ db
          (rw same at h3) in
      let (staged_copy, h6) = raise_if-eq-ok (not (is_trash_staged copy.state)) _ _ db h5 in
      let (tt, db1, h7, h8) =
        >>=-eq-ok (update_copy call.target_id copy_id (deleted_row now receipt)) _ db h6 in
      let (tt, db2, h9, h10) =
        >>=-eq-ok
          (update_target call.target_id (
            attested_row now
              (if remaining_copies call.target_id db1.copies == 0 then some now else none)))
          _ db1 h8 in
      attest_writes copy_id receipt target copy db1 db2 found free found_copy
        (not-false (is_trash_staged copy.state) staged_copy) h7 h9 h10

leb-false : (m n : ℕ) → leb m n ≡ false → n < m
leb-false m n h = ground arith

module _ (platform : Platform) (call : Call) (db : RetentionDb) {state : RetentionTargetState}
    {db' : RetentionDb} where
  register_new-LedgerStep :
      (digest : Text) (detail : Json) (copy : CopyReference) (copies : List CopyReference)
      (created expires : ℕ)
      → register_new platform call digest detail (copy ∷ copies) created expires db
        ≡ ok (state, db')
      → LedgerStep db db'
  unfolding register_new
  register_new-LedgerStep digest detail copy copies created expires h =
      let (fresh, h1) = raise_if-eq-ok (any (is_target call.target_id) db.targets) _ _ db h in
      let (later, h2) = raise_if-eq-ok (leb expires created) _ _ db h1 in
      let (a, b) = settle-kept platform call none digest (codes "registered") detail created _ h2 in
      registered call.target_id call.actor_id created expires copy copies
        (any-find-none (is_target call.target_id) db.targets fresh)
        (leb-false expires created later) a b

  -- A method after its validations: a replay, or the change.
  replay_or :
      (key digest : Text) (change : Tx RetentionDb RetentionTargetState)
      → (change db ≡ ok (state, db') → LedgerStep db db')
      → (idempotent_replay key digest >>= λ replay.
            if replay then replayed platform call else change)
          db
        ≡ ok (state, db')
      → LedgerStep db db'
  unfolding idempotent_replay
  replay_or key digest change changes h =
      let (replay, db1, h1, h2) = >>=-eq-ok (idempotent_replay key digest) _ db h in
      let same : db1 ≡ db = ground arith in branch replay (rw same at h2)
    where
      branch :
          (replay : Bool)
          → (if replay then replayed platform call else change) db ≡ ok (state, db')
          → LedgerStep db db'
      branch true h = let (a, b) = replayed-kept platform call db h in kept a b
      branch false h = changes h

  pub register_target-LedgerStep :
      (copies : List RawCopy)
      → register_target platform call copies db ≡ ok (state, db')
      → LedgerStep db db'
  unfolding register_target
  register_target-LedgerStep copies h =
      let (_, _, h1) = lift-eq-ok (check_call call) _ db h in
      let (canonical, p, h2) = lift-eq-ok (canonicalize_copies copies) _ db h1 in
      let (created, _, h3) = lift-eq-ok (to_micros platform call.now) _ db h2 in
      let (expires, _, h4) =
        lift-eq-ok (to_micros platform (add_seconds call.now (retention_days * seconds_per_day))) _
          db h3 in
      let (copy, rest, q) = canonicalize_copies-cons copies canonical p in
      replay_or _ _ _
        (λ changed. register_new-LedgerStep _ _ copy rest created expires (rw q at changed)) h4

  pub set_legal_hold-LedgerStep :
      (hold : Bool) (reason : Option Text)
      → set_legal_hold platform call hold reason db ≡ ok (state, db')
      → LedgerStep db db'
  unfolding set_legal_hold
  set_legal_hold-LedgerStep hold reason h =
      let (_, _, h1) = lift-eq-ok (check_call call) _ db h in
      let (normalized, _, h2) = lift-eq-ok (hold_reason hold reason) _ db h1 in
      let (now, _, h3) = lift-eq-ok (to_micros platform call.now) _ db h2 in
      replay_or _ _ _
        (λ changed. change_hold-LedgerStep platform call _ _ now db hold normalized changed) h3

  pub stage_trash-LedgerStep :
      (copy_id : Text) → stage_trash platform call copy_id db ≡ ok (state, db') → LedgerStep db db'
  unfolding stage_trash
  stage_trash-LedgerStep copy_id h =
      let (_, _, h1) = lift-eq-ok (check_call call) _ db h in
      let (_, _, h2) = lift-eq-ok (require_bounded "copy_id" copy_id) _ db h1 in
      let (now, _, h3) = lift-eq-ok (to_micros platform call.now) _ db h2 in
      replay_or _ _ _ (λ changed. stage_copy-LedgerStep platform call _ _ now db copy_id changed) h3

  pub attest_deleted-LedgerStep :
      (copy_id receipt : Text)
      → attest_deleted platform call copy_id receipt db ≡ ok (state, db')
      → LedgerStep db db'
  unfolding attest_deleted
  attest_deleted-LedgerStep copy_id receipt h =
      let (_, _, h1) = lift-eq-ok (check_call call) _ db h in
      let (_, _, h2) = lift-eq-ok (require_bounded "copy_id" copy_id) _ db h1 in
      let (_, _, h3) = lift-eq-ok (require_sha256 "deletion_receipt_sha256" receipt) _ db h2 in
      let (now, _, h4) = lift-eq-ok (to_micros platform call.now) _ db h3 in
      replay_or _ _ _
        (λ changed. attest_copy-LedgerStep platform call _ _ now db copy_id receipt changed) h4
