-- ===== src/Retention/Evidence.antt =====
-- No copy is staged or deleted without the evidence for it, by induction on the ledger's calls.
use workflow_helper_public.Retention.Deletion.{staged_row, touched_row, deleted_row, attested_row}
use workflow_helper_public.Base.{
  ℕ, ◌≤◌, ◌≡◌, refl, sym, ◌∙◌, true, List, [], ◌∷◌, ◌++◌, map, some, arith, find, replace, Every,
  Every-find, Every-replace, Every-append, Every-weaken, find-append_new, find-append_old,
  Bool-cases, inl, inr,
}
use workflow_helper_public.Text.{Text, text_eq}
use workflow_helper_public.Text.Equality.{text_eq_iff, text_eq_refl}
use workflow_helper_public.Platform.{Platform}
use workflow_helper_public.Retention.Rows.{
  TargetRow, CopyRow, CopyState, active, trash_staged, deleted, RetentionDb, is_target, is_copy,
  is_trash_staged, empty_db,
}
use workflow_helper_public.Retention.Copies.{CopyReference}
use workflow_helper_public.Retention.Ledger.{new_target, new_copy, held_row}
use workflow_helper_public.Retention.Transitions.{
  LedgerStep, kept, registered, hold_changed, staged, attested,
}
use workflow_helper_public.Retention.Lookup.{find-copy_key, find-replace_target}
use workflow_helper_public.Retention.Calls.{LedgerCall, run, run-invariant}

-- It was staged at a time that is not before `expires_at`.
abbrev pub IsStagedAfter : ℕ → CopyRow → Type 0
IsStagedAfter expires_at copy = (at : ℕ) × (copy.trash_staged_at ≡ some at) × (expires_at ≤ at)

-- Its deletion has a time and a receipt.
abbrev pub HasReceipt : CopyRow → Type 0
HasReceipt copy =
    (at : ℕ) × (receipt : Text) × (copy.deletion_attested_at ≡ some at)
    × (copy.deletion_receipt_sha256 ≡ some receipt)

-- What the state of a copy says of it, under a target that expires at that time.
abbrev pub IsEvidenced : ℕ → CopyRow → CopyState → Type 0
IsEvidenced expires_at copy active = Unit
IsEvidenced expires_at copy trash_staged = IsStagedAfter expires_at copy
IsEvidenced expires_at copy deleted = IsStagedAfter expires_at copy × HasReceipt copy

-- The copy has its target, and the evidence for its state.
abbrev pub IsAccounted : List TargetRow → CopyRow → Type 0
IsAccounted targets copy =
    (target : TargetRow) × (find (is_target copy.target_id) targets ≡ some target)
    × IsEvidenced target.expires_at copy copy.state

-- A target of the first table is in the second, with the same expiry.
abbrev Keeps : List TargetRow → List TargetRow → Type 0
Keeps targets targets' =
    (id : Text) (target : TargetRow)
    → find (is_target id) targets ≡ some target
    → (target' : TargetRow) × (find (is_target id) targets' ≡ some target')
      × (target'.expires_at ≡ target.expires_at)

Keeps-replace :
    (id : Text) (targets : List TargetRow) (target new : TargetRow)
    → find (is_target id) targets ≡ some target
    → new.target_id ≡ target.target_id
    → new.expires_at ≡ target.expires_at
    → Keeps targets (replace (is_target id) new targets)
Keeps-replace id targets target new found same expiry other old h =
    let after = find-replace_target id other targets target new found same in
    elim (Bool-cases (text_eq id other)) [
      | inl e ↦
          let same_id : id ≡ other = (text_eq_iff id other).0 e in
          let same_row : target ≡ old = ground (arith, (rw same_id at found)) in
          (new, rw e at after, rw (sym same_row) expiry)
      | inr ne ↦ (old, (rw ne at after) ∙ h, refl)
    ]

IsAccounted-Keeps :
    (targets targets' : List TargetRow) (copies : List CopyRow)
    → Keeps targets targets'
    → Every (IsAccounted targets) copies
    → Every (IsAccounted targets') copies
IsAccounted-Keeps targets targets' copies keeps =
    Every-weaken (IsAccounted targets) (IsAccounted targets') copies
      λ copy (target, found, evidence).
        let (target', found', same) = keeps copy.target_id target found in
        (target', found', rw same evidence)

IsAccounted-new :
    (targets : List TargetRow) (target : TargetRow) (id : Text) (references : List CopyReference)
    → find (is_target id) targets ≡ some target
    → Every (IsAccounted targets) (map (new_copy id) references)
unfolding new_copy
IsAccounted-new targets target id [] found = tt
IsAccounted-new targets target id (r ∷ rs) found =
    ((target, found, tt), IsAccounted-new targets target id rs found)

staged_evidence :
    (copy : CopyRow) (expires_at : ℕ)
    → is_trash_staged copy.state ≡ true
    → IsEvidenced expires_at copy copy.state
    → IsStagedAfter expires_at copy
staged_evidence copy expires_at t evidence = by_state copy.state t evidence
  where
    by_state :
        (state : CopyState)
        → is_trash_staged state ≡ true
        → IsEvidenced expires_at copy state
        → IsStagedAfter expires_at copy
    by_state trash_staged t evidence = evidence
    by_state active t evidence = cc
    by_state deleted t evidence = cc

abbrev Accounts : RetentionDb → Type 0
Accounts db = Every (IsAccounted db.targets) db.copies

-- Both tables of a step, in one equation each.
Accounts-at :
    (db' : RetentionDb) (targets : List TargetRow) (copies : List CopyRow)
    → db'.targets ≡ targets
    → db'.copies ≡ copies
    → Every (IsAccounted targets) copies
    → Accounts db'
Accounts-at db' targets copies p q all = rw (p, q) all

LedgerStep-Accounts : (db db' : RetentionDb) → LedgerStep db db' → Accounts db → Accounts db'
unfolding new_target held_row touched_row staged_row deleted_row attested_row
LedgerStep-Accounts db db' (kept p q) all = Accounts-at db' db.targets db.copies p q all
LedgerStep-Accounts db db' (registered id by created expires copy copies fresh later p q) all =
    let new = new_target id by created expires in
    let found = find-append_new (is_target id) db.targets new fresh (text_eq_refl id) in
    Accounts-at db' _ _ p q (
      Every-append (IsAccounted (db.targets ++ new ∷ [])) db.copies
        (map (new_copy id) (copy ∷ copies))
        (IsAccounted-Keeps db.targets (db.targets ++ new ∷ []) db.copies
          (λ other old h.
            (old, find-append_old (is_target other) db.targets (new ∷ []) old h, refl))
          all)
        (IsAccounted-new (db.targets ++ new ∷ []) new id (copy ∷ copies) found))
LedgerStep-Accounts db db' (hold_changed id hold reason now target found open_target p q) all =
    Accounts-at db' _ _ p q (
      IsAccounted-Keeps db.targets _ db.copies
        (Keeps-replace id db.targets target (held_row hold reason now target) found refl refl) all)
LedgerStep-Accounts db db'
      (staged id copy_id now target copy found free open_target due found_copy state p q) all =
    let targets = replace (is_target id) (touched_row now target) db.targets in
    let keeps = Keeps-replace id db.targets target (touched_row now target) found refl refl in
    let (target', found', same) = keeps id target found in
    let key = (find-copy_key id copy_id db.copies copy found_copy).0 in
    Accounts-at db' targets _ p q (
      Every-replace (IsAccounted targets) (is_copy id copy_id) (staged_row now copy) db.copies
        (IsAccounted-Keeps db.targets targets db.copies keeps all)
        (target', rw key found', (now, refl, rw same due)))
LedgerStep-Accounts db db'
      (attested id copy_id receipt now target copy found free open_target found_copy state p q)
      all =
    let new = attested_row now _ target in
    let targets = replace (is_target id) new db.targets in
    let keeps = Keeps-replace id db.targets target new found refl refl in
    let all' = IsAccounted-Keeps db.targets targets db.copies keeps all in
    let (target', found', evidence) =
      Every-find (IsAccounted targets) (is_copy id copy_id) db.copies copy all' found_copy in
    Accounts-at db' targets _ q p (
      Every-replace (IsAccounted targets) (is_copy id copy_id) (deleted_row now receipt copy)
        db.copies all'
        (
          target',
          found',
          (staged_evidence copy target'.expires_at state evidence, (now, receipt, refl, refl)),
        ))

-- Whatever calls were made on a fresh ledger: every copy has its target, a copy that is staged or
-- deleted was staged no earlier than its target's expiry, and a deleted one has the time and the
-- receipt of its deletion.
pub run-IsAccounted :
    (platform : Platform) (calls : List LedgerCall)
    → let db = run platform calls empty_db in Every (IsAccounted db.targets) db.copies
run-IsAccounted platform calls =
    run-invariant platform Accounts LedgerStep-Accounts calls empty_db tt
