-- ===== src/Retention/Hold.antt =====
-- What a legal hold keeps the ledger from doing.
use workflow_helper_public.Retention.Deletion.{staged_row, deleted_row}
use workflow_helper_public.Base.{
  ◌≡◌, refl, true, false, List, ◌∷◌, none, some, arith, find, Bool-cases, inl, inr,
}
use workflow_helper_public.Text.{Text, text_eq}
use workflow_helper_public.Text.Equality.{text_eq_iff}
use workflow_helper_public.Platform.{Platform}
use workflow_helper_public.Retention.Rows.{TargetRow, RetentionDb, is_target, is_copy}
use workflow_helper_public.Retention.Transitions.{
  LedgerStep, kept, registered, hold_changed, staged, attested,
}
use workflow_helper_public.Retention.Lookup.{
  find-copy_key, find-replace_copy_other, find-append_copies,
}
use workflow_helper_public.Retention.Calls.{LedgerCall, step, step-LedgerStep}

-- A held target is not the one that is free.
apart_from_free :
    (id id' : Text) (targets : List TargetRow) (target target' : TargetRow)
    → find (is_target id) targets ≡ some target
    → target.legal_hold ≡ true
    → find (is_target id') targets ≡ some target'
    → target'.legal_hold ≡ false
    → text_eq id' id ≡ false
apart_from_free id id' targets target target' found held found' free =
    elim (Bool-cases (text_eq id' id)) [
      | inr ne ↦ ne
      | inl e ↦
          let at = rw ((text_eq_iff id' id).0 e) at found' in
          let row : target' ≡ target = ground arith in
          let free_row : target.legal_hold ≡ false = rw⁻¹ row free in ground arith
    ]

apart_from_fresh :
    (id id' : Text) (targets : List TargetRow) (target : TargetRow)
    → find (is_target id) targets ≡ some target
    → find (is_target id') targets ≡ none
    → text_eq id' id ≡ false
apart_from_fresh id id' targets target found fresh = elim (Bool-cases (text_eq id' id)) [
  | inr ne ↦ ne
  | inl e ↦ let at = rw ((text_eq_iff id' id).0 e) at fresh in ground arith
]

LedgerStep-held :
    (db db' : RetentionDb) (id copy_id : Text) (target : TargetRow)
    → LedgerStep db db'
    → find (is_target id) db.targets ≡ some target
    → target.legal_hold ≡ true
    → find (is_copy id copy_id) db'.copies ≡ find (is_copy id copy_id) db.copies
unfolding staged_row deleted_row
LedgerStep-held db db' id copy_id target (kept p q) found held = rw q refl
LedgerStep-held db db' id copy_id target (registered id' _ _ _ copy copies fresh _ p q) found held =
    rw q (
      find-append_copies id' id copy_id db.copies (copy ∷ copies)
        (apart_from_fresh id id' db.targets target found fresh))
LedgerStep-held db db' id copy_id target (hold_changed _ _ _ _ _ _ _ p q) found held = rw q refl
LedgerStep-held db db' id copy_id target
      (staged id' c now old copy found' free _ _ found_copy _ p q) found held =
    rw q (
      find-replace_copy_other id' c id copy_id db.copies (staged_row now copy)
        (find-copy_key id' c db.copies copy found_copy).0
        (apart_from_free id id' db.targets target old found held found' free))
LedgerStep-held db db' id copy_id target
      (attested id' c receipt now old copy found' free _ found_copy _ q p) found held =
    rw q (
      find-replace_copy_other id' c id copy_id db.copies (deleted_row now receipt copy)
        (find-copy_key id' c db.copies copy found_copy).0
        (apart_from_free id id' db.targets target old found held found' free))

-- Under a legal hold no copy of the target changes, whatever call comes next; the hold's release is
-- such a call.
pub held_blocks :
    (platform : Platform) (call : LedgerCall) (db : RetentionDb) (id copy_id : Text)
    (target : TargetRow)
    → find (is_target id) db.targets ≡ some target
    → target.legal_hold ≡ true
    → find (is_copy id copy_id) (step platform call db).copies ≡ find (is_copy id copy_id) db.copies
held_blocks platform call db id copy_id target found held =
    LedgerStep-held db (step platform call db) id copy_id target (step-LedgerStep platform call db)
      found held
