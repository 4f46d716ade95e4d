-- ===== src/Retention/Completion.antt =====
-- When a retention target is complete, and what is final then.
use workflow_helper_public.Retention.Deletion.{
  staged_row, touched_row, deleted_row, remaining_copies, attested_row,
}
use workflow_helper_public.Base.{
  ℕ, ◌≡◌, refl, sym, subst, ◌∙◌, true, false, List, [], ◌∷◌, ◌++◌, map, none, some, arith, ◌==◌,
  ◌⊎◌, if◌then◌else◌, find, replace, find-append_new, find-append_old, find-append_other,
  Bool-cases, inl, inr,
}
use workflow_helper_public.Text.{Text, text_eq}
use workflow_helper_public.Text.Equality.{text_eq_iff, text_eq_refl}
use workflow_helper_public.Platform.{Platform}
use workflow_helper_public.Retention.Rows.{
  TargetRow, CopyRow, RetentionDb, is_target, is_copy, is_active, is_deleted, empty_db,
}
use workflow_helper_public.Retention.Copies.{CopyReference}
use workflow_helper_public.Retention.Ledger.{new_target, new_copy, held_row, is_complete}
use workflow_helper_public.Retention.Transitions.{
  LedgerStep, kept, registered, hold_changed, staged, attested,
}
use workflow_helper_public.Retention.Lookup.{
  find-copy_key, find-replace_target, remaining_copies-append, remaining_copies-new,
  remaining_copies-replace,
}
use workflow_helper_public.Retention.Calls.{LedgerCall, run, run-invariant}

-- Every target is complete exactly if none of its copies remains.
abbrev pub IsSettled : List TargetRow → List CopyRow → Type 0
IsSettled targets copies =
    (id : Text) (target : TargetRow)
    → find (is_target id) targets ≡ some target
    → is_complete target ≡ (remaining_copies id copies == 0)

-- The target that a lookup finds behind a replacement: the new row, or another's.
replaced_cases :
    (id other : Text) (targets : List TargetRow) (target new found : TargetRow)
    → find (is_target id) targets ≡ some target
    → new.target_id ≡ target.target_id
    → find (is_target other) (replace (is_target id) new targets) ≡ some found
    → ((other ≡ id) × (found ≡ new))
      ⊎ ((text_eq id other ≡ false) × (find (is_target other) targets ≡ some found))
replaced_cases id other targets target new found h same r =
    let after = find-replace_target id other targets target new h same in
    elim (Bool-cases (text_eq id other)) [
      | inl e ↦
          let at : some new ≡ some found = sym (rw e at after) ∙ r in
          inl (sym ((text_eq_iff id other).0 e), ground arith)
      | inr ne ↦ inr (ne, sym (rw ne at after) ∙ r)
    ]

IsSettled-replace :
    (id : Text) (targets : List TargetRow) (copies copies' : List CopyRow) (target new : TargetRow)
    → find (is_target id) targets ≡ some target
    → new.target_id ≡ target.target_id
    → is_complete new ≡ (remaining_copies id copies' == 0)
    → ((other : Text)
        → text_eq id other ≡ false
        → remaining_copies other copies' ≡ remaining_copies other copies)
    → IsSettled targets copies
    → IsSettled (replace (is_target id) new targets) copies'
IsSettled-replace id targets copies copies' target new h same complete others settled other found
      r =
    elim (replaced_cases id other targets target new found h same r) [
      | inl (e, n) ↦ rw (e, n) complete
      | inr (ne, old) ↦ rw (others other ne) (settled other found old)
    ]

-- The count of a target's copies that remain, when a copy of another one is replaced.
remaining_copies_other :
    (id copy_id other : Text) (copies : List CopyRow) (copy new : CopyRow)
    → find (is_copy id copy_id) copies ≡ some copy
    → new.target_id ≡ copy.target_id
    → text_eq id other ≡ false
    → remaining_copies other (replace (is_copy id copy_id) new copies)
      ≡ remaining_copies other copies
remaining_copies_other id copy_id other copies copy new h same ne =
    let key = (find-copy_key id copy_id copies copy h).0 in
    let counted = remaining_copies-replace id copy_id other copies copy new h in
    ground (arith, (rw (same, key, ne) at counted))

-- Staging a copy leaves it among those that remain.
remaining_copies-staged :
    (id copy_id : Text) (now : ℕ) (copies : List CopyRow) (copy : CopyRow)
    → find (is_copy id copy_id) copies ≡ some copy
    → is_active copy.state ≡ true
    → remaining_copies id (replace (is_copy id copy_id) (staged_row now copy) copies)
      ≡ remaining_copies id copies
unfolding staged_row
remaining_copies-staged id copy_id now copies copy h state =
    let counted = remaining_copies-replace id copy_id id copies copy (staged_row now copy) h in
    let same : is_deleted copy.state ≡ false = ground arith in ground (arith, (rw same at counted))

complete_after :
    (now : ℕ) (target : TargetRow) (remaining : ℕ)
    → is_complete target ≡ false
    → is_complete (attested_row now (if remaining == 0 then some now else none) target)
      ≡ (remaining == 0)
unfolding attested_row
complete_after now target remaining h = ground arith

IsSettled-at :
    (db' : RetentionDb) (targets : List TargetRow) (copies : List CopyRow)
    → db'.targets ≡ targets
    → db'.copies ≡ copies
    → IsSettled targets copies
    → IsSettled db'.targets db'.copies
IsSettled-at db' targets copies p q settled = rw (p, q) settled

abbrev Settles : RetentionDb → Type 0
Settles db = IsSettled db.targets db.copies

registered_itself :
    (id by : Text) (created expires : ℕ) (copy : CopyReference) (references : List CopyReference)
    (targets : List TargetRow) (copies : List CopyRow) (target : TargetRow)
    → find (is_target id) targets ≡ none
    → find (is_target id) (targets ++ new_target id by created expires ∷ []) ≡ some target
    → is_complete target
      ≡ (remaining_copies id (copies ++ map (new_copy id) (copy ∷ references)) == 0)
unfolding new_target
registered_itself id by created expires copy references targets copies target fresh r =
    let new = new_target id by created expires in
    let at = sym (find-append_new (is_target id) targets new fresh (text_eq_refl id)) ∙ r in
    let row : new ≡ target = ground arith in
    let open_target : is_complete target ≡ false = rw⁻¹ row refl in
    let left = remaining_copies-new id copies copy references in open_target ∙ ground arith

registered-IsSettled :
    (id by : Text) (created expires : ℕ) (copy : CopyReference) (references : List CopyReference)
    (targets : List TargetRow) (copies : List CopyRow)
    → find (is_target id) targets ≡ none
    → IsSettled targets copies
    → IsSettled
        (targets ++ new_target id by created expires ∷ [])
        (copies ++ map (new_copy id) (copy ∷ references))
unfolding new_target
registered-IsSettled id by created expires copy references targets copies fresh settled other target
      r =
    elim (Bool-cases (text_eq id other)) [
      | inl e ↦
          subst
            (λ o.
              find (is_target o) (targets ++ new_target id by created expires ∷ []) ≡ some target
              → is_complete target
                ≡ (remaining_copies o (copies ++ map (new_copy id) (copy ∷ references)) == 0))
            ((text_eq_iff id other).0 e)
            (registered_itself id by created expires copy references targets copies target fresh) r
      | inr ne ↦
          let old =
            sym (find-append_other (is_target other) targets (new_target id by created expires) ne)
            ∙ r in
          rw (remaining_copies-append id other copies (copy ∷ references) ne)
            (settled other target old)
    ]

LedgerStep-IsSettled : (db db' : RetentionDb) → LedgerStep db db' → Settles db → Settles db'
unfolding held_row touched_row staged_row deleted_row attested_row
LedgerStep-IsSettled db db' (kept p q) settled = IsSettled-at db' db.targets db.copies p q settled
LedgerStep-IsSettled db db' (registered id by created expires copy copies fresh later p q) settled =
    IsSettled-at db' _ _ p q
      (registered-IsSettled id by created expires copy copies db.targets db.copies fresh settled)
LedgerStep-IsSettled db db' (hold_changed id hold reason now target found open_target p q) settled =
    IsSettled-at db' _ _ p q (
      IsSettled-replace id db.targets db.copies db.copies target (held_row hold reason now target)
        found refl (settled id target found) (λ other ne. refl) settled)
LedgerStep-IsSettled db db'
      (staged id copy_id now target copy found free open_target due found_copy state p q) settled =
    IsSettled-at db' _ _ p q (
      IsSettled-replace id db.targets db.copies _ target (touched_row now target) found refl
        (settled id target found
          ∙ rw (remaining_copies-staged id copy_id now db.copies copy found_copy state) refl)
        (λ other ne.
          remaining_copies_other id copy_id other db.copies copy (staged_row now copy) found_copy
            refl ne)
        settled)
LedgerStep-IsSettled db db'
      (attested id copy_id receipt now target copy found free open_target found_copy state p q)
      settled =
    IsSettled-at db' _ _ q refl (
      IsSettled-replace id db.targets db.copies db'.copies target _ found refl
        (complete_after now target (remaining_copies id db'.copies) open_target)
        (λ other ne. rw p (
          remaining_copies_other id copy_id other db.copies copy (deleted_row now receipt copy)
            found_copy refl ne))
        settled)

no_targets : IsSettled [] []
no_targets id target h = cc

-- Whatever calls were made on a fresh ledger: a target is complete exactly if none of its copies
-- remains undeleted.
pub run-IsSettled :
    (platform : Platform) (calls : List LedgerCall) (id : Text) (target : TargetRow)
    → let db = run platform calls empty_db in
      find (is_target id) db.targets ≡ some target
      → is_complete target ≡ (remaining_copies id db.copies == 0)
run-IsSettled platform calls =
    run-invariant platform Settles LedgerStep-IsSettled calls empty_db no_targets

-- Replacing the row of a target that is open leaves a complete one alone.
open_replaced :
    (id id' : Text) (targets : List TargetRow) (target target' new : TargetRow)
    → find (is_target id) targets ≡ some target
    → is_complete target ≡ true
    → find (is_target id') targets ≡ some target'
    → is_complete target' ≡ false
    → new.target_id ≡ target'.target_id
    → find (is_target id) (replace (is_target id') new targets) ≡ some target
open_replaced id id' targets target target' new found complete found' open_target same =
    let after = find-replace_target id' id targets target' new found' same in
    elim (Bool-cases (text_eq id' id)) [
      | inl e ↦
          let at = rw ((text_eq_iff id' id).0 e) at found' in
          let row : target' ≡ target = ground arith in
          let open_row : is_complete target ≡ false = rw⁻¹ row open_target in ground arith
      | inr ne ↦ (rw ne at after) ∙ found
    ]

LedgerStep-complete :
    (id : Text) (target : TargetRow) (db db' : RetentionDb)
    → is_complete target ≡ true
    → LedgerStep db db'
    → find (is_target id) db.targets ≡ some target
    → find (is_target id) db'.targets ≡ some target
unfolding held_row touched_row attested_row
LedgerStep-complete id target db db' complete (kept p q) found = rw p found
LedgerStep-complete id target db db' complete (registered _ _ _ _ _ _ fresh later p q) found =
    rw p (find-append_old (is_target id) db.targets _ target found)
LedgerStep-complete id target db db' complete (hold_changed id' _ _ _ old found' free p q) found =
    rw p (open_replaced id id' db.targets target old _ found complete found' free refl)
LedgerStep-complete id target db db' complete (staged id' _ _ old _ found' _ free _ _ _ p q) found =
    rw p (open_replaced id id' db.targets target old _ found complete found' free refl)
LedgerStep-complete id target db db' complete (attested id' _ _ _ old _ found' _ free _ _ q p)
      found =
    rw p (open_replaced id id' db.targets target old _ found complete found' free refl)

-- A target that is complete keeps its row, whatever is called: no hold, staging or attestation
-- changes it again.
pub completed_final :
    (platform : Platform) (calls : List LedgerCall) (db : RetentionDb) (id : Text)
    (target : TargetRow)
    → find (is_target id) db.targets ≡ some target
    → is_complete target ≡ true
    → find (is_target id) (run platform calls db).targets ≡ some target
completed_final platform calls db id target found complete =
    run-invariant platform (λ db. find (is_target id) db.targets ≡ some target)
      (λ db db' changed h. LedgerStep-complete id target db db' complete changed h) calls db found
