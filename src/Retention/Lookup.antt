-- ===== src/Retention/Lookup.antt =====
-- Looking targets and copies up by their keys in tables that an operation changed.
use workflow_helper_public.Retention.Deletion.{remaining_copies}
use workflow_helper_public.Base.{
  ◌+◌, ◌<◌, ◌≡◌, refl, ◌∙◌, true, false, not, ◌&&◌, List, [], ◌∷◌, ◌++◌, map, some, arith,
  if◌then◌else◌, find, replace, find-test, find-replace_self, find-replace_other, count-replace,
  unit, inl, inr,
}
use workflow_helper_public.Text.{Text, text_eq}
use workflow_helper_public.Text.Equality.{text_eq_iff, text_eq_refl, Text-cases}
use workflow_helper_public.Retention.Rows.{TargetRow, CopyRow, is_target, is_copy, is_deleted}
use workflow_helper_public.Retention.Copies.{CopyReference}
use workflow_helper_public.Retention.Ledger.{new_copy}

pub find-target_id :
    (id : Text) (targets : List TargetRow) (target : TargetRow)
    → find (is_target id) targets ≡ some target
    → target.target_id ≡ id
find-target_id id targets target h =
    (text_eq_iff target.target_id id).0 (find-test (is_target id) targets target h)

pub find-copy_key :
    (id copy_id : Text) (copies : List CopyRow) (copy : CopyRow)
    → find (is_copy id copy_id) copies ≡ some copy
    → (copy.target_id ≡ id) × (copy.copy_id ≡ copy_id)
find-copy_key id copy_id copies copy h =
    let t = find-test (is_copy id copy_id) copies copy h in
    ground (arith, text_eq_iff copy.target_id id, text_eq_iff copy.copy_id copy_id)

-- A target whose row is replaced, under the same identifier.
pub find-replace_target :
    (id other : Text) (targets : List TargetRow) (target new : TargetRow)
    → find (is_target id) targets ≡ some target
    → new.target_id ≡ target.target_id
    → find (is_target other) (replace (is_target id) new targets)
      ≡ (if text_eq id other then some new else find (is_target other) targets)
find-replace_target id other targets target new found same =
    let new_id : new.target_id ≡ id = same ∙ find-target_id id targets target found in
    elim (Text-cases id other) [
      | inl e ↦
          let t : text_eq id other ≡ true = rw e (text_eq_refl other) in
          rw t (
            rw⁻¹ e (
              find-replace_self (is_target id) new targets target (rw new_id (text_eq_refl id))
                found))
      | inr ne ↦ rw ne (
          find-replace_other (is_target id) (is_target other) new targets (rw new_id ne)
            (λ x t. rw ((text_eq_iff x.target_id id).0 t) ne))
    ]

-- A copy of another target is the one that it was.
pub find-replace_copy_other :
    (id copy_id other other_copy : Text) (copies : List CopyRow) (new : CopyRow)
    → new.target_id ≡ id
    → text_eq id other ≡ false
    → find (is_copy other other_copy) (replace (is_copy id copy_id) new copies)
      ≡ find (is_copy other other_copy) copies
find-replace_copy_other id copy_id other other_copy copies new same ne =
    find-replace_other (is_copy id copy_id) (is_copy other other_copy) new copies
      (rw (same, ne) refl) (λ x t. apart x (key_of x t))
  where
    key_of : (x : CopyRow) → is_copy id copy_id x ≡ true → x.target_id ≡ id
    key_of x t = ground (arith, text_eq_iff x.target_id id)

    apart : (x : CopyRow) → x.target_id ≡ id → is_copy other other_copy x ≡ false
    apart x e = rw (e, ne) refl

pub find-append_copies :
    (id other other_copy : Text) (copies : List CopyRow) (references : List CopyReference)
    → text_eq id other ≡ false
    → find (is_copy other other_copy) (copies ++ map (new_copy id) references)
      ≡ find (is_copy other other_copy) copies
unfolding new_copy
find-append_copies id other other_copy [] [] ne = refl
find-append_copies id other other_copy [] (r ∷ rs) ne =
    rw ne (find-append_copies id other other_copy [] rs ne)
find-append_copies id other other_copy (copy ∷ copies) rs ne =
    ground (arith, find-append_copies id other other_copy copies rs)

pub remaining_copies-append :
    (id other : Text) (copies : List CopyRow) (references : List CopyReference)
    → text_eq id other ≡ false
    → remaining_copies other (copies ++ map (new_copy id) references)
      ≡ remaining_copies other copies
unfolding remaining_copies new_copy
remaining_copies-append id other [] [] ne = refl
remaining_copies-append id other [] (r ∷ rs) ne =
    rw ne (ground (arith, remaining_copies-append id other [] rs ne))
remaining_copies-append id other (copy ∷ copies) rs ne =
    ground (arith, remaining_copies-append id other copies rs)

-- A registered target has a copy that remains.
pub remaining_copies-new :
    (id : Text) (copies : List CopyRow) (r : CopyReference) (rs : List CopyReference)
    → 0 < remaining_copies id (copies ++ map (new_copy id) (r ∷ rs))
unfolding remaining_copies new_copy
remaining_copies-new id [] r rs = rw (text_eq_refl id) (ground arith)
remaining_copies-new id (copy ∷ copies) r rs = ground (arith, remaining_copies-new id copies r rs)

pub remaining_copies-replace :
    (id copy_id other : Text) (copies : List CopyRow) (copy new : CopyRow)
    → find (is_copy id copy_id) copies ≡ some copy
    → remaining_copies other (replace (is_copy id copy_id) new copies)
        + unit (text_eq copy.target_id other && not (is_deleted copy.state))
      ≡ remaining_copies other copies
        + unit (text_eq new.target_id other && not (is_deleted new.state))
unfolding remaining_copies
remaining_copies-replace id copy_id other copies copy new found =
    count-replace (is_copy id copy_id)
      (λ (row : CopyRow). text_eq row.target_id other && not (is_deleted row.state)) new copies copy
      found
