-- ===== src/Store/Audits/Numbering.antt =====
-- The numbers of the rows of `audit_events`: the places of the rows, whatever is appended.
use workflow_helper_public.Base.{
  ℕ, suc, ◌+◌, ◌≡◌, ◌∙◌, List, [], ◌∷◌, ◌++◌, Option, none, some, arith, length, ok, subst,
  after_ok,
}
use workflow_helper_public.Text.{Text}
use workflow_helper_public.Platform.{Platform, to_micros}
use workflow_helper_public.Audit.{
  AuditContext, AuditEventRow, audit_row, append_valid, append_audit, validate_audit_context,
}

-- The rows are numbered from the next of `n` on.
abbrev pub IsNumbered : ℕ → List AuditEventRow → Type 0
IsNumbered n [] = Unit
IsNumbered n (row ∷ rows) = (row.sequence ≡ suc n) × IsNumbered (suc n) rows

append-IsNumbered :
    (n : ℕ) (rows : List AuditEventRow) (new : AuditEventRow)
    → IsNumbered n rows
    → new.sequence ≡ n + (length rows + 1)
    → IsNumbered n (rows ++ new ∷ [])
append-IsNumbered n [] new numbered next = (next ∙ one n, tt)
  where
    one : (n : ℕ) → n + 1 ≡ suc n
    one n = omega arith
append-IsNumbered n (row ∷ rows) new (first, rest) next =
    (first, append-IsNumbered (suc n) rows new rest (next ∙ omega arith))

row_number :
    (event_id : Text) (audit : AuditContext) (us n : ℕ)
    → (audit_row event_id audit us n).sequence ≡ 0 + n
unfolding audit_row
row_number event_id audit us n = omega arith

-- Whatever `_append_audit_event` is called with, it keeps the rows numbered by their places.
append_audit-IsNumbered :
    (platform : Platform) (audit : Option AuditContext) (event_id : Text)
    (rows rows' : List AuditEventRow)
    → IsNumbered 0 rows
    → append_audit platform audit event_id rows ≡ ok rows'
    → IsNumbered 0 rows'
unfolding append_audit append_valid
append_audit-IsNumbered platform none event_id rows rows' numbered h =
    let same : rows ≡ rows' = cc in subst (λ (r : List AuditEventRow). IsNumbered 0 r) same numbered
append_audit-IsNumbered platform (some audit) event_id rows rows' numbered h =
    let (_, _, timed) = after_ok (validate_audit_context audit) _ h in
    let (us, _, added) = after_ok (to_micros platform audit.occurred_at) _ timed in
    let new = audit_row event_id audit us (length rows + 1) in
    let same : rows ++ new ∷ [] ≡ rows' = ground arith in
    subst (λ (r : List AuditEventRow). IsNumbered 0 r) same
      (append-IsNumbered 0 rows new numbered (row_number event_id audit us (length rows + 1)))
