-- ===== src/Store/Audits/Scoped.antt =====
-- Reading one audit event of a scope, in control_store.py, and listing the scope: the same event,
-- under the same number.
use workflow_helper_public.Base.{
  ℕ, suc, ◌+◌, ◌≤◌, ◌<◌, ◌≡◌, refl, sym, ap, ◌∙◌, Bool, false, ◌&&◌, List, [], ◌∷◌, Option, none,
  some, arith, find, count, leb, if◌then◌else◌, Bool-cases, inl, inr, Result, ok, le→leb, leb→le,
}
use workflow_helper_public.Text.{Text, text_eq, is_blank}
use workflow_helper_public.Platform.{Platform}
use workflow_helper_public.Checks.{require_text}
use workflow_helper_public.Audit.{AuditEventRow}
use workflow_helper_public.Store.Rows.{ControlDb}
use workflow_helper_public.Store.Audits.{
  AuditEvent, audit_event_from_row, in_scope, scoped_rows, scoped_sequence, get_scoped_audit_event,
}
use workflow_helper_public.Store.Audits.Numbering.{IsNumbered}

abbrev pub option_map {ℓ} : {A B : Type ℓ} → (A → B) → Option A → Option B
option_map f none = none
option_map f (some a) = some (f a)

option_map-same :
    {A B : Type 0} (f g : A → B) (o : Option A)
    → ((a : A) → o ≡ some a → f a ≡ g a)
    → option_map f o ≡ option_map g o
option_map-same {B = B} f g none h = refl
option_map-same {B = B} f g (some a) h = ap (λ (b : B). some b) (h a refl)

-- Rows that come after a number have a larger one.
later-found :
    (n : ℕ) (test : AuditEventRow → Bool) (rows : List AuditEventRow) (row : AuditEventRow)
    → IsNumbered n rows
    → find test rows ≡ some row
    → n < row.sequence
later-found n test [] row numbered h = cc
later-found n test (first ∷ rows) row (at, rest) h = elim (Bool-cases (test first)) [
  | inl e ↦
      let same : first ≡ row = ground arith in
      omega (arith, at, ap (λ (r : AuditEventRow). r.sequence) same)
  | inr e ↦
      let later = later-found (suc n) test rows row rest (ground arith) in omega (arith, later)
]

-- None of them counts as one before that number.
none_before :
    (n m : ℕ) (test : AuditEventRow → Bool) (rows : List AuditEventRow)
    → IsNumbered n rows
    → m ≤ n
    → count (λ prior. test prior && leb prior.sequence m) rows ≡ 0
none_before n m test [] numbered below = refl
none_before n m test (row ∷ rows) (at, rest) below =
    let later = none_before (suc n) m test rows rest (omega (arith, below)) in
    ground (arith, at, below, later, leb→le row.sequence m)

-- The row of an id under its place among the rows of a scope, looked up in the log.
abbrev looked_up : ℕ → Text → Text → List AuditEventRow → Option AuditEventRow
looked_up before event_id scope_prefix rows =
    option_map
      (λ (current : AuditEventRow). record current {
        sequence = before + scoped_sequence scope_prefix current rows;
      })
      (find (λ current. text_eq current.event_id event_id && in_scope scope_prefix current) rows)

abbrev numbered_at : AuditEventRow → ℕ → AuditEventRow
numbered_at row n = record row { sequence = n }

-- The number of a row that comes first, or after a first row in the scope or not.
first_number :
    (n before : ℕ) (scope_prefix : Text) (row : AuditEventRow) (rows : List AuditEventRow)
    → row.sequence ≡ suc n
    → IsNumbered (suc n) rows
    → suc before
      ≡ before
        + ((if leb row.sequence row.sequence then 1 else 0)
            + count (λ prior. in_scope scope_prefix prior && leb prior.sequence row.sequence) rows)
first_number n before scope_prefix row rows at rest =
    let none_earlier =
      none_before (suc n) row.sequence (in_scope scope_prefix) rows rest (omega (arith, at)) in
    rw (le→leb row.sequence row.sequence (omega arith)) (rw none_earlier (omega arith))

later_number :
    (before : ℕ) (first current : ℕ) (others : ℕ)
    → first ≤ current
    → suc before + others ≡ before + ((if leb first current then 1 else 0) + others)
later_number before first current others h = rw (le→leb first current h) (omega arith)

found_in_list :
    (n before : ℕ) (event_id scope_prefix : Text) (rows : List AuditEventRow)
    → IsNumbered n rows
    → find
        (λ (row : AuditEventRow). text_eq row.event_id event_id)
        (scoped_rows (suc before) scope_prefix rows)
      ≡ looked_up before event_id scope_prefix rows
unfolding scoped_rows scoped_sequence
found_in_list n before event_id scope_prefix [] numbered = refl
found_in_list n before event_id scope_prefix (row ∷ rows) (at, rest) =
    elim (Bool-cases (in_scope scope_prefix row)) [
      | inr out ↦
          let others =
            found_in_list (suc n) before event_id scope_prefix rows rest
            ∙ option_map-same _ _ found
                (λ current _. ap (numbered_at current) (zero_left before _)) in
          elim (Bool-cases (text_eq row.event_id event_id)) [
            | inl e ↦ rw out (rw e others)
            | inr e ↦ rw out (rw e others)
          ]
      | inl inside ↦ elim (Bool-cases (text_eq row.event_id event_id)) [
        | inl e ↦ rw inside (
            rw e (
              ap (λ (k : ℕ). some (numbered_at row k))
                (first_number n before scope_prefix row rows at rest)))
        | inr e ↦ rw inside (
            rw e (
              found_in_list (suc n) (suc before) event_id scope_prefix rows rest
              ∙ option_map-same _ _ found (λ current h.
                ap (numbered_at current)
                  (later_number before row.sequence current.sequence _ (before_found current h)))))
      ]
    ]
  where
    found : Option AuditEventRow
    found =
        find (λ current. text_eq current.event_id event_id && in_scope scope_prefix current) rows

    zero_left : (b c : ℕ) → b + c ≡ b + (0 + c)
    zero_left b c = omega arith

    before_found :
        (current : AuditEventRow) → found ≡ some current → row.sequence ≤ current.sequence
    before_found current h =
        let later = later-found (suc n) _ rows current rest h in omega (arith, later, at)

-- An event is read in a scope exactly when the scope's whole list has it, and then as that list
-- shows it, under the same number; the rows are numbered by their places, and neither argument is
-- blank.
pub get_scoped_as_listed :
    (platform : Platform) (event_id scope_prefix : Text) (db : ControlDb)
    → is_blank event_id ≡ false
    → is_blank scope_prefix ≡ false
    → IsNumbered 0 db.audit_events
    → get_scoped_audit_event platform event_id scope_prefix db
      ≡ ok (
          option_map (audit_event_from_row platform) (
            find
              (λ (row : AuditEventRow). text_eq row.event_id event_id)
              (scoped_rows 1 scope_prefix db.audit_events)))
unfolding get_scoped_audit_event require_text
get_scoped_as_listed platform event_id scope_prefix db id_text prefix_text numbered =
    rw (get_scoped_audit_event, require_text, id_text, prefix_text)
      (shown (
          find (λ current. text_eq current.event_id event_id && in_scope scope_prefix current)
            db.audit_events)
        ∙ ap (λ (o : Option AuditEventRow). ok (option_map (audit_event_from_row platform) o))
            (sym (found_in_list 0 0 event_id scope_prefix db.audit_events numbered)))
  where
    from_zero : (k : ℕ) → k ≡ 0 + k
    from_zero k = omega arith

    shown :
        (found : Option AuditEventRow)
        → (elim found as (λ _. Result (Option AuditEvent)) [
          | none ↦ ok none
          | some current ↦ ok (
              some (
                audit_event_from_row platform (record current {
                  sequence = scoped_sequence scope_prefix current db.audit_events;
                })))
        ])
          ≡ ok (
              option_map (audit_event_from_row platform) (
                option_map
                  (λ (current : AuditEventRow). record current {
                    sequence = 0 + scoped_sequence scope_prefix current db.audit_events;
                  })
                  found))
    shown none = refl
    shown (some current) =
        ap (λ (k : ℕ). ok (some (audit_event_from_row platform (numbered_at current k))))
          (from_zero (scoped_sequence scope_prefix current db.audit_events))
