-- ===== src/Retention/Listing/Overdue.antt =====
-- What the overdue listings of retention_store.py select, and in which order.
use workflow_helper_public.Base.{
  ℕ, ◌≡◌, ◌≤◌, ◌<◌, ◌⊎◌, inl, inr, refl, sym, ap, ◌∙◌, Bool, true, false, ◌&&◌, List, [], ◌∷◌,
  Option, none, some, arith, count, select, map, leb, Bool-cases, Every, find-test, ok, lift-eq-ok,
  require_row-eq-ok, >>=-eq-ok, find, if◌then◌else◌,
}
use workflow_helper_public.Text.{Text, starts_with}
use workflow_helper_public.Text.Equality.{text_eq→eq}
use workflow_helper_public.Text.Order.{text_lt, sort_by, count-sort_by}
use workflow_helper_public.Text.Order.Sorted.{IsSortedBy, sort_by-Every, sort_by-IsSortedBy}
use workflow_helper_public.Platform.{Platform, Timestamp, to_micros}
use workflow_helper_public.Audit.{AuditContext}
use workflow_helper_public.Retention.Rows.{
  TargetRow, RetentionDb, RetentionTargetState, is_target, target_state, require_bounded,
  target_row, append_audit_event,
}
use workflow_helper_public.Retention.Ledger.{is_complete}
use workflow_helper_public.Retention.Listing.{
  insert_due, by_expiry, is_overdue, overdue_rows, states, list_scoped_overdue,
}

-- The target is in the scope of the listing, its time is over, no hold is on it and copies of it
-- remain to be deleted.
pub record IsDue (in_scope : TargetRow → Bool) (now_us : ℕ) (row : TargetRow) : Type 0 where
  pub inside : in_scope row ≡ true
  pub expired : row.expires_at ≤ now_us
  pub free : row.legal_hold ≡ false
  pub incomplete : row.completed_at ≡ none

-- The same as a test.
abbrev pub is_due : (TargetRow → Bool) → ℕ → TargetRow → Bool
is_due in_scope now_us row = elim row.completed_at [
  | some _ ↦ false
  | none ↦ if row.legal_hold then false else in_scope row && leb row.expires_at now_us
]

-- The earlier expiry goes first, and of one expiry the smaller identifier.
abbrev pub GoesBefore : TargetRow → TargetRow → Type 0
GoesBefore x y =
    (x.expires_at < y.expires_at)
    ⊎ ((x.expires_at ≡ y.expires_at) × (text_lt y.target_id x.target_id ≡ false))

abbrev pub IsInOrder : List TargetRow → Type 0
IsInOrder [] = Unit
IsInOrder (x ∷ xs) = Every (GoesBefore x) xs × IsInOrder xs

-- The due targets of a table, each as often as the table has it, in order.
pub record IsListing (in_scope : TargetRow → Bool) (now_us : ℕ) (targets rows : List TargetRow)
    : Type 0 where
  pub due : Every (IsDue in_scope now_us) rows
  pub complete :
      (test : TargetRow → Bool)
      → count test rows ≡ count (λ row. is_due in_scope now_us row && test row) targets
  pub in_order : IsInOrder rows

count-insert_due :
    (test : TargetRow → Bool) (x : TargetRow) (rows : List TargetRow)
    → count test (insert_due x rows) ≡ count test (x ∷ rows)
unfolding insert_due
count-insert_due test x [] = refl
count-insert_due test x (y ∷ ys) = ground (arith, count-insert_due test x ys)

count-by_expiry :
    (test : TargetRow → Bool) (rows : List TargetRow)
    → count test (by_expiry rows) ≡ count test rows
unfolding by_expiry
count-by_expiry test [] = refl
count-by_expiry test (x ∷ xs) =
    ground (arith, count-insert_due test x (by_expiry xs), count-by_expiry test xs)

insert_due-Every :
    (P : TargetRow → Type 0) (x : TargetRow) (rows : List TargetRow)
    → P x
    → Every P rows
    → Every P (insert_due x rows)
unfolding insert_due
insert_due-Every P x [] p all = (p, tt)
insert_due-Every P x (y ∷ ys) p (q, all) = elim (Bool-cases (leb x.expires_at y.expires_at)) [
  | inl e ↦ rw e (p, (q, all))
  | inr e ↦ rw e (q, insert_due-Every P x ys p all)
]

by_expiry-Every :
    (P : TargetRow → Type 0) (rows : List TargetRow) → Every P rows → Every P (by_expiry rows)
unfolding by_expiry
by_expiry-Every P [] all = tt
by_expiry-Every P (x ∷ xs) (p, all) =
    insert_due-Every P x (by_expiry xs) p (by_expiry-Every P xs all)

-- A row that expires no later than one that goes before others goes before them too, if its
-- identifier is the smaller.
goes_first :
    (x y z : TargetRow)
    → x.expires_at ≤ y.expires_at
    → GoesBefore y z
    → text_lt z.target_id x.target_id ≡ false
    → GoesBefore x z
goes_first x y z h (inl k) e = inl (omega (arith, h, k))
goes_first x y z h (inr (same, _)) e = elim (Bool-cases (leb z.expires_at x.expires_at)) [
  | inl at ↦ inr (ground arith, e)
  | inr at ↦ inl (ground arith)
]

all_after :
    (x y : TargetRow) (rows : List TargetRow)
    → x.expires_at ≤ y.expires_at
    → Every (GoesBefore y) rows
    → Every (λ (z : TargetRow). text_lt z.target_id x.target_id ≡ false) rows
    → Every (GoesBefore x) rows
all_after x y [] h before named = tt
all_after x y (z ∷ rows) h (b, before) (n, named) =
    (goes_first x y z h b n, all_after x y rows h before named)

same_or_before :
    (x y : TargetRow)
    → leb x.expires_at y.expires_at ≡ true
    → text_lt y.target_id x.target_id ≡ false
    → GoesBefore x y
same_or_before x y h e = elim (Bool-cases (leb y.expires_at x.expires_at)) [
  | inl at ↦ inr (ground arith, e)
  | inr at ↦ inl (ground arith)
]

insert_due-IsInOrder :
    (x : TargetRow) (rows : List TargetRow)
    → Every (λ (z : TargetRow). text_lt z.target_id x.target_id ≡ false) rows
    → IsInOrder rows
    → IsInOrder (insert_due x rows)
unfolding insert_due
insert_due-IsInOrder x [] named sorted = (tt, tt)
insert_due-IsInOrder x (y ∷ ys) (n, named) (before, sorted) =
    elim (Bool-cases (leb x.expires_at y.expires_at)) [
      | inl e ↦
          rw e (
            (same_or_before x y e n, all_after x y ys (ground arith) before named),
            (before, sorted),
          )
      | inr e ↦ rw e (
        insert_due-Every (GoesBefore y) x ys (inl (ground arith)) before,
        insert_due-IsInOrder x ys named sorted,
      )
    ]

by_expiry-IsInOrder :
    (rows : List TargetRow)
    → IsSortedBy (λ (row : TargetRow). row.target_id) rows
    → IsInOrder (by_expiry rows)
unfolding by_expiry
by_expiry-IsInOrder [] sorted = tt
by_expiry-IsInOrder (x ∷ xs) (named, sorted) =
    insert_due-IsInOrder x (by_expiry xs)
      (by_expiry-Every (λ (z : TargetRow). text_lt z.target_id x.target_id ≡ false) xs named)
      (by_expiry-IsInOrder xs sorted)

module _ (in_scope : TargetRow → Bool) (now_us : ℕ) where
  abbrev selected : TargetRow → Bool
  selected row = in_scope row && is_overdue now_us row

  not_complete : (row : TargetRow) → is_complete row ≡ false → row.completed_at ≡ none
  not_complete row h = absent row.completed_at h
    where
      absent :
          (at : Option ℕ)
          → (elim at as (λ _. Bool) [ none ↦ false | some _ ↦ true ]) ≡ false
          → at ≡ none
      absent none h = refl
      absent (some at) h = cc

  selected-IsDue : (row : TargetRow) → selected row ≡ true → IsDue in_scope now_us row
  unfolding is_overdue
  selected-IsDue row h = record {
    inside = ground arith;
    expired = ground arith;
    free = ground arith;
    incomplete = not_complete row (ground arith);
  }

  selected-due : (row : TargetRow) → selected row ≡ is_due in_scope now_us row
  unfolding is_overdue
  selected-due row = ground arith

  select-IsDue : (rows : List TargetRow) → Every (IsDue in_scope now_us) (select selected rows)
  select-IsDue [] = tt
  select-IsDue (row ∷ rows) = elim (Bool-cases (selected row)) [
    | inl e ↦ rw e (selected-IsDue row e, select-IsDue rows)
    | inr e ↦ rw e (select-IsDue rows)
  ]

  count-selected :
      (test : TargetRow → Bool) (rows : List TargetRow)
      → count test (select selected rows)
        ≡ count (λ row. is_due in_scope now_us row && test row) rows
  count-selected test [] = refl
  count-selected test (row ∷ rows) = ground (arith, selected-due row, count-selected test rows)

  -- What both listings select.
  overdue_rows-IsListing :
      (targets : List TargetRow)
      → IsListing in_scope now_us targets (overdue_rows in_scope now_us targets)
  unfolding overdue_rows
  overdue_rows-IsListing targets =
      let key : TargetRow → Text = λ row. row.target_id in
      let kept = select selected targets in
      record {
        due =
            by_expiry-Every (IsDue in_scope now_us) (sort_by key kept)
              (sort_by-Every key (IsDue in_scope now_us) kept (select-IsDue targets));
        complete = λ test.
            count-by_expiry test (sort_by key kept)
            ∙ count-sort_by key test kept
            ∙ count-selected test targets;
        in_order = by_expiry-IsInOrder (sort_by key kept) (sort_by-IsSortedBy key kept);
      }

abbrev ids : List TargetRow → List Text
ids rows = map (λ (row : TargetRow). row.target_id) rows

abbrev pub shown_ids : List RetentionTargetState → List Text
shown_ids states = map (λ (state : RetentionTargetState). state.target_id) states

target_state-id :
    (platform : Platform) (id : Text) (db : RetentionDb) {state : RetentionTargetState}
    {db' : RetentionDb}
    → target_state platform id db ≡ ok (state, db')
    → state.target_id ≡ id
unfolding target_state target_row
target_state-id platform id db {state} h =
    let (target, found, rest) = require_row-eq-ok (find (is_target id) db.targets) _ _ db h in
    let own = text_eq→eq target.target_id id (find-test (is_target id) db.targets target found) in
    let same : target.target_id ≡ state.target_id = ground arith in sym same ∙ own

states-ids :
    (platform : Platform) (rows : List TargetRow) (db : RetentionDb)
    {shown : List RetentionTargetState} {db' : RetentionDb}
    → states platform rows db ≡ ok (shown, db')
    → shown_ids shown ≡ ids rows
unfolding states
states-ids platform [] db {shown} h = let same : [] ≡ shown = cc in ap shown_ids (sym same)
states-ids platform (row ∷ rows) db {shown} h =
    let (state, db_1, first, h1) = >>=-eq-ok (target_state platform row.target_id) _ db h in
    let (others, db_2, later, h2) = >>=-eq-ok (states platform rows) _ db_1 h1 in
    let own = target_state-id platform row.target_id db first in
    let rest = states-ids platform rows db_1 later in
    let same : state ∷ others ≡ shown = cc in
    ap shown_ids (sym same)
    ∙ ap (λ (id : Text). id ∷ shown_ids others) own
    ∙ ap (λ (xs : List Text). row.target_id ∷ xs) rest

-- What `list_scoped_overdue` returns shows, one by one, the identifiers of rows that are exactly the
-- due targets of the table as the call found it: every row has an identifier that starts with the
-- scope's prefix, an expiry that is not after the call's time, no legal hold and no completion; every
-- such target of the table is among them, as often as the table has it; and they are in the order of
-- their expiries, those of one expiry in the order of their identifiers.
pub list_scoped_overdue-IsListing :
    (platform : Platform) (scope_prefix : Text) (now : Timestamp) (audit : Option AuditContext)
    (audit_event : Text) (db db' : RetentionDb) (shown : List RetentionTargetState)
    → list_scoped_overdue platform scope_prefix now audit audit_event db ≡ ok (shown, db')
    → (now_us : ℕ) × (rows : List TargetRow) × (to_micros platform now ≡ ok now_us)
      × IsListing (λ row. starts_with row.target_id scope_prefix) now_us db.targets rows
      × (shown_ids shown ≡ map (λ (row : TargetRow). row.target_id) rows)
unfolding list_scoped_overdue
list_scoped_overdue-IsListing platform scope_prefix now audit audit_event db db' shown h =
    let (_, _, h1) = lift-eq-ok (require_bounded "scope_prefix" scope_prefix) _ db h in
    let (now_us, at, h2) = lift-eq-ok (to_micros platform now) _ db h1 in
    let (_, db_1, _, h3) = >>=-eq-ok (append_audit_event platform audit audit_event) _ db h2 in
    let in_scope : TargetRow → Bool = λ row. starts_with row.target_id scope_prefix in
    (
      now_us,
      overdue_rows in_scope now_us db.targets,
      at,
      overdue_rows-IsListing in_scope now_us db.targets,
      states-ids platform (overdue_rows in_scope now_us db.targets) db_1 h3,
    )
