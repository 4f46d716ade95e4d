-- ===== src/Audit.antt =====
-- The shared audit log: apps/api/src/workflow_api/audit_schema.py and the audit part of
-- control_store.py. Rows are never changed or deleted (the table's triggers abort), so the
-- autoincremented `sequence` of a new row is one more than the number of rows.
use workflow_helper_public.Base.{
  ◌≡◌, refl, ℕ, ◌+◌, Bool, true, not, ◌||◌, ◌&&◌, List, [], ◌∷◌, ◌++◌, Option, none, some, length,
  any, ltb, if◌then◌else◌, value_error, integrity_error, Result, ok, err, reject_if,
}
use workflow_helper_public.Text.{Text, codes, text_eq}
use workflow_helper_public.Text.Order.{text_lt}
use workflow_helper_public.Checks.{require_text}
use workflow_helper_public.Platform.{Platform, Timestamp, to_micros}

pub record AuditContext : Type 0 where
  pub correlation_id : Text
  pub idempotency_key : Option Text
  pub subject_id : Text
  pub roles : List Text
  pub action : Text
  pub target_id : Text
  pub result : Text
  pub occurred_at : Timestamp

-- A row of `audit_events`, with the list that `roles_json` holds.
pub record AuditEventRow : Type 0 where
  pub sequence : ℕ
  pub event_id : Text
  pub correlation_id : Text
  pub idempotency_key : Option Text
  pub subject_id : Text
  pub roles : List Text
  pub action : Text
  pub target_id : Text
  pub result : Text
  pub occurred_at : ℕ

-- `value in values`
abbrev pub contains : List Text → Text → Bool
contains values value = any (λ v. text_eq v value) values

-- `CONTROL_AUDIT_ACTIONS`
abbrev pub control_audit_actions : List Text
control_audit_actions =
    codes "job.register"
    ∷ codes "job.acquire"
    ∷ codes "job.heartbeat"
    ∷ codes "job.complete"
    ∷ codes "review.append"
    ∷ codes "review.read"
    ∷ codes "audit.read"
    ∷ []

-- `CONTROL_AUDIT_ROLES`
abbrev pub control_audit_roles : List Text
control_audit_roles = codes "deterministic_worker" ∷ codes "reviewer" ∷ codes "audit_reader" ∷ []

-- `tuple(sorted(set(values))) == values`: strictly ascending
unfoldable pub is_sorted_unique : List Text → Bool
is_sorted_unique [] = true
is_sorted_unique (s ∷ []) = true
is_sorted_unique (s ∷ (t ∷ rest)) = text_lt s t && is_sorted_unique (t ∷ rest)

abbrev check_bounded : Text → Result (Unit {0})
check_bounded value = elim (require_text "audit" value) [
  | err e ↦ err e
  | ok _ ↦ reject_if (ltb 512 (length value)) (value_error "must not exceed 512 characters")
]

abbrev check_optional : Option Text → Result (Unit {0})
check_optional none = ok tt
check_optional (some key) = check_bounded key

infixl 5 ◌then_check◌
abbrev pub ◌then_check◌ : Result (Unit {0}) → Result (Unit {0}) → Result (Unit {0})
ok _ then_check r = r
err e then_check r = err e

unfoldable pub check_role : Text → Result (Unit {0})
check_role role =
    require_text "role" role
    then_check reject_if (not (contains control_audit_roles role))
        (value_error "unsupported audit role")

unfoldable pub check_roles : List Text → Result (Unit {0})
unfolding check_role
check_roles [] = ok tt
check_roles (role ∷ rest) = check_role role then_check check_roles rest

-- The checks of `_validate_audit_context` that come before those of the roles' values.
check_context : AuditContext → Result (Unit {0})
unfolding is_sorted_unique text_lt
check_context audit =
    reject_if (not (contains control_audit_actions audit.action))
      (value_error "unsupported audit action")
    then_check check_bounded audit.correlation_id
    then_check check_bounded audit.subject_id
    then_check check_bounded audit.action
    then_check check_bounded audit.target_id
    then_check check_bounded audit.result
    then_check check_optional audit.idempotency_key
    then_check reject_if (ltb 3 (length audit.roles) || not (is_sorted_unique audit.roles))
        (value_error "roles must be a sorted unique tuple")

-- `_validate_audit_context` of control_store.py, up to the timestamp.
unfoldable pub validate_audit_context : AuditContext → Result (Unit {0})
unfolding check_roles check_context
validate_audit_context audit =
    check_context audit
    then_check check_roles audit.roles
    then_check reject_if
        (not (text_eq audit.result (codes "accepted") || text_eq audit.result (codes "denied")))
        (value_error "unsupported audit result")

middle-ok :
    (a b c : Result (Unit {0})) {u : Unit {0}} → (a then_check b then_check c) ≡ ok u → b ≡ ok tt
middle-ok (ok _) (ok _) c h = refl
middle-ok (ok _) (err e) c h = cc
middle-ok (err e) (ok _) c h = refl
middle-ok (err e) (err e') c h = cc

-- What is accepted has roles that the log takes.
pub validated-roles :
    (audit : AuditContext) {u : Unit {0}}
    → validate_audit_context audit ≡ ok u
    → check_roles audit.roles ≡ ok tt
unfolding validate_audit_context
validated-roles audit h =
    middle-ok (check_context audit) (check_roles audit.roles)
      (reject_if
        (not (text_eq audit.result (codes "accepted") || text_eq audit.result (codes "denied")))
        (value_error "unsupported audit result"))
      h

-- `event_id text not null unique`
has_event_id : Text → List AuditEventRow → Bool
has_event_id event_id rows = any (λ row. text_eq row.event_id event_id) rows

unfoldable pub audit_row : Text → AuditContext → ℕ → ℕ → AuditEventRow
audit_row event_id audit occurred_us sequence = record {
  sequence = sequence;
  event_id = event_id;
  correlation_id = audit.correlation_id;
  idempotency_key = audit.idempotency_key;
  subject_id = audit.subject_id;
  roles = audit.roles;
  action = audit.action;
  target_id = audit.target_id;
  result = audit.result;
  occurred_at = occurred_us;
}

-- `_append_audit_event` on the table, with the store's own validation: the new rows. `event_id` is
-- what `uuid4()` gives.
unfoldable pub append_valid :
    (AuditContext → Result (Unit {0}))
    → Platform
    → Option AuditContext
    → Text
    → List AuditEventRow
    → Result (List AuditEventRow)
unfolding has_event_id
append_valid validate platform none event_id rows = ok rows
append_valid validate platform (some audit) event_id rows = elim (validate audit) [
  | err e ↦ err e
  | ok _ ↦ elim (to_micros platform audit.occurred_at) [
    | err e ↦ err e
    | ok occurred_us ↦
        if has_event_id event_id rows
        then err (integrity_error "audit_events.event_id")
        else ok (rows ++ audit_row event_id audit occurred_us (length rows + 1) ∷ [])
  ]
]

-- `_append_audit_event` of control_store.py
unfoldable pub append_audit :
    Platform → Option AuditContext → Text → List AuditEventRow → Result (List AuditEventRow)
unfolding append_valid
append_audit = append_valid validate_audit_context

-- Two checks in turn that succeed did so each.
pub then_check-left : (r s : Result (Unit {0})) {u : Unit {0}} → (r then_check s) ≡ ok u → r ≡ ok tt
then_check-left (ok _) s h = refl
then_check-left (err e) s h = cc

pub then_check-right : (r s : Result (Unit {0})) {u : Unit {0}} → (r then_check s) ≡ ok u → s ≡ ok u
then_check-right (ok _) s h = h
then_check-right (err e) s h = cc
