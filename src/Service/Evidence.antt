-- ===== src/Service/Evidence.antt =====
-- What a denial leaves behind in the control store.
use workflow_helper_public.Base.{
  ◌+◌, ◌≡◌, refl, ◌∙◌, false, List, [], ◌∷◌, ◌++◌, some, arith, Result, ok, err, Error,
  authorization_denied, inl, inr, ◌⊎◌, length,
}
use workflow_helper_public.Text.{Text, codes, text_eq}
use workflow_helper_public.Platform.{Platform}
use workflow_helper_public.Audit.{
  AuditContext, AuditEventRow, append_audit, append_valid, audit_row, validate_audit_context,
  check_roles, validated-roles,
}
use workflow_helper_public.Scope.{TenantWorkspaceScope}
use workflow_helper_public.Auth.{
  ControlAction, AuthenticatedPrincipal, allows, action_value, role_values,
}
use workflow_helper_public.Store.Rows as StoreRows
use workflow_helper_public.Service.Session.{ControlService, Request, ◌>>=◌, attempt, in_store}
use workflow_helper_public.Service.Authorize.{
  require_scope, audit_context, record_denial, records_in_ledger, deny, decided, authorize,
}
use workflow_helper_public.Service.Denial.{require-denied, audit_context-ok}

-- The row of evidence that a denial of the principal's action leaves.
pub record IsDenialOf (principal : AuthenticatedPrincipal) (action : ControlAction)
    (row : AuditEventRow) : Type 0 where
  pub subject : row.subject_id ≡ principal.subject
  pub roles : row.roles ≡ role_values principal
  pub acts : row.action ≡ action_value action
  pub result : row.result ≡ codes "denied"
  pub covered : check_roles row.roles ≡ ok tt

-- The control store with one more row in its audit log.
abbrev pub with_audit : ControlService → AuditEventRow → ControlService
with_audit s row = record s {
  store = record s.store { audit_events = s.store.audit_events ++ row ∷ [] };
}

appended :
    (platform : Platform) (audit : AuditContext) (event_id : Text) (rows rows' : List AuditEventRow)
    → append_audit platform (some audit) event_id rows ≡ ok rows'
    → (row : AuditEventRow) × (rows' ≡ rows ++ row ∷ [])
      × (row.subject_id ≡ audit.subject_id)
      × (row.roles ≡ audit.roles)
      × (row.action ≡ audit.action)
      × (row.result ≡ audit.result)
      × (check_roles row.roles ≡ ok tt)
unfolding append_audit append_valid audit_row
appended platform audit event_id rows rows' h = (
  audit_row event_id audit (platform.micros_of audit.occurred_at.instant) (length rows + 1),
  ground arith,
  refl,
  refl,
  refl,
  refl,
  validated-roles audit (ground arith),
)

-- Why there is no evidence: it could not be made out, or the audit log refused it.
abbrev pub IsUnwritten : Platform → Text → Result AuditContext → ControlService → Error → Type 0
IsUnwritten platform event_id denied s e =
    (denied ≡ err e)
    ⊎ ((audit : AuditContext) × (denied ≡ ok audit)
        × (append_audit platform (some audit) event_id s.store.audit_events ≡ err e))

-- A denial of an action: the evidence and the exception that says so; or the exception that kept the
-- evidence from being written, on which no store has changed.
abbrev pub IsDenied :
    Platform
    → AuthenticatedPrincipal
    → ControlAction
    → Text
    → Result AuditContext
    → ControlService
    → Result AuditContext × ControlService
    → Type 0
IsDenied platform principal action event_id denied s (r, s') =
    ((row : AuditEventRow) × (r ≡ err (authorization_denied "action forbidden"))
      × (s' ≡ with_audit s row)
      × IsDenialOf principal action row)
    ⊎ ((e : Error) × (r ≡ err e) × (s' ≡ s) × IsUnwritten platform event_id denied s e)

-- The evidence is appended, or nothing has changed.
IsRecorded :
    Platform → Text → AuditContext → ControlService → Result (Unit {0}) × ControlService → Type 0
IsRecorded platform event_id audit s (r, s') =
    ((row : AuditEventRow) × (r ≡ ok tt)
      × (s' ≡ with_audit s row)
      × (row.subject_id ≡ audit.subject_id)
      × (row.roles ≡ audit.roles)
      × (row.action ≡ audit.action)
      × (row.result ≡ audit.result)
      × (check_roles row.roles ≡ ok tt))
    ⊎ ((e : Error) × (r ≡ err e)
        × (s' ≡ s)
        × (append_audit platform (some audit) event_id s.store.audit_events ≡ err e))

append-IsRecorded :
    (platform : Platform) (event_id : Text) (audit : AuditContext) (s : ControlService)
    → IsRecorded platform event_id audit s
        (in_store (StoreRows.append_audit_event platform (some audit) event_id) s)
unfolding IsRecorded in_store StoreRows.append_audit_event append_audit validate_audit_context
    text_eq
append-IsRecorded platform event_id audit s =
    outcome (append_audit platform (some audit) event_id s.store.audit_events) refl
  where
    outcome :
        (r : Result (List AuditEventRow))
        → append_audit platform (some audit) event_id s.store.audit_events ≡ r
        → IsRecorded platform event_id audit s
            (in_store (StoreRows.append_audit_event platform (some audit) event_id) s)
    outcome (err e) p = inr (e, rw p refl, rw p refl, p)
    outcome (ok rows) p =
        let (row, added, subject, roles, acts, result, covered) =
          appended platform audit event_id s.store.audit_events rows p in
        rw (p, added) (inl (row, refl, refl, subject, roles, acts, result, covered))

record_denial-IsRecorded :
    (platform : Platform) (principal : AuthenticatedPrincipal) (event_id : Text)
    (audit : AuditContext) (s : ControlService)
    → records_in_ledger principal s ≡ false
    → IsRecorded platform event_id audit s (record_denial platform principal event_id audit s)
unfolding record_denial
record_denial-IsRecorded platform principal event_id audit s here =
    rw here (append-IsRecorded platform event_id audit s)

deny-IsDenied :
    (platform : Platform) (principal : AuthenticatedPrincipal) (action : ControlAction)
    (event_id : Text) (denied : Result AuditContext) (s : ControlService)
    → records_in_ledger principal s ≡ false
    → ((audit : AuditContext)
        → denied ≡ ok audit
        → (audit.subject_id ≡ principal.subject)
          × (audit.roles ≡ role_values principal)
          × (audit.action ≡ action_value action)
          × (audit.result ≡ codes "denied"))
    → IsDenied platform principal action event_id denied s
        (deny platform principal event_id denied (authorization_denied "action forbidden") s)
unfolding deny ◌>>=◌ attempt IsRecorded
deny-IsDenied platform principal action event_id (err e) s here context =
    inr (e, refl, refl, inl refl)
deny-IsDenied platform principal action event_id (ok audit) s here context =
    outcome (record_denial platform principal event_id audit s)
      (record_denial-IsRecorded platform principal event_id audit s here)
  where
    outcome :
        (r : Result (Unit {0}) × ControlService)
        → IsRecorded platform event_id audit s r
        → IsDenied platform principal action event_id
            (ok audit)
            s
            (elim r.0 as (λ _. Result AuditContext × ControlService) [
              | ok _ ↦ (err (authorization_denied "action forbidden"), r.1)
              | err e ↦ (err e, r.1)
            ])
    outcome (err e, s') (inr (e', p, q, why)) = inr (e', cc, q, inr (audit, refl, why))
    outcome (ok _, s') (inr (e', p, q, why)) = cc
    outcome (err e, s') (inl (row, p, q, _, _, _, _, _)) = cc
    outcome (ok _, s') (inl (row, _, q, subject, roles, acts, result, covered)) =
        let (subject', roles', acts', result') = context audit refl in
        inl (
          row,
          refl,
          q,
          record {
            subject = subject ∙ subject';
            roles = roles ∙ roles';
            acts = acts ∙ acts';
            result = result ∙ result';
            covered = covered;
          },
        )

-- A request of a principal with a scope for an action that it is not allowed, unless it is a
-- retention steward of a service with a ledger, raises. Either it is refused as forbidden, and one row
-- of evidence, which names the principal, its roles and the action as denied, is all that is added to
-- the stores; or the evidence cannot be written, and the exception is the one that says why, with the
-- stores as they were.
pub authorize-IsDenied :
    (platform : Platform) (principal : AuthenticatedPrincipal) (action : ControlAction)
    (target_id : Text) (request : Request) (s : ControlService) (scope : TenantWorkspaceScope)
    → require_scope principal ≡ ok scope
    → allows principal action ≡ false
    → records_in_ledger principal s ≡ false
    → IsDenied platform principal action request.audit_event
        (audit_context scope principal action target_id request (codes "denied"))
        s
        (authorize platform principal action target_id request s)
unfolding authorize ◌>>=◌ attempt decided
authorize-IsDenied platform principal action target_id request s scope scoped forbidden here =
    rw (scoped, require-denied principal action forbidden)
      (deny-IsDenied platform principal action request.audit_event
        (audit_context scope principal action target_id request (codes "denied")) s here
        (audit_context-ok scope principal action target_id request (codes "denied")))
