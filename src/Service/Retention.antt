-- ===== src/Service/Retention.antt =====
-- The methods of `ControlService` on retention targets.
use workflow_helper_public.Retention.Deletion.{stage_trash, attest_deleted}
use workflow_helper_public.Base.{Bool, List, [], ◌∷◌, Option, none, some, Result, ok, err}
use workflow_helper_public.Text.{Text, codes}
use workflow_helper_public.Platform.{Platform}
use workflow_helper_public.Audit.{AuditContext}
use workflow_helper_public.Scope.{TenantWorkspaceScope, qualify, unqualify, kind_prefix}
use workflow_helper_public.Auth.{
  ControlAction, AuthenticatedPrincipal, retention_register, retention_read, retention_hold,
  retention_stage_trash, retention_attest_delete,
}
use workflow_helper_public.Retention.Rows.{RetentionTargetState, CopyRow}
use workflow_helper_public.Retention.Copies.{RawCopy, or_empty}
use workflow_helper_public.Retention.Ledger.{Call, register_target, set_legal_hold}
use workflow_helper_public.Retention.Listing.{get_target, list_scoped_overdue}
use workflow_helper_public.Service.Session.{
  Request, Svc, ◌>>=◌, ◌>>◌, pure, attempt, in_ledger, require_retention,
}
use workflow_helper_public.Service.Authorize.{require_scope, authorize_retention}

public_copies : TenantWorkspaceScope → List CopyRow → Result (List CopyRow)
public_copies scope [] = ok []
public_copies scope (copy ∷ rest) = elim (unqualify scope (codes "retention_copy") copy.copy_id) [
  | err e ↦ err e
  | ok copy_id ↦ elim (public_copies scope rest) [
    | err e ↦ err e
    | ok copies ↦ ok (record copy { copy_id = copy_id } ∷ copies)
  ]
]

-- `_public_retention_state`
unfoldable pub public_retention_state :
    TenantWorkspaceScope → RetentionTargetState → Result RetentionTargetState
unfolding public_copies
public_retention_state scope value = elim (public_copies scope value.copies) [
  | err e ↦ err e
  | ok copies ↦ elim (unqualify scope (codes "retention_target") value.target_id) [
    | err e ↦ err e
    | ok target_id ↦ ok (record value { target_id = target_id; copies = copies })
  ]
]

public_states :
    TenantWorkspaceScope → List RetentionTargetState → Result (List RetentionTargetState)
public_states scope [] = ok []
public_states scope (value ∷ rest) = elim (public_retention_state scope value) [
  | err e ↦ err e
  | ok state ↦ elim (public_states scope rest) [ err e ↦ err e | ok states ↦ ok (state ∷ states) ]
]

-- The copies of a registration, each with its qualified `copy_id`.
unfoldable pub qualified_copies : TenantWorkspaceScope → List RawCopy → Result (List RawCopy)
qualified_copies scope [] = ok []
qualified_copies scope (copy ∷ rest) =
    elim (qualify scope (codes "retention_copy") (or_empty copy.copy_id)) [
      | err e ↦ err e
      | ok key ↦ elim (qualified_copies scope rest) [
        | err e ↦ err e
        | ok copies ↦ ok (record copy { copy_id = some key } ∷ copies)
      ]
    ]

-- The arguments of a call of the ledger.
unfoldable pub ledger_call :
    TenantWorkspaceScope
    → AuthenticatedPrincipal
    → Text
    → Text
    → Request
    → AuditContext
    → Result Call
ledger_call scope principal target_id idempotency_key request audit =
    elim (qualify scope (codes "retention_target") target_id) [
      | err e ↦ err e
      | ok target ↦ elim (qualify scope (codes "retention_idempotency") idempotency_key) [
        | err e ↦ err e
        | ok key ↦ ok (record {
          target_id = target;
          idempotency_key = key;
          actor_id = principal.subject;
          now = request.now;
          audit = some audit;
          event_id = request.event_id;
          audit_event = request.audit_event;
        })
      ]
    ]

module _ (platform : Platform) (principal : AuthenticatedPrincipal) where
  -- The scope and the evidence that a method starts from.
  admit : ControlAction → Text → Request → Svc (TenantWorkspaceScope × AuditContext)
  admit action target_id request = do
    scope ← attempt (require_scope principal)
    require_retention
    audit ← authorize_retention platform principal action target_id request
    pure (scope, audit)

  unfoldable pub register_retention :
      Text → List RawCopy → Text → Request → Svc RetentionTargetState
  unfolding admit
  register_retention target_id copies idempotency_key request = do
    (scope, audit) ←
        admit retention_register target_id
          (record request { idempotency_key = some idempotency_key })
    qualified ← attempt (qualified_copies scope copies)
    call ← attempt (ledger_call scope principal target_id idempotency_key request audit)
    state ← in_ledger (register_target platform call qualified)
    attempt (public_retention_state scope state)

  unfoldable pub read_retention : Text → Request → Svc (Option RetentionTargetState)
  unfolding admit
  read_retention target_id request = do
    (scope, audit) ← admit retention_read target_id (record request { idempotency_key = none })
    target ← attempt (qualify scope (codes "retention_target") target_id)
    found ← in_ledger (get_target platform target (some audit) request.audit_event)
    elim found [
      | none ↦ pure none
      | some state ↦ attempt (public_retention_state scope state) >>= λ public. pure (some public)
    ]

  unfoldable pub set_retention_hold :
      Text → Bool → Option Text → Text → Request → Svc RetentionTargetState
  unfolding admit
  set_retention_hold target_id hold reason idempotency_key request = do
    (scope, audit) ←
        admit retention_hold target_id (record request { idempotency_key = some idempotency_key })
    call ← attempt (ledger_call scope principal target_id idempotency_key request audit)
    state ← in_ledger (set_legal_hold platform call hold reason)
    attempt (public_retention_state scope state)

  -- The source qualifies the target, the copy and the key in that order; the exceptions of the copy
  -- and of the key are the same, so their order does not show. So it is in the next method.
  unfoldable pub stage_retention_trash : Text → Text → Text → Request → Svc RetentionTargetState
  unfolding admit
  stage_retention_trash target_id copy_id idempotency_key request = do
    (scope, audit) ←
        admit retention_stage_trash target_id
          (record request { idempotency_key = some idempotency_key })
    call ← attempt (ledger_call scope principal target_id idempotency_key request audit)
    copy ← attempt (qualify scope (codes "retention_copy") copy_id)
    state ← in_ledger (stage_trash platform call copy)
    attempt (public_retention_state scope state)

  unfoldable pub attest_retention_delete :
      Text → Text → Text → Text → Request → Svc RetentionTargetState
  unfolding admit
  attest_retention_delete target_id copy_id receipt idempotency_key request = do
    (scope, audit) ←
        admit retention_attest_delete target_id
          (record request { idempotency_key = some idempotency_key })
    call ← attempt (ledger_call scope principal target_id idempotency_key request audit)
    copy ← attempt (qualify scope (codes "retention_copy") copy_id)
    state ← in_ledger (attest_deleted platform call copy receipt)
    attempt (public_retention_state scope state)

  unfoldable pub list_overdue_retention : Request → Svc (List RetentionTargetState)
  unfolding admit public_states
  list_overdue_retention request = do
    (scope, audit) ←
        admit retention_read (codes "retention-overdue") (record request { idempotency_key = none })
    prefix ← attempt (kind_prefix scope (codes "retention_target"))
    states ←
        in_ledger (list_scoped_overdue platform prefix request.now (some audit) request.audit_event)
    attempt (public_states scope states)
