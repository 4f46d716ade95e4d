-- ===== src/Service/Jobs.antt =====
-- The methods of `ControlService` on jobs and leases.
use workflow_helper_public.Base.{ℕ, some, Result, ok, err}
use workflow_helper_public.Text.{Text, codes}
use workflow_helper_public.Platform.{Platform}
use workflow_helper_public.Scope.{TenantWorkspaceScope, qualify, unqualify}
use workflow_helper_public.Auth.{
  AuthenticatedPrincipal, job_register, job_acquire, job_heartbeat, job_complete,
}
use workflow_helper_public.Store.Rows.{JobRecord, Lease, Completion}
use workflow_helper_public.Store.Jobs as StoreJobs
use workflow_helper_public.Service.Session.{Request, Svc, ◌>>=◌, attempt, in_store}
use workflow_helper_public.Service.Authorize.{require_scope, authorize}

-- `_owned_lease`: whatever owner the caller names, the lease is taken as the principal's own.
unfoldable pub owned_lease : AuthenticatedPrincipal → Lease → Lease
owned_lease principal lease = record lease { owner_id = principal.subject }

-- `_qualified_lease`
unfoldable pub qualified_lease : TenantWorkspaceScope → Lease → Result Lease
qualified_lease scope lease = elim (qualify scope (codes "job") lease.job_id) [
  | err e ↦ err e
  | ok key ↦ ok (record lease { job_id = key })
]

-- `_public_job`
unfoldable pub public_job : TenantWorkspaceScope → JobRecord → Result JobRecord
public_job scope value = elim (unqualify scope (codes "job") value.job_id) [
  | err e ↦ err e
  | ok job_id ↦ ok (record value { job_id = job_id })
]

-- `_public_lease`
unfoldable pub public_lease : TenantWorkspaceScope → Lease → Result Lease
public_lease scope value = elim (unqualify scope (codes "job") value.job_id) [
  | err e ↦ err e
  | ok job_id ↦ ok (record value { job_id = job_id })
]

-- `_public_completion`
unfoldable pub public_completion : TenantWorkspaceScope → Completion → Result Completion
public_completion scope value = elim (unqualify scope (codes "job") value.job_id) [
  | err e ↦ err e
  | ok job_id ↦ elim (unqualify scope (codes "completion_idempotency") value.idempotency_key) [
    | err e ↦ err e
    | ok key ↦ ok (record value { job_id = job_id; idempotency_key = key })
  ]
]

module _ (platform : Platform) (principal : AuthenticatedPrincipal) where
  unfoldable pub register_job : Text → Text → Request → Svc JobRecord
  register_job job_id payload_digest request = do
    scope ← attempt (require_scope principal)
    audit ← authorize platform principal job_register job_id request
    key ← attempt (qualify scope (codes "job") job_id)
    value ← in_store (
        StoreJobs.register_job platform key payload_digest request.now (some audit)
          request.audit_event)
    attempt (public_job scope value)

  -- `max_active_leases` is an attribute of the store.
  unfoldable pub acquire : ℕ → Text → ℕ → Request → Svc Lease
  acquire max_active_leases job_id ttl_seconds request = do
    scope ← attempt (require_scope principal)
    audit ← authorize platform principal job_acquire job_id request
    key ← attempt (qualify scope (codes "job") job_id)
    lease ← in_store (
        StoreJobs.acquire platform max_active_leases key principal.subject request.now ttl_seconds
          (some audit) request.event_id request.audit_event)
    attempt (public_lease scope lease)

  unfoldable pub heartbeat : Lease → ℕ → Request → Svc Lease
  heartbeat lease ttl_seconds request = do
    scope ← attempt (require_scope principal)
    audit ← authorize platform principal job_heartbeat (owned_lease principal lease).job_id request
    internal_lease ← attempt (qualified_lease scope (owned_lease principal lease))
    renewed ← in_store (
        StoreJobs.heartbeat_lease platform internal_lease request.now ttl_seconds (some audit)
          request.event_id request.audit_event)
    attempt (public_lease scope renewed)

  unfoldable pub complete : Lease → Text → Text → Request → Svc Completion
  complete lease idempotency_key result_digest request = do
    scope ← attempt (require_scope principal)
    audit ←
        authorize platform principal job_complete (owned_lease principal lease).job_id
          (record request { idempotency_key = some idempotency_key })
    internal_lease ← attempt (qualified_lease scope (owned_lease principal lease))
    key ← attempt (qualify scope (codes "completion_idempotency") idempotency_key)
    completion ← in_store (
        StoreJobs.complete platform internal_lease key result_digest request.now (some audit)
          request.event_id request.audit_event)
    attempt (public_completion scope completion)
