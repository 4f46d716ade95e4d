-- ===== src/Service/Isolation.antt =====
-- What a principal of one scope cannot change through the service.
mod Untouched
use workflow_helper_public.Service.Isolation.Untouched.{
  Spares, bind-Spares, attempt-Spares, only-Spares, in_store-Spares, authorize-Spares,
}
use workflow_helper_public.Base.{
  ℕ, ◌≡◌, refl, ◌∙◌, Bool, ◌&&◌, false, Option, none, some, arith, Result, ok, err, Tx, transaction,
  Bool-cases, inl, inr,
}
use workflow_helper_public.Text.{Text, text_eq, codes}
use workflow_helper_public.Text.Equality.{text_eq_iff}
use workflow_helper_public.Platform.{Platform}
use workflow_helper_public.Audit.{AuditContext}
use workflow_helper_public.Scope.{TenantWorkspaceScope, equal_scopes, qualify}
use workflow_helper_public.Scope.Isolation.{qualify_injective}
use workflow_helper_public.Auth.{ControlAction, AuthenticatedPrincipal, require}
use workflow_helper_public.Store.Rows as StoreRows
use workflow_helper_public.Store.Rows.{JobRow, ControlDb, Lease, find_job}
use workflow_helper_public.Store.Jobs.Others.{
  register_job-others, acquire-others, heartbeat_lease-others, complete-others,
}
use workflow_helper_public.Retention.Rows as RetentionRows
use workflow_helper_public.Retention.Rows.{RetentionDb}
use workflow_helper_public.Service.Session.{
  ControlService, Request, Svc, ◌>>=◌, attempt, in_store, in_ledger,
}
use workflow_helper_public.Service.Authorize.{
  require_scope, audit_context, record_denial, records_in_ledger, deny, decided, authorize,
}
use workflow_helper_public.Service.Jobs
use workflow_helper_public.Service.Jobs.{
  owned_lease, qualified_lease, public_job, public_lease, public_completion,
}

-- A method on jobs with its arguments.
pub data JobCall : Type 0 where
  register : Text → Text → Request → JobCall
  acquire : ℕ → Text → ℕ → Request → JobCall
  heartbeat : Lease → ℕ → Request → JobCall
  complete : Lease → Text → Text → Request → JobCall

-- The stores after a call.
unfoldable pub served :
    Platform → AuthenticatedPrincipal → JobCall → ControlService → ControlService
served platform principal (JobCall.register job_id digest request) s =
    (Jobs.register_job platform principal job_id digest request s).1
served platform principal (JobCall.acquire max job_id ttl request) s =
    (Jobs.acquire platform principal max job_id ttl request s).1
served platform principal (JobCall.heartbeat lease ttl request) s =
    (Jobs.heartbeat platform principal lease ttl request s).1
served platform principal (JobCall.complete lease key digest request) s =
    (Jobs.complete platform principal lease key digest request s).1

foreign_key :
    (s t : TenantWorkspaceScope) (job_id id : Text) {key' key : Text}
    → equal_scopes s t ≡ false
    → qualify s (codes "job") job_id ≡ ok key'
    → qualify t (codes "job") id ≡ ok key
    → text_eq key' key ≡ false
foreign_key s t job_id id {key'} {key} apart h h' = elim (Bool-cases (text_eq key' key)) [
  | inr ne ↦ ne
  | inl e ↦
      let same = (text_eq_iff key' key).0 e in
      let (tenant, workspace, _, _) =
        qualify_injective s t (codes "job") (codes "job") job_id id (rw same at h) h' in
      ground (arith, text_eq_iff s.tenant_id t.tenant_id, text_eq_iff s.workspace_id t.workspace_id)
]

qualified_lease-job_id :
    (scope : TenantWorkspaceScope) (lease qualified : Lease)
    → qualified_lease scope lease ≡ ok qualified
    → qualify scope (codes "job") lease.job_id ≡ ok qualified.job_id
unfolding qualified_lease
qualified_lease-job_id scope lease qualified h = ground arith

-- The parameters of a call, and a key of another scope.
module _ (platform : Platform) (principal : AuthenticatedPrincipal) (scope t : TenantWorkspaceScope)
    (id key : Text) (scoped : require_scope principal ≡ ok scope)
    (apart : equal_scopes scope t ≡ false) (written : qualify t (codes "job") id ≡ ok key) where
  foreign :
      (own : TenantWorkspaceScope) (job_id key' : Text)
      → require_scope principal ≡ ok own
      → qualify own (codes "job") job_id ≡ ok key'
      → text_eq key' key ≡ false
  foreign own job_id key' h q =
      let same : own ≡ scope = ground arith in
      foreign_key scope t job_id id apart (rw same at q) written

  register_job-Spares :
      (job_id digest : Text) (request : Request)
      → Spares key (Jobs.register_job platform principal job_id digest request)
  unfolding Jobs.register_job
  register_job-Spares job_id digest request =
      attempt-Spares key (require_scope principal) _ λ own h.
        bind-Spares key (authorize platform principal _ _ _) _
          (authorize-Spares key platform principal _ _ _)
          λ audit. attempt-Spares key (qualify own (codes "job") job_id) _ λ key' q.
            bind-Spares key (in_store _) _
              (in_store-Spares key _ λ db a db' r.
                register_job-others platform (some audit) request.event_id request.audit_event db
                  key key' digest request.now r (foreign own job_id key' h q))
              (λ value. only-Spares key (public_job own value))

  acquire-Spares :
      (max : ℕ) (job_id : Text) (ttl : ℕ) (request : Request)
      → Spares key (Jobs.acquire platform principal max job_id ttl request)
  unfolding Jobs.acquire
  acquire-Spares max job_id ttl request = attempt-Spares key (require_scope principal) _ λ own h.
      bind-Spares key (authorize platform principal _ _ _) _
        (authorize-Spares key platform principal _ _ _)
        λ audit. attempt-Spares key (qualify own (codes "job") job_id) _ λ key' q.
          bind-Spares key (in_store _) _
            (in_store-Spares key _ λ db a db' r.
              acquire-others platform (some audit) request.event_id request.audit_event db key max
                key' principal.subject request.now ttl r (foreign own job_id key' h q))
            (λ value. only-Spares key (public_lease own value))

  foreign_lease :
      (own : TenantWorkspaceScope) (lease internal : Lease)
      → require_scope principal ≡ ok own
      → qualified_lease own lease ≡ ok internal
      → text_eq internal.job_id key ≡ false
  foreign_lease own lease internal h q =
      foreign own lease.job_id internal.job_id h (qualified_lease-job_id own lease internal q)

  heartbeat-Spares :
      (lease : Lease) (ttl : ℕ) (request : Request)
      → Spares key (Jobs.heartbeat platform principal lease ttl request)
  unfolding Jobs.heartbeat
  heartbeat-Spares lease ttl request = attempt-Spares key (require_scope principal) _ λ own h.
      bind-Spares key (authorize platform principal _ _ _) _
        (authorize-Spares key platform principal _ _ _)
        λ audit.
          attempt-Spares key (qualified_lease own (owned_lease principal lease)) _ λ internal q.
            bind-Spares key (in_store _) _
              (in_store-Spares key _ λ db a db' r.
                heartbeat_lease-others platform (some audit) request.event_id request.audit_event db
                  key internal request.now ttl r
                  (foreign_lease own (owned_lease principal lease) internal h q))
              (λ value. only-Spares key (public_lease own value))

  complete-Spares :
      (lease : Lease) (idempotency_key digest : Text) (request : Request)
      → Spares key (Jobs.complete platform principal lease idempotency_key digest request)
  unfolding Jobs.complete
  complete-Spares lease idempotency_key digest request =
      attempt-Spares key (require_scope principal) _ λ own h.
        bind-Spares key (authorize platform principal _ _ _) _
          (authorize-Spares key platform principal _ _ _)
          λ audit.
            attempt-Spares key (qualified_lease own (owned_lease principal lease)) _ λ internal q.
              attempt-Spares key (qualify own (codes "completion_idempotency") idempotency_key) _
                λ k _.
                  bind-Spares key (in_store _) _
                    (in_store-Spares key _ λ db a db' r.
                      complete-others platform (some audit) request.event_id request.audit_event db
                        key internal k digest request.now r
                        (foreign_lease own (owned_lease principal lease) internal h q))
                    (λ value. only-Spares key (public_completion own value))

  -- Whatever method on jobs a principal of one scope calls, whether it returns or raises: the row of
  -- a job of another tenant or workspace is the one that it was.
  pub other_scope_unchanged :
      (call : JobCall) (s : ControlService)
      → find_job key (served platform principal call s).store.jobs ≡ find_job key s.store.jobs
  unfolding served
  other_scope_unchanged (JobCall.register job_id digest request) s =
      register_job-Spares job_id digest request s
  other_scope_unchanged (JobCall.acquire max job_id ttl request) s =
      acquire-Spares max job_id ttl request s
  other_scope_unchanged (JobCall.heartbeat lease ttl request) s =
      heartbeat-Spares lease ttl request s
  other_scope_unchanged (JobCall.complete lease k digest request) s =
      complete-Spares lease k digest request s
