-- ===== src/Service/Tests.antt =====
-- Requests at a concrete service, and the theorems applied to it.
use workflow_helper_public.Base.{
  ◌≡◌, refl, true, false, [], ◌∷◌, none, some, ok, err, value_error, authorization_denied, ℕ, ◌*◌,
  length,
}
use workflow_helper_public.Text.{
  Text, codes, text_eq, is_blank, is_digit, is_hex, is_lower, is_space, matches_head_tail,
}
use workflow_helper_public.Text.Decimal.{print}
use workflow_helper_public.Text.Order.{text_lt}
use workflow_helper_public.Checks.{require_text}
use workflow_helper_public.Platform.{Timestamp, exact_platform}
use workflow_helper_public.Audit.{
  AuditContext, contains, control_audit_roles, append_audit, append_valid, validate_audit_context,
  is_sorted_unique, check_role, check_roles, audit_row,
}
use workflow_helper_public.Scope.{
  equal_scopes, TenantWorkspaceScope, is_scope_id, is_kind, validate_scope, scope_prefix,
  kind_prefix, segment, qualify,
}
use workflow_helper_public.Auth.{
  AuthenticatedPrincipal, RoleSet, capture_uploader, deterministic_worker, job_register,
  review_read, allows, require, role_values, role_value, action_value,
}
use workflow_helper_public.Store.Rows as StoreRows
use workflow_helper_public.Store.Rows.{JobRow, find_job}
use workflow_helper_public.Store.Jobs.{new_job}
use workflow_helper_public.Service.Session.{ControlService, Request, ◌>>=◌, attempt, in_store}
use workflow_helper_public.Service.Authorize.{
  require_scope, audit_context, authorize, decided, deny, record_denial, records_in_ledger,
}
use workflow_helper_public.Service.Isolation.{JobCall, served, other_scope_unchanged}
use workflow_helper_public.Service.Denial.{IsAccepted, authorize_sound}
use workflow_helper_public.Service.Evidence.{IsDenied, authorize-IsDenied}
use workflow_helper_public.Service.Unrecorded.{unrecorded_denial}

-- The code that a run goes through.
service_code : Unit {0}
unfolding text_eq is_blank is_digit is_hex is_lower is_space matches_head_tail print text_lt
    require_text append_audit append_valid validate_audit_context is_sorted_unique check_role
    check_roles audit_row is_scope_id is_kind validate_scope scope_prefix kind_prefix segment
    qualify allows require role_values role_value action_value StoreRows.append_audit_event ◌>>=◌
    attempt in_store require_scope audit_context authorize decided deny record_denial
    records_in_ledger
service_code = tt

abbrev acme : TenantWorkspaceScope
acme = record { tenant_id = codes "acme"; workspace_id = codes "plant-1" }

abbrev acme_2 : TenantWorkspaceScope
acme_2 = record { tenant_id = codes "acme"; workspace_id = codes "plant-2" }

abbrev job_key : Text
job_key = codes "whscope1|4:acme7:plant-23:job5:job:7"

abbrev only_worker : RoleSet
only_worker deterministic_worker = true
only_worker _ = false

abbrev only_uploader : RoleSet
only_uploader capture_uploader = true
only_uploader _ = false

abbrev worker : AuthenticatedPrincipal
worker = record { subject = codes "worker-1"; roles = only_worker; scope = some acme }

abbrev uploader : AuthenticatedPrincipal
uploader = record { subject = codes "uploader-1"; roles = only_uploader; scope = some acme }

abbrev minute : ℕ → Timestamp
minute n = record { aware = true; instant = n * 60000000 }

abbrev request : Request
request = record {
  correlation_id = codes "r1";
  idempotency_key = none;
  occurred_at = minute 1;
  now = minute 1;
  event_id = codes "e1";
  audit_event = codes "e2";
}

-- A service that has one job, of the other workspace.
abbrev service : ControlService
service = record {
  store = record {
    jobs = new_job job_key (codes "d") 0 ∷ [];
    lease_events = [];
    review_events = [];
    review_projection = [];
    audit_events = [];
  };
  retention = none;
}

job_written : qualify acme_2 (codes "job") (codes "job:7") ≡ ok job_key
unfolding service_code
job_written = refl

worker_scoped : require_scope worker ≡ ok acme
unfolding service_code
worker_scoped = refl

abbrev accepted : AuditContext
accepted = record {
  correlation_id = codes "r1";
  idempotency_key = none;
  subject_id = codes "worker-1";
  roles = codes "deterministic_worker" ∷ [];
  action = codes "job.register";
  target_id = codes "whscope1|4:acme7:plant-112:audit_target1:j";
  result = codes "accepted";
  occurred_at = minute 1;
}

uploader_scoped : require_scope uploader ≡ ok acme
unfolding service_code
uploader_scoped = refl

worker-accepted :
    (authorize exact_platform worker job_register (codes "j") request service).0 ≡ ok accepted
unfolding service_code
worker-accepted = refl

-- A worker may not read reviews: that is on record.
worker_denied :
    ((authorize exact_platform worker review_read (codes "j") request service).0
      ≡ err (authorization_denied "action forbidden"))
    × (length
          (authorize exact_platform worker review_read
            (codes "j")
            request
            service).1.store.audit_events
        ≡ 1)
unfolding service_code
worker_denied = (refl, refl)

-- An uploader may not register jobs: the exception speaks of the evidence, and there is none.
uploader_denied :
    (authorize exact_platform uploader job_register (codes "j") request service).0
    ≡ err (value_error "unsupported audit role")
unfolding service_code
uploader_denied = refl

workspaces_differ : equal_scopes acme acme_2 ≡ false
unfolding service_code
workspaces_differ = refl

worker_forbidden : allows worker review_read ≡ false
unfolding service_code
worker_forbidden = refl

uploader_forbidden : allows uploader job_register ≡ false
unfolding service_code
uploader_forbidden = refl

uploader_outside : contains control_audit_roles (role_value capture_uploader) ≡ false
unfolding service_code
uploader_outside = refl

no_ledger : (principal : AuthenticatedPrincipal) → records_in_ledger principal service ≡ false
unfolding service_code
no_ledger principal = refl

other_scope_unchanged_example :
    find_job job_key
      (served exact_platform worker
        (JobCall.acquire 4 (codes "job:7") 60 request)
        service).store.jobs
    ≡ find_job job_key service.store.jobs
other_scope_unchanged_example =
    other_scope_unchanged exact_platform worker acme acme_2 (codes "job:7") job_key worker_scoped
      workspaces_differ job_written (JobCall.acquire 4 (codes "job:7") 60 request) service

authorize_sound_example :
    ((authorize exact_platform worker job_register (codes "j") request service).1 ≡ service)
    × IsAccepted worker job_register accepted
authorize_sound_example =
    authorize_sound exact_platform worker job_register (codes "j") request service accepted
      worker-accepted

authorize-IsDenied_example :
    IsDenied exact_platform worker review_read request.audit_event
      (audit_context acme worker review_read (codes "j") request (codes "denied"))
      service
      (authorize exact_platform worker review_read (codes "j") request service)
authorize-IsDenied_example =
    authorize-IsDenied exact_platform worker review_read (codes "j") request service acme
      worker_scoped worker_forbidden (no_ledger worker)

unrecorded_denial_example :
    (authorize exact_platform uploader job_register (codes "j") request service).1 ≡ service
unrecorded_denial_example =
    unrecorded_denial exact_platform uploader capture_uploader job_register (codes "j") request
      service acme uploader_scoped refl uploader_outside uploader_forbidden (no_ledger uploader)
