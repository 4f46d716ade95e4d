-- ===== src/Service/Isolation/Untouched.antt =====
-- Methods that leave the row of a job key alone.
use workflow_helper_public.Base.{
  ◌≡◌, refl, ◌∙◌, Option, none, some, arith, Result, ok, err, Tx, transaction, Bool-cases, inl, inr,
}
use workflow_helper_public.Text.{Text, codes}
use workflow_helper_public.Platform.{Platform}
use workflow_helper_public.Audit.{AuditContext}
use workflow_helper_public.Scope.{TenantWorkspaceScope}
use workflow_helper_public.Auth.{ControlAction, AuthenticatedPrincipal, require}
use workflow_helper_public.Store.Rows as StoreRows
use workflow_helper_public.Store.Rows.{JobRow, ControlDb, Lease, find_job}
use workflow_helper_public.Retention.Rows as RetentionRows
use workflow_helper_public.Retention.Rows.{RetentionDb}
use workflow_helper_public.Service.Session.{
  ControlService, Request, Svc, ◌>>=◌, attempt, in_store, in_ledger,
}
use workflow_helper_public.Service.Authorize.{
  require_scope, audit_context, record_denial, records_in_ledger, deny, decided, authorize,
}

-- A method leaves the row of a job key alone.
abbrev pub Spares : {A : Type 0} → Text → Svc A → Type 0
Spares key m = (s : ControlService) → find_job key (m s).1.store.jobs ≡ find_job key s.store.jobs

module _ {A B : Type 0} (key : Text) where
  pub bind-Spares :
      (m : Svc A) (f : A → Svc B)
      → Spares key m
      → ((a : A) → Spares key (f a))
      → Spares key (m >>= f)
  unfolding ◌>>=◌
  bind-Spares m f first rest s = after (m s).0 (m s).1 (first s)
    where
      after :
          (r : Result A) (s' : ControlService)
          → find_job key s'.store.jobs ≡ find_job key s.store.jobs
          → find_job key
              (elim r as (λ _. Result B × ControlService) [
                | ok a ↦ f a s'
                | err e ↦ (err e, s')
              ]).1.store.jobs
            ≡ find_job key s.store.jobs
      after (ok a) s' h = rest a s' ∙ h
      after (err e) s' h = h

  pub attempt-Spares :
      (r : Result A) (f : A → Svc B)
      → ((a : A) → r ≡ ok a → Spares key (f a))
      → Spares key (attempt r >>= f)
  unfolding attempt ◌>>=◌
  attempt-Spares (ok a) f rest s = rest a refl s
  attempt-Spares (err e) f rest s = refl

pub only-Spares : {A : Type 0} (key : Text) (r : Result A) → Spares key (attempt r)
unfolding attempt
only-Spares key r s = refl

pub in_store-Spares :
    {A : Type 0} (key : Text) (tx : Tx ControlDb A)
    → ((db : ControlDb) (a : A) (db' : ControlDb)
        → tx db ≡ ok (a, db')
        → find_job key db'.jobs ≡ find_job key db.jobs)
    → Spares key (in_store tx)
unfolding in_store
in_store-Spares {A} key tx keeps s = outcome (tx s.store) refl
  where
    outcome :
        (r : Result (A × ControlDb))
        → tx s.store ≡ r
        → find_job key (transaction (λ _. r) s.store).1.jobs ≡ find_job key s.store.jobs
    outcome (ok (a, db')) h = keeps s.store a db' h
    outcome (err e) h = refl

in_ledger-Spares : {A : Type 0} (key : Text) (tx : Tx RetentionDb A) → Spares key (in_ledger tx)
unfolding in_ledger
in_ledger-Spares key tx s = by_ledger s.retention
  where
    by_ledger :
        (ledger : Option RetentionDb)
        → find_job key (in_ledger tx (record s { retention = ledger })).1.store.jobs
          ≡ find_job key s.store.jobs
    by_ledger none = refl
    by_ledger (some db) = refl

append_audit_event-jobs :
    (platform : Platform) (audit : Option AuditContext) (event_id key : Text) (db : ControlDb)
    (a : Unit {0}) (db' : ControlDb)
    → StoreRows.append_audit_event platform audit event_id db ≡ ok (a, db')
    → find_job key db'.jobs ≡ find_job key db.jobs
unfolding StoreRows.append_audit_event
append_audit_event-jobs platform audit event_id key db a db' h =
    let kept : db'.jobs ≡ db.jobs = ground arith in rw kept refl

record_denial-Spares :
    (key : Text) (platform : Platform) (principal : AuthenticatedPrincipal) (event_id : Text)
    (audit : AuditContext)
    → Spares key (record_denial platform principal event_id audit)
unfolding record_denial
record_denial-Spares key platform principal event_id audit s =
    elim (Bool-cases (records_in_ledger principal s)) [
      | inl e ↦
          rw e (
            in_ledger-Spares key (RetentionRows.append_audit_event platform (some audit) event_id)
              s)
      | inr e ↦ rw e (
          in_store-Spares key (StoreRows.append_audit_event platform (some audit) event_id)
            (append_audit_event-jobs platform (some audit) event_id key) s)
    ]

-- Whether it is allowed or denied, authorization changes no job.
decided-Spares :
    (key : Text) (platform : Platform) (principal : AuthenticatedPrincipal) (action : ControlAction)
    (target_id : Text) (request : Request) (scope : TenantWorkspaceScope) (r : Result (Unit {0}))
    → Spares key (decided platform principal action target_id request scope r)
unfolding decided deny
decided-Spares key platform principal action target_id request scope (ok _) =
    only-Spares key (audit_context scope principal action target_id request (codes "accepted"))
decided-Spares key platform principal action target_id request scope (err e) =
    attempt-Spares key (audit_context scope principal action target_id request (codes "denied")) _
      λ audit built.
        bind-Spares key (record_denial platform principal request.audit_event audit) _
          (record_denial-Spares key platform principal request.audit_event audit) (λ _ s. refl)

pub authorize-Spares :
    (key : Text) (platform : Platform) (principal : AuthenticatedPrincipal) (action : ControlAction)
    (target_id : Text) (request : Request)
    → Spares key (authorize platform principal action target_id request)
unfolding authorize
authorize-Spares key platform principal action target_id request =
    attempt-Spares key (require_scope principal) _ λ scope scoped.
      decided-Spares key platform principal action target_id request scope
        (require principal action)
