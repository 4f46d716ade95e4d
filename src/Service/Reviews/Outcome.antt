-- ===== src/Service/Reviews/Outcome.antt =====
-- What `append_candidate_review` answers, and what it leaves in the stores.
use workflow_helper_public.Text.{Text, codes}
use workflow_helper_public.Store.Reviews.Request.Named.{check_candidate-IsNamed}
use workflow_helper_public.Store.Reviews.Request.{CheckedReview, one_of, check_candidate}
use workflow_helper_public.Store.Reviews.Keys.{
  scope_key, scope_object, qualify_scope_key, candidate_idempotency_key,
}
use workflow_helper_public.Base.{
  ◌≡◌, ◌∙◌, subst, sym, ℕ, Bool, true, false, ◌||◌, Option, none, some, ◌⊎◌, inl, inr,
  if◌then◌else◌, is_some, conflict_error, Result, ok, after_ok, refl, ap,
}
use workflow_helper_public.Platform.{Platform}
use workflow_helper_public.Scope.{TenantWorkspaceScope}
use workflow_helper_public.Auth.{AuthenticatedPrincipal, review_append}
use workflow_helper_public.Audit.{AuditContext}
use workflow_helper_public.Store.ReviewRows.{ReviewEvent}
use workflow_helper_public.Store.Rows.{ControlDb}
use workflow_helper_public.Store.Reviews.Writer.{append_candidate_review_event}
use workflow_helper_public.Store.Reviews.Accepted.{
  IsOf, Accepted, Replayed, candidate_append_outcome,
}
use workflow_helper_public.Service.Session.{ControlService, Request, raise, attempt, in_store}
use workflow_helper_public.Service.Authorize.{require_scope}
use workflow_helper_public.Service.Reads.{
  Keeps, bind-returned, bind-Keeps, attempt-Keeps, authorize-Keeps, in_store-returned,
  attempt-returned,
}
use workflow_helper_public.Service.Reviews.{keyed}
use workflow_helper_public.Service.Reviews.Public.{public_review_event}
use workflow_helper_public.Service.Reviews.Capability.{CandidateReviewCapability}
use workflow_helper_public.Service.Reviews.Candidate.{
  CandidateAppend, Identities, resolved_identities, authorized_by, guarded_call,
  append_candidate_review,
}

resolved_identities-Keeps : (call : CandidateAppend) → Keeps (resolved_identities call)
unfolding resolved_identities
resolved_identities-Keeps call = bind-Keeps (attempt _) _ (attempt-Keeps _) λ key.
    bind-Keeps (attempt _) _ (attempt-Keeps _) λ target.
      bind-Keeps (attempt _) _ (attempt-Keeps _) λ _.
        bind-Keeps (attempt _) _ (attempt-Keeps _) λ content.
          bind-Keeps (attempt _) _ (attempt-Keeps _)
            λ full. bind-Keeps (attempt _) _ (attempt-Keeps _) λ source. attempt-Keeps _

-- The checked arguments are those of the call, qualified in the scope.
pub record IsRequested (call : CandidateAppend) (named : Identities) (scope : TenantWorkspaceScope)
    (checked : CheckedReview) : Type 0 where
  pub key : Text
  pub in_scope : scope_key (some (scope_object scope)) ≡ ok key
  pub target :
      qualify_scope_key key (codes "review_target") named.review_target_id
      ≡ ok checked.qualified_target
  pub idempotency :
      candidate_idempotency_key key (some call.idempotency_key) none ≡ ok checked.qualified_key
  pub status :
      one_of "candidate destination status conflicts" call.status call.destination_status
      ≡ ok (some checked.selected_status)

module _ (platform : Platform) (self : ℕ) (principal : AuthenticatedPrincipal) where
  authorized_by-Keeps :
      (call : CandidateAppend) (named : Identities) (request : Request)
      (capability : Option CandidateReviewCapability)
      → Keeps (authorized_by platform self principal call named request capability)
  unfolding authorized_by
  authorized_by-Keeps call named request none s b s' h =
      authorize-Keeps platform principal review_append named.review_target_id
        (keyed request call.idempotency_key) s b s' h
  authorized_by-Keeps call named request (some capability) s b s' h =
      by_payload (is_some call.legacy_provenance || is_some call.legacy_detail) _ h
    where
      by_payload :
          (legacy : Bool) (r : Result AuditContext)
          → (if legacy
                then raise
                    (conflict_error "legacy candidate review payload cannot use a capability")
                else attempt r)
              s
            ≡ (ok b, s')
          → s' ≡ s
      by_payload true r h = cc
      by_payload false r h = attempt-Keeps r s b s' h

  -- The store was entered as the service was called, and the tables of the answer are its own.
  settled :
      (stored : ReviewEvent) (checked : CheckedReview) (db : ControlDb)
      (before s s' : ControlService)
      → s' ≡ record before { store = db }
      → before ≡ s
      → (Accepted platform principal.subject checked before.store stored db)
        ⊎ (Replayed platform before.store stored × (db ≡ before.store))
      → (Accepted platform principal.subject checked s.store stored s'.store)
        ⊎ (Replayed platform s.store stored × (s' ≡ s))
  settled stored checked db before s s' after kept (inl accepted) = inl (
      subst
        (λ (t : ControlService).
          Accepted platform principal.subject checked t.store stored s'.store)
        kept
        (subst
          (λ (t : ControlService).
            Accepted platform principal.subject checked before.store stored t.store)
          (sym after) accepted))
  settled stored checked db before s s' after kept (inr (replayed, unchanged)) =
      inr (subst (λ (t : ControlService). Replayed platform t.store stored) kept replayed, cc)

  requested :
      (call : CandidateAppend) (named : Identities) (scope : TenantWorkspaceScope)
      (audit : AuditContext) (checked : CheckedReview)
      → check_candidate platform (guarded_call call named principal scope audit) ≡ ok checked
      → IsRequested call named scope checked
  unfolding guarded_call
  requested call named scope audit checked passed =
      let n =
        check_candidate-IsNamed platform (guarded_call call named principal scope audit)
          named.review_target_id checked refl refl passed in
      let (key, in_scope, same) = after_ok (scope_key (some (scope_object scope))) _ n.in_scope in
      let is_key : scope_key (some (scope_object scope)) ≡ ok n.key = in_scope ∙ same in
      record {
        key = n.key;
        in_scope = is_key;
        target = n.target;
        idempotency = n.idempotency;
        status = n.status;
      }

  -- An event that `append_candidate_review` returns is the public form, in the principal's own
  -- scope, of an event of the store. That event has the key that the call's idempotency key is
  -- qualified to in this scope, and the digest of the qualified review target of the call, the
  -- principal's subject and the call's status, with some provenance and detail. It is either new:
  -- then its key was free, it is appended to the events, has that target, actor and status, makes a
  -- legal transition of the target and becomes its projection, of the version that follows. Or it is
  -- the stored event of its key, and neither store changed. The retention ledger stays as it is in
  -- both cases.
  pub append_candidate_review_outcome :
      (call : CandidateAppend) (request : Request) (s s' : ControlService) (shown : ReviewEvent)
      → append_candidate_review platform self principal call request s ≡ (ok shown, s')
      → (scope : TenantWorkspaceScope) × (named : Identities) × (stored : ReviewEvent)
        × (checked : CheckedReview) × (require_scope principal ≡ ok scope)
        × (resolved_identities call s ≡ (ok named, s))
        × IsRequested call named scope checked
        × (public_review_event platform scope stored ≡ ok shown)
        × IsOf platform principal.subject checked stored
        × (s'.retention ≡ s.retention)
        × ((Accepted platform principal.subject checked s.store stored s'.store)
            ⊎ (Replayed platform s.store stored × (s' ≡ s)))
  unfolding append_candidate_review guarded_call
  append_candidate_review_outcome call request s s' shown h =
      let (named, s1, h1, r1) = bind-returned (resolved_identities call) _ s h in
      let (scope, s2, h2, r2) = bind-returned (attempt (require_scope principal)) _ s1 r1 in
      let (_, s3, h3, r3) = bind-returned (attempt _) _ s2 r2 in
      let (audit, s4, h4, r4) =
        bind-returned (authorized_by platform self principal call named request call.capability) _
          s3 r3 in
      let (stored, s5, h5, h6) =
        bind-returned
          (in_store (
            append_candidate_review_event platform request.now
              (guarded_call call named principal scope audit) request.event_id request.audit_event))
          _ s4 r4 in
      let (scoped, e2) = attempt-returned (require_scope principal) s1 h2 in
      let (shows, e6) = attempt-returned (public_review_event platform scope stored) s5 h6 in
      let (db, ran, e5) = in_store-returned _ s4 h5 in
      let kept : s4 ≡ s =
        authorized_by-Keeps call named request call.capability s3 audit s4 h4
        ∙ attempt-Keeps _ s2 _ s3 h3
        ∙ e2
        ∙ resolved_identities-Keeps call s named s1 h1 in
      let (checked, passed, is_of, outcome) =
        candidate_append_outcome platform request.now
          (guarded_call call named principal scope audit) request.event_id request.audit_event
          s4.store db stored ran in
      (
        scope,
        named,
        stored,
        checked,
        scoped,
        subst (λ (t : ControlService). resolved_identities call s ≡ (ok named, t))
            (resolved_identities-Keeps call s named s1 h1) h1,
        requested call named scope audit checked passed,
        shows,
        is_of,
        ap (λ (t : ControlService). t.retention) (e6 ∙ e5)
            ∙ ap (λ (t : ControlService). t.retention) kept,
        settled stored checked db s4 s s' (e6 ∙ e5) kept outcome,
      )
