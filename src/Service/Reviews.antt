-- ===== src/Service/Reviews.antt =====
-- The methods of `ControlService` on reviews and audit events. `append_candidate_review` and its
-- capability are not among them.
pub mod Public
pub mod Capability
pub mod Candidate
pub mod Equality
pub mod Written
pub mod Bound
pub mod Checked
pub mod Sealed
pub mod Outcome
mod Tests
use workflow_helper_public.Base.{
  ℕ, Bool, true, false, List, Option, none, some, if◌then◌else◌, conflict_error, Result, ok, err,
  each,
}
use workflow_helper_public.Text.{Text, codes, text_eq}
use workflow_helper_public.Json.{Fields}
use workflow_helper_public.Platform.{Platform}
use workflow_helper_public.Scope.{qualify, kind_prefix}
use workflow_helper_public.Auth.{AuthenticatedPrincipal, review_append, review_read, audit_read}
use workflow_helper_public.Store.Candidates.{is_candidate_review_target}
use workflow_helper_public.Store.ReviewRows.{ReviewEvent, ReviewProjection}
use workflow_helper_public.Store.Reviews.{append_review_event}
use workflow_helper_public.Store.Reviews.Reading.{
  get_review_projection, get_candidate_review_projection, list_candidate_review_events,
  list_scoped_review_events,
}
use workflow_helper_public.Store.Reviews.Request.{one_of}
use workflow_helper_public.Store.Audits.{
  AuditEvent, list_scoped_audit_events, get_scoped_audit_event,
}
use workflow_helper_public.Service.Session.{
  Request, Svc, ◌>>=◌, ◌>>◌, raise, attempt, in_store, read_store,
}
use workflow_helper_public.Service.Authorize.{require_scope, authorize}
use workflow_helper_public.Service.Reviews.Public.{
  public_review_event, public_review_projection, public_audit_event, optionally,
}

-- A request that carries no idempotency key, and one that does.
abbrev pub unkeyed : Request → Request
unkeyed request = record request { idempotency_key = none }

abbrev pub keyed : Request → Text → Request
keyed request key = record request { idempotency_key = some key }

module _ (platform : Platform) (principal : AuthenticatedPrincipal) where
  unfoldable pub append_review :
      Text → Text → Text → Fields → Option Fields → Request → Svc ReviewEvent
  unfolding is_candidate_review_target
  append_review target_id idempotency_key status provenance detail request =
      if is_candidate_review_target target_id
      then raise (
          conflict_error
            "candidate review targets require the guarded candidate lifecycle operation")
      else do
        scope ← attempt (require_scope principal)
        audit ← authorize platform principal review_append target_id (keyed request idempotency_key)
        target ← attempt (qualify scope (codes "review_target") target_id)
        key ← attempt (qualify scope (codes "review_idempotency") idempotency_key)
        event ← in_store (
            append_review_event platform target key principal.subject status provenance detail
              request.now (some audit) request.event_id request.audit_event)
        attempt (public_review_event platform scope event)

  -- The store's two listings, of a candidate's events and of those of another target.
  unfoldable pub listed : Bool → Text → ℕ → ℕ → Svc (List ReviewEvent)
  listed true target after_sequence limit =
      read_store (list_candidate_review_events platform target after_sequence limit)
  listed false target after_sequence limit =
      read_store (list_scoped_review_events platform target after_sequence limit)

  unfoldable pub list_reviews : Text → ℕ → ℕ → Request → Svc (List ReviewEvent)
  unfolding is_candidate_review_target listed
  list_reviews target_id after_sequence limit request = do
    scope ← attempt (require_scope principal)
    audit ← authorize platform principal review_read target_id (unkeyed request)
    target ← attempt (qualify scope (codes "review_target") target_id)
    events ← listed (is_candidate_review_target target_id) target after_sequence limit
    attempt (each (public_review_event platform scope) events)

  -- The target of `read_candidate_review`, under either of its names.
  candidate_selected : Option Text → Option Text → Result Text
  unfolding one_of is_candidate_review_target
  candidate_selected review_target_id target_id =
      elim (one_of "candidate review target conflicts" review_target_id target_id) [
        | err e ↦ err e
        | ok none ↦ err (conflict_error "candidate review target syntax is invalid")
        | ok (some selected) ↦
            if is_candidate_review_target selected
            then ok selected
            else err (conflict_error "candidate review target syntax is invalid")
      ]

  unfoldable pub read_candidate_review :
      Option Text → Option Text → Request → Svc (Option ReviewProjection)
  unfolding candidate_selected
  read_candidate_review review_target_id target_id request = do
    selected ← attempt (candidate_selected review_target_id target_id)
    scope ← attempt (require_scope principal)
    audit ← authorize platform principal review_read selected (unkeyed request)
    target ← attempt (qualify scope (codes "review_target") selected)
    projection ← read_store (get_candidate_review_projection platform target)
    attempt (optionally (public_review_projection platform scope) projection)

  unfoldable pub read_review : Text → Request → Svc (Option ReviewProjection)
  unfolding is_candidate_review_target read_candidate_review
  read_review target_id request =
      if is_candidate_review_target target_id
      then read_candidate_review (some target_id) none request
      else do
        scope ← attempt (require_scope principal)
        audit ← authorize platform principal review_read target_id (unkeyed request)
        target ← attempt (qualify scope (codes "review_target") target_id)
        projection ← read_store (get_review_projection platform target)
        attempt (optionally (public_review_projection platform scope) projection)

  unfoldable pub list_audit_events : ℕ → ℕ → Request → Svc (List AuditEvent)
  list_audit_events after_sequence limit request = do
    scope ← attempt (require_scope principal)
    audit ← authorize platform principal audit_read (codes "audit-events") (unkeyed request)
    prefix ← attempt (kind_prefix scope (codes "audit_target"))
    events ← read_store (list_scoped_audit_events platform prefix after_sequence limit)
    attempt (each (public_audit_event scope) events)

  unfoldable pub read_audit_event : Text → Request → Svc (Option AuditEvent)
  read_audit_event event_id request = do
    scope ← attempt (require_scope principal)
    audit ← authorize platform principal audit_read event_id (unkeyed request)
    prefix ← attempt (kind_prefix scope (codes "audit_target"))
    event ← read_store (get_scoped_audit_event platform event_id prefix)
    attempt (optionally (public_audit_event scope) event)
