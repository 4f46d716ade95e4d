-- ===== src/Dataset/Events/Complete.antt =====
-- `_all_events` gives all the events of its target, as `list_reviews` would show them at once.
use workflow_helper_public.Dataset.Events.Slices.{each-drop, each-take, each-PlacedBy, each-length}
use workflow_helper_public.Base.{
  ℕ, suc, ◌≤◌, ◌<◌, ◌≡◌, refl, ap, ◌∙◌, Bool, true, false, List, [], ◌∷◌, some, arith, take, drop,
  length, Result, ok, err, each, reject_if, value_error, if◌then◌else◌, after_ok,
}
use workflow_helper_public.Text.{Text, codes, is_blank}
use workflow_helper_public.Platform.{Platform}
use workflow_helper_public.Checks.{require_text, require_pagination}
use workflow_helper_public.Audit.{AuditContext, ◌then_check◌}
use workflow_helper_public.Scope.{TenantWorkspaceScope, qualify, unqualify}
use workflow_helper_public.Auth.{AuthenticatedPrincipal, review_read}
use workflow_helper_public.Store.Candidates.{is_candidate_review_target}
use workflow_helper_public.Store.ReviewRows.{
  ReviewEventRow, ReviewEvent, review_event_from_row, review_events_from_rows, target_events,
  public_event,
}
use workflow_helper_public.Store.Reviews.Reading.{
  numbered, scoped_page, list_scoped_review_events, list_candidate_review_events,
}
use workflow_helper_public.Store.Reviews.Paging.{scoped_page_slices}
use workflow_helper_public.Store.Reviews.Accepted.{review_event_from_row-ok}
use workflow_helper_public.Service.Session.{ControlService, Request, attempt, read_store}
use workflow_helper_public.Service.Authorize.{require_scope, authorize}
use workflow_helper_public.Service.Reviews.Public.{public_review_event}
use workflow_helper_public.Service.Reviews.{list_reviews, listed, unkeyed}
use workflow_helper_public.Dataset.Events.{loop, all_events}
use workflow_helper_public.Dataset.Events.Pages.{PlacedBy, IsPlaced, bind-ok, loop_complete}

length-numbered : (n : ℕ) (rows : List ReviewEventRow) → length (numbered n rows) ≡ length rows
unfolding numbered
length-numbered n [] = refl
length-numbered n (row ∷ rows) = ap (λ (k : ℕ). suc k) (length-numbered (suc n) rows)

length-target_events :
    (target : Text) (rows : List ReviewEventRow) → length (target_events target rows) ≤ length rows
unfolding target_events
length-target_events target [] = omega arith
length-target_events target (row ∷ rows) = ground (arith, length-target_events target rows)

-- The numbers of the rows of a target are their places, and an event has the number of its row.
numbered-PlacedBy :
    (n : ℕ) (rows : List ReviewEventRow)
    → PlacedBy (λ (row : ReviewEventRow). row.sequence) n (numbered (suc n) rows)
unfolding numbered
numbered-PlacedBy n [] = tt
numbered-PlacedBy n (row ∷ rows) = (refl, numbered-PlacedBy (suc n) rows)

row-sequence :
    (platform : Platform) (row : ReviewEventRow) (event : ReviewEvent)
    → review_event_from_row platform row ≡ ok event
    → event.sequence ≡ row.sequence
unfolding public_event
row-sequence platform row event h =
    ap (λ (e : ReviewEvent). e.sequence) (review_event_from_row-ok platform row event h)

public-sequence :
    (platform : Platform) (scope : TenantWorkspaceScope) (event shown : ReviewEvent)
    → public_review_event platform scope event ≡ ok shown
    → shown.sequence ≡ event.sequence
unfolding public_review_event
public-sequence platform scope event shown h =
    let (_, _, with_key) = after_ok (unqualify scope (codes "review_target") event.target_id) _ h in
    let (_, _, made) =
      after_ok (unqualify scope (codes "review_idempotency") event.idempotency_key) _ with_key in
    cc

module _ (platform : Platform) (principal : AuthenticatedPrincipal) (target_id target : Text)
    (request : Request) (s : ControlService) (scope : TenantWorkspaceScope) (audit : AuditContext)
    (rows whole : List ReviewEvent) (scoped : require_scope principal ≡ ok scope)
    (allowed : authorize platform principal review_read target_id (unkeyed request) s
      ≡ (ok audit, s))
    (qualified : qualify scope (codes "review_target") target_id ≡ ok target)
    (plain : is_candidate_review_target target_id ≡ false)
    (plain_key : is_candidate_review_target target ≡ false) (named : is_blank target ≡ false)
    (stored : review_events_from_rows platform
        (numbered 1 (target_events target s.store.review_events))
      ≡ ok rows)
    (shown : each (public_review_event platform scope) rows ≡ ok whole) where
  -- A page of the store.
  stored_page :
      (after_sequence : ℕ)
      → list_scoped_review_events platform target after_sequence 100 s.store
        ≡ ok (take 100 (drop after_sequence rows))
  unfolding list_scoped_review_events require_text require_pagination review_events_from_rows
  stored_page after_sequence =
      accepted (is_blank target) (is_candidate_review_target target) named plain_key
      ∙ ap (λ (l : List ReviewEventRow). each (review_event_from_row platform) l)
          (scoped_page_slices target after_sequence 100 s.store.review_events)
      ∙ each-take (review_event_from_row platform) 100 (drop after_sequence all_rows)
          (drop after_sequence rows)
          (each-drop (review_event_from_row platform) after_sequence all_rows rows stored)
    where
      all_rows : List ReviewEventRow
      all_rows = numbered 1 (target_events target s.store.review_events)

      accepted :
          (blank candidate : Bool)
          → blank ≡ false
          → candidate ≡ false
          → (elim (reject_if blank (value_error "target_id") then_check require_pagination 100)
              as (λ _. Result (List ReviewEvent)) [
                | err e ↦ err e
                | ok _ ↦
                    if candidate
                    then list_candidate_review_events platform target after_sequence 100 s.store
                    else each
                        (review_event_from_row platform)
                        (scoped_page target after_sequence 100 s.store.review_events)
              ])
            ≡ each
                (review_event_from_row platform)
                (scoped_page target after_sequence 100 s.store.review_events)
      accepted true candidate e e' = cc
      accepted false true e e' = cc
      accepted false false e e' = refl

  -- A page of the service, which leaves the stores alone.
  shown_page :
      (after_sequence : ℕ)
      → list_reviews platform principal target_id after_sequence 100 request s
        ≡ (ok (take 100 (drop after_sequence whole)), s)
  unfolding list_reviews listed attempt read_store
  shown_page after_sequence =
      bind-ok (attempt (require_scope principal)) _ s scope (tried scoped)
      ∙ bind-ok (authorize platform principal review_read target_id (unkeyed request)) _ s audit
          allowed
      ∙ bind-ok (attempt (qualify scope (codes "review_target") target_id)) _ s target
          (tried qualified)
      ∙ bind-ok
          (listed platform principal (is_candidate_review_target target_id) target after_sequence
            100)
          _ s (take 100 (drop after_sequence rows))
          (ap (λ (b : Bool). listed platform principal b target after_sequence 100 s) plain
            ∙ tried (stored_page after_sequence))
      ∙ tried (
          each-take (public_review_event platform scope) 100 (drop after_sequence rows)
            (drop after_sequence whole)
            (each-drop (public_review_event platform scope) after_sequence rows whole shown))
    where
      tried :
          {A : Type 0} {r r' : Result A}
          → r ≡ r'
          → ◌≡◌ {A = Result A × ControlService} (r, s) (r', s)
      tried {A} e = ap (λ (x : Result A). (x, s)) e

  whole-IsPlaced : IsPlaced 0 whole
  unfolding review_events_from_rows
  whole-IsPlaced =
      each-PlacedBy (public_review_event platform scope) _ _ (public-sequence platform scope) 0 rows
        whole
        (each-PlacedBy (review_event_from_row platform) _ _ (row-sequence platform) 0
          (numbered 1 (target_events target s.store.review_events)) rows
          (numbered-PlacedBy 0 (target_events target s.store.review_events)) stored)
        shown

  -- An authorized reader of a target that is no candidate gets every event of it, in order, as one
  -- reading of all its rows would show them: the loop over the pages ends, and the stores stay as
  -- they are.
  pub all_events_complete : all_events platform principal target_id request s ≡ (ok whole, s)
  unfolding all_events review_events_from_rows
  all_events_complete =
      bind-ok
        (loop (λ after. list_reviews platform principal target_id after 100 request)
          (suc (length s.store.review_events)) 0 [])
        _ s (some whole)
        (loop_complete (λ after. list_reviews platform principal target_id after 100 request) s
          whole whole-IsPlaced shown_page (suc (length s.store.review_events)) enough)
    where
      all_rows : List ReviewEventRow
      all_rows = numbered 1 (target_events target s.store.review_events)

      enough : length whole < suc (length s.store.review_events)
      enough = omega (
        arith,
        each-length (public_review_event platform scope) rows whole shown,
        each-length (review_event_from_row platform) all_rows rows stored,
        length-numbered 1 (target_events target s.store.review_events),
        length-target_events target s.store.review_events,
      )
