-- ===== src/Store/Reviews/Payload/Digest.antt =====
-- What the digest of a candidate event of control_store.py is of.
use workflow_helper_public.Base.{◌≡◌, ap, sym, ok, after_ok, ok-eq}
use workflow_helper_public.Text.{Text}
use workflow_helper_public.Json.{Json, Fields}
use workflow_helper_public.Platform.{Platform, Timestamp}
use workflow_helper_public.Store.ReviewRows.{review_content_digest}
use workflow_helper_public.Store.Reviews.Keys.{validate_review_provenance}
use workflow_helper_public.Store.Reviews.Request.{CandidateReview, CheckedReview}
use workflow_helper_public.Store.Reviews.Payload.{
  ExpectedPrior, event_objects, candidate_event_payload,
}

-- It is the digest of the call's target, an actor and status, with two objects.
abbrev pub IsDigestOf : Platform → Text → CheckedReview → Text → Type 0
IsDigestOf platform actor_id checked digest =
    (provenance : Fields) × (detail : Fields) × (digest
      ≡ review_content_digest platform checked.qualified_target actor_id checked.selected_status
          provenance detail)

pub candidate_event_payload-IsDigestOf :
    (platform : Platform) (call : CandidateReview) (checked : CheckedReview)
    (reason evidence : Json) (prior : ExpectedPrior) (occurred_at : Timestamp)
    {payload : Text × (Fields × Fields)}
    → candidate_event_payload platform call checked reason evidence prior occurred_at ≡ ok payload
    → IsDigestOf platform call.actor_id checked payload.0
unfolding candidate_event_payload
candidate_event_payload-IsDigestOf platform call checked reason evidence prior occurred_at h =
    let ((provenance, detail), _, h1) =
      after_ok (event_objects platform call checked reason evidence prior occurred_at) _ h in
    let (_, _, h2) = after_ok (validate_review_provenance provenance) _ h1 in
    (provenance, detail, sym (ap (λ (p : Text × (Fields × Fields)). p.0) (ok-eq h2)))
