-- ===== src/Store/Reviews/Writer/Replay.antt =====
-- What `append_candidate_review_event` of control_store.py answers to a key that is known.
use workflow_helper_public.Base.{
  ◌≡◌, sym, not, not-false, ok, err, Result, conflict_error, if◌then◌else◌, subst, after_ok,
  after_guard, checked_first,
}
use workflow_helper_public.Text.{Text, text_eq, codes}
use workflow_helper_public.Text.Equality.{text_eq→eq}
use workflow_helper_public.Json.{Json, null}
use workflow_helper_public.Platform.{Platform, Timestamp, from_micros}
use workflow_helper_public.Store.ReviewRows.{ReviewEventRow, ReviewEvent, review_event_from_row}
use workflow_helper_public.Store.Rows.{ControlDb}
use workflow_helper_public.Store.Reviews.Request.{CandidateReview, CheckedReview}
use workflow_helper_public.Store.Reviews.Payload.{
  ExpectedPrior, candidate_event_payload, or_default,
}
use workflow_helper_public.Store.Reviews.Payload.Digest.{
  IsDigestOf, candidate_event_payload-IsDigestOf,
}
use workflow_helper_public.Store.Reviews.Writer.{
  replayed, replayed_evidence, replayed_prior, replayed_event, check_replayed, given_or,
}

-- A replay that is answered reads the stored row, which has the digest of the call.
pub replayed_event-read :
    (platform : Platform) (call : CandidateReview) (checked : CheckedReview)
    (existing : ReviewEventRow) (db : ControlDb) (event : ReviewEvent)
    → replayed_event platform call checked existing db ≡ ok event
    → IsDigestOf platform call.actor_id checked existing.content_digest
      × (review_event_from_row platform existing ≡ ok event)
unfolding replayed_event replayed replayed_evidence replayed_prior
replayed_event-read platform call checked existing db event h =
    paid (or_default (replayed checked existing (codes "reason") call.reason) null)
      (replayed_evidence call checked existing) (replayed_prior call checked existing)
      (given_or checked.explicit_time (from_micros platform existing.occurred_at)) h
  where
    paid :
        (reason evidence : Json) (prior : ExpectedPrior) (time : Timestamp)
        → (elim (candidate_event_payload platform call checked reason evidence prior time)
            as (λ _. Result ReviewEvent) [
              | err e ↦ err e
              | ok p ↦
                  if not (text_eq existing.content_digest p.0)
                  then err (
                      conflict_error
                        "candidate review idempotency key conflicts with stored content")
                  else elim (check_replayed platform existing db) [
                    | err e ↦ err e
                    | ok _ ↦ review_event_from_row platform existing
                  ]
            ])
          ≡ ok event
        → IsDigestOf platform call.actor_id checked existing.content_digest
          × (review_event_from_row platform existing ≡ ok event)
    paid reason evidence prior time h =
        let (p, is_payload, guarded) =
          after_ok (candidate_event_payload platform call checked reason evidence prior time) _ h in
        let (same, passed) = after_guard (not (text_eq existing.content_digest p.0)) _ _ guarded in
        (
          subst (λ (d : Text). IsDigestOf platform call.actor_id checked d)
              (sym (
                text_eq→eq existing.content_digest p.0
                  (not-false (text_eq existing.content_digest p.0) same)))
              (candidate_event_payload-IsDigestOf platform call checked reason evidence prior time
                is_payload),
          (checked_first (check_replayed platform existing db)
              (review_event_from_row platform existing) passed).1,
        )
