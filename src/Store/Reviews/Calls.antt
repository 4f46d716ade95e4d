-- ===== src/Store/Reviews/Calls.antt =====
-- Calls of the two review writers in sequence; SQLite lets one transaction in at a time.
use workflow_helper_public.Base.{◌≡◌, refl, List, [], ◌∷◌, Option, Result, ok, err, Tx, transaction}
use workflow_helper_public.Text.{Text}
use workflow_helper_public.Json.{Fields}
use workflow_helper_public.Platform.{Platform, Timestamp}
use workflow_helper_public.Audit.{AuditContext}
use workflow_helper_public.Store.Rows.{ControlDb}
use workflow_helper_public.Store.ReviewRows.{ReviewEvent}
use workflow_helper_public.Store.Reviews.{append_review_event}
use workflow_helper_public.Store.Reviews.Request.{CandidateReview}
use workflow_helper_public.Store.Reviews.Writer.{append_candidate_review_event}
use workflow_helper_public.Store.Reviews.Steps.{ReviewStep, kept, append_review_event-ReviewStep}
use workflow_helper_public.Store.Reviews.Transitions.{append_candidate-ReviewStep}

-- The arguments of `append_review_event`.
pub record ReviewArguments : Type 0 where
  pub target_id : Text
  pub idempotency_key : Text
  pub actor_id : Text
  pub status : Text
  pub provenance : Fields
  pub detail : Option Fields
  pub occurred_at : Timestamp
  pub audit : Option AuditContext

-- A call with its arguments; the last texts are what `uuid4()` gives to it.
pub data ReviewCall : Type 0 where
  review : ReviewArguments → Text → Text → ReviewCall
  candidate : Timestamp → CandidateReview → Text → Text → ReviewCall

abbrev pub append : Platform → ReviewArguments → Text → Text → Tx ControlDb ReviewEvent
append platform given event_id audit_event =
    append_review_event platform given.target_id given.idempotency_key given.actor_id given.status
      given.provenance given.detail given.occurred_at given.audit event_id audit_event

module _ (platform : Platform) where
  -- The database after one call, whether it returned or raised.
  unfoldable pub review_step : ReviewCall → ControlDb → ControlDb
  review_step (ReviewCall.review given event_id audit_event) db =
      (transaction (append platform given event_id audit_event) db).1
  review_step (ReviewCall.candidate clock call event_id audit_event) db =
      (transaction (append_candidate_review_event platform clock call event_id audit_event) db).1

  unfoldable pub review_run : List ReviewCall → ControlDb → ControlDb
  unfolding review_step
  review_run [] db = db
  review_run (call ∷ calls) db = review_run calls (review_step call db)

  committed :
      {A : Type 0} (m : Tx ControlDb A) (db : ControlDb)
      → ((a : A) (db' : ControlDb) → m db ≡ ok (a, db') → ReviewStep db db')
      → ReviewStep db (transaction m db).1
  committed {A} m db h = outcome (m db) refl
    where
      outcome : (r : Result (A × ControlDb)) → m db ≡ r → ReviewStep db (transaction (λ _. r) db).1
      outcome (err e) p = kept refl refl
      outcome (ok (a, db')) p = h a db' p

  -- Every call is one step.
  pub review_step-ReviewStep :
      (call : ReviewCall) (db : ControlDb) → ReviewStep db (review_step call db)
  unfolding review_step
  review_step-ReviewStep (ReviewCall.review given event_id audit_event) db =
      committed (append platform given event_id audit_event) db (λ _ _ h.
        append_review_event-ReviewStep platform given.target_id given.idempotency_key given.actor_id
          given.status given.provenance given.detail given.occurred_at given.audit event_id
          audit_event db h)
  review_step-ReviewStep (ReviewCall.candidate clock call event_id audit_event) db =
      committed (append_candidate_review_event platform clock call event_id audit_event) db
        (λ _ _ h. append_candidate-ReviewStep platform clock call event_id audit_event db h)

  -- What every step keeps, every run keeps.
  pub review_run-invariant :
      (P : ControlDb → Type 0)
      → ((db db' : ControlDb) → ReviewStep db db' → P db → P db')
      → (calls : List ReviewCall) (db : ControlDb) → P db
      → P (review_run calls db)
  unfolding review_run
  review_run-invariant P kept_by [] db p = p
  review_run-invariant P kept_by (call ∷ calls) db p =
      review_run-invariant P kept_by calls (review_step call db)
        (kept_by db (review_step call db) (review_step-ReviewStep call db) p)
