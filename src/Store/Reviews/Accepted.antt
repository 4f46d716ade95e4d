-- ===== src/Store/Reviews/Accepted.antt =====
-- What an accepted candidate review of control_store.py was: a legal transition from the state that
-- its caller saw, and the projection that it leaves.
use workflow_helper_public.Store.Reviews.Writer.Replay.{replayed_event-read}
use workflow_helper_public.Store.Reviews.Payload.Digest.{IsDigestOf}
use workflow_helper_public.Store.Reviews.Recorded.{new_event}
use workflow_helper_public.Base.{
  ℕ, ◌+◌, ◌≡◌, ◌⊎◌, refl, sym, ap, ◌∙◌, true, false, Bool, not, List, none, some, if◌then◌else◌,
  inl, inr, ok, err, control_store_error, subst, find-test, lift-ok, found_or_not, ◌++◌, [], ◌∷◌,
}
use workflow_helper_public.Text.{Text, text_eq}
use workflow_helper_public.Text.Equality.{text_eq→eq, text_eq_refl}
use workflow_helper_public.Platform.{Platform, Timestamp}
use workflow_helper_public.Store.ReviewRows.{
  ReviewEventRow, ReviewProjectionRow, ReviewEvent, row_digest, public_event, review_event_from_row,
  find_review_key, find_projection,
}
use workflow_helper_public.Store.Rows.{ControlDb}
use workflow_helper_public.Store.Reviews.{review_row, next_projection}
use workflow_helper_public.Store.Reviews.Lifecycle.{legal_candidate_transition}
use workflow_helper_public.Store.Reviews.Request.{CandidateReview, CheckedReview, check_candidate}
use workflow_helper_public.Store.Reviews.Writer.{
  append_candidate_review_event, put_candidate, replay_candidate, replayed_event,
}
use workflow_helper_public.Store.Reviews.Steps.{state_of}
use workflow_helper_public.Store.Reviews.Transitions.{
  Moved, record_candidate-Moved, append_candidate-checked, current_position-state,
}
use workflow_helper_public.Store.Reviews.Projection.{find-upsert}

-- A row that is read gives its own fields.
pub review_event_from_row-ok :
    (platform : Platform) (row : ReviewEventRow) (event : ReviewEvent)
    → review_event_from_row platform row ≡ ok event
    → event ≡ public_event platform row
unfolding review_event_from_row
review_event_from_row-ok platform row event h =
    read (text_eq row.content_digest (row_digest platform row)) h
  where
    read :
        (same : Bool)
        → (if not same
            then err (control_store_error "stored review event content digest is invalid")
            else ok (public_event platform row))
          ≡ ok event
        → event ≡ public_event platform row
    read true h = cc
    read false h = cc

-- The event that answers a call has the call's key and the digest of its target, actor and status.
pub record IsOf (platform : Platform) (actor_id : Text) (checked : CheckedReview)
    (event : ReviewEvent) : Type 0 where
  pub key : event.idempotency_key ≡ checked.qualified_key
  pub digest : IsDigestOf platform actor_id checked event.content_digest

-- An accepted transition: the event is the call's, is appended under a key that was free, and becomes
-- the projection of its target.
pub record Accepted (platform : Platform) (actor_id : Text) (checked : CheckedReview)
    (db : ControlDb) (event : ReviewEvent) (db' : ControlDb) : Type 0 where
  pub target : event.target_id ≡ checked.qualified_target
  pub asked : event.status ≡ checked.selected_status
  pub actor : event.actor_id ≡ actor_id
  pub stored : ReviewEventRow
  pub shows : event ≡ public_event platform stored
  pub fresh : find_review_key event.idempotency_key db.review_events ≡ none
  pub appended : db'.review_events ≡ db.review_events ++ stored ∷ []
  pub legal : legal_candidate_transition (state_of event.target_id db) event.status ≡ true
  pub row : ReviewProjectionRow
  pub found : find_projection event.target_id db'.review_projection ≡ some row
  pub status : row.status ≡ event.status
  pub last : row.last_event_id ≡ event.event_id
  pub version :
      row.version ≡ (elim (find_projection event.target_id db.review_projection) as (λ _. ℕ) [
        | none ↦ 1
        | some before ↦ before.version + 1
      ])

-- A replay: the event is the stored one of its key.
pub record Replayed (platform : Platform) (db : ControlDb) (event : ReviewEvent) : Type 0 where
  pub existing : ReviewEventRow
  pub found : find_review_key event.idempotency_key db.review_events ≡ some existing
  pub shows : event ≡ public_event platform existing

Moved-Accepted :
    (platform : Platform) (call : CandidateReview) (checked : CheckedReview) (event_id : Text)
    (db db' : ControlDb) (event : ReviewEvent)
    → Moved platform call checked event_id db event db'
    → IsOf platform call.actor_id checked event
      × Accepted platform call.actor_id checked db event db'
unfolding public_event review_row next_projection
Moved-Accepted platform call checked event_id db db' event moved =
    subst
      (λ (e : ReviewEvent).
        IsOf platform call.actor_id checked e × Accepted platform call.actor_id checked db e db')
      (sym (review_event_from_row-ok platform new event moved.read))
      (
        record { key = moved.key; digest = moved.digest },
        record {
          target = moved.target;
          asked = moved.status;
          actor = moved.actor;
          stored = new;
          shows = refl;
          fresh = moved.made.fresh_key;
          appended = moved.made.events;
          legal = rw moved.target (rw moved.status (rw (sym from) moved.legal));
          row = next;
          found = rw moved.made.projection (
              rw (find-upsert moved.content.target_id next db.review_projection)
                (rw (text_eq_refl moved.content.target_id) refl));
          status = refl;
          last = refl;
          version = refl;
        },
      )
  where
    new : ReviewEventRow
    new = new_event db event_id moved.content

    next : ReviewProjectionRow
    next = next_projection (find_projection moved.content.target_id db.review_projection) new

    from : moved.current.state ≡ state_of checked.qualified_target db
    from = current_position-state platform checked.qualified_target db moved.current moved.here

-- The key of a row that is found is the one that was looked for.
found_key :
    (key : Text) (rows : List ReviewEventRow) (existing : ReviewEventRow)
    → find_review_key key rows ≡ some existing
    → existing.idempotency_key ≡ key
unfolding find_review_key
found_key key rows existing found =
    text_eq→eq existing.idempotency_key key
      (find-test (λ (row : ReviewEventRow). text_eq row.idempotency_key key) rows existing found)

-- What a checked call that is answered did.
answered :
    (platform : Platform) (clock : Timestamp) (call : CandidateReview) (checked : CheckedReview)
    (event_id audit_event : Text) (db db' : ControlDb) (event : ReviewEvent)
    → put_candidate platform clock call checked event_id audit_event db ≡ ok (event, db')
    → IsOf platform call.actor_id checked event
      × ((Accepted platform call.actor_id checked db event db')
          ⊎ (Replayed platform db event × (db' ≡ db)))
unfolding put_candidate replay_candidate public_event
answered platform clock call checked event_id audit_event db db' event h =
    elim (found_or_not (find_review_key checked.qualified_key db.review_events) _ _ h) [
      | inl (existing, e, replay) ↦
          let (read, kept) = lift-ok (replayed_event platform call checked existing db) replay in
          let (digest, is_read) =
            replayed_event-read platform call checked existing db event read in
          let same = review_event_from_row-ok platform existing event is_read in
          let own = found_key checked.qualified_key db.review_events existing e in
          let key : event.idempotency_key ≡ checked.qualified_key =
            ap (λ (v : ReviewEvent). v.idempotency_key) same ∙ own in
          (
            record {
              key = key;
              digest =
                  subst (λ (d : Text). IsDigestOf platform call.actor_id checked d)
                    (sym (ap (λ (v : ReviewEvent). v.content_digest) same)) digest;
            },
            inr (
              record {
                existing = existing;
                found =
                    subst (λ (k : Text). find_review_key k db.review_events ≡ some existing)
                      (sym key) e;
                shows = same;
              },
              kept,
            ),
          )
      | inr (_, new) ↦
          let (is_of, accepted) =
            Moved-Accepted platform call checked event_id db db' event
              (record_candidate-Moved platform call checked event_id audit_event db clock new) in
          (is_of, inl accepted)
    ]

-- A candidate review that is answered passed the checks of its arguments, and its event is the
-- call's. Either it is a new event, appended to the table, and moves its target from the stored state
-- to the new status by a legal transition, with a projection one version on; or its key is known, and
-- the stored event is answered and nothing written.
pub candidate_append_outcome :
    (platform : Platform) (clock : Timestamp) (call : CandidateReview) (event_id audit_event : Text)
    (db db' : ControlDb) (event : ReviewEvent)
    → append_candidate_review_event platform clock call event_id audit_event db ≡ ok (event, db')
    → (checked : CheckedReview) × (check_candidate platform call ≡ ok checked)
      × IsOf platform call.actor_id checked event
      × ((Accepted platform call.actor_id checked db event db')
          ⊎ (Replayed platform db event × (db' ≡ db)))
candidate_append_outcome platform clock call event_id audit_event db db' event h =
    let (checked, passed, put) =
      append_candidate-checked platform clock call event_id audit_event db h in
    let (is_of, outcome) =
      answered platform clock call checked event_id audit_event db db' event put in
    (checked, passed, is_of, outcome)
