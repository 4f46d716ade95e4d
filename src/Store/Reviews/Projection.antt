-- ===== src/Store/Reviews/Projection.antt =====
-- The projection of control_store.py is the summary of its target's events.
use workflow_helper_public.Store.Reviews.Recorded.{new_event}
use workflow_helper_public.Base.{
  suc, ◌+◌, ◌≡◌, refl, ap, sym, ◌∙◌, List, [], ◌∷◌, ◌++◌, Option, none, some, arith, length,
  if◌then◌else◌, replace, Bool-cases, inl, inr,
}
use workflow_helper_public.Text.{Text, text_eq}
use workflow_helper_public.Text.Equality.{text_eq_iff, text_eq→eq}
use workflow_helper_public.Platform.{Platform}
use workflow_helper_public.Store.ReviewRows.{
  ReviewEventRow, ReviewProjectionRow, find_projection, target_events,
}
use workflow_helper_public.Store.Rows.{ControlDb, empty_db}
use workflow_helper_public.Store.Reviews.{review_row, next_projection, upsert_projection}
use workflow_helper_public.Store.Reviews.Steps.{ReviewStep, kept, recorded}
use workflow_helper_public.Store.Reviews.Calls.{ReviewCall, review_run, review_run-invariant}

last_of : ReviewEventRow → List ReviewEventRow → ReviewEventRow
last_of event [] = event
last_of event (next ∷ rest) = last_of next rest

-- What the events of one target say: the last one, and how many there are.
unfoldable pub summary : List ReviewEventRow → Option ReviewProjectionRow
unfolding last_of
summary [] = none
summary (first ∷ rest) =
    let event = last_of first rest in
    some (record {
      target_id = event.target_id;
      status = event.status;
      version = length (first ∷ rest);
      last_event_id = event.event_id;
      actor_id = event.actor_id;
      provenance = event.provenance;
      detail = event.detail;
      occurred_at = event.occurred_at;
    })

last_of-append :
    (first : ReviewEventRow) (rest : List ReviewEventRow) (new : ReviewEventRow)
    → last_of first (rest ++ new ∷ []) ≡ new
unfolding last_of
last_of-append first [] new = refl
last_of-append first (next ∷ rest) new = last_of-append next rest new

length-snoc :
    (rest : List ReviewEventRow) (new : ReviewEventRow)
    → suc (length (rest ++ new ∷ [])) ≡ suc (length rest) + 1
length-snoc [] new = omega arith
length-snoc (next ∷ rest) new = omega (arith, length-snoc rest new)

-- One more event takes a summary to the projection that the writers compute.
summary-append :
    (events : List ReviewEventRow) (new : ReviewEventRow)
    → summary (events ++ new ∷ []) ≡ some (next_projection (summary events) new)
unfolding summary next_projection
summary-append [] new = refl
summary-append (first ∷ rest) new =
    rw (last_of-append first rest new) (rw (length-snoc rest new) refl)

find-append_projection :
    (target : Text) (new : ReviewProjectionRow) (rows : List ReviewProjectionRow)
    → find_projection new.target_id rows ≡ none
    → find_projection target (rows ++ new ∷ [])
      ≡ (if text_eq new.target_id target then some new else find_projection target rows)
unfolding find_projection
find-append_projection target new [] h = refl
find-append_projection target new (row ∷ rows) h = ground (
  arith,
  text_eq_iff row.target_id new.target_id,
  text_eq_iff row.target_id target,
  text_eq_iff new.target_id target,
  find-append_projection target new rows,
)

find-replace_projection :
    (target : Text) (new : ReviewProjectionRow) (rows : List ReviewProjectionRow)
    (old : ReviewProjectionRow)
    → find_projection new.target_id rows ≡ some old
    → find_projection target (replace (λ row. text_eq row.target_id new.target_id) new rows)
      ≡ (if text_eq new.target_id target then some new else find_projection target rows)
unfolding find_projection
find-replace_projection target new [] old h = cc
find-replace_projection target new (row ∷ rows) old h = ground (
  arith,
  text_eq_iff row.target_id new.target_id,
  text_eq_iff row.target_id target,
  text_eq_iff new.target_id target,
  find-replace_projection target new rows old,
)

-- An upsert gives its own target the new row, and leaves every other.
pub find-upsert :
    (target : Text) (new : ReviewProjectionRow) (rows : List ReviewProjectionRow)
    → find_projection target (upsert_projection new rows)
      ≡ (if text_eq new.target_id target then some new else find_projection target rows)
unfolding upsert_projection
find-upsert target new rows = either (find_projection new.target_id rows) refl
  where
    either :
        (found : Option ReviewProjectionRow)
        → find_projection new.target_id rows ≡ found
        → find_projection target (elim found as (λ _. List ReviewProjectionRow) [
          | none ↦ rows ++ new ∷ []
          | some prior ↦ replace (λ row. text_eq row.target_id new.target_id) new rows
        ])
          ≡ (if text_eq new.target_id target then some new else find_projection target rows)
    either none e = find-append_projection target new rows e
    either (some old) e = find-replace_projection target new rows old e

-- The rows of a target, after a row of it or of another.
target_events-append :
    (target : Text) (rows : List ReviewEventRow) (new : ReviewEventRow)
    → target_events target (rows ++ new ∷ []) ≡ (
        if text_eq new.target_id target
        then target_events target rows ++ new ∷ []
        else target_events target rows)
unfolding target_events
target_events-append target [] new = ground (arith)
target_events-append target (row ∷ rows) new = ground (arith, target_events-append target rows new)

-- Every target's projection is the summary of its events.
pub IsProjected : ControlDb → Type 0
IsProjected db =
    (target : Text)
    → find_projection target db.review_projection ≡ summary (target_events target db.review_events)

step-IsProjected : (db db' : ControlDb) → ReviewStep db db' → IsProjected db → IsProjected db'
unfolding IsProjected next_projection review_row
step-IsProjected db db' (kept events projection) p target = rw events (rw projection (p target))
step-IsProjected db db' (recorded event_id content made _) p target = rw made.events (
    rw made.projection (
      rw (find-upsert target next db.review_projection)
        (rw (target_events-append target db.review_events new) (compared target))))
  where
    new : ReviewEventRow
    new = new_event db event_id content

    next : ReviewProjectionRow
    next = next_projection (find_projection content.target_id db.review_projection) new

    compared :
        (target : Text)
        → (if text_eq content.target_id target
            then some next
            else find_projection target db.review_projection)
          ≡ summary (
              if text_eq content.target_id target
              then target_events target db.review_events ++ new ∷ []
              else target_events target db.review_events)
    compared target = elim (Bool-cases (text_eq content.target_id target)) [
      | inr e ↦ rw e (p target)
      | inl e ↦ rw e (
          ap (λ (t : Text). some (next_projection (find_projection t db.review_projection) new))
            (text_eq→eq content.target_id target e)
          ∙ ap (λ (o : Option ReviewProjectionRow). some (next_projection o new)) (p target)
          ∙ sym (summary-append (target_events target db.review_events) new))
    ]

empty-IsProjected : IsProjected empty_db
unfolding IsProjected find_projection target_events summary
empty-IsProjected target = refl

-- In every database that calls of the writers lead to from an empty one, the projection of each
-- target is the summary of that target's events: none without events, otherwise the content of the
-- last one, with the number of the events as its version.
pub projection_refines_events :
    (platform : Platform) (calls : List ReviewCall) (target : Text)
    → find_projection target (review_run platform calls empty_db).review_projection
      ≡ summary (target_events target (review_run platform calls empty_db).review_events)
unfolding IsProjected
projection_refines_events platform calls target =
    review_run-invariant platform IsProjected step-IsProjected calls empty_db empty-IsProjected
      target
