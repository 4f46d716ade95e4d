-- ===== src/Store/Reviews/Reading.antt =====
-- The reading operations of control_store.py on reviews: the projection and the events of a target,
-- whole and in pages. A candidate's are read only through the check of its chain.
use workflow_helper_public.Base.{
  ℕ, suc, ◌+◌, ◌&&◌, not, List, [], ◌∷◌, Option, none, some, leb, ltb, if◌then◌else◌, length, take,
  conflict_error, Result, ok, err,
}
use workflow_helper_public.Text.{Text}
use workflow_helper_public.Platform.{Platform}
use workflow_helper_public.Checks.{require_text, require_pagination}
use workflow_helper_public.Audit.{◌then_check◌}
use workflow_helper_public.Store.Candidates.{is_candidate_review_target}
use workflow_helper_public.Store.ReviewRows.{
  ReviewEventRow, ReviewProjectionRow, ReviewEvent, ReviewProjection, review_events_from_rows,
  review_projection_from_row, target_events, find_projection,
}
use workflow_helper_public.Store.Rows.{ControlDb}
use workflow_helper_public.Store.Reviews.Chain.{validate_candidate_projection}

-- A candidate's projection, shown when the chain of its events is valid.
unfoldable pub shown_projection :
    Platform
    → List ReviewEventRow
    → List ReviewEventRow
    → Option ReviewProjectionRow
    → Result (Option ReviewProjection)
unfolding validate_candidate_projection review_projection_from_row
shown_projection platform rows events none =
    if ltb 0 (length events)
    then err (conflict_error "candidate review authority is ambiguous")
    else ok none
shown_projection platform rows events (some projection) =
    elim (validate_candidate_projection platform rows projection events) [
      | err e ↦ err e
      | ok _ ↦ ok (some (review_projection_from_row platform projection))
    ]

-- `get_candidate_review_projection`
unfoldable pub get_candidate_review_projection :
    Platform → Text → ControlDb → Result (Option ReviewProjection)
unfolding is_candidate_review_target find_projection target_events shown_projection
get_candidate_review_projection platform target_id db =
    if not (is_candidate_review_target target_id)
    then err (conflict_error "candidate review target syntax is invalid")
    else shown_projection platform db.review_events (target_events target_id db.review_events)
        (find_projection target_id db.review_projection)

-- `get_review_projection`
unfoldable pub get_review_projection :
    Platform → Text → ControlDb → Result (Option ReviewProjection)
unfolding is_candidate_review_target find_projection get_candidate_review_projection
    review_projection_from_row
get_review_projection platform target_id db =
    if is_candidate_review_target target_id
    then get_candidate_review_projection platform target_id db
    else elim (find_projection target_id db.review_projection) [
      | none ↦ ok none
      | some row ↦ ok (some (review_projection_from_row platform row))
    ]

-- Events numbered from `first` on, `row_number() over (order by sequence)`.
unfoldable pub numbered : ℕ → List ReviewEventRow → List ReviewEventRow
numbered first [] = []
numbered first (row ∷ rows) = record row { sequence = first } ∷ numbered (suc first) rows

-- `where sequence > ?`
unfoldable pub beyond : ℕ → List ReviewEventRow → List ReviewEventRow
beyond after_sequence [] = []
beyond after_sequence (row ∷ rows) =
    let rest = beyond after_sequence rows in
    if ltb after_sequence row.sequence then row ∷ rest else rest

-- `where sequence > ? order by sequence limit ?`, of rows in the order of their sequence.
unfoldable pub page : ℕ → ℕ → List ReviewEventRow → List ReviewEventRow
unfolding beyond
page after_sequence limit rows = take limit (beyond after_sequence rows)

-- The events at the places after one, up to a limit, and each event's place as its sequence.
unfoldable pub window : ℕ → ℕ → ℕ → List ReviewEvent → List ReviewEvent
window after_sequence limit place [] = []
window after_sequence limit place (event ∷ events) =
    let rest = window after_sequence limit (suc place) events in
    if ltb after_sequence place && leb place (after_sequence + limit)
    then record event { sequence = place } ∷ rest
    else rest

-- `list_candidate_review_events`
unfoldable pub list_candidate_review_events :
    Platform → Text → ℕ → ℕ → ControlDb → Result (List ReviewEvent)
unfolding is_candidate_review_target find_projection target_events validate_candidate_projection
    review_events_from_rows require_pagination window
list_candidate_review_events platform target_id after_sequence limit db =
    let rows = target_events target_id db.review_events in
    if not (is_candidate_review_target target_id)
    then err (conflict_error "candidate review target syntax is invalid")
    else elim (require_pagination limit) [
      | err e ↦ err e
      | ok _ ↦ elim (find_projection target_id db.review_projection) [
        | none ↦
            if ltb 0 (length rows)
            then err (conflict_error "candidate review authority is ambiguous")
            else ok []
        | some projection ↦
            elim (validate_candidate_projection platform db.review_events projection rows) [
              | err e ↦ err e
              | ok _ ↦ elim (review_events_from_rows platform rows) [
                | err e ↦ err e
                | ok events ↦ ok (window after_sequence limit 1 events)
              ]
            ]
      ]
    ]

-- `list_review_events`
unfoldable pub list_review_events : Platform → Text → ControlDb → Result (List ReviewEvent)
unfolding is_candidate_review_target target_events list_candidate_review_events
    review_events_from_rows
list_review_events platform target_id db =
    if is_candidate_review_target target_id
    then list_candidate_review_events platform target_id 0 100 db
    else review_events_from_rows platform (target_events target_id db.review_events)

-- The ordinary branch of `list_scoped_review_events`: its query.
unfoldable pub scoped_page : Text → ℕ → ℕ → List ReviewEventRow → List ReviewEventRow
unfolding target_events numbered page
scoped_page target_id after_sequence limit rows =
    page after_sequence limit (numbered 1 (target_events target_id rows))

-- `list_scoped_review_events`
unfoldable pub list_scoped_review_events :
    Platform → Text → ℕ → ℕ → ControlDb → Result (List ReviewEvent)
unfolding require_text require_pagination is_candidate_review_target list_candidate_review_events
    scoped_page review_events_from_rows
list_scoped_review_events platform target_id after_sequence limit db =
    elim (require_text "target_id" target_id then_check require_pagination limit) [
      | err e ↦ err e
      | ok _ ↦
          if is_candidate_review_target target_id
          then list_candidate_review_events platform target_id after_sequence limit db
          else review_events_from_rows platform
              (scoped_page target_id after_sequence limit db.review_events)
    ]
