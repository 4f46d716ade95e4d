-- ===== src/Store/Reviews/History.antt =====
-- How long the chain of a candidate's events is, when control_store.py takes it as valid.
use workflow_helper_public.Base.{
  ℕ, ◌≤◌, ◌<◌, ◌≡◌, refl, sym, ◌∙◌, true, false, Bool, not, List, [], ◌∷◌, Option, none, some,
  arith, ==_iff, ◌⊎◌, String, length, if◌then◌else◌, ◌==◌, Bool-cases, inl, inr, Result, ok, err,
  conflict_error, not-false, reject_if-false, checked_first,
}
use workflow_helper_public.Text.{Text, codes, text_eq}
use workflow_helper_public.Text.Equality.{text_eq→eq}
use workflow_helper_public.Platform.{Platform}
use workflow_helper_public.Audit.{contains, ◌then_check◌, then_check-left, then_check-right}
use workflow_helper_public.Store.Candidates.{is_candidate_review_target}
use workflow_helper_public.Store.ReviewRows.{
  ReviewEventRow, ReviewProjectionRow, ReviewProjection, target_events, find_projection,
  review_projection_from_row,
}
use workflow_helper_public.Store.Rows.{ControlDb}
use workflow_helper_public.Store.Reviews.Lifecycle.{
  review_statuses, legal_candidate_transition, ReviewPosition, unreviewed, refuse,
}
use workflow_helper_public.Store.Reviews.Chain.{
  check_row, check_event, check_events, check_shape, check_projection, chain_end,
  validate_candidate_projection, after,
}
use workflow_helper_public.Store.Reviews.Reading.{get_candidate_review_projection, shown_projection}

-- How many events may follow a status.
moves_left : Text → ℕ
moves_left status =
    if text_eq status (codes "unreviewed")
    then 2
    else if text_eq status (codes "pending")
    then 1
    else 0

one_of_statuses :
    (value first : Text) (rest : List Text)
    → contains (first ∷ rest) value ≡ true
    → (first ≡ value) ⊎ (contains rest value ≡ true)
one_of_statuses value first rest h = elim (Bool-cases (text_eq first value)) [
  | inl e ↦ inl (text_eq→eq first value e)
  | inr e ↦ inr (ground arith)
]

-- No transition leads back to `unreviewed`, and only the first state leads to `pending`.
moves_below_two :
    (destination : Text)
    → contains (codes "pending" ∷ codes "approved" ∷ []) destination ≡ true
    → moves_left destination < 2
unfolding moves_left text_eq
moves_below_two destination h =
    elim (one_of_statuses destination (codes "pending") (codes "approved" ∷ []) h) [
      | inl e ↦ rw (sym e) (omega arith)
      | inr h' ↦ elim (one_of_statuses destination (codes "approved") [] h') [
        | inl e ↦ rw (sym e) (omega arith)
        | inr h'' ↦ cc
      ]
    ]

no_moves_left :
    (destination : Text)
    → contains (codes "approved" ∷ codes "rejected" ∷ codes "needs_changes" ∷ []) destination ≡ true
    → moves_left destination < 1
unfolding moves_left text_eq
no_moves_left destination h =
    elim (one_of_statuses destination (codes "approved")
      (codes "rejected" ∷ codes "needs_changes" ∷ []) h) [
        | inl e ↦ rw (sym e) (omega arith)
        | inr h' ↦
            elim (one_of_statuses destination (codes "rejected") (codes "needs_changes" ∷ []) h') [
              | inl e ↦ rw (sym e) (omega arith)
              | inr h'' ↦ elim (one_of_statuses destination (codes "needs_changes") [] h'') [
                | inl e ↦ rw (sym e) (omega arith)
                | inr none_left ↦ cc
              ]
            ]
      ]

-- Every legal transition uses up a move.
fewer_moves :
    (status destination : Text)
    → legal_candidate_transition status destination ≡ true
    → moves_left destination < moves_left status
unfolding legal_candidate_transition moves_left
fewer_moves status destination h =
    moves (text_eq status (codes "unreviewed")) (text_eq status (codes "pending")) h
  where
    moves :
        (is_new is_pending : Bool)
        → contains
            (if is_new
              then codes "pending" ∷ codes "approved" ∷ []
              else if is_pending
              then codes "approved" ∷ codes "rejected" ∷ codes "needs_changes" ∷ []
              else [])
            destination
          ≡ true
        → moves_left destination < (if is_new then 2 else if is_pending then 1 else 0)
    moves true is_pending h = moves_below_two destination h
    moves false true h = no_moves_left destination h
    moves false false h = cc

check_event-legal :
    (platform : Platform) (target : Text) (event : ReviewEventRow) (prior : ReviewPosition)
    {u : Unit {0}}
    → check_event platform target event prior ≡ ok u
    → legal_candidate_transition prior.state event.status ≡ true
unfolding check_event
check_event-legal platform target event prior h =
    let moves =
      refuse "candidate review event transition is corrupt"
        (not (legal_candidate_transition prior.state event.status)) in
    not-false (legal_candidate_transition prior.state event.status) (
      reject_if-false (not (legal_candidate_transition prior.state event.status))
        (conflict_error "candidate review event transition is corrupt")
        (then_check-right (check_row platform target event) moves (
          then_check-left (check_row platform target event then_check moves)
            (check_shape platform event prior) h)))

-- A chain that is checked from a position is no longer than the moves left there.
check_events-length :
    (platform : Platform) (target : Text) (prior position : ReviewPosition)
    (events : List ReviewEventRow)
    → check_events platform target prior events ≡ ok position
    → length events ≤ moves_left prior.state
unfolding check_events
check_events-length platform target prior position [] h = omega arith
check_events-length platform target prior position (event ∷ events) h =
    let (checked, rest) =
      checked_first (check_event platform target event prior)
        (check_events platform target (after event prior) events) h in
    let less =
      fewer_moves prior.state event.status
        (check_event-legal platform target event prior checked) in
    omega
      (arith, check_events-length platform target (after event prior) position events rest, less)

chain_end-length :
    (platform : Platform) (rows events : List ReviewEventRow) (projection : ReviewProjectionRow)
    (r : Result ReviewPosition) {u : Unit {0}}
    → check_events platform projection.target_id unreviewed events ≡ r
    → chain_end platform rows projection r ≡ ok u
    → length events ≤ 2
unfolding chain_end moves_left text_eq
chain_end-length platform rows events projection (err e) checked h = cc
chain_end-length platform rows events projection (ok position) checked h =
    check_events-length platform projection.target_id unreviewed position events checked

-- What a valid chain says of its projection.
validated-version :
    (platform : Platform) (rows events : List ReviewEventRow) (projection : ReviewProjectionRow)
    {u : Unit {0}}
    → validate_candidate_projection platform rows projection events ≡ ok u
    → (projection.version ≡ length events) × (length events ≤ 2)
unfolding validate_candidate_projection check_projection
validated-version platform rows events projection h =
    let version = not (projection.version == length events) in
    let version_corrupt : String = "candidate review projection version is corrupt" in
    let earlier =
      refuse "candidate review event history is missing" (length events == 0)
      then_check refuse "candidate review target is corrupt"
          (not (is_candidate_review_target projection.target_id))
      then_check refuse "candidate review projection status is invalid"
          (not (contains review_statuses projection.status)) in
    let chain = check_events platform projection.target_id unreviewed events in
    let rest = chain_end platform rows projection chain in
    let same = not-false (projection.version == length events) (
      reject_if-false version (conflict_error version_corrupt) (
        then_check-right earlier (refuse version_corrupt version)
          (then_check-left (check_projection projection events) rest h))) in
    (
      ground (arith, ==_iff projection.version (length events)),
      chain_end-length platform rows events projection chain refl
          (then_check-right (check_projection projection events) rest h),
    )

shown-version :
    (platform : Platform) (rows events : List ReviewEventRow) (found : Option ReviewProjectionRow)
    (shown : ReviewProjection)
    → shown_projection platform rows events found ≡ ok (some shown)
    → (shown.version ≡ length events) × (shown.version ≤ 2)
unfolding shown_projection review_projection_from_row
shown-version platform rows [] none shown h = cc
shown-version platform rows (event ∷ events) none shown h = ground arith
shown-version platform rows events (some projection) shown h =
    let (valid, same) =
      checked_first (validate_candidate_projection platform rows projection events)
        (ok (some (review_projection_from_row platform projection))) h in
    let (version, bound) = validated-version platform rows events projection valid in
    let same_version : projection.version ≡ shown.version = cc in
    (sym same_version ∙ version, ground arith)

-- A candidate whose projection control_store.py shows has at most two events, as many as the
-- projection's version says.
pub candidate_history_bounded :
    (platform : Platform) (target : Text) (db : ControlDb) (shown : ReviewProjection)
    → get_candidate_review_projection platform target db ≡ ok (some shown)
    → (shown.version ≡ length (target_events target db.review_events)) × (shown.version ≤ 2)
unfolding get_candidate_review_projection
candidate_history_bounded platform target db shown h =
    asked (not (is_candidate_review_target target)) (find_projection target db.review_projection) h
  where
    asked :
        (bad : Bool) (found : Option ReviewProjectionRow)
        → (if bad
            then err (conflict_error "candidate review target syntax is invalid")
            else shown_projection platform db.review_events
                (target_events target db.review_events)
                found)
          ≡ ok (some shown)
        → (shown.version ≡ length (target_events target db.review_events)) × (shown.version ≤ 2)
    asked true found h = cc
    asked false found h =
        shown-version platform db.review_events (target_events target db.review_events) found shown
          h
