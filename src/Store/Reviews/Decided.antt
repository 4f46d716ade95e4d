-- ===== src/Store/Reviews/Decided.antt =====
-- The lifecycle of a candidate in control_store.py: which transitions an append makes, and that a
-- decision is the last of them.
use workflow_helper_public.Store.Reviews.Recorded.{new_event}
use workflow_helper_public.Base.{
  ◌≡◌, refl, ap, sym, true, false, Bool, List, [], ◌∷◌, some, arith, Bool-cases, inl, inr, subst,
}
use workflow_helper_public.Text.{Text, codes, text_eq}
use workflow_helper_public.Text.Equality.{text_eq→eq}
use workflow_helper_public.Platform.{Platform}
use workflow_helper_public.Audit.{contains}
use workflow_helper_public.Store.Candidates.{is_candidate_review_target}
use workflow_helper_public.Store.ReviewRows.{ReviewProjectionRow, find_projection}
use workflow_helper_public.Store.Rows.{ControlDb}
use workflow_helper_public.Store.Reviews.{review_row, next_projection}
use workflow_helper_public.Store.Reviews.Lifecycle.{legal_candidate_transition}
use workflow_helper_public.Store.Reviews.Steps.{ReviewStep, kept, recorded, state_of, status_of}
use workflow_helper_public.Store.Reviews.Calls.{ReviewCall, review_run, review_run-invariant}
use workflow_helper_public.Store.Reviews.Projection.{find-upsert}

-- The statuses that end a review.
unfoldable pub is_decided : Text → Bool
is_decided status =
    contains (codes "approved" ∷ codes "rejected" ∷ codes "needs_changes" ∷ []) status

no_move :
    (status destination : Text)
    → is_decided status ≡ true
    → legal_candidate_transition status destination ≡ false
unfolding is_decided legal_candidate_transition text_eq
no_move status destination h = elim (Bool-cases (text_eq (codes "approved") status)) [
  | inl e ↦ rw (sym (text_eq→eq (codes "approved") status e)) refl
  | inr a ↦ elim (Bool-cases (text_eq (codes "rejected") status)) [
    | inl e ↦ rw (sym (text_eq→eq (codes "rejected") status e)) refl
    | inr r ↦ elim (Bool-cases (text_eq (codes "needs_changes") status)) [
      | inl e ↦ rw (sym (text_eq→eq (codes "needs_changes") status e)) refl
      | inr n ↦ ground arith
    ]
  ]
]

-- A guarded step of a target whose projection is known starts from that projection's status.
guarded_from :
    (target other status : Text) (row : ReviewProjectionRow) (db : ControlDb)
    → other ≡ target
    → find_projection target db.review_projection ≡ some row
    → (is_candidate_review_target other ≡ true
        → legal_candidate_transition (state_of other db) status ≡ true)
    → is_candidate_review_target target ≡ true
    → legal_candidate_transition row.status status ≡ true
guarded_from target other status row db same found legal candidate =
    let state : state_of target db ≡ row.status = ap status_of found in
    subst (λ (s : Text). legal_candidate_transition s status ≡ true) state
      (subst
        (λ (t : Text).
          is_candidate_review_target t ≡ true
          → legal_candidate_transition (state_of t db) status ≡ true)
        same legal candidate)

HasProjection : Text → ReviewProjectionRow → ControlDb → Type 0
HasProjection target row db = find_projection target db.review_projection ≡ some row

step-decided :
    (target : Text) (row : ReviewProjectionRow)
    → is_candidate_review_target target ≡ true
    → is_decided row.status ≡ true
    → (db db' : ControlDb) → ReviewStep db db'
    → HasProjection target row db
    → HasProjection target row db'
unfolding HasProjection next_projection review_row
step-decided target row candidate decided db db' (kept events projection) p = rw projection p
step-decided target row candidate decided db db' (recorded event_id content made legal) p =
    rw made.projection (
      rw
        (find-upsert target
          (next_projection (find_projection content.target_id db.review_projection)
            (new_event db event_id content))
          db.review_projection)
        (elim (Bool-cases (text_eq content.target_id target)) [
          | inr e ↦ rw e p
          | inl e ↦
              let moved =
                guarded_from target content.target_id content.status row db
                  (text_eq→eq content.target_id target e) p legal candidate in
              let still = no_move row.status content.status decided in cc
        ]))

-- A candidate that is approved, rejected or sent back for changes keeps that projection, with its
-- event and version, whatever the two writers are called with afterwards.
pub decision_is_final :
    (platform : Platform) (calls : List ReviewCall) (db : ControlDb) (target : Text)
    (row : ReviewProjectionRow)
    → is_candidate_review_target target ≡ true
    → find_projection target db.review_projection ≡ some row
    → is_decided row.status ≡ true
    → find_projection target (review_run platform calls db).review_projection ≡ some row
unfolding HasProjection
decision_is_final platform calls db target row candidate found decided =
    review_run-invariant platform (HasProjection target row)
      (step-decided target row candidate decided) calls db found
