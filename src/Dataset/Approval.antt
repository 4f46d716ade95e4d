-- ===== src/Dataset/Approval.antt =====
-- `approve_dataset` and `read_dataset_approval_state` of dataset_approval.py.
pub mod Reread
use workflow_helper_public.Base.{
  Bool, true, false, ◌||◌, List, [], ◌∷◌, ◌++◌, Option, none, some, ltb, if◌then◌else◌, any,
  value_error, conflict_error, assertion_error, Result, ok, err, reject_if,
}
use workflow_helper_public.Text.{Text, codes, text_eq, is_blank}
use workflow_helper_public.Json.{
  text, number, array, object, Items, nil, cons, Fields, end, field, canonical_json,
}
use workflow_helper_public.Platform.{Platform}
use workflow_helper_public.Auth.{AuthenticatedPrincipal}
use workflow_helper_public.Store.ReviewRows.{ReviewEvent}
use workflow_helper_public.Service.Session.{Request, Svc, ◌>>=◌, pure, raise, attempt}
use workflow_helper_public.Service.Reviews.{append_review}
use workflow_helper_public.Dataset.Events.{all_events}
use workflow_helper_public.Dataset.State.{
  approval_kind, promotion_kind, DatasetApprovalState, approval_events, require_same_manifest,
  state_from_events,
}

-- `_target_id`
unfoldable pub dataset_target : Text → Text
dataset_target dataset_id = codes "dataset:" ++ dataset_id

items_of : List Text → Items
items_of [] = nil
items_of (value ∷ values) = cons (text value) (items_of values)

-- `_promotion_idempotency_key`
promotion_key : Platform → Text → Fields → List Text → Text → Text
unfolding canonical_json items_of
promotion_key platform dataset_id manifest approvers actor_id =
    codes "dataset-promotion-"
    ++ platform.sha256 (
        canonical_json (
          object (
            field (codes "dataset_id") (text dataset_id) (
              field (codes "manifest") (object manifest) (
                field (codes "approvers") (array (items_of approvers))
                  (field (codes "actor_id") (text actor_id) end))))))

abbrev approval_detail : Fields
approval_detail =
    field (codes "kind") (text approval_kind)
      (field (codes "decision") (text (codes "approve")) end)

promotion_detail : DatasetApprovalState → Fields
unfolding items_of
promotion_detail state = field (codes "kind") (text promotion_kind) (
    field (codes "approval_count") (number state.approval_count)
      (field (codes "approvers") (array (items_of state.approvers)) end))

-- Whether the state that is there already answers the call; otherwise the call may approve.
unfoldable pub answered_by :
    Text → Text → Fields → List ReviewEvent → DatasetApprovalState → Result Bool
unfolding require_same_manifest approval_events text_eq
answered_by subject idempotency_key manifest events current =
    let own = λ (event : ReviewEvent). text_eq event.actor_id subject in
    let replay = λ (event : ReviewEvent).
      if own event then text_eq event.idempotency_key idempotency_key else false in
    elim (require_same_manifest current.manifest manifest) [
      | err e ↦ err e
      | ok _ ↦
          if any replay (approval_events events)
          then ok true
          else if text_eq current.status (codes "approved")
          then err (conflict_error "dataset is already approved")
          else if any own (approval_events events)
          then err (conflict_error "reviewer already approved this dataset manifest")
          else ok false
    ]

-- A state that is asserted to be there.
abbrev asserted : Option DatasetApprovalState → Svc DatasetApprovalState
asserted none = raise assertion_error
asserted (some state) = pure state

module _ (platform : Platform) (principal : AuthenticatedPrincipal)
    (dataset_id idempotency_key : Text) (manifest : Fields)
    (reading approving promoting : Request) where
  -- The reviews of the dataset as they now are, and the state that they give.
  read_state : Svc (Option DatasetApprovalState)
  unfolding all_events state_from_events dataset_target
  read_state = do
    events ← all_events platform principal (dataset_target dataset_id) reading
    attempt (state_from_events dataset_id (dataset_target dataset_id) events)

  -- The promotion by the reviewer who completes the pair.
  promote : DatasetApprovalState → Svc DatasetApprovalState
  unfolding append_review promotion_key promotion_detail read_state dataset_target
  promote state = do
    event ←
        append_review platform principal (dataset_target dataset_id)
          (promotion_key platform dataset_id manifest state.approvers principal.subject)
          (codes "approved") manifest (some (promotion_detail state)) promoting
    found ← read_state
    promoted ← asserted found
    (if text_eq promoted.status (codes "approved")
        then pure promoted
        else raise (conflict_error "dataset promotion did not reach approved state"))

  -- The approval of a reviewer who has not approved, and what follows from it.
  approve : Svc DatasetApprovalState
  unfolding append_review read_state promote dataset_target
  approve = do
    event ←
        append_review platform principal (dataset_target dataset_id) idempotency_key
          (codes "pending") manifest (some approval_detail) approving
    found ← read_state
    state ← asserted found
    (if text_eq state.status (codes "approved") || ltb state.approval_count 2
        then pure state
        else promote state)

  -- What the state before the call makes of it.
  continue_from : List ReviewEvent → Option DatasetApprovalState → Svc DatasetApprovalState
  unfolding answered_by approve
  continue_from events none = approve
  continue_from events (some current) = do
    replayed ← attempt (answered_by principal.subject idempotency_key manifest events current)
    (if replayed then pure current else approve)

  -- `approve_dataset`. Its calls of the service are requests of their own: `reading` for those that
  -- list, `approving` and `promoting` for those that append.
  unfoldable pub approve_dataset : Svc DatasetApprovalState
  unfolding all_events state_from_events dataset_target continue_from
  approve_dataset = do
    named ← attempt (reject_if (is_blank dataset_id) (value_error "dataset_id is required"))
    events ← all_events platform principal (dataset_target dataset_id) reading
    current ← attempt (state_from_events dataset_id (dataset_target dataset_id) events)
    continue_from events current

-- `read_dataset_approval_state`
unfoldable pub read_dataset_approval_state :
    Platform → AuthenticatedPrincipal → Text → Request → Svc (Option DatasetApprovalState)
unfolding all_events state_from_events dataset_target
read_dataset_approval_state platform principal dataset_id reading = do
  named ← attempt (reject_if (is_blank dataset_id) (value_error "dataset_id is required"))
  events ← all_events platform principal (dataset_target dataset_id) reading
  attempt (state_from_events dataset_id (dataset_target dataset_id) events)
