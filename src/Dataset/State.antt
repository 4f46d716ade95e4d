-- ===== src/Dataset/State.antt =====
-- `_state_from_events` of dataset_approval.py: what the reviews of a dataset say of it.
use workflow_helper_public.Base.{
  ℕ, Bool, ◌&&◌, not, List, [], ◌∷◌, ◌++◌, Option, none, some, ltb, if◌then◌else◌, length, select,
  conflict_error, Result, ok, err, reject_if,
}
use workflow_helper_public.Text.{Text, codes, text_eq}
use workflow_helper_public.Text.Order.{text_lt}
use workflow_helper_public.Json.{Fields, object, field_or_null, canonical_json}
use workflow_helper_public.Audit.{◌then_check◌}
use workflow_helper_public.Store.ReviewRows.{ReviewEvent}
use workflow_helper_public.Store.Reviews.Lifecycle.{is_text}

abbrev pub approval_kind : Text
approval_kind = codes "dataset_approval"

abbrev pub promotion_kind : Text
promotion_kind = codes "dataset_promotion"

pub record DatasetApprovalState : Type 0 where
  pub dataset_id : Text
  pub target_id : Text
  pub status : Text
  pub approval_count : ℕ
  pub approvers : List Text
  pub manifest : Fields
  pub last_event_id : Text

-- `event.detail.get(name) == expected`
unfoldable pub says : ReviewEvent → Text → Text → Bool
unfolding field_or_null text_eq
says event name expected = is_text expected (field_or_null name event.detail)

unfoldable pub is_approval : ReviewEvent → Bool
unfolding says
is_approval event =
    says event (codes "kind") approval_kind && says event (codes "decision") (codes "approve")

-- `_approval_events`
unfoldable pub approval_events : List ReviewEvent → List ReviewEvent
unfolding is_approval
approval_events events = select is_approval events

unfoldable pub promotion_events : List ReviewEvent → List ReviewEvent
unfolding says
promotion_events events = select (λ event. says event (codes "kind") promotion_kind) events

-- `_require_same_manifest`
unfoldable pub require_same_manifest : Fields → Fields → Result (Unit {0})
unfolding text_eq canonical_json
require_same_manifest expected actual =
    reject_if (not (text_eq (canonical_json (object expected)) (canonical_json (object actual))))
      (conflict_error "dataset manifest provenance does not match prior approval")

unfoldable pub same_manifests : Fields → List ReviewEvent → Result (Unit {0})
unfolding require_same_manifest
same_manifests reference [] = ok tt
same_manifests reference (event ∷ events) =
    require_same_manifest reference event.provenance then_check same_manifests reference events

-- A text among sorted ones, once.
unfoldable pub insert_once : Text → List Text → List Text
unfolding text_eq text_lt
insert_once value [] = value ∷ []
insert_once value (first ∷ rest) =
    let later = insert_once value rest in
    if text_eq value first
    then first ∷ rest
    else if text_lt value first
    then value ∷ first ∷ rest
    else first ∷ later

-- `tuple(sorted({event.actor_id for event in events}))`
unfoldable pub actors : List ReviewEvent → List Text
unfolding insert_once
actors [] = []
actors (event ∷ events) = insert_once event.actor_id (actors events)

-- `max(events, key=lambda event: event.sequence)`, of events that begin with one
unfoldable pub latest : ReviewEvent → List ReviewEvent → ReviewEvent
latest best [] = best
latest best (event ∷ events) =
    latest (if ltb best.sequence event.sequence then event else best) events

-- The state of approvals and promotions of which one is there, the first of them all being `first`.
unfoldable pub joint_state :
    Text
    → Text
    → List ReviewEvent
    → List ReviewEvent
    → ReviewEvent
    → List ReviewEvent
    → Result (Option DatasetApprovalState)
unfolding same_manifests actors latest
joint_state dataset_id target_id approvals promotions first rest =
    let approvers = actors approvals in
    elim (same_manifests first.provenance (first ∷ rest)
      then_check reject_if (ltb 0 (length promotions) && ltb (length approvers) 2)
          (conflict_error "approved dataset lacks two distinct reviewer approvals")) [
            | err e ↦ err e
            | ok _ ↦ ok (
                some (record {
                  dataset_id = dataset_id;
                  target_id = target_id;
                  status = if ltb 0 (length promotions) then codes "approved" else codes "pending";
                  approval_count = length approvers;
                  approvers = approvers;
                  manifest = first.provenance;
                  last_event_id = (latest first rest).event_id;
                }))
          ]

-- `_state_from_events`
unfoldable pub state_from_events :
    Text → Text → List ReviewEvent → Result (Option DatasetApprovalState)
unfolding approval_events promotion_events joint_state
state_from_events dataset_id target_id events =
    let approvals = approval_events events in
    let promotions = promotion_events events in
    elim (approvals ++ promotions) [
      | [] ↦ ok none
      | first ∷ rest ↦ joint_state dataset_id target_id approvals promotions first rest
    ]
