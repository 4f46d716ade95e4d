-- ===== src/Dataset/Tests.antt =====
-- A dataset that two reviewers approved, in a concrete store.
use workflow_helper_public.Store.Reviews.{append_review_event, review_row}
use workflow_helper_public.Dataset.Approval.{approve_dataset, read_dataset_approval_state}
use workflow_helper_public.Dataset.Approval.Reread.{read-approve}
use workflow_helper_public.Text.Decimal.{print, parse}
use workflow_helper_public.Base.{
  ℕ, ◌≡◌, refl, true, false, List, [], ◌∷◌, ◌++◌, none, some, ok, each,
}
use workflow_helper_public.Text.{Text, codes, text_eq, is_blank}
use workflow_helper_public.Json.{Fields, end, field, text, number}
use workflow_helper_public.Platform.{Platform, exact_platform}
use workflow_helper_public.Audit.{AuditContext, append_audit, validate_audit_context}
use workflow_helper_public.Scope.{
  TenantWorkspaceScope, qualify, is_kind, kind_prefix, scope_prefix, validate_scope, unqualify,
}
use workflow_helper_public.Auth.{
  reviewer, RoleSet, AuthenticatedPrincipal, review_read, allows, require, action_value,
  role_values,
}
use workflow_helper_public.Store.Candidates.{is_candidate_review_target}
use workflow_helper_public.Store.ReviewRows.{
  ReviewEvent, review_events_from_rows, target_events, public_event, ReviewEventRow,
}
use workflow_helper_public.Store.Rows.{empty_db}
use workflow_helper_public.Store.Reviews.Reading.{numbered, list_scoped_review_events}
use workflow_helper_public.Service.Session.{
  ControlService, Request, attempt, ◌>>=◌, Svc, in_store, read_store,
}
use workflow_helper_public.Service.Authorize.{require_scope, authorize, audit_context, decided}
use workflow_helper_public.Service.Reviews.Public.{public_review_event}
use workflow_helper_public.Service.Reviews.{unkeyed, list_reviews}
use workflow_helper_public.Dataset.Events.{all_events}
use workflow_helper_public.Dataset.Events.Complete.{all_events_complete}
use workflow_helper_public.Dataset.State.{DatasetApprovalState, state_from_events}
use workflow_helper_public.Dataset.Reviewers.{ApprovedTwice, approved_by_two}

abbrev digest : Text
digest = codes "aaaaaaaaaaaaaaaaaaaaaaaaaaaaaaaaaaaaaaaaaaaaaaaaaaaaaaaaaaaaaaaa"

-- A platform whose digests are short.
abbrev platform : Platform
platform = record exact_platform { sha256 = λ value. digest }

abbrev acme : TenantWorkspaceScope
acme = record { tenant_id = codes "acme"; workspace_id = codes "main" }

abbrev reviews_only : RoleSet
reviews_only reviewer = true
reviews_only _ = false

abbrev reviewer_named : Text → AuthenticatedPrincipal
reviewer_named subject = record { subject = subject; roles = reviews_only; scope = some acme }

abbrev request : Text → ℕ → Request
request id at = record {
  correlation_id = codes "c1";
  idempotency_key = none;
  occurred_at = record { aware = true; instant = at };
  now = record { aware = true; instant = at };
  event_id = id ++ codes "-event";
  audit_event = id ++ codes "-audit";
}

abbrev manifest : Fields
manifest = field (codes "artifact_id") (text (codes "a1")) (
    field (codes "revision") (text (codes "1"))
      (field (codes "sha256") (text digest) (field (codes "source") (text (codes "capture")) end)))

abbrev prefix : Text
prefix = codes "whscope1|4:acme4:main"

abbrev dataset : Text
dataset = codes "dataset:d1"

abbrev qualified : Text
qualified = prefix ++ codes "13:review_target10:dataset:d1"

abbrev review_key : Text → Text
review_key key = prefix ++ codes "18:review_idempotency2:" ++ key

-- What a reviewer's call stores, its idempotency key of two characters.
abbrev stored_row : ℕ → Text → Text → Text → Fields → ReviewEventRow
stored_row sequence key actor status detail = record {
  sequence = sequence;
  event_id = key ++ codes "-event";
  target_id = qualified;
  idempotency_key = review_key key;
  content_digest = digest;
  actor_id = actor;
  status = status;
  provenance = manifest;
  detail = detail;
  occurred_at = sequence;
}

abbrev approval : Fields
approval =
    field (codes "kind") (text (codes "dataset_approval"))
      (field (codes "decision") (text (codes "approve")) end)

abbrev promotion : Fields
promotion =
    field (codes "kind") (text (codes "dataset_promotion"))
      (field (codes "approval_count") (number 2) end)

abbrev by_ann : ReviewEventRow
by_ann = stored_row 1 (codes "k1") (codes "ann") (codes "pending") approval

abbrev by_bob : ReviewEventRow
by_bob = stored_row 2 (codes "k2") (codes "bob") (codes "pending") approval

abbrev promoted : ReviewEventRow
promoted = stored_row 3 (codes "k3") (codes "bob") (codes "approved") promotion

-- The service after both approvals and the promotion.
abbrev approved : ControlService
approved = record {
  store = record empty_db { review_events = by_ann ∷ by_bob ∷ promoted ∷ [] };
  retention = none;
}

-- The event of a row, in the words of its scope.
abbrev public_row : Text → ReviewEventRow → ReviewEvent
public_row key row = record (public_event platform row) {
  target_id = dataset;
  idempotency_key = key;
}

abbrev stored_events : List ReviewEvent
stored_events =
    public_event platform by_ann
    ∷ public_event platform by_bob
    ∷ public_event platform promoted
    ∷ []

abbrev shown_events : List ReviewEvent
shown_events =
    public_row (codes "k1") by_ann
    ∷ public_row (codes "k2") by_bob
    ∷ public_row (codes "k3") promoted
    ∷ []

abbrev bob : AuthenticatedPrincipal
bob = reviewer_named (codes "bob")

abbrev reading : Request
reading = request (codes "r") 4

dataset_code : Unit {0}
unfolding allows require state_from_events is_kind kind_prefix qualify scope_prefix unqualify
    validate_scope audit_context authorize decided require_scope public_review_event attempt ◌>>=◌
    list_scoped_review_events parse print
dataset_code = tt

authorized :
    (audit : AuditContext) × (authorize platform bob review_read dataset (unkeyed reading) approved
      ≡ (ok audit, approved))
unfolding dataset_code
authorized = (_, refl)

target :
    (qualify acme (codes "review_target") dataset ≡ ok qualified)
    × (is_candidate_review_target qualified ≡ false)
    × (is_blank qualified ≡ false)
unfolding dataset_code
target = (refl, refl, refl)

scoped : require_scope bob ≡ ok acme
unfolding dataset_code
scoped = refl

plain : is_candidate_review_target dataset ≡ false
unfolding dataset_code
plain = refl

stored :
    review_events_from_rows platform
      (numbered 1 (target_events qualified approved.store.review_events))
    ≡ ok stored_events
unfolding dataset_code
stored = refl

shown : each (public_review_event platform acme) stored_events ≡ ok shown_events
unfolding dataset_code
shown = refl

all_events_complete_example :
    all_events platform bob dataset reading approved ≡ (ok shown_events, approved)
all_events_complete_example =
    all_events_complete platform bob dataset qualified reading approved acme authorized.0
      stored_events shown_events scoped authorized.1 target.0 plain target.1 target.2 stored shown

abbrev state : DatasetApprovalState
state = record {
  dataset_id = codes "d1";
  target_id = dataset;
  status = codes "approved";
  approval_count = 2;
  approvers = codes "ann" ∷ codes "bob" ∷ [];
  manifest = manifest;
  last_event_id = codes "k3-event";
}

state_read : state_from_events (codes "d1") dataset shown_events ≡ ok (some state)
unfolding dataset_code
state_read = refl

is_approved : text_eq state.status (codes "approved") ≡ true
unfolding dataset_code
is_approved = refl

approved_by_two_example : ApprovedTwice state shown_events
approved_by_two_example =
    approved_by_two (codes "d1") dataset shown_events state state_read is_approved

abbrev ann : AuthenticatedPrincipal
ann = reviewer_named (codes "ann")

abbrev start : ControlService
start = record { store = empty_db; retention = none }

abbrev first_approval : Svc DatasetApprovalState
first_approval =
    approve_dataset platform ann (codes "d1") (codes "k1") manifest reading (request (codes "k1") 1)
      (request (codes "p1") 2)

abbrev pending : DatasetApprovalState
pending = record {
  dataset_id = codes "d1";
  target_id = dataset;
  status = codes "pending";
  approval_count = 1;
  approvers = codes "ann" ∷ [];
  manifest = manifest;
  last_event_id = codes "k1-event";
}

approval_code : Unit {0}
unfolding append_audit validate_audit_context action_value allows require role_values
    approve_dataset is_kind kind_prefix qualify scope_prefix unqualify validate_scope audit_context
    authorize decided require_scope list_reviews public_review_event attempt in_store read_store
    ◌>>=◌ append_review_event review_row list_scoped_review_events parse print
approval_code = tt

-- A first approval is appended and leaves the dataset pending.
approved_first : first_approval start ≡ (ok pending, (first_approval start).1)
unfolding approval_code
approved_first = refl

read-approve_example :
    read_dataset_approval_state platform ann (codes "d1") reading (first_approval start).1
    ≡ (ok (some pending), (first_approval start).1)
read-approve_example =
    read-approve platform ann (codes "d1") (codes "k1") manifest reading (request (codes "k1") 1)
      (request (codes "p1") 2) start (first_approval start).1 pending approved_first
