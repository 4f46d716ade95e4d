-- ===== src/Safety.antt =====
-- apps/api/src/workflow_api/safety_switches.py: switches that are engaged from the start, and the
-- evidence that they were engaged; and safety_control.py, which authorizes its use. No statement and
-- no operation can release a switch.
pub mod Engaged
mod Tests
use workflow_helper_public.Base.{
  ℕ, ◌+◌, Bool, true, false, not, ◌||◌, List, [], ◌∷◌, ◌++◌, Option, none, some, find, any, select,
  take, length, ltb, ◌==◌, if◌then◌else◌, value_error, conflict_error, control_store_error,
  integrity_error, Result, ok, err, Tx, ◌>>=◌, ◌>>◌, gets, modify, raise_if, require_row, pure,
  lift,
}
use workflow_helper_public.Text.{Text, codes, text_eq, strip}
use workflow_helper_public.Json.{Json, canonical_json, ascii_only}
use workflow_helper_public.Json
use workflow_helper_public.Platform.{Platform, Timestamp, from_micros, to_micros}
use workflow_helper_public.Auth.{AuthenticatedPrincipal, safety_read, safety_engage, require}

pub data SafetyDomain : Type 0 where
  capture ingest deterministic_processing analysis retention dataset_promotion : SafetyDomain

unfoldable pub domain_value : SafetyDomain → Text
domain_value capture = codes "capture"
domain_value ingest = codes "ingest"
domain_value deterministic_processing = codes "deterministic_processing"
domain_value analysis = codes "analysis"
domain_value retention = codes "retention"
domain_value dataset_promotion = codes "dataset_promotion"

-- `tuple(SafetyDomain)`
abbrev pub all_domains : List SafetyDomain
all_domains =
    capture ∷ ingest ∷ deterministic_processing ∷ analysis ∷ retention ∷ dataset_promotion ∷ []

abbrev has_value : Text → SafetyDomain → Bool
has_value value domain = text_eq (domain_value domain) value

-- `_domain`
unfoldable pub domain_of : Text → Result SafetyDomain
unfolding domain_value
domain_of value = elim (find (has_value value) all_domains) [
  | none ↦ err (value_error "unknown safety domain")
  | some domain ↦ ok domain
]

pub record SafetySwitchState : Type 0 where
  pub domain : SafetyDomain
  pub engaged : Bool

-- A row of `safety_switches`.
pub record SwitchRow : Type 0 where
  pub domain : SafetyDomain
  pub engaged : ℕ

-- A row of `safety_switch_events`.
pub record SafetyEventRow : Type 0 where
  pub sequence : ℕ
  pub event_id : Text
  pub domain : SafetyDomain
  pub idempotency_key : Text
  pub content_digest : Text
  pub actor_id : Text
  pub correlation_id : Text
  pub reason : Text
  pub occurred_at : ℕ

pub record SafetySwitchEvent : Type 0 where
  pub sequence : ℕ
  pub event_id : Text
  pub domain : SafetyDomain
  pub idempotency_key : Text
  pub actor_id : Text
  pub correlation_id : Text
  pub reason : Text
  pub occurred_at : Timestamp

pub record SafetyDb : Type 0 where
  pub switches : List SwitchRow
  pub events : List SafetyEventRow

engaged_rows : List SafetyDomain → List SwitchRow
engaged_rows [] = []
engaged_rows (domain ∷ domains) = record { domain = domain; engaged = 1 } ∷ engaged_rows domains

-- The database that `__init__` makes.
unfoldable pub initial : SafetyDb
unfolding engaged_rows
initial = record { switches = engaged_rows all_domains; events = [] }

abbrev pub is_switch : SafetyDomain → SwitchRow → Bool
is_switch domain row = text_eq (domain_value row.domain) (domain_value domain)

-- `_event`
unfoldable pub event_of : Platform → SafetyEventRow → SafetySwitchEvent
event_of platform row = record {
  sequence = row.sequence;
  event_id = row.event_id;
  domain = row.domain;
  idempotency_key = row.idempotency_key;
  actor_id = row.actor_id;
  correlation_id = row.correlation_id;
  reason = row.reason;
  occurred_at = from_micros platform row.occurred_at;
}

-- `_bounded_text`
unfoldable pub bounded_text : Text → Result Text
bounded_text value =
    if not (ltb 0 (length (strip value))) || ltb 256 (length (strip value))
    then err (value_error "must contain 1-256 characters")
    else ok (strip value)

unfoldable pub safety_digest : Platform → SafetyDomain → Text → Text → Text → Text
unfolding domain_value
safety_digest platform domain actor_id correlation_id reason = platform.sha256 (
    ascii_only (
      canonical_json (
        Json.object (
          Json.field (codes "domain") (Json.text (domain_value domain)) (
            Json.field (codes "actor_id") (Json.text actor_id) (
              Json.field (codes "correlation_id") (Json.text correlation_id) (
                Json.field (codes "reason") (Json.text reason) (
                  Json.field (codes "operation") (Json.text (codes "engage"))
                    (Json.field (codes "provider_call") (Json.boolean false) Json.end)))))))))

unfoldable pub read : Text → Tx SafetyDb SafetySwitchState
read value = do
  domain ← lift (domain_of value)
  found ← gets (λ db. find (is_switch domain) db.switches)
  row ← require_row found (control_store_error "safety switch is missing")
  pure (record { domain = row.domain; engaged = ltb 0 row.engaged })

read_each : List SafetyDomain → Tx SafetyDb (List SafetySwitchState)
read_each [] = pure []
read_each (domain ∷ domains) = do
  state ← read (domain_value domain)
  states ← read_each domains
  pure (state ∷ states)

unfoldable pub read_all : Tx SafetyDb (List SafetySwitchState)
unfolding read_each
read_all = read_each all_domains

abbrev pub has_key : Text → SafetyEventRow → Bool
has_key key row = text_eq row.idempotency_key key

abbrev pub has_event_id : Text → SafetyEventRow → Bool
has_event_id event_id row = text_eq row.event_id event_id

-- The row that `engage` inserts; the database gives it its sequence.
unfoldable pub engaged_event :
    SafetyDomain → Text → Text → Text → Text → Text → ℕ → Text → ℕ → SafetyEventRow
engaged_event domain key digest actor_id correlation_id reason occurred_us event_id sequence =
    record {
      sequence = sequence;
      event_id = event_id;
      domain = domain;
      idempotency_key = key;
      content_digest = digest;
      actor_id = actor_id;
      correlation_id = correlation_id;
      reason = reason;
      occurred_at = occurred_us;
    }

-- The transaction of `engage` when its key is new.
unfoldable pub engage_new :
    Platform → SafetyDomain → (ℕ → SafetyEventRow) → Tx SafetyDb SafetySwitchEvent
engage_new platform domain new = do
  found ← gets (λ db. find (is_switch domain) db.switches)
  state ← require_row found (control_store_error "safety switch is not in fail-safe engaged state")
  raise_if (not (state.engaged == 1))
      (control_store_error "safety switch is not in fail-safe engaged state")
  used ← gets (λ db. any (has_event_id (new 0).event_id) db.events)
  raise_if used (integrity_error "safety_switch_events.event_id")
  modify (λ db. record db { events = db.events ++ new (length db.events + 1) ∷ [] })
  written ← gets (λ db. find (has_event_id (new 0).event_id) db.events)
  row ← require_row written (control_store_error "safety evidence write could not be read back")
  pure (event_of platform row)

-- The transaction of `engage` by what it finds under the key.
unfoldable pub engage_found :
    Platform
    → SafetyDomain
    → Text
    → (ℕ → SafetyEventRow)
    → Option SafetyEventRow
    → Tx SafetyDb SafetySwitchEvent
engage_found platform domain digest new (some existing) = do
  raise_if (not (text_eq existing.content_digest digest))
      (conflict_error "idempotency key was already used for different safety evidence")
  pure (event_of platform existing)
engage_found platform domain digest new none = engage_new platform domain new

-- `engage`; `event_id` is what `uuid4()` gives.
unfoldable pub engage :
    Platform → Text → Text → Text → Text → Text → Timestamp → Text → Tx SafetyDb SafetySwitchEvent
engage platform value idempotency_key actor_id correlation_id reason now event_id = do
  domain ← lift (domain_of value)
  key ← lift (bounded_text idempotency_key)
  actor ← lift (bounded_text actor_id)
  correlation ← lift (bounded_text correlation_id)
  why ← lift (bounded_text reason)
  occurred_us ← lift (to_micros platform now)
  existing ← gets (λ db. find (has_key key) db.events)
  let digest = safety_digest platform domain actor correlation why
  engage_found platform domain digest
      (engaged_event domain key digest actor correlation why occurred_us event_id) existing

events_of : Platform → List SafetyEventRow → List SafetySwitchEvent
unfolding event_of
events_of platform [] = []
events_of platform (row ∷ rows) = event_of platform row ∷ events_of platform rows

-- `list_events`; an integer below 0 for `limit` is refused as 0 is.
unfoldable pub list_events : Platform → ℕ → ℕ → Tx SafetyDb (List SafetySwitchEvent)
unfolding events_of
list_events platform after_sequence limit = do
  raise_if (ltb limit 1 || ltb 100 limit) (value_error "safety event pagination is out of bounds")
  gets λ db.
      events_of platform
        (take limit (select (λ (row : SafetyEventRow). ltb after_sequence row.sequence) db.events))

-- `SafetyControlService.read_switch`, `read_all_switches` and `list_events`
module _ (platform : Platform) (principal : AuthenticatedPrincipal) where
  unfoldable pub read_switch : Text → Tx SafetyDb SafetySwitchState
  read_switch value = do lift (require principal safety_read); read value

  unfoldable pub read_all_switches : Tx SafetyDb (List SafetySwitchState)
  read_all_switches = do lift (require principal safety_read); read_all

  unfoldable pub list_switch_events : ℕ → ℕ → Tx SafetyDb (List SafetySwitchEvent)
  list_switch_events after_sequence limit = do
    lift (require principal safety_read)
    list_events platform after_sequence limit

  -- `SafetyControlService.engage`: the actor is the principal.
  unfoldable pub engage_switch :
      Text → Text → Text → Text → Timestamp → Text → Tx SafetyDb SafetySwitchEvent
  engage_switch value idempotency_key correlation_id reason now event_id = do
    lift (require principal safety_engage)
    engage platform value idempotency_key principal.subject correlation_id reason now event_id
