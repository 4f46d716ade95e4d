-- ===== src/Safety/Tests.antt =====
-- Engagements at a concrete ledger, and the theorems applied to it.
use workflow_helper_public.Base.{ℕ, ◌*◌, ◌≡◌, refl, true, [], ◌∷◌, ok, err, conflict_error}
use workflow_helper_public.Text.{Text, codes, text_eq, is_space, strip}
use workflow_helper_public.Platform.{Timestamp, exact_platform}
use workflow_helper_public.Safety.{
  SafetySwitchEvent, SafetyDb, analysis, initial, domain_value, domain_of, event_of, bounded_text,
  safety_digest, read_all, engaged_event, engage_new, engage_found, engage,
}
use workflow_helper_public.Safety.Engaged.{
  EngageCall, engaged_by, after, engaged_states, engage_idempotent, all_engaged,
}
use workflow_helper_public.Json.{ascii_only, canonical_json}
use workflow_helper_public.Text.Order.{text_lt}

-- The code that a run goes through.
safety_code : Unit {0}
unfolding canonical_json text_lt text_eq is_space strip initial domain_value domain_of event_of
    bounded_text safety_digest ascii_only engaged_event engage_new engage_found engage after
safety_code = tt

abbrev minute : ℕ → Timestamp
minute n = record { aware = true; instant = n * 60000000 }

abbrev call_for : Text → Text → EngageCall
call_for reason event_id = record {
  domain = codes "analysis";
  idempotency_key = codes "k1";
  actor_id = codes "steward-1";
  correlation_id = codes "r1";
  reason = reason;
  now = minute 1;
  event_id = event_id;
}

abbrev first_call : EngageCall
first_call = call_for (codes " drill ") (codes "e1")

abbrev event : SafetySwitchEvent
event = record {
  sequence = 1;
  event_id = codes "e1";
  domain = analysis;
  idempotency_key = codes "k1";
  actor_id = codes "steward-1";
  correlation_id = codes "r1";
  reason = codes "drill";
  occurred_at = minute 1;
}

abbrev after_first : SafetyDb
after_first = after exact_platform (first_call ∷ []) initial

engaged_once : engaged_by exact_platform first_call initial ≡ ok (event, after_first)
unfolding safety_code
engaged_once = refl

-- The key with other evidence.
other_reason_conflicts :
    engaged_by exact_platform (call_for (codes "fire") (codes "e2")) after_first
    ≡ err (conflict_error "idempotency key was already used for different safety evidence")
unfolding safety_code
other_reason_conflicts = refl

engage_idempotent_example :
    engaged_by exact_platform
      (record first_call { now = minute 9; event_id = codes "e3" })
      (after exact_platform (call_for (codes "fire") (codes "e2") ∷ []) after_first)
    ≡ ok (event, after exact_platform (call_for (codes "fire") (codes "e2") ∷ []) after_first)
engage_idempotent_example =
    engage_idempotent exact_platform first_call initial after_first event
      (call_for (codes "fire") (codes "e2") ∷ []) (minute 9) (codes "e3") engaged_once refl

all_engaged_example : read_all after_first ≡ ok (engaged_states, after_first)
all_engaged_example = all_engaged exact_platform (first_call ∷ [])
