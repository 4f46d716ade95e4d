-- ===== src/Worker/Completion/Tests.antt =====
-- A session without commands is processed and its completion sent.
use workflow_helper_public.Base.{
  ◌≡◌, refl, true, ◌↔◌, List, [], ◌∷◌, none, ok, Option, some, err, value_error, Result,
}
use workflow_helper_public.Text.{Text, codes}
use workflow_helper_public.Json.{Fields, end, Json, text, field, get_field}
use workflow_helper_public.Platform.{Platform, exact_platform}
use workflow_helper_public.Checks.{is_sha256}
use workflow_helper_public.Worker.Pipeline.{CadEvent, session_ended}
use workflow_helper_public.Worker.Segments.{ProcessingResultV2, process_events_v2}
use workflow_helper_public.Worker.Completion.{
  ProcessingCompletionV2, session_key, as_result, payload_digest, completion_for_v2,
  processing_completion_v2,
}
use workflow_helper_public.Worker.Completion.Sent.{IsSessionId, completion_for_v2_iff}

abbrev digest : Text
digest = codes "aaaaaaaaaaaaaaaaaaaaaaaaaaaaaaaaaaaaaaaaaaaaaaaaaaaaaaaaaaaaaaaa"

abbrev platform : Platform
platform = record exact_platform { sha256 = λ value. digest }

abbrev session : Text
session = codes "00000000-0000-4000-8000-000000000001"

abbrev events : List CadEvent
events =
    record {
      event_id = codes "e1";
      occurred_at = 5;
      event_type = session_ended;
      command_name = none;
      drawing_ref = none;
    }
    ∷ []

abbrev result : ProcessingResultV2
result = record {
  base = record {
    session_id = session;
    event_count = 1;
    meaningful_event_count = 1;
    timeline =
        record {
          offset = 0;
          event_type = session_ended;
          summary = codes "Approved CAD session ended";
          source_event_id = codes "e1";
        }
        ∷ [];
    keyframes = [];
    warnings = [];
  };
  operation_segments = [];
}

-- Results that differ in their session only, as JSON.
abbrev dump : ProcessingResultV2 → Fields
dump value = field (codes "session_id") (text value.base.session_id) end

abbrev load_session : Option Json → Result ProcessingResultV2
load_session (some (text id)) = ok (record result { base = record result.base { session_id = id } })
load_session _ = err (value_error "session_id")

abbrev load : Fields → Result ProcessingResultV2
load fields = load_session (get_field (codes "session_id") fields)

abbrev same_values : ProcessingResultV2 → ProcessingResultV2
same_values value = value

abbrev output_key : Text
output_key = session_key session (codes "/timeline-v2.json")

completion_code : Unit {0}
unfolding processing_completion_v2 process_events_v2 get_field
completion_code = tt

digest_hex : (value : Text) → is_sha256 (platform.sha256 value) ≡ true
unfolding completion_code
digest_hex value = refl

named : IsSessionId session
unfolding completion_code
named = (refl, refl)

made : process_events_v2 session events ≡ ok result
unfolding completion_code
made = refl

read_back : load (dump result) ≡ ok result
unfolding completion_code
read_back = refl

completion_for_v2_iff_example :
    ((completion : ProcessingCompletionV2) × (completion_for_v2 platform dump load result output_key
        ≡ ok completion)
      × (as_result same_values (λ value. ok value) completion ≡ ok result)
      × (completion.idempotency_key ≡ payload_digest platform dump load (dump result) output_key))
    ↔ (output_key ≡ session_key session (codes "/timeline-v2.json"))
completion_for_v2_iff_example =
    completion_for_v2_iff platform dump load digest_hex same_values (λ value. ok value) session
      events result output_key named made read_back refl
