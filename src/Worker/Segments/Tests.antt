-- ===== src/Worker/Segments/Tests.antt =====
-- Segments of concrete events, and the theorem applied to them.
use workflow_helper_public.Base.{ℕ, ◌+◌, ◌≡◌, refl, true, List, [], ◌∷◌, Option, none, some, ok}
use workflow_helper_public.Text.{Text, codes, text_eq, is_blank, is_space}
use workflow_helper_public.Worker.Pipeline.{
  CadEvent, EventType, cad_command, session_ended, summary_of, is_low_value, insert_event, by_time,
  timeline_item, repeats, timeline_from, build_timeline,
}
use workflow_helper_public.Worker.Segments.{
  OperationSegment, is_unique, validate_values, operation_segment, metadata, segment_of, infer_item,
  infer, check_sources, check_segments, validate_operation_segments, event_ids, process_events_v2,
  ProcessingResultV2,
}
use workflow_helper_public.Worker.Segments.Valid.{process_events_v2_published}

-- The code that a run goes through.
segments_code : Unit {0}
unfolding text_eq is_blank is_space summary_of is_low_value insert_event by_time timeline_item
    repeats timeline_from build_timeline is_unique validate_values operation_segment metadata
    segment_of infer_item infer check_sources check_segments validate_operation_segments
segments_code = tt

abbrev event_at : ℕ → EventType → Option Text → Option Text → CadEvent
event_at n kind command drawing = record {
  event_id = n ∷ [];
  occurred_at = n;
  event_type = kind;
  command_name = command;
  drawing_ref = drawing;
}

-- Two commands, the earlier one last, and a command on no drawing.
abbrev events : List CadEvent
events =
    event_at 7 cad_command (some (codes "LINE")) (some (codes "a.dwg"))
    ∷ event_at 9 cad_command (some (codes "MOVE")) none
    ∷ event_at 10 session_ended none none
    ∷ event_at 5 cad_command (some (codes "TRIM")) (some (codes "a.dwg"))
    ∷ []

abbrev segment_at : ℕ → ℕ → Text → Text → OperationSegment
segment_at sequence n command summary = record {
  sequence = sequence;
  start_offset = n;
  end_offset = n;
  command_names = command ∷ [];
  drawing_ref = codes "a.dwg";
  summary = summary;
  source_event_ids = ((n + 5) ∷ []) ∷ [];
}

abbrev segments : List OperationSegment
segments =
    segment_at 1 0 (codes "TRIM") (codes "AutoCAD command: TRIM")
    ∷ segment_at 2 2 (codes "LINE") (codes "AutoCAD command: LINE")
    ∷ []

events_unique : is_unique (event_ids events) ≡ true
unfolding segments_code
events_unique = refl

segments_inferred : infer events (build_timeline events) [] 0 ≡ ok (segments, 1)
unfolding segments_code
segments_inferred = refl

process_events_v2_published_example :
    (result : ProcessingResultV2) × (process_events_v2 (codes "s") events ≡ ok result)
    × (result.operation_segments ≡ segments)
    × (result.base.timeline ≡ build_timeline events)
process_events_v2_published_example =
    process_events_v2_published (codes "s") events segments 1 events_unique segments_inferred
