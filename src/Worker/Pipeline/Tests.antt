-- ===== src/Worker/Pipeline/Tests.antt =====
-- The timeline of concrete events, and the theorems applied to it.
use workflow_helper_public.Base.{ℕ, ◌≡◌, refl, List, [], ◌∷◌, Option, none, some, count, ◌&&◌, Bool}
use workflow_helper_public.Text.{Text, codes, text_eq}
use workflow_helper_public.Worker.Pipeline.{
  CadEvent, EventType, cad_command, foreground_changed, session_ended, summary_of, is_low_value,
  by_time, timeline_item, repeats, timeline_from, build_timeline, process_events, warnings_of,
  is_session_end, TimelineItem,
}
use workflow_helper_public.Worker.Pipeline.Timeline.{
  IsAscending, offsets, is_telling, tells, build_timeline-IsAscending, count-build_timeline,
  start_of, shown_from,
}

-- The code that a run goes through.
pipeline_code : Unit {0}
unfolding text_eq summary_of is_low_value by_time timeline_item repeats timeline_from build_timeline
    process_events warnings_of is_session_end
pipeline_code = tt

abbrev event_at : ℕ → EventType → Option Text → CadEvent
event_at n kind command = record {
  event_id = n ∷ [];
  occurred_at = n;
  event_type = kind;
  command_name = command;
  drawing_ref = none;
}

-- Out of order, and with the window changed three times in a row.
abbrev events : List CadEvent
events =
    event_at 9 session_ended none
    ∷ event_at 3 foreground_changed none
    ∷ event_at 5 cad_command (some (codes "LINE"))
    ∷ event_at 4 foreground_changed none
    ∷ event_at 6 foreground_changed none
    ∷ []

timeline_offsets : offsets (build_timeline events) ≡ 0 ∷ 2 ∷ 3 ∷ 6 ∷ []
unfolding pipeline_code
timeline_offsets = refl

timeline_warnings : (process_events (codes "s") events).warnings ≡ []
unfolding pipeline_code
timeline_warnings = refl

build_timeline-IsAscending_example : IsAscending 0 (offsets (build_timeline events))
build_timeline-IsAscending_example = build_timeline-IsAscending events

abbrev names_five : TimelineItem → Bool
names_five item = text_eq item.source_event_id (5 ∷ [])

count-build_timeline_example :
    count (λ item. tells item && names_five item) (build_timeline events)
    ≡ count (λ event. is_telling event && names_five (shown_from (start_of events) event)) events
count-build_timeline_example = count-build_timeline names_five events
