-- ===== src/Worker/Pipeline.antt =====
-- apps/worker/src/workflow_worker/pipeline.py, with the events and results of models.py. Times are
-- instants in microseconds, and so are offsets: the division that makes seconds of them is exact in
-- the order and range that the code compares.
pub mod Timeline
mod Tests
use workflow_helper_public.Base.{
  ℕ, ◌-◌, Bool, true, false, not, ◌&&◌, List, [], ◌∷◌, ◌++◌, Option, none, some, any, length, leb,
  if◌then◌else◌,
}
use workflow_helper_public.Text.{Text, codes, opt_text_eq}

pub data EventType : Type 0 where
  session_started session_paused session_resumed session_ended drawing_opened : EventType
  drawing_saved drawing_closed cad_command foreground_changed idle_started idle_ended : EventType

-- `CadEvent`, without the fields that the worker never reads. Its time is an instant: the events of a
-- package all have a time zone or all have none, as `sorted` raises TypeError for a mixture.
pub record CadEvent : Type 0 where
  pub event_id : Text
  pub occurred_at : ℕ
  pub event_type : EventType
  pub command_name : Option Text
  pub drawing_ref : Option Text

pub record TimelineItem : Type 0 where
  pub offset : ℕ
  pub event_type : EventType
  pub summary : Text
  pub source_event_id : Text

pub record ProcessingResult : Type 0 where
  pub session_id : Text
  pub event_count : ℕ
  pub meaningful_event_count : ℕ
  pub timeline : List TimelineItem
  pub keyframes : List Text
  pub warnings : List Text

-- The `labels` of `_summary`, and the text that is made of the type's name where there is none.
label : EventType → Text
label session_started = codes "Approved CAD session started"
label session_paused = codes "Capture paused"
label session_resumed = codes "Capture resumed"
label session_ended = codes "Approved CAD session ended"
label drawing_opened = codes "Drawing opened"
label drawing_saved = codes "Drawing saved"
label drawing_closed = codes "Drawing closed"
label idle_started = codes "Idle interval started"
label idle_ended = codes "Idle interval ended"
label cad_command = codes "Cad command"
label foreground_changed = codes "Foreground changed"

-- `_summary`; an empty command name counts as none.
unfoldable pub summary_of : CadEvent → Text
unfolding label
summary_of event = named event.event_type event.command_name
  where
    named : EventType → Option Text → Text
    named cad_command (some (c ∷ name)) = codes "AutoCAD command: " ++ c ∷ name
    named kind _ = label kind

-- `event.event_type in LOW_VALUE_EVENT_TYPES`
unfoldable pub is_low_value : EventType → Bool
is_low_value foreground_changed = true
is_low_value _ = false

unfoldable pub is_session_end : EventType → Bool
is_session_end session_ended = true
is_session_end _ = false

unfoldable pub insert_event : CadEvent → List CadEvent → List CadEvent
insert_event x [] = x ∷ []
insert_event x (y ∷ ys) =
    let rest = insert_event x ys in if leb x.occurred_at y.occurred_at then x ∷ y ∷ ys else y ∷ rest

-- `sorted(events, key=lambda value: value.occurred_at)`, a stable sort.
unfoldable pub by_time : List CadEvent → List CadEvent
unfolding insert_event
by_time [] = []
by_time (x ∷ xs) = insert_event x (by_time xs)

unfoldable pub timeline_item : ℕ → CadEvent → TimelineItem
unfolding summary_of
timeline_item session_start event = record {
  offset = event.occurred_at - session_start;
  event_type = event.event_type;
  summary = summary_of event;
  source_event_id = event.event_id;
}

-- `signature == previous_signature` for a low-value event: the types are the same, as there is one
-- low-value type, so the command names decide.
unfoldable pub repeats : Option CadEvent → CadEvent → Bool
unfolding is_low_value
repeats none event = false
repeats (some previous) event =
    is_low_value previous.event_type && opt_text_eq previous.command_name event.command_name

-- The loop of `build_timeline`, with the event that the previous signature is of.
unfoldable pub timeline_from : ℕ → Option CadEvent → List CadEvent → List TimelineItem
unfolding repeats is_low_value timeline_item
timeline_from session_start previous [] = []
timeline_from session_start previous (event ∷ rest) =
    let skipped = timeline_from session_start previous rest in
    let kept = timeline_from session_start (some event) rest in
    if is_low_value event.event_type && repeats previous event
    then skipped
    else timeline_item session_start event ∷ kept

-- `build_timeline`
unfoldable pub build_timeline : List CadEvent → List TimelineItem
unfolding by_time timeline_from
build_timeline events = from_first (by_time events)
  where
    from_first : List CadEvent → List TimelineItem
    from_first [] = []
    from_first (first ∷ rest) = timeline_from first.occurred_at none (first ∷ rest)

unfoldable pub warnings_of : List CadEvent → List Text
unfolding is_session_end
warnings_of events =
    no_events events
    ++ (if not (any (λ (event : CadEvent). is_session_end event.event_type) events)
        then codes "Session end event is missing; package may be incomplete." ∷ []
        else [])
  where
    no_events : List CadEvent → List Text
    no_events [] = codes "No CAD events were present; review the capture integration." ∷ []
    no_events (event ∷ rest) = []

-- `process_events`
unfoldable pub process_events : Text → List CadEvent → ProcessingResult
unfolding build_timeline warnings_of
process_events session_id events = record {
  session_id = session_id;
  event_count = length events;
  meaningful_event_count = length (build_timeline events);
  timeline = build_timeline events;
  keyframes = [];
  warnings = warnings_of events;
}
