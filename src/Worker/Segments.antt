-- ===== src/Worker/Segments.antt =====
-- apps/worker/src/workflow_worker/processing_v2.py: operation segments inferred from a timeline, and
-- the validation of the result that is published. Offsets are microseconds, as in Pipeline.
pub mod Sources
pub mod Valid
mod Tests
use workflow_helper_public.Base.{
  ℕ, ◌+◌, ◌*◌, Bool, true, false, not, ◌&&◌, ◌||◌, List, [], ◌∷◌, ◌++◌, Option, none, some, any,
  all, find, length, ltb, leb, ◌==◌, if◌then◌else◌, value_error, key_error, Result, ok, err,
  reject_if,
}
use workflow_helper_public.Text.{Text, codes, text_eq, is_blank}
use workflow_helper_public.Text.Decimal.{print}
use workflow_helper_public.Audit.{contains, ◌then_check◌}
use workflow_helper_public.Worker.Pipeline.{
  EventType, cad_command, CadEvent, TimelineItem, ProcessingResult, process_events,
}

abbrev pub max_operation_segments : ℕ
max_operation_segments = 1000

-- `MAX_OPERATION_OFFSET_SECONDS`, in microseconds
abbrev pub max_operation_offset : ℕ
max_operation_offset = 604800 * 1000000

pub record OperationSegment : Type 0 where
  pub sequence : ℕ
  pub start_offset : ℕ
  pub end_offset : ℕ
  pub command_names : List Text
  pub drawing_ref : Text
  pub summary : Text
  pub source_event_ids : List Text

-- `len(set(values)) == len(values)`
unfoldable pub is_unique : List Text → Bool
is_unique [] = true
is_unique (value ∷ values) = not (contains values value) && is_unique values

abbrev bounded : ℕ → ℕ → ℕ → Bool
bounded low high n = leb low n && leb n high

-- The fields' bounds and `validate_values`.
unfoldable pub validate_values : OperationSegment → Result (Unit {0})
unfolding is_unique
validate_values segment =
    reject_if (not (bounded 1 max_operation_segments segment.sequence)) (value_error "sequence")
    then_check reject_if (ltb max_operation_offset segment.start_offset)
        (value_error "start_offset_seconds")
    then_check reject_if (ltb max_operation_offset segment.end_offset)
        (value_error "end_offset_seconds")
    then_check reject_if (not (bounded 1 64 (length segment.command_names)))
        (value_error "command_names")
    then_check reject_if (not (bounded 1 255 (length segment.drawing_ref)))
        (value_error "drawing_ref")
    then_check reject_if (not (bounded 1 512 (length segment.summary))) (value_error "summary")
    then_check reject_if (not (bounded 1 256 (length segment.source_event_ids)))
        (value_error "source_event_ids")
    then_check reject_if (not (is_unique segment.command_names))
        (value_error "command_names must be unique")
    then_check reject_if (not (all (λ name. bounded 1 128 (length name)) segment.command_names))
        (value_error "command_names must contain bounded non-empty strings")
    then_check reject_if (not (is_unique segment.source_event_ids))
        (value_error "source_event_ids must be unique")
    then_check reject_if (ltb segment.end_offset segment.start_offset)
        (value_error "operation segment bounds are reversed")

-- `OperationSegment(...)`
unfoldable pub operation_segment : OperationSegment → Result OperationSegment
operation_segment segment = elim (validate_values segment) [ err e ↦ err e | ok _ ↦ ok segment ]

abbrev pub has_id : Text → CadEvent → Bool
has_id id event = text_eq event.event_id id

abbrev pub is_item : Text → TimelineItem → Bool
is_item id item = text_eq item.source_event_id id

-- `source.event_type != EventType.CAD_COMMAND`
abbrev pub is_command : EventType → Bool
is_command cad_command = true
is_command _ = false

-- The command and the drawing of an event, where neither is missing or blank.
unfoldable pub metadata : CadEvent → Option (Text × Text)
metadata source = both source.command_name source.drawing_ref
  where
    both : Option Text → Option Text → Option (Text × Text)
    both (some command) (some drawing) =
        if is_blank command || is_blank drawing then none else some (command, drawing)
    both _ _ = none

-- The segment that the item of a command becomes.
unfoldable pub segment_of : ℕ → TimelineItem → Text → Text → OperationSegment
segment_of sequence item command drawing = record {
  sequence = sequence;
  start_offset = item.offset;
  end_offset = item.offset;
  command_names = command ∷ [];
  drawing_ref = drawing;
  summary = item.summary;
  source_event_ids = item.source_event_id ∷ [];
}

-- One turn of the loop of `process_events_v2`: the segments and the count of commands without
-- metadata.
unfoldable pub infer_item :
    TimelineItem → CadEvent → List OperationSegment → ℕ → Result (List OperationSegment × ℕ)
unfolding metadata operation_segment segment_of
infer_item item source segments missing =
    if not (is_command source.event_type) then ok (segments, missing) else elim (metadata source) [
      | none ↦ ok (segments, missing + 1)
      | some (command, drawing) ↦
          if leb max_operation_segments (length segments)
          then err (value_error "operation segment count exceeds 1000")
          else if ltb max_operation_offset item.offset
          then err (value_error "qualifying command offset is outside the finite published range")
          else elim (operation_segment (segment_of (length segments + 1) item command drawing)) [
            | err e ↦ err e
            | ok segment ↦ ok (segments ++ segment ∷ [], missing)
          ]
    ]

unfoldable pub infer :
    List CadEvent
    → List TimelineItem
    → List OperationSegment
    → ℕ
    → Result (List OperationSegment × ℕ)
unfolding infer_item
infer events [] segments missing = ok (segments, missing)
infer events (item ∷ rest) segments missing = elim (find (has_id item.source_event_id) events) [
  | none ↦ err key_error
  | some source ↦ elim (infer_item item source segments missing) [
    | err e ↦ err e
    | ok (segments', missing') ↦ infer events rest segments' missing'
  ]
]

-- The sources of a segment against the timeline; the identifiers used so far, and then those too.
unfoldable pub check_sources :
    List TimelineItem → ℕ → ℕ → List Text → List Text → Result (List Text)
check_sources timeline start_offset end_offset used [] = ok used
check_sources timeline start_offset end_offset used (id ∷ ids) = elim (find (is_item id) timeline) [
  | none ↦ err (value_error "operation segment source evidence is not in the timeline")
  | some item ↦
      elim (reject_if (contains used id)
        (value_error "timeline source evidence is assigned more than once")) [
          | err e ↦ err e
          | ok _ ↦
              elim (reject_if (not (leb start_offset item.offset && leb item.offset end_offset))
                (value_error "timeline source evidence is outside segment bounds")) [
                  | err e ↦ err e
                  | ok _ ↦ check_sources timeline start_offset end_offset (id ∷ used) ids
                ]
        ]
]

-- The loop of `validate_operation_segments`. No offset is below `previous_end` at its start, which is
-- -1.0 there and 0 here.
unfoldable pub check_segments :
    List TimelineItem → ℕ → ℕ → List Text → List OperationSegment → Result (Unit {0})
unfolding check_sources
check_segments timeline expected_sequence previous_end used [] = ok tt
check_segments timeline expected_sequence previous_end used (segment ∷ rest) =
    reject_if (not (segment.sequence == expected_sequence))
      (value_error "operation segment sequence must be contiguous")
    then_check reject_if (ltb segment.end_offset segment.start_offset)
        (value_error "operation segment bounds are reversed")
    then_check reject_if (ltb segment.start_offset previous_end)
        (value_error "operation segments overlap or are unordered")
    then_check elim (check_sources timeline segment.start_offset segment.end_offset used
        segment.source_event_ids) [
          | err e ↦ err e
          | ok used' ↦ check_segments timeline (expected_sequence + 1) segment.end_offset used' rest
        ]

abbrev pub source_ids : List TimelineItem → List Text
source_ids [] = []
source_ids (item ∷ items) = item.source_event_id ∷ source_ids items

-- `validate_operation_segments`
unfoldable pub validate_operation_segments :
    List TimelineItem → List OperationSegment → Result (Unit {0})
unfolding is_unique check_segments
validate_operation_segments timeline segments =
    reject_if (ltb max_operation_segments (length segments)) (value_error "operation_segments")
    then_check reject_if (not (is_unique (source_ids timeline)))
        (value_error "timeline source_event_id values must be unique")
    then_check check_segments timeline 1 0 [] segments

pub record ProcessingResultV2 : Type 0 where
  pub base : ProcessingResult
  pub operation_segments : List OperationSegment

abbrev pub event_ids : List CadEvent → List Text
event_ids [] = []
event_ids (event ∷ events) = event.event_id ∷ event_ids events

missing_warning : ℕ → List Text
missing_warning missing =
    if missing == 0
    then []
    else (print missing
        ++ codes
            " CAD command timeline event(s) lacked nonblank command_name or drawing_ref; no operation segment was inferred.")
      ∷ []

-- `process_events_v2`, with the validation that the construction of its result runs.
unfoldable pub process_events_v2 : Text → List CadEvent → Result ProcessingResultV2
unfolding is_unique infer validate_operation_segments missing_warning process_events
process_events_v2 session_id events =
    if not (is_unique (event_ids events))
    then err (value_error "source event_id values must be unique")
    else let base = process_events session_id events in
      elim (infer events base.timeline [] 0) [
        | err e ↦ err e
        | ok (segments, missing) ↦ elim (validate_operation_segments base.timeline segments) [
          | err e ↦ err e
          | ok _ ↦ ok (record {
            base = record base { warnings = base.warnings ++ missing_warning missing };
            operation_segments = segments;
          })
        ]
      ]
