-- ===== src/Worker/Segments/Valid.antt =====
-- What inference builds passes the validation of the published result.
use workflow_helper_public.Base.{
  ℕ, ◌+◌, ◌≤◌, ◌<◌, ◌≡◌, refl, sym, ap, ◌∙◌, ◌⊎◌, inl, inr, true, false, List, [], ◌∷◌, ◌++◌,
  append_assoc, append-nil, Option, none, some, arith, find, length, length-append, leb, ltb, ok,
  ◌==◌, Every, Bool-cases, after_ok, after_some,
}
use workflow_helper_public.Text.{Text}
use workflow_helper_public.Text.Equality.{text_eq_iff, text_eq_refl}
use workflow_helper_public.Audit.{contains}
use workflow_helper_public.Worker.Pipeline.{CadEvent, TimelineItem, build_timeline, process_events}
use workflow_helper_public.Worker.Pipeline.Timeline.{
  IsAscending, IsAscending-weaken, offsets, build_timeline-IsAscending,
}
use workflow_helper_public.Worker.Segments.Sources.{unique-build_timeline}
use workflow_helper_public.Worker.Segments.{
  OperationSegment, operation_segment, metadata, segment_of, infer_item, infer, check_sources,
  check_segments, source_ids, is_unique, is_item, has_id, is_command, max_operation_segments,
  validate_operation_segments, process_events_v2, ProcessingResultV2, event_ids,
}

-- Segments made of some of the items, in their order and numbered without a gap.
data FromTimeline : List TimelineItem → ℕ → List OperationSegment → Type 0 where
  done : {n : ℕ} → FromTimeline [] n []
  skip :
      (item : TimelineItem) {items : List TimelineItem} {n : ℕ} {segments : List OperationSegment}
      → FromTimeline items n segments
      → FromTimeline (item ∷ items) n segments
  take :
      (item : TimelineItem) (command drawing : Text) {items : List TimelineItem} {n : ℕ}
      {segments : List OperationSegment}
      → FromTimeline items (n + 1) segments
      → FromTimeline (item ∷ items) n (segment_of n item command drawing ∷ segments)

infer_item-cases :
    (item : TimelineItem) (source : CadEvent) (segments : List OperationSegment) (missing : ℕ)
    (segments' : List OperationSegment) (missing' : ℕ)
    → infer_item item source segments missing ≡ ok (segments', missing')
    → (segments' ≡ segments)
      ⊎ ((command : Text) × (drawing : Text) × (segments'
            ≡ segments ++ segment_of (length segments + 1) item command drawing ∷ [])
          × (length segments < max_operation_segments))
unfolding infer_item operation_segment
infer_item-cases item source segments missing segments' missing' h =
    by_metadata (metadata source) refl
  where
    by_metadata :
        (m : Option (Text × Text))
        → metadata source ≡ m
        → (segments' ≡ segments)
          ⊎ ((command : Text) × (drawing : Text) × (segments'
                ≡ segments ++ segment_of (length segments + 1) item command drawing ∷ [])
              × (length segments < max_operation_segments))
    by_metadata none p = inl (ground arith)
    by_metadata (some (command, drawing)) p = elim (Bool-cases (is_command source.event_type)) [
      | inr e ↦ inl (ground arith)
      | inl e ↦ inr (command, drawing, ground arith, ground arith)
    ]

abbrev IsLocated : List TimelineItem → List TimelineItem → Type 0
IsLocated timeline items =
    Every (λ (item : TimelineItem). find (is_item item.source_event_id) timeline ≡ some item) items

abbrev IsFresh : List Text → List TimelineItem → Type 0
IsFresh used items =
    Every (λ (item : TimelineItem). contains used item.source_event_id ≡ false) items

IsFresh-after :
    (used : List Text) (id : Text) (items : List TimelineItem)
    → contains (source_ids items) id ≡ false
    → IsFresh used items
    → IsFresh (id ∷ used) items
IsFresh-after used id [] h f = tt
IsFresh-after used id (item ∷ items) h (f, fs) = (
  ground (arith, text_eq_iff item.source_event_id id, text_eq_iff id item.source_event_id),
  IsFresh-after used id items (ground arith) fs,
)

IsLocated-after :
    (first : TimelineItem) (timeline items : List TimelineItem)
    → contains (source_ids items) first.source_event_id ≡ false
    → IsLocated timeline items
    → IsLocated (first ∷ timeline) items
IsLocated-after first timeline [] h l = tt
IsLocated-after first timeline (item ∷ items) h (l, ls) = (
  ground (
    arith,
    text_eq_iff item.source_event_id first.source_event_id,
    text_eq_iff first.source_event_id item.source_event_id,
  ),
  IsLocated-after first timeline items (ground arith) ls,
)

unique-IsLocated :
    (timeline : List TimelineItem)
    → is_unique (source_ids timeline) ≡ true
    → IsLocated timeline timeline
unfolding is_unique
unique-IsLocated [] h = tt
unique-IsLocated (item ∷ items) h = (
  rw (text_eq_refl item.source_event_id) refl,
  IsLocated-after item items items (ground arith) (unique-IsLocated items (ground arith)),
)

check_segments-FromTimeline :
    (timeline items : List TimelineItem) (n previous : ℕ) (used : List Text)
    (segments : List OperationSegment)
    → FromTimeline items n segments
    → IsLocated timeline items
    → is_unique (source_ids items) ≡ true
    → IsFresh used items
    → IsAscending previous (offsets items)
    → check_segments timeline n previous used segments ≡ ok tt
unfolding check_segments check_sources segment_of is_unique
check_segments-FromTimeline timeline [] n previous used [] done l u f a = refl
check_segments-FromTimeline timeline [] n previous used (segment ∷ segments) from l u f a =
    elim from [ ]
check_segments-FromTimeline timeline (item ∷ items) n previous used segments (skip _ from) (l, ls) u
      (f, fs) (a, later) =
    check_segments-FromTimeline timeline items n previous used segments from ls (ground arith) fs
      (IsAscending-weaken previous item.offset (offsets items) a later)
check_segments-FromTimeline timeline (item ∷ items) n previous used (segment ∷ segments)
      (take _ command drawing from) (l, ls) u (f, fs) (a, later) =
    let rest =
      check_segments-FromTimeline timeline items (n + 1) item.offset (item.source_event_id ∷ used)
        segments from ls (ground arith)
        (IsFresh-after used item.source_event_id items (ground arith) fs) later in
    let same : (n == n) ≡ true = ground arith in
    let inside : leb item.offset item.offset ≡ true = ground arith in
    let straight : ltb item.offset item.offset ≡ false = ground arith in
    let in_order : ltb item.offset previous ≡ false = ground arith in
    rw (same, straight, in_order, l, f, inside) rest

-- What a stretch of the timeline adds to the segments.
abbrev Adds : List TimelineItem → List OperationSegment → List OperationSegment → Type 0
Adds items segments segments' =
    (new : List OperationSegment) × (segments' ≡ segments ++ new)
    × FromTimeline items (length segments + 1) new
    × (length segments' ≤ max_operation_segments)

-- The inference from the rest of the timeline, for whatever segments there are by then.
abbrev AddsLater : List CadEvent → List TimelineItem → List OperationSegment → ℕ → Type 0
AddsLater events items segments' missing' =
    (s : List OperationSegment) (m : ℕ)
    → length s ≤ max_operation_segments
    → infer events items s m ≡ ok (segments', missing')
    → Adds items s segments'

infer_item-Adds :
    (events : List CadEvent) (item : TimelineItem) (items : List TimelineItem) (source : CadEvent)
    (segments s : List OperationSegment) (missing m : ℕ) (segments' : List OperationSegment)
    (missing' : ℕ)
    → length segments ≤ max_operation_segments
    → AddsLater events items segments' missing'
    → infer_item item source segments missing ≡ ok (s, m)
    → infer events items s m ≡ ok (segments', missing')
    → Adds (item ∷ items) segments segments'
infer_item-Adds events item items source segments s missing m segments' missing' b later p h =
    elim (infer_item-cases item source segments missing s m p) [
      | inl same ↦
          let (new, e, from, b') = later segments m b (rw same at h) in (new, e, skip item from, b')
      | inr (command, drawing, added, room) ↦
          let segment = segment_of (length segments + 1) item command drawing in
          let grown : length s ≡ length segments + 1 =
            ap length added ∙ length-append segments (segment ∷ []) in
          let (new, e, from, b') = later s m (omega arith) h in
          (
            segment ∷ new,
            e
                ∙ ap (λ (xs : List OperationSegment). xs ++ new) added
                ∙ append_assoc segments (segment ∷ []) new,
            take item command drawing (rw grown at from),
            b',
          )
    ]

infer-Adds :
    (events : List CadEvent) (items : List TimelineItem) (segments : List OperationSegment)
    (missing : ℕ) (segments' : List OperationSegment) (missing' : ℕ)
    → length segments ≤ max_operation_segments
    → infer events items segments missing ≡ ok (segments', missing')
    → Adds items segments segments'
unfolding infer
infer-Adds events [] segments missing segments' missing' b h =
    let same : segments' ≡ segments = ground arith in
    ([], same ∙ sym (append-nil segments), done, rw same b)
infer-Adds events (item ∷ items) segments missing segments' missing' b h =
    let (source, _, inferred) = after_some (find (has_id item.source_event_id) events) _ _ h in
    let ((s, m), turn, later) =
      after_ok (infer_item item source segments missing) (λ (s, m). infer events items s m)
        inferred in
    infer_item-Adds events item items source segments s missing m segments' missing' b
      (λ s m b e. infer-Adds events items s m segments' missing' b e) turn later

nothing_used : (items : List TimelineItem) → IsFresh [] items
nothing_used [] = tt
nothing_used (item ∷ items) = (refl, nothing_used items)

validated :
    (timeline : List TimelineItem) (events : List CadEvent) (segments : List OperationSegment)
    (missing : ℕ)
    → is_unique (source_ids timeline) ≡ true
    → IsAscending 0 (offsets timeline)
    → infer events timeline [] 0 ≡ ok (segments, missing)
    → validate_operation_segments timeline segments ≡ ok tt
unfolding validate_operation_segments
validated timeline events segments missing unique ascending h =
    let (new, e, from, b) = infer-Adds events timeline [] 0 segments missing (omega arith) h in
    let checked =
      check_segments-FromTimeline timeline timeline 1 0 [] new from
        (unique-IsLocated timeline unique) unique (nothing_used timeline) ascending in
    let few : ltb max_operation_segments (length segments) ≡ false = ground arith in
    rw (few, unique, e) checked

-- Events with identifiers of their own, of which segments are inferred: the result passes the whole
-- validation that its construction runs, so `process_events_v2` returns it, with those segments.
pub process_events_v2_published :
    (session_id : Text) (events : List CadEvent) (segments : List OperationSegment) (missing : ℕ)
    → is_unique (event_ids events) ≡ true
    → infer events (build_timeline events) [] 0 ≡ ok (segments, missing)
    → (result : ProcessingResultV2) × (process_events_v2 session_id events ≡ ok result)
      × (result.operation_segments ≡ segments)
      × (result.base.timeline ≡ build_timeline events)
unfolding process_events_v2 process_events
process_events_v2_published session_id events segments missing unique h =
    let valid =
      validated (build_timeline events) events segments missing
        (unique-build_timeline events unique) (build_timeline-IsAscending events) h in
    rw (unique, h, valid) (_, refl, refl, refl)
