-- ===== src/Worker/Pipeline/Timeline.antt =====
-- The timeline is in order and leaves out nothing but repeated changes of the foreground window.
use workflow_helper_public.Base.{
  ℕ, ◌-◌, ◌≤◌, ◌≡◌, refl, ◌∙◌, Bool, not, ◌&&◌, List, [], ◌∷◌, Option, none, some, arith, count,
  leb, Bool-cases, inl, inr, min, ap,
}
use workflow_helper_public.Worker.Pipeline.{
  CadEvent, TimelineItem, is_low_value, insert_event, by_time, timeline_item, repeats,
  timeline_from, build_timeline, summary_of,
}

-- The values do not go down, from the bound on.
abbrev pub IsAscending : ℕ → List ℕ → Type 0
IsAscending low [] = Unit
IsAscending low (n ∷ ns) = (low ≤ n) × IsAscending n ns

abbrev pub offsets : List TimelineItem → List ℕ
offsets [] = []
offsets (item ∷ items) = item.offset ∷ offsets items

abbrev IsOrdered : ℕ → List CadEvent → Type 0
IsOrdered low [] = Unit
IsOrdered low (event ∷ events) = (low ≤ event.occurred_at) × IsOrdered event.occurred_at events

insert_event-IsOrdered :
    (x : CadEvent) (low : ℕ) (events : List CadEvent)
    → low ≤ x.occurred_at
    → IsOrdered low events
    → IsOrdered low (insert_event x events)
unfolding insert_event
insert_event-IsOrdered x low [] h o = (h, tt)
insert_event-IsOrdered x low (y ∷ ys) h (l, o) =
    elim (Bool-cases (leb x.occurred_at y.occurred_at)) [
      | inl e ↦ rw e (h, (ground arith, o))
      | inr e ↦ rw e (l, insert_event-IsOrdered x y.occurred_at ys (ground arith) o)
    ]

by_time-IsOrdered : (events : List CadEvent) → IsOrdered 0 (by_time events)
unfolding by_time
by_time-IsOrdered [] = tt
by_time-IsOrdered (event ∷ events) =
    insert_event-IsOrdered event 0 (by_time events) (omega arith) (by_time-IsOrdered events)

pub IsAscending-weaken :
    (low high : ℕ) (ns : List ℕ) → low ≤ high → IsAscending high ns → IsAscending low ns
IsAscending-weaken low high [] h a = tt
IsAscending-weaken low high (n ∷ ns) h (b, a) = (omega arith, a)

timeline_from-IsAscending :
    (start low : ℕ) (previous : Option CadEvent) (events : List CadEvent)
    → start ≤ low
    → IsOrdered low events
    → IsAscending (low - start) (offsets (timeline_from start previous events))
unfolding timeline_from timeline_item
timeline_from-IsAscending start low previous [] h o = tt
timeline_from-IsAscending start low previous (event ∷ rest) h (l, o) =
    elim (Bool-cases (is_low_value event.event_type && repeats previous event)) [
      | inl e ↦ rw e (
          IsAscending-weaken (low - start) (event.occurred_at - start) _ (omega arith)
            (timeline_from-IsAscending start event.occurred_at previous rest (omega arith) o))
      | inr e ↦ rw e (
        omega arith,
        timeline_from-IsAscending start event.occurred_at (some event) rest (omega arith) o,
      )
    ]

-- The offsets of a timeline do not go down, in whatever order the events came.
pub build_timeline-IsAscending :
    (events : List CadEvent) → IsAscending 0 (offsets (build_timeline events))
unfolding build_timeline
build_timeline-IsAscending events = from_first (by_time events) (by_time-IsOrdered events)
  where
    from_first :
        (ordered : List CadEvent)
        → IsOrdered 0 ordered
        → IsAscending 0 (
            offsets (elim ordered as (λ _. List TimelineItem) [
              | [] ↦ []
              | first ∷ rest ↦ timeline_from first.occurred_at none (first ∷ rest)
            ]))
    from_first [] o = tt
    from_first (first ∷ rest) (l, o) =
        IsAscending-weaken 0 (first.occurred_at - first.occurred_at) _ (omega arith) (
          timeline_from-IsAscending first.occurred_at first.occurred_at none (first ∷ rest)
            (omega arith) (omega arith, o))

abbrev pub is_telling : CadEvent → Bool
is_telling event = not (is_low_value event.event_type)

abbrev pub tells : TimelineItem → Bool
tells item = not (is_low_value item.event_type)

-- The time of the earliest event.
abbrev earliest : List CadEvent → Option ℕ
earliest [] = none
earliest (event ∷ events) = elim (earliest events) [
  | none ↦ some event.occurred_at
  | some time ↦ some (min event.occurred_at time)
]

abbrev pub start_of : List CadEvent → ℕ
start_of events = elim (earliest events) [ none ↦ 0 | some time ↦ time ]

-- What an event must show as in a timeline that starts at a time.
abbrev pub shown_from : ℕ → CadEvent → TimelineItem
shown_from start event = record {
  offset = event.occurred_at - start;
  event_type = event.event_type;
  summary = summary_of event;
  source_event_id = event.event_id;
}

abbrev first_time : List CadEvent → Option ℕ
first_time [] = none
first_time (event ∷ events) = some event.occurred_at

first_time-insert_event :
    (x : CadEvent) (events : List CadEvent)
    → first_time (insert_event x events) ≡ (elim (first_time events) as (λ _. Option ℕ) [
      | none ↦ some x.occurred_at
      | some time ↦ some (min x.occurred_at time)
    ])
unfolding insert_event
first_time-insert_event x [] = refl
first_time-insert_event x (y ∷ ys) = elim (Bool-cases (leb x.occurred_at y.occurred_at)) [
  | inl e ↦ rw e (ap (λ (n : ℕ). some n) (ground arith))
  | inr e ↦ rw e (ap (λ (n : ℕ). some n) (ground arith))
]

first_time-by_time : (events : List CadEvent) → first_time (by_time events) ≡ earliest events
unfolding by_time
first_time-by_time [] = refl
first_time-by_time (event ∷ events) =
    first_time-insert_event event (by_time events)
    ∙ ap
        (λ (first : Option ℕ). elim first as (λ _. Option ℕ) [
          | none ↦ some event.occurred_at
          | some time ↦ some (min event.occurred_at time)
        ])
        (first_time-by_time events)

module _ (test : CadEvent → Bool) where
  count-insert_event :
      (x : CadEvent) (events : List CadEvent)
      → count test (insert_event x events) ≡ count test (x ∷ events)
  unfolding insert_event
  count-insert_event x [] = refl
  count-insert_event x (y ∷ ys) = ground (arith, count-insert_event x ys)

  count-by_time : (events : List CadEvent) → count test (by_time events) ≡ count test events
  unfolding by_time
  count-by_time [] = refl
  count-by_time (event ∷ events) =
      ground (arith, count-by_time events, count-insert_event event (by_time events))

count-timeline_from :
    (test : TimelineItem → Bool) (start : ℕ) (previous : Option CadEvent) (events : List CadEvent)
    → count (λ item. tells item && test item) (timeline_from start previous events)
      ≡ count (λ event. is_telling event && test (shown_from start event)) events
unfolding timeline_from timeline_item
count-timeline_from test start previous [] = refl
count-timeline_from test start previous (event ∷ rest) = ground (
  arith,
  count-timeline_from test start previous rest,
  count-timeline_from test start (some event) rest,
)

-- Every event but a change of the foreground window has its item in the timeline: whatever one asks
-- of an item, as many of them have it as of the items that show, each by its own identifier, type,
-- summary and time since the earliest event, the events that are no such change. So no such event is
-- left out, shown twice or shown under the identifier of another.
pub count-build_timeline :
    (test : TimelineItem → Bool) (events : List CadEvent)
    → count (λ item. tells item && test item) (build_timeline events)
      ≡ count (λ event. is_telling event && test (shown_from (start_of events) event)) events
unfolding build_timeline
count-build_timeline test events =
    from_first (by_time events) (first_time-by_time events)
    ∙ count-by_time (λ event. is_telling event && test (shown_from (start_of events) event)) events
  where
    from_first :
        (ordered : List CadEvent)
        → first_time ordered ≡ earliest events
        → count
            (λ item. tells item && test item)
            (elim ordered as (λ _. List TimelineItem) [
              | [] ↦ []
              | first ∷ rest ↦ timeline_from first.occurred_at none (first ∷ rest)
            ])
          ≡ count (λ event. is_telling event && test (shown_from (start_of events) event)) ordered
    from_first [] h = refl
    from_first (first ∷ rest) h =
        let same : first.occurred_at ≡ start_of events =
          ap (λ (o : Option ℕ). elim o as (λ _. ℕ) [ none ↦ 0 | some time ↦ time ]) h in
        count-timeline_from test first.occurred_at none (first ∷ rest)
        ∙ ap
            (λ (start : ℕ).
              count (λ event. is_telling event && test (shown_from start event)) (first ∷ rest))
            same
