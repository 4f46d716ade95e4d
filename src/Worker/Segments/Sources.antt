-- ===== src/Worker/Segments/Sources.antt =====
-- Events with identifiers of their own make timeline items with sources of their own.
use workflow_helper_public.Base.{
  ℕ, ◌≡◌, refl, true, false, List, [], ◌∷◌, Option, none, some, arith, leb, Bool-cases, inl, inr,
}
use workflow_helper_public.Text.{Text}
use workflow_helper_public.Text.Equality.{text_eq_sym}
use workflow_helper_public.Audit.{contains}
use workflow_helper_public.Worker.Pipeline.{
  CadEvent, TimelineItem, insert_event, by_time, timeline_item, timeline_from, build_timeline,
}
use workflow_helper_public.Worker.Segments.{is_unique, source_ids, event_ids}

contains-insert_event :
    (x : CadEvent) (events : List CadEvent) (id : Text)
    → contains (event_ids (insert_event x events)) id ≡ contains (event_ids (x ∷ events)) id
unfolding insert_event
contains-insert_event x [] id = refl
contains-insert_event x (y ∷ ys) id = ground (arith, contains-insert_event x ys id)

unique-insert_event :
    (x : CadEvent) (events : List CadEvent)
    → is_unique (event_ids (x ∷ events)) ≡ true
    → is_unique (event_ids (insert_event x events)) ≡ true
unfolding insert_event is_unique
unique-insert_event x [] h = h
unique-insert_event x (y ∷ ys) h = elim (Bool-cases (leb x.occurred_at y.occurred_at)) [
  | inl e ↦ rw e h
  | inr e ↦ rw e (
      ground (
        arith,
        contains-insert_event x ys y.event_id,
        unique-insert_event x ys,
        text_eq_sym x.event_id y.event_id,
      ))
]

contains-by_time :
    (events : List CadEvent) (id : Text)
    → contains (event_ids (by_time events)) id ≡ contains (event_ids events) id
unfolding by_time
contains-by_time [] id = refl
contains-by_time (x ∷ xs) id =
    ground (arith, contains-insert_event x (by_time xs) id, contains-by_time xs id)

unique-by_time :
    (events : List CadEvent)
    → is_unique (event_ids events) ≡ true
    → is_unique (event_ids (by_time events)) ≡ true
unfolding by_time is_unique
unique-by_time [] h = refl
unique-by_time (x ∷ xs) h =
    unique-insert_event x (by_time xs)
      (ground (arith, contains-by_time xs x.event_id, unique-by_time xs))

contains-timeline_from :
    (start : ℕ) (previous : Option CadEvent) (events : List CadEvent) (id : Text)
    → contains (event_ids events) id ≡ false
    → contains (source_ids (timeline_from start previous events)) id ≡ false
unfolding timeline_from timeline_item
contains-timeline_from start previous [] id h = refl
contains-timeline_from start previous (event ∷ rest) id h = ground (
  arith,
  contains-timeline_from start previous rest id,
  contains-timeline_from start (some event) rest id,
)

unique-timeline_from :
    (start : ℕ) (previous : Option CadEvent) (events : List CadEvent)
    → is_unique (event_ids events) ≡ true
    → is_unique (source_ids (timeline_from start previous events)) ≡ true
unfolding timeline_from timeline_item is_unique
unique-timeline_from start previous [] h = refl
unique-timeline_from start previous (event ∷ rest) h = ground (
  arith,
  contains-timeline_from start (some event) rest event.event_id,
  unique-timeline_from start previous rest,
  unique-timeline_from start (some event) rest,
)

pub unique-build_timeline :
    (events : List CadEvent)
    → is_unique (event_ids events) ≡ true
    → is_unique (source_ids (build_timeline events)) ≡ true
unfolding build_timeline
unique-build_timeline events h = from_first (by_time events) (unique-by_time events h)
  where
    from_first :
        (ordered : List CadEvent)
        → is_unique (event_ids ordered) ≡ true
        → is_unique (
            source_ids (elim ordered as (λ _. List TimelineItem) [
              | [] ↦ []
              | first ∷ rest ↦ timeline_from first.occurred_at none (first ∷ rest)
            ]))
          ≡ true
    from_first [] h = h
    from_first (first ∷ rest) h = unique-timeline_from first.occurred_at none (first ∷ rest) h
