-- ===== src/Dataset/Events.antt =====
-- `_all_events` of apps/api/src/workflow_api/dataset_approval.py: the loop over the pages of a
-- target's reviews.
pub mod Pages
pub mod Slices
pub mod Complete
pub mod Kept
use workflow_helper_public.Base.{
  ℕ, zero, suc, List, [], ◌∷◌, ◌++◌, Option, none, some, ltb, if◌then◌else◌, length,
  assertion_error, Result, ok, err,
}
use workflow_helper_public.Text.{Text}
use workflow_helper_public.Platform.{Platform}
use workflow_helper_public.Auth.{AuthenticatedPrincipal}
use workflow_helper_public.Store.ReviewRows.{ReviewEvent}
use workflow_helper_public.Service.Session.{
  ControlService, Request, Svc, ◌>>=◌, pure, raise, attempt,
}
use workflow_helper_public.Service.Reviews.{list_reviews}

-- `batch[-1].sequence`, of a batch that begins with `event`
unfoldable pub last_sequence : ReviewEvent → List ReviewEvent → ℕ
last_sequence event [] = event.sequence
last_sequence event (next ∷ rest) = last_sequence next rest

module _ (fetch : ℕ → Svc (List ReviewEvent)) where
  -- What a round does with its batch: a batch of fewer than 100 events is the last.
  next_round :
      (ℕ → List ReviewEvent → Svc (Option (List ReviewEvent)))
      → List ReviewEvent
      → List ReviewEvent
      → Svc (Option (List ReviewEvent))
  unfolding last_sequence
  next_round more events [] = pure (some events)
  next_round more events (event ∷ rest) =
      if ltb (length (event ∷ rest)) 100
      then pure (some (events ++ event ∷ rest))
      else more (last_sequence event rest) (events ++ event ∷ rest)

  -- The loop on fuel, over any way of reading the page after a sequence number; `none` is the end of
  -- the fuel.
  pub loop : ℕ → ℕ → List ReviewEvent → Svc (Option (List ReviewEvent))
  unfolding next_round
  loop zero after_sequence events = pure none
  loop (suc fuel) after_sequence events =
      fetch after_sequence >>= next_round (λ a es. loop fuel a es) events

finished : Option (List ReviewEvent) → Svc (List ReviewEvent)
finished none = raise assertion_error
finished (some events) = pure events

-- The fuel is one round more than there are events of the target.
unfoldable pub all_events :
    Platform → AuthenticatedPrincipal → Text → Request → Svc (List ReviewEvent)
unfolding loop finished
all_events platform principal target_id request s =
    (loop (λ after. list_reviews platform principal target_id after 100 request)
          (suc (length s.store.review_events)) 0 []
        >>= finished)
      s
