-- ===== src/Dataset/Events/Kept.antt =====
-- Reading all reviews of a target leaves both stores as they are.
use workflow_helper_public.Base.{
  ℕ, zero, suc, ◌≡◌, Bool, true, false, List, [], ◌∷◌, ◌++◌, Option, none, some, ltb, length,
  if◌then◌else◌, ok,
}
use workflow_helper_public.Text.{Text}
use workflow_helper_public.Platform.{Platform}
use workflow_helper_public.Auth.{AuthenticatedPrincipal}
use workflow_helper_public.Store.ReviewRows.{ReviewEvent}
use workflow_helper_public.Service.Session.{Request, Svc, pure}
use workflow_helper_public.Service.Reviews.{list_reviews}
use workflow_helper_public.Service.Reads.{Keeps, bind-Keeps, pure-Keeps, list_reviews-Keeps}
use workflow_helper_public.Dataset.Events.{all_events, loop, next_round, finished, last_sequence}

module _ (fetch : ℕ → Svc (List ReviewEvent))
    (fetch-Keeps : (after : ℕ) → Keeps (fetch after)) where
  next_round-Keeps :
      (more : ℕ → List ReviewEvent → Svc (Option (List ReviewEvent)))
      → ((after : ℕ) (events : List ReviewEvent) → Keeps (more after events))
      → (events batch : List ReviewEvent) → Keeps (next_round fetch more events batch)
  unfolding next_round
  next_round-Keeps more more-Keeps events [] s b s' h = pure-Keeps _ s b s' h
  next_round-Keeps more more-Keeps events (event ∷ rest) s b s' h =
      by_size (ltb (length (event ∷ rest)) 100) h
    where
      by_size :
          (last : Bool)
          → (if last
                then pure (some (events ++ event ∷ rest))
                else more (last_sequence event rest) (events ++ event ∷ rest))
              s
            ≡ (ok b, s')
          → s' ≡ s
      by_size true h = pure-Keeps _ s b s' h
      by_size false h = more-Keeps (last_sequence event rest) (events ++ event ∷ rest) s b s' h

  loop-Keeps : (fuel after : ℕ) (events : List ReviewEvent) → Keeps (loop fetch fuel after events)
  unfolding loop
  loop-Keeps zero after events = pure-Keeps none
  loop-Keeps (suc fuel) after events =
      bind-Keeps (fetch after) _ (fetch-Keeps after)
        (next_round-Keeps (λ a es. loop fetch fuel a es) (λ a es. loop-Keeps fuel a es) events)

finished-Keeps : (found : Option (List ReviewEvent)) → Keeps (finished found)
unfolding finished
finished-Keeps none s b s' h = cc
finished-Keeps (some events) s b s' h = pure-Keeps events s b s' h

pub all_events-Keeps :
    (platform : Platform) (principal : AuthenticatedPrincipal) (target_id : Text)
    (request : Request)
    → Keeps (all_events platform principal target_id request)
unfolding all_events
all_events-Keeps platform principal target_id request s b s' h =
    bind-Keeps
      (loop (λ after. list_reviews platform principal target_id after 100 request)
        (suc (length s.store.review_events)) 0 [])
      finished
      (loop-Keeps _ (λ after. list_reviews-Keeps platform principal target_id after 100 request)
        (suc (length s.store.review_events)) 0 [])
      finished-Keeps s b s' h
