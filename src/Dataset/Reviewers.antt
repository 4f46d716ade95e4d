-- ===== src/Dataset/Reviewers.antt =====
-- A dataset counts as approved, in dataset_approval.py, when two reviewers approved it.
use workflow_helper_public.Base.{
  ◌≡◌, ◌⊎◌, inl, inr, refl, Bool, true, false, ◌&&◌, List, [], ◌∷◌, ◌++◌, Option, none, some, subst,
  select, length, ltb, if◌then◌else◌, Bool-cases, Result, ok, err, reject_if, conflict_error,
}
use workflow_helper_public.Text.{Text, codes, text_eq}
use workflow_helper_public.Json.{Fields}
use workflow_helper_public.Audit.{◌then_check◌, then_check-left, then_check-right}
use workflow_helper_public.Store.ReviewRows.{ReviewEvent}
use workflow_helper_public.Dataset.State.{
  DatasetApprovalState, is_approval, approval_events, promotion_events, require_same_manifest,
  same_manifests, insert_once, actors, latest, joint_state, state_from_events,
}

-- One of the events of a list.
abbrev pub IsIn : ReviewEvent → List ReviewEvent → Type 0
IsIn event [] = ⊥
IsIn event (first ∷ rest) = (first ≡ event) ⊎ IsIn event rest

-- An event that approves the dataset under a manifest.
pub record Approves (state : DatasetApprovalState) (events : List ReviewEvent) (event : ReviewEvent)
    : Type 0 where
  pub within : IsIn event events
  pub approves : is_approval event ≡ true
  pub manifest : require_same_manifest state.manifest event.provenance ≡ ok tt

-- Two approvals of one manifest by different reviewers.
pub record ApprovedTwice (state : DatasetApprovalState) (events : List ReviewEvent) : Type 0 where
  pub first : ReviewEvent
  pub second : ReviewEvent
  pub first_approves : Approves state events first
  pub second_approves : Approves state events second
  pub different : text_eq first.actor_id second.actor_id ≡ false

record TwoActors (events : List ReviewEvent) : Type 0 where
  first : ReviewEvent
  second : ReviewEvent
  first_in : IsIn first events
  second_in : IsIn second events
  different : text_eq first.actor_id second.actor_id ≡ false

-- No event, events of one actor, or events of two.
data Actors (events : List ReviewEvent) : Type 0 where
  nobody : events ≡ [] → Actors events
  one :
      (event : ReviewEvent)
      → IsIn event events
      → actors events ≡ event.actor_id ∷ []
      → Actors events
  two : TwoActors events → Actors events

count-Actors : (events : List ReviewEvent) → Actors events
unfolding actors insert_once
count-Actors [] = nobody refl
count-Actors (event ∷ events) = further (count-Actors events)
  where
    further : Actors events → Actors (event ∷ events)
    further (nobody e) = one event (inl refl) (rw e refl)
    further (one other there only) = elim (Bool-cases (text_eq event.actor_id other.actor_id)) [
      | inl same ↦ one other (inr there) (rw only (rw same refl))
      | inr apart ↦ two (record {
        first = event;
        second = other;
        first_in = inl refl;
        second_in = inr there;
        different = apart;
      })
    ]
    further (two pair) = two (record {
      first = pair.first;
      second = pair.second;
      first_in = inr pair.first_in;
      second_in = inr pair.second_in;
      different = pair.different;
    })

-- Where more than one name is counted, there are events of two actors.
two_actors : (events : List ReviewEvent) → ltb (length (actors events)) 2 ≡ false → TwoActors events
unfolding actors
two_actors events many = by_count (count-Actors events)
  where
    by_count : Actors events → TwoActors events
    by_count (nobody e) =
        let few : true ≡ false =
          subst (λ (es : List ReviewEvent). ltb (length (actors es)) 2 ≡ false) e many in
        cc
    by_count (one event there only) =
        let few : true ≡ false =
          subst (λ (names : List Text). ltb (length names) 2 ≡ false) only many in
        cc
    by_count (two pair) = pair

-- An event of a selection is an event of the list that passes the test.
select-IsIn :
    (test : ReviewEvent → Bool) (event : ReviewEvent) (events : List ReviewEvent)
    → IsIn event (select test events)
    → IsIn event events × (test event ≡ true)
select-IsIn test event [] h = absurd h
select-IsIn test event (first ∷ rest) h = kept (select-IsIn test event rest) (test first) refl h
  where
    kept :
        (IsIn event (select test rest) → IsIn event rest × (test event ≡ true))
        → (passes : Bool) → test first ≡ passes
        → IsIn event (if passes then first ∷ select test rest else select test rest)
        → IsIn event (first ∷ rest) × (test event ≡ true)
    kept later true e (inl same) = (inl same, subst (λ (x : ReviewEvent). test x ≡ true) same e)
    kept later true e (inr there) = (inr (later there).0, (later there).1)
    kept later false e there = (inr (later there).0, (later there).1)

IsIn-append_left :
    (event : ReviewEvent) (xs ys : List ReviewEvent) → IsIn event xs → IsIn event (xs ++ ys)
IsIn-append_left event [] ys h = absurd h
IsIn-append_left event (x ∷ xs) ys (inl same) = inl same
IsIn-append_left event (x ∷ xs) ys (inr there) = inr (IsIn-append_left event xs ys there)

-- Every event of a list that agrees on its manifest has that manifest.
same_manifests-IsIn :
    (reference : Fields) (event : ReviewEvent) (events : List ReviewEvent) {u : Unit {0}}
    → same_manifests reference events ≡ ok u
    → IsIn event events
    → require_same_manifest reference event.provenance ≡ ok tt
unfolding same_manifests
same_manifests-IsIn reference event [] h there = absurd there
same_manifests-IsIn reference event (first ∷ rest) h (inl same) =
    subst (λ (x : ReviewEvent). require_same_manifest reference x.provenance ≡ ok tt) same
      (then_check-left (require_same_manifest reference first.provenance)
        (same_manifests reference rest) h)
same_manifests-IsIn reference event (first ∷ rest) h (inr there) =
    same_manifests-IsIn reference event rest
      (then_check-right (require_same_manifest reference first.provenance)
        (same_manifests reference rest) h)
      there

-- What a state that is approved was made of.
joint-approved :
    (dataset_id target_id : Text) (approvals promotions : List ReviewEvent) (first : ReviewEvent)
    (rest : List ReviewEvent) (state : DatasetApprovalState)
    → joint_state dataset_id target_id approvals promotions first rest ≡ ok (some state)
    → text_eq state.status (codes "approved") ≡ true
    → (ltb (length (actors approvals)) 2 ≡ false)
      × (same_manifests state.manifest (first ∷ rest) ≡ ok tt)
unfolding joint_state text_eq
joint-approved dataset_id target_id approvals promotions first rest state h approved =
    let (few, agreed, same) =
      made (ltb 0 (length promotions)) (ltb (length (actors approvals)) 2)
        (same_manifests first.provenance (first ∷ rest)) h in
    (few, subst (λ (m : Fields). same_manifests m (first ∷ rest) ≡ ok tt) same agreed)
  where
    made :
        (promoted few : Bool) (agreed : Result (Unit {0}))
        → (elim (agreed
              then_check reject_if
                  (promoted && few)
                  (conflict_error "approved dataset lacks two distinct reviewer approvals"))
            as (λ _. Result (Option DatasetApprovalState)) [
              | err e ↦ err e
              | ok _ ↦ ok (
                  some (record {
                    dataset_id = dataset_id;
                    target_id = target_id;
                    status = if promoted then codes "approved" else codes "pending";
                    approval_count = length (actors approvals);
                    approvers = actors approvals;
                    manifest = first.provenance;
                    last_event_id = (latest first rest).event_id;
                  }))
            ])
          ≡ ok (some state)
        → (few ≡ false) × (agreed ≡ ok tt) × (first.provenance ≡ state.manifest)
    made promoted few (err e) h = cc
    made true true (ok _) h = cc
    made true false (ok _) h = (refl, refl, cc)
    made false few (ok _) h =
        let pending : state.status ≡ codes "pending" = cc in
        let no : false ≡ true =
          subst (λ (t : Text). text_eq t (codes "approved") ≡ true) pending approved in
        cc

-- A state that reads as approved comes from two approvals in the dataset's reviews: by different
-- reviewers, and each of the manifest that the state shows.
pub approved_by_two :
    (dataset_id target_id : Text) (events : List ReviewEvent) (state : DatasetApprovalState)
    → state_from_events dataset_id target_id events ≡ ok (some state)
    → text_eq state.status (codes "approved") ≡ true
    → ApprovedTwice state events
unfolding state_from_events approval_events
approved_by_two dataset_id target_id events state h approved =
    said (approval_events events ++ promotion_events events) refl h
  where
    approvals : List ReviewEvent
    approvals = approval_events events

    said :
        (all : List ReviewEvent)
        → approvals ++ promotion_events events ≡ all
        → (elim all as (λ _. Result (Option DatasetApprovalState)) [
          | [] ↦ ok none
          | first ∷ rest ↦
              joint_state dataset_id target_id approvals (promotion_events events) first rest
        ])
          ≡ ok (some state)
        → ApprovedTwice state events
    said [] e h = cc
    said (first ∷ rest) e h =
        let (many, agreed) =
          joint-approved dataset_id target_id approvals (promotion_events events) first rest state h
            approved in
        let pair = two_actors approvals many in
        let approves : (event : ReviewEvent) → IsIn event approvals → Approves state events event =
          λ event there.
            let (within, is) = select-IsIn is_approval event events there in
            record {
              within = within;
              approves = is;
              manifest = same_manifests-IsIn state.manifest event (first ∷ rest) agreed (
                  subst (λ (l : List ReviewEvent). IsIn event l) e
                    (IsIn-append_left event approvals (promotion_events events) there));
            } in
        record {
          first = pair.first;
          second = pair.second;
          first_approves = approves pair.first pair.first_in;
          second_approves = approves pair.second pair.second_in;
          different = pair.different;
        }
