-- ===== src/Dataset/Approval/Reread.antt =====
-- What `approve_dataset` returns, read again.
use workflow_helper_public.Base.{
  ◌≡◌, ◌∙◌, Bool, true, false, ◌||◌, List, Option, none, some, ltb, if◌then◌else◌, value_error,
  conflict_error, Result, ok, reject_if,
}
use workflow_helper_public.Text.{Text, codes, text_eq, is_blank}
use workflow_helper_public.Json.{Fields}
use workflow_helper_public.Platform.{Platform}
use workflow_helper_public.Auth.{AuthenticatedPrincipal}
use workflow_helper_public.Store.ReviewRows.{ReviewEvent}
use workflow_helper_public.Service.Session.{
  ControlService, Request, Svc, ◌>>=◌, pure, raise, attempt,
}
use workflow_helper_public.Service.Reviews.{append_review}
use workflow_helper_public.Service.Reads.{
  Keeps, bind-returned, bind-Keeps, attempt-Keeps, attempt-returned,
}
use workflow_helper_public.Dataset.Events.{all_events}
use workflow_helper_public.Dataset.Events.Pages.{bind-ok}
use workflow_helper_public.Dataset.Events.Kept.{all_events-Keeps}
use workflow_helper_public.Dataset.State.{DatasetApprovalState, state_from_events}
use workflow_helper_public.Dataset.Approval.{
  dataset_target, answered_by, approval_detail, promotion_detail, promotion_key, asserted,
  read_state, promote, approve, continue_from, approve_dataset, read_dataset_approval_state,
}

asserted-returned :
    (found : Option DatasetApprovalState) (s : ControlService) {state : DatasetApprovalState}
    {s' : ControlService}
    → asserted found s ≡ (ok state, s')
    → (found ≡ some state) × (s' ≡ s)
asserted-returned none s h = cc
asserted-returned (some state) s h = (cc, cc)

module _ (platform : Platform) (principal : AuthenticatedPrincipal) (dataset_id key : Text)
    (manifest : Fields) (reading approving promoting : Request) where
  abbrev state_now : Svc (Option DatasetApprovalState)
  state_now = read_state platform principal dataset_id key manifest reading approving promoting

  -- A state that reading the dataset gives.
  abbrev Shows : DatasetApprovalState → ControlService → Type 0
  Shows state s = state_now s ≡ (ok (some state), s)

  state_now-Keeps : Keeps state_now
  unfolding read_state
  state_now-Keeps =
      bind-Keeps (all_events platform principal (dataset_target dataset_id) reading) _
        (all_events-Keeps platform principal (dataset_target dataset_id) reading)
        λ events. attempt-Keeps _

  asserted_now :
      {B : Type 0} (next : DatasetApprovalState → Svc B) (s : ControlService) {b : B}
      {s' : ControlService}
      → (state_now >>= λ found. asserted found >>= next) s ≡ (ok b, s')
      → (state : DatasetApprovalState) × Shows state s × (next state s ≡ (ok b, s'))
  asserted_now next s {b} {s'} h =
      let (found, between, read, rest) = bind-returned state_now _ s h in
      let (state, after, there, last) = bind-returned (asserted found) next between rest in
      let kept = state_now-Keeps s found between read in
      let (is_found, same) = asserted-returned found between there in (state, cc, cc)

  promote-Shows :
      (state : DatasetApprovalState) (s : ControlService) {result : DatasetApprovalState}
      {s' : ControlService}
      → promote platform principal dataset_id key manifest reading approving promoting state s
        ≡ (ok result, s')
      → Shows result s'
  unfolding promote
  promote-Shows state s {result} {s'} h =
      let (event, appended, _, rest) =
        bind-returned
          (append_review platform principal (dataset_target dataset_id)
            (promotion_key platform dataset_id manifest state.approvers principal.subject)
            (codes "approved") manifest (some (promotion_detail state)) promoting)
          _ s h in
      let (promoted, shows, last) = asserted_now _ appended rest in
      reached promoted appended (text_eq promoted.status (codes "approved")) shows last
    where
      reached :
          (promoted : DatasetApprovalState) (after : ControlService) (is_approved : Bool)
          → Shows promoted after
          → (if is_approved
                then pure promoted
                else raise (conflict_error "dataset promotion did not reach approved state"))
              after
            ≡ (ok result, s')
          → Shows result s'
      reached promoted after true shows h = cc
      reached promoted after false shows h = cc

  approve-Shows :
      (s : ControlService) {result : DatasetApprovalState} {s' : ControlService}
      → approve platform principal dataset_id key manifest reading approving promoting s
        ≡ (ok result, s')
      → Shows result s'
  unfolding approve
  approve-Shows s {result} {s'} h =
      let (event, appended, _, rest) =
        bind-returned
          (append_review platform principal (dataset_target dataset_id) key (codes "pending")
            manifest (some approval_detail) approving)
          _ s h in
      let (state, shows, last) = asserted_now _ appended rest in
      completed state appended
        (text_eq state.status (codes "approved") || ltb state.approval_count 2) shows last
    where
      completed :
          (state : DatasetApprovalState) (after : ControlService) (settled : Bool)
          → Shows state after
          → (if settled
                then pure state
                else promote platform principal dataset_id key manifest reading approving promoting
                    state)
              after
            ≡ (ok result, s')
          → Shows result s'
      completed state after true shows h = cc
      completed state after false shows h = promote-Shows state after h

  continue_from-Shows :
      (events : List ReviewEvent) (current : Option DatasetApprovalState) (s : ControlService)
      {result : DatasetApprovalState} {s' : ControlService}
      → state_now s ≡ (ok current, s)
      → continue_from platform principal dataset_id key manifest reading approving promoting events
          current s
        ≡ (ok result, s')
      → Shows result s'
  unfolding continue_from
  continue_from-Shows events none s now h = approve-Shows s h
  continue_from-Shows events (some current) s {result} {s'} now h =
      let (replay, after, answered, rest) =
        bind-returned (attempt (answered_by principal.subject key manifest events current)) _ s h in
      let (_, same) = attempt-returned _ s answered in by_replay replay after same rest
    where
      by_replay :
          (replay : Bool) (after : ControlService)
          → after ≡ s
          → (if replay
                then pure current
                else approve platform principal dataset_id key manifest reading approving promoting)
              after
            ≡ (ok result, s')
          → Shows result s'
      by_replay true after same h = cc
      by_replay false after same h = approve-Shows after h

  now-ok :
      (s : ControlService) (events : List ReviewEvent) (current : Option DatasetApprovalState)
      → all_events platform principal (dataset_target dataset_id) reading s ≡ (ok events, s)
      → state_from_events dataset_id (dataset_target dataset_id) events ≡ ok current
      → state_now s ≡ (ok current, s)
  unfolding read_state attempt
  now-ok s events current listed says =
      bind-ok (all_events platform principal (dataset_target dataset_id) reading) _ s events listed
      ∙ cc

  -- What `approve_dataset` returns, whether it appended an approval, promoted the dataset or
  -- answered a repeated call, is the state that `read_dataset_approval_state` reads for the same
  -- principal right after, and that reading leaves the stores as they are.
  pub read-approve :
      (s s' : ControlService) (result : DatasetApprovalState)
      → approve_dataset platform principal dataset_id key manifest reading approving promoting s
        ≡ (ok result, s')
      → read_dataset_approval_state platform principal dataset_id reading s'
        ≡ (ok (some result), s')
  unfolding approve_dataset read_dataset_approval_state read_state attempt
  read-approve s s' result h =
      let (_, named, is_named, rest) = bind-returned (attempt name_check) _ s h in
      let (events, listed, got, rest') =
        bind-returned (all_events platform principal (dataset_target dataset_id) reading) _ named
          rest in
      let (current, stated, says, last) =
        bind-returned (attempt (state_from_events dataset_id (dataset_target dataset_id) events)) _
          listed rest' in
      let (has_name, same) = attempt-returned name_check s is_named in
      let unchanged =
        all_events-Keeps platform principal (dataset_target dataset_id) reading named events listed
          got in
      let (stated_ok, still) = attempt-returned _ listed says in
      let got_here : all_events platform principal (dataset_target dataset_id) reading s
          ≡ (ok events, s) =
        cc in
      let went : continue_from platform principal dataset_id key manifest reading approving
            promoting events current s
          ≡ (ok result, s') =
        cc in
      bind-ok (attempt name_check) _ s' tt (tried has_name)
      ∙ continue_from-Shows events current s (now-ok s events current got_here stated_ok) went
    where
      name_check : Result (Unit {0})
      name_check = reject_if (is_blank dataset_id) (value_error "dataset_id is required")

      tried :
          name_check ≡ ok tt
          → ◌≡◌ {A = Result (Unit {0}) × ControlService} (attempt name_check s') (ok tt, s')
      tried e = cc
