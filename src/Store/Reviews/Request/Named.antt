-- ===== src/Store/Reviews/Request/Named.antt =====
-- What the checks of `append_candidate_review_event` of control_store.py take from its arguments.
use workflow_helper_public.Base.{
  ◌≡◌, sym, ap, ◌∙◌, Bool, not, Option, none, some, ok, err, Result, after_ok, after_some,
  after_guard, lift-eq-ok, raise_if-eq-ok, value_error, if◌then◌else◌, true, false, ok-eq,
}
use workflow_helper_public.Text.{Text, codes, text_eq, opt_text_eq}
use workflow_helper_public.Platform.{Platform}
use workflow_helper_public.Audit.{contains}
use workflow_helper_public.Checks.{require_text, require_sha256}
use workflow_helper_public.Store.Candidates.{candidate_target, publication_skill, is_reviewer_id}
use workflow_helper_public.Store.Reviews.Lifecycle.{review_statuses}
use workflow_helper_public.Store.Reviews.Keys.{
  qualify_scope_key, candidate_idempotency_key, require_candidate_publication_key,
}
use workflow_helper_public.Store.Reviews.Request.{
  CandidateReview, CheckedReview, one_of, required, given_scope, identity, legacy_objects,
  given_evidence, given_time, check_arguments, check_candidate, is_given_reason,
}

required-eq :
    (value target : Text) → required "review_target_id" (some value) ≡ ok target → target ≡ value
unfolding required
required-eq value target h =
    let (_, _, same) = after_ok (require_text "review_target_id" value) _ h in cc

-- Where the target is named in one way, it is the target.
identity-target :
    (call : CandidateReview) (value : Text) {found : Text × (Text × Text)}
    → call.review_target_id ≡ some value
    → call.target_id ≡ none
    → identity call ≡ ok found
    → found.0 ≡ value
unfolding identity one_of
identity-target call value {found} named plain h =
    let (_, _, h1) = after_ok (require_candidate_publication_key call.publication_key) _ h in
    let (given, is_given, h2) =
      after_ok (one_of "candidate review target conflicts" call.review_target_id call.target_id) _
        h1 in
    let (target, is_target, h3) = after_ok (required "review_target_id" given) _ h2 in
    let ((skill, content), _, h4) = after_some (candidate_target target) _ _ h3 in
    let (_, h5) =
      after_guard (not (opt_text_eq (publication_skill call.publication_key) (some skill))) _ _
        h4 in
    let (_, _, h6) =
      after_ok (one_of "candidate and skill identities conflict" call.skill_id call.candidate_id) _
        h5 in
    let (_, last) = after_guard _ _ _ h6 in
    let own : one_of "candidate review target conflicts" (some value) none ≡ ok given =
      rw plain at (rw named at is_given) in
    let same : given ≡ some value = sym (ok-eq own) in
    let is_target' = rw same at is_target in
    let at : target ≡ value = required-eq value target is_target' in
    let out : ok (target, (skill, content)) ≡ ok found = last in
    sym (ap (λ (p : Text × (Text × Text)). p.0) (ok-eq out)) ∙ at

known_status :
    (value status : Text)
    → (if contains review_statuses value
        then ok value
        else err (value_error "unsupported candidate review status"))
      ≡ ok status
    → value ≡ status
known_status value status h = known (contains review_statuses value) h
  where
    known :
        (b : Bool)
        → (if b then ok value else err (value_error "unsupported candidate review status"))
          ≡ ok status
        → value ≡ status
    known true h = cc
    known false h = cc

-- The values that the checks leave behind.
pub record IsNamed (call : CandidateReview) (value : Text) (checked : CheckedReview) : Type 0 where
  pub key : Text
  pub in_scope : given_scope call ≡ ok key
  pub target : qualify_scope_key key (codes "review_target") value ≡ ok checked.qualified_target
  pub idempotency :
      candidate_idempotency_key key call.idempotency_key call.qualified_idempotency_key
      ≡ ok checked.qualified_key
  pub status :
      one_of "candidate destination status conflicts" call.status call.destination_status
      ≡ ok (some checked.selected_status)

pub check_candidate-IsNamed :
    (platform : Platform) (call : CandidateReview) (value : Text) (checked : CheckedReview)
    → call.review_target_id ≡ some value
    → call.target_id ≡ none
    → check_candidate platform call ≡ ok checked
    → IsNamed call value checked
unfolding check_candidate check_arguments
check_candidate-IsNamed platform call value checked named plain h =
    let ((made, done), ran, same) =
      after_ok (check_arguments platform call tt) (λ (c, _). ok c) h in
    let (key, in_scope, h1) = lift-eq-ok (given_scope call) _ tt ran in
    let (found, identified, h2) = lift-eq-ok (identity call) _ tt h1 in
    let (_, h3) = raise_if-eq-ok (not (text_eq call.schema_version (codes "1.0"))) _ _ tt h2 in
    let (_, _, h4) = lift-eq-ok (require_sha256 "content_sha256" call.content_sha256) _ tt h3 in
    let (_, _, h5) = lift-eq-ok (require_sha256 "full_sha256" call.full_sha256) _ tt h4 in
    let (_, _, h6) =
      lift-eq-ok (require_sha256 "source_result_sha256" call.source_result_sha256) _ tt h5 in
    let (_, h7) = raise_if-eq-ok (not (text_eq found.1.1 call.content_sha256)) _ _ tt h6 in
    let (destination, is_destination, h8) =
      lift-eq-ok
        (one_of "candidate destination status conflicts" call.status call.destination_status) _ tt
        h7 in
    let (status, is_status, h9) =
      lift-eq-ok
        (elim destination as (λ _. Result Text) [
          | none ↦ err (value_error "unsupported candidate review status")
          | some value ↦
              if contains review_statuses value
              then ok value
              else err (value_error "unsupported candidate review status")
        ])
        _ tt h8 in
    let (_, _, h10) = lift-eq-ok (require_text "actor_id" call.actor_id) _ tt h9 in
    let (_, h11) = raise_if-eq-ok (not (is_reviewer_id call.actor_id)) _ _ tt h10 in
    let (target, is_target, h12) =
      lift-eq-ok (qualify_scope_key key (codes "review_target") found.0) _ tt h11 in
    let (idempotency, is_idempotency, h13) =
      lift-eq-ok (candidate_idempotency_key key call.idempotency_key call.qualified_idempotency_key)
        _ tt h12 in
    let (_, _, h14) = lift-eq-ok (legacy_objects call) _ tt h13 in
    let (_, h15) = raise_if-eq-ok (not (is_given_reason call.reason)) _ _ tt h14 in
    let (_, _, h16) = lift-eq-ok (given_evidence call.evidence) _ tt h15 in
    let (_, _, last) = lift-eq-ok (given_time platform call.occurred_at call.now) _ tt h16 in
    let at = identity-target call value named plain identified in
    let (chosen, is_chosen, checked_status) = after_some destination _ _ is_status in
    let whole = ap (λ (p : CheckedReview × Unit {0}). p.0) (ok-eq last) ∙ ok-eq same in
    let known = known_status chosen status checked_status in
    record {
      key = key;
      in_scope = in_scope;
      target =
          ap (λ (t : Text). qualify_scope_key key (codes "review_target") t) (sym at)
          ∙ is_target
          ∙ ap (λ (c : CheckedReview). ok c.qualified_target) whole;
      idempotency = is_idempotency ∙ ap (λ (c : CheckedReview). ok c.qualified_key) whole;
      status =
          is_destination
          ∙ ap (λ (o : Option Text). ok o) is_chosen
          ∙ ap (λ (v : Text). ok (some v)) known
          ∙ ap (λ (c : CheckedReview). ok (some c.selected_status)) whole;
    }
