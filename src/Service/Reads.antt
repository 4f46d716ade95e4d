-- ===== src/Service/Reads.antt =====
-- Methods of the service that leave both stores as they are when they return.
use workflow_helper_public.Base.{ℕ, ◌≡◌, ◌∙◌, ap, refl, Bool, true, false, Result, ok, err, Tx}
use workflow_helper_public.Text.{Text, codes}
use workflow_helper_public.Platform.{Platform}
use workflow_helper_public.Audit.{AuditContext}
use workflow_helper_public.Scope.{qualify}
use workflow_helper_public.Auth.{ControlAction, AuthenticatedPrincipal, review_read}
use workflow_helper_public.Store.Candidates.{is_candidate_review_target}
use workflow_helper_public.Store.Rows.{ControlDb}
use workflow_helper_public.Service.Session.{
  ControlService, Request, Svc, ◌>>=◌, pure, attempt, read_store, in_store,
}
use workflow_helper_public.Service.Authorize.{authorize, require_scope}
use workflow_helper_public.Service.Denial.{authorize_sound}
use workflow_helper_public.Service.Reviews.{listed, list_reviews, unkeyed}

-- What a method that returned went through first.
pub bind-returned :
    {A B : Type 0} (m : Svc A) (f : A → Svc B) (s : ControlService) {b : B} {s' : ControlService}
    → (m >>= f) s ≡ (ok b, s')
    → (a : A) × (between : ControlService) × (m s ≡ (ok a, between)) × (f a between ≡ (ok b, s'))
unfolding ◌>>=◌
bind-returned {A} {B} m f s {b} {s'} h = inversion (m s) h
  where
    inversion :
        (r : Result A × ControlService)
        → (elim r.0 as (λ _. Result B × ControlService) [ ok a ↦ f a r.1 | err e ↦ (err e, r.1) ])
          ≡ (ok b, s')
        → (a : A) × (between : ControlService) × (r ≡ (ok a, between)) × (f a between ≡ (ok b, s'))
    inversion (ok a, between) h = (a, between, refl, h)
    inversion (err e, between) h = cc

pub attempt-returned :
    {A : Type 0} (r : Result A) (s : ControlService) {a : A} {s' : ControlService}
    → attempt r s ≡ (ok a, s')
    → (r ≡ ok a) × (s' ≡ s)
unfolding attempt
attempt-returned r s h = (cc, cc)

-- A transaction that returned committed what it leaves.
pub in_store-returned :
    {A : Type 0} (tx : Tx ControlDb A) (s : ControlService) {a : A} {s' : ControlService}
    → in_store tx s ≡ (ok a, s')
    → (db : ControlDb) × (tx s.store ≡ ok (a, db)) × (s' ≡ record s { store = db })
unfolding in_store
in_store-returned {A} tx s {a} {s'} h = inversion (tx s.store) refl h
  where
    inversion :
        (r : Result (A × ControlDb))
        → tx s.store ≡ r
        → ◌≡◌ {A = Result A × ControlService}
            (
              (elim r as (λ _. Result A × ControlDb) [
                | ok (b, db) ↦ (ok b, db)
                | err e ↦ (err e, s.store)
              ]).0,
              record s {
                store =
                    (elim r as (λ _. Result A × ControlDb) [
                      | ok (b, db) ↦ (ok b, db)
                      | err e ↦ (err e, s.store)
                    ]).1;
              },
            )
            (ok a, s')
        → (db : ControlDb) × (tx s.store ≡ ok (a, db)) × (s' ≡ record s { store = db })
    inversion (ok (b, db)) p h = (db, cc, cc)
    inversion (err e) p h = cc

-- A method that keeps the stores when it returns.
abbrev pub Keeps : {A : Type 0} → Svc A → Type 0
Keeps {A} m = (s : ControlService) (a : A) (s' : ControlService) → m s ≡ (ok a, s') → s' ≡ s

pub bind-Keeps :
    {A B : Type 0} (m : Svc A) (f : A → Svc B) → Keeps m → ((a : A) → Keeps (f a)) → Keeps (m >>= f)
bind-Keeps m f first next s b s' h =
    let (a, between, ran, went) = bind-returned m f s h in
    next a between b s' went ∙ first s a between ran

pub attempt-Keeps : {A : Type 0} (r : Result A) → Keeps (attempt r)
unfolding attempt
attempt-Keeps r s b s' h = cc

pub pure-Keeps : {A : Type 0} (a : A) → Keeps (pure a)
pure-Keeps a s b s' h = cc

read_store-Keeps : {A : Type 0} (read : ControlDb → Result A) → Keeps (read_store read)
unfolding read_store
read_store-Keeps read s b s' h = cc

pub authorize-Keeps :
    (platform : Platform) (principal : AuthenticatedPrincipal) (action : ControlAction)
    (target_id : Text) (request : Request)
    → Keeps (authorize platform principal action target_id request)
authorize-Keeps platform principal action target_id request s audit s' h =
    let (kept, _) =
      authorize_sound platform principal action target_id request s audit
        (ap (λ (r : Result AuditContext × ControlService). r.0) h) in
    cc

listed-Keeps :
    (platform : Platform) (principal : AuthenticatedPrincipal) (candidate : Bool) (target : Text)
    (after limit : ℕ)
    → Keeps (listed platform principal candidate target after limit)
unfolding listed
listed-Keeps platform principal true target after limit = read_store-Keeps _
listed-Keeps platform principal false target after limit = read_store-Keeps _

pub list_reviews-Keeps :
    (platform : Platform) (principal : AuthenticatedPrincipal) (target_id : Text) (after limit : ℕ)
    (request : Request)
    → Keeps (list_reviews platform principal target_id after limit request)
unfolding list_reviews
list_reviews-Keeps platform principal target_id after limit request =
    bind-Keeps (attempt (require_scope principal)) _ (attempt-Keeps _) λ scope.
      bind-Keeps (authorize platform principal review_read target_id (unkeyed request)) _
        (authorize-Keeps platform principal review_read target_id (unkeyed request))
        λ audit.
          bind-Keeps (attempt (qualify scope (codes "review_target") target_id)) _ (attempt-Keeps _)
            λ target.
              bind-Keeps
                (listed platform principal (is_candidate_review_target target_id) target after
                  limit)
                _
                (listed-Keeps platform principal (is_candidate_review_target target_id) target after
                  limit)
                λ events. attempt-Keeps _
