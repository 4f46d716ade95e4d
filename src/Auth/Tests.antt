-- ===== src/Auth/Tests.antt =====
-- Principals accepted and refused, and the theorems about them at concrete ones.
use workflow_helper_public.Base.{◌≡◌, refl, true, false, none, ok, err, value_error}
use workflow_helper_public.Text.{codes, is_lower, is_digit, matches_head_tail}
use workflow_helper_public.Auth.{
  reviewer, retention_steward, retention_read, retention_hold, AuthenticatedPrincipal, RoleSet,
  is_subject, authenticated_principal, mixes_exclusive, allows,
}
use workflow_helper_public.Auth.Separation.{role_of, steward_separated}

-- The code that a run goes through.
auth_code : Unit {0}
unfolding is_lower is_digit matches_head_tail is_subject authenticated_principal mixes_exclusive
    allows
auth_code = tt

abbrev only_steward : RoleSet
only_steward retention_steward = true
only_steward _ = false

abbrev steward_and_reviewer : RoleSet
steward_and_reviewer retention_steward = true
steward_and_reviewer reviewer = true
steward_and_reviewer _ = false

abbrev steward : AuthenticatedPrincipal
steward = record { subject = codes "steward-1"; roles = only_steward; scope = none }

steward_accepted : authenticated_principal (codes "steward-1") only_steward none ≡ ok steward
unfolding auth_code
steward_accepted = refl

mixture_refused :
    authenticated_principal (codes "steward-1") steward_and_reviewer none
    ≡ err (value_error "must use an exclusive least-privilege identity")
unfolding auth_code
mixture_refused = refl

steward_separated_example : role_of retention_hold ≡ role_of retention_read
unfolding auth_code
steward_separated_example =
    steward_separated (codes "steward-1") only_steward none retention_read retention_hold
      steward_accepted refl refl refl
