-- ===== src/Auth.antt =====
-- apps/api/src/workflow_api/control_auth.py: principals, their roles and the actions of a role.
pub mod Separation
mod Tests
use workflow_helper_public.Base.{
  ℕ, ◌+◌, Bool, true, false, ◌&&◌, ◌||◌, not, List, [], ◌∷◌, map, Option, none, some, ◌==◌,
  if◌then◌else◌, count, any, select, Error, value_error, authorization_denied, Result, ok, err,
  reject_if, ltb,
}
use workflow_helper_public.Text.{
  Text, codes, is_lower, is_digit, matches_head_tail, is_alphanumeric,
}
use workflow_helper_public.Scope.{TenantWorkspaceScope, validate_scope}

pub data ControlRole : Type 0 where
  capture_uploader deterministic_worker reviewer audit_reader : ControlRole
  retention_steward safety_steward : ControlRole

pub data ControlAction : Type 0 where
  session_register session_presign session_upload_complete session_list session_read : ControlAction
  session_timeline_read session_processing_complete : ControlAction
  job_register job_acquire job_heartbeat job_complete review_append review_read : ControlAction
  audit_read retention_register retention_read retention_hold retention_stage_trash : ControlAction
  retention_attest_delete safety_read safety_engage : ControlAction

-- `ControlAction.value`
unfoldable pub action_value : ControlAction → Text
action_value session_register = codes "session.register"
action_value session_presign = codes "session.presign"
action_value session_upload_complete = codes "session.upload_complete"
action_value session_list = codes "session.list"
action_value session_read = codes "session.read"
action_value session_timeline_read = codes "session.timeline_read"
action_value session_processing_complete = codes "session.processing_complete"
action_value job_register = codes "job.register"
action_value job_acquire = codes "job.acquire"
action_value job_heartbeat = codes "job.heartbeat"
action_value job_complete = codes "job.complete"
action_value review_append = codes "review.append"
action_value review_read = codes "review.read"
action_value audit_read = codes "audit.read"
action_value retention_register = codes "retention.register"
action_value retention_read = codes "retention.read"
action_value retention_hold = codes "retention.hold"
action_value retention_stage_trash = codes "retention.stage_trash"
action_value retention_attest_delete = codes "retention.attest_delete"
action_value safety_read = codes "safety.read"
action_value safety_engage = codes "safety.engage"

-- `ControlRole.value`
unfoldable pub role_value : ControlRole → Text
role_value capture_uploader = codes "capture_uploader"
role_value deterministic_worker = codes "deterministic_worker"
role_value reviewer = codes "reviewer"
role_value audit_reader = codes "audit_reader"
role_value retention_steward = codes "retention_steward"
role_value safety_steward = codes "safety_steward"

-- `action in _ROLE_ACTIONS[role]`
unfoldable pub permits : ControlRole → ControlAction → Bool
permits capture_uploader session_register = true
permits capture_uploader session_presign = true
permits capture_uploader session_upload_complete = true
permits deterministic_worker session_processing_complete = true
permits deterministic_worker job_register = true
permits deterministic_worker job_acquire = true
permits deterministic_worker job_heartbeat = true
permits deterministic_worker job_complete = true
permits reviewer session_list = true
permits reviewer session_read = true
permits reviewer session_timeline_read = true
permits reviewer review_append = true
permits reviewer review_read = true
permits audit_reader audit_read = true
permits retention_steward retention_register = true
permits retention_steward retention_read = true
permits retention_steward retention_hold = true
permits retention_steward retention_stage_trash = true
permits retention_steward retention_attest_delete = true
permits safety_steward safety_read = true
permits safety_steward safety_engage = true
permits _ _ = false

-- A `frozenset[ControlRole]` by its membership test.
abbrev pub RoleSet : Type 0
RoleSet = ControlRole → Bool

-- Every role, in the order in which `sorted` puts the values.
abbrev pub all_roles : List ControlRole
all_roles =
    audit_reader ∷ capture_uploader ∷ deterministic_worker ∷ retention_steward ∷ reviewer
    ∷ safety_steward ∷ []

-- `role in _EXCLUSIVE_ROLES`
abbrev pub is_exclusive : ControlRole → Bool
is_exclusive retention_steward = true
is_exclusive safety_steward = true
is_exclusive _ = false

pub record AuthenticatedPrincipal : Type 0 where
  pub subject : Text
  pub roles : RoleSet
  pub scope : Option TenantWorkspaceScope

is_subject_char : ℕ → Bool
unfolding is_alphanumeric
is_subject_char c = is_alphanumeric c || c == b'.' || c == b'_' || c == b':' || c == b'-'

-- `_SUBJECT_PATTERN`
pub is_subject : Text → Bool
unfolding matches_head_tail is_alphanumeric is_subject_char
is_subject = matches_head_tail is_alphanumeric is_subject_char 2 127

abbrev validate_optional_scope : Option TenantWorkspaceScope → Result (Unit {0})
validate_optional_scope none = ok tt
validate_optional_scope (some scope) = validate_scope scope

-- The set holds an exclusive role and is not that role alone.
mixes_exclusive : RoleSet → Bool
mixes_exclusive roles =
    any (λ role. roles role && is_exclusive role) all_roles && not (count roles all_roles == 1)

-- `AuthenticatedPrincipal(subject, roles, scope)` with its `__post_init__`.
pub authenticated_principal :
    Text → RoleSet → Option TenantWorkspaceScope → Result AuthenticatedPrincipal
authenticated_principal subject roles scope =
    if not (is_subject subject)
    then err (value_error "subject must be a bounded pseudonymous identifier")
    else elim (validate_optional_scope scope) [
      | err e ↦ err e
      | ok _ ↦
          if mixes_exclusive roles
          then err (value_error "must use an exclusive least-privilege identity")
          else ok (record { subject = subject; roles = roles; scope = scope })
    ]

-- `principal.allows(action)`
unfoldable pub allows : AuthenticatedPrincipal → ControlAction → Bool
unfolding permits
allows principal action = any (λ role. principal.roles role && permits role action) all_roles

-- `principal.require(action)`
unfoldable pub require : AuthenticatedPrincipal → ControlAction → Result (Unit {0})
require principal action =
    reject_if (not (allows principal action)) (authorization_denied "action forbidden")

-- `principal.role_values`
unfoldable pub role_values : AuthenticatedPrincipal → List Text
unfolding role_value
role_values principal = map role_value (select principal.roles all_roles)
