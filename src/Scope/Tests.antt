-- ===== src/Scope/Tests.antt =====
-- Keys written and read, and the theorems about them at concrete scopes.
use workflow_helper_public.Base.{◌≡◌, refl, ok, err, value_error}
use workflow_helper_public.Text.{
  Text, codes, text_eq, is_blank, is_digit, is_lower, is_space, starts_with, find_from,
  matches_head_tail,
}
use workflow_helper_public.Text.Decimal.{print, parse}
use workflow_helper_public.Scope.{
  TenantWorkspaceScope, is_scope_id, is_kind, validate_scope, scope_prefix, kind_prefix, segment,
  qualify, read_segment, read_body, unqualify,
}
use workflow_helper_public.Scope.RoundTrip.{unqualify-qualify}
use workflow_helper_public.Scope.Isolation.{unqualify_authentic}

-- The code that a run goes through.
scope_code : Unit {0}
unfolding text_eq is_blank is_digit is_lower is_space starts_with find_from matches_head_tail print
    parse is_scope_id is_kind validate_scope scope_prefix kind_prefix segment qualify read_segment
    read_body unqualify
scope_code = tt

abbrev acme : TenantWorkspaceScope
acme = record { tenant_id = codes "acme"; workspace_id = codes "plant-1" }

abbrev job_key : Text
job_key = codes "whscope1|4:acme7:plant-13:job5:job:7"

job_qualified : qualify acme (codes "job") (codes "job:7") ≡ ok job_key
unfolding scope_code
job_qualified = refl

other_kind_refused :
    unqualify acme (codes "review_target") job_key
    ≡ err (value_error "internal key has an unexpected object kind")
unfolding scope_code
other_kind_refused = refl

unqualify-qualify_example : unqualify acme (codes "job") job_key ≡ ok (codes "job:7")
unqualify-qualify_example = unqualify-qualify acme (codes "job") (codes "job:7") job_qualified

abbrev acme_prefix : Text
acme_prefix = codes "whscope1|4:acme7:plant-1"

read_back : unqualify acme (codes "job") job_key ≡ ok (codes "job:7")
unfolding scope_code
read_back = refl

unqualify_authentic_example :
    (acme.tenant_id ≡ acme.tenant_id)
    × (acme.workspace_id ≡ acme.workspace_id)
    × (codes "job" ≡ codes "job")
    × (codes "job:7" ≡ codes "job:7")
unqualify_authentic_example =
    unqualify_authentic acme acme (codes "job") (codes "job") (codes "job:7") (codes "job:7")
      job_qualified read_back
