-- ===== src/Service/Reviews/Equality.antt =====
-- The equality tests of a capability, which hold of equal values and of no others.
use workflow_helper_public.Base.{◌≡◌, refl, true, ◌&&◌, List, [], ◌∷◌, Option, none, some, arith}
use workflow_helper_public.Text.{Text, text_eq}
use workflow_helper_public.Text.Equality.{text_eq→eq, text_eq_refl, opt_text_eq_iff}
use workflow_helper_public.Audit.{AuditContext}
use workflow_helper_public.Scope.{TenantWorkspaceScope, equal_scopes}
use workflow_helper_public.Auth.{AuthenticatedPrincipal, role_values}
use workflow_helper_public.Service.Reviews.Capability.{
  Bindings, same_texts, equal_optional_scopes, equal_principals, equal_audits, is_sealed,
}

pub same_texts_refl : (texts : List Text) → same_texts texts texts ≡ true
same_texts_refl [] = refl
same_texts_refl (t ∷ ts) = ground (arith, text_eq_refl t, same_texts_refl ts)

pub same_texts→eq : (ss ts : List Text) → same_texts ss ts ≡ true → ss ≡ ts
same_texts→eq [] [] h = refl
same_texts→eq [] (t ∷ ts) h = cc
same_texts→eq (s ∷ ss) [] h = cc
same_texts→eq (s ∷ ss) (t ∷ ts) h = ground (arith, text_eq→eq s t, same_texts→eq ss ts)

pub equal_scopes_refl : (s : TenantWorkspaceScope) → equal_scopes s s ≡ true
equal_scopes_refl s = ground (arith, text_eq_refl s.tenant_id, text_eq_refl s.workspace_id)

pub equal_scopes→eq : (s t : TenantWorkspaceScope) → equal_scopes s t ≡ true → s ≡ t
equal_scopes→eq s t h =
    ground (arith, text_eq→eq s.tenant_id t.tenant_id, text_eq→eq s.workspace_id t.workspace_id)

pub equal_principals_refl : (p : AuthenticatedPrincipal) → equal_principals p p ≡ true
unfolding equal_principals
equal_principals_refl p = by_scope p.scope
  where
    by_scope :
        (scope : Option TenantWorkspaceScope)
        → (text_eq p.subject p.subject
            && same_texts (role_values p) (role_values p)
            && equal_optional_scopes scope scope)
          ≡ true
    by_scope none = ground (arith, text_eq_refl p.subject, same_texts_refl (role_values p))
    by_scope (some scope) =
        ground
          (arith, text_eq_refl p.subject, same_texts_refl (role_values p), equal_scopes_refl scope)

equal_audits_refl : (a : AuditContext) → equal_audits a a ≡ true
unfolding equal_audits
equal_audits_refl a = ground (
  arith,
  text_eq_refl a.correlation_id,
  opt_text_eq_iff a.idempotency_key a.idempotency_key,
  text_eq_refl a.subject_id,
  same_texts_refl a.roles,
  text_eq_refl a.action,
  text_eq_refl a.target_id,
  text_eq_refl a.result,
)

pub is_sealed_refl : (b : Bindings) → is_sealed b b ≡ true
unfolding is_sealed
is_sealed_refl b = ground (
  arith,
  equal_principals_refl b.principal,
  equal_scopes_refl b.scope,
  text_eq_refl b.publication_key,
  text_eq_refl b.review_target_id,
  text_eq_refl b.correlation_id,
  text_eq_refl b.idempotency_key,
  equal_audits_refl b.audit,
)

-- Equal principals have one subject and one set of roles.
pub equal_principals→eq :
    (p q : AuthenticatedPrincipal)
    → equal_principals p q ≡ true
    → (p.subject ≡ q.subject) × (role_values p ≡ role_values q)
unfolding equal_principals
equal_principals→eq p q h =
    ground (arith, text_eq→eq p.subject q.subject, same_texts→eq (role_values p) (role_values q))
