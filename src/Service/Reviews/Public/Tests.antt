-- ===== src/Service/Reviews/Public/Tests.antt =====
-- A candidate's event as `ControlService` shows it.
use workflow_helper_public.Base.{true, ◌++◌}
use workflow_helper_public.Text.{Text, codes}
use workflow_helper_public.Json.{Fields, end, field, text, object}
use workflow_helper_public.Scope.{TenantWorkspaceScope}
use workflow_helper_public.Store.ReviewRows.{ReviewEvent}

abbrev acme : TenantWorkspaceScope
acme = record { tenant_id = codes "acme"; workspace_id = codes "main" }

abbrev digest : Text
digest = codes "aaaaaaaaaaaaaaaaaaaaaaaaaaaaaaaaaaaaaaaaaaaaaaaaaaaaaaaaaaaaaaaa"

abbrev candidate : Text
candidate = codes "candidate-skill:1.0:00000000-0000-4000-8000-000000000001:sha256:" ++ digest

abbrev prefix : Text
prefix = codes "whscope1|4:acme4:main"

-- Its provenance holds the scope by name, and a text that is an internal key.
abbrev provenance : Fields
provenance = field (codes "scope") (text prefix) (
    field (codes "publication_key") (text (codes "p1"))
      (field (codes "note") (text (prefix ++ codes "3:job2:j1")) end))

abbrev event : ReviewEvent
event = record {
  sequence = 1;
  event_id = codes "e1";
  target_id = prefix ++ codes "13:review_target128:" ++ candidate;
  idempotency_key = prefix ++ codes "18:review_idempotency2:k1";
  actor_id = codes "reviewer_one";
  status = codes "pending";
  provenance = provenance;
  detail = field (codes "nested") (object provenance) end;
  occurred_at = record { aware = true; instant = 1 };
  content_digest = digest;
}
