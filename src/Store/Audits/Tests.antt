-- ===== src/Store/Audits/Tests.antt =====
-- Audit events of two scopes, read at a concrete store.
use workflow_helper_public.Base.{◌≡◌, refl, true, false, List, [], ◌∷◌, ◌++◌, none, ok, find}
use workflow_helper_public.Text.{Text, codes, text_eq, is_blank}
use workflow_helper_public.Platform.{exact_platform}
use workflow_helper_public.Checks.{require_text}
use workflow_helper_public.Audit.{
  validate_audit_context, AuditContext, AuditEventRow, audit_row, append_audit, append_valid,
}
use workflow_helper_public.Store.Rows.{ControlDb, empty_db}
use workflow_helper_public.Store.Audits.{audit_event_from_row, scoped_rows, get_scoped_audit_event}
use workflow_helper_public.Store.Audits.Numbering.{IsNumbered}
use workflow_helper_public.Store.Audits.Scoped.{option_map, get_scoped_as_listed}

abbrev context : Text → AuditContext
context target = record {
  correlation_id = codes "c1";
  idempotency_key = none;
  subject_id = codes "worker_one";
  roles = codes "deterministic_worker" ∷ [];
  action = codes "job.acquire";
  target_id = target;
  result = codes "accepted";
  occurred_at = record { aware = true; instant = 5 };
}

abbrev here : Text
here = codes "whscope1|4:acme"

abbrev elsewhere : Text
elsewhere = codes "whscope1|5:other"

-- The second of three events is of another scope.
abbrev log : List AuditEventRow
log =
    audit_row (codes "a1") (context (here ++ codes "4:main")) 5 1
    ∷ audit_row (codes "a2") (context (elsewhere ++ codes "4:main")) 6 2
    ∷ audit_row (codes "a3") (context (here ++ codes "4:main")) 7 3
    ∷ []

abbrev db : ControlDb
db = record empty_db { audit_events = log }

audit_code : Unit {0}
unfolding append_audit append_valid audit_row is_blank text_eq validate_audit_context require_text
audit_code = tt

log-IsNumbered : IsNumbered 0 log
unfolding audit_code
log-IsNumbered = (refl, (refl, (refl, tt)))

here_text : is_blank here ≡ false
unfolding audit_code
here_text = refl

id_text : is_blank (codes "a3") ≡ false
unfolding audit_code
id_text = refl

-- The third event is the second of its scope.
get_scoped_as_listed_example :
    get_scoped_audit_event exact_platform (codes "a3") here db
    ≡ ok (
        option_map (audit_event_from_row exact_platform) (
          find
            (λ (row : AuditEventRow). text_eq row.event_id (codes "a3"))
            (scoped_rows 1 here log)))
get_scoped_as_listed_example =
    get_scoped_as_listed exact_platform (codes "a3") here db id_text here_text log-IsNumbered
