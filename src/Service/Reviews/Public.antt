-- ===== src/Service/Reviews/Public.antt =====
-- What `ControlService` shows of review and audit rows: the scope's own names, and candidate JSON
-- without the server's bindings.
pub mod Hidden
mod Tests
use workflow_helper_public.Base.{
  ◌-◌, Bool, ◌&&◌, ◌||◌, List, [], ◌∷◌, Option, none, some, if◌then◌else◌, length, drop, any,
  Result, ok, err,
}
use workflow_helper_public.Text.{Text, codes, text_eq, starts_with}
use workflow_helper_public.Json.{
  Json, null, boolean, number, text, array, object, Items, nil, cons, Fields, end, field, has_field,
}
use workflow_helper_public.Platform.{Platform}
use workflow_helper_public.Audit.{contains}
use workflow_helper_public.Scope.{TenantWorkspaceScope, unqualify, key_version}
use workflow_helper_public.Store.Candidates.{is_candidate_review_target}
use workflow_helper_public.Store.ReviewRows.{ReviewEvent, ReviewProjection}
use workflow_helper_public.Store.Audits.{AuditEvent}

abbrev pub hidden : List Text
hidden =
    codes "scope"
    ∷ codes "qualified_idempotency_key"
    ∷ codes "qualified_review_target_id"
    ∷ codes "server_scope"
    ∷ []

abbrev sensitive_exact : List Text
sensitive_exact =
    codes "authorization"
    ∷ codes "canonical_bytes"
    ∷ codes "credential"
    ∷ codes "credentials"
    ∷ codes "derivation_evidence_jcs"
    ∷ codes "password"
    ∷ codes "raw_artifact"
    ∷ codes "reservation_epoch"
    ∷ codes "reservation_expires_at_us"
    ∷ codes "reservation_owner_id"
    ∷ codes "secret"
    ∷ codes "signed_url"
    ∷ codes "token"
    ∷ codes "url"
    ∷ codes "uri"
    ∷ []

-- `value.endswith(suffix)`
ends_with : Text → Text → Bool
unfolding text_eq
ends_with value suffix = text_eq (drop (length value - length suffix) value) suffix

-- A key that an event of the lifecycle does not show.
unfoldable pub is_sensitive : Platform → Text → Bool
unfolding text_eq ends_with
is_sensitive platform key =
    let low = platform.lower key in
    contains sensitive_exact low
    || ends_with low (codes "_url")
    || ends_with low (codes "_uri")
    || ends_with low (codes "_token")

-- A text that names a place outside.
unfoldable pub is_locator : Platform → Text → Bool
unfolding starts_with
is_locator platform value =
    any (λ scheme. starts_with (platform.lower value) scheme)
      (codes "http://" ∷ codes "https://" ∷ codes "file://" ∷ codes "s3://" ∷ codes "gs://" ∷ [])

-- Whether a key is dropped, and whether a text is.
unfoldable pub is_dropped : Platform → Bool → Text → Bool
unfolding is_sensitive text_eq
is_dropped platform lifecycle key = contains hidden key || lifecycle && is_sensitive platform key

unfoldable pub is_blanked : Platform → Bool → Text → Bool
unfolding starts_with is_locator
is_blanked platform lifecycle value =
    starts_with value key_version || lifecycle && is_locator platform value

-- `clean`
mutual
  unfolding is_dropped is_blanked

  clean : Platform → Bool → Json → Json
  clean platform lifecycle null = null
  clean platform lifecycle (boolean b) = boolean b
  clean platform lifecycle (number n) = number n
  clean platform lifecycle (text value) =
      if is_blanked platform lifecycle value then null else text value
  clean platform lifecycle (array items) = array (clean_items platform lifecycle items)
  clean platform lifecycle (object fields) = object (clean_fields platform lifecycle fields)

  clean_items : Platform → Bool → Items → Items
  clean_items platform lifecycle nil = nil
  clean_items platform lifecycle (cons item rest) =
      cons (clean platform lifecycle item) (clean_items platform lifecycle rest)

  clean_fields : Platform → Bool → Fields → Fields
  clean_fields platform lifecycle end = end
  clean_fields platform lifecycle (field key value rest) =
      let others = clean_fields platform lifecycle rest in
      let shown = clean platform lifecycle value in
      if is_dropped platform lifecycle key then others else field key shown others

-- `_public_candidate_json`
unfoldable pub public_candidate_json : Platform → Fields → Fields
unfolding clean_fields has_field
public_candidate_json platform value =
    clean_fields platform
      (has_field (codes "lifecycle_schema_version") value
        || has_field (codes "publication_key") value)
      value

-- The JSON of a target's event, cleaned where the target is a candidate.
unfoldable pub shown_json : Platform → Text → Fields → Fields
unfolding is_candidate_review_target public_candidate_json
shown_json platform target_id value =
    if is_candidate_review_target target_id then public_candidate_json platform value else value

-- `_public_review_event`
unfoldable pub public_review_event :
    Platform → TenantWorkspaceScope → ReviewEvent → Result ReviewEvent
unfolding shown_json
public_review_event platform scope value =
    elim (unqualify scope (codes "review_target") value.target_id) [
      | err e ↦ err e
      | ok target_id ↦ elim (unqualify scope (codes "review_idempotency") value.idempotency_key) [
        | err e ↦ err e
        | ok key ↦ ok (record value {
          target_id = target_id;
          idempotency_key = key;
          provenance = shown_json platform target_id value.provenance;
          detail = shown_json platform target_id value.detail;
        })
      ]
    ]

-- `_public_review_projection`
unfoldable pub public_review_projection :
    Platform → TenantWorkspaceScope → ReviewProjection → Result ReviewProjection
unfolding shown_json
public_review_projection platform scope value =
    elim (unqualify scope (codes "review_target") value.target_id) [
      | err e ↦ err e
      | ok target_id ↦ ok (record value {
        target_id = target_id;
        provenance = shown_json platform target_id value.provenance;
        detail = shown_json platform target_id value.detail;
      })
    ]

abbrev public_key : TenantWorkspaceScope → Option Text → Result (Option Text)
public_key scope none = ok none
public_key scope (some key) = elim (unqualify scope (codes "audit_idempotency") key) [
  | err e ↦ err e
  | ok public ↦ ok (some public)
]

-- `_public_audit_event`
unfoldable pub public_audit_event : TenantWorkspaceScope → AuditEvent → Result AuditEvent
public_audit_event scope value = elim (public_key scope value.idempotency_key) [
  | err e ↦ err e
  | ok key ↦ elim (unqualify scope (codes "audit_target") value.target_id) [
    | err e ↦ err e
    | ok target ↦ ok (record value { idempotency_key = key; target_id = target })
  ]
]

-- `None if value is None else show(value)`
unfoldable pub optionally {ℓ} : {A B : Type ℓ} → (A → Result B) → Option A → Result (Option B)
optionally show none = ok none
optionally show (some value) = elim (show value) [ err e ↦ err e | ok shown ↦ ok (some shown) ]
