-- ===== src/Scope/RoundTrip.antt =====
-- What `qualify` accepts and writes, and that `unqualify` reads it back.
use workflow_helper_public.Base.{
  ◌+◌, ◌≤◌, ◌<◌, ◌≡◌, true, false, [], ◌∷◌, ◌++◌, arith, length, length-append, append_assoc,
  append-nil, take-append_length, ok, subst,
}
use workflow_helper_public.Text.{Text, is_blank, starts_with}
use workflow_helper_public.Text.Equality.{text_eq_refl}
use workflow_helper_public.Scope.{
  TenantWorkspaceScope, is_scope_id, is_kind, validate_scope, scope_prefix, kind_prefix, segment,
  qualify, read_segment, unqualify, key_version, max_int_digits, max_public_id_length,
}
use workflow_helper_public.Scope.Segment.{read_segment-segment}

pub length-is_scope_id :
    (s : Text) → is_scope_id s ≡ true → (0 < length s) × (length s < max_int_digits)
unfolding is_scope_id
length-is_scope_id [] h = cc
length-is_scope_id (c ∷ s) h = ground arith

pub length-is_kind : (s : Text) → is_kind s ≡ true → (0 < length s) × (length s < max_int_digits)
unfolding is_kind
length-is_kind [] h = cc
length-is_kind (c ∷ s) h = ground arith

not_blank-nonempty : (s : Text) → is_blank s ≡ false → 0 < length s
unfolding is_blank
not_blank-nonempty [] h = cc
not_blank-nonempty (c ∷ s) h = omega arith

-- The text in front of the object kind.
abbrev pub prefix_text : TenantWorkspaceScope → Text
prefix_text scope = key_version ++ segment scope.tenant_id ++ segment scope.workspace_id

pub record IsScope (scope : TenantWorkspaceScope) : Type 0 where
  pub tenant : is_scope_id scope.tenant_id ≡ true
  pub workspace : is_scope_id scope.workspace_id ≡ true

pub scope_prefix-ok :
    (scope : TenantWorkspaceScope) {prefix : Text}
    → scope_prefix scope ≡ ok prefix
    → IsScope scope × (prefix ≡ prefix_text scope)
unfolding scope_prefix validate_scope
scope_prefix-ok scope h = ground arith

pub scope_prefix_lem :
    (scope : TenantWorkspaceScope) → IsScope scope → scope_prefix scope ≡ ok (prefix_text scope)
unfolding scope_prefix validate_scope
scope_prefix_lem scope h = ground arith

pub record IsQualified (scope : TenantWorkspaceScope) (kind id key : Text) : Type 0 where
  pub scoped : IsScope scope
  pub kinded : is_kind kind ≡ true
  pub not_blank : is_blank id ≡ false
  pub bounded : length id ≤ max_public_id_length
  pub written : key ≡ prefix_text scope ++ segment kind ++ segment id

pub qualify-ok :
    (scope : TenantWorkspaceScope) (kind id : Text) {key : Text}
    → qualify scope kind id ≡ ok key
    → IsQualified scope kind id key
unfolding qualify kind_prefix scope_prefix validate_scope
qualify-ok scope kind id h = ground arith

pub id_bounds :
    {scope : TenantWorkspaceScope} {kind id key : Text}
    → IsQualified scope kind id key
    → (0 < length id) × (length id < max_int_digits)
id_bounds {id = id} q = omega (arith, not_blank-nonempty id q.not_blank)

module _ (prefix kind id : Text) (kind_bounds : (0 < length kind) × (length kind < max_int_digits))
    (id_bounds : (0 < length id) × (length id < max_int_digits)) where
  abbrev full_key : Text
  full_key = prefix ++ segment kind ++ segment id

  kind_read :
      read_segment full_key (length prefix) ≡ ok (kind, length prefix + length (segment kind))
  kind_read =
      rw (append_assoc prefix (segment kind) (segment id))
        (read_segment-segment prefix kind (segment id) kind_bounds.0 kind_bounds.1)

  id_read : read_segment full_key (length prefix + length (segment kind)) ≡ ok (id, length full_key)
  id_read = rw (length-append (prefix ++ segment kind) (segment id)) (
      rw (← length-append prefix (segment kind)) (
        subst
          (λ t.
            read_segment (prefix ++ segment kind ++ t) (length (prefix ++ segment kind))
            ≡ ok (id, length (prefix ++ segment kind) + length (segment id)))
          (append-nil (segment id))
          (read_segment-segment (prefix ++ segment kind) id [] id_bounds.0 id_bounds.1)))

  prefix_read : starts_with full_key prefix ≡ true
  unfolding starts_with
  prefix_read =
      rw
        (
          append_assoc prefix (segment kind) (segment id),
          take-append_length prefix (segment kind ++ segment id),
        )
        (text_eq_refl prefix)

-- `unqualify` takes back what `qualify` wrote: the caller sees its own identifier again.
pub unqualify-qualify :
    (scope : TenantWorkspaceScope) (kind id : Text) {key : Text}
    → qualify scope kind id ≡ ok key
    → unqualify scope kind key ≡ ok id
unfolding unqualify
unqualify-qualify scope kind id {key} h =
    let q = qualify-ok scope kind id h in
    let k = length-is_kind kind q.kinded in
    let i = id_bounds q in
    let prefix = prefix_text scope in
    rw q.written (
      ground (
        arith,
        scope_prefix_lem scope q.scoped,
        prefix_read prefix kind id k i,
        kind_read prefix kind id k i,
        id_read prefix kind id k i,
        text_eq_refl kind,
      ))
