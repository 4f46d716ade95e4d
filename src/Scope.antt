-- ===== src/Scope.antt =====
-- apps/api/src/workflow_api/control_scope.py: keys qualified by tenant and workspace.
pub mod Segment
pub mod RoundTrip
pub mod Isolation
mod Tests
use workflow_helper_public.Base.{
  ℕ, suc, ◌+◌, Bool, true, false, ◌&&◌, ◌||◌, not, List, [], ◌∷◌, ◌++◌, Option, none, some, leb,
  ltb, ◌==◌, if◌then◌else◌, length, take, drop, all, Error, value_error, Result, ok, err,
}
use workflow_helper_public.Text.{
  Text, codes, text_eq, is_blank, is_digit, is_lower, starts_with, slice, find_from,
  matches_head_tail, is_alphanumeric,
}
use workflow_helper_public.Text.Decimal.{print, parse}

abbrev pub key_version : Text
key_version = codes "whscope1|"

abbrev pub max_public_id_length : ℕ
max_public_id_length = 256

-- `int(text)` refuses a text of more digits than this.
abbrev pub max_int_digits : ℕ
max_int_digits = 4300

is_scope_char : ℕ → Bool
unfolding is_alphanumeric
is_scope_char c = is_alphanumeric c || c == b'.' || c == b'_' || c == b'-'

-- `_SCOPE_ID_PATTERN`
unfoldable pub is_scope_id : Text → Bool
unfolding is_alphanumeric is_scope_char matches_head_tail
is_scope_id = matches_head_tail is_alphanumeric is_scope_char 2 63

is_kind_char : ℕ → Bool
unfolding is_alphanumeric
is_kind_char c = is_alphanumeric c || c == b'_'

-- `_KIND_PATTERN`
unfoldable pub is_kind : Text → Bool
unfolding is_lower is_kind_char matches_head_tail
is_kind = matches_head_tail is_lower is_kind_char 1 31

pub record TenantWorkspaceScope : Type 0 where
  pub tenant_id : Text
  pub workspace_id : Text

-- The equality of the dataclass.
abbrev pub equal_scopes : TenantWorkspaceScope → TenantWorkspaceScope → Bool
equal_scopes s t = text_eq s.tenant_id t.tenant_id && text_eq s.workspace_id t.workspace_id

unfoldable pub validate_scope : TenantWorkspaceScope → Result (Unit {0})
validate_scope scope =
    if not (is_scope_id scope.tenant_id)
    then err (value_error "tenant_id must be an exact lowercase bounded identifier")
    else if not (is_scope_id scope.workspace_id)
    then err (value_error "workspace_id must be an exact lowercase bounded identifier")
    else ok tt

-- `_segment`: the length in decimal, a colon and the text.
unfoldable pub segment : Text → Text
segment value = print (length value) ++ b':' ∷ value

unfoldable pub scope_prefix : TenantWorkspaceScope → Result Text
scope_prefix scope = elim (validate_scope scope) [
  | err e ↦ err e
  | ok _ ↦ ok (key_version ++ segment scope.tenant_id ++ segment scope.workspace_id)
]

unfoldable pub kind_prefix : TenantWorkspaceScope → Text → Result Text
kind_prefix scope object_kind =
    if not (is_kind object_kind)
    then err (value_error "object kind must be an exact bounded identifier")
    else elim (scope_prefix scope) [
      | err e ↦ err e
      | ok prefix ↦ ok (prefix ++ segment object_kind)
    ]

unfoldable pub qualify : TenantWorkspaceScope → Text → Text → Result Text
qualify scope object_kind public_id = elim (kind_prefix scope object_kind) [
  | err e ↦ err e
  | ok prefix ↦
      if is_blank public_id || ltb max_public_id_length (length public_id)
      then err (value_error "public identifier must be a non-empty bounded string")
      else ok (prefix ++ segment public_id)
]

abbrev pub invalid_key : Error
invalid_key = value_error "invalid internal key"

-- The bounds of a segment whose length text is `length_text` and ends before `separator`.
read_body : Text → ℕ → Text → Result (Text × ℕ)
read_body value separator length_text =
    if length length_text == 0 || not (all is_digit length_text)
    then err invalid_key
    else if ltb max_int_digits (length length_text)
    then err (value_error "Exceeds the limit for integer string conversion")
    else let start = suc separator in
      let end = start + parse length_text in
      if ltb (parse length_text) 1 || ltb (length value) end
      then err invalid_key
      else ok (slice value start end, end)

unfoldable pub read_segment : Text → ℕ → Result (Text × ℕ)
unfolding read_body
read_segment value offset = elim (find_from b':' value offset) [
  | none ↦ err invalid_key
  | some separator ↦ read_body value separator (slice value offset separator)
]

-- The tests of `unqualify` on the kind and on the end, when both segments are read.
unqualify_last : Text → Text → Text → Result (Text × ℕ) → Result Text
unqualify_last internal_key object_kind parsed_kind (err e) = err e
unqualify_last internal_key object_kind parsed_kind (ok (public_id, end)) =
    if not (text_eq parsed_kind object_kind) || not (end == length internal_key)
    then err (value_error "internal key has an unexpected object kind")
    else ok public_id

-- The second segment, behind a kind that was read.
unqualify_rest : Text → Text → Result (Text × ℕ) → Result Text
unfolding unqualify_last read_segment
unqualify_rest internal_key object_kind (err e) = err e
unqualify_rest internal_key object_kind (ok (parsed_kind, offset)) =
    unqualify_last internal_key object_kind parsed_kind (read_segment internal_key offset)

unqualify_in : Text → Text → Result Text → Result Text
unfolding unqualify_rest
unqualify_in internal_key object_kind (err e) = err e
unqualify_in internal_key object_kind (ok prefix) =
    if not (starts_with internal_key prefix)
    then err (value_error "internal key is outside the authorized scope")
    else unqualify_rest internal_key object_kind (read_segment internal_key (length prefix))

unfoldable pub unqualify : TenantWorkspaceScope → Text → Text → Result Text
unfolding unqualify_in
unqualify scope object_kind internal_key =
    unqualify_in internal_key object_kind (scope_prefix scope)
