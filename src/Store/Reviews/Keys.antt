-- ===== src/Store/Reviews/Keys.antt =====
-- The scope keys and the bounded values of candidate reviews in control_store.py, which keep their
-- own reading of a scope's prefix. Where the source asks `str.isdigit`, digits are the ASCII ones.
use workflow_helper_public.Base.{
  ℕ, suc, ◌+◌, ◌*◌, Bool, true, false, ◌&&◌, ◌||◌, not, [], ◌∷◌, ◌++◌, Option, none, some, leb, ltb,
  ◌==◌, if◌then◌else◌, length, drop, all, Error, value_error, conflict_error, type_error, Result,
  ok, err, reject_if,
}
use workflow_helper_public.Text.{
  Text, codes, text_eq, is_blank, is_digit, starts_with, slice, find_from,
}
use workflow_helper_public.Text.Decimal.{print, parse}
use workflow_helper_public.Json.{
  Json, null, text, object, Fields, get_field, loaded, loaded_value, canonical_json,
}
use workflow_helper_public.Checks.{is_sha256}
use workflow_helper_public.Audit.{◌then_check◌}
use workflow_helper_public.Scope.{
  TenantWorkspaceScope, key_version, is_scope_id, segment, scope_prefix,
}
use workflow_helper_public.Store.Candidates.{publication_skill}

-- One round of the loop in `_valid_scope_key`: where the segment at an offset ends. A length text
-- of more than two digits is no length up to 64.
scope_segment : Text → ℕ → Option ℕ
unfolding is_scope_id find_from is_digit text_eq
scope_segment value offset = elim (find_from b':' value offset) [
  | none ↦ none
  | some separator ↦
      let digits = slice value offset separator in
      if leb separator offset || not (all is_digit digits) || ltb 2 (length digits)
      then none
      else let end = suc separator + parse digits in
        if ltb (parse digits) 3
          || ltb 64 (parse digits)
          || ltb (length value) end
          || not (text_eq digits (print (parse digits)))
          || not (is_scope_id (slice value (suc separator) end))
        then none
        else some end
]

-- `_valid_scope_key`
unfoldable pub valid_scope_key : Text → Bool
unfolding scope_segment starts_with
valid_scope_key value =
    starts_with value key_version && elim (scope_segment value (length key_version)) [
      | none ↦ false
      | some offset ↦ elim (scope_segment value offset) [
        | none ↦ false
        | some end ↦ end == length value
      ]
    ]

-- What a caller passes as `scope`: a key or the scope itself.
pub data ScopeValue : Type 0 where
  scope_text : Text → ScopeValue
  scope_object : TenantWorkspaceScope → ScopeValue

abbrev invalid_scope : Error
invalid_scope = value_error "candidate review scope is invalid"

-- `_scope_key`
unfoldable pub scope_key : Option ScopeValue → Result Text
unfolding valid_scope_key scope_prefix
scope_key none = err (value_error "candidate review scope is required")
scope_key (some (scope_text value)) = if valid_scope_key value then ok value else err invalid_scope
scope_key (some (scope_object scope)) = elim (scope_prefix scope) [
  | err e ↦ err invalid_scope
  | ok key ↦ if valid_scope_key key then ok key else err invalid_scope
]

-- `_qualify_scope_key`
unfoldable pub qualify_scope_key : Text → Text → Text → Result Text
unfolding segment
qualify_scope_key key object_kind public_id =
    if is_blank public_id
    then err (value_error "candidate review identifier is invalid")
    else ok (key ++ segment object_kind ++ segment public_id)

abbrev invalid_qualified : Error
invalid_qualified = value_error "candidate qualified idempotency key is invalid"

-- Whether what follows the prefix is one whole segment.
is_whole_segment : Text → Bool
unfolding find_from is_digit
is_whole_segment public = elim (find_from b':' public 0) [
  | none ↦ false
  | some separator ↦
      let digits = slice public 0 separator in
      let value = drop (suc separator) public in
      ltb 0 separator
      && all is_digit digits
      && leb (length digits) 4300
      && leb 1 (parse digits)
      && leb (parse digits) 512
      && length value == parse digits
]

-- `qualified_idempotency_key or idempotency_key`
abbrev selected_key : Option Text → Option Text → Option Text
selected_key plain (some (c ∷ s)) = some (c ∷ s)
selected_key plain (some []) = plain
selected_key plain none = plain

abbrev keys_conflict : Option Text → Option Text → Bool
keys_conflict (some plain) (some qualified) = not (text_eq plain qualified)
keys_conflict _ _ = false

-- A selected key, inside the scope's own segment or put into it.
qualified_in : Text → Option Text → Text → Result Text
unfolding is_whole_segment starts_with segment is_blank
qualified_in key qualified selected =
    let prefix = key ++ segment (codes "review_idempotency") in
    if is_blank selected || ltb 512 (length selected)
    then err (value_error "candidate idempotency key is invalid")
    else if starts_with selected prefix
    then (if is_whole_segment (drop (length prefix) selected)
        then ok selected
        else err invalid_qualified)
    else elim qualified [
      | some _ ↦ err (conflict_error "candidate idempotency key is outside the server scope")
      | none ↦ ok (prefix ++ segment selected)
    ]

-- `_candidate_idempotency_key`
unfoldable pub candidate_idempotency_key : Text → Option Text → Option Text → Result Text
unfolding qualified_in
candidate_idempotency_key key plain qualified =
    if keys_conflict plain qualified
    then err (conflict_error "candidate idempotency keys conflict")
    else elim (selected_key plain qualified) [
      | none ↦ err (value_error "candidate idempotency key is invalid")
      | some selected ↦ qualified_in key qualified selected
    ]

-- `len(value.encode("utf-8"))`
utf8_length : Text → ℕ
utf8_length [] = 0
utf8_length (c ∷ s) =
    (if ltb c 128 then 1 else if ltb c 2048 then 2 else if ltb c 65536 then 3 else 4)
    + utf8_length s

abbrev max_review_evidence_bytes : ℕ
max_review_evidence_bytes = 16 * 1024

-- `_bounded_review_value`
unfoldable pub bounded_review_value : Json → Result Json
unfolding utf8_length canonical_json loaded_value
bounded_review_value null = ok null
bounded_review_value value =
    if ltb max_review_evidence_bytes (utf8_length (canonical_json (loaded_value value)))
    then err (value_error "candidate review value exceeds the byte limit")
    else ok (loaded_value value)

-- `_bounded_review_mapping`
unfoldable pub bounded_review_mapping : Fields → Result Fields
unfolding utf8_length canonical_json loaded
bounded_review_mapping fields =
    if ltb max_review_evidence_bytes (utf8_length (canonical_json (object (loaded fields))))
    then err (value_error "candidate review value exceeds the byte limit")
    else ok (loaded fields)

-- `isinstance(provenance.get(name), str) and provenance[name].strip()`
unfoldable pub is_present : Option Json → Bool
unfolding is_blank
is_present (some (text value)) = not (is_blank value)
is_present _ = false

-- `_require_sha256` of any value; the pattern takes nothing but a text.
require_digest : Option Json → Result (Unit {0})
unfolding is_sha256
require_digest (some (text value)) =
    reject_if (not (is_sha256 value)) (value_error "provenance.sha256")
require_digest _ = err (type_error "expected string or bytes-like object")

-- `_validate_review_provenance`
unfoldable pub validate_review_provenance : Fields → Result (Unit {0})
unfolding is_present require_digest get_field
validate_review_provenance provenance =
    reject_if (not (is_present (get_field (codes "source") provenance)))
      (value_error "provenance.source is required")
    then_check reject_if (not (is_present (get_field (codes "artifact_id") provenance)))
        (value_error "provenance.artifact_id is required")
    then_check reject_if (not (is_present (get_field (codes "revision") provenance)))
        (value_error "provenance.revision is required")
    then_check require_digest (get_field (codes "sha256") provenance)

-- `_require_candidate_publication_key`
unfoldable pub require_candidate_publication_key : Text → Result (Unit {0})
unfolding publication_skill
require_candidate_publication_key value = elim (publication_skill value) [
  | none ↦ err (value_error "candidate publication key is invalid")
  | some skill ↦ ok tt
]

-- `_MAX_REVIEW_REASON`
abbrev max_review_reason : ℕ
max_review_reason = 512

-- `reason is None`, or a text that is not blank and not too long.
unfoldable pub is_review_reason : Json → Bool
unfolding is_blank
is_review_reason null = true
is_review_reason (text reason) = not (is_blank reason) && leb (length reason) max_review_reason
is_review_reason _ = false
