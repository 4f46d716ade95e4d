-- ===== src/Checks.antt =====
-- The argument checks that the stores of the API share. An error carries the argument's name, the
-- part of its text that varies.
use workflow_helper_public.Base.{
  ◌*◌, ℕ, Bool, not, ◌||◌, ◌&&◌, String, length, all, ltb, ◌==◌, value_error, Result, reject_if,
}
use workflow_helper_public.Text.{Text, is_blank, is_hex}

-- `_SHA256_PATTERN.fullmatch(value)`
unfoldable pub is_sha256 : Text → Bool
is_sha256 value = length value == 64 && all is_hex value

-- `_require_text` of control_store.py
unfoldable pub require_text : String → Text → Result (Unit {0})
require_text name value = reject_if (is_blank value) (value_error name)

-- `_require_sha256`
unfoldable pub require_sha256 : String → Text → Result (Unit {0})
unfolding is_sha256
require_sha256 name value = reject_if (not (is_sha256 value)) (value_error name)

abbrev pub max_lease_seconds : ℕ
max_lease_seconds = 30 * 60

-- `_require_ttl`; an integer below 0 is refused as 0 is.
unfoldable pub require_ttl : ℕ → Result (Unit {0})
require_ttl ttl_seconds =
    reject_if (ltb ttl_seconds 1 || ltb max_lease_seconds ttl_seconds) (value_error "ttl_seconds")

-- `_require_pagination`; an integer below 0 for `limit` is refused as 0 is.
unfoldable pub require_pagination : ℕ → Result (Unit {0})
require_pagination limit =
    reject_if (ltb limit 1 || ltb 100 limit) (value_error "limit must be between 1 and 100")
