-- ===== src/Text.antt =====
-- Python's `str` as the list of its code points, and the tests that the control plane makes on one.
pub mod Equality
pub mod Decimal
pub mod Order
use Prim.Native.Char.{code}
use workflow_helper_public.Base.{
  ℕ, zero, suc, ◌+◌, ◌-◌, Bool, true, false, ◌&&◌, ◌||◌, String, List, [], ◌∷◌, Option, none, some,
  leb, ltb, ◌==◌, if◌then◌else◌, length, take, drop, all,
}

abbrev pub Text : Type 0
Text = List ℕ

-- A text literal.
abbrev pub codes : String → Text
codes String.[] = []
codes (String.◌∷◌ c s) = code c ∷ codes s

-- `==` on `str`.
unfoldable pub text_eq : Text → Text → Bool
text_eq [] [] = true
text_eq (c ∷ s) (d ∷ t) = if c == d then text_eq s t else false
text_eq _ _ = false

-- `==` on `str | None`.
abbrev pub opt_text_eq : Option Text → Option Text → Bool
opt_text_eq none none = true
opt_text_eq (some s) (some t) = text_eq s t
opt_text_eq _ _ = false

-- `str.isspace` of one character, the characters that `str.strip` removes.
unfoldable pub is_space : ℕ → Bool
is_space c =
    (leb 9 c && leb c 13)
    || (leb 28 c && leb c 32)
    || c == 133
    || c == 160
    || c == 5760
    || (leb 8192 c && leb c 8202)
    || c == 8232
    || c == 8233
    || c == 8239
    || c == 8287
    || c == 12288

-- `not value.strip()`
unfoldable pub is_blank : Text → Bool
unfolding is_space
is_blank = all is_space

unfoldable pub is_digit : ℕ → Bool
is_digit c = leb b'0' c && leb c b'9'

unfoldable pub is_lower : ℕ → Bool
is_lower c = leb b'a' c && leb c b'z'

-- `[a-z0-9]`
unfoldable pub is_alphanumeric : ℕ → Bool
unfolding is_lower is_digit
is_alphanumeric c = is_lower c || is_digit c

-- `[a-f0-9]`
unfoldable pub is_hex : ℕ → Bool
unfolding is_digit
is_hex c = is_digit c || (leb b'a' c && leb c b'f')

-- `[0-9a-f-]`
unfoldable pub is_uuid_char : ℕ → Bool
unfolding is_hex
is_uuid_char c = is_hex c || c == b'-'

-- `value.startswith(prefix)`
unfoldable pub starts_with : Text → Text → Bool
unfolding text_eq
starts_with value prefix = text_eq (take (length prefix) value) prefix

-- `value[start:end]`, for `start <= end`.
abbrev pub slice : Text → ℕ → ℕ → Text
slice value start end = take (end - start) (drop start value)

-- The first place of a character, counted from an offset of the caller.
unfoldable pub index_of : ℕ → ℕ → Text → Option ℕ
index_of c offset [] = none
index_of c offset (d ∷ s) = if d == c then some offset else index_of c (suc offset) s

-- `value.find(c, offset)`, with `none` for -1.
unfoldable pub find_from : ℕ → Text → ℕ → Option ℕ
unfolding index_of
find_from c value offset = index_of c offset (drop offset value)

-- A test that holds of some end of the text.
unfoldable pub any_suffix : (Text → Bool) → Text → Bool
any_suffix test [] = test []
any_suffix test (c ∷ s) = test (c ∷ s) || any_suffix test s

-- `part in value`
unfoldable pub occurs_in : Text → Text → Bool
unfolding any_suffix starts_with
occurs_in part value = any_suffix (λ rest. starts_with rest part) value

-- A full match of a pattern `[head][tail]{low,high}`.
unfoldable pub matches_head_tail : (ℕ → Bool) → (ℕ → Bool) → ℕ → ℕ → Text → Bool
matches_head_tail head tail low high [] = false
matches_head_tail head tail low high (c ∷ s) =
    head c && leb low (length s) && leb (length s) high && all tail s

drop_spaces : Text → Text
unfolding is_space
drop_spaces [] = []
drop_spaces (c ∷ s) = if is_space c then drop_spaces s else c ∷ s

-- `value.strip()`
unfoldable pub strip : Text → Text
unfolding drop_spaces
strip value = reverse_onto [] (drop_spaces (reverse_onto [] (drop_spaces value)))
  where
    reverse_onto : Text → Text → Text
    reverse_onto done [] = done
    reverse_onto done (c ∷ s) = reverse_onto (c ∷ done) s
