-- ===== src/Store/Candidates.antt =====
-- The patterns of control_store.py that name candidate skills, their publications and reviewers.
use workflow_helper_public.Base.{
  ℕ, suc, ◌+◌, Bool, ◌&&◌, ◌||◌, List, [], ◌∷◌, Option, none, some, ◌==◌, if◌then◌else◌, length,
  take, drop, all, is_some,
}
use workflow_helper_public.Text.{
  Text, codes, is_hex, is_uuid_char, starts_with, any_suffix, occurs_in, matches_head_tail,
  is_alphanumeric,
}
use workflow_helper_public.Checks.{is_sha256}

-- Groups of hexadecimal digits, of these lengths, with dashes between them.
hex_groups : List ℕ → Text → Bool
unfolding starts_with is_hex
hex_groups [] s = length s == 0
hex_groups (n ∷ []) s = length s == n && all is_hex s
hex_groups (n ∷ (m ∷ ns)) s =
    length (take n s) == n
    && all is_hex (take n s)
    && starts_with (drop n s) (codes "-")
    && hex_groups (m ∷ ns) (drop (suc n) s)

-- `_UUID_PATTERN`
unfoldable pub is_uuid : Text → Bool
unfolding hex_groups
is_uuid value = hex_groups (8 ∷ 4 ∷ 4 ∷ 4 ∷ 12 ∷ []) value

abbrev pub candidate_prefix : Text
candidate_prefix = codes "candidate-skill:1.0:"

abbrev digest_mark : Text
digest_mark = codes ":sha256:"

-- The groups `skill` and `content` of a full match, for a pattern of the skill's 36 characters.
match_target : (Text → Bool) → Text → Option (Text × Text)
unfolding starts_with is_sha256
match_target is_skill value =
    let rest = drop (length candidate_prefix) value in
    let content = drop (36 + length digest_mark) rest in
    if starts_with value candidate_prefix
      && length (take 36 rest) == 36
      && is_skill (take 36 rest)
      && starts_with (drop 36 rest) digest_mark
      && is_sha256 content
    then some (take 36 rest, content)
    else none

-- `_CANDIDATE_TARGET_PATTERN`
unfoldable pub candidate_target : Text → Option (Text × Text)
unfolding match_target is_uuid
candidate_target value = match_target is_uuid value

-- `$` also stands before a newline at the end.
without_newline : Text → Text
without_newline [] = []
without_newline (c ∷ []) = if c == 10 then [] else c ∷ []
without_newline (c ∷ (d ∷ s)) = c ∷ without_newline (d ∷ s)

-- `_is_candidate_review_target`
unfoldable pub is_candidate_review_target : Text → Bool
unfolding candidate_target without_newline occurs_in any_suffix
is_candidate_review_target value =
    is_some (candidate_target value)
    || occurs_in candidate_prefix value
      && any_suffix
          (λ rest.
            is_some (candidate_target rest) || is_some (candidate_target (without_newline rest)))
          value

abbrev or_else : Option (Text × Text) → Option (Text × Text) → Option (Text × Text)
or_else (some m) other = some m
or_else none other = other

-- The leftmost match of `re.search` with the pattern of `_validate_legacy_candidate_event`.
unfoldable pub search_legacy_target : Text → Option (Text × Text)
unfolding match_target without_newline is_uuid_char
search_legacy_target [] = none
search_legacy_target (c ∷ s) = or_else (match_target (λ skill. all is_uuid_char skill) (c ∷ s)) (
    or_else (match_target (λ skill. all is_uuid_char skill) (without_newline (c ∷ s)))
      (search_legacy_target s))

-- `_PUBLICATION_KEY_PATTERN`, with its group `skill`
unfoldable pub publication_skill : Text → Option Text
unfolding starts_with is_uuid
publication_skill value =
    let prefix = codes "candidate-publication:1.0:" in
    let skill = drop (length prefix) value in
    if starts_with value prefix && is_uuid skill then some skill else none

is_reviewer_char : ℕ → Bool
unfolding is_alphanumeric
is_reviewer_char c = is_alphanumeric c || c == b'_' || c == b'-'

-- `_REVIEWER_ID_PATTERN`
unfoldable pub is_reviewer_id : Text → Bool
unfolding starts_with matches_head_tail is_alphanumeric is_reviewer_char
is_reviewer_id value =
    let prefix = codes "reviewer_" in
    starts_with value prefix
    && matches_head_tail is_alphanumeric is_reviewer_char 2 63 (drop (length prefix) value)
