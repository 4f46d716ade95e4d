-- ===== src/Platform.antt =====
-- What the API takes from the platform: SHA-256, the float arithmetic of `datetime`, its ISO texts,
-- and the lower case of a text.
-- The stores write a time as `int(value.timestamp() * 1_000_000)` and read it as
-- `datetime.fromtimestamp(value / 1_000_000)`: both go through floats, so both are parameters.
use workflow_helper_public.Base.{
  ℕ, ◌+◌, ◌-◌, ◌*◌, Bool, true, Option, some, ◌++◌, length, take, value_error, Result, ok, err,
  if◌then◌else◌,
}
use workflow_helper_public.Text.{Text, codes}
use workflow_helper_public.Text.Decimal.{print, parse}

pub record Platform : Type 0 where
  -- `hashlib.sha256(text.encode("utf-8")).hexdigest()`
  pub sha256 : Text → Text
  -- `int(value.timestamp() * 1_000_000)`, of an instant counted in microseconds from 1970
  pub micros_of : ℕ → ℕ
  -- `datetime.fromtimestamp(value / 1_000_000, tz=UTC)`
  pub instant_of : ℕ → ℕ
  -- `value.astimezone(UTC).isoformat(timespec="microseconds").replace("+00:00", "Z")`
  pub iso_of : ℕ → Text
  -- `datetime.fromisoformat(text)`: whether it has a time zone and its instant, or an exception
  pub instant_of_iso : Text → Option (Bool × ℕ)
  -- `text.lower()`, by the tables of Unicode
  pub lower : Text → Text

-- A `datetime` from 1970 on: whether it has a time zone, and its instant in microseconds.
pub record Timestamp : Type 0 where
  pub aware : Bool
  pub instant : ℕ

abbrev pub micros_per_second : ℕ
micros_per_second = 1000000

-- `value + timedelta(seconds=seconds)`
abbrev pub add_seconds : Timestamp → ℕ → Timestamp
add_seconds value seconds = record value { instant = value.instant + seconds * micros_per_second }

-- `_to_micros`
abbrev pub to_micros : Platform → Timestamp → Result ℕ
to_micros platform value =
    if value.aware
    then ok (platform.micros_of value.instant)
    else err (value_error "timestamps must be timezone-aware")

-- `_from_micros`
abbrev pub from_micros : Platform → ℕ → Timestamp
from_micros platform value = record { aware = true; instant = platform.instant_of value }

-- A platform to run on: exact times, written in microseconds, and a text for its own digest
-- and its own lower case.
abbrev pub exact_platform : Platform
exact_platform = record {
  sha256 = λ text. text;
  micros_of = λ n. n;
  instant_of = λ n. n;
  iso_of = λ n. print n ++ codes "Z";
  lower = λ text. text;
  instant_of_iso = λ text. some (true, parse (take (length text - 1) text));
}
