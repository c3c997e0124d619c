-- ===== src/Input.antt =====
-- Values of a request, of which the code knows nothing before it has looked, and the readers of
-- app/services/pagination.ts, app/services/version_service.ts and
-- app/controllers/api/updater_controller.ts that check them.
-- A JavaScript number is given by its `String(value)` text, which is all that the readers take of
-- it; for a text of digits `Number(text)` is a safe integer exactly if its decimal value is one.
pub mod Laws
mod Tests
use reeva.Prelude.{
  ℕ, ◌-◌, ◌^◌, Bool, true, false, not, ◌&&◌, ◌||◌, Option, none, some, List, ◌∷◌, [], Text, lit,
  same, every, exists, length, leb, ◌==◌, if◌then◌else◌, trim, is_digit, is_empty, value_of,
}

pub data Value : Type 0 where
  undefined : Value
  null : Value
  bool : Bool → Value
  number : Text → Value
  text : Text → Value
  -- an array, an object or a file
  object : Value

-- `Number.MAX_SAFE_INTEGER`
abbrev pub max_safe : ℕ
max_safe = 2 ^ 53 - 1

-- `/^\d+$/`
unfoldable pub is_digits : Text → Bool
is_digits s = not (is_empty s) && every is_digit s

-- `!value`
abbrev pub is_falsy : Value → Bool
is_falsy undefined = true
is_falsy null = true
is_falsy (bool b) = not b
is_falsy (number s) = same s (lit "0") || same s (lit "NaN")
is_falsy (text s) = is_empty s
is_falsy object = false

-- `typeof value === 'string' || typeof value === 'number'`, with `String(value)`
abbrev pub scalar_text : Value → Option Text
scalar_text (number s) = some s
scalar_text (text s) = some s
scalar_text _ = none

unfoldable pub in_range : ℕ → ℕ → Option ℕ
in_range maximum n = if leb n max_safe && leb 1 n && leb n maximum then some n else none

unfoldable pub positive : ℕ → Option Text → Option ℕ
unfolding is_digits in_range
positive maximum none = none
positive maximum (some s) = if is_digits s then in_range maximum (value_of s) else none

-- `parsePage`; `null` is `none`
unfoldable pub parse_page : Value → ℕ → ℕ → Option ℕ
unfolding positive
parse_page value fallback maximum =
    if is_falsy value then some fallback else positive maximum (scalar_text value)

-- `value === undefined || value === ''`
abbrev pub is_missing : Value → Bool
is_missing undefined = true
is_missing (text s) = is_empty s
is_missing _ = false

-- `positiveInteger`
unfoldable pub positive_integer : Value → ℕ → ℕ → Option ℕ
unfolding positive
positive_integer value fallback maximum =
    if is_missing value then some fallback else positive maximum (scalar_text value)

-- `parsePart` of `parseVersionParts`: `/^\d{1,9}$/`
unfoldable pub part_of : Option Text → Option ℕ
unfolding is_digits
part_of none = none
part_of (some s) =
    if is_digits s && leb (length s) 9
    then if leb (value_of s) max_safe then some (value_of s) else none
    else none

unfoldable pub parse_part : Value → Option ℕ
unfolding part_of
parse_part value = part_of (scalar_text value)

-- `readText`. The source returns `null` for a refused value and `undefined` for a missing one;
-- the callers test both by truthiness.
unfoldable pub read_text : Value → Option Text
read_text (text s) =
    let t = trim s in if is_empty t then none else if leb (length t) 100 then some t else none
read_text _ = none

-- `/^[a-z0-9_-]+$/i`
abbrev pub is_name_unit : ℕ → Bool
is_name_unit c =
    (leb b'a' c && leb c b'z') || (leb b'A' c && leb c b'Z') || is_digit c || c == b'_' || c == b'-'

unfoldable pub is_name : Text → Bool
is_name s = not (is_empty s) && every is_name_unit s

-- The release channels, a `Set` in the controller and arrays in the artifact service
abbrev pub channels : List Text
channels = lit "dev" ∷ lit "staging" ∷ lit "beta" ∷ lit "stable" ∷ []

unfoldable pub is_channel : Text → Bool
is_channel s = exists (same s) channels

pub record ReleaseContext : Type 0 where
  pub platform : Text
  pub arch : Text
  pub channel : Text

-- `request.input('channel', 'stable')`
abbrev pub or_stable : Value → Value
or_stable undefined = text (lit "stable")
or_stable v = v

unfoldable pub context_of : Option Text → Option Text → Option Text → Option ReleaseContext
unfolding is_name is_channel
context_of (some p) (some a) (some c) =
    if is_name p && is_name a && is_channel c
    then some (record { platform = p; arch = a; channel = c })
    else none
context_of _ _ _ = none

-- `releaseContext`, over the three inputs of the request
unfoldable pub release_context : Value → Value → Value → Option ReleaseContext
unfolding context_of read_text
release_context platform arch channel =
    context_of (read_text platform) (read_text arch) (read_text (or_stable channel))
