-- ===== src/Headers.antt =====
-- app/services/download_headers.ts: the Content-Disposition header of a download, with
-- `encodeURIComponent`, which the update API uses for its links too.
pub mod Safe
mod Tests
use reeva.Prelude.{
  ℕ, ◌+◌, ◌-◌, ◌*◌, ◌/◌, ◌%◌, ◌≡◌, Bool, true, false, not, ◌&&◌, ◌||◌, Option, none, some, List, [],
  ◌∷◌, ◌++◌, Text, lit, leb, ltb, ◌==◌, if◌then◌else◌, is_digit, map,
}

-- UTF-16: a high surrogate waits for its low half.
abbrev pub is_high : ℕ → Bool
is_high c = leb 0xd800 c && leb c 0xdbff

abbrev pub is_low : ℕ → Bool
is_low c = leb 0xdc00 c && leb c 0xdfff

abbrev pub waiting : ℕ → Option ℕ
waiting c = if is_high c then some c else none

abbrev pub put_point : ℕ → Option (List ℕ) → Option (List ℕ)
put_point p none = none
put_point p (some rest) = some (p ∷ rest)

abbrev pub pair_point : ℕ → ℕ → ℕ
pair_point high low = 0x10000 + (high - 0xd800) * 0x400 + (low - 0xdc00)

-- The code points of a string; `none` for a lone surrogate
unfoldable pub points_from : Option ℕ → Text → Option (List ℕ)
points_from none [] = some []
points_from (some high) [] = none
points_from none (c ∷ s) =
    let rest = points_from (waiting c) s in
    if is_high c then rest else if is_low c then none else put_point c rest
points_from (some high) (c ∷ s) =
    let rest = points_from none s in if is_low c then put_point (pair_point high c) rest else none

-- UTF-8
unfoldable pub bytes_of : ℕ → List ℕ
bytes_of p =
    if ltb p 0x80
    then p ∷ []
    else if ltb p 0x800
    then (0xc0 + p / 64) ∷ (0x80 + p % 64) ∷ []
    else if ltb p 0x10000
    then (0xe0 + p / 4096) ∷ (0x80 + p / 64 % 64) ∷ (0x80 + p % 64) ∷ []
    else (0xf0 + p / 262144) ∷ (0x80 + p / 4096 % 64) ∷ (0x80 + p / 64 % 64) ∷ (0x80 + p % 64) ∷ []

-- An upper-case hexadecimal digit
abbrev pub hex_digit : ℕ → ℕ
hex_digit n = if ltb n 10 then 48 + n else 55 + n

abbrev pub percent : ℕ → Text
percent b = 37 ∷ hex_digit (b / 16) ∷ hex_digit (b % 16) ∷ []

-- What `encodeURIComponent` leaves as it is: letters, digits and `-_.!~*'()`
abbrev pub is_unreserved : ℕ → Bool
is_unreserved c =
    (leb b'A' c && leb c b'Z')
    || (leb b'a' c && leb c b'z')
    || is_digit c
    || c == b'-'
    || c == b'_'
    || c == b'.'
    || c == b'!'
    || c == b'~'
    || c == b'*'
    || c == 39
    || c == b'('
    || c == b')'

unfoldable pub percents : List ℕ → Text
percents [] = []
percents (b ∷ rest) = percent b ++ percents rest

unfoldable pub encode_points : List ℕ → Text
unfolding percents bytes_of
encode_points [] = []
encode_points (p ∷ rest) =
    (if is_unreserved p then p ∷ [] else percents (bytes_of p)) ++ encode_points rest

abbrev pub encoded : Option (List ℕ) → Option Text
encoded none = none
encoded (some points) = some (encode_points points)

-- `encodeURIComponent`; `none` is its URIError
unfoldable pub encode_uri_component : Text → Option Text
encode_uri_component s = encoded (points_from none s)

-- `codePoint <= 0x1f || codePoint === 0x7f`
abbrev pub is_control : ℕ → Bool
is_control c = leb c 0x1f || c == 0x7f

-- `safeFileName`: no code unit of a surrogate pair is a control character, so units do for points
unfoldable pub safe_file_name : Text → Text
safe_file_name = map (λ c. if is_control c then b'_' else c)

-- `/[^\x20-\x7e]|["\\;]/g`
abbrev pub is_unquotable : ℕ → Bool
is_unquotable c = not (leb 0x20 c && leb c 0x7e) || c == 34 || c == 92 || c == b';'

unfoldable pub fallback : Text → Text
fallback = map (λ c. if is_unquotable c then b'_' else c)

-- `/[!'()*]/g`
abbrev pub is_marked : ℕ → Bool
is_marked c = c == b'!' || c == 39 || c == b'(' || c == b')' || c == b'*'

unfoldable pub escape_marks : Text → Text
escape_marks [] = []
escape_marks (c ∷ s) = (if is_marked c then percent c else c ∷ []) ++ escape_marks s

abbrev pub header : Text → Option Text → Option Text
header name none = none
header name (some extended) = some (
    lit "attachment; filename="
    ++ (34 ∷ name)
    ++ (34 ∷ lit "; filename*=UTF-8''")
    ++ escape_marks extended)

-- `attachmentDisposition`; `none` where it throws
unfoldable pub attachment_disposition : Text → Option Text
attachment_disposition file_name =
    header (fallback (safe_file_name file_name)) (encode_uri_component (safe_file_name file_name))
