-- ===== src/Storage/Config.antt =====
-- app/services/storage/s3_compatible_config.ts: the check of an S3-compatible configuration. A
-- configuration is an object of which the code knows nothing before it has looked; `URL` and
-- `Number` come from JavaScript.
use reeva.Prelude.{
  ℕ, suc, ◌/◌, ◌%◌, Bool, true, false, not, ◌&&◌, ◌||◌, Option, none, some, [], ◌∷◌, ◌++◌, reverse,
  Text, lit, same, leb, ◌==◌, every, is_empty, is_some, is_digit, is_space, trim, if◌then◌else◌,
  Result, ok, err, or_fail, require, ◌>>=◌, ◌>>◌, value_of,
}
use reeva.Input.{Value, undefined, null, bool, number, text, is_digits}

pub data Error : Type 0 where
  not_an_object empty_string invalid_integer invalid_port invalid_url invalid_path_style : Error
  invalid_bucket unpaired_keys token_without_keys too_long relative_root unsupported_driver : Error
  keys_while_clearing invalid_name invalid_quota row_not_found : Error

-- The fields of a stored configuration that the code reads
pub record ConfigRecord : Type 0 where
  pub driver : Value
  pub root : Value
  pub bucket : Value
  pub region : Value
  pub endpoint : Value
  pub port : Value
  pub use_ssl : Value
  pub force_path_style : Value
  pub max_attempts : Value
  pub connection_timeout_ms : Value
  pub socket_timeout_ms : Value
  pub download_url_ttl_seconds : Value
  pub access_key_id : Value
  pub access_key : Value
  pub secret_access_key : Value
  pub secret_key : Value
  pub session_token : Value

pub record S3Config : Type 0 where
  pub bucket : Text
  pub region : Text
  pub endpoint : Option Text
  pub access_key_id : Option Text
  pub secret_access_key : Option Text
  pub session_token : Option Text
  pub force_path_style : Bool
  pub max_attempts : ℕ
  pub connection_timeout_ms : ℕ
  pub socket_timeout_ms : ℕ
  pub download_url_ttl_seconds : ℕ

pub record Url : Type 0 where
  pub protocol : Text
  pub username : Text
  pub password : Text
  pub search : Text
  pub hash : Text
  pub pathname : Text
  pub host : Text

-- A finite number that is not negative, as a fraction over `suc denominator`
pub record Quantity : Type 0 where
  pub numerator : ℕ
  pub denominator : ℕ

-- JavaScript and Node: `new URL`, its setter of the path and its text, `Number`, where `none` stands
-- for NaN, an infinite or a negative number, `toLowerCase`, and `path.isAbsolute`
pub record Platform : Type 0 where
  pub parse_url : Text → Option Url
  pub set_pathname : Url → Text → Url
  pub url_text : Url → Text
  pub to_number : Value → Option Quantity
  pub lower : Text → Text
  pub is_absolute : Text → Bool

-- `value === undefined || value === null || value === ''`
abbrev pub is_unset : Value → Bool
is_unset undefined = true
is_unset null = true
is_unset (text s) = is_empty s
is_unset _ = false

-- `a ?? b`
abbrev pub or_nullish : Value → Value → Value
or_nullish undefined b = b
or_nullish null b = b
or_nullish a b = a

abbrev pub trimmed_text : Text → Result Error (Option Text)
trimmed_text s = if is_empty (trim s) then err empty_string else ok (some (trim s))

-- `asOptionalString`
unfoldable pub as_optional_string : Value → Result Error (Option Text)
as_optional_string undefined = ok none
as_optional_string null = ok none
as_optional_string (text s) = if is_empty s then ok none else trimmed_text s
as_optional_string _ = err empty_string

abbrev pub ranged : ℕ → Bool → ℕ → Result Error ℕ
ranged maximum whole n = if whole && (leb 1 n && leb n maximum) then ok n else err invalid_integer

abbrev pub integer_of : ℕ → Option Quantity → Result Error ℕ
integer_of maximum none = err invalid_integer
integer_of maximum (some q) =
    ranged maximum (q.numerator % suc q.denominator == 0) (q.numerator / suc q.denominator)

-- `asPositiveInteger`
unfoldable pub as_positive_integer : Platform → Value → ℕ → ℕ → Result Error ℕ
as_positive_integer js v fallback maximum =
    if is_unset v then ok fallback else integer_of maximum (js.to_number v)

abbrev pub is_letter : ℕ → Bool
is_letter c = (leb b'a' c && leb c b'z') || (leb b'A' c && leb c b'Z')

abbrev pub is_scheme_unit : ℕ → Bool
is_scheme_unit c = is_letter c || is_digit c || c == b'+' || c == b'.' || c == b'-'

-- `[a-z\d+.-]*:\/\/`
unfoldable pub ends_scheme : Text → Bool
ends_scheme [] = false
ends_scheme (c ∷ s) =
    let rest = ends_scheme s in if is_scheme_unit c then rest else c == b':' && has_slashes s
  where
    has_slashes : Text → Bool
    has_slashes (a ∷ b ∷ s) = a == b'/' && b == b'/'
    has_slashes _ = false

-- `/^[a-z][a-z\d+.-]*:\/\//i`
unfoldable pub has_scheme : Text → Bool
has_scheme [] = false
has_scheme (c ∷ s) = is_letter c && ends_scheme s

-- `typeof portValue === 'number' || typeof portValue === 'string' ? String(portValue) : undefined`,
-- where an empty text counts as none
abbrev pub port_text : Value → Option Text
port_text (number s) = some s
port_text (text []) = none
port_text (text (c ∷ s)) = some (c ∷ s)
port_text _ = none

abbrev pub is_port : Option Text → Bool
is_port none = true
is_port (some s) = is_digits s && leb 1 (value_of s) && leb (value_of s) 65535

abbrev pub port_suffix : Option Text → Text
port_suffix none = []
port_suffix (some s) = b':' ∷ s

-- `value === true || value === 'true'`
abbrev pub is_true : Value → Bool
is_true (bool b) = b
is_true (text s) = same s (lit "true")
is_true _ = false

abbrev pub scheme : Value → Text
scheme use_ssl = if is_true use_ssl then lit "https" else lit "http"

-- The endpoint with a scheme and a port, for the drivers that store a host
unfoldable pub endpoint_value : Bool → Value → Value → Text → Result Error Text
endpoint_value legacy port use_ssl value =
    if legacy && not (has_scheme value)
    then if is_port (port_text port)
      then ok (scheme use_ssl ++ (lit "://" ++ (value ++ port_suffix (port_text port))))
      else err invalid_port
    else ok value

unfoldable pub strip_slashes : Text → Text
strip_slashes [] = []
strip_slashes (c ∷ s) = let rest = strip_slashes s in if c == b'/' then rest else c ∷ s

-- `.replace(/\/+$/, '')`
abbrev pub strip_end : Text → Text
strip_end s = reverse (strip_slashes (reverse s))

abbrev pub drop_slash : Text → Text
drop_slash [] = []
drop_slash (c ∷ s) = if c == b'/' then s else c ∷ s

-- `.replace(/\/$/, '')`
abbrev pub drop_last_slash : Text → Text
drop_last_slash s = reverse (drop_slash (reverse s))

unfoldable pub is_plain : Url → Bool
is_plain u =
    (same u.protocol (lit "http:") || same u.protocol (lit "https:"))
    && is_empty u.username
    && is_empty u.password
    && is_empty u.search
    && is_empty u.hash

unfoldable pub shown : Platform → Url → Text
shown js u = drop_last_slash (js.url_text (js.set_pathname u (strip_end u.pathname)))

unfoldable pub checked_url : Platform → Text → Result Error (Option Text)
checked_url js s = do
  u ← or_fail (js.parse_url s) invalid_url
  require (is_plain u) invalid_url
  ok (some (shown js u))

-- `normalizeEndpoint`; a text that `asOptionalString` returns is not empty
unfoldable pub normalize_endpoint :
    Platform → Bool → Value → Value → Option Text → Result Error (Option Text)
normalize_endpoint js legacy port use_ssl none = ok none
normalize_endpoint js legacy port use_ssl (some value) = do
  s ← endpoint_value legacy port use_ssl value
  checked_url js s

-- `driver === 'minio' || driver === 'seaweedfs'`
abbrev pub is_legacy : Text → Bool
is_legacy driver = same driver (lit "minio") || same driver (lit "seaweedfs")

-- `parsePathStyle`
unfoldable pub parse_path_style : Value → Option Text → Text → Result Error Bool
parse_path_style (bool b) endpoint driver = ok b
parse_path_style undefined endpoint driver = ok (is_legacy driver || is_some endpoint)
parse_path_style null endpoint driver = ok (is_legacy driver || is_some endpoint)
parse_path_style (text s) endpoint driver =
    if same s (lit "true")
    then ok true
    else if same s (lit "false")
    then ok false
    else if is_empty s || same s (lit "auto")
    then ok (is_legacy driver || is_some endpoint)
    else err invalid_path_style
parse_path_style _ endpoint driver = err invalid_path_style

abbrev pub is_bucket_unit : ℕ → Bool
is_bucket_unit c = not (c == b'/') && not (c == 92) && not (is_space c)

abbrev pub bucket_of : Option Text → Option Text
bucket_of none = none
bucket_of (some s) = if every is_bucket_unit s then some s else none

abbrev pub or_region : Option Text → Text
or_region none = lit "us-east-1"
or_region (some s) = s

abbrev pub same_bool : Bool → Bool → Bool
same_bool true b = b
same_bool false b = not b

-- `normalizeS3CompatibleConfig`
unfoldable pub normalize : Platform → Option ConfigRecord → Text → Result Error S3Config
normalize js input driver = do
  c ← or_fail input not_an_object
  bucket_text ← as_optional_string c.bucket
  bucket ← or_fail (bucket_of bucket_text) invalid_bucket
  endpoint_text ← as_optional_string c.endpoint
  endpoint ← normalize_endpoint js (is_legacy driver) c.port c.use_ssl endpoint_text
  access_key_id ← as_optional_string (or_nullish c.access_key_id c.access_key)
  secret_access_key ← as_optional_string (or_nullish c.secret_access_key c.secret_key)
  session_token ← as_optional_string c.session_token
  require (same_bool (is_some access_key_id) (is_some secret_access_key)) unpaired_keys
  require (not (is_some session_token) || is_some access_key_id) token_without_keys
  region ← as_optional_string c.region
  max_attempts ← as_positive_integer js c.max_attempts 3 10
  connection_timeout_ms ← as_positive_integer js c.connection_timeout_ms 10000 120000
  socket_timeout_ms ← as_positive_integer js c.socket_timeout_ms 120000 600000
  download_url_ttl_seconds ← as_positive_integer js c.download_url_ttl_seconds 3600 604800
  force_path_style ← parse_path_style c.force_path_style endpoint driver
  ok (record {
    bucket = bucket;
    region = or_region region;
    endpoint = endpoint;
    access_key_id = access_key_id;
    secret_access_key = secret_access_key;
    session_token = session_token;
    force_path_style = force_path_style;
    max_attempts = max_attempts;
    connection_timeout_ms = connection_timeout_ms;
    socket_timeout_ms = socket_timeout_ms;
    download_url_ttl_seconds = download_url_ttl_seconds;
  })
