-- ===== src/Storage/Again.antt =====
-- That an S3-compatible configuration that was accepted is accepted again, unchanged.
use reeva.Prelude.{
  ℕ, suc, ◌/◌, ◌%◌, ◌≤◌, ◌≡◌, refl, sym, ap, ◌∙◌, Bool, true, false, not, ◌&&◌, ◌||◌, Option, none,
  some, Text, leb, leb→le, le→leb, ◌==◌, ==_refl, every, is_empty, is_some, is_digit, is_space,
  trim, trim_start, Bool-cases, inl, inr, ok, or_fail-eq-ok, require-eq-ok, >>=-eq-ok, ok-injective,
  decimal, arith, and_left, and_right,
}
use reeva.Input.{Value, undefined, null, bool, number, text, object}
use reeva.Storage.Config.{
  ConfigRecord, S3Config, Url, Quantity, Platform, is_unset, or_nullish, trimmed_text,
  as_optional_string, ranged, integer_of, as_positive_integer, has_scheme, endpoint_value, is_plain,
  shown, checked_url, normalize_endpoint, is_legacy, parse_path_style, bucket_of, or_region,
  same_bool, normalize, is_bucket_unit, not_an_object, invalid_bucket, unpaired_keys,
  token_without_keys, invalid_url,
}
use reeva.Storage.Trim.{trim-trim}
use reeva.Storage.{option_value, stored_config}

-- An optional text that is read back as it is
pub IsRead : Option Text → Type 0
IsRead o = as_optional_string (option_value o) ≡ ok o

as_optional_trimmed :
    (s : Text) → trim s ≡ s → is_empty s ≡ false → as_optional_string (text s) ≡ ok (some s)
unfolding as_optional_string
as_optional_trimmed s e f = rw (f, e, f) refl

trimmed_read :
    (s : Text) (o : Option Text)
    → trimmed_text s ≡ ok o
    → (t : Text) × (o ≡ some t) × (t ≡ trim s) × (is_empty t ≡ false)
trimmed_read s o run = elim (Bool-cases (is_empty (trim s))) [
  | inl t ↦ absurd (cc (rw t at run))
  | inr f ↦ (trim s, sym (ok-injective (rw f at run)), refl, f)
]

pub as_optional_string-IsRead :
    (v : Value) (o : Option Text) → as_optional_string v ≡ ok o → IsRead o
unfolding as_optional_string IsRead
as_optional_string-IsRead undefined o run = rw (sym (ok-injective run)) refl
as_optional_string-IsRead null o run = rw (sym (ok-injective run)) refl
as_optional_string-IsRead (text s) o run = elim (Bool-cases (is_empty s)) [
  | inl t ↦ rw (sym (ok-injective (rw t at run))) refl
  | inr f ↦
      let (t, e, k, g) = trimmed_read s o (rw f at run) in
      rw e (as_optional_trimmed t (rw k (trim-trim s)) g)
]
as_optional_string-IsRead (bool b) o run = cc
as_optional_string-IsRead (number s) o run = cc
as_optional_string-IsRead object o run = cc

-- The text of a URL that was accepted: it is read as a URL of the same text.
pub record IsStable (js : Platform) (s : Text) : Type 0 where
  pub clean : trim s ≡ s
  pub filled : is_empty s ≡ false
  pub schemed : has_scheme s ≡ true
  pub url : Url
  pub parses : js.parse_url s ≡ some url
  pub plain : is_plain url ≡ true
  pub shows : shown js url ≡ s

abbrev pub is_lower_unit : ℕ → Bool
is_lower_unit c = (leb b'a' c && leb c b'z') || is_digit c

-- What the code relies on: `Number` of the numbers in its ranges, the texts of HTTP URLs, and
-- `toLowerCase` on small ASCII letters and digits
pub record IsJavaScript (js : Platform) : Type 0 where
  pub numbers :
      (n : ℕ)
      → n ≤ 1000000
      → js.to_number (number (decimal n)) ≡ some (record { numerator = n; denominator = 0 })
  pub urls :
      (s : Text) (u : Url) → js.parse_url s ≡ some u → is_plain u ≡ true → IsStable js (shown js u)
  pub letters : (s : Text) → every is_lower_unit s ≡ true → js.lower s ≡ s

pub record IsWithin (n maximum : ℕ) : Type 0 where
  pub low : 1 ≤ n
  pub high : n ≤ maximum

ranged-IsWithin :
    (maximum m n : ℕ) (whole : Bool) → ranged maximum whole m ≡ ok n → IsWithin n maximum
ranged-IsWithin maximum m n whole run = elim (Bool-cases (whole && (leb 1 m && leb m maximum))) [
  | inl t ↦
      let h : (leb 1 m && leb m maximum) ≡ true = and_right _ _ t in
      rw (sym (ok-injective (rw t at run)))
        (record { low = leb→le 1 m (and_left _ _ h); high = leb→le m maximum (and_right _ _ h) })
  | inr f ↦ absurd (cc (rw f at run))
]

ranged_again : (maximum n : ℕ) → IsWithin n maximum → ranged maximum true n ≡ ok n
ranged_again maximum n w = rw (le→leb 1 n w.low, le→leb n maximum w.high) refl

integer_of-IsWithin :
    (maximum n : ℕ) (q : Option Quantity) → integer_of maximum q ≡ ok n → IsWithin n maximum
integer_of-IsWithin maximum n none run = cc
integer_of-IsWithin maximum n (some q) run =
    ranged-IsWithin maximum (q.numerator / suc q.denominator) n
      (q.numerator % suc q.denominator == 0) run

pub as_positive_integer-IsWithin :
    (js : Platform) (v : Value) (fallback maximum n : ℕ)
    → 1 ≤ fallback
    → fallback ≤ maximum
    → as_positive_integer js v fallback maximum ≡ ok n
    → IsWithin n maximum
unfolding as_positive_integer
as_positive_integer-IsWithin js v fallback maximum n low high run = elim (Bool-cases (is_unset v)) [
  | inl t ↦
      let e : fallback ≡ n = ok-injective (rw t at run) in
      rw (sym e) (record { low = low; high = high })
  | inr f ↦ integer_of-IsWithin maximum n (js.to_number v) (rw f at run)
]

integer_again :
    (js : Platform) (laws : IsJavaScript js) (fallback maximum n : ℕ)
    → maximum ≤ 1000000
    → IsWithin n maximum
    → as_positive_integer js (number (decimal n)) fallback maximum ≡ ok n
unfolding as_positive_integer
integer_again js laws fallback maximum n small w =
    let exact : n % 1 ≡ 0 = omega arith in
    ap (integer_of maximum) (laws.numbers n (omega (arith, small, w.high)))
    ∙ whole maximum n w (n % 1 == 0) (n / 1) (rw exact (==_refl 0)) (omega arith)
  where
    whole :
        (maximum n : ℕ)
        → IsWithin n maximum
        → (b : Bool) (m : ℕ) → b ≡ true
        → m ≡ n
        → ranged maximum b m ≡ ok n
    whole maximum n w b m e k = rw (e, k) (ranged_again maximum n w)

endpoint_value_same :
    (legacy : Bool) (s : Text)
    → has_scheme s ≡ true
    → endpoint_value legacy undefined undefined s ≡ ok s
unfolding endpoint_value
endpoint_value_same true s h = rw h refl
endpoint_value_same false s h = refl

-- An endpoint that was accepted
pub record IsEndpoint (js : Platform) (legacy : Bool) (e : Option Text) : Type 0 where
  pub read : IsRead e
  pub again : normalize_endpoint js legacy undefined undefined e ≡ ok e

stable-IsEndpoint :
    (js : Platform) (legacy : Bool) (s : Text) → IsStable js s → IsEndpoint js legacy (some s)
unfolding normalize_endpoint checked_url IsRead
stable-IsEndpoint js legacy s h = record {
  read = as_optional_trimmed s h.clean h.filled;
  again = rw (endpoint_value_same legacy s h.schemed, h.parses, h.plain, h.shows) refl;
}

normalize_endpoint-IsEndpoint :
    (js : Platform) (laws : IsJavaScript js) (legacy : Bool) (port use_ssl : Value)
    (o e : Option Text)
    → normalize_endpoint js legacy port use_ssl o ≡ ok e
    → IsEndpoint js legacy e
unfolding normalize_endpoint checked_url IsRead as_optional_string
normalize_endpoint-IsEndpoint js laws legacy port use_ssl none e run =
    rw (sym (ok-injective run)) (record { read = refl; again = refl })
normalize_endpoint-IsEndpoint js laws legacy port use_ssl (some value) e run =
    let (s, made, run1) = >>=-eq-ok (endpoint_value legacy port use_ssl value) _ run in
    let (u, parsed, run2) = or_fail-eq-ok (js.parse_url s) invalid_url _ run1 in
    let (plain, run3) = require-eq-ok (is_plain u) invalid_url _ run2 in
    rw (sym (ok-injective run3))
      (stable-IsEndpoint js legacy (shown js u) (laws.urls s u parsed plain))

-- What a configuration that is accepted consists of
pub record IsNormalized (js : Platform) (driver : Text) (n : S3Config) : Type 0 where
  pub bucket : IsRead (some n.bucket)
  pub bucket_fits : bucket_of (some n.bucket) ≡ some n.bucket
  pub region : as_optional_string (text n.region) ≡ ok (some n.region)
  pub endpoint : IsEndpoint js (is_legacy driver) n.endpoint
  pub access_key_id : IsRead n.access_key_id
  pub secret_access_key : IsRead n.secret_access_key
  pub session_token : IsRead n.session_token
  pub paired : same_bool (is_some n.access_key_id) (is_some n.secret_access_key) ≡ true
  pub keyed : (not (is_some n.session_token) || is_some n.access_key_id) ≡ true
  pub max_attempts : IsWithin n.max_attempts 10
  pub connection_timeout_ms : IsWithin n.connection_timeout_ms 120000
  pub socket_timeout_ms : IsWithin n.socket_timeout_ms 600000
  pub download_url_ttl_seconds : IsWithin n.download_url_ttl_seconds 604800

bucket_of-eq-some : (o : Option Text) (b : Text) → bucket_of o ≡ some b → o ≡ some b
bucket_of-eq-some none b e = cc
bucket_of-eq-some (some s) b e = elim (Bool-cases (every is_bucket_unit s)) [
  | inl t ↦ rw t at e
  | inr f ↦ absurd (cc (rw f at e))
]

or_region-IsRead :
    (o : Option Text) → IsRead o → as_optional_string (text (or_region o)) ≡ ok (some (or_region o))
unfolding IsRead as_optional_string trim trim_start is_space
or_region-IsRead none h = refl
or_region-IsRead (some s) h = h

pub normalize-IsNormalized :
    (js : Platform) (laws : IsJavaScript js) (input : Option ConfigRecord) (driver : Text)
    (n : S3Config)
    → normalize js input driver ≡ ok n
    → IsNormalized js driver n
unfolding normalize
normalize-IsNormalized js laws input driver n run0 =
    let (c, found, run1) = or_fail-eq-ok input not_an_object _ run0 in
    let (bucket_text, e1, run2) = >>=-eq-ok (as_optional_string c.bucket) _ run1 in
    let (bucket, e2, run3) = or_fail-eq-ok (bucket_of bucket_text) invalid_bucket _ run2 in
    let (endpoint_text, e3, run4) = >>=-eq-ok (as_optional_string c.endpoint) _ run3 in
    let (endpoint, e4, run5) =
      >>=-eq-ok (normalize_endpoint js (is_legacy driver) c.port c.use_ssl endpoint_text) _ run4 in
    let (key, e5, run6) =
      >>=-eq-ok (as_optional_string (or_nullish c.access_key_id c.access_key)) _ run5 in
    let (secret, e6, run7) =
      >>=-eq-ok (as_optional_string (or_nullish c.secret_access_key c.secret_key)) _ run6 in
    let (token, e7, run8) = >>=-eq-ok (as_optional_string c.session_token) _ run7 in
    let (paired, run9) =
      require-eq-ok (same_bool (is_some key) (is_some secret)) unpaired_keys _ run8 in
    let (keyed, run10) =
      require-eq-ok (not (is_some token) || is_some key) token_without_keys _ run9 in
    let (region, e8, run11) = >>=-eq-ok (as_optional_string c.region) _ run10 in
    let (attempts, e9, run12) = >>=-eq-ok (as_positive_integer js c.max_attempts 3 10) _ run11 in
    let (connection, e10, run13) =
      >>=-eq-ok (as_positive_integer js c.connection_timeout_ms 10000 120000) _ run12 in
    let (socket, e11, run14) =
      >>=-eq-ok (as_positive_integer js c.socket_timeout_ms 120000 600000) _ run13 in
    let (ttl, e12, run15) =
      >>=-eq-ok (as_positive_integer js c.download_url_ttl_seconds 3600 604800) _ run14 in
    let (style, e13, run16) =
      >>=-eq-ok (parse_path_style c.force_path_style endpoint driver) _ run15 in
    let held : bucket_text ≡ some bucket = bucket_of-eq-some bucket_text bucket e2 in
    rw (sym (ok-injective run16)) (record {
      bucket = rw held at (as_optional_string-IsRead c.bucket bucket_text e1);
      bucket_fits = rw held at e2;
      region = or_region-IsRead region (as_optional_string-IsRead c.region region e8);
      endpoint =
          normalize_endpoint-IsEndpoint js laws (is_legacy driver) c.port c.use_ssl endpoint_text
            endpoint e4;
      access_key_id = as_optional_string-IsRead (or_nullish c.access_key_id c.access_key) key e5;
      secret_access_key =
          as_optional_string-IsRead (or_nullish c.secret_access_key c.secret_key) secret e6;
      session_token = as_optional_string-IsRead c.session_token token e7;
      paired = paired;
      keyed = keyed;
      max_attempts =
          as_positive_integer-IsWithin js c.max_attempts 3 10 attempts (omega arith) (omega arith)
            e9;
      connection_timeout_ms =
          as_positive_integer-IsWithin js c.connection_timeout_ms 10000 120000 connection
            (omega arith) (omega arith) e10;
      socket_timeout_ms =
          as_positive_integer-IsWithin js c.socket_timeout_ms 120000 600000 socket (omega arith)
            (omega arith) e11;
      download_url_ttl_seconds =
          as_positive_integer-IsWithin js c.download_url_ttl_seconds 3600 604800 ttl (omega arith)
            (omega arith) e12;
    })

option_nullish : (o : Option Text) → or_nullish (option_value o) undefined ≡ option_value o
option_nullish none = refl
option_nullish (some s) = refl

normalize_again :
    (js : Platform) (laws : IsJavaScript js) (driver : Text) (n : S3Config)
    → IsNormalized js driver n
    → normalize js (some (stored_config driver n)) driver ≡ ok n
unfolding normalize stored_config parse_path_style IsRead
normalize_again js laws driver n h =
    rw
      (
        h.bucket,
        h.bucket_fits,
        h.endpoint.read,
        h.endpoint.again,
        option_nullish n.access_key_id,
        option_nullish n.secret_access_key,
        h.access_key_id,
        h.secret_access_key,
        h.session_token,
        h.paired,
        h.keyed,
        h.region,
        integer_again js laws 3 10 n.max_attempts (omega arith) h.max_attempts,
        integer_again js laws 10000 120000 n.connection_timeout_ms (omega arith)
            h.connection_timeout_ms,
        integer_again js laws 120000 600000 n.socket_timeout_ms (omega arith) h.socket_timeout_ms,
        integer_again js laws 3600 604800 n.download_url_ttl_seconds (omega arith)
            h.download_url_ttl_seconds,
      )
      refl

-- A configuration that is accepted for an S3-compatible driver and stored as the provider's row
-- keeps it is accepted again for that driver, with the same result: trimmed texts, numbers, the
-- path style and the endpoint's text stay as they are. The texts of URLs and the numbers of
-- JavaScript are taken to be read back, as their standards say.
pub normalize-normalize :
    (js : Platform) (laws : IsJavaScript js) (input : Option ConfigRecord) (driver : Text)
    (n : S3Config)
    → normalize js input driver ≡ ok n
    → normalize js (some (stored_config driver n)) driver ≡ ok n
normalize-normalize js laws input driver n run =
    normalize_again js laws driver n (normalize-IsNormalized js laws input driver n run)
