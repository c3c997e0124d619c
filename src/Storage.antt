-- ===== src/Storage.antt =====
-- app/services/storage_provider_service.ts and app/services/storage/storage_manager.ts: the storage
-- providers, their forms, and the choice of the one that is used. The encryption of a configuration
-- in the database is left out: a row holds the configuration itself.
pub mod Config
pub mod Trim
pub mod Again
pub mod Ready
pub mod Default
mod Tests
use reeva.Prelude.{
  ℕ, suc, ◌+◌, ◌*◌, ◌/◌, ◌≡◌, Bool, true, false, not, ◌&&◌, ◌||◌, Option, none, some, List, [], ◌∷◌,
  ◌++◌, Text, lit, same, leb, ◌==◌, exists, find, update, length, is_none, is_some, is_empty,
  truthy, trim, decimal, if◌then◌else◌, Result, ok, err, or_fail, require, ◌>>=◌, ◌>>◌,
}
use reeva.Model.{Uuid}
use reeva.Input.{Value, undefined, null, bool, number, text, object, is_falsy}
use reeva.Storage.Config.{
  Error, unsupported_driver, not_an_object, too_long, relative_root, keys_while_clearing,
  unpaired_keys, invalid_name, invalid_quota, row_not_found, ConfigRecord, S3Config, Quantity,
  Platform, or_nullish, is_unset, same_bool, is_true, normalize,
}

pub record Provider : Type 0 where
  pub id : Uuid
  pub name : Text
  pub type : Text
  pub config : Option ConfigRecord
  pub is_default : Bool
  pub is_active : Bool
  pub quota_bytes : ℕ
  pub deleted_at : Option ℕ

-- The fields of a form: those of a configuration, and the rest
pub record ProviderInput : Type 0 where
  pub name : Value
  pub fields : ConfigRecord
  pub clear_credentials : Value
  pub clear_session_token : Value
  pub quota_gb : Value

abbrev pub no_config : ConfigRecord
no_config = record {
  driver = undefined;
  root = undefined;
  bucket = undefined;
  region = undefined;
  endpoint = undefined;
  port = undefined;
  use_ssl = undefined;
  force_path_style = undefined;
  max_attempts = undefined;
  connection_timeout_ms = undefined;
  socket_timeout_ms = undefined;
  download_url_ttl_seconds = undefined;
  access_key_id = undefined;
  access_key = undefined;
  secret_access_key = undefined;
  secret_key = undefined;
  session_token = undefined;
}

-- `S3_DRIVERS`
abbrev pub s3_drivers : List Text
s3_drivers = lit "s3" ∷ lit "minio" ∷ lit "seaweedfs" ∷ lit "oci" ∷ lit "r2" ∷ []

unfoldable pub is_s3 : Text → Bool
is_s3 driver = exists (same driver) s3_drivers

unfoldable pub is_local : Text → Bool
is_local driver = same driver (lit "local")

-- `inputString`
unfoldable pub input_string : Value → ℕ → Result Error Text
input_string (text s) maximum = if leb (length s) maximum then ok (trim s) else err too_long
input_string undefined maximum = ok []
input_string null maximum = ok []
input_string _ maximum = err too_long

-- `isChecked`
abbrev pub is_checked : Value → Bool
is_checked (bool b) = b
is_checked (text s) = same s (lit "true") || same s (lit "1") || same s (lit "on")
is_checked _ = false

-- `validateProviderName`
unfoldable pub provider_name : Value → Result Error Text
provider_name (text s) =
    if not (is_empty (trim s)) && leb (length (trim s)) 100 then ok (trim s) else err invalid_name
provider_name _ = err invalid_name

abbrev pub gigabyte : ℕ
gigabyte = 1073741824

-- `Math.round` of a fraction
abbrev pub round : ℕ → ℕ → ℕ
round n d = (2 * n + d) / (2 * d)

abbrev pub quota_of : Option Quantity → Result Error ℕ
quota_of none = err invalid_quota
quota_of (some q) =
    if leb q.numerator (1000000 * suc q.denominator)
    then ok (round (q.numerator * gigabyte) (suc q.denominator))
    else err invalid_quota

-- `quotaInBytes`
unfoldable pub quota_in_bytes : Platform → Value → Result Error ℕ
quota_in_bytes js v = quota_of (js.to_number v)

abbrev pub driver_or : Platform → Value → Text → Text
driver_or js (text s) type = if is_empty (trim s) then js.lower type else js.lower (trim s)
driver_or js _ type = js.lower type

abbrev pub or_no_config : Option ConfigRecord → ConfigRecord
or_no_config none = no_config
or_no_config (some c) = c

-- `providerDriver`
unfoldable pub provider_driver : Platform → Provider → Text
provider_driver js p = driver_or js (or_no_config p.config).driver p.type

-- What `StorageManager.resolve` makes
pub data Backend : Type 0 where
  -- `LocalProvider`, with the configured root
  local : Value → Backend
  s3_compatible : S3Config → Backend

abbrev pub s3_backend : Platform → ConfigRecord → Text → Result Error Backend
s3_backend js c driver = do n ← normalize js (some c) driver; ok (s3_compatible n)

abbrev pub backend : Platform → ConfigRecord → Text → Result Error Backend
backend js c driver =
    if is_local driver
    then ok (local c.root)
    else if is_s3 driver
    then s3_backend js c driver
    else err unsupported_driver

-- `StorageManager.resolve`
unfoldable pub resolve : Platform → Provider → Result Error Backend
resolve js p = do c ← or_fail p.config not_an_object; backend js c (provider_driver js p)

-- A text, where an empty one is falsy
abbrev pub or_value : Text → Value → Value → Value
or_value [] a b = if is_falsy a then b else a
or_value (c ∷ s) a b = text (c ∷ s)

abbrev pub option_value : Option Text → Value
option_value none = undefined
option_value (some s) = text s

-- `{ driver, ...normalized }`
unfoldable pub stored_config : Text → S3Config → ConfigRecord
stored_config driver n = record no_config {
  driver = text driver;
  bucket = text n.bucket;
  region = text n.region;
  endpoint = option_value n.endpoint;
  access_key_id = option_value n.access_key_id;
  secret_access_key = option_value n.secret_access_key;
  session_token = option_value n.session_token;
  force_path_style = bool n.force_path_style;
  max_attempts = number (decimal n.max_attempts);
  connection_timeout_ms = number (decimal n.connection_timeout_ms);
  socket_timeout_ms = number (decimal n.socket_timeout_ms);
  download_url_ttl_seconds = number (decimal n.download_url_ttl_seconds);
}

unfoldable pub local_config : Platform → Value → Result Error ConfigRecord
local_config js root_value = do
  root ← input_string root_value 2048
  require (not (is_empty root) && js.is_absolute root) relative_root
  ok (record no_config { driver = text (lit "local"); root = text root })

-- `… || undefined`, `… || fallback`
abbrev pub or_text : Text → Value → Value
or_text [] v = v
or_text (c ∷ s) v = text (c ∷ s)

-- The object `config` of `normalizedProviderConfig`; an existing configuration that is missing reads
-- as one without fields
unfoldable pub entered_config : ProviderInput → ConfigRecord → Text → Result Error ConfigRecord
entered_config input old driver = do
  key ← input_string input.fields.access_key_id 512
  secret ← input_string input.fields.secret_access_key 4096
  let clear : Bool = is_checked input.clear_credentials
  require (not (clear && (not (is_empty key) || not (is_empty secret)))) keys_while_clearing
  require (clear || same_bool (is_empty key) (is_empty secret)) unpaired_keys
  bucket ← input_string (or_nullish input.fields.bucket old.bucket) 255
  region ← input_string (or_nullish input.fields.region old.region) 100
  endpoint ← input_string (or_nullish input.fields.endpoint old.endpoint) 2048
  path_style ← input_string (or_nullish input.fields.force_path_style old.force_path_style) 16
  token ← input_string input.fields.session_token 4096
  ok (record no_config {
    driver = text driver;
    bucket = text bucket;
    region = or_text region (text (lit "us-east-1"));
    endpoint = or_text endpoint undefined;
    force_path_style = or_text path_style (text (lit "auto"));
    max_attempts = or_nullish input.fields.max_attempts old.max_attempts;
    connection_timeout_ms = or_nullish input.fields.connection_timeout_ms old.connection_timeout_ms;
    socket_timeout_ms = or_nullish input.fields.socket_timeout_ms old.socket_timeout_ms;
    download_url_ttl_seconds =
        or_nullish input.fields.download_url_ttl_seconds old.download_url_ttl_seconds;
    access_key_id = if clear then undefined else or_value key old.access_key_id old.access_key;
    secret_access_key =
        if clear then undefined else or_value secret old.secret_access_key old.secret_key;
    session_token =
        if clear || is_checked input.clear_session_token
        then undefined
        else or_text token old.session_token;
  })

abbrev pub s3_config : Platform → Text → ProviderInput → ConfigRecord → Result Error ConfigRecord
s3_config js driver input old = do
  c ← entered_config input old driver
  n ← normalize js (some c) driver
  ok (stored_config driver n)

-- `normalizedProviderConfig`
unfoldable pub provider_config :
    Platform → Text → ProviderInput → Option ConfigRecord → Result Error ConfigRecord
provider_config js driver input existing =
    if is_local driver
    then local_config js (or_nullish input.fields.root (or_no_config existing).root)
    else if is_s3 driver
    then s3_config js driver input (or_no_config existing)
    else err unsupported_driver

unfoldable pub find_provider : List Provider → Uuid → Option Provider
find_provider rows id = find (λ (p : Provider). p.id == id && is_none p.deleted_at) rows

-- `provider.save()`
abbrev pub save : Provider → List Provider → List Provider
save p rows = update (λ (q : Provider). q.id == p.id) (λ q. p) rows

-- `getDefaultProvider`
unfoldable pub get_default_provider : List Provider → Option Provider
get_default_provider rows = find (λ (p : Provider). p.is_default && is_none p.deleted_at) rows

abbrev pub has_root : Platform → Value → Bool
has_root js (text s) = js.is_absolute s
has_root js _ = false

abbrev pub check_s3 : Platform → Option ConfigRecord → Text → Result Error (Unit {0})
check_s3 js c driver = do n ← normalize js c driver; ok tt

abbrev pub check_driver : Platform → Option ConfigRecord → Text → Result Error (Unit {0})
check_driver js c driver =
    if is_local driver
    then require (has_root js (or_no_config c).root) relative_root
    else if is_s3 driver
    then check_s3 js c driver
    else err unsupported_driver

-- The check of a configuration before its activation
unfoldable pub check_config : Platform → Provider → Result Error (Unit {0})
check_config js p = check_driver js p.config (provider_driver js p)

-- `activateProvider`; the update of all rows is not confined to those that are not deleted
unfoldable pub activate_provider : Platform → List Provider → Uuid → Result Error (List Provider)
activate_provider js rows id = do
  p ← or_fail (find_provider rows id) row_not_found
  check_config js p
  ok (
      save (record p { is_active = true; is_default = true })
        (update (λ q. true) (λ (q : Provider). record q { is_default = false }) rows))

-- `createProvider`, with the new id
unfoldable pub create_provider :
    Platform → List Provider → ProviderInput → Uuid → Result Error (Provider × List Provider)
create_provider js rows input id = do
  name ← provider_name input.name
  entered ← input_string input.fields.driver 32
  let driver : Text = js.lower entered
  require (is_local driver || is_s3 driver) unsupported_driver
  config ← provider_config js driver input none
  quota ← quota_in_bytes js (or_nullish input.quota_gb (number (lit "10")))
  let p : Provider = record {
    id = id;
    name = name;
    type =
        if is_local driver
        then lit "local"
        else if same driver (lit "minio") || same driver (lit "seaweedfs")
        then lit "self-hosted"
        else lit "cloud";
    config = some config;
    is_default = false;
    is_active = true;
    quota_bytes = quota;
    deleted_at = none;
  }
  ok (p, p ∷ rows)

-- `updateProvider`
unfoldable pub update_provider :
    Platform → List Provider → Uuid → ProviderInput → Result Error (Provider × List Provider)
update_provider js rows id input = do
  p ← or_fail (find_provider rows id) row_not_found
  name ← provider_name input.name
  config ← provider_config js (provider_driver js p) input p.config
  quota ← quota_in_bytes js input.quota_gb
  let q : Provider = record p { name = name; config = some config; quota_bytes = quota }
  ok (q, save q rows)
