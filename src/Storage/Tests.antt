-- ===== src/Storage/Tests.antt =====
-- Runs of the storage providers: an S3-compatible one with an endpoint, and a local one.
use reeva.Prelude.{
  ℕ, ◌≡◌, refl, sym, ap, ◌∙◌, Bool, true, false, Option, none, some, [], ◌∷◌, Memᴰ, Text, lit, ok,
  same, trim, trim_start, is_space, if◌then◌else◌, value_of, value_from, value_of-decimal,
}
use reeva.Input.{Value, undefined, number, text}
use reeva.Storage.Config.{
  ConfigRecord, S3Config, Url, Quantity, Platform, normalize, as_optional_string,
  as_positive_integer, normalize_endpoint, endpoint_value, checked_url, shown, is_plain, has_scheme,
  ends_scheme, strip_slashes, parse_path_style,
}
use reeva.Storage.{
  Provider, ProviderInput, no_config, stored_config, resolve, local, provider_driver, is_local,
  check_config, find_provider, activate_provider, update_provider, provider_name, provider_config,
  local_config, input_string, quota_in_bytes,
}
use reeva.Storage.Again.{IsJavaScript, IsStable, normalize-normalize}
use reeva.Storage.Default.{
  IsActivated, activate_provider-IsActivated, IsSound, updated, Step-IsSound,
}

abbrev site : Text
site = lit "https://s3.example"

abbrev site_url : Url
site_url = record {
  protocol = lit "https:";
  username = [];
  password = [];
  search = [];
  hash = [];
  pathname = lit "/";
  host = lit "s3.example";
}

abbrev counted : ℕ → Option Quantity
counted m = some (record { numerator = m; denominator = 0 })

abbrev parse_site : Text → Option Url
parse_site s = if same s site then some site_url else none

abbrev number_of : Value → Option Quantity
number_of (number s) = counted (value_of s)
number_of _ = none

abbrev starts_at_root : Text → Bool
starts_at_root [] = false
starts_at_root (c ∷ s) = same (c ∷ []) (lit "/")

abbrev js : Platform
js = record {
  parse_url = parse_site;
  set_pathname = λ u p. u;
  url_text = λ u. lit "https://s3.example/";
  to_number = number_of;
  lower = λ s. s;
  is_absolute = starts_at_root;
}

stable : IsStable js site
unfolding trim trim_start is_space has_scheme ends_scheme same is_plain shown strip_slashes
stable = record {
  clean = refl;
  filled = refl;
  schemed = refl;
  url = site_url;
  parses = refl;
  plain = refl;
  shows = refl;
}

laws : IsJavaScript js
unfolding shown strip_slashes
laws = record {
  numbers = λ n small. ap counted (value_of-decimal n);
  urls = λ s u e p. stable;
  letters = λ s h. refl;
}

abbrev entered : ConfigRecord
entered = record no_config {
  bucket = text (lit " files ");
  endpoint = text site;
  access_key_id = text (lit "key");
  secret_key = text (lit "secret");
  max_attempts = number (lit "5");
}

abbrev accepted : S3Config
accepted = record {
  bucket = lit "files";
  region = lit "us-east-1";
  endpoint = some site;
  access_key_id = some (lit "key");
  secret_access_key = some (lit "secret");
  session_token = none;
  force_path_style = true;
  max_attempts = 5;
  connection_timeout_ms = 10000;
  socket_timeout_ms = 120000;
  download_url_ttl_seconds = 3600;
}

normalize_run : normalize js (some entered) (lit "s3") ≡ ok accepted
unfolding normalize as_optional_string trim trim_start is_space normalize_endpoint endpoint_value
    checked_url has_scheme ends_scheme same is_plain shown strip_slashes as_positive_integer
    parse_path_style value_of value_from
normalize_run = refl

normalize-normalize_example :
    normalize js (some (stored_config (lit "s3") accepted)) (lit "s3") ≡ ok accepted
normalize-normalize_example =
    normalize-normalize js laws (some entered) (lit "s3") accepted normalize_run

abbrev disk : Bool → Provider
disk default = record {
  id = 1;
  name = lit "disk";
  type = lit "local";
  config = some (record no_config { driver = text (lit "local"); root = text (lit "/srv") });
  is_default = default;
  is_active = default;
  quota_bytes = 0;
  deleted_at = none;
}

abbrev other : Provider
other = record (disk true) { id = 2 }

activate_run :
    activate_provider js (other ∷ disk false ∷ []) 1
    ≡ ok (record other { is_default = false } ∷ disk true ∷ [])
unfolding activate_provider find_provider check_config provider_driver is_local same trim trim_start
    is_space
activate_run = refl

activate_provider-IsActivated_example :
    IsActivated js
      (other ∷ disk false ∷ [])
      (record other { is_default = false } ∷ disk true ∷ [])
      1
activate_provider-IsActivated_example = activate_provider-IsActivated js _ _ 1 activate_run

abbrev form : ProviderInput
form = record {
  name = text (lit "disk");
  fields = record no_config { root = text (lit "/data ") };
  clear_credentials = undefined;
  clear_session_token = undefined;
  quota_gb = number (lit "2");
}

abbrev moved : Provider
moved = record (disk true) {
  config = some (record no_config { driver = text (lit "local"); root = text (lit "/data") });
  quota_bytes = 2147483648;
}

update_run : update_provider js (disk true ∷ []) 1 form ≡ ok (moved, moved ∷ [])
unfolding update_provider find_provider provider_name provider_driver provider_config local_config
    input_string is_local same trim trim_start is_space quota_in_bytes value_of value_from
update_run = refl

sound : IsSound js (disk true ∷ [])
unfolding resolve provider_driver is_local same trim trim_start is_space
sound = record {
  one = λ p q m n d e. elim m [
    | Memᴰ.head i ↦ elim n [
      | Memᴰ.head j ↦ ap (λ (x : Provider). x.id) (i ∙ sym j)
      | Memᴰ.tail k ↦ elim k [ ]
    ]
    | Memᴰ.tail k ↦ elim k [ ]
  ];
  usable = λ p m d. elim m [
    | Memᴰ.head i ↦ rw i (refl, (local (text (lit "/srv")), refl))
    | Memᴰ.tail k ↦ elim k [ ]
  ];
}

Step-IsSound_example : IsSound js (moved ∷ [])
Step-IsSound_example = Step-IsSound laws (updated form 1 moved update_run) sound
