-- ===== src/Api/Tests.antt =====
-- Runs of the update API on a catalog whose artifact has a UUID.
use reeva.Prelude.{
  ℕ, ◌≡◌, refl, true, none, some, [], ◌∷◌, Text, lit, same, trim, trim_start, is_space, decimal,
  decimal_from, All,
}
use reeva.Model.{Catalog, Manifest}
use reeva.Input.{undefined, text, read_text, release_context, context_of, is_name, is_channel}
use reeva.Release.{is_public, is_eligible, is_signed, join, with_version, version_text}
use reeva.Signature.{load, create_envelope}
use reeva.Signature.Code.{codec_for}
use reeva.Sample.{artifact_of, catalog}
use reeva.Updater.{
  newer, targeted, resolve_software, find_platform, find_architecture, check_for_update, World,
}
use reeva.Updater.Order.{sorting, sort, insert}
use reeva.Uuid.{is_uuid, uuid_value, fits, uuid_from}
use reeva.Api.Bodies.{Outside, UpdateBody, get_download_url, update_body}
use reeva.Api.{update, check, check_with, update_response}
use reeva.Api.Links.{IsNamed, IsServed, check-IsServed}

abbrev id : ℕ
id = 0x40008000000000000033

abbrev manifest : Manifest
manifest = record {
  schema_version = 1;
  software = [];
  version = [];
  codename = none;
  changelog = none;
  channel = [];
  platform = none;
  architecture = none;
  file_name = [];
  size_bytes = none;
  sha256 = none;
}

abbrev out : Outside
out = record {
  db = sorting;
  codec = codec_for manifest;
  parse = λ s. some (record { major = 1; minor = 0; patch = 0; prerelease = [] });
  gt = λ a b. true;
  absolute = λ s. s;
  show_id = λ i. lit "00000000-0000-4000-8000-000000000033";
}

abbrev rows : Catalog
rows = record catalog { artifacts = artifact_of id 11 true ∷ [] }

abbrev body : UpdateBody
body = record {
  version = lit "1.1.0";
  codename = none;
  changelog = none;
  channel = lit "stable";
  download_url = lit "/api/download/00000000-0000-4000-8000-000000000033";
  md5 = none;
  sha1 = none;
  sha256 = none;
  sha512 = none;
  size_bytes = some 5;
  published_at = none;
  signed_manifest = none;
}

check_run :
    check {Stream = Text} out rows none
      (text (lit "windows"))
      (text (lit "x64"))
      undefined
      (text (lit "1.0.0"))
    ≡ update body
unfolding check check_with update_response read_text release_context context_of is_name is_channel
    trim trim_start is_space check_for_update resolve_software find_platform find_architecture
    targeted newer is_public is_eligible is_signed join with_version sort insert same update_body
    get_download_url load create_envelope version_text decimal decimal_from
check_run = refl

abbrev world : World Text
world = record { stream = λ p key. some key; commits = true; is_ip = λ s. true }

named : All (IsNamed out) rows.artifacts
unfolding is_uuid fits uuid_value uuid_from
named = (
  record {
    accepted = refl;
    names = refl;
    plain = (refl, (refl, (refl, (refl, (refl, (refl, (refl, tt)))))));
  },
  tt,
)

check-IsServed_example : IsServed out world rows none (lit "10.0.0.1") none body
check-IsServed_example =
    check-IsServed out world rows none (text (lit "windows")) (text (lit "x64")) undefined
      (text (lit "1.0.0")) body (lit "10.0.0.1") none check_run (λ p key. refl) named
