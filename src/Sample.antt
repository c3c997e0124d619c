-- ===== src/Sample.antt =====
-- A small catalog for the examples: one product with two versions, each with one release for the
-- same target.
use reeva.Prelude.{ℕ, none, some, [], ◌∷◌, lit, true, false, Bool}
use reeva.Model.{Software, Version, Platform, Architecture, StorageProvider, Artifact, Catalog}

abbrev pub product : Software
product = record {
  id = 1;
  name = lit "App";
  slug = lit "app";
  is_active = true;
  is_default = true;
  require_signed_updates = false;
}

abbrev pub version_of : ℕ → ℕ → Version
version_of i minor = record {
  id = i;
  software_id = 1;
  major = 1;
  minor = minor;
  patch = 0;
  codename = none;
  changelog = none;
  is_active = true;
  release_date = none;
  deleted_at = none;
}

abbrev pub windows : Platform
windows = record { id = 20; name = lit "windows"; display_name = lit "Windows"; deleted_at = none }

abbrev pub x64 : Architecture
x64 = record { id = 30; name = lit "x64"; display_name = lit "x64"; deleted_at = none }

abbrev pub provider : StorageProvider
provider = record {
  id = 40;
  name = lit "disk";
  is_default = true;
  is_active = true;
  quota_bytes = none;
  deleted_at = none;
}

abbrev pub artifact_of : ℕ → ℕ → Bool → Artifact
artifact_of i version published = record {
  id = i;
  file_name = lit "app.zip";
  version_id = version;
  platform_id = 20;
  architecture_id = 30;
  storage_key = lit "k";
  storage_provider_id = 40;
  size_bytes = some 5;
  is_archived = false;
  is_published = published;
  channel = lit "stable";
  published_at = none;
  checksum = none;
  checksum_md5 = none;
  checksum_sha1 = none;
  checksum_sha256 = none;
  checksum_sha512 = none;
  download_count = 0;
  signature = none;
  signature_key_id = none;
  signature_manifest = none;
  deleted_at = none;
}

abbrev pub catalog : Catalog
catalog = record {
  software = product ∷ [];
  keys = [];
  versions = version_of 10 0 ∷ version_of 11 1 ∷ [];
  platforms = windows ∷ [];
  architectures = x64 ∷ [];
  providers = provider ∷ [];
  artifacts = artifact_of 50 10 true ∷ artifact_of 51 11 true ∷ [];
  downloads = [];
}
