-- ===== src/Model.antt =====
-- The rows of the database, as database/schema.ts and app/models declare them. A UUID column is a
-- 128-bit number, of which the code only asks whether two are equal; a timestamp is a number of
-- milliseconds; a nullable column is an `Option`. Columns that no modelled operation reads or
-- writes (created_at, updated_at, mime types, icons) are left out.
use reeva.Prelude.{ℕ, Text, Bool, Option, List}

abbrev pub Uuid : Type 0
Uuid = ℕ

pub record Software : Type 0 where
  pub id : Uuid
  pub name : Text
  pub slug : Text
  pub is_active : Bool
  pub is_default : Bool
  pub require_signed_updates : Bool

pub record SigningKey : Type 0 where
  pub id : Uuid
  pub software_id : Uuid
  pub key_id : Text
  pub public_key : Text
  pub is_active : Bool

pub record Version : Type 0 where
  pub id : Uuid
  pub software_id : Uuid
  pub major : ℕ
  pub minor : ℕ
  pub patch : ℕ
  pub codename : Option Text
  pub changelog : Option Text
  pub is_active : Bool
  pub release_date : Option ℕ
  pub deleted_at : Option ℕ

pub record Platform : Type 0 where
  pub id : Uuid
  pub name : Text
  pub display_name : Text
  pub deleted_at : Option ℕ

pub record Architecture : Type 0 where
  pub id : Uuid
  pub name : Text
  pub display_name : Text
  pub deleted_at : Option ℕ

pub record StorageProvider : Type 0 where
  pub id : Uuid
  pub name : Text
  pub is_default : Bool
  pub is_active : Bool
  pub quota_bytes : Option ℕ
  pub deleted_at : Option ℕ

-- The JSON document that a release signature covers. `jsonb_build_object` writes a null where a
-- joined row or a column is missing, hence the options.
pub record Manifest : Type 0 where
  pub schema_version : ℕ
  pub software : Text
  pub version : Text
  pub codename : Option Text
  pub changelog : Option Text
  pub channel : Text
  pub platform : Option Text
  pub architecture : Option Text
  pub file_name : Text
  pub size_bytes : Option ℕ
  pub sha256 : Option Text

pub record Artifact : Type 0 where
  pub id : Uuid
  pub file_name : Text
  pub version_id : Uuid
  pub platform_id : Uuid
  pub architecture_id : Uuid
  pub storage_key : Text
  pub storage_provider_id : Uuid
  pub size_bytes : Option ℕ
  pub is_archived : Bool
  pub is_published : Bool
  pub channel : Text
  pub published_at : Option ℕ
  pub checksum : Option Text
  pub checksum_md5 : Option Text
  pub checksum_sha1 : Option Text
  pub checksum_sha256 : Option Text
  pub checksum_sha512 : Option Text
  pub download_count : ℕ
  pub signature : Option Text
  pub signature_key_id : Option Text
  pub signature_manifest : Option Manifest
  pub deleted_at : Option ℕ

pub record DownloadHistory : Type 0 where
  pub artifact_id : Uuid
  pub ip_address : Option Text
  pub user_agent : Option Text

-- The tables that the release queries join.
pub record Catalog : Type 0 where
  pub software : List Software
  pub keys : List SigningKey
  pub versions : List Version
  pub platforms : List Platform
  pub architectures : List Architecture
  pub providers : List StorageProvider
  pub artifacts : List Artifact
  pub downloads : List DownloadHistory
