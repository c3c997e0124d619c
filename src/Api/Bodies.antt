-- ===== src/Api/Bodies.antt =====
-- The JSON bodies of app/controllers/api/updater_controller.ts.
use reeva.Prelude.{
  ℕ, Bool, true, Option, none, some, List, [], ◌∷◌, ◌++◌, Text, lit, is_some, if◌then◌else◌, Result,
  ok, err, or_fail, ◌>>=◌, decimal,
}
use reeva.Model.{Uuid, Artifact, Catalog}
use reeva.Input.{Value, read_text, is_missing}
use reeva.Release.{Candidate, version_text}
use reeva.Signature
use reeva.Signature.{Loaded, load, Codec, SignatureEnvelope, create_envelope}
use reeva.Headers.{encode_uri_component}
use reeva.Updater
use reeva.Updater.{
  SemVer, Sorting, Page, World, unsupported_target, software_not_found, check_for_update,
  get_latest, get_releases, record_and_stream,
}

-- What the handlers use of the outside world, beside the object stores
pub record Outside : Type 0 where
  pub db : Sorting
  pub codec : Codec
  pub parse : Text → Option SemVer
  pub gt : Text → Text → Bool
  pub absolute : Text → Text
  pub show_id : Uuid → Text

pub record UpdateBody : Type 0 where
  pub version : Text
  pub codename : Option Text
  pub changelog : Option Text
  pub channel : Text
  pub download_url : Text
  pub md5 : Option Text
  pub sha1 : Option Text
  pub sha256 : Option Text
  pub sha512 : Option Text
  pub size_bytes : Option ℕ
  pub published_at : Option ℕ
  pub signed_manifest : Option SignatureEnvelope

pub record ReleaseBody : Type 0 where
  pub id : Uuid
  pub version : Text
  pub codename : Option Text
  pub changelog : Option Text
  pub platform : Text
  pub arch : Text
  pub channel : Text
  pub file_name : Text
  pub size_bytes : Option ℕ
  pub checksum : Option Text
  pub published_at : Option ℕ
  pub download_url : Text
  pub signed_manifest : Option SignatureEnvelope

-- An exception that no handler catches; the framework answers it with a status 500.
pub data Uncaught : Type 0 where
  updater : Updater.Error → Uncaught
  manifest : Signature.Error → Uncaught
  type_error uri_error : Uncaught

-- `getDownloadUrl`
unfoldable pub get_download_url : Outside → Uuid → Option Text → Result Uncaught Text
get_download_url out id none = ok (out.absolute (lit "/api/download/" ++ out.show_id id))
get_download_url out id (some slug) = or_fail (encode_uri_component slug) uri_error >>= λ s.
    ok (out.absolute (lit "/api/software/" ++ s ++ lit "/download/" ++ out.show_id id))

abbrev pub signed : {A : Type 0} → Result Signature.Error A → Result Uncaught A
signed (ok a) = ok a
signed (err e) = err (manifest e)

-- The JSON of `check`
unfoldable pub update_body : Outside → Catalog → Artifact → Option Text → Result Uncaught UpdateBody
update_body out c a slug = do
  v ← or_fail (load c a).version type_error
  url ← get_download_url out a.id slug
  envelope ← signed (create_envelope out.codec (load c a))
  ok (record {
    version = version_text v.major v.minor v.patch;
    codename = v.codename;
    changelog = v.changelog;
    channel = a.channel;
    download_url = url;
    md5 = a.checksum_md5;
    sha1 = a.checksum_sha1;
    sha256 = a.checksum_sha256;
    sha512 = a.checksum_sha512;
    size_bytes = a.size_bytes;
    published_at = a.published_at;
    signed_manifest = envelope;
  })

-- One release of `releases`; `latest` has the same fields, less the id and the date
unfoldable pub release_body :
    Outside → Catalog → Artifact → Option Text → Result Uncaught ReleaseBody
release_body out c a slug = do
  v ← or_fail (load c a).version type_error
  p ← or_fail (load c a).platform type_error
  r ← or_fail (load c a).architecture type_error
  url ← get_download_url out a.id slug
  envelope ← signed (create_envelope out.codec (load c a))
  ok (record {
    id = a.id;
    version = version_text v.major v.minor v.patch;
    codename = v.codename;
    changelog = v.changelog;
    platform = p.name;
    arch = r.name;
    channel = a.channel;
    file_name = a.file_name;
    size_bytes = a.size_bytes;
    checksum = a.checksum;
    published_at = a.published_at;
    download_url = url;
    signed_manifest = envelope;
  })

-- `results.map(…)`
unfoldable pub release_bodies :
    Outside → Catalog → List Candidate → Option Text → Result Uncaught (List ReleaseBody)
release_bodies out c [] slug = ok []
release_bodies out c (x ∷ rest) slug = release_body out c x.artifact slug >>= λ body.
    release_bodies out c rest slug >>= λ bodies. ok (body ∷ bodies)

abbrev pub has_update : Outside → Option Text → Text → Bool
has_update out none version = true
has_update out (some current) version = out.gt version current

-- `currentVersion` is missing, or a valid version
abbrev pub current_version : Outside → Value → Option (Option Text)
current_version out value = if is_missing value then some none else elim (read_text value) [
  | none ↦ none
  | some v ↦ if is_some (out.parse v) then some (some v) else none
]

abbrev pub content_length : Option ℕ → Option Text
content_length none = none
content_length (some n) = some (decimal n)
