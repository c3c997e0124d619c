-- ===== src/Signature.antt =====
-- app/services/ota_release_signature_service.ts: the release manifest, its payload, the check of a
-- signature and the envelope of the API. JSON, base64url and Ed25519 come from Node: they are the
-- parameters `Codec` and `Crypto`.
pub mod Envelope
pub mod Verify
pub mod Code
use reeva.Prelude.{
  ℕ, ◌+◌, ◌-◌, ◌^◌, ◌≤◌, ◌≡◌, Bool, true, false, not, ◌&&◌, ◌||◌, Option, none, some, List, [], ◌∷◌,
  Text, lit, same, leb, ◌==◌, every, find, length, is_none, is_empty, is_digit, truthy,
  if◌then◌else◌, Result, ok, err, or_fail, require, ◌>>=◌, ◌>>◌,
}
use reeva.Model.{Software, Version, Platform, Architecture, Manifest, Artifact, Catalog}
use reeva.Release.{version_text, same_manifest}
use reeva.Input.{max_safe}

pub data Error : Type 0 where
  incomplete_metadata invalid_size invalid_checksum : Error

-- An artifact with its preloaded relations
pub record Loaded : Type 0 where
  pub artifact : Artifact
  pub version : Option Version
  pub software : Option Software
  pub platform : Option Platform
  pub architecture : Option Architecture

-- `preload('version', (query) => query.preload('software')).preload('platform')…`, where the
-- models with soft deletes leave out deleted rows
unfoldable pub load : Catalog → Artifact → Loaded
load c a =
    let version = find (λ (v : Version). v.id == a.version_id && is_none v.deleted_at) c.versions in
    record {
      artifact = a;
      version = version;
      software = elim version [
        | none ↦ none
        | some v ↦ find (λ (s : Software). s.id == v.software_id) c.software
      ];
      platform = find (λ (p : Platform). p.id == a.platform_id && is_none p.deleted_at) c.platforms;
      architecture =
          find (λ (r : Architecture). r.id == a.architecture_id && is_none r.deleted_at)
            c.architectures;
    }

abbrev pub is_hex_unit : ℕ → Bool
is_hex_unit c = (leb b'a' c && leb c b'f') || is_digit c

-- `/^[a-f0-9]{64}$/`
unfoldable pub is_sha256 : Text → Bool
is_sha256 s = length s == 64 && every is_hex_unit s

-- `Number.isSafeInteger(sizeBytes)` for a column that may be null
abbrev pub safe_size : Option ℕ → Option ℕ
safe_size none = none
safe_size (some n) = if leb n max_safe then some n else none

abbrev pub valid_checksum : Option Text → Option Text
valid_checksum none = none
valid_checksum (some s) = if is_sha256 s then some s else none

-- `buildOtaReleaseManifest`
unfoldable pub build_manifest : Loaded → Result Error Manifest
unfolding is_sha256 version_text
build_manifest l = do
  version ← or_fail l.version incomplete_metadata
  software ← or_fail l.software incomplete_metadata
  platform ← or_fail l.platform incomplete_metadata
  architecture ← or_fail l.architecture incomplete_metadata
  size ← or_fail (safe_size l.artifact.size_bytes) invalid_size
  sha256 ← or_fail (valid_checksum l.artifact.checksum_sha256) invalid_checksum
  ok (record {
    schema_version = 1;
    software = software.slug;
    version = version_text version.major version.minor version.patch;
    codename = version.codename;
    changelog = version.changelog;
    channel = l.artifact.channel;
    platform = some platform.name;
    architecture = some architecture.name;
    file_name = l.artifact.file_name;
    size_bytes = some size;
    sha256 = some sha256;
  })

-- `JSON.stringify` to base64url, and `JSON.parse` of the decoded bytes
pub record Codec : Type 0 where
  pub encode : Manifest → Text
  pub parse : Text → Option Manifest
  pub parse-encode : (m : Manifest) → parse (encode m) ≡ some m

-- `createOtaReleasePayload`
unfoldable pub create_payload : Codec → Loaded → Result Error Text
create_payload codec l = do m ← build_manifest l; ok (codec.encode m)

-- `Buffer.from(text, 'base64url')`, `toString('base64url')`, and `crypto.verify` with a key from
-- PEM, where `none` is an exception
pub record Crypto : Type 0 where
  pub decode : Text → List ℕ
  pub encode : List ℕ → Text
  pub verify : List ℕ → Text → List ℕ → Option Bool

abbrev pub is_url_unit : ℕ → Bool
is_url_unit c =
    (leb b'A' c && leb c b'Z') || (leb b'a' c && leb c b'z') || is_digit c || c == b'_' || c == b'-'

abbrev pub caught : Option Bool → Bool
caught none = false
caught (some b) = b

-- `/^[A-Za-z0-9_-]{86}$/`
unfoldable pub is_signature_text : Text → Bool
is_signature_text s = length s == 86 && every is_url_unit s

-- `/^[A-Za-z0-9_-]+$/` and the limit on the length
unfoldable pub is_payload_text : Text → Bool
is_payload_text s = not (is_empty s) && every is_url_unit s && leb (length s) 120000

-- `verifyOtaReleaseSignature`; a signature that is no string is `none`
unfoldable pub verify_signature : Crypto → Text → Option Text → Text → Bool
unfolding is_signature_text is_payload_text
verify_signature k payload none key = false
verify_signature k payload (some signature) key =
    is_signature_text signature
    && is_payload_text payload
    && (length (k.decode signature) == 64
        && same (k.encode (k.decode signature)) signature
        && not (length (k.decode payload) == 0)
        && same (k.encode (k.decode payload)) payload)
    && caught (k.verify (k.decode payload) key (k.decode signature))

pub record SignatureEnvelope : Type 0 where
  pub payload : Text
  pub signature : Text
  pub key_id : Text

-- The snapshot must exist, and every field of the manifest must be the same there.
abbrev pub snapshot_matches : Option Manifest → Manifest → Bool
snapshot_matches none m = false
snapshot_matches (some s) m = same_manifest m s

unfoldable pub envelope_of :
    Codec → Option Manifest → Option Text → Option Text → Manifest → Option SignatureEnvelope
envelope_of codec snapshot (some signature) (some key_id) m =
    if snapshot_matches snapshot m
    then some (record { payload = codec.encode m; signature = signature; key_id = key_id })
    else none
envelope_of codec snapshot _ _ m = none

-- `createOtaSignatureEnvelope`; an empty signature or key id is falsy
unfoldable pub create_envelope : Codec → Loaded → Result Error (Option SignatureEnvelope)
create_envelope codec l =
    if truthy l.artifact.signature && truthy l.artifact.signature_key_id
    then (do
      m ← build_manifest l
      ok (
          envelope_of codec l.artifact.signature_manifest l.artifact.signature
            l.artifact.signature_key_id m))
    else ok none
