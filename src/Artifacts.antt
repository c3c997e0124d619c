-- ===== src/Artifacts.antt =====
-- app/services/artifact_service.ts: naming, editing, signing and publishing of artifacts. Uploads
-- stand in their own module. NFKD normalisation and `toLowerCase` come from JavaScript's Unicode tables: they
-- are the parameters `nfkd` and `lower`.
pub mod Names
pub mod Publish
pub mod Sign
pub mod Public
pub mod Edit
pub mod Unsigned
mod EditTests
pub mod Tests
use reeva.Prelude.{
  ℕ, ◌+◌, ◌≡◌, Bool, true, false, not, ◌&&◌, ◌||◌, Option, none, some, List, [], ◌∷◌, ◌++◌, reverse,
  Text, lit, same, same_option, leb, ltb, ◌==◌, every, exists, find, update, length, take, drop,
  is_none, is_some, is_empty, is_digit, truthy, trim, decimal, if◌then◌else◌, Result, ok, err,
  or_fail, require, ◌>>=◌, ◌>>◌,
}
use reeva.Model.{
  Uuid, Software, SigningKey, Version, Platform, Architecture, Manifest, Artifact, Catalog,
}
use reeva.Input.{Value, text, bool, undefined, is_channel}
use reeva.Signature
use reeva.Signature.{
  Loaded, load, build_manifest, Codec, Crypto, create_payload, verify_signature, is_sha256,
}

pub data Error : Type 0 where
  row_not_found already_published archived invalid_signature signature_required invalid_key_id
        key_not_active :
      Error
  verification_failed broken_relation : Error
  manifest : Signature.Error → Error

abbrev pub lift : {A : Type 0} → Result Signature.Error A → Result Error A
lift (ok a) = ok a
lift (err e) = err (manifest e)

-- `/[^A-Za-z0-9._-]/` negated
abbrev pub is_safe_unit : ℕ → Bool
is_safe_unit c =
    (leb b'A' c && leb c b'Z')
    || (leb b'a' c && leb c b'z')
    || is_digit c
    || c == b'.'
    || c == b'_'
    || c == b'-'

-- `.replace(/[^A-Za-z0-9._-]+/g, '-')`; the flag says that the last unit was replaced
unfoldable pub replace_runs : Bool → Text → Text
replace_runs inside [] = []
replace_runs inside (c ∷ s) =
    let kept = replace_runs false s in
    let dropped = replace_runs true s in
    if is_safe_unit c then c ∷ kept else if inside then dropped else b'-' ∷ dropped

unfoldable pub strip_dashes : Text → Text
strip_dashes [] = []
strip_dashes (c ∷ s) = let rest = strip_dashes s in if c == b'-' then rest else c ∷ s

-- `.replace(/^-+|-+$/g, '')`
abbrev pub trim_dashes : Text → Text
trim_dashes s = reverse (strip_dashes (reverse (strip_dashes s)))

abbrev pub or_release : Text → Text
or_release [] = lit "release"
or_release (c ∷ s) = c ∷ s

-- `safeFilePart`
unfoldable pub safe_file_part : (Text → Text) → Text → Text
unfolding replace_runs strip_dashes
safe_file_part nfkd value = or_release (take 100 (trim_dashes (replace_runs false (nfkd value))))

-- `version.codename ? '-…' : ''`
abbrev pub codename_suffix : (Text → Text) → Option Text → Text
codename_suffix nfkd none = []
codename_suffix nfkd (some []) = []
codename_suffix nfkd (some (c ∷ s)) = b'-' ∷ safe_file_part nfkd (c ∷ s)

-- `buildFileName`
unfoldable pub build_file_name : (Text → Text) → Text → Text → Text → Version → Text → Text
build_file_name nfkd software platform architecture v extension =
    safe_file_part nfkd software
    ++ (b'_'
        ∷ (safe_file_part nfkd platform
            ++ (b'_'
                ∷ (safe_file_part nfkd architecture
                    ++ (b'_'
                        ∷ (b'v'
                            ∷ (decimal v.major
                                ++ (b'.'
                                    ∷ (decimal v.minor
                                        ++ (b'.'
                                            ∷ (decimal v.patch
                                                ++ (codename_suffix nfkd v.codename
                                                    ++ (b'.'
                                                        ∷ safe_file_part nfkd extension)))))))))))))

-- A live row of the artifacts
unfoldable pub find_artifact : Catalog → Uuid → Option Artifact
find_artifact c id = find (λ (a : Artifact). a.id == id && is_none a.deleted_at) c.artifacts

-- `artifact.save()`
unfoldable pub save : Catalog → Artifact → Catalog
save c a = record c { artifacts = update (λ (b : Artifact). b.id == a.id) (λ b. a) c.artifacts }

-- The active key of a product with a key id
unfoldable pub find_key : Catalog → Uuid → Text → Option SigningKey
find_key c software key_id =
    find (λ (k : SigningKey). k.software_id == software && same k.key_id key_id && k.is_active)
      c.keys

-- `assertValidReleaseSignature`
unfoldable pub assert_valid_signature :
    Codec → Crypto → Catalog → Artifact → Version → Result Error (Unit {0})
assert_valid_signature codec crypto c a v = do
  require (truthy a.signature && truthy a.signature_key_id) signature_required
  key_id ← or_fail a.signature_key_id signature_required
  key ← or_fail (find_key c v.software_id key_id) invalid_signature
  payload ← lift (create_payload codec (load c a))
  require (verify_signature crypto payload a.signature key.public_key) invalid_signature

-- `publishArtifact`, with the time of the call; an artifact whose version or product is gone
-- raises a TypeError
unfoldable pub publish : Codec → Crypto → Catalog → Uuid → ℕ → Result Error (Artifact × Catalog)
publish codec crypto c id now = do
  a ← or_fail (find_artifact c id) row_not_found
  require (not a.is_published) already_published
  require (not a.is_archived) archived
  v ← or_fail (load c a).version broken_relation
  s ← or_fail (load c a).software broken_relation
  if s.require_signed_updates then assert_valid_signature codec crypto c a v else ok tt
  let b : Artifact = record a { is_published = true; published_at = some now }
  ok (b, save c b)

abbrev pub trimmed : Value → Text
trimmed (text s) = trim s
trimmed _ = []

-- `setArtifactSignature`
unfoldable pub set_signature :
    Codec → Crypto → Catalog → Uuid → Value → Value → Result Error (Artifact × Catalog)
set_signature codec crypto c id key_id_input signature_input = do
  a ← or_fail (find_artifact c id) row_not_found
  let key_id : Text = trimmed key_id_input
  let signature : Text = trimmed signature_input
  require (is_sha256 key_id) invalid_key_id
  v ← or_fail (load c a).version broken_relation
  key ← or_fail (find_key c v.software_id key_id) key_not_active
  payload ← lift (create_payload codec (load c a))
  require (verify_signature crypto payload (some signature) key.public_key) verification_failed
  let b : Artifact = record a {
    signature = some signature;
    signature_key_id = some key_id;
    signature_manifest = codec.parse payload;
  }
  ok (b, save c b)
