-- ===== src/Artifacts/Tests.antt =====
-- Runs of signing and publication.
use reeva.Prelude.{
  ◌≡◌, refl, sym, ◌∙◌, true, false, none, some, [], ◌∷◌, Memᴰ, Text, lit, ok, same, same_option,
  trim, trim_start, is_space, take, length, ◌==◌, if◌then◌else◌, decimal, decimal_from,
}
use reeva.Model.{Software, Artifact, Catalog, Manifest, Platform, Architecture}
use reeva.Input.{text}
use reeva.Sample.{product, artifact_of, catalog, version_of, provider}
use reeva.Release.{same_manifest, version_text, is_public}
use reeva.Signature.{
  is_sha256, load, build_manifest, Crypto, create_payload, verify_signature, is_signature_text,
  is_payload_text, envelope_of, create_envelope, SignatureEnvelope,
}
use reeva.Signature.Code.{codec_for, encode, parse}
use reeva.Signature.Envelope.{HasKey, IsLoaded, IsCurrent, create_envelope-IsCurrent}
use reeva.Signature.Verify.{IsAccepted, verify_signature-IsAccepted}
use reeva.Artifacts.{find_artifact, save, find_key, assert_valid_signature, publish, set_signature}
use reeva.Artifacts.{build_file_name}
use reeva.Artifacts.Names.{IsSafe, build_file_name-IsSafe}
use reeva.Products
use reeva.Products.{find_software, is_of, active_keys}
use reeva.Products.Required.{
  is_required, key_by_id, check_release, check_releases, releases_of, check_required,
  set_require_signed_updates, IsRelease, IsVerified, set_require_signed_updates-All,
}
use reeva.Artifacts.Publish.{IsPublished, publish-IsPublished}
use reeva.Artifacts.Sign.{IsSigned, set_signature-IsSigned}
use reeva.Artifacts.Public.{HasStore, publish-set_signature-is_public}

abbrev pub key_id : Text
key_id = lit "0123456789012345678901234567890123456789012345678901234567890123"

abbrev pub signature : Text
signature =
    lit "AAAAAAAAAAAAAAAAAAAAAAAAAAAAAAAAAAAAAAAAAAAAAAAAAAAAAAAAAAAAAAAAAAAAAAAAAAAAAAAAAAAAAA"

-- 64 bytes stand for the 86 letters of a signature, and other texts for themselves.
abbrev pub crypto : Crypto
crypto = record {
  decode = λ s. if length s == 86 then take 64 s else s;
  encode = λ bytes. if length bytes == 64 then signature else bytes;
  verify = λ payload key bytes. some true;
}

abbrev pub draft : Artifact
draft = record (artifact_of 51 11 false) { checksum_sha256 = some key_id }

abbrev strict : Software
strict = record product { require_signed_updates = true }

abbrev pub drafts : Catalog
drafts = record catalog {
  software = strict ∷ [];
  keys =
      record { id = 60; software_id = 1; key_id = key_id; public_key = lit "P"; is_active = true }
      ∷ [];
  artifacts = draft ∷ [];
}

abbrev pub manifest : Manifest
manifest = record {
  schema_version = 1;
  software = lit "app";
  version = lit "1.1.0";
  codename = none;
  changelog = none;
  channel = lit "stable";
  platform = some (lit "windows");
  architecture = some (lit "x64");
  file_name = lit "app.zip";
  size_bytes = some 5;
  sha256 = some key_id;
}

abbrev pub signed : Artifact
signed = record draft {
  signature = some signature;
  signature_key_id = some key_id;
  signature_manifest = some manifest;
}

abbrev pub after_sign : Catalog
after_sign = record drafts { artifacts = signed ∷ [] }

sign_run :
    set_signature (codec_for manifest) crypto drafts 51 (text key_id) (text signature)
    ≡ ok (signed, after_sign)
unfolding set_signature find_artifact save find_key is_sha256 load build_manifest create_payload
    verify_signature is_signature_text is_payload_text same same_option same_manifest version_text
    decimal decimal_from trim trim_start is_space encode parse
sign_run = refl

mem-single : {R : Type 0} {r x : R} → Memᴰ x (r ∷ []) → x ≡ r
mem-single (Memᴰ.head e) = e
mem-single (Memᴰ.tail m) = elim m [ ]

pub platform-HasKey : HasKey (λ (p : Platform). p.id) drafts.platforms
platform-HasKey x y m n i = mem-single m ∙ sym (mem-single n)

pub architecture-HasKey : HasKey (λ (r : Architecture). r.id) drafts.architectures
architecture-HasKey x y m n i = mem-single m ∙ sym (mem-single n)

set_signature-IsSigned_example : IsSigned (codec_for manifest) crypto drafts 51 signed after_sign
set_signature-IsSigned_example =
    set_signature-IsSigned (codec_for manifest) crypto drafts 51 (text key_id) (text signature)
      signed after_sign platform-HasKey architecture-HasKey sign_run

abbrev published : Artifact
published = record signed { is_published = true; published_at = some 9 }

abbrev after_publish : Catalog
after_publish = record drafts { artifacts = published ∷ [] }

publish_run : publish (codec_for manifest) crypto after_sign 51 9 ≡ ok (published, after_publish)
unfolding publish find_artifact save find_key assert_valid_signature load build_manifest is_sha256
    create_payload verify_signature is_signature_text is_payload_text same same_option same_manifest
    version_text decimal decimal_from encode parse
publish_run = refl

publish-IsPublished_example :
    IsPublished (codec_for manifest) crypto after_sign 51 9 published after_publish
publish-IsPublished_example =
    publish-IsPublished (codec_for manifest) crypto after_sign 51 9 published after_publish
      publish_run

loaded : IsLoaded after_sign signed strict (version_of 11 1)
unfolding load
loaded = record { version = refl; software = refl }

stored : HasStore after_sign signed
stored = record {
  provider = provider;
  listed = Memᴰ.head refl;
  provider_of = refl;
  live = refl;
  active = refl;
}

publish-set_signature-is_public_example : is_public after_publish (some 1) published ≡ true
publish-set_signature-is_public_example =
    publish-set_signature-is_public (codec_for manifest) crypto drafts after_sign after_publish 51
      (text key_id) (text signature) signed published 9 strict (version_of 11 1) platform-HasKey
      architecture-HasKey sign_run publish_run loaded refl refl stored

abbrev envelope : SignatureEnvelope
envelope = record { payload = lit "AAAA"; signature = signature; key_id = key_id }

envelope_run : create_envelope (codec_for manifest) (load after_sign signed) ≡ ok (some envelope)
unfolding create_envelope envelope_of load build_manifest is_sha256 same same_option same_manifest
    version_text decimal decimal_from encode
envelope_run = refl

create_envelope-IsCurrent_example : IsCurrent (codec_for manifest) (load after_sign signed) envelope
create_envelope-IsCurrent_example =
    create_envelope-IsCurrent (codec_for manifest) (load after_sign signed) envelope envelope_run

verify_run : verify_signature crypto (lit "AAAA") (some signature) (lit "P") ≡ true
unfolding verify_signature is_signature_text is_payload_text same
verify_run = refl

verify_signature-IsAccepted_example :
    IsAccepted crypto (lit "AAAA") signature (lit "P")
    × (crypto.decode signature ≡ crypto.decode signature → signature ≡ signature)
    × (crypto.decode (lit "AAAA") ≡ crypto.decode (lit "AAAA") → lit "AAAA" ≡ lit "AAAA")
verify_signature-IsAccepted_example =
    verify_signature-IsAccepted crypto (lit "AAAA") (lit "AAAA") signature signature (lit "P")
      (lit "P") verify_run verify_run

abbrev nfkd : Text → Text
nfkd s = s

build_file_name-IsSafe_example :
    IsSafe (
      build_file_name nfkd
        (lit "My App!")
        (lit "windows")
        (lit "x64")
        (version_of 11 1)
        (lit "zip"))
build_file_name-IsSafe_example =
    build_file_name-IsSafe nfkd (lit "My App!") (lit "windows") (lit "x64") (version_of 11 1)
      (lit "zip")

require_run :
    set_require_signed_updates (codec_for manifest) crypto after_publish 1 (text (lit "on"))
    ≡ ok (strict ∷ [])
unfolding set_require_signed_updates check_required check_releases check_release key_by_id
    releases_of active_keys is_of find_software Products.save load build_manifest is_sha256
    create_payload verify_signature is_signature_text is_payload_text same same_option same_manifest
    version_text decimal decimal_from encode
require_run = refl

on_run : is_required (text (lit "on")) ≡ true
unfolding same
on_run = refl

published-IsRelease : IsRelease after_publish 1 published
published-IsRelease = record {
  listed = Memᴰ.head refl;
  published = refl;
  unarchived = refl;
  live = refl;
  version = version_of 11 1;
  version_listed = Memᴰ.tail (Memᴰ.head refl);
  version_of = (refl, refl);
  version_active = refl;
}

set_require_signed_updates-All_example :
    IsVerified (codec_for manifest) crypto after_publish 1 published
set_require_signed_updates-All_example =
    set_require_signed_updates-All (codec_for manifest) crypto after_publish 1 (text (lit "on"))
      (strict ∷ []) published on_run require_run published-IsRelease
