-- ===== src/Managed/Tests.antt =====
-- An import of a signature from a signer that has signed the draft of the signing tests.
use reeva.Prelude.{
  ◌≡◌, refl, true, some, Text, lit, ok, same, same_option, trim, trim_start, is_space, decimal,
  decimal_from,
}
use reeva.Input.{text, number}
use reeva.Signature.{
  is_sha256, load, build_manifest, create_payload, verify_signature, is_signature_text,
  is_payload_text,
}
use reeva.Signature.Code.{codec_for, encode, parse}
use reeva.Release.{same_manifest, version_text}
use reeva.Headers.{encode_uri_component, points_from}
use reeva.Artifacts.{find_artifact, find_key, save, set_signature}
use reeva.Artifacts.Tests.{
  key_id, signature, crypto, drafts, manifest, signed, after_sign, platform-HasKey,
  architecture-HasKey,
}
use reeva.Managed.{
  Answer, Signer, managed_request_id, managed_key, get_key, check_request, signing_request,
  get_request, import_managed_signature,
}
use reeva.Managed.Imported.{IsImported, import_managed_signature-IsImported}

abbrev payload : Text
payload = (codec_for manifest).encode manifest

-- One answer serves for the key and for the request.
abbrev answer : Answer
answer = record {
  product = text (lit "app");
  key_version = number (lit "1");
  key_id = text key_id;
  public_key = text (lit "P");
  id = text (lit "h");
  payload = text payload;
  payload_digest = text (lit "h");
  status = text (lit "signed");
  signature = text signature;
  expires_at = number (lit "9");
}

abbrev signer : Signer
signer = record {
  call = λ path. ok (some answer);
  integer = λ v. some 1;
  is_safe_integer = λ v. true;
  utf8 = λ s. s;
  sha256 = λ bytes. lit "h";
  reader = record { validate = λ s. some (key_id, s) };
}

import_run :
    import_managed_signature signer (codec_for manifest) crypto drafts 51 ≡ ok (signed, after_sign)
unfolding import_managed_signature managed_request_id managed_key get_key check_request
    signing_request get_request set_signature find_artifact save is_sha256 load build_manifest
    create_payload verify_signature is_signature_text is_payload_text same same_option same_manifest
    version_text decimal decimal_from trim trim_start is_space encode parse encode_uri_component
    points_from find_key
import_run = refl

import_managed_signature-IsImported_example :
    IsImported signer (codec_for manifest) crypto drafts 51 signed after_sign
import_managed_signature-IsImported_example =
    import_managed_signature-IsImported signer (codec_for manifest) crypto drafts 51 signed
      after_sign platform-HasKey architecture-HasKey import_run
