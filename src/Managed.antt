-- ===== src/Managed.antt =====
-- app/services/managed_signer_service.ts: what is accepted of the answers of the managed signer, and
-- `importManagedSignature` of app/services/artifact_service.ts. The HTTP call is a parameter: it may
-- answer anything. An answer's fields are values of which the code knows nothing before it has
-- looked. A status that is an array of one text passes `signingRequest` of the source and is refused
-- by its caller; here it is refused at once.
pub mod Imported
mod Tests
use reeva.Prelude.{
  ℕ, ◌≡◌, Bool, true, false, not, ◌&&◌, ◌||◌, Option, none, some, List, [], ◌∷◌, ◌++◌, Text, lit,
  same, leb, ◌==◌, truthy, if◌then◌else◌, Result, ok, err, or_fail, require, ◌>>=◌, ◌>>◌,
}
use reeva.Model.{Uuid, Artifact, Catalog}
use reeva.Input.{Value, undefined, null, text}
use reeva.Headers.{encode_uri_component}
use reeva.Signature
use reeva.Signature.{load, Codec, Crypto, create_payload, verify_signature}
use reeva.Artifacts
use reeva.Artifacts.{find_artifact, set_signature}
use reeva.Products.{KeyReader}

pub data Error : Type 0 where
  not_configured uri_error invalid_key fingerprint_mismatch other_release invalid_signature : Error
  invalid_pending not_signed row_not_found broken_relation : Error
  manifest : Signature.Error → Error
  artifact : Artifacts.Error → Error

pub record Answer : Type 0 where
  pub product : Value
  pub key_version : Value
  pub key_id : Value
  pub public_key : Value
  pub id : Value
  pub payload : Value
  pub payload_digest : Value
  pub status : Value
  pub signature : Value
  pub expires_at : Value

-- The signer's answer to a path, where a 404 is `none`; the value of an integer that is not
-- negative; `Number.isSafeInteger`; and the hash of Node over the bytes of a text or of a payload
pub record Signer : Type 0 where
  pub call : Text → Result Error (Option Answer)
  pub integer : Value → Option ℕ
  pub is_safe_integer : Value → Bool
  pub utf8 : Text → List ℕ
  pub sha256 : List ℕ → Text
  pub reader : KeyReader

pub record ManagedKey : Type 0 where
  pub product : Text
  pub key_version : ℕ
  pub key_id : Text
  pub public_key : Text

pub record Request : Type 0 where
  pub key : ManagedKey
  pub id : Text
  pub payload : Text
  pub payload_digest : Text
  pub status : Text
  pub signature : Value

-- `value === text`
abbrev pub is_text : Value → Text → Bool
is_text (text s) t = same s t
is_text _ t = false

abbrev pub text_of : Value → Option Text
text_of (text s) = some s
text_of _ = none

abbrev pub is_null : Value → Bool
is_null null = true
is_null _ = false

-- `managedRequestId`
unfoldable pub managed_request_id : Signer → Crypto → Text → Text → Text → Text
managed_request_id w crypto product key_id payload = w.sha256 (
    w.utf8 (lit "reeva-signer-v1")
    ++ (0 ∷ (w.utf8 product ++ (0 ∷ (w.utf8 key_id ++ (0 ∷ crypto.decode payload))))))

-- `key`
unfoldable pub managed_key : Signer → Option Answer → Text → Result Error ManagedKey
managed_key w answer product = do
  a ← or_fail answer invalid_key
  require (is_text a.product product) invalid_key
  version ← or_fail (w.integer a.key_version) invalid_key
  require (leb 1 version) invalid_key
  key_text ← or_fail (text_of a.public_key) invalid_key
  public ← or_fail (w.reader.validate key_text) invalid_key
  require (is_text a.key_id public.0) fingerprint_mismatch
  ok (record { product = product; key_version = version; key_id = public.0; public_key = public.1 })

-- `getKey`
unfoldable pub get_key : Signer → Text → Result Error ManagedKey
get_key w product = do
  path ← or_fail (encode_uri_component product) uri_error
  answer ← w.call (lit "/v1/products/" ++ (path ++ lit "/key"))
  managed_key w answer product

-- The conditions on an answer that is not null
unfoldable pub check_request : Signer → Crypto → Answer → ManagedKey → Text → Result Error Request
check_request w crypto a key payload = do
  actual ← managed_key w (some a) key.product
  let id : Text = managed_request_id w crypto key.product key.key_id payload
  let digest : Text = w.sha256 (crypto.decode payload)
  require
      (same actual.key_id key.key_id
        && actual.key_version == key.key_version
        && is_text a.id id
        && is_text a.payload payload
        && is_text a.payload_digest digest
        && (is_text a.status (lit "pending") || is_text a.status (lit "signed"))
        && w.is_safe_integer a.expires_at)
      other_release
  require
      (not (is_text a.status (lit "signed"))
        || verify_signature crypto payload (text_of a.signature) key.public_key)
      invalid_signature
  require (not (is_text a.status (lit "pending")) || is_null a.signature) invalid_pending
  status ← or_fail (text_of a.status) other_release
  ok (record {
    key = actual;
    id = id;
    payload = payload;
    payload_digest = digest;
    status = status;
    signature = a.signature;
  })

abbrev pub some_request : Request → Result Error (Option Request)
some_request r = ok (some r)

-- `signingRequest`
unfoldable pub signing_request :
    Signer → Crypto → Option Answer → ManagedKey → Text → Result Error (Option Request)
signing_request w crypto none key payload = ok none
signing_request w crypto (some a) key payload =
    check_request w crypto a key payload >>= some_request

-- `getRequest`
unfoldable pub get_request : Signer → Crypto → ManagedKey → Text → Result Error (Option Request)
get_request w crypto key payload = do
  answer ←
      w.call (lit "/v1/requests/" ++ managed_request_id w crypto key.product key.key_id payload)
  signing_request w crypto answer key payload

abbrev pub lift_manifest : {A : Type 0} → Result Signature.Error A → Result Error A
lift_manifest (ok a) = ok a
lift_manifest (err e) = err (manifest e)

abbrev pub lift_artifact : {A : Type 0} → Result Artifacts.Error A → Result Error A
lift_artifact (ok a) = ok a
lift_artifact (err e) = err (artifact e)

-- `importManagedSignature`
unfoldable pub import_managed_signature :
    Signer → Codec → Crypto → Catalog → Uuid → Result Error (Artifact × Catalog)
import_managed_signature w codec crypto c id = do
  a ← or_fail (find_artifact c id) row_not_found
  v ← or_fail (load c a).version broken_relation
  s ← or_fail (load c a).software broken_relation
  key ← get_key w s.slug
  payload ← lift_manifest (create_payload codec (load c a))
  answer ← get_request w crypto key payload
  r ← or_fail answer not_signed
  require (same r.status (lit "signed") && truthy (text_of r.signature)) not_signed
  lift_artifact (set_signature codec crypto c id (text r.key.key_id) r.signature)
