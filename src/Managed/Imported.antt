-- ===== src/Managed/Imported.antt =====
-- What an import from the managed signer stores.
use reeva.Prelude.{
  ◌≡◌, refl, sym, ap, ◌∙◌, Bool, true, false, not, ◌&&◌, ◌||◌, Option, none, some, ◌++◌, Text, lit,
  same, same→eq, truthy, and_left, and_right, Result, ok, err, or_fail-eq-ok, require-eq-ok,
  >>=-eq-ok, ok-injective,
}
use reeva.Model.{Uuid, Software, Artifact, Catalog, Platform, Architecture}
use reeva.Input.{Value, undefined, null, bool, number, text, object}
use reeva.Signature
use reeva.Artifacts
use reeva.Signature.{load, Codec, Crypto, create_payload, verify_signature}
use reeva.Signature.Envelope.{HasKey}
use reeva.Artifacts.{find_artifact, set_signature}
use reeva.Artifacts.Sign.{IsSigned, set_signature-IsSigned}
use reeva.Managed.{
  Answer, Signer, ManagedKey, Request, row_not_found, broken_relation, other_release,
  invalid_signature, invalid_pending, not_signed, is_text, text_of, is_null, managed_request_id,
  managed_key, get_key, check_request, some_request, signing_request, get_request, lift_manifest,
  lift_artifact, import_managed_signature,
}

-- What a request that is accepted says
pub record IsChecked (crypto : Crypto) (key : ManagedKey) (payload : Text) (r : Request)
    : Type 0 where
  pub key_id : r.key.key_id ≡ key.key_id
  pub covers : r.payload ≡ payload
  pub verified :
      same r.status (lit "signed") ≡ true
      → verify_signature crypto payload (text_of r.signature) key.public_key ≡ true

text_of-eq-some : (v : Value) (s : Text) → text_of v ≡ some s → v ≡ text s
text_of-eq-some undefined s e = cc
text_of-eq-some null s e = cc
text_of-eq-some (bool b) s e = cc
text_of-eq-some (number t) s e = cc
text_of-eq-some (text t) s e = cc
text_of-eq-some object s e = cc

implied : (a b : Bool) → (not a || b) ≡ true → a ≡ true → b ≡ true
implied true b h t = h
implied false b h t = cc

all_left : (a b c d e f g : Bool) → (a && b && c && d && e && f && g) ≡ true → a ≡ true
all_left true b c d e f g h = refl
all_left false b c d e f g h = cc

check_request-IsChecked :
    (w : Signer) (crypto : Crypto) (a : Answer) (key : ManagedKey) (payload : Text) (r : Request)
    → check_request w crypto a key payload ≡ ok r
    → IsChecked crypto key payload r
unfolding check_request
check_request-IsChecked w crypto a key payload r run =
    let (actual, e1, run1) = >>=-eq-ok (managed_key w (some a) key.product) _ run in
    let (same_release, run2) = require-eq-ok _ other_release _ run1 in
    let (good, run3) =
      require-eq-ok
        (not (is_text a.status (lit "signed"))
          || verify_signature crypto payload (text_of a.signature) key.public_key)
        invalid_signature _ run2 in
    let (empty, run4) =
      require-eq-ok (not (is_text a.status (lit "pending")) || is_null a.signature) invalid_pending
        _ run3 in
    let (status, e2, run5) = or_fail-eq-ok (text_of a.status) other_release _ run4 in
    let e : ◌≡◌ {A = Request} r (record {
      key = actual;
      id = managed_request_id w crypto key.product key.key_id payload;
      payload = payload;
      payload_digest = w.sha256 (crypto.decode payload);
      status = status;
      signature = a.signature;
    }) =
      sym (ok-injective run5) in
    rw e (record {
      key_id =
          same→eq actual.key_id key.key_id
            (all_left (same actual.key_id key.key_id) _ _ _ _ _ _ same_release);
      covers = refl;
      verified = λ s.
          implied (is_text a.status (lit "signed")) _ good
            (ap (λ v. is_text v (lit "signed")) (text_of-eq-some a.status status e2) ∙ s);
    })

signing_request-IsChecked :
    (w : Signer) (crypto : Crypto) (o : Option Answer) (key : ManagedKey) (payload : Text)
    (r : Request)
    → signing_request w crypto o key payload ≡ ok (some r)
    → IsChecked crypto key payload r
unfolding signing_request
signing_request-IsChecked w crypto none key payload r run = cc
signing_request-IsChecked w crypto (some a) key payload r run =
    let (q, e, run1) = >>=-eq-ok (check_request w crypto a key payload) some_request run in
    let same_request : q ≡ r = some-injective (ok-injective run1) in
    rw same_request at (check_request-IsChecked w crypto a key payload q e)
  where
    some-injective : {x y : Request} → ◌≡◌ {A = Option Request} (some x) (some y) → x ≡ y
    some-injective h = cc

get_request-IsChecked :
    (w : Signer) (crypto : Crypto) (key : ManagedKey) (payload : Text) (r : Request)
    → get_request w crypto key payload ≡ ok (some r)
    → IsChecked crypto key payload r
unfolding get_request
get_request-IsChecked w crypto key payload r run =
    let (o, e, run1) =
      >>=-eq-ok
        (w.call (lit "/v1/requests/" ++ managed_request_id w crypto key.product key.key_id payload))
        _ run in
    signing_request-IsChecked w crypto o key payload r run1

lifted :
    (m : Result Artifacts.Error (Artifact × Catalog)) (x : Artifact × Catalog)
    → lift_artifact m ≡ ok x
    → m ≡ ok x
lifted (ok y) x e = ap ok (ok-injective e)
lifted (err y) x e = cc

lifted_manifest : (m : Result Signature.Error Text) (x : Text) → lift_manifest m ≡ ok x → m ≡ ok x
lifted_manifest (ok y) x e = ap ok (ok-injective e)
lifted_manifest (err y) x e = cc

-- What an import that succeeds stores
pub record IsImported (w : Signer) (codec : Codec) (crypto : Crypto) (c : Catalog) (id : Uuid)
    (b : Artifact) (d : Catalog) : Type 0 where
  pub before : Artifact
  pub found : find_artifact c id ≡ some before
  pub payload : Text
  pub covers : create_payload codec (load c before) ≡ ok payload
  pub software : Software
  pub owner : (load c before).software ≡ some software
  pub key : ManagedKey
  pub answered : get_key w software.slug ≡ ok key
  pub signature : Text
  pub verified : verify_signature crypto payload (some signature) key.public_key ≡ true
  pub stored : set_signature codec crypto c id (text key.key_id) (text signature) ≡ ok (b, d)
  pub signed : IsSigned codec crypto c id b d

truthy-some : (o : Option Text) → truthy o ≡ true → (s : Text) × (o ≡ some s)
truthy-some none h = cc
truthy-some (some s) h = (s, refl)

-- Whatever the managed signer answers, an import that succeeds has stored a signature that verifies
-- the artifact's present metadata under the key that the signer named for its product, and that the verification of
-- a signature entered by hand has accepted as well: under an active key of the product with the same
-- key id. The ids of platforms and architectures are taken to be their keys.
pub import_managed_signature-IsImported :
    (w : Signer) (codec : Codec) (crypto : Crypto) (c : Catalog) (id : Uuid) (b : Artifact)
    (d : Catalog)
    → HasKey (λ (p : Platform). p.id) c.platforms
    → HasKey (λ (r : Architecture). r.id) c.architectures
    → import_managed_signature w codec crypto c id ≡ ok (b, d)
    → IsImported w codec crypto c id b d
unfolding import_managed_signature
import_managed_signature-IsImported w codec crypto c id b d hp hr run =
    let (a, found, run1) = or_fail-eq-ok (find_artifact c id) row_not_found _ run in
    let (v, e1, run2) = or_fail-eq-ok (load c a).version broken_relation _ run1 in
    let (s, e2, run3) = or_fail-eq-ok (load c a).software broken_relation _ run2 in
    let (key, answered, run4) = >>=-eq-ok (get_key w s.slug) _ run3 in
    let (payload, e3, run5) = >>=-eq-ok (lift_manifest (create_payload codec (load c a))) _ run4 in
    let (answer, e4, run6) = >>=-eq-ok (get_request w crypto key payload) _ run5 in
    let (r, e5, run7) = or_fail-eq-ok answer not_signed _ run6 in
    let (ready, run8) =
      require-eq-ok (same r.status (lit "signed") && truthy (text_of r.signature)) not_signed _
        run7 in
    let checked = get_request-IsChecked w crypto key payload r (e4 ∙ ap ok e5) in
    let (signature, e6) =
      truthy-some (text_of r.signature)
        (and_right (same r.status (lit "signed")) (truthy (text_of r.signature)) ready) in
    let stored : set_signature codec crypto c id (text key.key_id) (text signature) ≡ ok (b, d) =
      rw (checked.key_id, text_of-eq-some r.signature signature e6) at (lifted _ (b, d) run8) in
    record {
      before = a;
      found = found;
      payload = payload;
      covers = lifted_manifest _ payload e3;
      software = s;
      owner = e2;
      key = key;
      answered = answered;
      signature = signature;
      verified = rw e6 at (
          checked.verified
            (and_left (same r.status (lit "signed")) (truthy (text_of r.signature)) ready));
      stored = stored;
      signed =
          set_signature-IsSigned codec crypto c id (text key.key_id) (text signature) b d hp hr
            stored;
    }
