-- ===== src/Artifacts/Publish.antt =====
-- Signing and publishing: what stands behind a published artifact.
use reeva.Prelude.{
  ℕ, ◌≡◌, refl, sym, Bool, true, false, not, ◌&&◌, Option, none, some, Memᴰ, Text, arith, truthy,
  same, same→eq, find-some, ◌==◌, is_none, is_none→eq, Result, ok, err, ◌>>=◌, require_ok,
  >>=-eq-ok, or_fail-eq-ok, require-eq-ok, ok-injective, if◌then◌else◌, and_right,
}
use reeva.Model.{Uuid, Software, Version, SigningKey, Manifest, Artifact, Catalog}
use reeva.Signature.{load, build_manifest, Codec, Crypto, create_payload, verify_signature}
use reeva.Signature.Envelope.{IsLoaded}
use reeva.Artifacts.{
  Error, row_not_found, already_published, archived, broken_relation, signature_required,
  invalid_signature, lift, find_artifact, find_key, save, assert_valid_signature, publish,
}

-- An active key of the version's product, and what it signs.
pub record IsVerified (codec : Codec) (crypto : Crypto) (c : Catalog) (a : Artifact) (v : Version)
    (m : Manifest) (signature key_id : Text) (key : SigningKey) : Type 0 where
  pub listed : Memᴰ key c.keys
  pub dedicated : key.software_id ≡ v.software_id
  pub key_id_is : key.key_id ≡ key_id
  pub active : key.is_active ≡ true
  pub built : build_manifest (load c a) ≡ ok m
  pub verified : verify_signature crypto (codec.encode m) (some signature) key.public_key ≡ true

pub find_key-some :
    (c : Catalog) (software : Uuid) (key_id : Text) (k : SigningKey)
    → find_key c software key_id ≡ some k
    → Memᴰ k c.keys × (k.software_id ≡ software) × (k.key_id ≡ key_id) × (k.is_active ≡ true)
unfolding find_key
find_key-some c software key_id k h =
    let (m, t) =
      find-some
        (λ (k : SigningKey). k.software_id == software && same k.key_id key_id && k.is_active)
        c.keys h in
    (m, ground arith, same→eq k.key_id key_id (ground arith), ground arith)

pub payload_parts :
    (codec : Codec) (c : Catalog) (a : Artifact) (payload : Text)
    → lift (create_payload codec (load c a)) ≡ ok payload
    → (m : Manifest) × (build_manifest (load c a) ≡ ok m) × (payload ≡ codec.encode m)
unfolding create_payload
payload_parts codec c a payload h = go (build_manifest (load c a)) refl h
  where
    go :
        (r : Result _ Manifest)
        → build_manifest (load c a) ≡ r
        → lift (r >>= λ m. ok (codec.encode m)) ≡ ok payload
        → (m : Manifest) × (build_manifest (load c a) ≡ ok m) × (payload ≡ codec.encode m)
    go (ok m) e k = (m, e, sym (ok-injective k))
    go (err x) e k = cc

pub assert_valid-IsVerified :
    (codec : Codec) (crypto : Crypto) (c : Catalog) (a : Artifact) (v : Version) (m : Manifest)
    (signature key_id payload : Text) (key : SigningKey)
    → find_key c v.software_id key_id ≡ some key
    → build_manifest (load c a) ≡ ok m
    → payload ≡ codec.encode m
    → verify_signature crypto payload (some signature) key.public_key ≡ true
    → IsVerified codec crypto c a v m signature key_id key
assert_valid-IsVerified codec crypto c a v m signature key_id payload key ek em ep ev =
    let (l, d, i, t) = find_key-some c v.software_id key_id key ek in
    record {
      listed = l;
      dedicated = d;
      key_id_is = i;
      active = t;
      built = em;
      verified = rw ep at ev;
    }

signed_text :
    (crypto : Crypto) (o : Option Text) (payload key : Text)
    → verify_signature crypto payload o key ≡ true
    → (s : Text) × (o ≡ some s) × (verify_signature crypto payload (some s) key ≡ true)
unfolding verify_signature
signed_text crypto none payload key h = cc
signed_text crypto (some s) payload key h = (s, refl, h)

-- What the assertion before publishing establishes.
assert_sound :
    (codec : Codec) (crypto : Crypto) (c : Catalog) (a : Artifact) (v : Version)
    → assert_valid_signature codec crypto c a v ≡ ok tt
    → (m : Manifest) × (signature : Text) × (key_id : Text) × (key : SigningKey) × (a.signature
        ≡ some signature)
      × (a.signature_key_id ≡ some key_id)
      × IsVerified codec crypto c a v m signature key_id key
unfolding assert_valid_signature
assert_sound codec crypto c a v h =
    let (t, h1) =
      require-eq-ok (truthy a.signature && truthy a.signature_key_id) signature_required _ h in
    let (key_id, ek, h2) = or_fail-eq-ok a.signature_key_id signature_required _ h1 in
    let (key, ef, h3) = or_fail-eq-ok (find_key c v.software_id key_id) invalid_signature _ h2 in
    let (payload, ep, h4) = >>=-eq-ok (lift (create_payload codec (load c a))) _ h3 in
    let (m, em, e) = payload_parts codec c a payload ep in
    let (signature, es, ev) =
      signed_text crypto a.signature payload key.public_key (require_ok _ invalid_signature h4) in
    (
      m,
      signature,
      key_id,
      key,
      es,
      ek,
      assert_valid-IsVerified codec crypto c a v m signature key_id payload key ef em e ev,
    )

-- What publishing an artifact does: the row with this id, live, neither published nor archived
-- before, becomes published at the time of the call and nothing else of it changes.
pub record IsPublished (codec : Codec) (crypto : Crypto) (c : Catalog) (id : Uuid) (now : ℕ)
    (b : Artifact) (d : Catalog) : Type 0 where
  pub before : Artifact
  pub found : find_artifact c id ≡ some before
  pub listed : Memᴰ before c.artifacts
  pub requested : before.id ≡ id
  pub live : before.deleted_at ≡ none
  pub draft : (before.is_published ≡ false) × (before.is_archived ≡ false)
  pub version : Version
  pub software : Software
  pub loaded : IsLoaded c before software version
  pub after : b ≡ record before { is_published = true; published_at = some now }
  pub saved : d ≡ save c b
  pub verified :
      software.require_signed_updates ≡ true
      → (m : Manifest) × (signature : Text) × (key_id : Text) × (key : SigningKey)
        × (before.signature ≡ some signature)
        × (before.signature_key_id ≡ some key_id)
        × IsVerified codec crypto c before version m signature key_id key

pub find_artifact-some :
    (c : Catalog) (id : Uuid) (a : Artifact)
    → find_artifact c id ≡ some a
    → Memᴰ a c.artifacts × (a.id ≡ id) × (a.deleted_at ≡ none)
unfolding find_artifact
find_artifact-some c id a h =
    let (m, t) = find-some (λ (a : Artifact). a.id == id && is_none a.deleted_at) c.artifacts h in
    (m, ground arith, is_none→eq a.deleted_at (and_right (a.id == id) _ t))

checked :
    (codec : Codec) (crypto : Crypto) (c : Catalog) (a : Artifact) (v : Version) (required : Bool)
    → (if required then assert_valid_signature codec crypto c a v else ok tt) ≡ ok tt
    → required ≡ true
    → assert_valid_signature codec crypto c a v ≡ ok tt
checked codec crypto c a v true h e = h
checked codec crypto c a v false h e = cc

not-true : (b : Bool) → not b ≡ true → b ≡ false
not-true b h = ground arith

pub pair-eq-ok :
    {A B : Type 0} {a b : A} {x y : B}
    → ◌≡◌ {A = Result Error (A × B)} (ok (a, x)) (ok (b, y))
    → (b ≡ a) × (y ≡ x)
pair-eq-ok h = (cc, cc)

-- A publication that succeeds is one of a live draft of this id. If the product requires signed
-- updates, the artifact carries a signature that an active key of the product verifies over the
-- manifest of the artifact as it stands.
pub publish-IsPublished :
    (codec : Codec) (crypto : Crypto) (c : Catalog) (id : Uuid) (now : ℕ) (b : Artifact)
    (d : Catalog)
    → publish codec crypto c id now ≡ ok (b, d)
    → IsPublished codec crypto c id now b d
unfolding publish
publish-IsPublished codec crypto c id now b d h =
    let (a, ea, h1) = or_fail-eq-ok (find_artifact c id) row_not_found _ h in
    let (t1, h2) = require-eq-ok (not a.is_published) already_published _ h1 in
    let (t2, h3) = require-eq-ok (not a.is_archived) archived _ h2 in
    let (v, ev, h4) = or_fail-eq-ok (load c a).version broken_relation _ h3 in
    let (s, es, h5) = or_fail-eq-ok (load c a).software broken_relation _ h4 in
    let (u, eu, h6) =
      >>=-eq-ok
        (if s.require_signed_updates then assert_valid_signature codec crypto c a v else ok tt) _
        h5 in
    let (e1, e2) = pair-eq-ok h6 in
    let (m, i, l) = find_artifact-some c id a ea in
    record {
      before = a;
      found = ea;
      listed = m;
      requested = i;
      live = l;
      draft = (not-true a.is_published t1, not-true a.is_archived t2);
      version = v;
      software = s;
      loaded = record { version = ev; software = es };
      after = e1;
      saved = rw e1 e2;
      verified = λ r.
          assert_sound codec crypto c a v
            (checked codec crypto c a v s.require_signed_updates eu r);
    }
