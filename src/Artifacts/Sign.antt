-- ===== src/Artifacts/Sign.antt =====
-- Signing an artifact, and the way from there to the public.
use reeva.Prelude.{
  ◌≡◌, refl, sym, ap, ◌∙◌, Bool, true, ◌&&◌, Option, none, some, List, [], ◌∷◌, Memᴰ, Text, arith,
  find, find-some, ◌==◌, ==→eq, is_none, is_none→eq, update, ok, >>=-eq-ok, or_fail-eq-ok,
  require-eq-ok, Bool-cases, inl, inr, and_left, and_right,
}
use reeva.Model.{
  Uuid, Software, Version, Platform, Architecture, SigningKey, Manifest, Artifact, Catalog,
}
use reeva.Input.{Value}
use reeva.Release.{current_manifest}
use reeva.Release.Eligible.{IsSignedBy}
use reeva.Signature.{
  load, build_manifest, Codec, Crypto, create_payload, verify_signature, is_sha256,
}
use reeva.Signature.Envelope.{HasKey, IsLoaded, build_manifest-eq-current, build_manifest-IsBuilt}
use reeva.Artifacts.{
  row_not_found, broken_relation, invalid_key_id, key_not_active, verification_failed, lift,
  find_artifact, find_key, save, trimmed, set_signature,
}
use reeva.Artifacts.Publish.{IsVerified, payload_parts, assert_valid-IsVerified, pair-eq-ok}

-- The rows that `load` finds are the live ones that the foreign keys name.
pub record IsLinked (c : Catalog) (a : Artifact) (s : Software) (v : Version) : Type 0 where
  pub version_listed : Memᴰ v c.versions
  pub version_of : v.id ≡ a.version_id
  pub version_live : v.deleted_at ≡ none
  pub software_listed : Memᴰ s c.software
  pub software_of : s.id ≡ v.software_id

linked_software :
    (o : Option Version) (c : Catalog) (v : Version) (s : Software)
    → o ≡ some v
    → (elim o [ none ↦ none | some v ↦ find (λ (s : Software). s.id == v.software_id) c.software ])
      ≡ some s
    → find (λ (s : Software). s.id == v.software_id) c.software ≡ some s
linked_software none c v s e h = cc
linked_software (some w) c v s e h = let k : v ≡ w = cc in rw k h

pub load-IsLinked :
    (c : Catalog) (a : Artifact) (s : Software) (v : Version) → IsLoaded c a s v → IsLinked c a s v
unfolding load
load-IsLinked c a s v l =
    let (mv, tv) =
      find-some (λ (v : Version). v.id == a.version_id && is_none v.deleted_at) c.versions
        l.version in
    let (ms, ts) =
      find-some (λ (s : Software). s.id == v.software_id) c.software
        (linked_software _ c v s l.version l.software) in
    record {
      version_listed = mv;
      version_of = ==→eq v.id a.version_id (and_left _ (is_none v.deleted_at) tv);
      version_live = is_none→eq v.deleted_at (and_right (v.id == a.version_id) _ tv);
      software_listed = ms;
      software_of = ==→eq s.id v.software_id ts;
    }

abbrev pub signed : Artifact → Manifest → Text → Text → Artifact
signed a m signature key_id = record a {
  signature = some signature;
  signature_key_id = some key_id;
  signature_manifest = some m;
}

-- What signing an artifact does.
pub record IsSigned (codec : Codec) (crypto : Crypto) (c : Catalog) (id : Uuid) (b : Artifact)
    (d : Catalog) : Type 0 where
  pub before : Artifact
  pub found : find_artifact c id ≡ some before
  pub version : Version
  pub software : Software
  pub loaded : IsLoaded c before software version
  pub manifest : Manifest
  pub signature : Text
  pub key_id : Text
  pub key : SigningKey
  pub verified : IsVerified codec crypto c before version manifest signature key_id key
  pub after : b ≡ signed before manifest signature key_id
  pub saved : d ≡ save c b
  pub signed_by : IsSignedBy d software version b key

pub signed_by_of :
    (codec : Codec) (crypto : Crypto) (c : Catalog) (a : Artifact) (s : Software) (v : Version)
    (m : Manifest) (signature key_id : Text) (key : SigningKey)
    → HasKey (λ (p : Platform). p.id) c.platforms
    → HasKey (λ (r : Architecture). r.id) c.architectures
    → IsLoaded c a s v
    → IsVerified codec crypto c a v m signature key_id key
    → IsSignedBy (save c (signed a m signature key_id)) s v (signed a m signature key_id) key
unfolding save current_manifest
signed_by_of codec crypto c a s v m signature key_id key kp kr l f =
    let k = load-IsLinked c a s v l in
    record {
      listed = f.listed;
      dedicated = f.dedicated ∙ sym k.software_of;
      named = ap some (sym f.key_id_is);
      active = f.active;
      present = refl;
      current = ap some (build_manifest-eq-current c a s v m kp kr l f.built);
    }

finish :
    (codec : Codec) (crypto : Crypto) (c : Catalog) (id : Uuid) (a : Artifact) (v : Version)
    (m : Manifest) (signature key_id payload : Text) (key : SigningKey) (b : Artifact) (d : Catalog)
    → HasKey (λ (p : Platform). p.id) c.platforms
    → HasKey (λ (r : Architecture). r.id) c.architectures
    → find_artifact c id ≡ some a
    → (load c a).version ≡ some v
    → find_key c v.software_id key_id ≡ some key
    → build_manifest (load c a) ≡ ok m
    → payload ≡ codec.encode m
    → verify_signature crypto payload (some signature) key.public_key ≡ true
    → (b ≡ record a {
      signature = some signature;
      signature_key_id = some key_id;
      signature_manifest = codec.parse payload;
    })
      × (d
          ≡ save c (record a {
            signature = some signature;
            signature_key_id = some key_id;
            signature_manifest = codec.parse payload;
          }))
    → IsSigned codec crypto c id b d
finish codec crypto c id a v m signature key_id payload key b d kp kr ea ev ek em ep t (eb, ed) =
    let built = build_manifest-IsBuilt (load c a) m em in
    let loaded : IsLoaded c a built.software v = record {
      version = ev;
      software = built.found.1;
    } in
    let verified =
      assert_valid-IsVerified codec crypto c a v m signature key_id payload key ek em ep t in
    let parsed : codec.parse payload ≡ some m = rw ep (codec.parse-encode m) in
    let after : b ≡ signed a m signature key_id =
      eb
      ∙ ap
          (λ x. record a {
            signature = some signature;
            signature_key_id = some key_id;
            signature_manifest = x;
          })
          parsed in
    let saved : d ≡ save c b = rw eb ed in
    record {
      before = a;
      found = ea;
      version = v;
      software = built.software;
      loaded = loaded;
      manifest = m;
      signature = signature;
      key_id = key_id;
      key = key;
      verified = verified;
      after = after;
      saved = saved;
      signed_by =
          rw (saved, after)
            (signed_by_of codec crypto c a built.software v m signature key_id key kp kr loaded
              verified);
    }

-- Signing succeeds only with a signature that an active key of the artifact's own product verifies
-- over the manifest as it stands; it stores that signature, the key id and the manifest, and
-- changes nothing else. The public query then counts the artifact as signed. The ids of platforms
-- and architectures are taken to be primary keys.
pub set_signature-IsSigned :
    (codec : Codec) (crypto : Crypto) (c : Catalog) (id : Uuid)
    (key_id_input signature_input : Value) (b : Artifact) (d : Catalog)
    → HasKey (λ (p : Platform). p.id) c.platforms
    → HasKey (λ (r : Architecture). r.id) c.architectures
    → set_signature codec crypto c id key_id_input signature_input ≡ ok (b, d)
    → IsSigned codec crypto c id b d
unfolding set_signature
set_signature-IsSigned codec crypto c id key_id_input signature_input b d kp kr h =
    let key_id : Text = trimmed key_id_input in
    let signature : Text = trimmed signature_input in
    let (a, ea, h1) = or_fail-eq-ok (find_artifact c id) row_not_found _ h in
    let (t1, h2) = require-eq-ok (is_sha256 key_id) invalid_key_id _ h1 in
    let (v, ev, h3) = or_fail-eq-ok (load c a).version broken_relation _ h2 in
    let (key, ek, h4) = or_fail-eq-ok (find_key c v.software_id key_id) key_not_active _ h3 in
    let (payload, ep, h5) = >>=-eq-ok (lift (create_payload codec (load c a))) _ h4 in
    let (t2, h6) =
      require-eq-ok (verify_signature crypto payload (some signature) key.public_key)
        verification_failed _ h5 in
    let (m, em, epm) = payload_parts codec c a payload ep in
    finish codec crypto c id a v m signature key_id payload key b d kp kr ea ev ek em epm t2
      (pair-eq-ok h6)

abbrev pub is_live_id : Uuid → Artifact → Bool
is_live_id id a = a.id == id && is_none a.deleted_at

find-save :
    (rows : List Artifact) (id : Uuid) (a b : Artifact)
    → find (is_live_id id) rows ≡ some a
    → b.id ≡ id
    → b.deleted_at ≡ none
    → find (is_live_id id) (update (λ (r : Artifact). r.id == id) (λ r. b) rows) ≡ some b
find-save [] id a b h e l = cc
find-save (r ∷ rows) id a b h e l = elim (Bool-cases (r.id == id)) [
  | inl t ↦ rw (t, e, l) (ground arith)
  | inr f ↦ rw (f, f) (find-save rows id a b (ground arith) e l)
]

pub find_artifact-save :
    (c : Catalog) (id : Uuid) (a b : Artifact)
    → find_artifact c id ≡ some a
    → b.id ≡ id
    → b.deleted_at ≡ none
    → find_artifact (save c b) id ≡ some b
unfolding find_artifact save
find_artifact-save c id a b h e l = rw (← e) (find-save c.artifacts b.id a b (rw e h) refl l)
