-- ===== src/Signature/Envelope.antt =====
-- The envelope that the API serves covers the metadata as they are.
use mathlib.Core.Option
use reeva.Prelude.{
  and_left, ℕ, ◌≡◌, sym, ap, ◌∙◌, true, false, ◌&&◌, Option, none, some, List, Memᴰ, Text, arith,
  truthy, find, find-some, find-none, is_none, ◌==◌, ==→eq, ok, >>=-eq-ok, or_fail-eq-ok,
  ok-injective, Bool-cases, Option-cases, inl, inr, All-mem,
}
use reeva.Model.{Uuid, Software, Version, Platform, Architecture, Manifest, Artifact, Catalog}
use reeva.Release.{current_manifest, version_text}
use reeva.Release.Eligible.{same_manifest_iff}
use reeva.Signature.{
  incomplete_metadata, invalid_size, invalid_checksum, is_sha256, safe_size, valid_checksum, Loaded,
  load, build_manifest, Codec, SignatureEnvelope, snapshot_matches, envelope_of, create_envelope,
}

-- What an envelope stands for.
pub record IsCurrent (codec : Codec) (l : Loaded) (e : SignatureEnvelope) : Type 0 where
  pub manifest : Manifest
  pub built : build_manifest l ≡ ok manifest
  pub snapshot : l.artifact.signature_manifest ≡ some manifest
  pub payload : codec.parse e.payload ≡ some manifest
  pub signature : l.artifact.signature ≡ some e.signature
  pub key_id : l.artifact.signature_key_id ≡ some e.key_id

snapshot→eq : (o : Option Manifest) (m : Manifest) → snapshot_matches o m ≡ true → o ≡ some m
snapshot→eq none m h = cc
snapshot→eq (some s) m h = ap some (sym ((same_manifest_iff m s).0 h))

envelope_of-some :
    (codec : Codec) (o : Option Manifest) (s k : Option Text) (m : Manifest) (e : SignatureEnvelope)
    → envelope_of codec o s k m ≡ some e
    → (o ≡ some m) × (codec.encode m ≡ e.payload) × (s ≡ some e.signature) × (k ≡ some e.key_id)
unfolding envelope_of
envelope_of-some codec o (some s) (some k) m e h = elim (Bool-cases (snapshot_matches o m)) [
  | inl t ↦ (snapshot→eq o m t, ground arith, ground arith, ground arith)
  | inr f ↦ ground arith
]
envelope_of-some codec o _ _ m e h = cc

-- The envelope that `createOtaSignatureEnvelope` serves holds the stored signature and key id, and
-- a payload that decodes to the manifest of the artifact as it is now, which is also the manifest
-- that was stored when the signature was verified.
pub create_envelope-IsCurrent :
    (codec : Codec) (l : Loaded) (e : SignatureEnvelope)
    → create_envelope codec l ≡ ok (some e)
    → IsCurrent codec l e
unfolding create_envelope
create_envelope-IsCurrent codec l e h =
    elim (Bool-cases (truthy l.artifact.signature && truthy l.artifact.signature_key_id)) [
      | inl t ↦
          let (m, built, h1) = >>=-eq-ok (build_manifest l) _ (rw (t, create_envelope) at h) in
          let (snap, pay, sig, key) =
            envelope_of-some codec l.artifact.signature_manifest l.artifact.signature
              l.artifact.signature_key_id m e (ok-injective h1) in
          record {
            manifest = m;
            built = built;
            snapshot = snap;
            payload = rw (← pay) (codec.parse-encode m);
            signature = sig;
            key_id = key;
          }
      | inr f ↦ absurd (no_envelope f)
    ]
  where
    no_envelope : (truthy l.artifact.signature && truthy l.artifact.signature_key_id) ≡ false → ⊥
    no_envelope f = cc (rw (f, create_envelope) at h)

-- The primary key of a table.
abbrev pub HasKey {ℓ} : {R : Type ℓ} → (R → Uuid) → List R → Type ℓ
HasKey id rows = (x y : _) → Memᴰ x rows → Memᴰ y rows → id x ≡ id y → x ≡ y

module _ {R : Type 0} (id : R → Uuid) (deleted : R → Option ℕ) where
  -- With a primary key, the row that a preload finds is the row with that id.
  find-live :
      (rows : List R) (i : Uuid) (x : R)
      → HasKey id rows
      → find (λ r. id r == i && is_none (deleted r)) rows ≡ some x
      → find (λ r. id r == i) rows ≡ some x
  find-live rows i x key h = elim (Option-cases (find (λ r. id r == i) rows)) [
    | inl none_found ↦
        let (m, t) = find-some (λ r. id r == i && is_none (deleted r)) rows h in
        absurd (
          cc (
            All-mem (λ r. (id r == i) ≡ false) rows (find-none (λ r. id r == i) rows none_found) m,
            and_left (id x == i) (is_none (deleted x)) t,
          ))
    | inr (y, found) ↦
        let (m, t) = find-some (λ r. id r == i && is_none (deleted r)) rows h in
        let (n, u) = find-some (λ r. id r == i) rows found in
        found
        ∙ ap some (
            key y x n m (
              ==→eq (id y) i u
              ∙ sym (==→eq (id x) i (and_left (id x == i) (is_none (deleted x)) t))))
  ]

safe_size→eq : (o : Option ℕ) (n : ℕ) → safe_size o ≡ some n → o ≡ some n
safe_size→eq none n h = cc
safe_size→eq (some m) n h = ground arith

valid_checksum→eq : (o : Option Text) (s : Text) → valid_checksum o ≡ some s → o ≡ some s
valid_checksum→eq none s h = cc
valid_checksum→eq (some t) s h = elim (Bool-cases (is_sha256 t)) [
  | inl k ↦ rw (k, valid_checksum) at h
  | inr k ↦ cc (rw (k, valid_checksum) at h)
]

-- The manifest of given rows.
abbrev pub manifest_of :
    Software → Version → Platform → Architecture → Artifact → Option ℕ → Option Text → Manifest
manifest_of s v p r a size sha256 = record {
  schema_version = 1;
  software = s.slug;
  version = version_text v.major v.minor v.patch;
  codename = v.codename;
  changelog = v.changelog;
  channel = a.channel;
  platform = some p.name;
  architecture = some r.name;
  file_name = a.file_name;
  size_bytes = size;
  sha256 = sha256;
}

-- The rows that a built manifest was made of, and the manifest.
pub record IsBuilt (l : Loaded) (m : Manifest) : Type 0 where
  pub version : Version
  pub software : Software
  pub platform : Platform
  pub architecture : Architecture
  pub found :
      (l.version ≡ some version)
      × (l.software ≡ some software)
      × (l.platform ≡ some platform)
      × (l.architecture ≡ some architecture)
  pub fields :
      m
      ≡ manifest_of software version platform architecture l.artifact l.artifact.size_bytes
          l.artifact.checksum_sha256

fields_of :
    (s : Software) (v : Version) (p : Platform) (r : Architecture) (a : Artifact) (n : ℕ) (x : Text)
    (m : Manifest)
    → safe_size a.size_bytes ≡ some n
    → valid_checksum a.checksum_sha256 ≡ some x
    → manifest_of s v p r a (some n) (some x) ≡ m
    → m ≡ manifest_of s v p r a a.size_bytes a.checksum_sha256
fields_of s v p r a n x m en ex h =
    cc (safe_size→eq a.size_bytes n en, valid_checksum→eq a.checksum_sha256 x ex)

pub build_manifest-IsBuilt : (l : Loaded) (m : Manifest) → build_manifest l ≡ ok m → IsBuilt l m
unfolding build_manifest
build_manifest-IsBuilt l m h =
    let (v, ev, h1) = or_fail-eq-ok l.version incomplete_metadata _ h in
    let (s, es, h2) = or_fail-eq-ok l.software incomplete_metadata _ h1 in
    let (p, ep, h3) = or_fail-eq-ok l.platform incomplete_metadata _ h2 in
    let (r, er, h4) = or_fail-eq-ok l.architecture incomplete_metadata _ h3 in
    let (n, en, h5) = or_fail-eq-ok (safe_size l.artifact.size_bytes) invalid_size _ h4 in
    let (x, ex, h6) =
      or_fail-eq-ok (valid_checksum l.artifact.checksum_sha256) invalid_checksum _ h5 in
    record {
      version = v;
      software = s;
      platform = p;
      architecture = r;
      found = (ev, es, ep, er);
      fields = fields_of s v p r l.artifact n x m en ex (ok-injective h6);
    }

current_of :
    (c : Catalog) (s : Software) (v : Version) (a : Artifact) (p : Platform) (r : Architecture)
    → find (λ (q : Platform). q.id == a.platform_id) c.platforms ≡ some p
    → find (λ (q : Architecture). q.id == a.architecture_id) c.architectures ≡ some r
    → current_manifest c s v a ≡ manifest_of s v p r a a.size_bytes a.checksum_sha256
unfolding current_manifest Option.map
current_of c s v a p r ep er = rw (ep, er)

-- The version and the product that `load` finds.
pub record IsLoaded (c : Catalog) (a : Artifact) (s : Software) (v : Version) : Type 0 where
  pub version : (load c a).version ≡ some v
  pub software : (load c a).software ≡ some s

-- The manifest that is built of an artifact's live relations is the one that the public query
-- computes of the stored rows, if ids are primary keys of platforms and architectures.
pub build_manifest-eq-current :
    (c : Catalog) (a : Artifact) (s : Software) (v : Version) (m : Manifest)
    → HasKey (λ (p : Platform). p.id) c.platforms
    → HasKey (λ (r : Architecture). r.id) c.architectures
    → IsLoaded c a s v
    → build_manifest (load c a) ≡ ok m
    → m ≡ current_manifest c s v a
build_manifest-eq-current c a s v m kp kr l h =
    let b = build_manifest-IsBuilt (load c a) m h in
    let ep =
      find-live (λ (p : Platform). p.id) (λ p. p.deleted_at) c.platforms a.platform_id b.platform kp
        (unfold load in b.found.2) in
    let er =
      find-live (λ (r : Architecture). r.id) (λ r. r.deleted_at) c.architectures a.architecture_id
        b.architecture kr (unfold load in b.found.3) in
    let f : m
        ≡ manifest_of b.software b.version b.platform b.architecture a a.size_bytes
            a.checksum_sha256 =
      unfold load in b.fields in
    let es : b.software ≡ s = cc (b.found.1, l.software) in
    let ev : b.version ≡ v = cc (b.found.0, l.version) in
    f
    ∙ ap (λ x. manifest_of x b.version b.platform b.architecture a a.size_bytes a.checksum_sha256)
        es
    ∙ ap (λ x. manifest_of s x b.platform b.architecture a a.size_bytes a.checksum_sha256) ev
    ∙ sym (current_of c s v a b.platform b.architecture ep er)
