-- ===== src/Release/Eligible.antt =====
-- What it means that an artifact is public, without the query: the theorem that the query of
-- `publicQuery` decides exactly that.
use reeva.Prelude.{
  is_none→eq, ℕ, ◌≡◌, ◌⊎◌, inl, inr, refl, sym, ap, ◌↔◌, true, false, not, ◌&&◌, ◌||◌, Option, none,
  some, Memᴰ, arith, same_option→eq, same_option_refl, same→eq, same_refl, is_none, is_some, exists,
  ◌==◌, mem_of_exists, exists_of_mem, Bool-cases,
}
use reeva.Model.{
  Uuid, Software, SigningKey, Version, Platform, Architecture, StorageProvider, Manifest, Artifact,
  Catalog,
}
use reeva.Release.{
  current_manifest, same_number, same_manifest, matches, is_signed, chosen, is_eligible, is_public,
}

same_number→eq : (m n : Option ℕ) → same_number m n ≡ true → m ≡ n
same_number→eq none none h = refl
same_number→eq none (some n) h = cc
same_number→eq (some m) none h = cc
same_number→eq (some m) (some n) h = ground arith

same_number_refl : (m : Option ℕ) → same_number m m ≡ true
same_number_refl none = refl
same_number_refl (some m) = ground arith

same_manifest→eq : (m n : Manifest) → same_manifest m n ≡ true → m ≡ n
unfolding same_manifest
same_manifest→eq m n h = ground (
  arith,
  same→eq m.software n.software,
  same→eq m.version n.version,
  same_option→eq m.codename n.codename,
  same_option→eq m.changelog n.changelog,
  same→eq m.channel n.channel,
  same_option→eq m.platform n.platform,
  same_option→eq m.architecture n.architecture,
  same→eq m.file_name n.file_name,
  same_number→eq m.size_bytes n.size_bytes,
  same_option→eq m.sha256 n.sha256,
)

same_manifest_refl : (m : Manifest) → same_manifest m m ≡ true
unfolding same_manifest
same_manifest_refl m = ground (
  arith,
  same_refl m.software,
  same_refl m.version,
  same_option_refl m.codename,
  same_option_refl m.changelog,
  same_refl m.channel,
  same_option_refl m.platform,
  same_option_refl m.architecture,
  same_refl m.file_name,
  same_number_refl m.size_bytes,
  same_option_refl m.sha256,
)

pub same_manifest_iff : (m n : Manifest) → (same_manifest m n ≡ true) ↔ (m ≡ n)
same_manifest_iff m n = (same_manifest→eq m n, λ e. rw e (same_manifest_refl n))

-- A signature of the product's own active key over the metadata as they are now.
pub record IsSignedBy (c : Catalog) (s : Software) (v : Version) (a : Artifact) (k : SigningKey)
    : Type 0 where
  pub listed : Memᴰ k c.keys
  pub dedicated : k.software_id ≡ s.id
  pub named : a.signature_key_id ≡ some k.key_id
  pub active : k.is_active ≡ true
  pub present : is_some a.signature ≡ true
  pub current : a.signature_manifest ≡ some (current_manifest c s v a)

matches→eq : (o : Option Manifest) (m : Manifest) → matches o m ≡ true → o ≡ some m
matches→eq none m h = cc
matches→eq (some n) m h = ap some (same_manifest→eq n m h)

module _ (c : Catalog) (s : Software) (v : Version) (a : Artifact) where
  is_signed_sound : is_signed c s v a ≡ true → (k : SigningKey) × IsSignedBy c s v a k
  unfolding is_signed
  is_signed_sound h =
      let (k, m, t) = mem_of_exists _ c.keys h in
      (
        k,
        record {
          listed = m;
          dedicated = ground arith;
          named = sym (same_option→eq (some k.key_id) a.signature_key_id (ground arith));
          active = ground arith;
          present = ground arith;
          current = matches→eq a.signature_manifest (current_manifest c s v a) (ground arith);
        },
      )

  is_signed_complete : (k : SigningKey) → IsSignedBy c s v a k → is_signed c s v a ≡ true
  unfolding is_signed
  is_signed_complete k h = exists_of_mem _ c.keys h.listed (
      rw (h.dedicated, h.named, h.active, h.present, h.current)
        (ground
          (arith, same_option_refl (some k.key_id), same_manifest_refl (current_manifest c s v a))))

-- Public: published, not archived, not deleted, on live rows of every kind; and signed wherever
-- the product requires it. `software_id` restricts it to one product.
pub record IsReleased (c : Catalog) (software_id : Option Uuid) (a : Artifact) : Type 0 where
  pub version : Version
  pub software : Software
  pub platform : Platform
  pub architecture : Architecture
  pub provider : StorageProvider
  pub version_listed : Memᴰ version c.versions
  pub software_listed : Memᴰ software c.software
  pub platform_listed : Memᴰ platform c.platforms
  pub architecture_listed : Memᴰ architecture c.architectures
  pub provider_listed : Memᴰ provider c.providers
  pub of_version : version.id ≡ a.version_id
  pub of_software : software.id ≡ version.software_id
  pub of_platform : platform.id ≡ a.platform_id
  pub of_architecture : architecture.id ≡ a.architecture_id
  pub of_provider : provider.id ≡ a.storage_provider_id
  pub live :
      (a.deleted_at ≡ none)
      × (version.deleted_at ≡ none)
      × (platform.deleted_at ≡ none)
      × (architecture.deleted_at ≡ none)
      × (provider.deleted_at ≡ none)
  pub active :
      (version.is_active ≡ true) × (software.is_active ≡ true) × (provider.is_active ≡ true)
  pub published : (a.is_published ≡ true) × (a.is_archived ≡ false)
  pub product : chosen software_id software.id ≡ true
  pub signed :
      (software.require_signed_updates ≡ false)
      ⊎ ((k : SigningKey) × IsSignedBy c software version a k)

module _ (c : Catalog) (w : Option Uuid) (a : Artifact) where
  policy :
      (s : Software) (v : Version)
      → (not s.require_signed_updates || is_signed c s v a) ≡ true
      → (s.require_signed_updates ≡ false) ⊎ ((k : SigningKey) × IsSignedBy c s v a k)
  policy s v h = elim (Bool-cases s.require_signed_updates) [
    | inl t ↦ inr (is_signed_sound c s v a (ground arith))
    | inr f ↦ inl f
  ]

  is_public_sound : is_public c w a ≡ true → IsReleased c w a
  unfolding is_public
  is_public_sound h =
      let (v, mv, hv) =
        mem_of_exists (λ v. exists (is_eligible c w a v) c.software) c.versions (ground arith) in
      let (s, ms, hs) = mem_of_exists (is_eligible c w a v) c.software hv in
      let (p, mp, hp) =
        mem_of_exists (λ (p : Platform). p.id == a.platform_id && is_none p.deleted_at) c.platforms
          (ground arith) in
      let (r, mr, hr) =
        mem_of_exists (λ (r : Architecture). r.id == a.architecture_id && is_none r.deleted_at)
          c.architectures (ground arith) in
      let (q, mq, hq) =
        mem_of_exists
          (λ (p : StorageProvider).
            p.id == a.storage_provider_id && is_none p.deleted_at && p.is_active)
          c.providers (ground arith) in
      record {
        version = v;
        software = s;
        platform = p;
        architecture = r;
        provider = q;
        version_listed = mv;
        software_listed = ms;
        platform_listed = mp;
        architecture_listed = mr;
        provider_listed = mq;
        of_version = ground arith;
        of_software = ground arith;
        of_platform = ground arith;
        of_architecture = ground arith;
        of_provider = ground arith;
        live = (
          is_none→eq _ (ground arith),
          is_none→eq _ (ground arith),
          is_none→eq _ (ground arith),
          is_none→eq _ (ground arith),
          is_none→eq _ (ground arith),
        );
        active = (ground arith, ground arith, ground arith);
        published = (ground arith, ground arith);
        product = ground arith;
        signed = policy s v (ground arith);
      }

  policy_complete :
      (s : Software) (v : Version)
      → ((s.require_signed_updates ≡ false) ⊎ ((k : SigningKey) × IsSignedBy c s v a k))
      → (not s.require_signed_updates || is_signed c s v a) ≡ true
  policy_complete s v (inl f) = rw f
  policy_complete s v (inr (k, h)) = ground (arith, is_signed_complete c s v a k h)

  is_public_complete : IsReleased c w a → is_public c w a ≡ true
  unfolding is_public
  is_public_complete h =
      let e : is_eligible c w a h.version h.software ≡ true =
        ground (arith, policy_complete h.software h.version h.signed) in
      let ev =
        exists_of_mem (λ v. exists (is_eligible c w a v) c.software) c.versions h.version_listed
          (exists_of_mem (is_eligible c w a h.version) c.software h.software_listed e) in
      let ep =
        exists_of_mem (λ (p : Platform). p.id == a.platform_id && is_none p.deleted_at) c.platforms
          h.platform_listed (ground arith) in
      let er =
        exists_of_mem (λ (r : Architecture). r.id == a.architecture_id && is_none r.deleted_at)
          c.architectures h.architecture_listed (ground arith) in
      let eq =
        exists_of_mem
          (λ (p : StorageProvider).
            p.id == a.storage_provider_id && is_none p.deleted_at && p.is_active)
          c.providers h.provider_listed (ground arith) in
      rw (ev, ep, er, eq) (ground arith)

-- The query of `publicQuery` selects an artifact exactly if it is released: published, not
-- archived, on live and active rows throughout, of the chosen product if one is chosen, and, where
-- the product requires signatures, signed by an active key of the product over its metadata as
-- they are now.
pub is_public_iff :
    (c : Catalog) (w : Option Uuid) (a : Artifact) → (is_public c w a ≡ true) ↔ IsReleased c w a
is_public_iff c w a = (is_public_sound c w a, is_public_complete c w a)
