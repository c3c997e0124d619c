-- ===== src/Artifacts/Public.antt =====
-- An artifact that was signed and then published is public.
use mathlib.Core.Path.{subst, subst₂, ap₂}
use reeva.Prelude.{
  ℕ, ◌≡◌, refl, sym, ap, ◌∙◌, true, false, ◌&&◌, none, some, Memᴰ, Text, find-some, ◌==◌, ==→eq,
  is_none, is_none→eq, ok, inr, and_left, and_right, arith,
}
use reeva.Model.{
  Uuid, Software, Version, Platform, Architecture, StorageProvider, SigningKey, Manifest, Artifact,
  Catalog,
}
use reeva.Input.{Value}
use reeva.Release.{current_manifest, is_public}
use reeva.Release.Eligible.{IsReleased, is_public_iff}
use reeva.Signature.{load, Codec, Crypto}
use reeva.Signature.Envelope.{HasKey, IsLoaded, build_manifest-IsBuilt}
use reeva.Artifacts.{find_artifact, save, publish, set_signature}
use reeva.Artifacts.Publish.{IsVerified, publish-IsPublished, find_artifact-some}
use reeva.Artifacts.Sign.{
  load-IsLinked, signed, signed_by_of, set_signature-IsSigned, find_artifact-save,
}

abbrev published : Artifact → ℕ → Artifact
published a now = record a { is_published = true; published_at = some now }

-- The object store of an artifact is there and active.
pub record HasStore (c : Catalog) (a : Artifact) : Type 0 where
  pub provider : StorageProvider
  pub listed : Memᴰ provider c.providers
  pub provider_of : provider.id ≡ a.storage_provider_id
  pub live : provider.deleted_at ≡ none
  pub active : provider.is_active ≡ true

module _ (codec : Codec) (crypto : Crypto) (c : Catalog) (a : Artifact) (s : Software) (v : Version)
    (m : Manifest) (signature key_id : Text) (key : SigningKey) (now : ℕ)
    (kp : HasKey (λ (p : Platform). p.id) c.platforms)
    (kr : HasKey (λ (r : Architecture). r.id) c.architectures) (l : IsLoaded c a s v)
    (f : IsVerified codec crypto c a v m signature key_id key) where
  abbrev after_signing : Catalog
  after_signing = save c (signed a m signature key_id)

  abbrev after_publishing : Catalog
  after_publishing = save after_signing (published (signed a m signature key_id) now)

  IsReleased-published :
      a.deleted_at ≡ none
      → a.is_archived ≡ false
      → v.is_active ≡ true
      → s.is_active ≡ true
      → HasStore c a
      → IsReleased after_publishing (some s.id) (published (signed a m signature key_id) now)
  unfolding save load current_manifest
  IsReleased-published live unarchived va sa store =
      let k = load-IsLinked c a s v l in
      let b = build_manifest-IsBuilt (load c a) m f.built in
      let (mp, tp) =
        find-some (λ (p : Platform). p.id == a.platform_id && is_none p.deleted_at) c.platforms
          b.found.2 in
      let (mr, tr) =
        find-some (λ (r : Architecture). r.id == a.architecture_id && is_none r.deleted_at)
          c.architectures b.found.3 in
      let by = signed_by_of codec crypto c a s v m signature key_id key kp kr l f in
      record {
        version = v;
        software = s;
        platform = b.platform;
        architecture = b.architecture;
        provider = store.provider;
        version_listed = k.version_listed;
        software_listed = k.software_listed;
        platform_listed = mp;
        architecture_listed = mr;
        provider_listed = store.listed;
        of_version = k.version_of;
        of_software = k.software_of;
        of_platform =
            ==→eq b.platform.id a.platform_id (and_left _ (is_none b.platform.deleted_at) tp);
        of_architecture =
            ==→eq b.architecture.id a.architecture_id
              (and_left _ (is_none b.architecture.deleted_at) tr);
        of_provider = store.provider_of;
        live = (
          live,
          k.version_live,
          is_none→eq _ (and_right (b.platform.id == a.platform_id) _ tp),
          is_none→eq _ (and_right (b.architecture.id == a.architecture_id) _ tr),
          store.live,
        );
        active = (va, sa, store.active);
        published = (refl, unarchived);
        product = ground arith;
        signed = inr (
          key,
          record {
            listed = by.listed;
            dedicated = by.dedicated;
            named = by.named;
            active = by.active;
            present = refl;
            current = by.current;
          },
        );
      }

some-eq : {A : Type 0} {a b : A} → some a ≡ some b → a ≡ b
some-eq h = cc

-- The artifact that is published after it was signed is the signed one.
same_artifact :
    (c : Catalog) (id : Uuid) (a b x : Artifact)
    → find_artifact c id ≡ some a
    → b.id ≡ id
    → b.deleted_at ≡ none
    → find_artifact (save c b) id ≡ some x
    → x ≡ b
same_artifact c id a b x h e l k = some-eq (sym k ∙ find_artifact-save c id a b h e l)

save-IsLoaded :
    (c : Catalog) (a : Artifact) (s : Software) (v : Version) (m : Manifest)
    (signature key_id : Text)
    → IsLoaded (save c (signed a m signature key_id)) (signed a m signature key_id) s v
    → IsLoaded c a s v
unfolding save load
save-IsLoaded c a s v m signature key_id l = record { version = l.version; software = l.software }

store_before :
    (c : Catalog) (a : Artifact) (m : Manifest) (signature key_id : Text)
    → HasStore (save c (signed a m signature key_id)) (signed a m signature key_id)
    → HasStore c a
unfolding save
store_before c a m signature key_id h = record {
  provider = h.provider;
  listed = h.listed;
  provider_of = h.provider_of;
  live = h.live;
  active = h.active;
}

-- After a successful signature and a successful publication of the same artifact, the public query
-- of its product selects it, if its version, its product and its object store are active. The ids
-- of platforms and architectures are taken to be primary keys.
pub publish-set_signature-is_public :
    (codec : Codec) (crypto : Crypto) (c d e : Catalog) (id : Uuid)
    (key_id_input signature_input : Value) (a b : Artifact) (now : ℕ) (s : Software) (v : Version)
    → HasKey (λ (p : Platform). p.id) c.platforms
    → HasKey (λ (r : Architecture). r.id) c.architectures
    → set_signature codec crypto c id key_id_input signature_input ≡ ok (a, d)
    → publish codec crypto d id now ≡ ok (b, e)
    → IsLoaded d a s v
    → v.is_active ≡ true
    → s.is_active ≡ true
    → HasStore d a
    → is_public e (some s.id) b ≡ true
publish-set_signature-is_public codec crypto c d e id key_id_input signature_input a b now s v kp kr
      h k l va sa store =
    let z = set_signature-IsSigned codec crypto c id key_id_input signature_input a d kp kr h in
    let p = publish-IsPublished codec crypto d id now b e k in
    let a0 = z.before in
    let a1 = signed a0 z.manifest z.signature z.key_id in
    let ed : d ≡ save c a1 = z.saved ∙ ap (save c) z.after in
    let (_, same_id, live0) = find_artifact-some c id a0 z.found in
    let eb : p.before ≡ a1 =
      same_artifact c id a0 a1 p.before z.found same_id live0
        (subst (λ x. find_artifact x id ≡ some p.before) ed p.found) in
    let b2 : b ≡ published a1 now = p.after ∙ ap (λ x. published x now) eb in
    let e2 : e ≡ save (save c a1) (published a1 now) = p.saved ∙ ap₂ save ed b2 in
    let l1 = subst₂ (λ x y. IsLoaded x y s v) ed z.after l in
    let l0 = save-IsLoaded c a0 s v z.manifest z.signature z.key_id l1 in
    let ev : z.version ≡ v = some-eq (sym z.loaded.version ∙ l0.version) in
    let f =
      subst (λ x. IsVerified codec crypto c a0 x z.manifest z.signature z.key_id z.key) ev
        z.verified in
    let store1 =
      store_before c a0 z.manifest z.signature z.key_id (subst₂ HasStore ed z.after store) in
    let archived : a0.is_archived ≡ false =
      subst (λ (x : Artifact). x.is_archived ≡ false) eb p.draft.1 in
    subst₂ (λ x y. is_public x (some s.id) y ≡ true) (sym e2) (sym b2)
      ((is_public_iff _ (some s.id) _).1 (
        IsReleased-published codec crypto c a0 s v z.manifest z.signature z.key_id z.key now kp kr
          l0 f live0 archived va sa store1))
