-- ===== src/Products/Required.antt =====
-- `setRequireSignedUpdates` of app/services/software_service.ts, and what it checks before it turns
-- the requirement on.
use mathlib.Core.List.{reverse, reverse_aux}
use reeva.Prelude.{
  inl, inr, ◌⊎◌, refl, ◌≡◌, Bool, true, false, not, ◌&&◌, ◌||◌, Option, none, some, List, [], ◌∷◌,
  Text, lit, same, truthy, is_none, ◌==◌, if◌then◌else◌, length, find, find-some, ==→eq, ==_refl,
  same→eq, sym, ap, select, mem-select, mem-select_intro, exists_of_mem, Memᴰ, All, All-mem,
  and_left, and_right, Result, ok, err, or_fail, require, ◌>>=◌, ◌>>◌, >>=-eq-ok, or_fail-eq-ok,
  require-eq-ok, require_ok,
}
use reeva.Model.{Uuid, Software, SigningKey, Version, Artifact, Catalog}
use reeva.Input.{Value, bool, text}
use reeva.Signature.{Codec, Crypto, load, create_payload, verify_signature}
use reeva.Products.{
  Error, not_found, no_active_key, unsigned_release, incomplete_release, find_software, save, is_of,
  active_keys,
}

-- `input === true || input === 'on' || input === 'true' || input === '1'`
abbrev pub is_required : Value → Bool
is_required (bool b) = b
is_required (text s) = same s (lit "on") || same s (lit "true") || same s (lit "1")
is_required _ = false

abbrev pub complete {ℓ} : {E A : Type ℓ} → Result E A → Option A
complete (err e) = none
complete (ok a) = some a

-- `keysById.get(keyId)`: in a `Map` the last row of an id counts
unfoldable pub key_by_id : List SigningKey → Option Text → Option SigningKey
key_by_id keys none = none
key_by_id keys (some []) = none
key_by_id keys (some (u ∷ s)) = find (λ (k : SigningKey). same k.key_id (u ∷ s)) (reverse keys)

-- The check of one release; its payload is made first, which may throw
unfoldable pub check_release :
    Codec → Crypto → Catalog → List SigningKey → Artifact → Result Error Unit
check_release codec crypto c keys a = do
  payload ← or_fail (complete (create_payload codec (load c a))) incomplete_release
  require (truthy a.signature) unsigned_release
  key ← or_fail (key_by_id keys a.signature_key_id) unsigned_release
  require (verify_signature crypto payload a.signature key.public_key) unsigned_release

-- The loop over the releases
unfoldable pub check_releases :
    Codec → Crypto → Catalog → List SigningKey → List Artifact → Result Error Unit
check_releases codec crypto c keys [] = ok tt
check_releases codec crypto c keys (a ∷ rest) =
    check_release codec crypto c keys a >>= λ u. check_releases codec crypto c keys rest

-- The published releases of the product's active versions
unfoldable pub releases_of : Catalog → Uuid → List Artifact
releases_of c software =
    select
      (λ (a : Artifact).
        a.is_published && not a.is_archived && is_none a.deleted_at && is_of c software true a)
      c.artifacts

-- The checks of a product that is to require signatures
unfoldable pub check_required : Codec → Crypto → Catalog → Uuid → Result Error Unit
check_required codec crypto c software = do
  require (not (length (active_keys c software) == 0)) no_active_key
  check_releases codec crypto c (active_keys c software) (releases_of c software)

-- `setRequireSignedUpdates`
unfoldable pub set_require_signed_updates :
    Codec → Crypto → Catalog → Uuid → Value → Result Error (List Software)
set_require_signed_updates codec crypto c software_id input = do
  s ← or_fail (find_software c.software software_id) not_found
  if is_required input then check_required codec crypto c s.id else ok tt
  ok (save (record s { require_signed_updates = is_required input }) c.software)

-- A release that must be signed: published, not archived and not deleted, of an active version
pub record IsRelease (c : Catalog) (software : Uuid) (a : Artifact) : Type 0 where
  pub listed : Memᴰ a c.artifacts
  pub published : a.is_published ≡ true
  pub unarchived : a.is_archived ≡ false
  pub live : a.deleted_at ≡ none
  pub version : Version
  pub version_listed : Memᴰ version c.versions
  pub version_of : (version.id ≡ a.version_id) × (version.software_id ≡ software)
  pub version_active : version.is_active ≡ true

-- A release that an active key of the product, the one it names, verifies as it stands
pub record IsVerified (codec : Codec) (crypto : Crypto) (c : Catalog) (software : Uuid)
    (a : Artifact) : Type 0 where
  pub payload : Text
  pub key : SigningKey
  pub made : create_payload codec (load c a) ≡ ok payload
  pub key_listed : Memᴰ key c.keys
  pub key_of : key.software_id ≡ software
  pub key_active : key.is_active ≡ true
  pub named : a.signature_key_id ≡ some key.key_id
  pub verified : verify_signature crypto payload a.signature key.public_key ≡ true

IsRelease-mem :
    (c : Catalog) (software : Uuid) (a : Artifact)
    → IsRelease c software a
    → Memᴰ a (releases_of c software)
unfolding releases_of is_of
IsRelease-mem c software a r =
    let versions =
      exists_of_mem
        (λ (v : Version).
          v.id == a.version_id && v.software_id == software && (not true || v.is_active))
        c.versions r.version_listed
        (rw
          (r.version_of.0, r.version_of.1, r.version_active, ==_refl a.version_id, ==_refl software)
          refl) in
    mem-select_intro _ c.artifacts r.listed (rw (r.published, r.unarchived, r.live) versions)

mem_of_reverse_aux :
    {A : Type 0} (xs ys : List A) {a : A} → Memᴰ a (reverse_aux xs ys) → Memᴰ a xs ⊎ Memᴰ a ys
unfolding reverse_aux
mem_of_reverse_aux [] ys m = inr m
mem_of_reverse_aux (x ∷ xs) ys m = elim (mem_of_reverse_aux xs (x ∷ ys) m) [
  | inl n ↦ inl (Memᴰ.tail n)
  | inr n ↦ elim n [ Memᴰ.head e ↦ inl (Memᴰ.head e) | Memᴰ.tail o ↦ inr o ]
]

mem_of_reverse : {A : Type 0} (xs : List A) {a : A} → Memᴰ a (reverse xs) → Memᴰ a xs
unfolding reverse
mem_of_reverse xs m = elim (mem_of_reverse_aux xs [] m) [ inl n ↦ n | inr n ↦ elim n [ ] ]

-- A key that is found is one of the list, with the id the release names.
key_by_id-mem :
    (keys : List SigningKey) (id : Option Text) (k : SigningKey)
    → key_by_id keys id ≡ some k
    → Memᴰ k keys × (id ≡ some k.key_id)
unfolding key_by_id
key_by_id-mem keys none k e = absurd (cc e)
key_by_id-mem keys (some []) k e = absurd (cc e)
key_by_id-mem keys (some (u ∷ s)) k e =
    let (m, t) = find-some (λ (k : SigningKey). same k.key_id (u ∷ s)) (reverse keys) e in
    (mem_of_reverse keys m, ap some (sym (same→eq k.key_id (u ∷ s) t)))

complete-eq-ok : {E A : Type 0} (r : Result E A) (a : A) → complete r ≡ some a → r ≡ ok a
complete-eq-ok (err e) a h = absurd (cc h)
complete-eq-ok (ok x) a h = ap ok (cc h)

check_release-IsVerified :
    (codec : Codec) (crypto : Crypto) (c : Catalog) (software : Uuid) (a : Artifact)
    → check_release codec crypto c (active_keys c software) a ≡ ok tt
    → IsVerified codec crypto c software a
unfolding check_release active_keys
check_release-IsVerified codec crypto c software a h =
    let keys = select (λ (k : SigningKey). k.software_id == software && k.is_active) c.keys in
    let (p, e1, h1) =
      or_fail-eq-ok (complete (create_payload codec (load c a))) incomplete_release _ h in
    let (t, h2) = require-eq-ok (truthy a.signature) unsigned_release _ h1 in
    let (k, e2, h3) = or_fail-eq-ok (key_by_id keys a.signature_key_id) unsigned_release _ h2 in
    let (m, n) = key_by_id-mem keys a.signature_key_id k e2 in
    let (l, b) =
      mem-select (λ (k : SigningKey). k.software_id == software && k.is_active) c.keys m in
    record {
      payload = p;
      key = k;
      made = complete-eq-ok (create_payload codec (load c a)) p e1;
      key_listed = l;
      key_of = ==→eq k.software_id software (and_left (k.software_id == software) k.is_active b);
      key_active = and_right (k.software_id == software) k.is_active b;
      named = n;
      verified = require_ok _ unsigned_release h3;
    }

check_releases-All :
    (codec : Codec) (crypto : Crypto) (c : Catalog) (software : Uuid) (rows : List Artifact)
    → check_releases codec crypto c (active_keys c software) rows ≡ ok tt
    → All (IsVerified codec crypto c software) rows
unfolding check_releases
check_releases-All codec crypto c software [] h = tt
check_releases-All codec crypto c software (a ∷ rows) h =
    let (u, e, h1) = >>=-eq-ok (check_release codec crypto c (active_keys c software) a) _ h in
    (
      check_release-IsVerified codec crypto c software a e,
      check_releases-All codec crypto c software rows h1,
    )

software-id :
    (c : Catalog) (id : Uuid) (s : Software) → find_software c.software id ≡ some s → s.id ≡ id
unfolding find_software
software-id c id s e = ==→eq s.id id (find-some (λ (s : Software). s.id == id) c.software e).1

checked :
    (codec : Codec) (crypto : Crypto) (c : Catalog) (software i : Uuid) (input : Value)
    → is_required input ≡ true
    → i ≡ software
    → (if is_required input then check_required codec crypto c i else ok tt) ≡ ok tt
    → All (IsVerified codec crypto c software) (releases_of c software)
unfolding check_required
checked codec crypto c software i input t e h =
    let (g, h1) =
      require-eq-ok (not (length (active_keys c software) == 0)) no_active_key _ (rw (t, e) at h) in
    check_releases-All codec crypto c software (releases_of c software) h1

-- The requirement of signed updates is turned on only if every release of the product that is
-- published, neither archived nor deleted and of an active version names an active key of the
-- product, and carries a signature that this key verifies over the release as it stands.
pub set_require_signed_updates-All :
    (codec : Codec) (crypto : Crypto) (c : Catalog) (software : Uuid) (input : Value)
    (rows : List Software) (a : Artifact)
    → is_required input ≡ true
    → set_require_signed_updates codec crypto c software input ≡ ok rows
    → IsRelease c software a
    → IsVerified codec crypto c software a
unfolding set_require_signed_updates
set_require_signed_updates-All codec crypto c software input rows a t h r =
    let (s, e, h1) = or_fail-eq-ok (find_software c.software software) not_found _ h in
    let (u, e2, h2) =
      >>=-eq-ok (if is_required input then check_required codec crypto c s.id else ok tt) _ h1 in
    All-mem _ (releases_of c software)
      (checked codec crypto c software s.id input t (software-id c software s e) e2)
      (IsRelease-mem c software a r)
