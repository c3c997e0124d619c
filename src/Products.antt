-- ===== src/Products.antt =====
-- app/services/software_service.ts: the products, their default and their signing keys. The
-- transactions take a lock, so each operation is one step.
pub mod Default
pub mod Steps
pub mod Required
pub mod Revoked
pub mod Slug
pub mod SlugText
pub mod Fresh
mod Tests
use reeva.Prelude.{
  ℕ, ◌≤◌, ◌≡◌, Bool, true, false, not, ◌&&◌, ◌||◌, Option, none, some, List, [], ◌∷◌, Text, lit,
  same, is_none, is_some, is_empty, every, leb, ltb, ◌==◌, if◌then◌else◌, find, select, exists,
  update, length, trim, truthy, Result, ok, err, or_fail, require, ◌>>=◌, ◌>>◌,
}
use reeva.Model.{Uuid, Software, SigningKey, Version, Artifact, Catalog}
use reeva.Input.{Value, bool, text}
use reeva.Signature.{is_sha256, Codec, Crypto, Loaded, load, create_payload, verify_signature}

pub data Error : Type 0 where
  not_found default_deactivated invalid_name inactive invalid_key key_of_other_product key_revoked
        key_registered :
      Error
  invalid_key_id key_not_found last_key key_in_use no_active_key unsigned_release incomplete_release
        out_of_fuel :
      Error

unfoldable pub find_software : List Software → Uuid → Option Software
find_software rows id = find (λ (s : Software). s.id == id) rows

-- `where('id', …).update(…)`, `software.save()`
unfoldable pub save : Software → List Software → List Software
save s rows = update (λ (t : Software). t.id == s.id) (λ t. s) rows

-- `toggleActive`
unfoldable pub toggle_active : List Software → Uuid → Result Error (List Software)
toggle_active rows id = do
  s ← or_fail (find_software rows id) not_found
  require (not (s.is_default && s.is_active)) default_deactivated
  ok (
      update (λ (t : Software). t.id == id)
        (λ (t : Software). record t { is_active = not s.is_active }) rows)

-- `setDefault`: one update clears the flag everywhere, a second sets it
unfoldable pub set_default : List Software → Uuid → Result Error (List Software)
set_default rows id = do
  target ← or_fail (find (λ (s : Software). s.is_active && s.id == id) rows) inactive
  ok (
      update (λ (t : Software). t.id == id) (λ (t : Software). record t { is_default = true })
        (update (λ t. true) (λ (t : Software). record t { is_default = false }) rows))

abbrev pub name_of : Value → Text
name_of (text s) = trim s
name_of _ = []

-- `updateName`
unfoldable pub update_name : List Software → Uuid → Value → Result Error (List Software)
update_name rows id input = do
  require (not (is_empty (name_of input) || ltb 120 (length (name_of input)))) invalid_name
  s ← or_fail (find_software rows id) not_found
  ok (save (record s { name = name_of input }) rows)

-- What `validateOtaPublicKey` makes of a text: the key id and the key in PEM, or an exception
pub record KeyReader : Type 0 where
  pub validate : Text → Option (Text × Text)

-- The three errors for a key that is registered
abbrev pub known_key : SigningKey → Uuid → Error
known_key k software =
    if not (k.software_id == software)
    then key_of_other_product
    else if not k.is_active
    then key_revoked
    else key_registered

-- `addSigningKey`, over a fresh row id
unfoldable pub add_signing_key : KeyReader → Catalog → Uuid → Value → Uuid → Result Error Catalog
add_signing_key reader c software_id input fresh = do
  s ← or_fail (find_software c.software software_id) not_found
  key ← or_fail (reader.validate (name_of input)) invalid_key
  elim (find (λ (k : SigningKey). same k.key_id key.0) c.keys) [
    | none ↦ ok tt
    | some k ↦ err (known_key k s.id)
  ]
  let created : SigningKey = record {
    id = fresh;
    software_id = s.id;
    key_id = key.0;
    public_key = key.1;
    is_active = true;
  }
  ok (record c { keys = created ∷ c.keys })

-- `whereHas('version', …)`; the hooks of soft deletes do not reach into it
unfoldable pub is_of : Catalog → Uuid → Bool → Artifact → Bool
is_of c software only_active a =
    exists
      (λ (v : Version).
        v.id == a.version_id && v.software_id == software && (not only_active || v.is_active))
      c.versions

unfoldable pub active_keys : Catalog → Uuid → List SigningKey
active_keys c software =
    select (λ (k : SigningKey). k.software_id == software && k.is_active) c.keys

-- The releases that must not depend on the revoked key
unfoldable pub uses_key : Catalog → Uuid → Text → Artifact → Bool
uses_key c software key_id a =
    elim a.signature_key_id [ none ↦ false | some k ↦ same k key_id ]
    && a.is_published
    && not a.is_archived
    && is_none a.deleted_at
    && is_of c software true a

-- The checks of a product that requires signatures
unfoldable pub replaceable : Catalog → Software → Text → Result Error Unit
unfolding active_keys
replaceable c s key_id = do
  require (ltb 1 (length (active_keys c s.id))) last_key
  require (not (exists (uses_key c s.id key_id) c.artifacts)) key_in_use

-- The artifacts that lose their signature; the update takes deleted artifacts too
unfoldable pub signed_with : Catalog → Uuid → Text → Artifact → Bool
signed_with c software key_id a =
    elim a.signature_key_id [ none ↦ false | some k ↦ same k key_id ] && is_of c software false a

unfoldable pub drop_signatures : Catalog → Uuid → Text → List Artifact → List Artifact
drop_signatures c software key_id = update (signed_with c software key_id) (λ (a : Artifact).
    record a { signature = none; signature_key_id = none; signature_manifest = none })

-- `revokeSigningKey`
unfoldable pub revoke_signing_key : Catalog → Uuid → Text → Result Error Catalog
revoke_signing_key c software_id key_id = do
  s ← or_fail (find_software c.software software_id) not_found
  require (is_sha256 key_id) invalid_key_id
  key ←
      or_fail
        (find (λ (k : SigningKey). k.software_id == s.id && same k.key_id key_id && k.is_active)
          c.keys)
        key_not_found
  if s.require_signed_updates then replaceable c s key_id else ok tt
  ok (record c {
    keys =
        update (λ (k : SigningKey). k.id == key.id)
          (λ (k : SigningKey). record key { is_active = false }) c.keys;
    artifacts = drop_signatures c s.id key_id c.artifacts;
  })
