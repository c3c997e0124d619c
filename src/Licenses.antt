-- ===== src/Licenses.antt =====
-- app/services/license_service.ts: licenses and their activations. Every mutation is one
-- transaction that locks the license row, so the operations are atomic: a result `err` stands for
-- the rollback. Ed25519, JSON, base64 and `Number.parseInt` come from Node: the parameters.
pub mod Invariant
pub mod Issue
pub mod Remove
pub mod Seats
pub mod Steps
mod Tests
use reeva.Prelude.{
  ℕ, ◌+◌, ◌-◌, ◌≤◌, ◌<◌, ◌≡◌, Bool, true, false, not, ◌&&◌, ◌||◌, Option, none, some, List, [], ◌∷◌,
  Text, lit, same, leb, ltb, ◌==◌, find, select, exists, update, remove, length, is_none, is_empty,
  trim, if◌then◌else◌, Result, ok, err, or_fail, require, ◌>>=◌, ◌>>◌,
}
use reeva.Model.{Uuid}
use reeva.Input.{Value, text}

-- An integer: `minus n` is -(n + 1).
pub data Integer : Type 0 where
  nat : ℕ → Integer
  minus : ℕ → Integer

pub record License : Type 0 where
  pub id : Uuid
  pub license_key : Text
  pub product_name : Text
  pub status : Text
  pub max_activations : Integer
  pub activation_count : ℕ
  pub expires_at : Option ℕ
  pub revoked_at : Option ℕ
  pub deleted_at : Option ℕ

pub record Activation : Type 0 where
  pub id : Uuid
  pub license_id : Uuid
  pub machine_id : Text

pub record Setting : Type 0 where
  pub key : Text
  pub value : Text

pub record Licensing : Type 0 where
  pub licenses : List License
  pub activations : List Activation
  pub settings : List Setting

pub data Error : Type 0 where
  invalid_machine not_found inactive expired already_activated limit_reached : Error

-- A live row of the licenses
unfoldable pub find_license : Licensing → Uuid → Option License
find_license db id = find (λ (l : License). l.id == id && is_none l.deleted_at) db.licenses

-- `license.save()`
unfoldable pub save : Licensing → License → Licensing
save db l = record db { licenses = update (λ (m : License). m.id == l.id) (λ m. l) db.licenses }

unfoldable pub activations_of : Licensing → Uuid → List Activation
activations_of db id = select (λ (a : Activation). a.license_id == id) db.activations

-- What is signed
pub record Payload : Type 0 where
  pub lid : Uuid
  pub key : Text
  pub hid : Text
  pub prod : Text
  pub exp : Option ℕ
  pub iat : ℕ

pub record Token : Type 0 where
  pub payload : Payload
  pub signature : Text

-- `crypto.generateKeyPairSync('ed25519')` in PEM (private, then public) and `crypto.sign`
pub record Signer : Type 0 where
  pub fresh : Text × Text
  pub sign : Text → Payload → Text

abbrev pub private_key : Text
private_key = lit "license_private_key"

abbrev pub public_key : Text
public_key = lit "license_public_key"

-- `Setting.updateOrCreate`
unfoldable pub put_setting : Text → Text → List Setting → List Setting
put_setting key value [] = record { key = key; value = value } ∷ []
put_setting key value (s ∷ rest) =
    if same s.key key then record s { value = value } ∷ rest else s ∷ put_setting key value rest

-- `getPrivateKey`: the key, created with its public half when there is none
unfoldable pub get_private_key : Signer → Licensing → Text × Licensing
unfolding put_setting
get_private_key signer db = elim (find (λ (s : Setting). same s.key private_key) db.settings) [
  | some s ↦ (s.value, db)
  | none ↦
      let created : Setting = record { key = private_key; value = signer.fresh.0 } in
      (
        signer.fresh.0,
        record db { settings = put_setting public_key signer.fresh.1 (created ∷ db.settings) },
      )
]

-- `activations.length >= license.maxActivations`
abbrev pub is_full : ℕ → Integer → Bool
is_full n (nat m) = leb m n
is_full n (minus m) = true

-- `license.expiresAt && license.expiresAt <= now`
abbrev pub has_expired : Option ℕ → ℕ → Bool
has_expired none now = false
has_expired (some t) now = leb t now

abbrev pub payload_of : License → Text → ℕ → Payload
payload_of l machine now = record {
  lid = l.id;
  key = l.license_key;
  hid = machine;
  prod = l.product_name;
  exp = l.expires_at;
  iat = now;
}

abbrev pub machine_text : Value → Option Text
machine_text (text s) =
    if is_empty (trim s) then none else if ltb 255 (length s) then none else some (trim s)
machine_text _ = none

-- `issueActivationToken`: `fresh_id` is the UUID of the new activation, `now` the clock
unfoldable pub issue :
    Signer → Licensing → Uuid → Value → Uuid → ℕ → Result Error (Token × Licensing)
issue signer db license_id machine fresh_id now = do
  hid ← or_fail (machine_text machine) invalid_machine
  l ← or_fail (find_license db license_id) not_found
  require (same l.status (lit "active")) inactive
  require (not (has_expired l.expires_at now)) expired
  let rows : List Activation = activations_of db l.id
  require (not (exists (λ (a : Activation). same a.machine_id hid) rows)) already_activated
  require (not (is_full (length rows) l.max_activations)) limit_reached
  let (key, db1) = get_private_key signer db
  let token : Token = record {
    payload = payload_of l hid now;
    signature = signer.sign key (payload_of l hid now);
  }
  let created : Activation = record { id = fresh_id; license_id = l.id; machine_id = hid }
  let db2 : Licensing = record db1 { activations = created ∷ db1.activations }
  ok (token, save db2 (record l { activation_count = length rows + 1 }))

-- `removeActivation`
unfoldable pub remove_activation : Licensing → Uuid → Uuid → Result Error Licensing
remove_activation db license_id activation_id = do
  l ← or_fail (find_license db license_id) not_found
  a ←
      or_fail
        (find (λ (a : Activation). a.id == activation_id && a.license_id == l.id) db.activations)
        not_found
  let db1 : Licensing = record db {
    activations = remove (λ (b : Activation). b.id == a.id) db.activations;
  }
  ok (save db1 (record l { activation_count = length (activations_of db1 l.id) }))

-- `toggleLicense`
unfoldable pub toggle : Licensing → Uuid → Result Error Licensing
toggle db id = do
  l ← or_fail (find_license db id) not_found
  ok (
      save db (record l {
        status = if same l.status (lit "active") then lit "inactive" else lit "active";
      }))

-- `deleteLicense`, which is a soft delete
unfoldable pub delete : Licensing → Uuid → ℕ → Result Error Licensing
delete db id now = do
  l ← or_fail (find_license db id) not_found
  ok (save db (record l { deleted_at = some now }))

-- The fields of an update; the limit is what `Number.parseInt` made of the input, with `none` for
-- an empty input or NaN, where the old limit stays. Customer fields are left out.
pub record LicenseUpdate : Type 0 where
  pub license_key : Text
  pub product_name : Text
  pub status : Text
  pub max_activations : Option Integer
  pub expires_at : Option ℕ

abbrev pub or_old : Option Integer → Integer → Integer
or_old none old = old
or_old (some new) old = new

-- `revokedAt` of `updateLicense`
abbrev pub revocation : Text → Option ℕ → ℕ → Option ℕ
revocation status old now =
    if same status (lit "revoked") then (if is_none old then some now else old) else none

-- `updateLicense`
unfoldable pub update_license : Licensing → Uuid → LicenseUpdate → ℕ → Result Error Licensing
update_license db id fields now = do
  l ← or_fail (find_license db id) not_found
  ok (
      save db (record l {
        license_key = fields.license_key;
        product_name = fields.product_name;
        status = fields.status;
        max_activations = or_old fields.max_activations l.max_activations;
        expires_at = fields.expires_at;
        revoked_at = revocation fields.status l.revoked_at now;
      }))

-- `createLicense`, with the limit as above and 1 for none; `fresh_key` is the generated key
unfoldable pub create : Licensing → Uuid → Text → LicenseUpdate → Licensing
create db fresh_id fresh_key fields = record db {
  licenses =
      record {
        id = fresh_id;
        license_key = if is_empty fields.license_key then fresh_key else fields.license_key;
        product_name = fields.product_name;
        status = if is_empty fields.status then lit "active" else fields.status;
        max_activations = or_old fields.max_activations (nat 1);
        activation_count = 0;
        expires_at = fields.expires_at;
        revoked_at = none;
        deleted_at = none;
      }
      ∷ db.licenses;
}
