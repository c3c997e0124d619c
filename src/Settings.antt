-- ===== src/Settings.antt =====
-- app/services/setting_service.ts: the settings of the CMS. The table of
-- database/migrations/1774861504679_create_settings_table.ts has a unique key, also over the rows that
-- are soft-deleted, and values of at most 255 characters.
pub mod Map
mod Tests
use reeva.Prelude.{
  ℕ, ◌≡◌, Bool, true, false, not, ◌&&◌, ◌||◌, Option, none, some, List, [], ◌∷◌, Text, lit, same,
  leb, ◌==◌, every, exists, find, update, is_none, is_digit, length, if◌then◌else◌, Result, ok, err,
  or_fail, require, ◌>>=◌, ◌>>◌,
}
use reeva.Model.{Uuid}
use reeva.Input.{Value, text}

pub record Setting : Type 0 where
  pub id : Uuid
  pub key : Text
  pub value : Text
  pub deleted_at : Option ℕ

pub data Error : Type 0 where
  invalid_key invalid_value managed_elsewhere key_exists not_found : Error
  -- what the database refuses
  unique_violation value_too_long : Error

abbrev pub is_letter : ℕ → Bool
is_letter c = (leb b'A' c && leb c b'Z') || (leb b'a' c && leb c b'z')

abbrev pub is_key_unit : ℕ → Bool
is_key_unit c = is_letter c || is_digit c || c == b'.' || c == b'_' || c == b'-'

-- `/^[A-Za-z][A-Za-z0-9._-]{0,99}$/`
unfoldable pub is_key : Text → Bool
is_key [] = false
is_key (c ∷ s) = is_letter c && every is_key_unit s && leb (length s) 99

-- The key that `validate` accepts, and the value
unfoldable pub checked_key : Value → Result Error Text
checked_key (text s) = if is_key s then ok s else err invalid_key
checked_key _ = err invalid_key

unfoldable pub checked_value : Value → Result Error Text
checked_value (text s) = if leb (length s) 2000 then ok s else err invalid_value
checked_value _ = err invalid_value

abbrev pub is_app_name : Text → Bool
is_app_name key = same key (lit "appName")

-- `findByKey`
unfoldable pub find_by_key : List Setting → Text → Option Setting
find_by_key rows key = find (λ (s : Setting). same s.key key && is_none s.deleted_at) rows

unfoldable pub find_setting : List Setting → Uuid → Option Setting
find_setting rows id = find (λ (s : Setting). s.id == id && is_none s.deleted_at) rows

-- `setting.save()`
abbrev pub save : Setting → List Setting → List Setting
save s rows = update (λ (t : Setting). t.id == s.id) (λ t. s) rows

abbrev pub is_taken : Option Setting → Bool
is_taken none = false
is_taken (some s) = true

-- `createSetting`, with the new id
unfoldable pub create_setting : List Setting → Value → Value → Uuid → Result Error (List Setting)
create_setting rows key_input value_input id = do
  key ← checked_key key_input
  value ← checked_value value_input
  require (not (is_app_name key)) managed_elsewhere
  require (not (is_taken (find_by_key rows key))) key_exists
  require (leb (length value) 255) value_too_long
  require (not (exists (λ (s : Setting). same s.key key) rows)) unique_violation
  ok (record { id = id; key = key; value = value; deleted_at = none } ∷ rows)

-- `updateSetting`
unfoldable pub update_setting : List Setting → Uuid → Value → Result Error (List Setting)
update_setting rows id value_input = do
  value ← checked_value value_input
  s ← or_fail (find_setting rows id) not_found
  require (not (is_app_name s.key)) managed_elsewhere
  require (leb (length value) 255) value_too_long
  ok (save (record s { value = value }) rows)

-- `deleteSetting`, with the time of the call
unfoldable pub delete_setting : List Setting → Uuid → ℕ → Result Error (List Setting)
delete_setting rows id now = do
  s ← or_fail (find_setting rows id) not_found
  require (not (is_app_name s.key)) managed_elsewhere
  ok (save (record s { deleted_at = some now }) rows)
