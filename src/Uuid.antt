-- ===== src/Uuid.antt =====
-- The UUID patterns of app/controllers/api/updater_controller.ts and app/services/artifact_service.ts,
-- and the number that such a text stands for, as the database compares uuid columns.
use reeva.Prelude.{
  ℕ, ◌+◌, ◌-◌, ◌*◌, Bool, true, false, ◌&&◌, ◌||◌, List, [], ◌∷◌, ◌++◌, Text, leb, ◌==◌,
  if◌then◌else◌, is_digit,
}

abbrev pub is_hex : ℕ → Bool
is_hex c = is_digit c || (leb b'a' c && leb c b'f') || (leb b'A' c && leb c b'F')

-- `[1-8]` and `[89ab]`, in either case
abbrev pub is_version : ℕ → Bool
is_version c = leb b'1' c && leb c b'8'

abbrev pub is_variant : ℕ → Bool
is_variant c = c == b'8' || c == b'9' || c == b'a' || c == b'b' || c == b'A' || c == b'B'

abbrev pub is_dash : ℕ → Bool
is_dash c = c == b'-'

abbrev pub four : List (ℕ → Bool)
four = is_hex ∷ is_hex ∷ is_hex ∷ is_hex ∷ []

abbrev pub pattern_units : List (ℕ → Bool)
pattern_units =
    four
    ++ four
    ++ (is_dash ∷ four)
    ++ (is_dash ∷ is_version ∷ is_hex ∷ is_hex ∷ is_hex ∷ [])
    ++ (is_dash ∷ is_variant ∷ is_hex ∷ is_hex ∷ is_hex ∷ [])
    ++ (is_dash ∷ four)
    ++ four
    ++ four

unfoldable pub fits : List (ℕ → Bool) → Text → Bool
fits [] [] = true
fits (p ∷ ps) (c ∷ s) = p c && fits ps s
fits _ _ = false

-- `/^[0-9a-f]{8}-[0-9a-f]{4}-[1-8][0-9a-f]{3}-[89ab][0-9a-f]{3}-[0-9a-f]{12}$/i`
unfoldable pub is_uuid : Text → Bool
unfolding fits
is_uuid s = fits pattern_units s

abbrev pub hex_value : ℕ → ℕ
hex_value c = if is_digit c then c - 48 else if leb c b'F' then c - 55 else c - 87

unfoldable pub uuid_from : ℕ → Text → ℕ
uuid_from acc [] = acc
uuid_from acc (c ∷ s) = uuid_from (if is_dash c then acc else acc * 16 + hex_value c) s

unfoldable pub uuid_value : Text → ℕ
unfolding uuid_from
uuid_value s = uuid_from 0 s
