-- ===== src/Products/Slug.antt =====
-- app/services/software_service.ts: `create` and the allocation of a slug. The Unicode functions of
-- JavaScript are parameters. `slice(0, 80 - n)` of a suffix of more than 80 units would count from
-- the end; it would take 10^79 products.
use reeva.Prelude.{
  ℕ, zero, suc, ◌+◌, ◌-◌, Bool, true, false, not, ◌&&◌, ◌||◌, Option, none, some, List, [], ◌∷◌,
  ◌++◌, map, reverse, Text, lit, same, leb, ltb, exists, is_digit, is_empty, length, take, decimal,
  if◌then◌else◌, Result, ok, or_fail, require, ◌>>=◌, ◌>>◌,
}
use reeva.Model.{Uuid, Software}
use reeva.Input.{Value}
use reeva.Artifacts.{strip_dashes, trim_dashes}
use reeva.Products.{Error, invalid_name, out_of_fuel, name_of}

-- `normalize('NFKD')`, `replace(/\p{M}/gu, '')` and `toLowerCase`
pub record Unicode : Type 0 where
  pub nfkd : Text → Text
  pub strip_marks : Text → Text
  pub lower : Text → Text

-- `[a-z0-9]`
abbrev pub is_slug_unit : ℕ → Bool
is_slug_unit c = (leb b'a' c && leb c b'z') || is_digit c

-- `.replace(/[^a-z0-9]+/g, '-')`; the flag says that the last unit was replaced
unfoldable pub dash_runs : Bool → Text → Text
dash_runs inside [] = []
dash_runs inside (c ∷ s) =
    let kept = dash_runs false s in
    let dropped = dash_runs true s in
    if is_slug_unit c then c ∷ kept else if inside then dropped else b'-' ∷ dropped

-- `.replace(/-+$/g, '')`
unfoldable pub strip_last_dashes : Text → Text
strip_last_dashes s = reverse (strip_dashes (reverse s))

abbrev pub or_software : Text → Text
or_software [] = lit "software"
or_software (c ∷ s) = c ∷ s

-- `createSafeSlug`
unfoldable pub create_safe_slug : Unicode → Text → Text
create_safe_slug u name = or_software (
    strip_last_dashes
      (take 80 (trim_dashes (dash_runs false (u.lower (u.strip_marks (u.nfkd name)))))))

abbrev pub suffix_text : ℕ → Text
suffix_text i = b'-' ∷ decimal i

-- The slug that is tried with a suffix
unfoldable pub candidate : Text → ℕ → Text
candidate base i = strip_last_dashes (take (80 - length (suffix_text i)) base) ++ suffix_text i

-- The `while` loop, with the rounds that it may take
unfoldable pub find_slug : ℕ → List Text → Text → ℕ → Text → Option Text
find_slug zero taken base suffix slug = none
find_slug (suc fuel) taken base suffix slug =
    let rest = find_slug fuel taken base (suc suffix) (candidate base (suc suffix)) in
    if exists (same slug) taken then rest else some slug

abbrev pub slugs : List Software → List Text
slugs rows = map (λ (s : Software). s.slug) rows

-- `create`, with the new id
unfoldable pub create : Unicode → List Software → Value → Uuid → Result Error (List Software)
create u rows input id = do
  require (not (is_empty (name_of input) || ltb 120 (length (name_of input)))) invalid_name
  let base : Text = create_safe_slug u (name_of input)
  slug ← or_fail (find_slug (2 + length rows) (slugs rows) base 1 base) out_of_fuel
  ok (
      record {
        id = id;
        name = name_of input;
        slug = slug;
        is_active = true;
        is_default = false;
        require_signed_updates = false;
      }
      ∷ rows)
