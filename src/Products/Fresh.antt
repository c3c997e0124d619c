-- ===== src/Products/Fresh.antt =====
-- That the allocation of a slug ends, and with a slug that no product has.
use reeva.Prelude.{
  ℕ, zero, suc, ◌+◌, ◌-◌, ◌<◌, ◌≤◌, ◌≡◌, ◌≢◌, refl, sym, ap, ◌∙◌, true, false, some, List, [], ◌∷◌,
  ◌++◌, reverse, Memᴰ, Text, same, same→eq, same_refl, ltb, exists, mem_of_exists, remove,
  mem-remove_intro, length-remove-lt, is_digit, is_empty, length, take, decimal, value_of,
  value_of-decimal, every-decimal, ◌^◌, if◌then◌else◌, Bool-cases, or_left, or_right, inl, inr, All,
  All_of_every, arith, ok,
}
use mathlib.Core.List.{append_assoc, reverse-append, reverse-cons, reverse-reverse}
use reeva.Model.{Uuid, Software}
use reeva.Input.{Value}
use reeva.Artifacts.Names.{All-reverse}
use reeva.Products.{name_of}
use reeva.Products.Slug.{
  Unicode, strip_last_dashes, create_safe_slug, suffix_text, candidate, find_slug, slugs, create,
}
use reeva.Products.SlugText.{
  is_slug_or_dash, AllSlug, create_safe_slug-AllSlug, candidate-AllSlug, create_safe_slug-length,
  candidate-length,
}

-- The digits that a text begins with
leading : Text → Text
leading [] = []
leading (c ∷ s) = let rest = leading s in if is_digit c then c ∷ rest else []

leading-append : (s t : Text) → All (λ c. is_digit c ≡ true) s → leading (s ++ (b'-' ∷ t)) ≡ s
unfolding leading
leading-append [] t h = refl
leading-append (c ∷ s) t (d, h) = rw d (ap (◌∷◌ c) (leading-append s t h))

-- The suffix can be read off a candidate.
leading-candidate :
    (base : Text) (i : ℕ) → leading (reverse (candidate base i)) ≡ reverse (decimal i)
unfolding candidate
leading-candidate base i =
    let head : Text = strip_last_dashes (take (80 - length (suffix_text i)) base) in
    ap leading (turned head (decimal i))
    ∙ leading-append (reverse (decimal i)) (reverse head)
        (All-reverse _ (decimal i) (All_of_every is_digit (decimal i) (every-decimal i)))
  where
    turned : (head s : Text) → reverse (head ++ (b'-' ∷ s)) ≡ reverse s ++ (b'-' ∷ reverse head)
    turned head s =
        reverse-append head (b'-' ∷ s)
        ∙ ap (λ x. x ++ reverse head) (reverse-cons b'-' s)
        ∙ append_assoc (reverse s) (b'-' ∷ []) (reverse head)

candidate-injective : (base : Text) (i j : ℕ) → candidate base i ≡ candidate base j → i ≡ j
candidate-injective base i j e =
    let same_digits : reverse (decimal i) ≡ reverse (decimal j) =
      sym (leading-candidate base i) ∙ ap (λ s. leading (reverse s)) e ∙ leading-candidate base j in
    let same_text : decimal i ≡ decimal j =
      sym (reverse-reverse (decimal i)) ∙ ap reverse same_digits ∙ reverse-reverse (decimal j) in
    sym (value_of-decimal i) ∙ ap value_of same_text ∙ value_of-decimal j

-- The candidate on which the loop ends
record IsFound (taken : List Text) (base : Text) (fuel i : ℕ) : Type 0 where
  suffix : ℕ
  low : i ≤ suffix
  high : suffix < i + fuel
  found : find_slug fuel taken base i (candidate base i) ≡ some (candidate base suffix)
  free : exists (same (candidate base suffix)) taken ≡ false

taken_row : (taken : List Text) (s : Text) → exists (same s) taken ≡ true → Memᴰ s taken
taken_row taken s h = let (x, m, e) = mem_of_exists (same s) taken h in rw (same→eq s x e) m

differs : (s t : Text) → s ≢ t → same s t ≡ false
differs s t n = elim (Bool-cases (same s t)) [ inl h ↦ absurd (n (same→eq s t h)) | inr f ↦ f ]

module _ (taken : List Text) (base : Text) where
  -- `rest` holds the taken candidates that are still to come; each round removes one.
  find_slug-ends :
      (fuel i : ℕ) (rest : List Text)
      → ((j : ℕ)
          → i ≤ j
          → exists (same (candidate base j)) taken ≡ true
          → Memᴰ (candidate base j) rest)
      → length rest < fuel
      → IsFound taken base fuel i
  unfolding find_slug
  find_slug-ends zero i rest cover few = absurd (omega arith)
  find_slug-ends (suc fuel) i rest cover few =
      elim (Bool-cases (exists (same (candidate base i)) taken)) [
        | inr f ↦ record {
          suffix = i;
          low = omega arith;
          high = omega arith;
          found = rw f refl;
          free = f;
        }
        | inl t ↦
            let m : Memᴰ (candidate base i) rest = cover i (omega arith) t in
            let later =
              find_slug-ends fuel (suc i) (remove (same (candidate base i)) rest)
                (λ j le h.
                  mem-remove_intro (same (candidate base i)) rest (cover j (omega (arith, le)) h) (
                    differs (candidate base i) (candidate base j)
                      λ e. absurd (omega (arith, le, candidate-injective base i j e))))
                (omega (
                  arith,
                  few,
                  length-remove-lt (same (candidate base i)) rest m (same_refl (candidate base i)),
                )) in
            record {
              suffix = later.suffix;
              low = omega (arith, later.low);
              high = omega (arith, later.high);
              found = rw t later.found;
              free = later.free;
            }
      ]

-- A slug that may be stored: not taken, 1 to 80 small letters, digits and dashes
pub record IsSlug (taken : List Text) (s : Text) : Type 0 where
  pub free : exists (same s) taken ≡ false
  pub units : All (λ c. is_slug_or_dash c ≡ true) s
  pub low : 1 ≤ length s
  pub high : length s ≤ 80

found-IsSlug :
    (taken : List Text) (base : Text) (fuel : ℕ)
    → AllSlug base
    → fuel < 10 ^ 9 + 2
    → (f : IsFound taken base fuel 2) → IsSlug taken (candidate base f.suffix)
found-IsSlug taken base fuel h small f =
    let bounds = candidate-length base f.suffix (omega (arith, f.high, small)) in
    record {
      free = f.free;
      units = candidate-AllSlug base f.suffix h;
      low = bounds.0;
      high = bounds.1;
    }

find_slug-IsSlug :
    (taken : List Text) (base : Text) (fuel : ℕ)
    → AllSlug base
    → (1 ≤ length base) × (length base ≤ 80)
    → length taken + 2 ≤ fuel
    → fuel < 10 ^ 9 + 2
    → (s : Text) × (find_slug fuel taken base 1 base ≡ some s) × IsSlug taken s
unfolding find_slug
find_slug-IsSlug taken base zero h bounds enough small = absurd (omega (arith, enough))
find_slug-IsSlug taken base (suc fuel) h bounds enough small =
    elim (Bool-cases (exists (same base) taken)) [
      | inr f ↦ (base, rw f refl, record { free = f; units = h; low = bounds.0; high = bounds.1 })
      | inl t ↦
          let f =
            find_slug-ends taken base fuel 2 taken (λ j le k. taken_row taken (candidate base j) k)
              (omega (arith, enough)) in
          (
            candidate base f.suffix,
            rw t f.found,
            found-IsSlug taken base fuel h (omega (arith, small)) f,
          )
    ]

length-slugs : (rows : List Software) → length (slugs rows) ≡ length rows
length-slugs [] = refl
length-slugs (s ∷ rows) = ap suc (length-slugs rows)

none_has :
    (rows : List Software) (slug : Text)
    → exists (same slug) (slugs rows) ≡ false
    → All (λ (s : Software). s.slug ≢ slug) rows
none_has [] slug f = tt
none_has (s ∷ rows) slug f = (
  (λ e. absurd (
      cc (
        or_left (same slug s.slug) (exists (same slug) (slugs rows)) f,
        same_refl slug,
        ap (same slug) e,
      ))),
  none_has rows slug (or_right (same slug s.slug) (exists (same slug) (slugs rows)) f),
)

-- What the creation of a product does
pub record IsCreated (u : Unicode) (rows : List Software) (input : Value) (id : Uuid) : Type 0 where
  pub slug : Text
  pub runs :
      create u rows input id
      ≡ ok (
          record {
            id = id;
            name = name_of input;
            slug = slug;
            is_active = true;
            is_default = false;
            require_signed_updates = false;
          }
          ∷ rows)
  pub fresh : All (λ (s : Software). s.slug ≢ slug) rows
  pub units : All (λ c. is_slug_or_dash c ≡ true) slug
  pub low : 1 ≤ length slug
  pub high : length slug ≤ 80

-- With a name of 1 to 120 units and fewer than 10^9 products, the creation of a product ends and
-- succeeds, whatever slugs are taken: it adds one active product that is not the default, with the
-- trimmed name and a slug of 1 to 80 small letters, digits and dashes that no product has.
pub create-IsCreated :
    (u : Unicode) (rows : List Software) (input : Value) (id : Uuid)
    → is_empty (name_of input) ≡ false
    → length (name_of input) ≤ 120
    → length rows < 10 ^ 9
    → IsCreated u rows input id
unfolding create
create-IsCreated u rows input id named short few =
    let base : Text = create_safe_slug u (name_of input) in
    let (slug, found, good) =
      find_slug-IsSlug (slugs rows) base (2 + length rows)
        (create_safe_slug-AllSlug u (name_of input)) (create_safe_slug-length u (name_of input))
        (omega (arith, length-slugs rows)) (omega (arith, few)) in
    record {
      slug = slug;
      runs = rw (named, not-long (name_of input) short, found) refl;
      fresh = none_has rows slug good.free;
      units = good.units;
      low = good.low;
      high = good.high;
    }
  where
    not-long : (s : Text) → length s ≤ 120 → ltb 120 (length s) ≡ false
    not-long s h = ground arith
