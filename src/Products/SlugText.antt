-- ===== src/Products/SlugText.antt =====
-- The units and the length of slugs.
use reeva.Prelude.{
  ℕ, ◌+◌, ◌-◌, ◌<◌, ◌≤◌, ◌≡◌, refl, Bool, true, false, ◌||◌, [], ◌∷◌, reverse, Text, ◌==◌, is_digit,
  length, length-append, take, length-take, decimal, every-decimal, length-decimal, ◌^◌,
  if◌then◌else◌, Bool-cases, inl, inr, All, All-append, All-take, All_of_every, arith,
}
use mathlib.Core.List.{reverse_aux}
use reeva.Artifacts.{strip_dashes, trim_dashes}
use reeva.Artifacts.Names.{strip_dashes-All, All-reverse}
use reeva.Products.Slug.{
  Unicode, is_slug_unit, dash_runs, strip_last_dashes, or_software, create_safe_slug, suffix_text,
  candidate,
}

abbrev pub is_slug_or_dash : ℕ → Bool
is_slug_or_dash c = is_slug_unit c || c == b'-'

abbrev pub AllSlug : Text → Type 0
AllSlug = All (λ c. is_slug_or_dash c ≡ true)

or_intro : (a b : Bool) → a ≡ true → (a || b) ≡ true
or_intro true b h = refl
or_intro false b h = cc

dash_cons : (b : Bool) (s : Text) → AllSlug s → AllSlug (if b then s else b'-' ∷ s)
dash_cons true s h = h
dash_cons false s h = (refl, h)

dash_runs-AllSlug : (inside : Bool) (s : Text) → AllSlug (dash_runs inside s)
unfolding dash_runs
dash_runs-AllSlug inside [] = tt
dash_runs-AllSlug inside (c ∷ s) = elim (Bool-cases (is_slug_unit c)) [
  | inl t ↦ rw t (or_intro (is_slug_unit c) (c == b'-') t, dash_runs-AllSlug false s)
  | inr f ↦ rw f (dash_cons inside _ (dash_runs-AllSlug true s))
]

strip_last_dashes-AllSlug : (s : Text) → AllSlug s → AllSlug (strip_last_dashes s)
unfolding strip_last_dashes
strip_last_dashes-AllSlug s h = All-reverse _ _ (strip_dashes-All _ (reverse s) (All-reverse _ s h))

trim_dashes-AllSlug : (s : Text) → AllSlug s → AllSlug (trim_dashes s)
trim_dashes-AllSlug s h =
    All-reverse _ _ (strip_dashes-All _ _ (All-reverse _ _ (strip_dashes-All _ s h)))

or_software-AllSlug : (s : Text) → AllSlug s → AllSlug (or_software s)
or_software-AllSlug [] h = (refl, (refl, (refl, (refl, (refl, (refl, (refl, (refl, tt))))))))
or_software-AllSlug (c ∷ s) h = h

pub create_safe_slug-AllSlug : (u : Unicode) (name : Text) → AllSlug (create_safe_slug u name)
unfolding create_safe_slug
create_safe_slug-AllSlug u name = or_software-AllSlug _ (
    strip_last_dashes-AllSlug _ (
      All-take _ 80 _
        (trim_dashes-AllSlug _ (dash_runs-AllSlug false (u.lower (u.strip_marks (u.nfkd name)))))))

digits-AllSlug : (s : Text) → All (λ c. is_digit c ≡ true) s → AllSlug s
digits-AllSlug [] h = tt
digits-AllSlug (c ∷ s) (d, h) = (ground (arith, d), digits-AllSlug s h)

pub candidate-AllSlug : (base : Text) (i : ℕ) → AllSlug base → AllSlug (candidate base i)
unfolding candidate
candidate-AllSlug base i h =
    All-append _ (strip_last_dashes (take (80 - length (suffix_text i)) base)) (suffix_text i)
      (strip_last_dashes-AllSlug _ (All-take _ (80 - length (suffix_text i)) base h))
      (refl, digits-AllSlug (decimal i) (All_of_every is_digit (decimal i) (every-decimal i)))

length-reverse_aux : (s t : Text) → length (reverse_aux s t) ≡ length s + length t
length-reverse_aux [] t = omega arith
length-reverse_aux (c ∷ s) t = omega (arith, length-reverse_aux s (c ∷ t))

length-reverse : (s : Text) → length (reverse s) ≡ length s
length-reverse s = omega (arith, length-reverse_aux s [])

length-strip_dashes : (s : Text) → length (strip_dashes s) ≤ length s
unfolding strip_dashes
length-strip_dashes [] = omega arith
length-strip_dashes (c ∷ s) = ground (arith, length-strip_dashes s)

length-strip_last : (s : Text) → length (strip_last_dashes s) ≤ length s
unfolding strip_last_dashes
length-strip_last s = omega (
  arith,
  length-reverse (strip_dashes (reverse s)),
  length-strip_dashes (reverse s),
  length-reverse s,
)

or_software-length :
    (s : Text) → length s ≤ 80 → (1 ≤ length (or_software s)) × (length (or_software s) ≤ 80)
or_software-length [] h = (omega arith, omega arith)
or_software-length (c ∷ s) h = (omega arith, omega (arith, h))

pub create_safe_slug-length :
    (u : Unicode) (name : Text)
    → (1 ≤ length (create_safe_slug u name)) × (length (create_safe_slug u name) ≤ 80)
unfolding create_safe_slug
create_safe_slug-length u name =
    let s : Text = trim_dashes (dash_runs false (u.lower (u.strip_marks (u.nfkd name)))) in
    or_software-length (strip_last_dashes (take 80 s))
      (omega (arith, length-strip_last (take 80 s), length-take 80 s))

pub candidate-length :
    (base : Text) (i : ℕ)
    → i < 10 ^ 10
    → (1 ≤ length (candidate base i)) × (length (candidate base i) ≤ 80)
unfolding candidate
candidate-length base i small =
    let t : Text = suffix_text i in
    let head : Text = take (80 - length t) base in
    let d : length (decimal i) ≤ 10 = length-decimal 10 i small (omega arith) in
    (
      omega (arith, length-append (strip_last_dashes head) t),
      omega (
        arith,
        length-append (strip_last_dashes head) t,
        length-strip_last head,
        length-take (80 - length t) base,
        d,
      ),
    )
