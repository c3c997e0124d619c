-- ===== src/Input/Laws.antt =====
-- What the readers of a request accept, and what they make of it.
use reeva.Prelude.{
  le→leb, ap, lit, Bool-cases, inl, inr, same→eq, ℕ, ◌≤◌, ◌<◌, ◌^◌, ◌≡◌, refl, true, false, Option,
  none, some, Text, arith, every, length, same, is_digit, value_of, decimal, value_of-decimal,
  every-decimal, is_empty-decimal, length-decimal,
}
use reeva.Input.{
  is_missing, Value, number, text, max_safe, is_digits, is_falsy, scalar_text, positive, parse_page,
  positive_integer, part_of, parse_part,
}

pub is_digits-decimal : (n : ℕ) → is_digits (decimal n) ≡ true
unfolding is_digits
is_digits-decimal n = ground (arith, every-decimal n, is_empty-decimal n)

positive-decimal : (n m : ℕ) → 1 ≤ n → n ≤ m → m ≤ max_safe → positive m (some (decimal n)) ≡ some n
unfolding positive
positive-decimal n m low high safe =
    ground (arith, every-decimal n, is_empty-decimal n, value_of-decimal n)

positive_bounds :
    (m n : ℕ) (o : Option Text) → positive m o ≡ some n → (1 ≤ n) × (n ≤ m) × (n ≤ max_safe)
unfolding positive
positive_bounds m n none h = cc
positive_bounds m n (some s) h = ground arith

-- A page that `parsePage` lets through, whatever the request holds, lies between 1 and the
-- maximum, if the fallback does.
pub parse_page_bounds :
    (value : Value) (fallback maximum n : ℕ)
    → 1 ≤ fallback
    → fallback ≤ maximum
    → parse_page value fallback maximum ≡ some n
    → (1 ≤ n) × (n ≤ maximum)
unfolding parse_page
parse_page_bounds value fallback maximum n low high h = elim (Bool-cases (is_falsy value)) [
  | inl t ↦ ground arith
  | inr f ↦
      let (p, q, _) = positive_bounds maximum n (scalar_text value) (rw (f, parse_page) at h) in
      (p, q)
]

lit_zero : value_of (lit "0") ≡ 0
unfolding value_of
lit_zero = refl

decimal-ne-zero : (n : ℕ) → 1 ≤ n → same (decimal n) (lit "0") ≡ false
decimal-ne-zero n h = elim (Bool-cases (same (decimal n) (lit "0"))) [
  | inl t ↦
      absurd
        (omega (arith, value_of-decimal n, ap value_of (same→eq (decimal n) (lit "0") t), lit_zero))
  | inr f ↦ f
]

decimal-ne-nan : (n : ℕ) → same (decimal n) (lit "NaN") ≡ false
decimal-ne-nan n = elim (Bool-cases (same (decimal n) (lit "NaN"))) [
  | inl t ↦ cc (ap (every is_digit) (same→eq (decimal n) (lit "NaN") t), every-decimal n)
  | inr f ↦ f
]

-- Every page between 1 and a safe maximum is read back from its decimal text, whether the request
-- gives it as a string or as a number.
pub parse_page-decimal :
    (fallback maximum n : ℕ)
    → 1 ≤ n
    → n ≤ maximum
    → maximum ≤ max_safe
    → (parse_page (text (decimal n)) fallback maximum ≡ some n)
      × (parse_page (number (decimal n)) fallback maximum ≡ some n)
unfolding parse_page
parse_page-decimal fallback maximum n low high safe = (
  ground (arith, is_empty-decimal n, every-decimal n, value_of-decimal n),
  rw (decimal-ne-zero n low, decimal-ne-nan n)
      (ground (arith, is_empty-decimal n, every-decimal n, value_of-decimal n)),
)

-- The page and the limit of the release list.
pub positive_integer-decimal :
    (fallback maximum n : ℕ)
    → 1 ≤ n
    → n ≤ maximum
    → maximum ≤ max_safe
    → positive_integer (text (decimal n)) fallback maximum ≡ some n
unfolding positive_integer
positive_integer-decimal fallback maximum n low high safe =
    ground (arith, is_empty-decimal n, every-decimal n, value_of-decimal n)

pub positive_integer_bounds :
    (value : Value) (fallback maximum n : ℕ)
    → 1 ≤ fallback
    → fallback ≤ maximum
    → positive_integer value fallback maximum ≡ some n
    → (1 ≤ n) × (n ≤ maximum)
unfolding positive_integer
positive_integer_bounds value fallback maximum n low high h = elim (Bool-cases (is_missing value)) [
  | inl t ↦ ground arith
  | inr f ↦
      let (p, q, _) =
        positive_bounds maximum n (scalar_text value) (rw (f, positive_integer) at h) in
      (p, q)
]

part_of_bound : (o : Option Text) (n : ℕ) → part_of o ≡ some n → n ≤ max_safe
unfolding part_of
part_of_bound none n h = cc
part_of_bound (some s) n h = ground arith

-- A version part is accepted from the decimal text of every number below 10^9.
pub parse_part-decimal : (n : ℕ) → n < 10 ^ 9 → parse_part (text (decimal n)) ≡ some n
unfolding parse_part part_of
parse_part-decimal n h = ground (
  arith,
  is_digits-decimal n,
  length-decimal 9 n h (omega arith),
  value_of-decimal n,
  le→leb (length (decimal n)) 9,
)
