-- ===== src/Versions/Match.antt =====
-- That the filter pattern of the version list reads back the filters that it is meant for.
use reeva.Prelude.{
  ℕ, ◌≤◌, ◌<◌, ◌^◌, ◌≡◌, refl, ◌∙◌, ap, Bool, true, false, [], ◌∷◌, ◌++◌, none, some, Text, lit,
  arith, every, is_digit, is_empty, is_space, trim_start, length, leb, value_of, decimal,
  value_of-decimal, every-decimal, is_empty-decimal, length-decimal,
}
use reeva.Versions.Filter.{
  Operator, ge, gt, le, lt, eq, eat, read_operator, read_digits, read_part, part_of, with_equals,
  equality, ends, numbers, match_filter, Groups, compared, condition,
}

-- The text of an operator
abbrev pub symbol : Operator → Text
symbol ge = lit ">="
symbol gt = lit ">"
symbol le = lit "<="
symbol lt = lit "<"
symbol eq = lit "=="

abbrev pub stops : Text → Bool
stops [] = true
stops (c ∷ s) = leb c 47

-- Digits followed by something else are read whole.
read_digits-append :
    (s t : Text) → every is_digit s ≡ true → stops t ≡ true → read_digits (s ++ t) ≡ (s, t)
unfolding read_digits
read_digits-append [] [] h k = refl
read_digits-append [] (c ∷ t) h k = ground arith
read_digits-append (c ∷ s) t h k = ground (arith, read_digits-append s t)

trim_start-digits :
    (s t : Text) → every is_digit s ≡ true → is_empty s ≡ false → trim_start (s ++ t) ≡ s ++ t
unfolding trim_start is_space
trim_start-digits [] t h k = cc
trim_start-digits (c ∷ s) t h k = ground arith

read_part-dot :
    (s t : Text)
    → every is_digit s ≡ true
    → is_empty s ≡ false
    → stops t ≡ true
    → read_part (46 ∷ (s ++ t)) ≡ (some s, t)
unfolding read_part eat part_of
read_part-dot s t h e k = rw (read_digits-append s t h k, e)

-- No digit is taken for an operator's second unit.
eat-digits : (s t : Text) → every is_digit s ≡ true → is_empty s ≡ false → eat b'=' (s ++ t) ≡ none
unfolding eat
eat-digits [] t h k = cc
eat-digits (c ∷ s) t h k = ground arith

read_operator-symbol :
    (o : Operator) (s t : Text)
    → every is_digit s ≡ true
    → is_empty s ≡ false
    → read_operator (symbol o ++ (s ++ t)) ≡ (o, s ++ t)
unfolding read_operator
read_operator-symbol ge s t h e = unfold with_equals eat equality in refl
read_operator-symbol gt s t h e = unfold with_equals eat in rw (eat-digits s t h e)
read_operator-symbol le s t h e = unfold with_equals eat equality in refl
read_operator-symbol lt s t h e = unfold with_equals eat in rw (eat-digits s t h e)
read_operator-symbol eq s t h e = unfold with_equals eat equality in refl

read_digits_all : (s : Text) → every is_digit s ≡ true → read_digits s ≡ (s, [])
unfolding read_digits
read_digits_all [] h = refl
read_digits_all (c ∷ s) h = ground (arith, read_digits_all s (ground arith))

read_part-last :
    (s : Text) → every is_digit s ≡ true → is_empty s ≡ false → read_part (46 ∷ s) ≡ (some s, [])
unfolding read_part eat part_of
read_part-last s h e = rw (read_digits_all s h, e)

abbrev pub filter_text : Operator → ℕ → ℕ → ℕ → Text
filter_text o a b c = symbol o ++ (decimal a ++ (46 ∷ (decimal b ++ (46 ∷ decimal c))))

match_steps :
    (s rest digits after : Text) (o : Operator)
    → read_operator s ≡ (o, rest)
    → trim_start rest ≡ rest
    → read_digits rest ≡ (digits, after)
    → match_filter s ≡ numbers o (digits, after)
unfolding match_filter
match_steps s rest digits after o e t d =
    ap (λ p. numbers p.0 (read_digits (trim_start p.1))) e
    ∙ ap (λ r. numbers o (read_digits r)) t
    ∙ ap (numbers o) d

number_steps :
    (o : Operator) (x y z r1 r2 : Text)
    → is_empty x ≡ false
    → read_part r1 ≡ (some y, r2)
    → read_part r2 ≡ (some z, [])
    → numbers o (x, r1)
      ≡ some (record { operator = o; major = x; minor = some y; patch = some z; wildcard = false })
unfolding numbers ends
number_steps o x y z r1 r2 e h k = rw (h, k, e)

match-text :
    (o : Operator) (x y z : Text)
    → every is_digit x ≡ true
    → is_empty x ≡ false
    → every is_digit y ≡ true
    → is_empty y ≡ false
    → every is_digit z ≡ true
    → is_empty z ≡ false
    → match_filter (symbol o ++ (x ++ (46 ∷ (y ++ (46 ∷ z)))))
      ≡ some (record { operator = o; major = x; minor = some y; patch = some z; wildcard = false })
match-text o x y z hx ex hy ey hz ez =
    match_steps _ _ _ _ o (read_operator-symbol o x (46 ∷ (y ++ (46 ∷ z))) hx ex)
      (trim_start-digits x (46 ∷ (y ++ (46 ∷ z))) hx ex)
      (read_digits-append x (46 ∷ (y ++ (46 ∷ z))) hx refl)
    ∙ number_steps o x y z _ _ ex (read_part-dot y (46 ∷ z) hy ey refl) (read_part-last z hz ez)

condition-text :
    (o : Operator) (x y z : Text)
    → length x ≤ 9
    → length y ≤ 9
    → length z ≤ 9
    → value_of x < 10 ^ 9
    → value_of y < 10 ^ 9
    → value_of z < 10 ^ 9
    → condition
        (record { operator = o; major = x; minor = some y; patch = some z; wildcard = false })
      ≡ some (compared o (value_of x) (value_of y) (value_of z))
unfolding condition
condition-text o x y z = ground arith

-- The text of an operator and three numbers below 10^9 matches, with these digits as its groups,
-- and becomes the comparison with these numbers.
pub match-condition :
    (o : Operator) (a b c : ℕ)
    → a < 10 ^ 9
    → b < 10 ^ 9
    → c < 10 ^ 9
    → (g : Groups) × (match_filter (filter_text o a b c) ≡ some g)
      × (condition g ≡ some (compared o a b c))
match-condition o a b c p q r = (
  _,
  match-text o (decimal a) (decimal b) (decimal c) (every-decimal a) (is_empty-decimal a)
      (every-decimal b) (is_empty-decimal b) (every-decimal c) (is_empty-decimal c),
  condition-text o (decimal a) (decimal b) (decimal c) (length-decimal 9 a p (omega arith))
        (length-decimal 9 b q (omega arith)) (length-decimal 9 c r (omega arith))
        (omega (arith, value_of-decimal a)) (omega (arith, value_of-decimal b))
        (omega (arith, value_of-decimal c))
      ∙ rw (value_of-decimal a, value_of-decimal b, value_of-decimal c) refl,
)
