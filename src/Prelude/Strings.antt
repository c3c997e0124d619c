-- ===== src/Prelude/Strings.antt =====
-- JavaScript strings, as lists of UTF-16 code units, and the string functions that the code uses.
use Prim.Native.Char.{code}
use Prim.Native.String.{String}
use Prim.Native.Nat.{ℕ, zero, suc, ◌+◌, ◌*◌, ◌-◌, ◌/◌, ◌%◌, ◌^◌, ◌<◌, ◌≤◌}
use mathlib.Core.Path.{◌≡◌, refl, ap}
use mathlib.Core.Logic.{◌↔◌}
use mathlib.Core.Bool.{Bool, true, false, ◌&&◌, ◌||◌}
use mathlib.Core.Option.{Option, none, some}
use mathlib.Core.List.{List, [], ◌∷◌, ◌++◌, reverse}
use native.Mathlib.Omega.{arith}
use reeva.Prelude.Tests.{ltb, leb, ◌==◌, if◌then◌else◌}
use mathlib.Core.Logic.{inl, inr}
use native.Mathlib.Nat.{pow-suc}
use reeva.Prelude.Tests.{Bool-cases}
use reeva.Prelude.Table.{every}
use reeva.Prelude.Lists.{length, length-append}

abbrev pub Text : Type 0
Text = List ℕ

-- A literal of the source; all of them are ASCII, where a character is one code unit.
abbrev pub lit : String → Text
lit String.[] = []
lit (String.◌∷◌ c s) = code c ∷ lit s

-- `===` on strings
unfoldable pub same : Text → Text → Bool
same [] [] = true
same (a ∷ s) (b ∷ t) = (a == b) && same s t
same _ _ = false

pub same→eq : (s t : Text) → same s t ≡ true → s ≡ t
unfolding same
same→eq [] [] h = refl
same→eq [] (b ∷ t) h = cc
same→eq (a ∷ s) [] h = cc
same→eq (a ∷ s) (b ∷ t) h = ground (arith, same→eq s t)

pub same_refl : (s : Text) → same s s ≡ true
unfolding same
same_refl [] = refl
same_refl (a ∷ s) = ground (arith, same_refl s)

eq→same : (s t : Text) → s ≡ t → same s t ≡ true
eq→same s t e = rw e (same_refl t)

pub same_iff : (s t : Text) → (same s t ≡ true) ↔ (s ≡ t)
same_iff s t = (same→eq s t, eq→same s t)

-- `===` on strings that may be null
unfoldable pub same_option : Option Text → Option Text → Bool
unfolding same
same_option none none = true
same_option (some s) (some t) = same s t
same_option _ _ = false

pub same_option→eq : (s t : Option Text) → same_option s t ≡ true → s ≡ t
unfolding same_option
same_option→eq none none h = refl
same_option→eq none (some t) h = cc
same_option→eq (some s) none h = cc
same_option→eq (some s) (some t) h = ap some (same→eq s t h)

pub same_option_refl : (s : Option Text) → same_option s s ≡ true
unfolding same_option
same_option_refl none = refl
same_option_refl (some s) = same_refl s

abbrev pub is_none {ℓ} : {A : Type ℓ} → Option A → Bool
is_none none = true
is_none (some a) = false

abbrev pub is_some {ℓ} : {A : Type ℓ} → Option A → Bool
is_some none = false
is_some (some a) = true

pub is_none→eq {ℓ} : {A : Type ℓ} (o : Option A) → is_none o ≡ true → o ≡ none
is_none→eq none h = refl
is_none→eq (some a) h = cc

-- A null or an empty string is falsy.
abbrev pub truthy : Option Text → Bool
truthy none = false
truthy (some []) = false
truthy (some (c ∷ s)) = true

abbrev pub is_empty : Text → Bool
is_empty [] = true
is_empty (c ∷ s) = false

-- `\d`
abbrev pub is_digit : ℕ → Bool
is_digit c = leb 48 c && leb c 57

-- `\s`, which is also what `trim` removes: white space and line terminators
unfoldable pub is_space : ℕ → Bool
is_space c =
    (leb 9 c && leb c 13)
    || c == 32
    || c == 160
    || c == 0x1680
    || (leb 0x2000 c && leb c 0x200a)
    || c == 0x2028
    || c == 0x2029
    || c == 0x202f
    || c == 0x205f
    || c == 0x3000
    || c == 0xfeff

unfoldable pub trim_start : Text → Text
unfolding is_space
trim_start [] = []
trim_start (c ∷ s) = let rest = trim_start s in if is_space c then rest else c ∷ s

unfoldable pub trim : Text → Text
unfolding trim_start
trim s = reverse (trim_start (reverse (trim_start s)))

-- Numbers in decimal: `Number(text)` on a text of digits, and `String(n)`.
unfoldable pub value_from : ℕ → Text → ℕ
value_from acc [] = acc
value_from acc (c ∷ s) = value_from (acc * 10 + (c - 48)) s

unfoldable pub decimal_from : ℕ → ℕ → Text
decimal_from zero n = []
decimal_from (suc f) n =
    let front = decimal_from f (n / 10) in
    if ltb n 10 then (48 + n) ∷ [] else front ++ (48 + n % 10) ∷ []

-- A number has at most as many digits as its successor has units, so this fuel is enough.
unfoldable pub decimal : ℕ → Text
unfolding decimal_from
decimal n = decimal_from (suc n) n

unfoldable pub value_of : Text → ℕ
unfolding value_from
value_of s = value_from 0 s

value_from-append :
    (acc : ℕ) (s : Text) (c : ℕ) → value_from acc (s ++ c ∷ []) ≡ value_from acc s * 10 + (c - 48)
unfolding value_from
value_from-append acc [] c = refl
value_from-append acc (d ∷ s) c = value_from-append (acc * 10 + (d - 48)) s c

value_of-decimal_from : (f n : ℕ) → n < f → value_from 0 (decimal_from f n) ≡ n
unfolding decimal_from
value_of-decimal_from zero n h = absurd (omega arith)
value_of-decimal_from (suc f) n h = elim (Bool-cases (ltb n 10)) [
  | inl t ↦ rw t (unfold value_from in omega arith)
  | inr e ↦ rw e (
      rw (value_from-append 0 (decimal_from f (n / 10)) (48 + n % 10))
        (ground (arith, value_of-decimal_from f (n / 10))))
]

pub value_of-decimal : (n : ℕ) → value_of (decimal n) ≡ n
unfolding value_of decimal
value_of-decimal n = value_of-decimal_from (suc n) n (omega arith)

every_append :
    (s t : Text)
    → every is_digit s ≡ true
    → every is_digit t ≡ true
    → every is_digit (s ++ t) ≡ true
every_append [] t h k = k
every_append (c ∷ s) t h k = ground (arith, every_append s t)

decimal_from-digits : (f n : ℕ) → every is_digit (decimal_from f n) ≡ true
unfolding decimal_from
decimal_from-digits zero n = refl
decimal_from-digits (suc f) n = elim (Bool-cases (ltb n 10)) [
  | inl t ↦ rw t (ground arith)
  | inr e ↦
      rw e
        (every_append (decimal_from f (n / 10)) _ (decimal_from-digits f (n / 10)) (ground arith))
]

pub every-decimal : (n : ℕ) → every is_digit (decimal n) ≡ true
unfolding decimal
every-decimal n = decimal_from-digits (suc n) n

is_empty-append : (s : Text) (c : ℕ) → is_empty (s ++ c ∷ []) ≡ false
is_empty-append [] c = refl
is_empty-append (d ∷ s) c = refl

pub is_empty-decimal : (n : ℕ) → is_empty (decimal n) ≡ false
unfolding decimal
is_empty-decimal n = elim (Bool-cases (ltb n 10)) [
  | inl t ↦ rw t
  | inr e ↦ rw e (is_empty-append (decimal_from n (n / 10)) _)
]

pow_div : (n k : ℕ) → n < 10 ^ suc k → n / 10 < 10 ^ k
pow_div n k h = let e : 10 ^ suc k ≡ 10 ^ k * 10 = pow-suc 10 k in omega (arith, e)

length-decimal_from : (k f n : ℕ) → n < 10 ^ k → 0 < k → length (decimal_from f n) ≤ k
unfolding decimal_from
length-decimal_from k zero n h p = omega arith
length-decimal_from zero (suc f) n h p = absurd (omega arith)
length-decimal_from (suc zero) (suc f) n h p = elim (Bool-cases (ltb n 10)) [
  | inl t ↦ rw t (omega arith)
  | inr e ↦ absurd (ground arith)
]
length-decimal_from (suc (suc k)) (suc f) n h p = elim (Bool-cases (ltb n 10)) [
  | inl t ↦ rw t (omega arith)
  | inr e ↦ rw e (
      omega (
        arith,
        length-append (decimal_from f (n / 10)) ((48 + n % 10) ∷ []),
        length-decimal_from (suc k) f (n / 10) (pow_div n (suc k) h) (omega arith),
      ))
]

-- A number below 10^k has at most k digits.
pub length-decimal : (k n : ℕ) → n < 10 ^ k → 0 < k → length (decimal n) ≤ k
unfolding decimal
length-decimal k n = length-decimal_from k (suc n) n
