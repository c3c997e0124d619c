-- ===== src/Versions/Filter.antt =====
-- `parseSemverFilter` of app/services/version_service.ts: the filter text of the version list.
use reeva.Prelude.{
  ℕ, ◌+◌, ◌*◌, ◌≤◌, ◌<◌, ◌≡◌, ◌↔◌, Bool, true, false, not, ◌&&◌, ◌||◌, Option, none, some, [], ◌∷◌,
  Text, arith, trim_start, leb, ltb, ◌==◌, if◌then◌else◌, is_empty, is_digit, length, trim,
  value_of,
}
use reeva.Model.{Version}
use reeva.Input.{max_safe}

pub data Operator : Type 0 where
  ge gt le lt eq : Operator

-- One unit of the pattern
unfoldable pub eat : ℕ → Text → Option Text
eat d [] = none
eat d (c ∷ s) = if c == d then some s else none

unfoldable pub with_equals : Operator → Operator → Text → Option Text → Operator × Text
with_equals long short rest none = (short, rest)
with_equals long short rest (some after) = (long, after)

unfoldable pub equality : Text → Option Text → Operator × Text
equality s none = (eq, s)
equality s (some after) = (eq, after)

-- `([<>]=?|==)?`, and the `'=='` that a missing operator stands for
unfoldable pub read_operator : Text → Operator × Text
read_operator s = elim (eat b'>' s) [
  | some rest ↦ with_equals ge gt rest (eat b'=' rest)
  | none ↦ elim (eat b'<' s) [
    | some rest ↦ with_equals le lt rest (eat b'=' rest)
    | none ↦ elim (eat b'=' s) [ some rest ↦ equality s (eat b'=' rest) | none ↦ (eq, s) ]
  ]
]

-- `\d+`, greedy: the digits and what follows
unfoldable pub read_digits : Text → Text × Text
read_digits [] = ([], [])
read_digits (c ∷ s) =
    let rest = read_digits s in if is_digit c then (c ∷ rest.0, rest.1) else ([], c ∷ s)

unfoldable pub part_of : Text → Text × Text → Option Text × Text
part_of s (digits, rest) = if is_empty digits then (none, s) else (some digits, rest)

-- `(?:\.(\d+))?`
unfoldable pub read_part : Text → Option Text × Text
read_part s = elim (eat b'.' s) [ none ↦ (none, s) | some rest ↦ part_of s (read_digits rest) ]

-- The groups of a match
pub record Groups : Type 0 where
  pub operator : Operator
  pub major : Text
  pub minor : Option Text
  pub patch : Option Text
  pub wildcard : Bool

-- `(\*)?$`
unfoldable pub ends : Operator → Text → Option Text → Option Text → Text → Option Groups
ends o a b c [] = some (record { operator = o; major = a; minor = b; patch = c; wildcard = false })
ends o a b c (d ∷ s) =
    if d == b'*' && is_empty s
    then some (record { operator = o; major = a; minor = b; patch = c; wildcard = true })
    else none

-- The groups after the operator and the white space
unfoldable pub numbers : Operator → Text × Text → Option Groups
numbers o (digits, rest) =
    let minor = read_part rest in
    let patch = read_part minor.1 in
    if is_empty digits then none else ends o digits minor.0 patch.0 patch.1

-- `input.trim().match(semverRegex)`, after the trim. No backtracking of the regular expression
-- changes the result: a `.` without digits can only fail.
unfoldable pub match_filter : Text → Option Groups
match_filter s = numbers (read_operator s).0 (read_digits (trim_start (read_operator s).1))

-- What the query compares with: the three numbers, or only those that a wildcard gives.
pub data Condition : Type 0 where
  compared : Operator → ℕ → ℕ → ℕ → Condition
  prefixed : ℕ → Option ℕ → Condition

abbrev pub too_long : Option Text → Bool
too_long none = false
too_long (some s) = ltb 9 (length s)

abbrev pub number_of : Option Text → ℕ
number_of none = 0
number_of (some s) = value_of s

unfoldable pub is_eq : Operator → Bool
is_eq eq = true
is_eq _ = false

-- The checks on the groups, and the wildcard's case
unfoldable pub condition : Groups → Option Condition
unfolding is_eq
condition g =
    if too_long (some g.major)
      || too_long g.minor
      || too_long g.patch
      || not (
          leb (value_of g.major) max_safe
          && leb (number_of g.minor) max_safe
          && leb (number_of g.patch) max_safe)
      || (g.wildcard && not (is_eq g.operator))
    then none
    else if g.wildcard
    then some
        (prefixed (value_of g.major) (elim g.minor [ none ↦ none | some b ↦ some (value_of b) ]))
    else some (compared g.operator (value_of g.major) (number_of g.minor) (number_of g.patch))

-- `parseSemverFilter` up to the query; `none` is its error
unfoldable pub parse_semver_filter : Text → Option Condition
parse_semver_filter s = elim (match_filter (trim s)) [ none ↦ none | some g ↦ condition g ]

-- The `where` clauses that the query gets
unfoldable pub selects : Condition → Version → Bool
selects (prefixed a none) v = v.major == a
selects (prefixed a (some b)) v = v.major == a && v.minor == b
selects (compared ge a b c) v =
    ltb a v.major
    || (v.major == a && ltb b v.minor)
    || (v.major == a && v.minor == b && leb c v.patch)
selects (compared gt a b c) v =
    ltb a v.major
    || (v.major == a && ltb b v.minor)
    || (v.major == a && v.minor == b && ltb c v.patch)
selects (compared le a b c) v =
    ltb v.major a
    || (v.major == a && ltb v.minor b)
    || (v.major == a && v.minor == b && leb v.patch c)
selects (compared lt a b c) v =
    ltb v.major a
    || (v.major == a && ltb v.minor b)
    || (v.major == a && v.minor == b && ltb v.patch c)
selects (compared eq a b c) v = v.major == a && v.minor == b && v.patch == c

-- A version number as one number, in base 10^9: the order of the ranks is the order of the numbers
-- whose minor and patch parts have at most nine digits.
abbrev pub rank : ℕ → ℕ → ℕ → ℕ
rank a b c = (a * 1000000000 + b) * 1000000000 + c

abbrev pub Compares : Operator → ℕ → ℕ → Type 0
Compares ge n m = n ≤ m
Compares gt n m = n < m
Compares le n m = m ≤ n
Compares lt n m = m < n
Compares eq n m = n ≡ m

-- A comparison filter selects exactly the versions whose number stands in that relation to the
-- filter's, in the order of version numbers, where minor and patch have at most nine digits.
pub selects-Compares :
    (o : Operator) (a b c : ℕ) (v : Version)
    → b < 1000000000
    → c < 1000000000
    → v.minor < 1000000000
    → v.patch < 1000000000
    → (selects (compared o a b c) v ≡ true) ↔ Compares o (rank a b c) (rank v.major v.minor v.patch)
unfolding selects
selects-Compares ge a b c v p q r s = ground arith
selects-Compares gt a b c v p q r s = ground arith
selects-Compares le a b c v p q r s = ground arith
selects-Compares lt a b c v p q r s = ground arith
selects-Compares eq a b c v p q r s = ground arith
