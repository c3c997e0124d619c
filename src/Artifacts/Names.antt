-- ===== src/Artifacts/Names.antt =====
-- File names of artifacts are safe in a header, a URL path and a file system.
use reeva.Prelude.{
  ℕ, ◌≤◌, ◌≡◌, refl, Bool, true, false, Option, none, some, [], ◌∷◌, ◌++◌, reverse, Text, arith,
  ◌==◌, every, take, is_digit, decimal, every-decimal, Bool-cases, inl, inr, if◌then◌else◌, All,
  All-append, All-take, length, length-take,
}
use mathlib.Core.List.{reverse_aux}
use reeva.Model.{Version}
use reeva.Artifacts.{
  is_safe_unit, replace_runs, strip_dashes, trim_dashes, or_release, safe_file_part,
  codename_suffix, build_file_name,
}

abbrev pub IsSafe : Text → Type 0
IsSafe = All (λ c. is_safe_unit c ≡ true)

dash_cons : (b : Bool) (s : Text) → IsSafe s → IsSafe (if b then s else b'-' ∷ s)
dash_cons true s h = h
dash_cons false s h = (refl, h)

replace_runs-IsSafe : (inside : Bool) (s : Text) → IsSafe (replace_runs inside s)
unfolding replace_runs
replace_runs-IsSafe inside [] = tt
replace_runs-IsSafe inside (c ∷ s) = elim (Bool-cases (is_safe_unit c)) [
  | inl t ↦ rw t (t, replace_runs-IsSafe false s)
  | inr f ↦ rw f (dash_cons inside _ (replace_runs-IsSafe true s))
]

pub strip_dashes-All {κ} : (P : ℕ → Type κ) (s : Text) → All P s → All P (strip_dashes s)
unfolding strip_dashes
strip_dashes-All P [] h = h
strip_dashes-All P (c ∷ s) (p, h) = elim (Bool-cases (c == b'-')) [
  | inl t ↦ rw t (strip_dashes-All P s h)
  | inr f ↦ rw f (p, h)
]

All-reverse_aux {κ} : (P : ℕ → Type κ) (s t : Text) → All P s → All P t → All P (reverse_aux s t)
All-reverse_aux P [] t h k = k
All-reverse_aux P (c ∷ s) t (p, h) k = All-reverse_aux P s (c ∷ t) h (p, k)

pub All-reverse {κ} : (P : ℕ → Type κ) (s : Text) → All P s → All P (reverse s)
All-reverse P s h = All-reverse_aux P s [] h tt

trim_dashes-IsSafe : (s : Text) → IsSafe s → IsSafe (trim_dashes s)
trim_dashes-IsSafe s h =
    let safe = λ (c : ℕ). is_safe_unit c ≡ true in
    All-reverse safe _ (strip_dashes-All safe _ (All-reverse safe _ (strip_dashes-All safe s h)))

or_release-IsSafe : (s : Text) → IsSafe s → IsSafe (or_release s)
or_release-IsSafe [] h = (refl, (refl, (refl, (refl, (refl, (refl, (refl, tt)))))))
or_release-IsSafe (c ∷ s) h = h

or_release-length :
    (s : Text) → length s ≤ 100 → (1 ≤ length (or_release s)) × (length (or_release s) ≤ 100)
or_release-length [] h = omega arith
or_release-length (c ∷ s) h = omega arith

-- Whatever the value, `safeFilePart` gives between 1 and 100 units, all of them letters, digits,
-- dots, underscores or dashes.
pub safe_file_part-IsSafe :
    (nfkd : Text → Text) (value : Text)
    → IsSafe (safe_file_part nfkd value)
      × (1 ≤ length (safe_file_part nfkd value))
      × (length (safe_file_part nfkd value) ≤ 100)
unfolding safe_file_part
safe_file_part-IsSafe nfkd value =
    let part = trim_dashes (replace_runs false (nfkd value)) in
    let safe =
      or_release-IsSafe (take 100 part)
        (All-take _ 100 part (trim_dashes-IsSafe _ (replace_runs-IsSafe false (nfkd value)))) in
    let (low, high) = or_release-length (take 100 part) (omega (arith, length-take 100 part)) in
    (safe, low, high)

digits-IsSafe : (s : Text) → every is_digit s ≡ true → IsSafe s
digits-IsSafe [] h = tt
digits-IsSafe (c ∷ s) h = (ground arith, digits-IsSafe s (ground arith))

decimal-IsSafe : (n : ℕ) → IsSafe (decimal n)
decimal-IsSafe n = digits-IsSafe (decimal n) (every-decimal n)

suffix-IsSafe : (nfkd : Text → Text) (o : Option Text) → IsSafe (codename_suffix nfkd o)
suffix-IsSafe nfkd none = tt
suffix-IsSafe nfkd (some []) = tt
suffix-IsSafe nfkd (some (c ∷ s)) = (refl, (safe_file_part-IsSafe nfkd (c ∷ s)).0)

append-IsSafe : (s t : Text) → IsSafe s → IsSafe t → IsSafe (s ++ t)
append-IsSafe s t = All-append (λ c. is_safe_unit c ≡ true) s t

-- The name that `buildFileName` gives to an artifact consists of letters, digits, dots, underscores
-- and dashes only, whatever the product, the platform, the architecture, the version and the
-- extension are called.
pub build_file_name-IsSafe :
    (nfkd : Text → Text) (software platform architecture : Text) (v : Version) (extension : Text)
    → IsSafe (build_file_name nfkd software platform architecture v extension)
unfolding build_file_name
build_file_name-IsSafe nfkd software platform architecture v extension =
    append-IsSafe _ _ ((safe_file_part-IsSafe nfkd software).0) (
      refl,
      append-IsSafe _ _ ((safe_file_part-IsSafe nfkd platform).0) (
        refl,
        append-IsSafe _ _ ((safe_file_part-IsSafe nfkd architecture).0) (
          refl,
          (
            refl,
            append-IsSafe _ _ (decimal-IsSafe v.major) (
              refl,
              append-IsSafe _ _ (decimal-IsSafe v.minor) (
                refl,
                append-IsSafe _ _ (decimal-IsSafe v.patch) (
                    append-IsSafe _ _ (suffix-IsSafe nfkd v.codename)
                      (refl, (safe_file_part-IsSafe nfkd extension).0)),
              ),
            ),
          ),
        ),
      ),
    )
