-- ===== src/Storage/Trim.antt =====
-- That trimming a text a second time changes nothing.
use reeva.Prelude.{
  ◌≡◌, refl, sym, ap, ◌∙◌, Bool, true, false, not, [], ◌∷◌, ◌++◌, reverse, Text, is_space, trim,
  trim_start, Bool-cases, inl, inr,
}
use mathlib.Core.List.{reverse-append, reverse-reverse}

-- A text that does not begin with white space
abbrev starts_solid : Text → Bool
starts_solid [] = true
starts_solid (c ∷ s) = not (is_space c)

trim_start_solid : (s : Text) → starts_solid (trim_start s) ≡ true
unfolding trim_start
trim_start_solid [] = refl
trim_start_solid (c ∷ s) = elim (Bool-cases (is_space c)) [
  | inl t ↦ rw t (trim_start_solid s)
  | inr f ↦ rw f (rw f refl)
]

trim_start_same : (s : Text) → starts_solid s ≡ true → trim_start s ≡ s
unfolding trim_start
trim_start_same [] h = refl
trim_start_same (c ∷ s) h = rw (not-true (is_space c) h) refl
  where
    not-true : (b : Bool) → not b ≡ true → b ≡ false
    not-true true k = cc
    not-true false k = refl

-- What `trim_start` cuts off stands before the rest.
trim_start_suffix : (s : Text) → (cut : Text) × (cut ++ trim_start s ≡ s)
unfolding trim_start
trim_start_suffix [] = ([], refl)
trim_start_suffix (c ∷ s) = elim (Bool-cases (is_space c)) [
  | inl t ↦ let (cut, e) = trim_start_suffix s in (c ∷ cut, rw t (ap (◌∷◌ c) e))
  | inr f ↦ ([], rw f refl)
]

prefix_solid : (s t : Text) → starts_solid (s ++ t) ≡ true → starts_solid s ≡ true
prefix_solid [] t h = refl
prefix_solid (c ∷ s) t h = h

cut_end_solid :
    (s : Text) → starts_solid s ≡ true → starts_solid (reverse (trim_start (reverse s))) ≡ true
cut_end_solid s h =
    let (cut, e) = trim_start_suffix (reverse s) in
    let whole : reverse (trim_start (reverse s)) ++ reverse cut ≡ s =
      sym (reverse-append cut (trim_start (reverse s))) ∙ ap reverse e ∙ reverse-reverse s in
    prefix_solid (reverse (trim_start (reverse s))) (reverse cut) (rw whole h)

pub trim-trim : (s : Text) → trim (trim s) ≡ trim s
unfolding trim
trim-trim s =
    let kept : trim_start (reverse (trim_start (reverse (trim_start s))))
        ≡ reverse (trim_start (reverse (trim_start s))) =
      trim_start_same _ (cut_end_solid (trim_start s) (trim_start_solid s)) in
    rw
      (
        kept,
        reverse-reverse (trim_start (reverse (trim_start s))),
        trim_start_same _ (trim_start_solid (reverse (trim_start s))),
      )
      refl
