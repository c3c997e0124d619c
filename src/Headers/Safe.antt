-- ===== src/Headers/Safe.antt =====
-- That the header of a download holds printable ASCII only.
use reeva.Prelude.{
  ℕ, ◌≤◌, ◌<◌, ◌≡◌, refl, ap, ◌∙◌, Bool, true, false, Option, none, some, List, [], ◌∷◌, ◌++◌, Text,
  lit, arith, ltb, if◌then◌else◌, length, All, All-append, Bool-cases, inl, inr, suc,
}
use reeva.Artifacts.{is_safe_unit}
use reeva.Headers.{
  percent, is_unreserved, percents, bytes_of, encode_points, encoded, points_from,
  encode_uri_component, is_unquotable, fallback, safe_file_name, is_marked, escape_marks, header,
  attachment_disposition, waiting, put_point, pair_point, is_high, is_low, is_control,
}

abbrev pub IsPrintable : Text → Type 0
IsPrintable = All (λ c. (0x20 ≤ c) × (c ≤ 0x7e))

-- Every unit of the quoted name stands for itself inside the quotes.
abbrev pub IsQuotable : Text → Type 0
IsQuotable = All (λ c. is_unquotable c ≡ false)

IsPrintable-append : (s t : Text) → IsPrintable s → IsPrintable t → IsPrintable (s ++ t)
IsPrintable-append = All-append _

abbrev AreBytes : List ℕ → Type 0
AreBytes = All (λ b. b < 256)

percent-IsPrintable : (b : ℕ) → b < 256 → IsPrintable (percent b)
percent-IsPrintable b h =
    ((omega arith, omega arith), ((ground arith, ground arith), ((ground arith, ground arith), tt)))

percents-IsPrintable : (bs : List ℕ) → AreBytes bs → IsPrintable (percents bs)
unfolding percents
percents-IsPrintable [] h = tt
percents-IsPrintable (b ∷ bs) (h, hs) =
    IsPrintable-append (percent b) (percents bs) (percent-IsPrintable b h)
      (percents-IsPrintable bs hs)

bytes_of-AreBytes : (p : ℕ) → p < 0x110000 → AreBytes (bytes_of p)
unfolding bytes_of
bytes_of-AreBytes p h = elim (Bool-cases (ltb p 0x80)) [
  | inl t ↦ rw t (ground arith, tt)
  | inr f ↦ elim (Bool-cases (ltb p 0x800)) [
    | inl t ↦ rw (f, t) (ground arith, (ground arith, tt))
    | inr g ↦ elim (Bool-cases (ltb p 0x10000)) [
      | inl t ↦ rw (f, g, t) (ground arith, (ground arith, (ground arith, tt)))
      | inr k ↦ rw (f, g, k) (ground arith, (ground arith, (ground arith, (ground arith, tt))))
    ]
  ]
]

encode_points-IsPrintable :
    (ps : List ℕ) → All (λ p. p < 0x110000) ps → IsPrintable (encode_points ps)
unfolding encode_points
encode_points-IsPrintable [] h = tt
encode_points-IsPrintable (p ∷ ps) (h, hs) =
    IsPrintable-append _ (encode_points ps) (unit-IsPrintable p h (is_unreserved p) refl)
      (encode_points-IsPrintable ps hs)
  where
    unit-IsPrintable :
        (p : ℕ)
        → p < 0x110000
        → (b : Bool) → is_unreserved p ≡ b
        → IsPrintable (if b then p ∷ [] else percents (bytes_of p))
    unit-IsPrintable p h true t = ((ground arith, ground arith), tt)
    unit-IsPrintable p h false f = percents-IsPrintable (bytes_of p) (bytes_of-AreBytes p h)

-- The code points of UTF-16 text
abbrev pub AreUnits : Text → Type 0
AreUnits = All (λ c. c < 0x10000)

abbrev ArePoints : Option (List ℕ) → Type 0
ArePoints none = Unit
ArePoints (some ps) = All (λ p. p < 0x110000) ps

put_point-ArePoints :
    (p : ℕ) (o : Option (List ℕ)) → p < 0x110000 → ArePoints o → ArePoints (put_point p o)
put_point-ArePoints p none h k = tt
put_point-ArePoints p (some ps) h k = (h, k)

abbrev IsWaiting : Option ℕ → Type 0
IsWaiting none = Unit
IsWaiting (some h) = is_high h ≡ true

waiting-IsWaiting : (c : ℕ) → IsWaiting (waiting c)
waiting-IsWaiting c = elim (Bool-cases (is_high c)) [ inl t ↦ rw t t | inr f ↦ rw f tt ]

points_from-ArePoints :
    (o : Option ℕ) (s : Text) → IsWaiting o → AreUnits s → ArePoints (points_from o s)
unfolding points_from
points_from-ArePoints none [] w h = tt
points_from-ArePoints (some high) [] w h = tt
points_from-ArePoints none (c ∷ s) w (h, hs) =
    let ih = points_from-ArePoints (waiting c) s (waiting-IsWaiting c) hs in
    elim (Bool-cases (is_high c)) [
      | inl t ↦ rw t (rw t at ih)
      | inr f ↦ elim (Bool-cases (is_low c)) [
        | inl t ↦ rw (f, t) tt
        | inr g ↦ rw (f, g) (put_point-ArePoints c _ (omega arith) (rw f at ih))
      ]
    ]
points_from-ArePoints (some high) (c ∷ s) w (h, hs) =
    let ih = points_from-ArePoints none s tt hs in
    elim (Bool-cases (is_low c)) [
      | inl t ↦ rw t (put_point-ArePoints (pair_point high c) _ (ground arith) ih)
      | inr f ↦ rw f tt
    ]

escape_marks-IsPrintable : (s : Text) → IsPrintable s → IsPrintable (escape_marks s)
unfolding escape_marks
escape_marks-IsPrintable [] h = tt
escape_marks-IsPrintable (c ∷ s) ((p, q), hs) =
    IsPrintable-append _ (escape_marks s)
      (elim (Bool-cases (is_marked c)) [
        | inl t ↦ rw t (percent-IsPrintable c (omega arith))
        | inr f ↦ rw f ((p, q), tt)
      ])
      (escape_marks-IsPrintable s hs)

fallback-IsQuotable :
    (s : Text)
    → IsQuotable (fallback s) × IsPrintable (fallback s) × (length (fallback s) ≡ length s)
unfolding fallback
fallback-IsQuotable [] = (tt, tt, refl)
fallback-IsQuotable (c ∷ s) =
    let (p, q, r) = fallback-IsQuotable s in
    elim (Bool-cases (is_unquotable c)) [
      | inl t ↦ rw t ((refl, p), ((omega arith, omega arith), q), ap suc r)
      | inr f ↦ rw f ((f, p), ((ground arith, ground arith), q), ap suc r)
    ]

safe_file_name-AreUnits : (s : Text) → AreUnits s → AreUnits (safe_file_name s)
unfolding safe_file_name
safe_file_name-AreUnits [] h = tt
safe_file_name-AreUnits (c ∷ s) (h, hs) = (ground arith, safe_file_name-AreUnits s hs)

-- The header for a quoted name and an extended one
abbrev pub header_text : Text → Text → Text
header_text name extended =
    lit "attachment; filename=" ++ (34 ∷ name) ++ (34 ∷ lit "; filename*=UTF-8''") ++ extended

header-IsPrintable :
    (name extended : Text)
    → IsPrintable name
    → IsPrintable extended
    → IsPrintable (header_text name extended)
header-IsPrintable name extended p q =
    IsPrintable-append
      (lit "attachment; filename=" ++ (34 ∷ name) ++ (34 ∷ lit "; filename*=UTF-8''")) extended
      (IsPrintable-append (lit "attachment; filename=" ++ (34 ∷ name))
        (34 ∷ lit "; filename*=UTF-8''")
        (IsPrintable-append (lit "attachment; filename=") (34 ∷ name) (omega arith)
          ((omega arith, omega arith), p))
        (omega arith))
      q

header-parts :
    (name : Text) (o : Option (List ℕ)) (h : Text)
    → ArePoints o
    → header name (encoded o) ≡ some h
    → (extended : Text) × IsPrintable extended × (h ≡ header_text name extended)
header-parts name none h k e = cc
header-parts name (some ps) h k e = (
  escape_marks (encode_points ps),
  escape_marks-IsPrintable _ (encode_points-IsPrintable ps k),
  cc,
)

length-safe_file_name : (s : Text) → length (safe_file_name s) ≡ length s
unfolding safe_file_name
length-safe_file_name [] = refl
length-safe_file_name (c ∷ s) = ap suc (length-safe_file_name s)

-- The header of a download of whatever UTF-16 name holds printable ASCII only, where it is made at
-- all: no control character, no line break. The name between the quotes is as long as the given
-- one and holds no quote, backslash or semicolon.
pub attachment_disposition-IsPrintable :
    (file_name h : Text)
    → AreUnits file_name
    → attachment_disposition file_name ≡ some h
    → IsPrintable h
      × ((quoted extended : Text) × (h ≡ header_text quoted extended)
          × IsQuotable quoted
          × (length quoted ≡ length file_name))
unfolding attachment_disposition encode_uri_component
attachment_disposition-IsPrintable file_name h u e =
    let safe = safe_file_name file_name in
    let (q, p, n) = fallback-IsQuotable safe in
    let (extended, x, k) =
      header-parts (fallback safe) (points_from none safe) h
        (points_from-ArePoints none safe tt (safe_file_name-AreUnits file_name u)) e in
    (
      rw k (header-IsPrintable (fallback safe) extended p x),
      (fallback safe, extended, k, q, n ∙ length-safe_file_name file_name),
    )

abbrev pub is_plain : ℕ → Bool
is_plain = is_safe_unit

-- Names of safe units stand in the header as they are.
plain-points : (s : Text) → All (λ c. is_plain c ≡ true) s → points_from none s ≡ some s
unfolding points_from
plain-points [] h = refl
plain-points (c ∷ s) (h, hs) = ground (arith, plain-points s hs)

plain-encode : (s : Text) → All (λ c. is_plain c ≡ true) s → encode_points s ≡ s
unfolding encode_points
plain-encode [] h = refl
plain-encode (c ∷ s) (h, hs) =
    let u : is_unreserved c ≡ true = ground arith in rw u (ap (◌∷◌ c) (plain-encode s hs))

plain-marks : (s : Text) → All (λ c. is_plain c ≡ true) s → escape_marks s ≡ s
unfolding escape_marks
plain-marks [] h = refl
plain-marks (c ∷ s) (h, hs) =
    let u : is_marked c ≡ false = ground arith in rw u (ap (◌∷◌ c) (plain-marks s hs))

plain-safe : (s : Text) → All (λ c. is_plain c ≡ true) s → safe_file_name s ≡ s
unfolding safe_file_name
plain-safe [] h = refl
plain-safe (c ∷ s) (h, hs) =
    let u : is_control c ≡ false = ground arith in rw u (ap (◌∷◌ c) (plain-safe s hs))

plain-fallback : (s : Text) → All (λ c. is_plain c ≡ true) s → fallback s ≡ s
unfolding fallback
plain-fallback [] h = refl
plain-fallback (c ∷ s) (h, hs) =
    let u : is_unquotable c ≡ false = ground arith in rw u (ap (◌∷◌ c) (plain-fallback s hs))

pub attachment_disposition_plain :
    (s : Text) → All (λ c. is_plain c ≡ true) s → attachment_disposition s ≡ some (header_text s s)
unfolding attachment_disposition encode_uri_component
attachment_disposition_plain s h =
    rw (plain-safe s h, plain-points s h, plain-encode s h, plain-marks s h, plain-fallback s h)
      refl
