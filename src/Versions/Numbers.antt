-- ===== src/Versions/Numbers.antt =====
-- That the live versions of a product have different numbers, whatever the version form does.
use reeva.Prelude.{
  ℕ, ◌≡◌, ◌≢◌, ◌⊎◌, refl, sym, ◌∙◌, ap, Bool, true, false, Option, none, some, List, [], ◌∷◌, Memᴰ,
  arith, ==_refl, ◌==◌, is_none, is_none→eq, find, find-none, All-mem, if◌then◌else◌, inl, inr, ok,
  or_fail-eq-ok, require-eq-ok, require_ok, >>=-eq-ok, ok-injective,
}
use reeva.Model.{Uuid, Software, Version, Catalog}
use reeva.Versions.{
  not_found, duplicate, invalid_number, software_required, software_not_found, inactive_software,
  Formats, VersionForm, Parts, parse_version_parts, parse_codename, parse_changelog,
  parse_release_date, or_else, number_text, has_number, check_duplicate, find_version, save,
  create_version, store_version, update_version,
}

abbrev pub SameNumber : Version → Version → Type 0
SameNumber v w =
    (v.software_id ≡ w.software_id)
    × (v.major ≡ w.major)
    × (v.minor ≡ w.minor)
    × (v.patch ≡ w.patch)

-- Two live rows of one product with the same number are one row.
abbrev pub IsUnique : List Version → Type 0
IsUnique vs =
    (v w : Version)
    → Memᴰ v vs
    → Memᴰ w vs
    → v.deleted_at ≡ none
    → w.deleted_at ≡ none
    → SameNumber v w
    → v.id ≡ w.id

-- No other live row has the number of `v`.
abbrev pub IsFree : Version → List Version → Type 0
IsFree v vs = (w : Version) → Memᴰ w vs → w.id ≢ v.id → w.deleted_at ≡ none → SameNumber v w → ⊥

save_step :
    (v x : Version) (vs : List Version) {w : Version} (b : Bool)
    → (x.id == v.id) ≡ b
    → (Memᴰ w (save v vs) → (w ≡ v) ⊎ (Memᴰ w vs × (w.id ≢ v.id)))
    → Memᴰ w ((if b then v else x) ∷ save v vs)
    → (w ≡ v) ⊎ (Memᴰ w (x ∷ vs) × (w.id ≢ v.id))
save_step v x vs true t ih (Memᴰ.head e) = inl e
save_step v x vs false f ih (Memᴰ.head e) = inr (
  Memᴰ.head e,
  λ i. cc (f, ==_refl v.id, ap (λ n. n == v.id) (ap (λ (y : Version). y.id) (sym e) ∙ i)),
)
save_step v x vs b f ih (Memᴰ.tail m) = elim (ih m) [
  | inl e ↦ inl e
  | inr (k, n) ↦ inr (Memᴰ.tail k, n)
]

mem-save :
    (v : Version) (vs : List Version) {w : Version}
    → Memᴰ w (save v vs)
    → (w ≡ v) ⊎ (Memᴰ w vs × (w.id ≢ v.id))
unfolding save
mem-save v [] m = elim m [ ]
mem-save v (x ∷ vs) m = save_step v x vs (x.id == v.id) refl (mem-save v vs) m

-- Saving a row whose number is free keeps the numbers apart.
pub save-IsUnique :
    (v : Version) (vs : List Version)
    → (v.deleted_at ≡ none → IsFree v vs)
    → IsUnique vs
    → IsUnique (save v vs)
save-IsUnique v vs free k x y mx my lx ly s = elim (mem-save v vs mx) [
  | inl ex ↦ elim (mem-save v vs my) [
    | inl ey ↦ ap (λ (z : Version). z.id) (ex ∙ sym ey)
    | inr (m, n) ↦
        absurd (free (sym (ap (λ (z : Version). z.deleted_at) ex) ∙ lx) y m n ly (rw ex at s))
  ]
  | inr (m, n) ↦ elim (mem-save v vs my) [
    | inl ey ↦ absurd (
        free (sym (ap (λ (z : Version). z.deleted_at) ey) ∙ ly) x m n lx
          (let (p, q, r, t) = s in cc, cc, cc, cc))
    | inr (m2, n2) ↦ k x y m m2 lx ly s
  ]
]

number_free :
    (p : Parts) (software : Uuid) (exclude : Option Uuid) (w : Version)
    → has_number p software exclude w ≡ false
    → w.deleted_at ≡ none
    → elim exclude [ none ↦ false | some id ↦ w.id == id ] ≡ false
    → w.software_id ≡ software
    → w.major ≡ p.major
    → w.minor ≡ p.minor
    → w.patch ≡ p.patch
    → ⊥
unfolding has_number
number_free p software exclude w f l n s a b c =
    let d : is_none w.deleted_at ≡ true = ap is_none l in ground arith

-- What `validateAndCheckDuplicate` establishes.
check_duplicate-IsFree :
    (formats : Formats) (vs : List Version) (p : Parts) (software : Uuid) (exclude : Option Uuid)
    → check_duplicate formats vs p software exclude ≡ ok tt
    → (w : Version) → Memᴰ w vs
    → w.deleted_at ≡ none
    → elim exclude [ none ↦ false | some id ↦ w.id == id ] ≡ false
    → w.software_id ≡ software
    → w.major ≡ p.major
    → w.minor ≡ p.minor
    → w.patch ≡ p.patch
    → ⊥
unfolding check_duplicate
check_duplicate-IsFree formats vs p software exclude h w m l n =
    let (t, h1) = require-eq-ok (formats.is_semver (number_text p)) invalid_number _ h in
    let e = is_none→eq (find (has_number p software exclude) vs) (require_ok _ duplicate h1) in
    number_free p software exclude w
      (All-mem _ vs (find-none (has_number p software exclude) vs e) m) l n

ne-test : (a b : ℕ) → a ≢ b → (a == b) ≡ false
ne-test a b n = ground arith

-- The row that a successful `createVersion` adds, and that its number is free.
pub created :
    (formats : Formats) (c d : Catalog) (fresh : Uuid) (form : VersionForm)
    → create_version formats c fresh form ≡ ok d
    → (v : Version) × (d.versions ≡ v ∷ c.versions)
      × (v.id ≡ fresh)
      × (v.deleted_at ≡ none)
      × IsFree v c.versions
unfolding create_version
created formats c d fresh form h =
    let (software, e1, h1) = or_fail-eq-ok form.software_id software_required _ h in
    let (s, e2, h2) =
      or_fail-eq-ok (find (λ (s : Software). s.id == software) c.software) software_not_found _
        h1 in
    let (t3, h3) = require-eq-ok s.is_active inactive_software _ h2 in
    let (p, e4, h4) = >>=-eq-ok (parse_version_parts form) _ h3 in
    let (u, e5, h5) = >>=-eq-ok (check_duplicate formats c.versions p s.id none) _ h4 in
    let (codename, e6, h6) = >>=-eq-ok (parse_codename form.codename) _ h5 in
    let (changelog, e7, h7) =
      >>=-eq-ok (parse_changelog (or_else form.changelogs form.changelog)) _ h6 in
    let (date, e8, h8) = >>=-eq-ok (parse_release_date formats form.release_date) _ h7 in
    (
      _,
      ap (λ (x : Catalog). x.versions) (sym (ok-injective h8)),
      refl,
      refl,
      λ w m n l q.
          let (i, j, k, r) = q in
          check_duplicate-IsFree formats c.versions p s.id none e5 w m l refl (sym i) (sym j)
            (sym k) (sym r),
    )

-- The row that a successful `updateVersion` saves.
pub updated :
    (formats : Formats) (c d : Catalog) (id : Uuid) (form : VersionForm)
    → update_version formats c id form ≡ ok d
    → (v w : Version) × (find_version c.versions id ≡ some v)
      × (d ≡ store_version c v w)
      × (w.id ≡ v.id)
      × (w.software_id ≡ v.software_id)
      × IsFree w c.versions
unfolding update_version
updated formats c d id form h =
    let (v, e1, h1) = or_fail-eq-ok (find_version c.versions id) not_found _ h in
    let (p, e4, h4) = >>=-eq-ok (parse_version_parts form) _ h1 in
    let (u, e5, h5) =
      >>=-eq-ok (check_duplicate formats c.versions p v.software_id (some v.id)) _ h4 in
    let (codename, e6, h6) = >>=-eq-ok (parse_codename form.codename) _ h5 in
    let (changelog, e7, h7) =
      >>=-eq-ok (parse_changelog (or_else form.changelogs form.changelog)) _ h6 in
    let (date, e8, h8) = >>=-eq-ok (parse_release_date formats form.release_date) _ h7 in
    (
      v,
      _,
      e1,
      sym (ok-injective h8),
      refl,
      refl,
      λ w m n l q.
          let (i, j, k, r) = q in
          check_duplicate-IsFree formats c.versions p v.software_id (some v.id) e5 w m l
            (ne-test w.id v.id n) (sym i) (sym j) (sym k) (sym r),
    )

pub store-versions :
    (c : Catalog) (v w : Version) → (store_version c v w).versions ≡ save w c.versions
unfolding store_version
store-versions c v w = ground arith
