-- ===== src/Updater/Paging.antt =====
-- The pages of `getReleases`: they hold only offered releases, and together every one of them.
use reeva.Prelude.{
  ok-injective, ℕ, zero, suc, ◌+◌, ◌-◌, ◌*◌, ◌/◌, ◌≤◌, ◌<◌, ◌≡◌, refl, ap, ◌∙◌, Option, List, [],
  ◌∷◌, ◌++◌, Text, arith, All, All-take, All-drop, All_of_mem, length, length-take, take, drop, ok,
  or_fail-eq-ok, >>=-eq-ok,
}
use reeva.Model.{Catalog}
use reeva.Release.{Candidate}
use reeva.Updater.{
  unsupported_plain, Sorting, Page, page_of, targeted, resolve_software, find_platform,
  find_architecture, get_releases,
}
use reeva.Updater.Newest.{IsOffered, Names, mem-targeted}

-- The first `k` pages, one after the other
pub pages : List Candidate → ℕ → ℕ → List Candidate
pages rows limit zero = []
pages rows limit (suc k) = pages rows limit k ++ (page_of rows limit (suc k)).results

module _ {ℓ} {A : Type ℓ} where
  take-nil : (n : ℕ) → take {A = A} n [] ≡ []
  take-nil zero = refl
  take-nil (suc n) = refl

  take-add : (m n : ℕ) (xs : List A) → take m xs ++ take n (drop m xs) ≡ take (m + n) xs
  take-add zero n xs = let e : zero + n ≡ n = omega arith in rw e
  take-add (suc m) n [] = let e : suc m + n ≡ suc (m + n) = omega arith in rw e (take-nil n)
  take-add (suc m) n (x ∷ xs) =
      let e : suc m + n ≡ suc (m + n) = omega arith in rw e (ap (◌∷◌ x) (take-add m n xs))

  take_all : (n : ℕ) (xs : List A) → length xs ≤ n → take n xs ≡ xs
  take_all zero [] h = refl
  take_all zero (x ∷ xs) h = absurd (omega arith)
  take_all (suc n) [] h = refl
  take_all (suc n) (x ∷ xs) h = ap (◌∷◌ x) (take_all n xs (omega arith))

pages-eq-take : (rows : List Candidate) (limit k : ℕ) → pages rows limit k ≡ take (k * limit) rows
unfolding pages page_of
pages-eq-take rows limit zero = let e : zero * limit ≡ zero = omega arith in rw e
pages-eq-take rows limit (suc k) =
    let e : (suc k - 1) * limit ≡ k * limit = ap (λ (m : ℕ). m * limit) (omega arith) in
    let f : k * limit + limit ≡ suc k * limit = grind arith in
    rw (pages-eq-take rows limit k, e) (take-add (k * limit) limit rows ∙ ap (λ m. take m rows) f)

total_pages_enough : (n limit : ℕ) → 0 < limit → n ≤ ((n + (limit - 1)) / limit) * limit
total_pages_enough n limit h = grind arith

-- With a positive limit, the pages from the first to the last that `pagination.totalPages`
-- announces hold all the rows, each where the database's order has it, and no page is longer than
-- the limit.
pub pages-eq-rows :
    (rows : List Candidate) (limit page : ℕ)
    → 0 < limit
    → (pages rows limit (page_of rows limit page).total_pages ≡ rows)
      × (length (page_of rows limit page).results ≤ limit)
unfolding page_of
pages-eq-rows rows limit page h = (
  pages-eq-take rows limit _ ∙ take_all _ rows (total_pages_enough (length rows) limit h),
  omega (arith, length-take limit (drop ((page - 1) * limit) rows)),
)

page_of-All :
    (P : Candidate → Type 0) (rows : List Candidate) (limit page : ℕ) (p : Page)
    → All P rows
    → page_of rows limit page ≡ p
    → All P p.results × (p.total ≡ length rows)
unfolding page_of
page_of-All P rows limit page p h e =
    rw (← e) (All-take P limit _ (All-drop P ((page - 1) * limit) rows h), refl)

-- A page of `getReleases` holds releases only that are offered for the named product, platform,
-- architecture and channel, and its total counts the rows of all pages.
pub get_releases-IsOffered :
    (db : Sorting) (c : Catalog) (platform arch channel : Text) (limit page : ℕ)
    (slug : Option Text) (p : Page)
    → get_releases db c platform arch channel limit page slug ≡ ok p
    → (n : Names c platform arch slug) × All
        (IsOffered c n.software n.platform_row n.architecture_row channel)
        p.results
      × (p.total
          ≡ length (targeted c n.software.id n.platform_row.id n.architecture_row.id channel))
unfolding get_releases
get_releases-IsOffered db c platform arch channel limit page slug p h =
    let (s, es, h1) = >>=-eq-ok (resolve_software c slug) _ h in
    let (q, eq, h2) = or_fail-eq-ok (find_platform c platform) unsupported_plain _ h1 in
    let h3 = or_fail-eq-ok (find_architecture c arch) unsupported_plain _ h2 in
    let (r, er, _) = h3 in
    let rows = targeted c s.id q.id r.id channel in
    let offered =
      All_of_mem (IsOffered c s q r channel) (db.order_by rows)
        (λ x m. mem-targeted c s q r channel (db.keeps rows x m)) in
    let (all, total) =
      page_of-All (IsOffered c s q r channel) (db.order_by rows) limit page p offered
        (ok-injective h3.2) in
    (
      record {
        software = s;
        platform_row = q;
        architecture_row = r;
        resolves = es;
        platform_found = eq;
        architecture_found = er;
      },
      all,
      total ∙ db.same_length rows,
    )
