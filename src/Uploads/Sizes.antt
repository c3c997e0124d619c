-- ===== src/Uploads/Sizes.antt =====
-- Sums over the rows of a table, for the usage of a storage provider.
use reeva.Prelude.{ℕ, ◌+◌, ◌≤◌, ◌≡◌, ap, Bool, true, List, [], ◌∷◌, Memᴰ, arith, remove}
use reeva.Uploads.Quota.{sum}

module _ {ℓ} {A : Type ℓ} (f : A → ℕ) (p : A → Bool) where
  pub sum-remove-le : (xs : List A) → sum f (remove p xs) ≤ sum f xs
  unfolding sum
  sum-remove-le [] = omega arith
  sum-remove-le (x ∷ xs) = ground (arith, sum-remove-le xs)

  -- A row that is removed leaves the sum.
  pub sum-remove-mem :
      (xs : List A) {a : A} → Memᴰ a xs → p a ≡ true → f a + sum f (remove p xs) ≤ sum f xs
  unfolding sum
  sum-remove-mem [] m t = elim m [ ]
  sum-remove-mem (x ∷ xs) {a = a} (Memᴰ.head e) t = ground (arith, sum-remove-le xs, ap p e, ap f e)
  sum-remove-mem (x ∷ xs) {a = a} (Memᴰ.tail m) t = ground (arith, sum-remove-mem xs m t)

pub sum_mono {ℓ} :
    {A : Type ℓ} (f g : A → ℕ) → ((a : A) → f a ≤ g a) → (xs : List A) → sum f xs ≤ sum g xs
unfolding sum
sum_mono f g h [] = omega arith
sum_mono f g h (x ∷ xs) = omega (arith, h x, sum_mono f g h xs)
