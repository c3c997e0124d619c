-- ===== src/Prelude/Table.antt =====
-- Tables of rows as lists, and the queries that the services make of them.
use Prim.Native.Nat.{suc, ◌≤◌, ◌<◌}
use mathlib.Core.Path.{◌≡◌, refl, ap, sym, ◌∙◌}
use mathlib.Core.Logic.{◌⊎◌, inl, inr}
use mathlib.Core.Bool.{Bool, true, false, ◌&&◌, ◌||◌}
use mathlib.Core.Option.{Option, none, some}
use mathlib.Core.List.{List, [], ◌∷◌, Memᴰ}
use native.Mathlib.Omega.{arith}
use reeva.Prelude.Tests.{if◌then◌else◌, Bool-cases}
use reeva.Prelude.Lists.{length, All}

module _ {ℓ} {A : Type ℓ} where
  -- `where(p)`
  abbrev pub select : (A → Bool) → List A → List A
  select p [] = []
  select p (x ∷ xs) = let rest = select p xs in if p x then x ∷ rest else rest

  -- `where(p).first()`
  abbrev pub find : (A → Bool) → List A → Option A
  find p [] = none
  find p (x ∷ xs) = let rest = find p xs in if p x then some x else rest

  -- `whereExists`, `some`
  abbrev pub exists : (A → Bool) → List A → Bool
  exists p [] = false
  exists p (x ∷ xs) = p x || exists p xs

  abbrev pub every : (A → Bool) → List A → Bool
  every p [] = true
  every p (x ∷ xs) = p x && every p xs

  -- `where(p).update(f)`
  abbrev pub update : (A → Bool) → (A → A) → List A → List A
  update p f [] = []
  update p f (x ∷ xs) = (if p x then f x else x) ∷ update p f xs

  -- `where(p).delete()`
  abbrev pub remove : (A → Bool) → List A → List A
  remove p [] = []
  remove p (x ∷ xs) = let rest = remove p xs in if p x then rest else x ∷ rest

  pub find-some :
      (p : A → Bool) (xs : List A) {a : A} → find p xs ≡ some a → Memᴰ a xs × (p a ≡ true)
  find-some p [] h = cc
  find-some p (x ∷ xs) {a} h = elim (Bool-cases (p x)) [
    | inl t ↦ let e : x ≡ a = ground arith in (Memᴰ.head (ground arith), ground arith)
    | inr f ↦ let (m, t) = find-some p xs {a = a} (ground arith) in (Memᴰ.tail m, t)
  ]

  pub find-none : (p : A → Bool) (xs : List A) → find p xs ≡ none → All (λ a. p a ≡ false) xs
  find-none p [] h = tt
  find-none p (x ∷ xs) h = (ground arith, find-none p xs (ground arith))

  pub find-none_of_All : (p : A → Bool) (xs : List A) → All (λ a. p a ≡ false) xs → find p xs ≡ none
  find-none_of_All p [] h = refl
  find-none_of_All p (x ∷ xs) (f, h) = ground (arith, find-none_of_All p xs h)

  pub All-mem {κ} : (P : A → Type κ) (xs : List A) {a : A} → All P xs → Memᴰ a xs → P a
  All-mem P [] h m = elim m [ ]
  All-mem P (x ∷ xs) (p, h) (Memᴰ.head e) = rw e p
  All-mem P (x ∷ xs) (p, h) (Memᴰ.tail m) = All-mem P xs h m

  pub All_of_mem {κ} : (P : A → Type κ) (xs : List A) → ((a : A) → Memᴰ a xs → P a) → All P xs
  All_of_mem P [] h = tt
  All_of_mem P (x ∷ xs) h = (h x (Memᴰ.head refl), All_of_mem P xs (λ a m. h a (Memᴰ.tail m)))

  select_step :
      (p : A → Bool) (x : A) (xs : List A) {a : A} (b : Bool)
      → p x ≡ b
      → (Memᴰ a (select p xs) → Memᴰ a xs × (p a ≡ true))
      → Memᴰ a (if b then x ∷ select p xs else select p xs)
      → Memᴰ a (x ∷ xs) × (p a ≡ true)
  select_step p x xs true t ih (Memᴰ.head e) = (Memᴰ.head e, rw e t)
  select_step p x xs true t ih (Memᴰ.tail m) = (Memᴰ.tail ((ih m).0), (ih m).1)
  select_step p x xs false f ih m = (Memᴰ.tail ((ih m).0), (ih m).1)

  pub mem-select :
      (p : A → Bool) (xs : List A) {a : A} → Memᴰ a (select p xs) → Memᴰ a xs × (p a ≡ true)
  mem-select p [] m = elim m [ ]
  mem-select p (x ∷ xs) m = select_step p x xs (p x) refl (mem-select p xs) m

  keep_step :
      (p : A → Bool) (x : A) (xs : List A) {a : A} (b : Bool)
      → p x ≡ b
      → (Memᴰ a xs → Memᴰ a (select p xs))
      → Memᴰ a (x ∷ xs)
      → p a ≡ true
      → Memᴰ a (if b then x ∷ select p xs else select p xs)
  keep_step p x xs true t ih (Memᴰ.head e) h = Memᴰ.head e
  keep_step p x xs true t ih (Memᴰ.tail m) h = Memᴰ.tail (ih m)
  keep_step p x xs false f ih (Memᴰ.head e) h = cc (ap p e)
  keep_step p x xs false f ih (Memᴰ.tail m) h = ih m

  pub mem-select_intro :
      (p : A → Bool) (xs : List A) {a : A} → Memᴰ a xs → p a ≡ true → Memᴰ a (select p xs)
  mem-select_intro p [] m h = elim m [ ]
  mem-select_intro p (x ∷ xs) m h = keep_step p x xs (p x) refl (λ n. mem-select_intro p xs n h) m h

  remove_step :
      (p : A → Bool) (x : A) (xs : List A) {a : A} (b : Bool)
      → p x ≡ b
      → (Memᴰ a (remove p xs) → Memᴰ a xs × (p a ≡ false))
      → Memᴰ a (if b then remove p xs else x ∷ remove p xs)
      → Memᴰ a (x ∷ xs) × (p a ≡ false)
  remove_step p x xs true t ih m = (Memᴰ.tail ((ih m).0), (ih m).1)
  remove_step p x xs false f ih (Memᴰ.head e) = (Memᴰ.head e, rw e f)
  remove_step p x xs false f ih (Memᴰ.tail m) = (Memᴰ.tail ((ih m).0), (ih m).1)

  pub mem-remove :
      (p : A → Bool) (xs : List A) {a : A} → Memᴰ a (remove p xs) → Memᴰ a xs × (p a ≡ false)
  mem-remove p [] m = elim m [ ]
  mem-remove p (x ∷ xs) m = remove_step p x xs (p x) refl (mem-remove p xs) m

  stay_step :
      (p : A → Bool) (x : A) (xs : List A) {a : A} (b : Bool)
      → p x ≡ b
      → (Memᴰ a xs → Memᴰ a (remove p xs))
      → Memᴰ a (x ∷ xs)
      → p a ≡ false
      → Memᴰ a (if b then remove p xs else x ∷ remove p xs)
  stay_step p x xs true t ih (Memᴰ.head e) h = cc (ap p e)
  stay_step p x xs true t ih (Memᴰ.tail m) h = ih m
  stay_step p x xs false f ih (Memᴰ.head e) h = Memᴰ.head e
  stay_step p x xs false f ih (Memᴰ.tail m) h = Memᴰ.tail (ih m)

  pub mem-remove_intro :
      (p : A → Bool) (xs : List A) {a : A} → Memᴰ a xs → p a ≡ false → Memᴰ a (remove p xs)
  mem-remove_intro p [] m h = elim m [ ]
  mem-remove_intro p (x ∷ xs) m h = stay_step p x xs (p x) refl (λ n. mem-remove_intro p xs n h) m h

  -- A row of an updated table is a row that was taken, changed, or one that was not.
  pub mem-update :
      (p : A → Bool) (f : A → A) (xs : List A) {a : A}
      → Memᴰ a (update p f xs)
      → (b : A) × Memᴰ b xs × (((p b ≡ true) × (a ≡ f b)) ⊎ ((p b ≡ false) × (a ≡ b)))
  mem-update p f [] m = elim m [ ]
  mem-update p f (x ∷ xs) (Memᴰ.head e) = elim (Bool-cases (p x)) [
    | inl t ↦ (x, Memᴰ.head refl, inl (t, rw t at e))
    | inr n ↦ (x, Memᴰ.head refl, inr (n, rw n at e))
  ]
  mem-update p f (x ∷ xs) (Memᴰ.tail m) = let (b, k, h) = mem-update p f xs m in (b, Memᴰ.tail k, h)

  pub mem-update_intro :
      (p : A → Bool) (f : A → A) (xs : List A) {a : A}
      → Memᴰ a xs
      → p a ≡ true
      → Memᴰ (f a) (update p f xs)
  mem-update_intro p f [] m t = elim m [ ]
  mem-update_intro p f (x ∷ xs) {a = a} (Memᴰ.head e) t =
      Memᴰ.head (ap f e ∙ sym (taken (p x) (ap p (sym e) ∙ t)))
    where
      taken : (b : Bool) → b ≡ true → (if b then f x else x) ≡ f x
      taken true h = refl
      taken false h = cc
  mem-update_intro p f (x ∷ xs) (Memᴰ.tail m) t = Memᴰ.tail (mem-update_intro p f xs m t)

  pub mem-update_keep :
      (p : A → Bool) (f : A → A) (xs : List A) {a : A}
      → Memᴰ a xs
      → p a ≡ false
      → Memᴰ a (update p f xs)
  mem-update_keep p f [] m t = elim m [ ]
  mem-update_keep p f (x ∷ xs) {a = a} (Memᴰ.head e) t =
      Memᴰ.head (e ∙ sym (left (p x) (ap p (sym e) ∙ t)))
    where
      left : (b : Bool) → b ≡ false → (if b then f x else x) ≡ x
      left true h = cc
      left false h = refl
  mem-update_keep p f (x ∷ xs) (Memᴰ.tail m) t = Memᴰ.tail (mem-update_keep p f xs m t)

  pub exists_of_mem :
      (p : A → Bool) (xs : List A) {a : A} → Memᴰ a xs → p a ≡ true → exists p xs ≡ true
  exists_of_mem p [] m h = elim m [ ]
  exists_of_mem p (x ∷ xs) (Memᴰ.head e) h = ground (arith, ap p e)
  exists_of_mem p (x ∷ xs) (Memᴰ.tail m) h = ground (arith, exists_of_mem p xs m h)

  pub mem_of_exists :
      (p : A → Bool) (xs : List A) → exists p xs ≡ true → (a : A) × Memᴰ a xs × (p a ≡ true)
  mem_of_exists p [] h = cc
  mem_of_exists p (x ∷ xs) h = elim (Bool-cases (p x)) [
    | inl t ↦ (x, Memᴰ.head refl, t)
    | inr f ↦ let (a, m, t) = mem_of_exists p xs (ground arith) in (a, Memᴰ.tail m, t)
  ]

  pub All_of_every : (p : A → Bool) (xs : List A) → every p xs ≡ true → All (λ a. p a ≡ true) xs
  All_of_every p [] h = tt
  All_of_every p (x ∷ xs) h = (ground arith, All_of_every p xs (ground arith))

  pub every_of_All : (p : A → Bool) (xs : List A) → All (λ a. p a ≡ true) xs → every p xs ≡ true
  every_of_All p [] h = refl
  every_of_All p (x ∷ xs) (t, h) = ground (arith, every_of_All p xs h)

  pub length-update : (p : A → Bool) (f : A → A) (xs : List A) → length (update p f xs) ≡ length xs
  length-update p f [] = refl
  length-update p f (x ∷ xs) = ap suc (length-update p f xs)

  pub length-remove-le : (p : A → Bool) (xs : List A) → length (remove p xs) ≤ length xs
  length-remove-le p [] = omega arith
  length-remove-le p (x ∷ xs) = ground (arith, length-remove-le p xs)

  pub length-remove-lt :
      (p : A → Bool) (xs : List A) {a : A}
      → Memᴰ a xs
      → p a ≡ true
      → length (remove p xs) < length xs
  length-remove-lt p [] m t = elim m [ ]
  length-remove-lt p (x ∷ xs) (Memᴰ.head e) t = ground (arith, ap p e, length-remove-le p xs)
  length-remove-lt p (x ∷ xs) (Memᴰ.tail m) t = ground (arith, length-remove-lt p xs m t)

  pub All-update {κ} :
      (P : A → Type κ) (p : A → Bool) (f : A → A) (xs : List A)
      → ((a : A) → p a ≡ true → P a → P (f a))
      → All P xs
      → All P (update p f xs)
  All-update P p f [] k h = tt
  All-update P p f (x ∷ xs) k (h, hs) = elim (Bool-cases (p x)) [
    | inl t ↦ (rw t (k x t h), All-update P p f xs k hs)
    | inr e ↦ (rw e h, All-update P p f xs k hs)
  ]

  -- Where the update itself establishes `P` on the rows that it takes.
  pub All_of_update {κ} :
      (P : A → Type κ) (p : A → Bool) (f : A → A) (xs : List A)
      → ((a : A) → p a ≡ true → P (f a))
      → ((a : A) → p a ≡ false → P a)
      → All P (update p f xs)
  All_of_update P p f [] k n = tt
  All_of_update P p f (x ∷ xs) k n = elim (Bool-cases (p x)) [
    | inl t ↦ (rw t (k x t), All_of_update P p f xs k n)
    | inr e ↦ (rw e (n x e), All_of_update P p f xs k n)
  ]

  pub All_of_remove {κ} :
      (P : A → Type κ) (p : A → Bool) (xs : List A)
      → ((a : A) → p a ≡ false → P a)
      → All P (remove p xs)
  All_of_remove P p [] n = tt
  All_of_remove P p (x ∷ xs) n = elim (Bool-cases (p x)) [
    | inl t ↦ rw t (All_of_remove P p xs n)
    | inr e ↦ rw e (n x e, All_of_remove P p xs n)
  ]

  pub All-remove {κ} :
      (P : A → Type κ) (p : A → Bool) (xs : List A) → All P xs → All P (remove p xs)
  All-remove P p [] h = tt
  All-remove P p (x ∷ xs) (h, hs) = elim (Bool-cases (p x)) [
    | inl t ↦ rw t (All-remove P p xs hs)
    | inr e ↦ rw e (h, All-remove P p xs hs)
  ]
