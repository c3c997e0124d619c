-- ===== src/Updater/Order.antt =====
-- An order of releases that fits what the queries of app/services/updater_service.ts ask of the
-- database: an insertion sort, for the examples.
use reeva.Prelude.{
  suc, ◌≡◌, ◌⊎◌, inl, inr, refl, ap, ◌∙◌, Bool, true, false, List, [], ◌∷◌, Memᴰ, arith, length,
  if◌then◌else◌, Bool-cases,
}
use reeva.Model.{Version}
use reeva.Release.{Candidate}
use reeva.Updater.{lex_lt, AtLeast, IsDescending, Sorting}

unfoldable pub insert : Candidate → List Candidate → List Candidate
insert x [] = x ∷ []
insert x (y ∷ ys) =
    let rest = insert x ys in if lex_lt x.version y.version then y ∷ rest else x ∷ y ∷ ys

unfoldable pub sort : List Candidate → List Candidate
unfolding insert
sort [] = []
sort (x ∷ xs) = insert x (sort xs)

mem-insert :
    (x : Candidate) (ys : List Candidate) {z : Candidate}
    → Memᴰ z (insert x ys)
    → (z ≡ x) ⊎ Memᴰ z ys
unfolding insert
mem-insert x [] (Memᴰ.head e) = inl e
mem-insert x [] (Memᴰ.tail m) = elim m [ ]
mem-insert x (y ∷ ys) {z = z} m = cases (lex_lt x.version y.version) (mem-insert x ys) m
  where
    cases :
        (b : Bool)
        → (Memᴰ z (insert x ys) → (z ≡ x) ⊎ Memᴰ z ys)
        → Memᴰ z (if b then y ∷ insert x ys else x ∷ y ∷ ys)
        → (z ≡ x) ⊎ Memᴰ z (y ∷ ys)
    cases true ih (Memᴰ.head e) = inr (Memᴰ.head e)
    cases true ih (Memᴰ.tail k) = elim (ih k) [ inl e ↦ inl e | inr n ↦ inr (Memᴰ.tail n) ]
    cases false ih (Memᴰ.head e) = inl e
    cases false ih (Memᴰ.tail k) = inr k

insert-mem :
    (x : Candidate) (ys : List Candidate) {z : Candidate}
    → (z ≡ x) ⊎ Memᴰ z ys
    → Memᴰ z (insert x ys)
unfolding insert
insert-mem x [] (inl e) = Memᴰ.head e
insert-mem x [] (inr m) = elim m [ ]
insert-mem x (y ∷ ys) {z = z} h = elim (Bool-cases (lex_lt x.version y.version)) [
  | inl t ↦ rw t (first_case (insert-mem x ys) h)
  | inr f ↦ rw f (elim h [ inl e ↦ Memᴰ.head e | inr m ↦ Memᴰ.tail m ])
]
  where
    first_case :
        ((z ≡ x) ⊎ Memᴰ z ys → Memᴰ z (insert x ys))
        → (z ≡ x) ⊎ Memᴰ z (y ∷ ys)
        → Memᴰ z (y ∷ insert x ys)
    first_case ih (inl e) = Memᴰ.tail (ih (inl e))
    first_case ih (inr (Memᴰ.head e)) = Memᴰ.head e
    first_case ih (inr (Memᴰ.tail m)) = Memᴰ.tail (ih (inr m))

pub sort-keeps : (xs : List Candidate) (z : Candidate) → Memᴰ z (sort xs) → Memᴰ z xs
unfolding sort
sort-keeps [] z m = m
sort-keeps (x ∷ xs) z m = elim (mem-insert x (sort xs) m) [
  | inl e ↦ Memᴰ.head e
  | inr k ↦ Memᴰ.tail (sort-keeps xs z k)
]

pub sort-covers : (xs : List Candidate) (z : Candidate) → Memᴰ z xs → Memᴰ z (sort xs)
unfolding sort
sort-covers [] z m = m
sort-covers (x ∷ xs) z (Memᴰ.head e) = insert-mem x (sort xs) (inl e)
sort-covers (x ∷ xs) z (Memᴰ.tail m) = insert-mem x (sort xs) (inr (sort-covers xs z m))

length-insert : (x : Candidate) (ys : List Candidate) → length (insert x ys) ≡ suc (length ys)
unfolding insert
length-insert x [] = refl
length-insert x (y ∷ ys) = ground (arith, length-insert x ys)

pub length-sort : (xs : List Candidate) → length (sort xs) ≡ length xs
unfolding sort
length-sort [] = refl
length-sort (x ∷ xs) = length-insert x (sort xs) ∙ ap suc (length-sort xs)

AtLeast_of_lt : (v w : Version) → lex_lt v w ≡ true → AtLeast w v
AtLeast_of_lt v w h = ground arith

AtLeast-trans : (u v w : Version) → AtLeast u v → AtLeast v w → AtLeast u w
AtLeast-trans u v w h k = ground arith

insert-IsDescending :
    (x : Candidate) (ys : List Candidate) → IsDescending ys → IsDescending (insert x ys)
unfolding insert
insert-IsDescending x [] h = ((λ y m. elim m [ ]), tt)
insert-IsDescending x (y ∷ ys) (k, h) = elim (Bool-cases (lex_lt x.version y.version)) [
  | inl t ↦ rw t ((λ z m. below z t (mem-insert x ys m)), insert-IsDescending x ys h)
  | inr f ↦ rw f ((λ z m. above z f m), (k, h))
]
  where
    below :
        (z : Candidate)
        → lex_lt x.version y.version ≡ true
        → (z ≡ x) ⊎ Memᴰ z ys
        → AtLeast y.version z.version
    below z t (inl e) = rw e (AtLeast_of_lt x.version y.version t)
    below z t (inr m) = k z m

    above :
        (z : Candidate)
        → lex_lt x.version y.version ≡ false
        → Memᴰ z (y ∷ ys)
        → AtLeast x.version z.version
    above z f (Memᴰ.head e) = rw e f
    above z f (Memᴰ.tail m) = AtLeast-trans x.version y.version z.version f (k z m)

pub sort-IsDescending : (xs : List Candidate) → IsDescending (sort xs)
unfolding sort
sort-IsDescending [] = tt
sort-IsDescending (x ∷ xs) = insert-IsDescending x (sort xs) (sort-IsDescending xs)

abbrev pub sorting : Sorting
sorting = record {
  order_by = sort;
  keeps = sort-keeps;
  covers = sort-covers;
  same_length = length-sort;
  descends = sort-IsDescending;
}
