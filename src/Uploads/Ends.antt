-- ===== src/Uploads/Ends.antt =====
-- That the clean-up of expired reservations ends.
use reeva.Prelude.{
  ℕ, zero, suc, ◌≡◌, ◌<◌, ◌≤◌, refl, ap, Bool, true, false, ◌⊎◌, inl, inr, and_intro, List, [], ◌∷◌,
  Memᴰ, Text, arith, ◌==◌, ==_refl, remove, select, mem-select, take, length, length-take,
  Bool-cases, All, exists_of_mem, ok, err,
}
use reeva.Model.{Uuid}
use reeva.Uploads.Plan.{storage_failed, database_failed}
use reeva.Uploads.Quota.{
  Reservation, Uploading, is_expired, delete_payloads, delete_rows, in_batch, cleanup_pass,
  Arranging, Sweeping, expired_batch, Outcome, next_pass, cleanup_with, cleanup, payload_key,
  delete_object,
}
use reeva.Uploads.Within.{delete_payloads_tables}

module _ {ℓ} {A : Type ℓ} (p : A → Bool) where
  select_none : (xs : List A) → length (select p xs) ≡ 0 → All (λ a. p a ≡ false) xs
  select_none [] h = tt
  select_none (x ∷ xs) h = elim (Bool-cases (p x)) [
    | inl t ↦ absurd (omega (arith, rw t at h))
    | inr f ↦ (f, select_none xs (rw f at h))
  ]

  length-select-le : (xs : List A) → length (select p xs) ≤ length xs
  length-select-le [] = omega arith
  length-select-le (x ∷ xs) = ground (arith, length-select-le xs)

  module _ (q : A → Bool) where
    select-remove-le : (xs : List A) → length (select p (remove q xs)) ≤ length (select p xs)
    select-remove-le [] = omega arith
    select-remove-le (x ∷ xs) = ground (arith, select-remove-le xs)

    select-remove-lt :
        (xs : List A) {a : A}
        → Memᴰ a xs
        → p a ≡ true
        → q a ≡ true
        → length (select p (remove q xs)) < length (select p xs)
    select-remove-lt [] m s t = elim m [ ]
    select-remove-lt (x ∷ xs) (Memᴰ.head e) s t =
        ground (arith, select-remove-le xs, ap p e, ap q e)
    select-remove-lt (x ∷ xs) (Memᴰ.tail m) s t = ground (arith, select-remove-lt xs m s t)

-- The expired reservations that are left
abbrev remaining : Uuid → Uploading → ℕ
remaining p db = length (select (is_expired p db.now) db.reservations)

pub record IsEnded (p : Uuid) (w : Sweeping) (x : Outcome) : Type 0 where
  pub ends : (x.0 ≡ ok tt) ⊎ ((x.0 ≡ err storage_failed) ⊎ (x.0 ≡ err database_failed))
  pub empties : x.0 ≡ ok tt → All (λ r. is_expired p x.1.now r ≡ false) x.1.reservations
  pub succeeds :
      ((r : Reservation) → w.deletes r ≡ true)
      → ((rows : List Reservation) → w.commits rows ≡ true)
      → x.0 ≡ ok tt

-- What one round can give
data IsRound (w : Sweeping) (done : Uploading) : Outcome → Type 0 where
  finished : IsRound w done (ok tt, done)
  unstored :
      (d : Uploading) (r : Reservation)
      → w.deletes r ≡ false
      → IsRound w done (err storage_failed, d)
  uncommitted :
      (d : Uploading) (rows : List Reservation)
      → w.commits rows ≡ false
      → IsRound w done (err database_failed, d)

module _ (show_id : Uuid → Text) (order : Arranging) (w : Sweeping) (p : Uuid) where
  no_batch :
      (db : Uploading)
      → expired_batch order db p ≡ []
      → All (λ r. is_expired p db.now r ≡ false) db.reservations
  unfolding expired_batch
  no_batch db e = select_none (is_expired p db.now) db.reservations (
      omega (
        arith,
        ap length e,
        length-take 100 (order.arrange (select (is_expired p db.now) db.reservations)),
        order.same_length (select (is_expired p db.now) db.reservations),
      ))

  take_one :
      (n : ℕ) (xs : List Reservation) {x : Reservation} {rest : List Reservation}
      → take n xs ≡ x ∷ rest
      → Memᴰ x xs
  take_one zero xs e = cc
  take_one (suc n) [] e = cc
  take_one (suc n) (y ∷ xs) {x} {rest} e = Memᴰ.head (first_same e)
    where
      first_same :
          {x y : Reservation} {xs ys : List Reservation}
          → ◌≡◌ {A = List Reservation} (y ∷ ys) (x ∷ xs)
          → x ≡ y
      first_same e = cc

  first_row :
      (db : Uploading) (r : Reservation) (rows : List Reservation)
      → expired_batch order db p ≡ r ∷ rows
      → Memᴰ r db.reservations × (is_expired p db.now r ≡ true)
  unfolding expired_batch
  first_row db r rows e =
      mem-select (is_expired p db.now) db.reservations (order.keeps _ r (take_one 100 _ e))

  -- The tables after a round that ends well
  abbrev swept : List Reservation → Uploading → Uploading
  swept rows db = delete_rows p db.now rows (delete_payloads show_id w.deletes p rows db).1

  -- Such a round leaves fewer expired reservations.
  swept-less :
      (db : Uploading) (r : Reservation) (rows : List Reservation)
      → Memᴰ r db.reservations
      → is_expired p db.now r ≡ true
      → remaining p (swept (r ∷ rows) db) < remaining p db
  unfolding delete_rows
  swept-less db r rows m expired =
      let (objects, e) = delete_payloads_tables show_id w.deletes p (r ∷ rows) db in
      rw e (
        select-remove-lt (is_expired p db.now) (in_batch p db.now (r ∷ rows)) db.reservations m
          expired
          (and_intro _ _ expired (
            exists_of_mem (λ (s : Reservation). s.id == r.id) (r ∷ rows) (Memᴰ.head refl)
              (==_refl r.id))))

  -- A loop over the objects that stops does so at a deletion that fails.
  stopped :
      (rows : List Reservation) (db : Uploading)
      → (delete_payloads show_id w.deletes p rows db).0 ≡ false
      → (r : Reservation) × (w.deletes r ≡ false)
  unfolding delete_payloads
  stopped [] db f = absurd (cc f)
  stopped (r ∷ rows) db f = elim (Bool-cases (w.deletes r)) [
    | inl t ↦ stopped rows (delete_object db p (payload_key show_id r.id)) (rw t at f)
    | inr k ↦ (r, k)
  ]

  cleanup_pass-IsRound :
      (rows : List Reservation) (db : Uploading)
      → IsRound w (swept rows db) (cleanup_pass show_id w p rows db)
  unfolding cleanup_pass
  cleanup_pass-IsRound rows db = elim (Bool-cases (delete_payloads show_id w.deletes p rows db).0) [
    | inl t ↦ elim (Bool-cases (w.commits rows)) [
      | inl k ↦ rw (t, k) finished
      | inr k ↦ rw (t, k) (uncommitted _ rows k)
    ]
    | inr f ↦ let (r, k) = stopped rows db f in rw f (unstored _ r k)
  ]

  next_pass-IsEnded :
      (rest : Uploading → Outcome) (done : Uploading) (d : Outcome)
      → IsRound w done d
      → IsEnded p w (rest done)
      → IsEnded p w (next_pass rest d)
  next_pass-IsEnded rest done d finished go = go
  next_pass-IsEnded rest done d (unstored x r f) go = record {
    ends = inr (inl refl);
    empties = λ h. absurd (cc h);
    succeeds = λ all every. absurd (cc (f, all r));
  }
  next_pass-IsEnded rest done d (uncommitted x rows f) go = record {
    ends = inr (inr refl);
    empties = λ h. absurd (cc h);
    succeeds = λ all every. absurd (cc (f, every rows));
  }

  cleanup_with-IsEnded :
      (rest : Uploading → Outcome) (db : Uploading)
      → ((d : Uploading) → remaining p d < remaining p db → IsEnded p w (rest d))
      → (rows : List Reservation) → expired_batch order db p ≡ rows
      → IsEnded p w (cleanup_with show_id order w p rest db rows)
  cleanup_with-IsEnded rest db go [] e = record {
    ends = inl refl;
    empties = λ h. no_batch db e;
    succeeds = λ all every. refl;
  }
  cleanup_with-IsEnded rest db go (r ∷ rows) e =
      let (m, expired) = first_row db r rows e in
      next_pass-IsEnded rest _ _ (cleanup_pass-IsRound (r ∷ rows) db)
        (go _ (swept-less db r rows m expired))

  cleanup_counted :
      (fuel : ℕ) (db : Uploading)
      → remaining p db < fuel
      → IsEnded p w (cleanup show_id order w p fuel db)
  unfolding cleanup
  cleanup_counted zero db h = absurd (omega arith)
  cleanup_counted (suc fuel) db h =
      cleanup_with-IsEnded (cleanup show_id order w p fuel) db
        (λ d less. cleanup_counted fuel d (omega (arith, h, less))) (expired_batch order db p) refl

  -- With one round more than there are reservations, the loop of the clean-up ends, whatever
  -- deletions and transactions fail: it throws the error of the store or of the database, or returns;
  -- when it returns, no reservation of the provider is left that has expired; and it returns when
  -- every deletion succeeds and every transaction commits. The database may order the batches as it
  -- likes.
  pub cleanup-IsEnded :
      (fuel : ℕ) (db : Uploading)
      → length db.reservations < fuel
      → IsEnded p w (cleanup show_id order w p fuel db)
  cleanup-IsEnded fuel db h =
      cleanup_counted fuel db
        (omega (arith, h, length-select-le (is_expired p db.now) db.reservations))
