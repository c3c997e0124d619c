-- ===== src/Uploads/Rounds.antt =====
-- That the clean-up of expired reservations is a sequence of the steps.
use reeva.Prelude.{
  ℕ, zero, suc, ◌≡◌, refl, ap, true, false, inl, inr, List, [], ◌∷◌, Memᴰ, Text, arith, Bool-cases,
  All, All-mem, All_of_mem, All-take, mem-select, mem-remove, ok, err,
}
use reeva.Model.{Uuid}
use reeva.Uploads.Quota.{
  Reservation, StoredObject, Uploading, payload_key, is_object, is_expired, in_batch, delete_object,
  delete_payloads, delete_rows, Sweeping, Arranging, expired_batch, Outcome, cleanup_pass,
  next_pass, cleanup_with, cleanup,
}
use reeva.Uploads.Steps.{object_deleted, rows_deleted, Reach, next}
use reeva.Uploads.Within.{delete_payloads_tables}
use reeva.Uploads.Deletions.{delete_payloads-gone, in_batch_row}

-- What every round of the clean-up keeps, the whole clean-up keeps.
module _ (show_id : Uuid → Text) (order : Arranging) (w : Sweeping) (p : Uuid)
    (P : Uploading → Type 0)
    (keeps : (db : Uploading)
      → P db
      → P (cleanup_pass show_id w p (expired_batch order db p) db).1) where
  next_pass-keeps :
      (rest : Uploading → Outcome)
      → ((db : Uploading) → P db → P (rest db).1)
      → (d : Outcome) → P d.1
      → P (next_pass rest d).1
  next_pass-keeps rest go (ok done, db) r = go db r
  next_pass-keeps rest go (err e, db) r = r

  cleanup_with-keeps :
      (rest : Uploading → Outcome)
      → ((db : Uploading) → P db → P (rest db).1)
      → (db : Uploading) (rows : List Reservation) → expired_batch order db p ≡ rows
      → P db
      → P (cleanup_with show_id order w p rest db rows).1
  cleanup_with-keeps rest go db [] e r = r
  cleanup_with-keeps rest go db (x ∷ rows) e r =
      next_pass-keeps rest go (cleanup_pass show_id w p (x ∷ rows) db) (rw e at (keeps db r))

  cleanup-keeps : (fuel : ℕ) (db : Uploading) → P db → P (cleanup show_id order w p fuel db).1
  unfolding cleanup
  cleanup-keeps zero db r = r
  cleanup-keeps (suc fuel) db r =
      cleanup_with-keeps (cleanup show_id order w p fuel) (λ d q. cleanup-keeps fuel d q) db
        (expired_batch order db p) refl r

-- What a clean-up leaves: the catalog, and nothing in the tables and the stores that was not there
pub record IsReduced (show_id : Uuid → Text) (start db : Uploading) : Type 0 where
  pub reaches : Reach show_id start db
  pub same_catalog : db.catalog ≡ start.catalog
  pub fewer : (r : Reservation) → Memᴰ r db.reservations → Memᴰ r start.reservations
  pub less : (o : StoredObject) → Memᴰ o db.objects → Memᴰ o start.objects

-- A batch consists of reservations that have expired.
batch_rows :
    (p : Uuid) (order : Arranging) (db : Uploading)
    → All (λ r. Memᴰ r db.reservations × (is_expired p db.now r ≡ true)) (expired_batch order db p)
unfolding expired_batch
batch_rows p order db =
    All-take (λ r. Memᴰ r db.reservations × (is_expired p db.now r ≡ true)) 100 _
      (All_of_mem _ _ (λ r m. mem-select (is_expired p db.now) db.reservations (order.keeps _ r m)))

time_of :
    (show_id : Uuid → Text) (w : Sweeping) (p : Uuid) (rows : List Reservation) (db : Uploading)
    → (delete_payloads show_id w.deletes p rows db).1.now ≡ db.now
time_of show_id w p rows db =
    let (objects, e) = delete_payloads_tables show_id w.deletes p rows db in
    ap (λ (x : Uploading). x.now) e

module _ (show_id : Uuid → Text) {start : Uploading} (w : Sweeping) (p : Uuid) where
  delete_payloads-IsReduced :
      (rows : List Reservation) (db : Uploading)
      → All (λ r. Memᴰ r db.reservations × (is_expired p db.now r ≡ true)) rows
      → IsReduced show_id start db
      → IsReduced show_id start (delete_payloads show_id w.deletes p rows db).1
  unfolding delete_payloads delete_object
  delete_payloads-IsReduced [] db ms h = h
  delete_payloads-IsReduced (r ∷ rows) db ((m, e), ms) h = elim (Bool-cases (w.deletes r)) [
    | inl t ↦ rw t (
        delete_payloads-IsReduced rows (delete_object db p (payload_key show_id r.id)) ms (record {
          reaches = next h.reaches (object_deleted p r m e);
          same_catalog = h.same_catalog;
          fewer = h.fewer;
          less = λ o n.
              h.less o ((mem-remove (is_object p (payload_key show_id r.id)) db.objects n).0);
        }))
    | inr f ↦ rw f h
  ]

  -- The rows of a batch go when none of their objects is left.
  delete_rows-IsReduced :
      (rows : List Reservation) (db d : Uploading)
      → d.now ≡ db.now
      → All
          (λ (r : Reservation).
            (o : StoredObject)
            → Memᴰ o d.objects
            → is_object p (payload_key show_id r.id) o ≡ false)
          rows
      → IsReduced show_id start d
      → IsReduced show_id start (delete_rows p db.now rows d)
  unfolding delete_rows
  delete_rows-IsReduced rows db d same_time none h = record {
    reaches = next h.reaches (
        rows_deleted p db.now rows (omega (arith, same_time)) (λ s m b o n.
          let (own, r, k, i) = in_batch_row p db.now rows s b in
          rw i at (All-mem _ rows none k o n)));
    same_catalog = h.same_catalog;
    fewer = λ r m. h.fewer r ((mem-remove (in_batch p db.now rows) d.reservations m).0);
    less = h.less;
  }

  pub cleanup_pass-IsReduced :
      (order : Arranging) (db : Uploading)
      → IsReduced show_id start db
      → IsReduced show_id start (cleanup_pass show_id w p (expired_batch order db p) db).1
  unfolding cleanup_pass
  cleanup_pass-IsReduced order db h =
      let rows = expired_batch order db p in
      let emptied = delete_payloads-IsReduced rows db (batch_rows p order db) h in
      elim (Bool-cases (delete_payloads show_id w.deletes p rows db).0) [
        | inl t ↦ elim (Bool-cases (w.commits rows)) [
          | inl k ↦
              rw (t, k)
                (delete_rows-IsReduced rows db _ (time_of show_id w p rows db)
                  (delete_payloads-gone show_id w.deletes p rows db _ refl t) emptied)
          | inr k ↦ rw (t, k) emptied
        ]
        | inr f ↦ rw f emptied
      ]

  pub cleanup-IsReduced :
      (order : Arranging) (fuel : ℕ) (db : Uploading)
      → IsReduced show_id start db
      → IsReduced show_id start (cleanup show_id order w p fuel db).1
  cleanup-IsReduced order fuel db h =
      cleanup-keeps show_id order w p (IsReduced show_id start) (cleanup_pass-IsReduced order) fuel
        db h
