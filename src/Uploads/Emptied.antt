-- ===== src/Uploads/Emptied.antt =====
-- That an object which a clean-up deletes stays away, whatever runs between the deletions of the
-- objects of a batch and that of its rows.
use reeva.Prelude.{
  ℕ, true, All, All-mem, leb→le, and_left, ◌≤◌, ◌≡◌, sym, ap, ◌∙◌, false, inl, inr, List, Memᴰ,
  Text, arith, and_right, ◌==◌, same→eq, mem-remove, Bool-cases,
}
use reeva.Model.{Uuid}
use reeva.Uploads.Quota.{
  Reservation, StoredObject, Uploading, payload_key, is_object, is_expired, delete_object,
  delete_rows, in_batch,
}
use reeva.Uploads.{store_object, commit, release_reservation}
use reeva.Uploads.Steps.{
  reservation_of, Step, reserved, stored, committed, released, withdrawn, object_deleted,
  rows_deleted, ticked, Reach, here, next,
}
use reeva.Uploads.Within.{reserve_quota-IsMade}
use reeva.Uploads.Stored.{IsStored, payload_key-injective, delete_reserved-IsStored}
use reeva.Uploads.Deletions.{gone, in_batch_row}
use reeva.Uploads.Kept.{Reach-IsStored}

-- No object stands under the key of a reservation of this id that had expired at `seen`.
record IsEmptied (show_id : Uuid → Text) (p : Uuid) (seen : ℕ) (id : Uuid) (db : Uploading)
    : Type 0 where
  passed : seen ≤ db.now
  empty :
      (s : Reservation)
      → Memᴰ s db.reservations
      → s.id ≡ id
      → s.expires_at ≤ seen
      → (o : StoredObject) → Memᴰ o db.objects
      → is_object p (payload_key show_id id) o ≡ false

module _ (show_id : Uuid → Text) (injective : (i j : Uuid) → show_id i ≡ show_id j → i ≡ j)
    (p : Uuid) (seen : ℕ) (id : Uuid) where
  -- Fewer rows and objects
  fewer-IsEmptied :
      (db : Uploading) (rows : List Reservation) (objects : List StoredObject)
      → ((s : Reservation) → Memᴰ s rows → Memᴰ s db.reservations)
      → ((o : StoredObject) → Memᴰ o objects → Memᴰ o db.objects)
      → IsEmptied show_id p seen id db
      → IsEmptied show_id p seen id (record db { reservations = rows; objects = objects })
  fewer-IsEmptied db rows objects fewer less h = record {
    passed = h.passed;
    empty = λ s m e l o n. h.empty s (fewer s m) e l o (less o n);
  }

  delete-IsEmptied :
      (db : Uploading) (q : Uuid) (key : Text)
      → IsEmptied show_id p seen id db
      → IsEmptied show_id p seen id (delete_object db q key)
  unfolding delete_object
  delete-IsEmptied db q key h =
      fewer-IsEmptied db db.reservations _ (λ s m. m)
        (λ o n. (mem-remove (is_object q key) db.objects n).0) h

  Step-IsEmptied :
      {db d : Uploading}
      → IsStored show_id db
      → Step show_id db d
      → IsEmptied show_id p seen id db
      → IsEmptied show_id p seen id d
  unfolding store_object commit release_reservation delete_rows
  Step-IsEmptied {db} {d} i (reserved j q size fresh run) h =
      let made = reserve_quota-IsMade db d j q size run in
      rw made.result (record {
        passed = h.passed;
        empty = λ s m e l o n. elim m [
          | Memᴰ.head c ↦
              absurd (omega (arith, h.passed, l, ap (λ (x : Reservation). x.expires_at) c))
          | Memᴰ.tail k ↦ h.empty s k e l o n
        ];
      })
  Step-IsEmptied {db} i (stored u x) h = record {
    passed = h.passed;
    empty = λ s m e l o n. elim n [
      | Memᴰ.head c ↦ elim (Bool-cases (is_object p (payload_key show_id id) o)) [
        | inl t ↦
            let key : payload_key show_id u.id ≡ payload_key show_id id =
              sym (ap (λ (y : StoredObject). y.key) c)
              ∙ same→eq o.key (payload_key show_id id) (and_right _ _ t) in
            let own : reservation_of u x.expires_at ≡ s =
              i.keyed (reservation_of u x.expires_at) s x.row m
                (payload_key-injective show_id injective u.id id key ∙ sym e) in
            absurd (omega (arith, h.passed, l, x.valid, ap (λ (y : Reservation). y.expires_at) own))
        | inr f ↦ f
      ]
      | Memᴰ.tail k ↦ h.empty s m e l o k
    ];
  }
  Step-IsEmptied {db} i (committed u sums x there) h = record {
    passed = h.passed;
    empty = λ s m e l o n.
        h.empty s ((mem-remove (λ (r : Reservation). r.id == u.id) db.reservations m).0) e l o n;
  }
  Step-IsEmptied {db} i (released u x none) h =
      fewer-IsEmptied db _ db.objects
        (λ s m. (mem-remove (λ (r : Reservation). r.id == u.id) db.reservations m).0) (λ o n. n) h
  Step-IsEmptied {db} i (withdrawn u x) h = delete-IsEmptied db _ _ h
  Step-IsEmptied {db} i (object_deleted q s m e) h = delete-IsEmptied db _ _ h
  Step-IsEmptied {db} i (rows_deleted q since rows le none) h =
      fewer-IsEmptied db _ db.objects
        (λ s m. (mem-remove (in_batch q since rows) db.reservations m).0) (λ o n. n) h
  Step-IsEmptied {db} i (ticked later le) h = record {
    passed = omega (arith, h.passed, le);
    empty = h.empty;
  }

  Reach-IsEmptied :
      {start db : Uploading}
      → IsStored show_id start
      → IsEmptied show_id p seen id start
      → Reach show_id start db
      → IsEmptied show_id p seen id db
  Reach-IsEmptied i h here = h
  Reach-IsEmptied i h (next run s) =
      Step-IsEmptied (Reach-IsStored injective i run) s (Reach-IsEmptied i h run)

-- At an earlier state, when the tables and the stores agreed and after `seen`, a clean-up deleted the
-- object of this expired reservation.
pub record IsDeleted (show_id : Uuid → Text) (p : Uuid) (seen : ℕ) (db : Uploading)
    (r : Reservation) : Type 0 where
  pub before : Uploading
  pub agreed : IsStored show_id before
  pub row : Memᴰ r before.reservations
  pub expired : is_expired p before.now r ≡ true
  pub later : seen ≤ before.now
  pub since : Reach show_id (delete_object before p (payload_key show_id r.id)) db

deleted-IsEmptied :
    (show_id : Uuid → Text) (p : Uuid) (seen : ℕ) (before : Uploading) (id : Uuid)
    → seen ≤ before.now
    → IsEmptied show_id p seen id (delete_object before p (payload_key show_id id))
unfolding delete_object
deleted-IsEmptied show_id p seen before id le = record {
  passed = le;
  empty = λ s m e l o n. (gone before p (payload_key show_id id) o n).1;
}

IsDeleted-IsEmptied :
    (show_id : Uuid → Text)
    → ((i j : Uuid) → show_id i ≡ show_id j → i ≡ j)
    → (p : Uuid) (seen : ℕ) (db : Uploading) (r : Reservation) → IsDeleted show_id p seen db r
    → IsEmptied show_id p seen r.id db
IsDeleted-IsEmptied show_id injective p seen db r h =
    Reach-IsEmptied show_id injective p seen r.id
      (delete_reserved-IsStored show_id injective h.before p r h.row h.agreed)
      (deleted-IsEmptied show_id p seen h.before r.id h.later) h.since

-- A clean-up that began at `seen` deletes the objects of a batch one by one, and then the rows. If the
-- object of every row of the batch was deleted at some earlier state, after `seen`, when the
-- tables and the stores agreed and the row had expired, then none of the rows that are deleted has an
-- object left, whatever steps other uploads and clean-ups have made since. Ids have different texts,
-- and an upload is taken to store its object before its reservation expires.
pub delete_rows-none :
    (show_id : Uuid → Text) (db : Uploading) (p : Uuid) (seen : ℕ) (rows : List Reservation)
    (s : Reservation) (o : StoredObject)
    → ((i j : Uuid) → show_id i ≡ show_id j → i ≡ j)
    → All (IsDeleted show_id p seen db) rows
    → Memᴰ s db.reservations
    → in_batch p seen rows s ≡ true
    → Memᴰ o db.objects
    → is_object p (payload_key show_id s.id) o ≡ false
delete_rows-none show_id db p seen rows s o injective deleted m b n =
    let (own, r, k, i) = in_batch_row p seen rows s b in
    let h = IsDeleted-IsEmptied show_id injective p seen db r (All-mem _ rows deleted k) in
    let early : s.expires_at ≤ seen =
      leb→le s.expires_at seen (and_right (s.storage_provider_id == p) _ (and_left _ _ b)) in
    rw i at (h.empty s m (sym i) early o n)
