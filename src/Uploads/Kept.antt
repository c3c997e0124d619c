-- ===== src/Uploads/Kept.antt =====
-- That every step of an upload, and the clean-up, keep the objects and the tables in agreement.
use reeva.Prelude.{
  ℕ, ◌+◌, ◌≡◌, ◌≢◌, refl, sym, ap, ◌∙◌, Bool, true, false, inl, inr, List, ◌∷◌, Memᴰ, Text, ◌==◌,
  ==_refl, ==→eq, mem-remove, mem-remove_intro, Bool-cases, All-mem, exists, exists_of_mem,
}
use reeva.Model.{Uuid, Artifact}
use reeva.Uploads.Plan.{Upload}
use reeva.Uploads.Quota.{
  Reservation, StoredObject, Uploading, payload_key, is_object, delete_rows, in_batch, week,
}
use reeva.Uploads.{Checksums, store_object, artifact_row, commit, release_reservation}
use reeva.Uploads.Steps.{
  IsReserved, reservation_of, object_of, IsFresh, Step, reserved, stored, committed, released,
  withdrawn, object_deleted, rows_deleted, ticked, Reach, here, next,
}
use reeva.Uploads.Within.{IsMade, reserve_quota-IsMade}
use reeva.Uploads.Deletions.{differ, in_batch_row}
use reeva.Uploads.Stored.{
  IsStored, object_for, is_object_at, drop_reservations-IsStored, delete_reserved-IsStored,
}

module _ (show_id : Uuid → Text) (injective : (i j : Uuid) → show_id i ≡ show_id j → i ≡ j) where
  -- A reservation whose object is not there may be released.
  release-IsStored :
      (b : Bool) (db : Uploading) (u : Upload) (r : IsReserved db u)
      → ((o : StoredObject)
          → Memᴰ o db.objects
          → is_object u.storage_provider_id (payload_key show_id u.id) o ≡ false)
      → IsStored show_id db
      → IsStored show_id (release_reservation b db u.id)
  unfolding release_reservation
  release-IsStored false db u r none h = h
  release-IsStored true db u r none h =
      drop_reservations-IsStored show_id db (λ (s : Reservation). s.id == u.id)
        (λ s m t o n.
          differ u.storage_provider_id (payload_key show_id u.id) (object_for show_id s) o
            (is_object_at u.storage_provider_id (payload_key show_id u.id) (object_for show_id s)
              (ap (λ (x : Reservation). x.storage_provider_id)
                (h.keyed s (reservation_of u r.expires_at) m r.row (==→eq s.id u.id t)))
              (ap (payload_key show_id) (==→eq s.id u.id t)))
            (none o n))
        h

  delete_rows-IsStored :
      (db : Uploading) (p : Uuid) (seen : ℕ) (rows : List Reservation)
      → ((s : Reservation)
          → Memᴰ s db.reservations
          → in_batch p seen rows s ≡ true
          → (o : StoredObject) → Memᴰ o db.objects
          → is_object p (payload_key show_id s.id) o ≡ false)
      → IsStored show_id db
      → IsStored show_id (delete_rows p seen rows db)
  unfolding delete_rows
  delete_rows-IsStored db p seen rows none h =
      drop_reservations-IsStored show_id db (in_batch p seen rows)
        (λ s m b o n.
          differ p (payload_key show_id s.id) (object_for show_id s) o
            (is_object_at p (payload_key show_id s.id) (object_for show_id s)
              ((in_batch_row p seen rows s b).0) refl)
            (none s m b o n))
        h

  store-IsStored :
      (db : Uploading) (u : Upload)
      → IsReserved db u
      → IsStored show_id db
      → IsStored show_id (store_object db u.storage_provider_id (payload_key show_id u.id))
  unfolding store_object
  store-IsStored db u r h = record {
    tracked = λ o m. elim m [
      | Memᴰ.head e ↦ inr (reservation_of u r.expires_at, r.row, sym e)
      | Memᴰ.tail n ↦ h.tracked o n
    ];
    kept = λ a m. ((h.kept a m).0, Memᴰ.tail ((h.kept a m).1));
    apart = h.apart;
    keyed = h.keyed;
  }

  reserve-IsStored :
      (db d : Uploading) (id p : Uuid) (size : ℕ)
      → IsFresh db id
      → IsMade db d id p size
      → IsStored show_id db
      → IsStored show_id d
  reserve-IsStored db d id p size fresh made h = rw made.result (record {
    tracked =
        λ o m. elim (h.tracked o m) [ inl a ↦ inl a | inr (r, n, e) ↦ inr (r, Memᴰ.tail n, e) ];
    kept = h.kept;
    apart = λ r a m n. elim m [
      | Memᴰ.head e ↦
          λ i. All-mem _ db.catalog.artifacts fresh n (sym i ∙ ap (λ (x : Reservation). x.id) e)
      | Memᴰ.tail k ↦ h.apart r a k n
    ];
    keyed = λ r s m n. keyed_with id p size db r s made.fresh h m n;
  })
    where
      not_taken :
          (rows : List Reservation) (id : Uuid) (r : Reservation)
          → exists (λ (r : Reservation). r.id == id) rows ≡ false
          → Memᴰ r rows
          → r.id ≢ id
      not_taken rows id r f m e =
          cc (f, exists_of_mem (λ (r : Reservation). r.id == id) rows m (rw e (==_refl id)))

      keyed_with :
          (id p : Uuid) (size : ℕ) (db : Uploading) (r s : Reservation)
          → exists (λ (r : Reservation). r.id == id) db.reservations ≡ false
          → IsStored show_id db
          → Memᴰ r (
              record {
                id = id;
                storage_provider_id = p;
                size_bytes = size;
                expires_at = db.now + week;
              }
              ∷ db.reservations)
          → Memᴰ s (
              record {
                id = id;
                storage_provider_id = p;
                size_bytes = size;
                expires_at = db.now + week;
              }
              ∷ db.reservations)
          → r.id ≡ s.id
          → r ≡ s
      keyed_with id p size db r s f h (Memᴰ.head e) (Memᴰ.head k) i = e ∙ sym k
      keyed_with id p size db r s f h (Memᴰ.head e) (Memᴰ.tail n) i =
          absurd (not_taken db.reservations id s f n (sym i ∙ ap (λ (x : Reservation). x.id) e))
      keyed_with id p size db r s f h (Memᴰ.tail m) (Memᴰ.head k) i =
          absurd (not_taken db.reservations id r f m (i ∙ ap (λ (x : Reservation). x.id) k))
      keyed_with id p size db r s f h (Memᴰ.tail m) (Memᴰ.tail n) i = h.keyed r s m n i

  commit-IsStored :
      (db : Uploading) (u : Upload) (sums : Checksums)
      → IsReserved db u
      → Memᴰ (object_of show_id u) db.objects
      → IsStored show_id db
      → IsStored show_id (commit show_id db u sums)
  unfolding commit artifact_row
  commit-IsStored db u sums x stands h = record {
    tracked = λ o m. elim (h.tracked o m) [
      | inl (a, n, e) ↦ inl (a, Memᴰ.tail n, e)
      | inr (r, n, e) ↦ elim (Bool-cases (r.id == u.id)) [
        | inl t ↦ inl (
          artifact_row show_id u sums db.now,
          Memᴰ.head refl,
          own r (==→eq r.id u.id t) (
                ap (λ (x : Reservation). x.storage_provider_id)
                  (h.keyed r (reservation_of u x.expires_at) n x.row (==→eq r.id u.id t)))
              ∙ e,
        )
        | inr f ↦
            inr (r, mem-remove_intro (λ (s : Reservation). s.id == u.id) db.reservations n f, e)
      ]
    ];
    kept = λ a m. elim m [ Memᴰ.head e ↦ rw e (refl, stands) | Memᴰ.tail n ↦ h.kept a n ];
    apart = λ r a m n.
        let (k, f) = mem-remove (λ (s : Reservation). s.id == u.id) db.reservations m in
        elim n [
          | Memᴰ.head e ↦ λ i. cc (f, ==_refl u.id, i, ap (λ (b : Artifact). b.id) e)
          | Memᴰ.tail j ↦ h.apart r a k j
        ];
    keyed = λ r s m n.
        h.keyed r s ((mem-remove (λ (s : Reservation). s.id == u.id) db.reservations m).0)
          ((mem-remove (λ (s : Reservation). s.id == u.id) db.reservations n).0);
  }
    where
      own :
          (r : Reservation)
          → r.id ≡ u.id
          → r.storage_provider_id ≡ u.storage_provider_id
          → object_of show_id u ≡ object_for show_id r
      own r i k = rw (i, k) refl

  Step-IsStored : {db d : Uploading} → Step show_id db d → IsStored show_id db → IsStored show_id d
  unfolding release_reservation
  Step-IsStored {db = db} {d = d} (reserved id p size fresh run) h =
      reserve-IsStored db d id p size fresh (reserve_quota-IsMade db d id p size run) h
  Step-IsStored {db = db} (stored u r) h = store-IsStored db u r h
  Step-IsStored {db = db} (committed u sums r m) h = commit-IsStored db u sums r m h
  Step-IsStored {db = db} (released u r none) h =
      release-IsStored true db u r (λ o m. All-mem _ db.objects none m) h
  Step-IsStored {db = db} (withdrawn u r) h =
      delete_reserved-IsStored show_id injective db u.storage_provider_id
        (reservation_of u r.expires_at) r.row h
  Step-IsStored {db = db} (object_deleted p r m e) h =
      delete_reserved-IsStored show_id injective db p r m h
  Step-IsStored {db = db} (rows_deleted p seen rows le none) h =
      delete_rows-IsStored db p seen rows none h
  Step-IsStored {db = db} (ticked later t) h = record {
    tracked = h.tracked;
    kept = h.kept;
    apart = h.apart;
    keyed = h.keyed;
  }

pub Reach-IsStored :
    {show_id : Uuid → Text} {start db : Uploading}
    → ((i j : Uuid) → show_id i ≡ show_id j → i ≡ j)
    → IsStored show_id start
    → Reach show_id start db
    → IsStored show_id db
Reach-IsStored injective h here = h
Reach-IsStored {show_id} injective h (next r s) =
    Step-IsStored show_id injective s (Reach-IsStored injective h r)
