-- ===== src/Uploads/Parts.antt =====
-- What the parts of an upload do after its reservation: the transfer, the commit and what is taken
-- back where one fails.
use reeva.Prelude.{
  ◌≡◌, ◌≢◌, refl, sym, ap, Bool, true, false, not, ◌&&◌, Option, none, some, Memᴰ, Text, ◌==◌,
  ==_refl, same, exists, mem-remove, Bool-cases, inl, inr, All_of_mem, if◌then◌else◌, ok, err,
  ok-injective,
}
use reeva.Model.{Uuid, Artifact}
use reeva.Uploads.Plan.{Error, Upload}
use reeva.Uploads.Quota.{
  Reservation, StoredObject, Uploading, payload_key, is_object, delete_object,
}
use reeva.Uploads.{
  Checksums, Attempt, store_object, artifact_row, commit, release_reservation, compensate, finish,
  send, transfer,
}
use reeva.Uploads.Steps.{
  IsReserved, reservation_of, object_of, stored, committed, released, withdrawn, Reach, next,
}
use reeva.Uploads.Ended.{IsUploaded, IsRun, failed-IsRun}
use reeva.Uploads.Stored.{is_object_at}

-- After the reservation: nothing stands under the key yet.
pub record IsHeld (show_id : Uuid → Text) (u : Upload) (start db : Uploading) : Type 0 where
  pub reaches : Reach show_id start db
  pub same_catalog : db.catalog ≡ start.catalog
  pub reserved : IsReserved db u
  pub unused :
      (o : StoredObject) → Memᴰ o db.objects → same o.key (payload_key show_id u.id) ≡ false

-- A property of both branches of a test
pub either :
    {A : Type 0} (P : A → Type 0) (b : Bool) (x y : A)
    → (b ≡ true → P x)
    → (b ≡ false → P y)
    → P (if b then x else y)
either P true x y f g = f refl
either P false x y f g = g refl

and_false : (a b : Bool) → b ≡ false → (a && b) ≡ false
and_false true b f = f
and_false false b f = refl

release_gone :
    (u : Upload) (b : Bool) (db : Uploading)
    → b ≡ true
    → (r : Reservation) → Memᴰ r (release_reservation b db u.id).reservations
    → r.id ≢ u.id
unfolding release_reservation
release_gone u true db t r m i =
    cc ((mem-remove (λ (s : Reservation). s.id == u.id) db.reservations m).1, ==_refl u.id, i)
release_gone u false db t r m i = absurd (cc t)

abbrev sent : (Uuid → Text) → Upload → Uploading → Uploading
sent show_id u db = store_object db u.storage_provider_id (payload_key show_id u.id)

commit-IsUploaded :
    (show_id : Uuid → Text) (u : Upload) (sums : Checksums) (db : Uploading) {start : Uploading}
    → Memᴰ (object_of show_id u) db.objects
    → db.catalog ≡ start.catalog
    → IsUploaded show_id u.id start (artifact_row show_id u sums db.now) (commit show_id db u sums)
unfolding commit artifact_row
commit-IsUploaded show_id u sums db {start} stands same = record {
  added = rw same refl;
  named = refl;
  keyed = refl;
  stands = stands;
  done = λ r m i.
      cc ((mem-remove (λ (s : Reservation). s.id == u.id) db.reservations m).1, ==_refl u.id, i);
}

module _ (show_id : Uuid → Text) (w : Attempt) (u : Upload) {start : Uploading} where
  -- The release of the reservation, when nothing is stored
  release-IsRun :
      (b : Bool) (e : Error) (db : Uploading)
      → w.unreserves ≡ b
      → IsHeld show_id u start db
      → IsRun show_id w u.id start (err e, release_reservation b db u.id)
  unfolding release_reservation
  release-IsRun true e db k h =
      failed-IsRun show_id w u.id start _ e
        (next h.reaches
          (released u h.reserved (All_of_mem _ db.objects (λ o m. and_false _ _ (h.unused o m)))))
        (record {
          same_catalog = h.same_catalog;
          cleared = λ t o m. h.unused o m;
          freed = λ t c r m i. absurd (release_gone u true db refl r m i);
          found = λ o m t. absurd (cc (t, h.unused o m));
        })
  release-IsRun false e db k h = failed-IsRun show_id w u.id start _ e h.reaches (record {
    same_catalog = h.same_catalog;
    cleared = λ t o m. h.unused o m;
    freed = λ t c r m i. absurd (cc (c, k));
    found = λ o m t. absurd (cc (t, h.unused o m));
  })

  -- After the object is stored and deleted again, nothing stands under its key.
  withdrawn-IsHeld :
      (db : Uploading)
      → IsHeld show_id u start db
      → Reach show_id start (sent show_id u db)
      → IsHeld show_id u start
          (delete_object (sent show_id u db) u.storage_provider_id (payload_key show_id u.id))
  unfolding store_object delete_object
  withdrawn-IsHeld db h r = record {
    reaches = next r (
        withdrawn u (record {
          expires_at = h.reserved.expires_at;
          row = h.reserved.row;
          valid = h.reserved.valid;
        }));
    same_catalog = h.same_catalog;
    reserved = record {
      expires_at = h.reserved.expires_at;
      row = h.reserved.row;
      valid = h.reserved.valid;
    };
    unused = λ o m.
        let (n, f) =
          mem-remove (is_object u.storage_provider_id (payload_key show_id u.id))
            (sent show_id u db).objects m in
        elim n [
          | Memᴰ.head e ↦ absurd (
              cc (
                f,
                is_object_at u.storage_provider_id (payload_key show_id u.id) o
                    (ap (λ (x : StoredObject). x.provider_id) e)
                    (ap (λ (x : StoredObject). x.key) e),
              ))
          | Memᴰ.tail k ↦ h.unused o k
        ];
  }

  -- What is taken back after the object is stored
  compensate-IsRun :
      (e : Error) (db : Uploading)
      → IsHeld show_id u start db
      → Reach show_id start (sent show_id u db)
      → IsRun show_id w u.id start (err e, compensate show_id true w (sent show_id u db) u)
  unfolding compensate store_object
  compensate-IsRun e db h r =
      either (λ d. IsRun show_id w u.id start (err e, d)) w.deletes _ (sent show_id u db)
        (λ t. release-IsRun w.unreserves e _ refl (withdrawn-IsHeld db h r))
        (λ f. failed-IsRun show_id w u.id start _ e r (record {
          same_catalog = h.same_catalog;
          cleared = λ t o m. absurd (cc (t, f));
          freed = λ t c x m i. absurd (cc (t, f));
          found = λ o m t. elim m [
            | Memᴰ.head q ↦ (reservation_of u h.reserved.expires_at, h.reserved.row, sym q)
            | Memᴰ.tail n ↦ absurd (cc (t, h.unused o n))
          ];
        }))

  committed-IsRun :
      (sums : Checksums) (db : Uploading)
      → IsHeld show_id u start db
      → Reach show_id start (sent show_id u db)
      → IsRun show_id w u.id start
          (ok (artifact_row show_id u sums db.now), commit show_id (sent show_id u db) u sums)
  unfolding store_object
  committed-IsRun sums db h r = record {
    reaches = next r (
        committed u sums
          (record {
            expires_at = h.reserved.expires_at;
            row = h.reserved.row;
            valid = h.reserved.valid;
          })
          (Memᴰ.head refl));
    succeeds = λ a e.
        rw (sym (ok-injective e))
          (commit-IsUploaded show_id u sums (sent show_id u db) (Memᴰ.head refl) h.same_catalog);
    fails = λ e f. absurd (cc f);
  }

  finish-IsRun :
      (sums : Checksums) (db : Uploading)
      → IsHeld show_id u start db
      → Reach show_id start (sent show_id u db)
      → IsRun show_id w u.id start (finish show_id w u sums (sent show_id u db))
  unfolding finish store_object
  finish-IsRun sums db h r =
      elim (Bool-cases
        (w.commits && not (exists (λ (a : Artifact). a.id == u.id) db.catalog.artifacts))) [
          | inl t ↦ rw t (committed-IsRun sums db h r)
          | inr f ↦ rw f (compensate-IsRun _ db h r)
        ]

  send-IsRun :
      (sums : Checksums) (answer : Option Text) (db : Uploading)
      → IsHeld show_id u start db
      → IsRun show_id w u.id start (send show_id w u sums answer db)
  unfolding send compensate
  send-IsRun sums none db h = release-IsRun w.unreserves _ db refl h
  send-IsRun sums (some key) db h =
      let there : Reach show_id start (sent show_id u db) = next h.reaches (stored u h.reserved) in
      elim (Bool-cases (same key (payload_key show_id u.id))) [
        | inl t ↦ rw t (finish-IsRun sums db h there)
        | inr f ↦ rw f (compensate-IsRun _ db h there)
      ]

  pub transfer-IsRun :
      (sums : Option Checksums) (db : Uploading)
      → IsHeld show_id u start db
      → IsRun show_id w u.id start (transfer show_id w u sums db)
  unfolding transfer compensate
  transfer-IsRun none db h = release-IsRun w.unreserves _ db refl h
  transfer-IsRun (some sums) db h = send-IsRun sums w.uploaded db h
