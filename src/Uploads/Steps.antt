-- ===== src/Uploads/Steps.antt =====
-- The steps of uploads and clean-ups that run side by side: each transaction and each call of a
-- store that changes something is one step, so that others may come between any two, and the time
-- may pass. What fails or stops makes no step. A clean-up that deletes an object a second time,
-- after another one has deleted the row as well, changes nothing and has no step either.
use reeva.Prelude.{ℕ, ◌<◌, ◌≤◌, ◌≡◌, ◌≢◌, true, false, List, Memᴰ, Text, All, ok}
use reeva.Model.{Uuid, Artifact}
use reeva.Uploads.Plan.{Upload}
use reeva.Uploads.Quota.{
  Reservation, StoredObject, Uploading, payload_key, reserve_quota, delete_object, is_expired,
  in_batch, delete_rows, is_object,
}
use reeva.Uploads.{Checksums, store_object, commit, release_reservation}

abbrev pub reservation_of : Upload → ℕ → Reservation
reservation_of u expires = record {
  id = u.id;
  storage_provider_id = u.storage_provider_id;
  size_bytes = u.size_bytes;
  expires_at = expires;
}

-- The upload is within its week: its reservation is there and has not expired.
pub record IsReserved (db : Uploading) (u : Upload) : Type 0 where
  pub expires_at : ℕ
  pub row : Memᴰ (reservation_of u expires_at) db.reservations
  pub valid : db.now < expires_at

abbrev pub object_of : (Uuid → Text) → Upload → StoredObject
object_of show_id u = record { provider_id = u.storage_provider_id; key = payload_key show_id u.id }

-- No object stands under the key of an upload.
abbrev pub IsUnstored : (Uuid → Text) → Uploading → Upload → Type 0
IsUnstored show_id db u =
    All (λ (o : StoredObject). is_object u.storage_provider_id (payload_key show_id u.id) o ≡ false)
      db.objects

abbrev pub IsFresh : Uploading → Uuid → Type 0
IsFresh db id = All (λ (a : Artifact). a.id ≢ id) db.catalog.artifacts

pub data Step (show_id : Uuid → Text) : Uploading → Uploading → Type 0 where
  reserved :
      {db d : Uploading} (id p : Uuid) (size : ℕ)
      → IsFresh db id
      → reserve_quota db id p size ≡ ok d
      → Step show_id db d
  stored :
      {db : Uploading} (u : Upload)
      → IsReserved db u
      → Step show_id db (store_object db u.storage_provider_id (payload_key show_id u.id))
  committed :
      {db : Uploading} (u : Upload) (sums : Checksums)
      → IsReserved db u
      → Memᴰ (object_of show_id u) db.objects
      → Step show_id db (commit show_id db u sums)
  -- with nothing stored, or after the object was deleted
  released :
      {db : Uploading} (u : Upload)
      → IsReserved db u
      → IsUnstored show_id db u
      → Step show_id db (release_reservation true db u.id)
  -- an upload that fails deletes what it stored
  withdrawn :
      {db : Uploading} (u : Upload)
      → IsReserved db u
      → Step show_id db (delete_object db u.storage_provider_id (payload_key show_id u.id))
  -- a clean-up deletes the object of one reservation that has expired
  object_deleted :
      {db : Uploading} (p : Uuid) (r : Reservation)
      → Memᴰ r db.reservations
      → is_expired p db.now r ≡ true
      → Step show_id db (delete_object db p (payload_key show_id r.id))
  -- a clean-up that began at `seen` deletes the rows of a batch, once their objects are deleted
  rows_deleted :
      {db : Uploading} (p : Uuid) (seen : ℕ) (rows : List Reservation)
      → seen ≤ db.now
      → ((s : Reservation)
          → Memᴰ s db.reservations
          → in_batch p seen rows s ≡ true
          → (o : StoredObject) → Memᴰ o db.objects
          → is_object p (payload_key show_id s.id) o ≡ false)
      → Step show_id db (delete_rows p seen rows db)
  ticked :
      {db : Uploading} (later : ℕ) → db.now ≤ later → Step show_id db (record db { now = later })

pub data Reach (show_id : Uuid → Text) (start : Uploading) : Uploading → Type 0 where
  here : Reach show_id start start
  next : {db d : Uploading} → Reach show_id start db → Step show_id db d → Reach show_id start d
