-- ===== src/Uploads.antt =====
-- app/services/artifact_service.ts: `uploadArtifact`. The object stores, the disk and the database
-- may fail at every call: an `Attempt` says which calls do. Both providers of the repository store
-- an object under the key that they are given.
pub mod Plan
pub mod Quota
pub mod Sizes
pub mod Steps
pub mod Within
pub mod Stored
pub mod Deletions
pub mod Kept
pub mod Emptied
pub mod Rounds
pub mod Ended
pub mod Parts
pub mod Runs
pub mod Ends
mod Tests
use reeva.Prelude.{
  ℕ, ◌+◌, ◌≡◌, Bool, true, false, not, ◌&&◌, Option, none, some, List, [], ◌∷◌, Text, lit, same,
  ◌==◌, exists, remove, if◌then◌else◌, Result, ok, err, suc, length,
}
use reeva.Model.{Uuid, Artifact, Catalog}
use reeva.Uploads.Plan.{
  Error, File, Form, Texts, Upload, plan, unreadable_file, storage_failed, key_changed,
  database_failed, incomplete_storage,
}
use reeva.Uploads.Quota.{
  Reservation, StoredObject, Uploading, payload_key, reserve_quota, delete_object, Arranging,
  Sweeping, Outcome, cleanup,
}

-- The result of `computeChecksums`
pub record Checksums : Type 0 where
  pub md5 : Text
  pub sha1 : Text
  pub sha256 : Text
  pub sha512 : Text

-- How the calls of one upload end
pub record Attempt : Type 0 where
  -- whether `StorageManager.resolve` finds a complete configuration
  pub resolves : Bool
  -- the digests, if the file can be read
  pub checksums : Option Checksums
  -- the key that the provider answers with, if it accepts the object
  pub uploaded : Option Text
  -- whether the transaction commits
  pub commits : Bool
  -- whether the compensating deletions succeed
  pub deletes : Bool
  pub unreserves : Bool

-- `storage.upload`
unfoldable pub store_object : Uploading → Uuid → Text → Uploading
store_object db p key = record db { objects = record { provider_id = p; key = key } ∷ db.objects }

abbrev pub remove_reservation : Uuid → List Reservation → List Reservation
remove_reservation id rows = remove (λ (r : Reservation). r.id == id) rows

-- The row of `Artifact.create`
unfoldable pub artifact_row : (Uuid → Text) → Upload → Checksums → ℕ → Artifact
artifact_row show_id u sums now = record {
  id = u.id;
  file_name = u.file_name;
  version_id = u.version_id;
  platform_id = u.platform_id;
  architecture_id = u.architecture_id;
  storage_key = payload_key show_id u.id;
  storage_provider_id = u.storage_provider_id;
  size_bytes = some u.size_bytes;
  is_archived = false;
  is_published = u.is_published;
  channel = u.channel;
  published_at = if u.is_published then some now else none;
  checksum = some sums.sha256;
  checksum_md5 = some sums.md5;
  checksum_sha1 = some sums.sha1;
  checksum_sha256 = some sums.sha256;
  checksum_sha512 = some sums.sha512;
  download_count = 0;
  signature = none;
  signature_key_id = none;
  signature_manifest = none;
  deleted_at = none;
}

-- The last transaction: the artifact is inserted and its reservation deleted.
unfoldable pub commit : (Uuid → Text) → Uploading → Upload → Checksums → Uploading
commit show_id db u sums = record db {
  catalog = record db.catalog {
    artifacts = artifact_row show_id u sums db.now ∷ db.catalog.artifacts;
  };
  reservations = remove_reservation u.id db.reservations;
}

-- The deletion of the reservation in the `catch` clause, whose own failure is ignored
unfoldable pub release_reservation : Bool → Uploading → Uuid → Uploading
release_reservation true db id = record db { reservations = remove_reservation id db.reservations }
release_reservation false db id = db

-- The `catch` clause, with `objectStored`
unfoldable pub compensate : (Uuid → Text) → Bool → Attempt → Uploading → Upload → Uploading
compensate show_id false w db u = release_reservation w.unreserves db u.id
compensate show_id true w db u =
    if w.deletes
    then release_reservation w.unreserves
        (delete_object db u.storage_provider_id (payload_key show_id u.id)) u.id
    else db

module _ (show_id : Uuid → Text) (w : Attempt) (u : Upload) where
  abbrev pub fail : Error → Bool → Uploading → Result Error Artifact × Uploading
  fail e stored db = (err e, compensate show_id stored w db u)

  -- The insertion fails on an id that is taken: `id` is the primary key of the artifacts.
  unfoldable pub finish : Checksums → Uploading → Result Error Artifact × Uploading
  finish sums db =
      if w.commits && not (exists (λ (a : Artifact). a.id == u.id) db.catalog.artifacts)
      then (ok (artifact_row show_id u sums db.now), commit show_id db u sums)
      else fail database_failed true db

  unfoldable pub send : Checksums → Option Text → Uploading → Result Error Artifact × Uploading
  send sums none db = fail storage_failed false db
  send sums (some key) db =
      let stored = store_object db u.storage_provider_id (payload_key show_id u.id) in
      if same key (payload_key show_id u.id)
      then finish sums stored
      else fail key_changed true stored

  -- The `try` statement
  unfoldable pub transfer : Option Checksums → Uploading → Result Error Artifact × Uploading
  transfer none db = fail unreadable_file false db
  transfer (some sums) db = send sums w.uploaded db

  unfoldable pub after_reserve :
      Uploading → Result Error Uploading → Result Error Artifact × Uploading
  after_reserve db (err e) = (err e, db)
  after_reserve db (ok d) = transfer w.checksums d

  unfoldable pub after_cleanup : Outcome → Result Error Artifact × Uploading
  after_cleanup (err e, db) = (err e, db)
  after_cleanup (ok done, db) =
      after_reserve db (reserve_quota db u.id u.storage_provider_id u.size_bytes)

module _ (t : Texts) (order : Arranging) (sweeping : Sweeping) (w : Attempt) where
  unfoldable pub run_plan : Uploading → Result Error Upload → Result Error Artifact × Uploading
  run_plan db (err e) = (err e, db)
  run_plan db (ok u) =
      if w.resolves
      then after_cleanup t.show_id w u
          (cleanup t.show_id order sweeping u.storage_provider_id (suc (length db.reservations)) db)
      else (err incomplete_storage, db)

  -- `uploadArtifact`; the clean-up deletes at least one reservation in each round
  unfoldable pub upload_artifact :
      Uploading → File → Form → Uuid → Result Error Artifact × Uploading
  upload_artifact db file form id = run_plan db (plan t db.catalog file form id)
