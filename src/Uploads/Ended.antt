-- ===== src/Uploads/Ended.antt =====
-- How a run of `uploadArtifact` may end.
use reeva.Prelude.{◌≡◌, ◌≢◌, true, false, ◌∷◌, Memᴰ, Text, same, Result, ok, err}
use reeva.Model.{Uuid, Artifact}
use reeva.Uploads.Plan.{Error}
use reeva.Uploads.Quota.{Reservation, StoredObject, Uploading, payload_key}
use reeva.Uploads.{Attempt}
use reeva.Uploads.Steps.{Reach}
use reeva.Uploads.Stored.{object_at, HasReservation}

-- An upload that succeeds adds one artifact with the new id, whose object stands under its key, and
-- its reservation is gone.
pub record IsUploaded (show_id : Uuid → Text) (id : Uuid) (start : Uploading) (a : Artifact)
    (d : Uploading) : Type 0 where
  pub added : d.catalog.artifacts ≡ a ∷ start.catalog.artifacts
  pub named : a.id ≡ id
  pub keyed : a.storage_key ≡ payload_key show_id id
  pub stands : Memᴰ (object_at a) d.objects
  pub done : (r : Reservation) → Memᴰ r d.reservations → r.id ≢ id

-- An upload that fails leaves the catalog as it was. Its object is gone if the deletion succeeds, and
-- the reservation as well if that deletion succeeds too; an object that is left has its reservation,
-- by which a clean-up finds it.
pub record IsUndone (show_id : Uuid → Text) (w : Attempt) (id : Uuid) (start d : Uploading)
    : Type 0 where
  pub same_catalog : d.catalog ≡ start.catalog
  pub cleared :
      w.deletes ≡ true
      → (o : StoredObject) → Memᴰ o d.objects
      → same o.key (payload_key show_id id) ≡ false
  pub freed :
      w.deletes ≡ true
      → w.unreserves ≡ true
      → (r : Reservation) → Memᴰ r d.reservations
      → r.id ≡ id
      → Memᴰ r start.reservations
  pub found :
      (o : StoredObject)
      → Memᴰ o d.objects
      → same o.key (payload_key show_id id) ≡ true
      → HasReservation show_id d o

-- What a run gives: it is a sequence of the steps, and ends in one of these two ways.
pub record IsRun (show_id : Uuid → Text) (w : Attempt) (id : Uuid) (start : Uploading)
    (x : Result Error Artifact × Uploading) : Type 0 where
  pub reaches : Reach show_id start x.1
  pub succeeds : (a : Artifact) → x.0 ≡ ok a → IsUploaded show_id id start a x.1
  pub fails : (e : Error) → x.0 ≡ err e → IsUndone show_id w id start x.1

pub failed-IsRun :
    (show_id : Uuid → Text) (w : Attempt) (id : Uuid) (start d : Uploading) (e : Error)
    → Reach show_id start d
    → IsUndone show_id w id start d
    → IsRun show_id w id start (err e, d)
failed-IsRun show_id w id start d e r u = record {
  reaches = r;
  succeeds = λ a h. absurd (cc h);
  fails = λ f h. u;
}
