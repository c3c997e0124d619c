-- ===== src/Uploads/Runs.antt =====
-- That every run of `uploadArtifact` is a sequence of the steps.
use reeva.Prelude.{
  suc, ◌+◌, ◌≡◌, refl, sym, ap, false, not, ◌&&◌, Memᴰ, Text, arith, ◌==◌, same, require, or_fail,
  truthy, leb, find, is_none, ◌>>=◌, >>=-eq-ok, ok-injective, All-mem, All, Result, ok, err, length,
}
use reeva.Model.{Uuid, Artifact, Catalog, Platform, Architecture}
use reeva.Uploads.Plan.{
  Error, File, Form, Texts, Upload, plan, reference, accepts_channel, runs_on, is_ext_valid,
  extension, software_of, wants_publication, find_provider, unsupported_channel, empty_file,
  row_not_found, provider_not_active, unsupported_architecture, invalid_extension,
  inactive_software, must_be_draft, incomplete_storage,
}
use reeva.Versions.{find_version}
use reeva.Input.{max_safe}
use reeva.Uploads.Quota.{
  StoredObject, Uploading, payload_key, reserve_quota, Arranging, Sweeping, Outcome, cleanup, week,
}
use reeva.Uploads.{Attempt, after_reserve, after_cleanup, run_plan, upload_artifact}
use reeva.Uploads.Steps.{IsFresh, reserved, here, next}
use reeva.Uploads.Within.{reserve_quota-IsMade}
use reeva.Uploads.Rounds.{IsReduced, cleanup-IsReduced}
use reeva.Uploads.Ended.{IsUndone, IsRun, failed-IsRun}
use reeva.Uploads.Parts.{transfer-IsRun, either}

-- No artifact and no object carries the id of a new upload.
abbrev pub IsNew : (Uuid → Text) → Uploading → Uuid → Type 0
IsNew show_id db id =
    IsFresh db id
    × All (λ (o : StoredObject). same o.key (payload_key show_id id) ≡ false) db.objects

-- An upload that is planned has the id that was made for it.
Gives : Uuid → Result Error Upload → Type 0
Gives id m = (u : Upload) → m ≡ ok u → u.id ≡ id

pass :
    {A : Type 0} (id : Uuid) (part : Result Error A) (rest : A → Result Error Upload)
    → ((a : A) → Gives id (rest a))
    → Gives id (part >>= rest)
unfolding Gives
pass id part rest go u run = let (a, made, last) = >>=-eq-ok part rest run in go a u last

plan-Gives :
    (t : Texts) (c : Catalog) (file : File) (form : Form) (id : Uuid)
    → Gives id (plan t c file form id)
unfolding plan Gives
plan-Gives t c file form id = pass id (reference form.version_id) _ λ version_id.
    pass id (reference form.platform_id) _ λ platform_id.
      pass id (reference form.architecture_id) _ λ architecture_id.
        pass id (reference form.storage_provider_id) _ λ provider_id.
          pass id (require (accepts_channel form.channel) unsupported_channel) _ λ _.
            pass id
              (require (truthy file.tmp_path && leb file.size max_safe && leb 1 file.size)
                empty_file)
              _
              λ _. pass id (or_fail (find_version c.versions version_id) row_not_found) _ λ v.
                pass id
                  (or_fail
                    (find (λ (p : Platform). p.id == platform_id && is_none p.deleted_at)
                      c.platforms)
                    row_not_found)
                  _
                  λ p.
                    pass id
                      (or_fail
                        (find
                          (λ (a : Architecture). a.id == architecture_id && is_none a.deleted_at)
                          c.architectures)
                        row_not_found)
                      _
                      λ a.
                        pass id (or_fail (find_provider c provider_id) row_not_found) _ λ provider.
                          pass id (require provider.is_active provider_not_active) _ λ _.
                            pass id
                              (require (runs_on (t.lower p.name) (t.lower a.name))
                                unsupported_architecture)
                              _
                              λ _.
                                pass id
                                  (require
                                    (is_ext_valid (t.lower p.name) (t.lower (extension file)))
                                    invalid_extension)
                                  _
                                  λ _. pass id (or_fail (software_of c v) inactive_software) _ λ s.
                                    pass id (require s.is_active inactive_software) _ λ _.
                                      pass id
                                        (require
                                          (not (
                                            wants_publication form.is_published
                                            && s.require_signed_updates))
                                          must_be_draft)
                                        _
                                        λ _. λ u run.
                                          sym (ap (λ (x : Upload). x.id) (ok-injective run))

module _ (show_id : Uuid → Text) (w : Attempt) (u : Upload) {start : Uploading}
    (new : IsNew show_id start u.id) where
  -- Nothing is to be taken back where the upload ends before its reservation.
  reduced-IsUndone :
      (db : Uploading) → IsReduced show_id start db → IsUndone show_id w u.id start db
  reduced-IsUndone db h = record {
    same_catalog = h.same_catalog;
    cleared = λ t o m. All-mem _ start.objects new.1 (h.less o m);
    freed = λ t c r m i. h.fewer r m;
    found = λ o m t. absurd (cc (t, All-mem _ start.objects new.1 (h.less o m)));
  }

  after_reserve-IsRun :
      (db : Uploading) (r : Result Error Uploading)
      → reserve_quota db u.id u.storage_provider_id u.size_bytes ≡ r
      → IsReduced show_id start db
      → IsRun show_id w u.id start (after_reserve show_id w u db r)
  unfolding after_reserve
  after_reserve-IsRun db (err e) run h =
      failed-IsRun show_id w u.id start db e h.reaches (reduced-IsUndone db h)
  after_reserve-IsRun db (ok d) run h =
      let made = reserve_quota-IsMade db d u.id u.storage_provider_id u.size_bytes run in
      let fresh : IsFresh db u.id = rw h.same_catalog new.0 in
      transfer-IsRun show_id w u w.checksums d (record {
        reaches = next h.reaches (reserved u.id u.storage_provider_id u.size_bytes fresh run);
        same_catalog = rw made.result h.same_catalog;
        reserved =
            rw made.result
              (record { expires_at = db.now + week; row = Memᴰ.head refl; valid = omega arith });
        unused = rw made.result (λ o m. All-mem _ start.objects new.1 (h.less o m));
      })

  after_cleanup-IsRun :
      (x : Outcome)
      → IsReduced show_id start x.1
      → IsRun show_id w u.id start (after_cleanup show_id w u x)
  unfolding after_cleanup
  after_cleanup-IsRun (err e, db) h =
      failed-IsRun show_id w u.id start db e h.reaches (reduced-IsUndone db h)
  after_cleanup-IsRun (ok done, db) h = after_reserve-IsRun db _ refl h

unchanged-IsReduced : (show_id : Uuid → Text) (db : Uploading) → IsReduced show_id db db
unchanged-IsReduced show_id db = record {
  reaches = here;
  same_catalog = refl;
  fewer = λ r m. m;
  less = λ o m. m;
}

renamed :
    (show_id : Uuid → Text) (w : Attempt) (db : Uploading) (i id : Uuid)
    (x : Result Error Artifact × Uploading)
    → i ≡ id
    → IsRun show_id w i db x
    → IsRun show_id w id db x
renamed show_id w db i id x e h = rw e at h

module _ (t : Texts) (order : Arranging) (sweeping : Sweeping) (w : Attempt) where
  ended-IsRun :
      (db : Uploading) (id : Uuid) (e : Error)
      → IsNew t.show_id db id
      → IsRun t.show_id w id db (err e, db)
  ended-IsRun db id e n = failed-IsRun t.show_id w id db db e here (record {
    same_catalog = refl;
    cleared = λ c o m. All-mem _ db.objects n.1 m;
    freed = λ c d r m i. m;
    found = λ o m c. absurd (cc (c, All-mem _ db.objects n.1 m));
  })

  cleaned-IsRun :
      (db : Uploading) (u : Upload)
      → IsNew t.show_id db u.id
      → IsRun t.show_id w u.id db (
          after_cleanup t.show_id w u (
            cleanup t.show_id order sweeping u.storage_provider_id
              (suc (length db.reservations))
              db))
  cleaned-IsRun db u new = after_cleanup-IsRun t.show_id w u new _ (
      cleanup-IsReduced t.show_id sweeping u.storage_provider_id order
        (suc (length db.reservations)) db (unchanged-IsReduced t.show_id db))

  run_plan-IsRun :
      (db : Uploading) (id : Uuid) (m : Result Error Upload)
      → Gives id m
      → IsNew t.show_id db id
      → IsRun t.show_id w id db (run_plan t order sweeping w db m)
  unfolding run_plan Gives
  run_plan-IsRun db id (err e) gives n = ended-IsRun db id e n
  run_plan-IsRun db id (ok u) gives n =
      let new : IsNew t.show_id db u.id = rw (gives u refl) n in
      either (IsRun t.show_id w id db) w.resolves _ _
        (λ r. renamed t.show_id w db u.id id _ (gives u refl) (cleaned-IsRun db u new))
        (λ r. ended-IsRun db id incomplete_storage n)

  -- Every run of `uploadArtifact`, whatever its input and wherever the disk, a store or the database
  -- fails, is a sequence of the steps that `Reach` allows: it reserves before it stores, and stores
  -- before it commits. If it succeeds, it adds exactly one artifact, which has the new id, whose
  -- object stands in its store, and whose reservation is gone. If it fails, the catalog is as it
  -- was; the object is gone if its deletion succeeds, and the reservation as well if its own does;
  -- and an object that is left has its reservation, by which a later clean-up finds it. No artifact
  -- and no object is taken to have the new id already.
  pub upload_artifact-IsRun :
      (db : Uploading) (file : File) (form : Form) (id : Uuid)
      → IsNew t.show_id db id
      → IsRun t.show_id w id db (upload_artifact t order sweeping w db file form id)
  unfolding upload_artifact
  upload_artifact-IsRun db file form id n =
      run_plan-IsRun db id _ (plan-Gives t db.catalog file form id) n
