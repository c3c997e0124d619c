-- ===== src/Uploads/Within.antt =====
-- That uploads that run side by side stay within the quotas of the providers.
use reeva.Prelude.{
  ℕ, zero, suc, ◌+◌, ◌*◌, ◌≤◌, ◌≡◌, refl, sym, ◌∙◌, Bool, true, false, not, ◌⊎◌, inl, inr, some,
  List, [], ◌∷◌, Text, arith, ltb, leb, leb→le, lt→ltb, ◌==◌, ==_refl, ==→eq, remove, exists,
  Bool-cases, ok, require, or_fail-eq-ok, require-eq-ok, require_ok, >>=-eq-ok, ok-injective,
}
use reeva.Model.{Uuid, StorageProvider}
use reeva.Uploads.Plan.{
  Upload, find_provider, row_not_found, provider_not_active, quota_exceeded, file_too_large,
  duplicate_key,
}
use reeva.Uploads.Quota.{
  Reservation, StoredObject, Uploading, payload_key, sum, artifact_size, reserved_size, usage,
  quota_of, check_quota, week, reserve_quota, delete_object, delete_payloads, delete_rows, in_batch,
}
use reeva.Uploads.Sizes.{sum-remove-le, sum-remove-mem, sum_mono}
use reeva.Uploads.{Checksums, store_object, artifact_row, commit, release_reservation}
use reeva.Uploads.Steps.{
  IsReserved, reservation_of, Step, reserved, stored, committed, released, withdrawn,
  object_deleted, rows_deleted, ticked, Reach, here, next,
}

-- Every live provider with a quota is within it.
abbrev pub IsWithin : Uploading → Type 0
IsWithin db =
    (id : Uuid) (p : StorageProvider)
    → find_provider db.catalog id ≡ some p
    → (quota_of p ≡ 0) ⊎ (usage db id ≤ quota_of p)

-- The providers stay, and nothing is used that was not.
record IsLess (db d : Uploading) : Type 0 where
  providers : (id : Uuid) → find_provider d.catalog id ≡ find_provider db.catalog id
  uses : (id : Uuid) → usage d id ≤ usage db id

less-IsWithin : (db d : Uploading) → IsLess db d → IsWithin db → IsWithin d
less-IsWithin db d l h id p e = elim (h id p (sym (l.providers id) ∙ e)) [
  | inl z ↦ inl z
  | inr u ↦ inr (omega (arith, l.uses id))
]

-- Fewer reservations over the same catalog
remove-IsLess :
    (db : Uploading) (q : Reservation → Bool) (objects : List StoredObject)
    → IsLess db (record db { reservations = remove q db.reservations; objects = objects })
unfolding usage
remove-IsLess db q objects = record {
  providers = λ id. refl;
  uses = λ id. omega (arith, sum-remove-le (reserved_size id db.now) q db.reservations);
}

objects-IsLess :
    (db : Uploading) (objects : List StoredObject) → IsLess db (record db { objects = objects })
unfolding usage
objects-IsLess db objects = record { providers = λ id. refl; uses = λ id. omega arith }

stored-IsLess : (db : Uploading) (p : Uuid) (key : Text) → IsLess db (store_object db p key)
unfolding store_object
stored-IsLess db p key = objects-IsLess db (record { provider_id = p; key = key } ∷ db.objects)

release-IsLess :
    (b : Bool) (db : Uploading) (id : Uuid) (objects : List StoredObject)
    → IsLess db (release_reservation b (record db { objects = objects }) id)
unfolding release_reservation
release-IsLess true db id objects = remove-IsLess db (λ (r : Reservation). r.id == id) objects
release-IsLess false db id objects = objects-IsLess db objects

delete-IsLess : (db : Uploading) (p : Uuid) (key : Text) → IsLess db (delete_object db p key)
unfolding delete_object
delete-IsLess db p key = objects-IsLess db _

delete_rows-IsLess :
    (db : Uploading) (p : Uuid) (now : ℕ) (rows : List Reservation)
    → IsLess db (delete_rows p now rows db)
unfolding delete_rows
delete_rows-IsLess db p now rows = remove-IsLess db (in_batch p now rows) db.objects

-- The deletion of objects leaves the tables.
pub delete_payloads_tables :
    (show_id : Uuid → Text) (deletes : Reservation → Bool) (p : Uuid) (rows : List Reservation)
    (db : Uploading)
    → (objects : List StoredObject) × ((delete_payloads show_id deletes p rows db).1
        ≡ record db { objects = objects })
unfolding delete_payloads delete_object
delete_payloads_tables show_id deletes p [] db = (db.objects, refl)
delete_payloads_tables show_id deletes p (r ∷ rows) db = elim (Bool-cases (deletes r)) [
  | inl t ↦
      let (objects, e) =
        delete_payloads_tables show_id deletes p rows
          (delete_object db p (payload_key show_id r.id)) in
      (objects, rw t (e ∙ deleted objects r))
  | inr f ↦ (db.objects, rw f refl)
]
  where
    deleted :
        (objects : List StoredObject) (r : Reservation)
        → ◌≡◌ {A = Uploading}
            (record (delete_object db p (payload_key show_id r.id)) { objects = objects })
            (record db { objects = objects })
    deleted objects r = refl

-- A commit moves the size of the upload from the reservations to the artifacts.
moved :
    (show_id : Uuid → Text) (db : Uploading) (u : Upload) (sums : Checksums) (r : IsReserved db u)
    (id : Uuid)
    → artifact_size id (artifact_row show_id u sums db.now)
      ≤ reserved_size id db.now (reservation_of u r.expires_at)
unfolding artifact_row
moved show_id db u sums r id = ground (arith, lt→ltb db.now r.expires_at r.valid)

commit-IsLess :
    (show_id : Uuid → Text) (db : Uploading) (u : Upload) (sums : Checksums)
    → IsReserved db u
    → IsLess db (commit show_id db u sums)
unfolding usage commit sum find_provider
commit-IsLess show_id db u sums r = record {
  providers = λ id. refl;
  uses = λ id. omega (
    arith,
    moved show_id db u sums r id,
    sum-remove-mem (reserved_size id db.now) (λ (r : Reservation). r.id == u.id) db.reservations
        r.row (==_refl u.id),
  );
}

tick-IsLess : (db : Uploading) (later : ℕ) → db.now ≤ later → IsLess db (record db { now = later })
unfolding usage
tick-IsLess db later h = record {
  providers = λ id. refl;
  uses = λ id. omega (
    arith,
    sum_mono (reserved_size id later) (reserved_size id db.now) (λ r. shorter id r) db.reservations,
  );
}
  where
    shorter : (id : Uuid) (r : Reservation) → reserved_size id later r ≤ reserved_size id db.now r
    shorter id r = ground (arith, h)

check_quota_within :
    (q used size : ℕ) → check_quota q used size ≡ ok tt → (q ≡ 0) ⊎ (used + size ≤ q)
check_quota_within zero used size h = inl refl
check_quota_within (suc q) used size h =
    let (t, h1) =
      require-eq-ok (ltb (used * 100) (suc q * 95)) quota_exceeded
        (require (leb (used + size) (suc q)) file_too_large) h in
    inr (leb→le (used + size) (suc q) (require_ok _ _ h1))

-- What a reservation that is made required and does
pub record IsMade (db d : Uploading) (id provider_id : Uuid) (size : ℕ) : Type 0 where
  pub provider : StorageProvider
  pub found : find_provider db.catalog provider_id ≡ some provider
  pub fits : (quota_of provider ≡ 0) ⊎ (usage db provider_id + size ≤ quota_of provider)
  pub fresh : exists (λ (r : Reservation). r.id == id) db.reservations ≡ false
  pub result : d ≡ record db {
    reservations =
        record {
          id = id;
          storage_provider_id = provider_id;
          size_bytes = size;
          expires_at = db.now + week;
        }
        ∷ db.reservations;
  }

not-true : (b : Bool) → not b ≡ true → b ≡ false
not-true true h = cc
not-true false h = refl

pub reserve_quota-IsMade :
    (db d : Uploading) (id provider_id : Uuid) (size : ℕ)
    → reserve_quota db id provider_id size ≡ ok d
    → IsMade db d id provider_id size
unfolding reserve_quota
reserve_quota-IsMade db d id provider_id size run =
    let (p, found, run1) =
      or_fail-eq-ok (find_provider db.catalog provider_id) row_not_found _ run in
    let (active, run2) = require-eq-ok p.is_active provider_not_active _ run1 in
    let (done, checked, run3) =
      >>=-eq-ok (check_quota (quota_of p) (usage db provider_id) size) _ run2 in
    let (fresh, run4) =
      require-eq-ok (not (exists (λ (r : Reservation). r.id == id) db.reservations)) duplicate_key _
        run3 in
    record {
      provider = p;
      found = found;
      fits = check_quota_within (quota_of p) (usage db provider_id) size checked;
      fresh = not-true _ fresh;
      result = sym (ok-injective run4);
    }

-- The rows of a provider count for it alone.
usage_add :
    (db : Uploading) (r : Reservation) (id : Uuid)
    → usage (record db { reservations = r ∷ db.reservations }) id ≤ usage db id + r.size_bytes
unfolding usage sum
usage_add db r id = ground arith

usage_other :
    (db : Uploading) (r : Reservation) (id : Uuid)
    → (r.storage_provider_id == id) ≡ false
    → usage (record db { reservations = r ∷ db.reservations }) id ≡ usage db id
unfolding usage sum
usage_other db r id f = rw f (omega arith)

reserve-IsWithin :
    (db : Uploading) (r : Reservation) (p : StorageProvider)
    → find_provider db.catalog r.storage_provider_id ≡ some p
    → (quota_of p ≡ 0) ⊎ (usage db r.storage_provider_id + r.size_bytes ≤ quota_of p)
    → IsWithin db
    → IsWithin (record db { reservations = r ∷ db.reservations })
reserve-IsWithin db r p found fits h other q e =
    elim (Bool-cases (r.storage_provider_id == other)) [
      | inl t ↦
          let i : r.storage_provider_id ≡ other = ==→eq r.storage_provider_id other t in
          let same : p ≡ q = cc (found, e, i) in
          let room : (quota_of q ≡ 0) ⊎ (usage db other + r.size_bytes ≤ quota_of q) =
            rw (sym same, sym i) fits in
          elim room [ inl z ↦ inl z | inr u ↦ inr (omega (arith, usage_add db r other)) ]
      | inr f ↦ rw (usage_other db r other f) (h other q e)
    ]

Step-IsWithin :
    {show_id : Uuid → Text} {db d : Uploading} → Step show_id db d → IsWithin db → IsWithin d
Step-IsWithin {db = db} {d = d} (reserved id p size fresh run) h =
    let made = reserve_quota-IsMade db d id p size run in
    rw made.result (reserve-IsWithin db _ made.provider made.found made.fits h)
Step-IsWithin {db = db} (stored u r) h = less-IsWithin db _ (stored-IsLess db _ _) h
Step-IsWithin {show_id} {db} (committed u sums r m) h =
    less-IsWithin db _ (commit-IsLess show_id db u sums r) h
Step-IsWithin {db = db} (released u r n) h =
    less-IsWithin db _ (release-IsLess true db u.id db.objects) h
Step-IsWithin {db = db} (withdrawn u r) h = less-IsWithin db _ (delete-IsLess db _ _) h
Step-IsWithin {db = db} (object_deleted p r m e) h = less-IsWithin db _ (delete-IsLess db _ _) h
Step-IsWithin {db = db} (rows_deleted p seen rows le none) h =
    less-IsWithin db _ (delete_rows-IsLess db p seen rows) h
Step-IsWithin {db = db} (ticked later t) h = less-IsWithin db _ (tick-IsLess db later t) h

-- However the transactions and the store calls of any number of uploads are interleaved, and
-- wherever one fails or stops: from a state where every live provider with a quota is within it, the
-- sizes of its artifacts and of its unexpired reservations never exceed that quota. An upload is
-- taken to commit before its reservation expires, a week later, and quotas are not changed meanwhile.
pub Reach-IsWithin :
    {show_id : Uuid → Text} {start db : Uploading}
    → IsWithin start
    → Reach show_id start db
    → IsWithin db
Reach-IsWithin h here = h
Reach-IsWithin h (next r s) = Step-IsWithin s (Reach-IsWithin h r)
