-- ===== src/Uploads/Quota.antt =====
-- app/services/artifact_service.ts: `reserveQuota` and `cleanupExpiredReservations`, over the
-- reservations and the objects that the storage providers hold. Times are in milliseconds. The
-- source computes the used share in floating point; here it is compared exactly, which agrees for
-- quotas below 2^46 bytes.
use reeva.Prelude.{
  ℕ, zero, suc, ◌+◌, ◌*◌, ◌≡◌, Bool, true, false, not, ◌&&◌, Option, none, some, List, [], ◌∷◌,
  ◌++◌, Memᴰ, Text, lit, same, ltb, leb, ◌==◌, exists, select, remove, take, length, if◌then◌else◌,
  Result, ok, err, or_fail, require, ◌>>=◌, ◌>>◌,
}
use reeva.Model.{Uuid, StorageProvider, Artifact, Catalog}
use reeva.Uploads.Plan.{
  Error, row_not_found, provider_not_active, quota_exceeded, file_too_large, duplicate_key,
  storage_failed, database_failed, out_of_fuel, find_provider,
}

pub record Reservation : Type 0 where
  pub id : Uuid
  pub storage_provider_id : Uuid
  pub size_bytes : ℕ
  pub expires_at : ℕ

-- An object in the store of a provider
pub record StoredObject : Type 0 where
  pub provider_id : Uuid
  pub key : Text

-- The tables, the reservations, the objects of all providers, and the time
pub record Uploading : Type 0 where
  pub catalog : Catalog
  pub reservations : List Reservation
  pub objects : List StoredObject
  pub now : ℕ

-- `artifacts/${id}/payload`
abbrev pub payload_key : (Uuid → Text) → Uuid → Text
payload_key show_id id = lit "artifacts/" ++ (show_id id ++ lit "/payload")

unfoldable pub sum {ℓ} : {A : Type ℓ} → (A → ℕ) → List A → ℕ
sum f [] = 0
sum f (x ∷ xs) = f x + sum f xs

abbrev pub or_zero : Option ℕ → ℕ
or_zero none = 0
or_zero (some n) = n

-- `sum({ total: 'size_bytes' })` of the rows of a provider, the soft-deleted ones included
abbrev pub artifact_size : Uuid → Artifact → ℕ
artifact_size p a = if a.storage_provider_id == p then or_zero a.size_bytes else 0

abbrev pub is_live : Uuid → ℕ → Reservation → Bool
is_live p now r = r.storage_provider_id == p && ltb now r.expires_at

abbrev pub reserved_size : Uuid → ℕ → Reservation → ℕ
reserved_size p now r = if is_live p now r then r.size_bytes else 0

-- `currentUsage`
unfoldable pub usage : Uploading → Uuid → ℕ
usage db p =
    sum (artifact_size p) db.catalog.artifacts + sum (reserved_size p db.now) db.reservations

-- `Number(provider.quotaBytes || 0)`
abbrev pub quota_of : StorageProvider → ℕ
quota_of p = or_zero p.quota_bytes

-- A quota of zero is no quota.
abbrev pub check_quota : ℕ → ℕ → ℕ → Result Error (Unit {0})
check_quota zero used size = ok tt
check_quota (suc q) used size = do
  require (ltb (used * 100) (suc q * 95)) quota_exceeded
  require (leb (used + size) (suc q)) file_too_large

abbrev pub week : ℕ
week = 604800000

-- `reserveQuota`; the id is the primary key of the reservations
unfoldable pub reserve_quota : Uploading → Uuid → Uuid → ℕ → Result Error Uploading
reserve_quota db id provider_id size = do
  p ← or_fail (find_provider db.catalog provider_id) row_not_found
  require p.is_active provider_not_active
  check_quota (quota_of p) (usage db provider_id) size
  require (not (exists (λ (r : Reservation). r.id == id) db.reservations)) duplicate_key
  let r : Reservation = record {
    id = id;
    storage_provider_id = provider_id;
    size_bytes = size;
    expires_at = db.now + week;
  }
  ok (record db { reservations = r ∷ db.reservations })

abbrev pub is_object : Uuid → Text → StoredObject → Bool
is_object p key o = o.provider_id == p && same o.key key

-- `storage.delete(key)`
unfoldable pub delete_object : Uploading → Uuid → Text → Uploading
delete_object db p key = record db { objects = remove (is_object p key) db.objects }

abbrev pub is_expired : Uuid → ℕ → Reservation → Bool
is_expired p now r = r.storage_provider_id == p && leb r.expires_at now

-- `ORDER BY expires_at`: the same rows in an order of the database's
pub record Arranging : Type 0 where
  pub arrange : List Reservation → List Reservation
  pub keeps : (rows : List Reservation) (r : Reservation) → Memᴰ r (arrange rows) → Memᴰ r rows
  pub same_length : (rows : List Reservation) → length (arrange rows) ≡ length rows

unfoldable pub expired_batch : Arranging → Uploading → Uuid → List Reservation
expired_batch db_order db p =
    take 100 (db_order.arrange (select (is_expired p db.now) db.reservations))

-- The `for` loop over `storage.delete`, which stops at the first call that fails; `deletes` says
-- which calls succeed
unfoldable pub delete_payloads :
    (Uuid → Text) → (Reservation → Bool) → Uuid → List Reservation → Uploading → Bool × Uploading
delete_payloads show_id deletes p [] db = (true, db)
delete_payloads show_id deletes p (r ∷ rows) db =
    if deletes r
    then delete_payloads show_id deletes p rows (delete_object db p (payload_key show_id r.id))
    else (false, db)

abbrev pub in_batch : Uuid → ℕ → List Reservation → Reservation → Bool
in_batch p now rows r = is_expired p now r && exists (λ (s : Reservation). s.id == r.id) rows

-- The deletion of the rows of a batch that had expired when the clean-up began
unfoldable pub delete_rows : Uuid → ℕ → List Reservation → Uploading → Uploading
delete_rows p now rows db = record db {
  reservations = remove (in_batch p now rows) db.reservations;
}

-- How the calls of a clean-up end: which deletions of objects succeed, and for which batches the
-- transaction that deletes the rows commits
pub record Sweeping : Type 0 where
  pub deletes : Reservation → Bool
  pub commits : List Reservation → Bool

abbrev pub Outcome : Type 0
Outcome = Result Error (Unit {0}) × Uploading

-- One round of the loop; where the transaction fails, the objects are gone and the rows stay.
unfoldable pub cleanup_pass :
    (Uuid → Text) → Sweeping → Uuid → List Reservation → Uploading → Outcome
cleanup_pass show_id w p rows db =
    let d = delete_payloads show_id w.deletes p rows db in
    if not d.0
    then (err storage_failed, d.1)
    else if w.commits rows
    then (ok tt, delete_rows p db.now rows d.1)
    else (err database_failed, d.1)

abbrev pub next_pass : (Uploading → Outcome) → Outcome → Outcome
next_pass rest (ok done, db) = rest db
next_pass rest (err e, db) = (err e, db)

module _ (show_id : Uuid → Text) (order : Arranging) (w : Sweeping) (p : Uuid) where
  abbrev pub cleanup_with : (Uploading → Outcome) → Uploading → List Reservation → Outcome
  cleanup_with rest db [] = (ok tt, db)
  cleanup_with rest db (r ∷ rows) = next_pass rest (cleanup_pass show_id w p (r ∷ rows) db)

  -- `cleanupExpiredReservations`, with the rounds that it may take
  unfoldable pub cleanup : ℕ → Uploading → Outcome
  cleanup zero db = (err out_of_fuel, db)
  cleanup (suc fuel) db = cleanup_with (cleanup fuel) db (expired_batch order db p)
