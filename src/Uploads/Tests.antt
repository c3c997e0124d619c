-- ===== src/Uploads/Tests.antt =====
-- An upload of ten bytes to a provider with room for a hundred, and a clean-up of an expired row.
use reeva.Prelude.{
  ◌≡◌, refl, sym, ap, ◌∙◌, true, false, none, some, [], ◌∷◌, Memᴰ, lit, ok, inr, arith, decimal,
  decimal_from, value_of, value_of-decimal, same, length,
}
use reeva.Model.{Uuid, Catalog}
use reeva.Input.{text, undefined}
use reeva.Sample.{provider, catalog, version_of, windows, x64}
use reeva.Uuid.{is_uuid, fits, uuid_value, uuid_from}
use reeva.Versions.{find_version}
use reeva.Artifacts.{build_file_name, safe_file_part, replace_runs, strip_dashes}
use reeva.Uploads.Plan.{
  File, Form, Texts, Upload, find_provider, plan, reference, accepts_channel, contains, runs_on,
  is_ext_valid, wants_publication,
}
use reeva.Uploads.Quota.{
  Reservation, Uploading, reserve_quota, usage, sum, Arranging, Sweeping, cleanup, expired_batch,
  cleanup_pass, delete_payloads, delete_object, delete_rows, payload_key, is_object,
}
use reeva.Uploads.{
  Checksums, Attempt, store_object, commit, upload_artifact, run_plan, after_cleanup, after_reserve,
  transfer, send, finish, compensate, release_reservation,
}
use reeva.Uploads.Steps.{IsReserved, IsFresh, reserved, stored, committed, Reach, here, next}
use reeva.Uploads.Within.{IsWithin, Reach-IsWithin}
use reeva.Uploads.Stored.{IsStored}
use reeva.Uploads.Emptied.{IsDeleted, delete_rows-none}
use reeva.Uploads.Ended.{IsRun}
use reeva.Uploads.Runs.{upload_artifact-IsRun}
use reeva.Uploads.Ends.{IsEnded, cleanup-IsEnded}

abbrev limited : Catalog
limited = record catalog {
  providers = record provider { quota_bytes = some 100 } ∷ [];
  artifacts = [];
}

abbrev empty : Uploading
empty = record { catalog = limited; reservations = []; objects = []; now = 1000 }

abbrev upload : Upload
upload = record {
  id = 60;
  file_name = lit "app.zip";
  version_id = 10;
  platform_id = 20;
  architecture_id = 30;
  storage_provider_id = 40;
  size_bytes = 10;
  channel = lit "dev";
  is_published = false;
}

abbrev sums : Checksums
sums = record { md5 = []; sha1 = []; sha256 = []; sha512 = [] }

abbrev row : Reservation
row = record { id = 60; storage_provider_id = 40; size_bytes = 10; expires_at = 604801000 }

abbrev promised : Uploading
promised = record empty { reservations = row ∷ [] }

reserve_run : reserve_quota empty 60 40 10 ≡ ok promised
unfolding reserve_quota find_provider usage sum
reserve_run = refl

held : IsReserved promised upload
held = record { expires_at = 604801000; row = Memᴰ.head refl; valid = omega arith }

abbrev sent : Uploading
sent = store_object promised 40 (payload_key decimal 60)

held_sent : IsReserved sent upload
unfolding store_object
held_sent = record { expires_at = 604801000; row = Memᴰ.head refl; valid = omega arith }

run : Reach decimal empty (commit decimal sent upload sums)
unfolding store_object
run =
    next (next (next here (reserved 60 40 10 tt reserve_run)) (stored upload held))
      (committed upload sums held_sent (Memᴰ.head refl))

within : IsWithin empty
unfolding usage sum
within id p e = inr (omega arith)

Reach-IsWithin_example : IsWithin (commit decimal sent upload sums)
Reach-IsWithin_example = Reach-IsWithin within run

injective : (i j : Uuid) → decimal i ≡ decimal j → i ≡ j
injective i j e = sym (value_of-decimal i) ∙ ap value_of e ∙ value_of-decimal j

abbrev order : Arranging
order = record { arrange = λ rows. rows; keeps = λ rows r m. m; same_length = λ rows. refl }

abbrev sweeping : Sweeping
sweeping = record { deletes = λ r. true; commits = λ rows. true }

abbrev texts : Texts
texts = record { lower = λ s. s; nfkd = λ s. s; show_id = decimal }

abbrev file : File
file = record {
  tmp_path = some (lit "/tmp/f");
  size = 10;
  extname = some (lit "zip");
  client_name = lit "app.zip";
}

abbrev form : Form
form = record {
  version_id = text (lit "00000000-0000-1000-8000-00000000000a");
  platform_id = text (lit "00000000-0000-1000-8000-00000000000b");
  architecture_id = text (lit "00000000-0000-1000-8000-00000000000c");
  storage_provider_id = text (lit "00000000-0000-1000-8000-00000000000d");
  channel = none;
  is_published = undefined;
}

abbrev attempt : Attempt
attempt = record {
  resolves = true;
  checksums = some sums;
  uploaded = some (payload_key decimal 60);
  commits = true;
  deletes = true;
  unreserves = true;
}

-- The rows that the form names
abbrev named : Uploading
named = record empty {
  catalog = record limited {
    versions = version_of 0x1000800000000000000a 0 ∷ [];
    platforms = record windows { id = 0x1000800000000000000b } ∷ [];
    architectures = record x64 { id = 0x1000800000000000000c } ∷ [];
    providers = record provider { id = 0x1000800000000000000d; quota_bytes = some 100 } ∷ [];
  };
}

upload_run :
    length (upload_artifact texts order sweeping attempt named file form 60).1.catalog.artifacts ≡ 1
unfolding upload_artifact run_plan plan reference is_uuid fits uuid_value uuid_from accepts_channel
    find_version find_provider contains runs_on is_ext_valid wants_publication build_file_name
    safe_file_part replace_runs strip_dashes decimal decimal_from same cleanup expired_batch
    after_cleanup reserve_quota usage sum after_reserve transfer send store_object finish commit
upload_run = refl

-- The same upload, refused by the last transaction: nothing is left of it.
abbrev aborted : Attempt
aborted = record attempt { commits = false }

aborted_run : (upload_artifact texts order sweeping aborted named file form 60).1 ≡ named
unfolding upload_artifact run_plan plan reference is_uuid fits uuid_value uuid_from accepts_channel
    find_version find_provider contains runs_on is_ext_valid wants_publication build_file_name
    safe_file_part replace_runs strip_dashes decimal decimal_from same cleanup expired_batch
    after_cleanup reserve_quota usage sum after_reserve transfer send store_object finish compensate
    delete_object release_reservation
aborted_run = refl

upload_artifact-IsRun_example :
    IsRun decimal aborted 60 named (upload_artifact texts order sweeping aborted named file form 60)
upload_artifact-IsRun_example =
    upload_artifact-IsRun texts order sweeping aborted named file form 60 (tt, tt)

abbrev over : Uploading
over = record promised { now = 604801000 }

cleanup_run : cleanup decimal order sweeping 40 2 over ≡ (ok tt, record over { reservations = [] })
unfolding cleanup expired_batch cleanup_pass delete_payloads delete_object delete_rows
cleanup_run = refl

cleanup-IsEnded_example : IsEnded 40 sweeping (cleanup decimal order sweeping 40 2 over)
cleanup-IsEnded_example = cleanup-IsEnded decimal order sweeping 40 2 over (omega arith)

-- The reservation has expired, and its object is still there.
abbrev late : Uploading
late = record sent { now = 604801000 }

late-IsStored : IsStored decimal late
unfolding store_object
late-IsStored = record {
  tracked =
      λ o m. elim m [ Memᴰ.head e ↦ inr (row, Memᴰ.head refl, sym e) | Memᴰ.tail n ↦ elim n [ ] ];
  kept = λ a m. elim m [ ];
  apart = λ r a m n. elim n [ ];
  keyed = λ r s m n i. one r m ∙ sym (one s n);
}
  where
    one : (r : Reservation) → Memᴰ r (row ∷ []) → r ≡ row
    one r (Memᴰ.head e) = e
    one r (Memᴰ.tail m) = elim m [ ]

-- The object is deleted, and another upload stores its own.
abbrev emptied : Uploading
emptied = delete_object late 40 (payload_key decimal 60)

abbrev other : Upload
other = record upload { id = 61 }

abbrev both : Uploading
both = record emptied { reservations = record row { id = 61; expires_at = 1209601000 } ∷ row ∷ [] }

other_run : reserve_quota emptied 61 40 10 ≡ ok both
unfolding reserve_quota find_provider usage sum delete_object store_object
other_run = refl

held_other : IsReserved both other
unfolding delete_object store_object
held_other = record { expires_at = 1209601000; row = Memᴰ.head refl; valid = omega arith }

abbrev after : Uploading
after = store_object both 40 (payload_key decimal 61)

other-IsFresh : IsFresh emptied 61
unfolding delete_object store_object
other-IsFresh = tt

row-IsDeleted : IsDeleted decimal 40 604801000 after row
unfolding store_object
row-IsDeleted = record {
  before = late;
  agreed = late-IsStored;
  row = Memᴰ.head refl;
  expired = refl;
  later = omega arith;
  since = next (next here (reserved 61 40 10 other-IsFresh other_run)) (stored other held_other);
}

row_there : Memᴰ row after.reservations
unfolding store_object
row_there = Memᴰ.tail (Memᴰ.head refl)

object_there : Memᴰ (record { provider_id = 40; key = payload_key decimal 61 }) after.objects
unfolding store_object
object_there = Memᴰ.head refl

delete_rows-none_example :
    is_object 40
      (payload_key decimal 60)
      (record { provider_id = 40; key = payload_key decimal 61 })
    ≡ false
delete_rows-none_example =
    delete_rows-none decimal after 40 604801000 (row ∷ []) row
      (record { provider_id = 40; key = payload_key decimal 61 }) injective (row-IsDeleted, tt)
      row_there refl object_there
