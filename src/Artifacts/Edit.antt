-- ===== src/Artifacts/Edit.antt =====
-- app/services/artifact_service.ts: `updateArtifact`, `deleteArtifact` and `rebuildAllNames`.
use reeva.Prelude.{
  ℕ, suc, Bool, false, ◌&&◌, Option, none, some, List, [], ◌∷◌, Text, lit, same, ◌==◌, find, select,
  is_none, if◌then◌else◌, Result, ok, err, or_fail, require, ◌>>=◌, ◌>>◌,
}
use reeva.Model.{Uuid, Platform, Architecture, Artifact, Catalog}
use reeva.Input.{Value, bool, text, is_channel, is_falsy}
use reeva.Signature.{Loaded, load}
use reeva.Versions.{find_version}
use reeva.Artifacts.{build_file_name, find_artifact, save}
use reeva.Uploads.Plan.{
  Error, Texts, unsupported_channel, row_not_found, unsupported_architecture, inactive_software,
  broken_relation, reference, runs_on, last_part, software_of,
}
use reeva.Uploads.{Checksums}

pub record EditForm : Type 0 where
  pub version_id : Value
  pub platform_id : Value
  pub architecture_id : Value
  pub storage_provider_id : Value
  pub channel : Value
  pub is_archived : Value

-- The storage provider is checked only if it is given.
abbrev pub optional_reference : Value → Result Error (Unit {0})
optional_reference v = if is_falsy v then ok tt else reference v >>= λ id. ok tt

-- `['dev', …].includes(data.channel)`
abbrev pub edit_channel : Value → Result Error Text
edit_channel (text s) = if is_channel s then ok s else err unsupported_channel
edit_channel _ = err unsupported_channel

-- `value === 'on' || value === true`
abbrev pub is_on : Value → Bool
is_on (text s) = same s (lit "on")
is_on (bool b) = b
is_on _ = false

-- `ext || 'bin'`
abbrev pub or_bin : Text → Text
or_bin [] = lit "bin"
or_bin (c ∷ s) = c ∷ s

-- The extension that a rebuilt name keeps
abbrev pub kept_extension : Artifact → Text
kept_extension a = or_bin (last_part [] a.file_name)

abbrev pub unsigned : Artifact → Artifact
unsigned a = record a { signature = none; signature_key_id = none; signature_manifest = none }

-- `updateArtifact`
unfoldable pub update_artifact :
    Texts → Catalog → Uuid → EditForm → Result Error (Artifact × Catalog)
update_artifact t c id form = do
  version_id ← reference form.version_id
  platform_id ← reference form.platform_id
  architecture_id ← reference form.architecture_id
  optional_reference form.storage_provider_id
  channel ← edit_channel form.channel
  a ← or_fail (find_artifact c id) row_not_found
  v ← or_fail (find_version c.versions version_id) row_not_found
  p ←
      or_fail (find (λ (p : Platform). p.id == platform_id && is_none p.deleted_at) c.platforms)
        row_not_found
  r ←
      or_fail
        (find (λ (r : Architecture). r.id == architecture_id && is_none r.deleted_at)
          c.architectures)
        row_not_found
  require (runs_on (t.lower p.name) (t.lower r.name)) unsupported_architecture
  s ← or_fail (software_of c v) inactive_software
  require s.is_active inactive_software
  let b : Artifact = record (unsigned a) {
    version_id = version_id;
    platform_id = platform_id;
    architecture_id = architecture_id;
    is_archived = is_on form.is_archived;
    file_name = build_file_name t.nfkd s.name p.name r.name v (kept_extension a);
    channel = channel;
  }
  ok (b, save c b)

-- `deleteArtifact`, with the time of the call
unfoldable pub delete_artifact : Catalog → Uuid → ℕ → Result Error (Artifact × Catalog)
delete_artifact c id now = do
  a ← or_fail (find_artifact c id) row_not_found
  let b : Artifact = record a { deleted_at = some now }
  ok (b, save c b)

abbrev pub with_checksums : Artifact → Checksums → Artifact
with_checksums a h = record a {
  checksum = some h.sha256;
  checksum_md5 = some h.md5;
  checksum_sha1 = some h.sha1;
  checksum_sha256 = some h.sha256;
  checksum_sha512 = some h.sha512;
}

-- The new name of a row; a row without one of its relations raises a TypeError
unfoldable pub rebuilt_name : Texts → Loaded → Result Error Text
rebuilt_name t l = do
  v ← or_fail l.version broken_relation
  s ← or_fail l.software broken_relation
  p ← or_fail l.platform broken_relation
  r ← or_fail l.architecture broken_relation
  ok (build_file_name t.nfkd s.name p.name r.name v (kept_extension l.artifact))

-- One round of the loop, with the digests of the stored object if it can be read: the row, if it is
-- saved
unfoldable pub rebuilt : Artifact → Text → Option Checksums → Option Artifact
rebuilt a name none =
    if same a.file_name name then none else some (unsigned (record a { file_name = name }))
rebuilt a name (some h) = some (unsigned (with_checksums (record a { file_name = name }) h))

abbrev pub save_row :
    (ℕ → Catalog → Result Error ℕ × Catalog)
    → ℕ
    → Catalog
    → Option Artifact
    → Result Error ℕ × Catalog
save_row rest n c none = rest n c
save_row rest n c (some b) = rest (suc n) (save c b)

abbrev pub rebuild_row :
    (ℕ → Catalog → Result Error ℕ × Catalog)
    → Artifact
    → Option Checksums
    → ℕ
    → Catalog
    → Result Error Text
    → Result Error ℕ × Catalog
rebuild_row rest a h n c (err e) = (err e, c)
rebuild_row rest a h n c (ok name) = save_row rest n c (rebuilt a name h)

-- The `for` loop over the rows that were read, with the tables as they are; an exception leaves the
-- rows that were saved before it
unfoldable pub rebuild_rows :
    Texts
    → (Artifact → Option Checksums)
    → Catalog
    → List Artifact
    → ℕ
    → Catalog
    → Result Error ℕ × Catalog
rebuild_rows t read start [] n c = (ok n, c)
rebuild_rows t read start (a ∷ rows) n c =
    rebuild_row (rebuild_rows t read start rows) a (read a) n c (rebuilt_name t (load start a))

-- `rebuildAllNames`
unfoldable pub rebuild_all_names :
    Texts → (Artifact → Option Checksums) → Catalog → Result Error ℕ × Catalog
rebuild_all_names t read c =
    rebuild_rows t read c (select (λ (a : Artifact). is_none a.deleted_at) c.artifacts) 0 c
