-- ===== src/Uploads/Plan.antt =====
-- app/services/artifact_service.ts: what `uploadArtifact` and `assertUploadMetadata` check before an
-- upload touches the storage, and the row that it will write. A request's channel is given by its
-- `String(…)`, `none` for undefined; a file's size is a number of bytes.
use reeva.Prelude.{
  ℕ, Bool, true, false, not, ◌&&◌, ◌||◌, Option, none, some, List, [], ◌∷◌, ◌++◌, Text, lit, same,
  leb, ◌==◌, exists, find, is_none, is_empty, truthy, if◌then◌else◌, Result, ok, err, or_fail,
  require, ◌>>=◌, ◌>>◌,
}
use reeva.Model.{Uuid, Software, Version, Platform, Architecture, StorageProvider, Catalog}
use reeva.Input.{Value, bool, text, max_safe, is_channel}
use reeva.Uuid.{is_uuid, uuid_value}
use reeva.Versions.{find_version}
use reeva.Artifacts.{build_file_name}

pub data Error : Type 0 where
  invalid_reference unsupported_channel empty_file row_not_found provider_not_active : Error
  unsupported_architecture invalid_extension inactive_software must_be_draft : Error
  quota_exceeded file_too_large duplicate_key storage_failed database_failed unreadable_file : Error
  key_changed incomplete_storage out_of_fuel broken_relation : Error

-- The file of a multipart request
pub record File : Type 0 where
  pub tmp_path : Option Text
  pub size : ℕ
  pub extname : Option Text
  pub client_name : Text

pub record Form : Type 0 where
  pub version_id : Value
  pub platform_id : Value
  pub architecture_id : Value
  pub storage_provider_id : Value
  pub channel : Option Text
  pub is_published : Value

-- `toLowerCase`, NFKD normalization, and the text of an id
pub record Texts : Type 0 where
  pub lower : Text → Text
  pub nfkd : Text → Text
  pub show_id : Uuid → Text

-- What is known of an upload once its checks have passed
pub record Upload : Type 0 where
  pub id : Uuid
  pub file_name : Text
  pub version_id : Uuid
  pub platform_id : Uuid
  pub architecture_id : Uuid
  pub storage_provider_id : Uuid
  pub size_bytes : ℕ
  pub channel : Text
  pub is_published : Bool

-- A field that has to hold a UUID
unfoldable pub reference : Value → Result Error Uuid
reference (text s) = if is_uuid s then ok (uuid_value s) else err invalid_reference
reference _ = err invalid_reference

-- `data.channel !== undefined && data.channel !== '' && …`
unfoldable pub accepts_channel : Option Text → Bool
accepts_channel none = true
accepts_channel (some s) = is_empty s || is_channel s

-- `data.channel || 'dev'`
abbrev pub or_dev : Option Text → Text
or_dev none = lit "dev"
or_dev (some []) = lit "dev"
or_dev (some (c ∷ s)) = c ∷ s

-- `data.isPublished === 'on' || data.isPublished === true`
unfoldable pub wants_publication : Value → Bool
wants_publication (text s) = same s (lit "on")
wants_publication (bool b) = b
wants_publication _ = false

abbrev pub starts : Text → Text → Bool
starts [] s = true
starts (p ∷ ps) [] = false
starts (p ∷ ps) (c ∷ s) = p == c && starts ps s

-- `s.includes(part)`
unfoldable pub contains : Text → Text → Bool
contains part [] = starts part []
contains part (c ∷ s) = starts part (c ∷ s) || contains part s

-- `split('.').pop()`
unfoldable pub last_part : Text → Text → Text
last_part part [] = part
last_part part (c ∷ s) = last_part (if c == b'.' then [] else part ++ (c ∷ [])) s

-- `file.extname || file.clientName.split('.').pop() || ''`
abbrev pub extension : File → Text
extension f = elim f.extname [
  | none ↦ last_part [] f.client_name
  | some s ↦ if is_empty s then last_part [] f.client_name else s
]

abbrev pub one_of : List Text → Text → Bool
one_of names s = exists (same s) names

-- `isExtValid`
unfoldable pub is_ext_valid : Text → Text → Bool
is_ext_valid platform ext =
    if contains (lit "windows") platform
    then one_of (lit "exe" ∷ lit "zip" ∷ lit "msi" ∷ lit "nupkg" ∷ []) ext
    else if contains (lit "mac") platform
    then one_of (lit "dmg" ∷ lit "pkg" ∷ lit "zip" ∷ lit "app" ∷ []) ext
    else if same platform (lit "android")
    then one_of (lit "apk" ∷ lit "aab" ∷ []) ext
    else if one_of
        (lit "linux"
          ∷ lit "ubuntu"
          ∷ lit "debian"
          ∷ lit "linux_mint"
          ∷ lit "fedora"
          ∷ lit "rhel"
          ∷ lit "centos"
          ∷ lit "opensuse"
          ∷ [])
        platform
    then one_of (lit "appimage" ∷ lit "deb" ∷ lit "rpm" ∷ lit "tar" ∷ lit "gz" ∷ lit "zip" ∷ []) ext
    else true

-- Android takes no x86 or x64.
unfoldable pub runs_on : Text → Text → Bool
runs_on platform architecture = not (
    same platform (lit "android")
    && (contains (lit "x86") architecture || contains (lit "x64") architecture))

unfoldable pub find_provider : Catalog → Uuid → Option StorageProvider
find_provider c id = find (λ (p : StorageProvider). p.id == id && is_none p.deleted_at) c.providers

-- `version.software`
abbrev pub software_of : Catalog → Version → Option Software
software_of c v = find (λ (s : Software). s.id == v.software_id) c.software

-- `uploadArtifact` up to the first call of the storage, with the id that `randomUUID` gives
unfoldable pub plan : Texts → Catalog → File → Form → Uuid → Result Error Upload
plan t c file form id = do
  version_id ← reference form.version_id
  platform_id ← reference form.platform_id
  architecture_id ← reference form.architecture_id
  provider_id ← reference form.storage_provider_id
  require (accepts_channel form.channel) unsupported_channel
  require (truthy file.tmp_path && leb file.size max_safe && leb 1 file.size) empty_file
  v ← or_fail (find_version c.versions version_id) row_not_found
  p ←
      or_fail (find (λ (p : Platform). p.id == platform_id && is_none p.deleted_at) c.platforms)
        row_not_found
  a ←
      or_fail
        (find (λ (a : Architecture). a.id == architecture_id && is_none a.deleted_at)
          c.architectures)
        row_not_found
  provider ← or_fail (find_provider c provider_id) row_not_found
  require provider.is_active provider_not_active
  require (runs_on (t.lower p.name) (t.lower a.name)) unsupported_architecture
  let ext : Text = t.lower (extension file)
  require (is_ext_valid (t.lower p.name) ext) invalid_extension
  s ← or_fail (software_of c v) inactive_software
  require s.is_active inactive_software
  require (not (wants_publication form.is_published && s.require_signed_updates)) must_be_draft
  ok (record {
    id = id;
    file_name = build_file_name t.nfkd s.name p.name a.name v ext;
    version_id = v.id;
    platform_id = p.id;
    architecture_id = a.id;
    storage_provider_id = provider.id;
    size_bytes = file.size;
    channel = or_dev form.channel;
    is_published = wants_publication form.is_published;
  })
