-- ===== src/Versions.antt =====
-- app/services/version_service.ts: the releases of a product. `semver.valid` and the date library
-- are not code of this repository: they are parameters.
pub mod Filter
pub mod Match
pub mod Numbers
pub mod Steps
pub mod Resign
mod Tests
use reeva.Prelude.{
  ℕ, ◌≡◌, Bool, true, false, not, ◌&&◌, ◌||◌, Option, none, some, List, ◌∷◌, ◌++◌, Text, lit, same,
  same_option, is_none, is_some, is_empty, leb, ltb, ◌==◌, if◌then◌else◌, find, update, length,
  trim, decimal, Result, ok, err, or_fail, require, ◌>>=◌, ◌>>◌,
}
use reeva.Model.{Uuid, Software, Version, Artifact, Manifest, Catalog}
use reeva.Input.{Value, undefined, null, bool, text, is_falsy, parse_part}

pub data Error : Type 0 where
  software_required software_not_found inactive_software invalid_parts invalid_number duplicate :
      Error
  codename_too_long changelog_too_long invalid_date not_found has_artifacts : Error

-- `semver.valid`, `DateTime.fromISO(…).isValid` (a date when it is valid) and `toISODate`
pub record Formats : Type 0 where
  pub is_semver : Text → Bool
  pub from_iso : Text → Option ℕ
  pub to_iso_date : ℕ → Text

-- The fields of the form
pub record VersionForm : Type 0 where
  pub software_id : Option Uuid
  pub major : Value
  pub minor : Value
  pub patch : Value
  pub codename : Value
  pub changelogs : Value
  pub changelog : Value
  pub is_active : Value
  pub release_date : Value

pub record Parts : Type 0 where
  pub major : ℕ
  pub minor : ℕ
  pub patch : ℕ

unfoldable pub parts_of : Option ℕ → Option ℕ → Option ℕ → Result Error Parts
parts_of (some a) (some b) (some c) = ok (record { major = a; minor = b; patch = c })
parts_of _ _ _ = err invalid_parts

-- `parseVersionParts`
unfoldable pub parse_version_parts : VersionForm → Result Error Parts
unfolding parts_of
parse_version_parts form =
    parts_of (parse_part form.major) (parse_part form.minor) (parse_part form.patch)

-- `value === undefined || value === null || value === ''`
abbrev pub is_blank : Value → Bool
is_blank undefined = true
is_blank null = true
is_blank (text s) = is_empty s
is_blank _ = false

-- `parseCodename`, with `value.trim() || null`
unfoldable pub parse_codename : Value → Result Error (Option Text)
parse_codename (text s) =
    if is_empty s
    then ok none
    else if ltb 100 (length s)
    then err codename_too_long
    else ok (if is_empty (trim s) then none else some (trim s))
parse_codename value = if is_blank value then ok none else err codename_too_long

-- `parseChangelog`
unfoldable pub parse_changelog : Value → Result Error (Option Text)
parse_changelog (text s) =
    if is_empty s
    then ok none
    else if ltb 20000 (length s)
    then err changelog_too_long
    else ok (some s)
parse_changelog value = if is_blank value then ok none else err changelog_too_long

unfoldable pub parsed_date : Formats → Text → Option ℕ → Result Error (Option ℕ)
parsed_date formats s none = err invalid_date
parsed_date formats s (some d) =
    if same (formats.to_iso_date d) s then ok (some d) else err invalid_date

-- `parseReleaseDate`
unfoldable pub parse_release_date : Formats → Value → Result Error (Option ℕ)
unfolding parsed_date
parse_release_date formats (text s) =
    if is_empty s then ok none else parsed_date formats s (formats.from_iso s)
parse_release_date formats value = if is_blank value then ok none else err invalid_date

-- `data.changelogs || data.changelog`
abbrev pub or_else : Value → Value → Value
or_else a b = if is_falsy a then b else a

abbrev pub is_on : Value → Bool
is_on (text s) = same s (lit "on")
is_on _ = false

abbrev pub is_true : Value → Bool
is_true (bool b) = b
is_true _ = false

abbrev pub number_text : Parts → Text
number_text p = decimal p.major ++ lit "." ++ decimal p.minor ++ lit "." ++ decimal p.patch

-- A live row of `query().where('major', …)…` with the `whereNot` of an update
unfoldable pub has_number : Parts → Uuid → Option Uuid → Version → Bool
has_number p software exclude v =
    v.major == p.major
    && v.minor == p.minor
    && v.patch == p.patch
    && v.software_id == software
    && is_none v.deleted_at
    && not (elim exclude [ none ↦ false | some id ↦ v.id == id ])

-- `validateAndCheckDuplicate`
unfoldable pub check_duplicate :
    Formats → List Version → Parts → Uuid → Option Uuid → Result Error Unit
unfolding has_number
check_duplicate formats versions p software exclude = do
  require (formats.is_semver (number_text p)) invalid_number
  require (is_none (find (has_number p software exclude) versions)) duplicate

-- `versionRepository.findById`
unfoldable pub find_version : List Version → Uuid → Option Version
find_version versions id = find (λ (v : Version). v.id == id && is_none v.deleted_at) versions

-- `version.save()`
unfoldable pub save : Version → List Version → List Version
save v versions = update (λ (w : Version). w.id == v.id) (λ w. v) versions

-- `createVersion`, over a fresh UUID; `software_id` is `none` when the form holds no string
unfoldable pub create_version : Formats → Catalog → Uuid → VersionForm → Result Error Catalog
create_version formats c fresh form = do
  software_id ← or_fail form.software_id software_required
  s ← or_fail (find (λ (s : Software). s.id == software_id) c.software) software_not_found
  require s.is_active inactive_software
  p ← parse_version_parts form
  check_duplicate formats c.versions p s.id none
  codename ← parse_codename form.codename
  changelog ← parse_changelog (or_else form.changelogs form.changelog)
  date ← parse_release_date formats form.release_date
  let created : Version = record {
    id = fresh;
    software_id = s.id;
    major = p.major;
    minor = p.minor;
    patch = p.patch;
    codename = codename;
    changelog = changelog;
    is_active = is_on form.is_active;
    release_date = date;
    deleted_at = none;
  }
  ok (record c { versions = created ∷ c.versions })

-- `signedMetadataChanged`
unfoldable pub has_changed : Version → Version → Bool
has_changed v w =
    not (v.major == w.major)
    || not (v.minor == w.minor)
    || not (v.patch == w.patch)
    || not (same_option v.codename w.codename)
    || not (same_option v.changelog w.changelog)

-- `Artifact.query().where('versionId', …).update({ signature: null, … })`
unfoldable pub unsign : Uuid → List Artifact → List Artifact
unsign version =
    update (λ (a : Artifact). a.version_id == version)
      (λ (a : Artifact). record a {
        signature = none;
        signature_key_id = none;
        signature_manifest = none;
      })

-- `version.merge({ … })`
abbrev pub merge : Version → Parts → Option Text → Option Text → Bool → Option ℕ → Version
merge v p codename changelog active date = record v {
  major = p.major;
  minor = p.minor;
  patch = p.patch;
  codename = codename;
  changelog = changelog;
  is_active = active;
  release_date = date;
}

-- The two writes of `updateVersion`
unfoldable pub store_version : Catalog → Version → Version → Catalog
unfolding has_changed save unsign
store_version c v w =
    if has_changed v w
    then record c { versions = save w c.versions; artifacts = unsign v.id c.artifacts }
    else record c { versions = save w c.versions }

-- `updateVersion`
unfoldable pub update_version : Formats → Catalog → Uuid → VersionForm → Result Error Catalog
update_version formats c id form = do
  v ← or_fail (find_version c.versions id) not_found
  p ← parse_version_parts form
  check_duplicate formats c.versions p v.software_id (some v.id)
  codename ← parse_codename form.codename
  changelog ← parse_changelog (or_else form.changelogs form.changelog)
  date ← parse_release_date formats form.release_date
  ok (
      store_version c v
        (merge v p codename changelog (is_on form.is_active || is_true form.is_active) date))

-- `toggleVersion`
unfoldable pub toggle_version : Catalog → Uuid → Result Error Catalog
toggle_version c id = do
  v ← or_fail (find_version c.versions id) not_found
  ok (record c { versions = save (record v { is_active = not v.is_active }) c.versions })

-- `deleteVersion`, which is a soft delete
unfoldable pub delete_version : Catalog → Uuid → ℕ → Result Error Catalog
delete_version c id now = do
  v ← or_fail (find_version c.versions id) not_found
  require
      (is_none (find (λ (a : Artifact). a.version_id == v.id && is_none a.deleted_at) c.artifacts))
      has_artifacts
  ok (record c { versions = save (record v { deleted_at = some now }) c.versions })
