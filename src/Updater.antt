-- ===== src/Updater.antt =====
-- app/services/updater_service.ts: the queries for updates. `semver.parse`, the database's ORDER BY
-- and the object stores are not code of this repository: they are parameters.
pub mod Newest
pub mod Agree
pub mod Order
pub mod Paging
pub mod Download
mod Tests
use reeva.Prelude.{
  ℕ, ◌+◌, ◌-◌, ◌*◌, ◌/◌, ◌≡◌, Bool, true, false, not, ◌&&◌, ◌||◌, Option, none, some, List, [], ◌∷◌,
  ◌++◌, map, Memᴰ, Text, lit, same, is_none, is_some, ltb, ◌==◌, if◌then◌else◌, select, find,
  exists, length, take, drop, Result, ok, err, or_fail, require, ◌>>=◌, ◌>>◌, update,
}
use reeva.Model.{
  Uuid, Software, Version, Platform, Architecture, Artifact, StorageProvider, DownloadHistory,
  Catalog,
}
use reeva.Release.{Candidate, is_public, join}

pub data Error : Type 0 where
  invalid_version software_not_found unsupported_target not_found storage_unavailable : Error
  -- the plain `Error` that `getReleases` throws for an unknown platform or architecture
  unsupported_plain : Error

-- What a parsed semantic version holds; build metadata are not compared.
pub record SemVer : Type 0 where
  pub major : ℕ
  pub minor : ℕ
  pub patch : ℕ
  pub prerelease : List Text

abbrev pub not_nil {ℓ} : {A : Type ℓ} → List A → Bool
not_nil [] = false
not_nil (x ∷ xs) = true

-- The `where` group of `checkForUpdate`
unfoldable pub newer : SemVer → Version → Bool
newer current v =
    ltb current.major v.major
    || (v.major == current.major && ltb current.minor v.minor)
    || (v.major == current.major && v.minor == current.minor && ltb current.patch v.patch)
    || (not_nil current.prerelease
        && (v.major == current.major && v.minor == current.minor && v.patch == current.patch))

-- The order of version numbers
abbrev pub lex_lt : Version → Version → Bool
lex_lt a b =
    ltb a.major b.major
    || (a.major == b.major && (ltb a.minor b.minor || (a.minor == b.minor && ltb a.patch b.patch)))

-- `a` does not come after `b` in `ORDER BY major DESC, minor DESC, patch DESC`.
abbrev pub AtLeast : Version → Version → Type 0
AtLeast a b = lex_lt a b ≡ false

abbrev pub IsDescending : List Candidate → Type 0
IsDescending [] = Unit
IsDescending (x ∷ xs) =
    ((y : Candidate) → Memᴰ y xs → AtLeast x.version y.version) × IsDescending xs

-- The database's ORDER BY: the same rows, sorted; the order of ties is the database's.
pub record Sorting : Type 0 where
  pub order_by : List Candidate → List Candidate
  pub keeps : (xs : List Candidate) (x : Candidate) → Memᴰ x (order_by xs) → Memᴰ x xs
  pub covers : (xs : List Candidate) (x : Candidate) → Memᴰ x xs → Memᴰ x (order_by xs)
  pub same_length : (xs : List Candidate) → length (order_by xs) ≡ length xs
  pub descends : (xs : List Candidate) → IsDescending (order_by xs)

abbrev pub first {ℓ} : {A : Type ℓ} → List A → Option A
first [] = none
first (x ∷ xs) = some x

-- The rows behind `publicQuery(…).join(…)` with the three `where` clauses on the target
unfoldable pub targeted : Catalog → Uuid → Uuid → Uuid → Text → List Candidate
unfolding is_public join
targeted c software platform arch channel =
    select
      (λ (x : Candidate).
        is_public c (some software) x.artifact
        && x.artifact.platform_id == platform
        && x.artifact.architecture_id == arch
        && same x.artifact.channel channel)
      (join c.artifacts c.versions)

-- `findActiveBySlug`, or `findActiveDefault` with no slug
unfoldable pub resolve_software : Catalog → Option Text → Result Error Software
resolve_software c none =
    or_fail (find (λ s. s.is_default && s.is_active) c.software) software_not_found
resolve_software c (some slug) =
    or_fail (find (λ s. same s.slug slug && s.is_active) c.software) software_not_found

-- `Platform.findBy('name', …)` and `Architecture.findBy`, which leave out deleted rows
unfoldable pub find_platform : Catalog → Text → Option Platform
find_platform c name = find (λ p. same p.name name && is_none p.deleted_at) c.platforms

unfoldable pub find_architecture : Catalog → Text → Option Architecture
find_architecture c name = find (λ r. same r.name name && is_none r.deleted_at) c.architectures

-- `checkForUpdate`
unfoldable pub check_for_update :
    Sorting
    → (Text → Option SemVer)
    → Catalog
    → Text
    → Text
    → Text
    → Text
    → Option Text
    → Result Error (Option Candidate)
unfolding resolve_software find_platform find_architecture targeted newer
check_for_update db parse c platform arch version channel slug = do
  current ← or_fail (parse version) invalid_version
  software ← resolve_software c slug
  platform_row ← or_fail (find_platform c platform) unsupported_target
  architecture_row ← or_fail (find_architecture c arch) unsupported_target
  ok (
      first (
        db.order_by (
          select (λ x. newer current x.version)
            (targeted c software.id platform_row.id architecture_row.id channel))))

unfoldable pub newest :
    Sorting → Catalog → Software → Option Platform → Option Architecture → Text → Option Candidate
unfolding targeted
newest db c software (some p) (some r) channel =
    first (db.order_by (targeted c software.id p.id r.id channel))
newest db c software _ _ channel = none

-- `getLatest`
unfoldable pub get_latest :
    Sorting → Catalog → Text → Text → Text → Option Text → Result Error (Option Candidate)
unfolding resolve_software find_platform find_architecture newest
get_latest db c platform arch channel slug = do
  software ← resolve_software c slug
  ok (newest db c software (find_platform c platform) (find_architecture c arch) channel)

pub record Page : Type 0 where
  pub results : List Candidate
  pub total : ℕ
  pub page : ℕ
  pub limit : ℕ
  pub total_pages : ℕ

-- `Math.ceil(total / limit)`, with `paginate`'s LIMIT and OFFSET
unfoldable pub page_of : List Candidate → ℕ → ℕ → Page
page_of rows limit page = record {
  results = take limit (drop ((page - 1) * limit) rows);
  total = length rows;
  page = page;
  limit = limit;
  total_pages = (length rows + (limit - 1)) / limit;
}

-- `getReleases`
unfoldable pub get_releases :
    Sorting → Catalog → Text → Text → Text → ℕ → ℕ → Option Text → Result Error Page
unfolding resolve_software find_platform find_architecture targeted page_of
get_releases db c platform arch channel limit page slug = do
  software ← resolve_software c slug
  platform_row ← or_fail (find_platform c platform) unsupported_plain
  architecture_row ← or_fail (find_architecture c arch) unsupported_plain
  ok (
      page_of (db.order_by (targeted c software.id platform_row.id architecture_row.id channel))
        limit page)

-- The outside world of a download: `StorageManager.resolve(…).getStream(key)`, which may throw;
-- whether the transaction that records the download commits; and `isIP`.
pub record World (Stream : Type 0) : Type 0 where
  pub stream : StorageProvider → Text → Option Stream
  pub commits : Bool
  pub is_ip : Text → Bool

-- `increment('download_count', 1)` and `DownloadHistory.create`
unfoldable pub record_download : Catalog → Artifact → DownloadHistory → Catalog
record_download c a row = record c {
  artifacts =
      update (λ (b : Artifact). b.id == a.id)
        (λ b. record b { download_count = b.download_count + 1 }) c.artifacts;
  downloads = row ∷ c.downloads;
}

-- `userAgent?.slice(0, 2048) || null`
abbrev pub agent_of : Option Text → Option Text
agent_of none = none
agent_of (some s) = elim (take 2048 s) [ [] ↦ none | c ∷ r ↦ some (c ∷ r) ]

unfoldable pub history_row : Artifact → (Text → Bool) → Text → Option Text → DownloadHistory
history_row a is_ip ip agent = record {
  artifact_id = a.id;
  ip_address = if is_ip ip then some (take 50 ip) else none;
  user_agent = agent_of agent;
}

-- `recordAndStream`: the artifact and its stream, beside the tables afterwards
unfoldable pub record_and_stream :
    {Stream : Type 0}
    → World Stream
    → Catalog
    → Uuid
    → Text
    → Option Text
    → Option Text
    → Result Error (Artifact × Stream × Catalog)
unfolding resolve_software record_download history_row is_public
record_and_stream w c artifact_id ip agent slug = do
  software ← resolve_software c slug
  artifact ←
      or_fail
        (find (λ (a : Artifact). is_public c (some software.id) a && a.id == artifact_id)
          c.artifacts)
        not_found
  provider ←
      or_fail
        (find
          (λ (p : StorageProvider). p.id == artifact.storage_provider_id && is_none p.deleted_at)
          c.providers)
        storage_unavailable
  stream ← or_fail (w.stream provider artifact.storage_key) storage_unavailable
  ok (
    artifact,
    stream,
    (if w.commits then record_download c artifact (history_row artifact w.is_ip ip agent) else c),
  )
