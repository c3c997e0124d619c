-- ===== src/Api.antt =====
-- app/controllers/api/updater_controller.ts: the four handlers of the public update API, with the
-- responses that they give. The URL of a path below the configured one, the text of a row's id, and
-- `semver.gt` come from outside; `semver.valid` accepts what `semver.parse` reads.
pub mod Bodies
pub mod Links
mod Tests
use reeva.Prelude.{
  ℕ, ◌≡◌, Bool, true, false, not, ◌&&◌, ◌||◌, Option, none, some, List, [], ◌∷◌, ◌++◌, Text, lit,
  is_none, is_some, is_empty, length, leb, trim, if◌then◌else◌, Result, ok, err, or_fail, ◌>>=◌,
  ◌>>◌, decimal,
}
use reeva.Model.{Uuid, Version, Platform, Architecture, Artifact, Catalog}
use reeva.Input.{
  Value, undefined, null, text, read_text, ReleaseContext, release_context, positive_integer,
  is_missing,
}
use reeva.Release.{Candidate, version_text}
use reeva.Signature
use reeva.Signature.{Loaded, load, Codec, SignatureEnvelope, create_envelope}
use reeva.Headers.{encode_uri_component, attachment_disposition}
use reeva.Uuid.{is_uuid, uuid_value}
use reeva.Updater
use reeva.Updater.{
  SemVer, Sorting, Page, World, unsupported_target, software_not_found, check_for_update,
  get_latest, get_releases, record_and_stream,
}
use reeva.Api.Bodies.{
  Outside, UpdateBody, ReleaseBody, Uncaught, updater, manifest, type_error, uri_error,
  get_download_url, update_body, release_body, release_bodies, has_update, current_version,
  content_length,
}

pub data Response (Stream : Type 0) : Type 0 where
  -- a status with an error body
  failed : ℕ → Text → Response Stream
  no_content : Response Stream
  update : UpdateBody → Response Stream
  -- a release, and `hasUpdate`
  release : ReleaseBody → Bool → Response Stream
  page : List ReleaseBody → Page → Response Stream
  -- the disposition, the length if it is known, and the bytes
  streamed : Text → Option Text → Stream → Response Stream
  thrown : Uncaught → Response Stream

module _ {Stream : Type 0} where
  -- The `catch` clauses of `check` and `releases`
  abbrev pub failure : Updater.Error → Response Stream
  failure Updater.unsupported_target = failed 404 (lit "Platform or architecture not supported.")
  failure Updater.software_not_found = failed 404 (lit "Software not found.")
  failure e = thrown (updater e)

  abbrev pub or_thrown : {A : Type 0} → Result Uncaught A → (A → Response Stream) → Response Stream
  or_thrown (ok a) k = k a
  or_thrown (err e) k = thrown e

  unfoldable pub update_response :
      Outside → Catalog → Option Text → Result Updater.Error (Option Candidate) → Response Stream
  update_response out c slug (err e) = failure e
  update_response out c slug (ok none) = no_content
  update_response out c slug (ok (some x)) = or_thrown (update_body out c x.artifact slug) update

  unfoldable pub check_with :
      Outside → Catalog → Option Text → Option ReleaseContext → Option Text → Response Stream
  check_with out c slug (some ctx) (some version) =
      if is_some (out.parse version)
      then update_response out c slug
          (check_for_update out.db out.parse c ctx.platform ctx.arch version ctx.channel slug)
      else failed 400 (lit "Invalid platform, arch, channel, or version.")
  check_with out c slug _ _ = failed 400 (lit "Invalid platform, arch, channel, or version.")

  -- `check`, over the inputs `platform`, `arch`, `channel` and `version`
  unfoldable pub check :
      Outside → Catalog → Option Text → Value → Value → Value → Value → Response Stream
  check out c slug platform arch channel version =
      check_with out c slug (release_context platform arch channel) (read_text version)

  unfoldable pub latest_response :
      Outside
      → Catalog
      → Option Text
      → Option Text
      → Result Updater.Error (Option Candidate)
      → Response Stream
  latest_response out c slug current (err Updater.software_not_found) =
      failed 404 (lit "Software not found.")
  latest_response out c slug current (err e) = thrown (updater e)
  latest_response out c slug current (ok none) =
      failed 404 (lit "No releases found for the specified platform context.")
  latest_response out c slug current (ok (some x)) =
      or_thrown (release_body out c x.artifact slug)
        λ body. release body (has_update out current body.version)

  unfoldable pub latest_with :
      Outside
      → Catalog
      → Option Text
      → Option ReleaseContext
      → Option (Option Text)
      → Response Stream
  latest_with out c slug (some ctx) (some current) =
      latest_response out c slug current
        (get_latest out.db c ctx.platform ctx.arch ctx.channel slug)
  latest_with out c slug _ _ =
      failed 400 (lit "Invalid platform, arch, channel, or currentVersion.")

  -- `latest`
  unfoldable pub latest :
      Outside → Catalog → Option Text → Value → Value → Value → Value → Response Stream
  latest out c slug platform arch channel version =
      latest_with out c slug (release_context platform arch channel) (current_version out version)

  unfoldable pub page_response :
      Outside → Catalog → Option Text → Result Updater.Error Page → Response Stream
  page_response out c slug (err e) = failure e
  page_response out c slug (ok p) =
      if leb (length p.results) 0
      then failed 404 (lit "No releases found for the specified platform context.")
      else or_thrown (release_bodies out c p.results slug) (λ bodies. page bodies p)

  unfoldable pub releases_with :
      Outside
      → Catalog
      → Option Text
      → Option ReleaseContext
      → Option ℕ
      → Option ℕ
      → Response Stream
  releases_with out c slug (some ctx) (some number) (some limit) =
      page_response out c slug
        (get_releases out.db c ctx.platform ctx.arch ctx.channel limit number slug)
  releases_with out c slug _ _ _ =
      failed 400 (lit "Invalid platform, arch, channel, page, or limit.")

  -- `releases`
  unfoldable pub releases :
      Outside → Catalog → Option Text → Value → Value → Value → Value → Value → Response Stream
  releases out c slug platform arch channel page_input limit =
      releases_with out c slug (release_context platform arch channel)
        (positive_integer page_input 1 1000000) (positive_integer limit 20 100)

  abbrev pub stream_response : Artifact → Stream → Option Text → Response Stream
  stream_response a stream none = thrown uri_error
  stream_response a stream (some disposition) =
      streamed disposition (content_length a.size_bytes) stream

  -- The response of `download` and the tables after it
  unfoldable pub download_response :
      Catalog → Result Updater.Error (Artifact × Stream × Catalog) → Response Stream × Catalog
  download_response c (ok (a, stream, d)) =
      (stream_response a stream (attachment_disposition a.file_name), d)
  download_response c (err Updater.not_found) = (failed 404 (lit "Artifact not found."), c)
  download_response c (err Updater.software_not_found) = (failed 404 (lit "Software not found."), c)
  download_response c (err Updater.storage_unavailable) =
      (failed 503 (lit "Artifact storage is temporarily unavailable."), c)
  download_response c (err e) = (thrown (updater e), c)

  -- `download`, over the path's id, the client's address and its user agent
  unfoldable pub download :
      World Stream → Catalog → Option Text → Text → Text → Option Text → Response Stream × Catalog
  download w c slug id ip agent =
      if is_uuid id
      then download_response c (record_and_stream w c (uuid_value id) ip agent slug)
      else (failed 404 (lit "Artifact not found."), c)
