-- ===== src/Lib.antt =====
-- Reeva: a server that distributes releases of software products over a public update API, with an
-- administration interface. This library models the services under app/services with the queries
-- that they make, and shows what their operations keep and what their answers mean.
--
-- The database is a record of tables, each table a list of rows (Model, Prelude.Table); a query is a
-- selection from such a list, an operation a function from the tables to a result with the new
-- tables. An `err` is an exception, after which a transaction has changed nothing. Operations run in
-- one transaction with the rows locked, or are taken to run one after the other.
--
--   Prelude        the shared names: tests, lists, JavaScript strings as UTF-16 units, tables, results
--   Model          database/schema.ts and app/models: the rows
--   Input          app/services/pagination.ts and the readers of
--                  app/controllers/api/updater_controller.ts and app/services/version_service.ts
--   Release        app/repositories/artifact_repository.ts: `publicQuery` is `is_public`
--   Signature      app/services/ota_release_signature_service.ts
--   Updater        app/services/updater_service.ts: `checkForUpdate`, `getLatest`, `getReleases`,
--                  `recordAndStream`
--   Artifacts      app/services/artifact_service.ts: file names, `publishArtifact`,
--                  `setArtifactSignature`, and in Edit `updateArtifact`, `deleteArtifact` and
--                  `rebuildAllNames`
--   Uploads        app/services/artifact_service.ts: `uploadArtifact` with its checks (Plan), the quota
--                  reservation and its clean-up (Quota), and the steps of uploads and clean-ups side by
--                  side (Steps), which Rounds, Parts and Runs follow through the code's runs, Stored,
--                  Kept and Emptied through the stores, and Within and Sizes through the quotas
--   Storage        app/services/storage_provider_service.ts and
--                  app/services/storage/storage_manager.ts, with
--                  app/services/storage/s3_compatible_config.ts in Config
--   Managed        app/services/managed_signer_service.ts and `importManagedSignature` of
--                  app/services/artifact_service.ts
--   Settings       app/services/setting_service.ts
--   Headers        app/services/download_headers.ts
--   Uuid           the pattern of app/controllers/api/updater_controller.ts
--   Api            app/controllers/api/updater_controller.ts: `check`, `latest`, `releases`, `download`
--   Versions       app/services/version_service.ts: the form, edits, and the semver filter
--   Products       app/services/software_service.ts: state, default product, signing
--                  keys, the requirement of signatures, and in Slug `create`
--   Licenses       app/services/license_service.ts: licenses and activations
--   Auth           app/services/auth_service.ts, app/services/user_service.ts and
--                  app/middleware/auth_middleware.ts: resets, passwords, sessions, rate limits; in Login
--                  `store` of app/controllers/session_controller.ts
--   Sample         a small catalog for the examples, which stand in the modules named Tests
--
-- The updater reads through the predicate of Release, which compares the stored manifest of
-- Signature; Artifacts stores that manifest, and Versions and Products clear it.
--
-- Parameters stand for code outside the repository: Node's Ed25519, SHA-256, JSON and base64url,
-- `semver`, the date library, Unicode normalization and lower case, the database's ORDER BY, object
-- stores. Each call of a store or the database in an upload or a clean-up may fail; the records
-- Attempt and Sweeping say which do. Numbers are natural numbers; those that the code limits (`Number.MAX_SAFE_INTEGER`, nine
-- digits) carry the limit. All recursion is structural, except printing in decimal, whose fuel
-- `suc n` exceeds the number of digits of n, and the clean-up of reservations, whose fuel exceeds
-- their number, of which each round that does not end the loop removes at least one. The search for a slug has two rounds more
-- than there are products: its candidates with a suffix differ from each other.
--
-- Not modelled: the file system and S3 back ends, the call to the managed signer and its separate
-- service, the dashboard, the CMS controllers and views, migrations, seeders and start-up code; they are
-- input and output, glue, or independent of the parts above.
pub mod Prelude
pub mod Managed
pub mod Model
pub mod Headers
pub mod Input
pub mod Release
pub mod Settings
pub mod Signature
pub mod Storage
pub mod Updater
pub mod Uploads
pub mod Uuid
pub mod Api
pub mod Artifacts
pub mod Licenses
pub mod Versions
pub mod Auth
pub mod Sample
pub mod Products
