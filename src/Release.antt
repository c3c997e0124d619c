-- ===== src/Release.antt =====
-- app/repositories/artifact_repository.ts: which artifacts the public may see.
pub mod Eligible
mod Tests
use mathlib.Core.Option
use reeva.Prelude.{
  ℕ, ◌+◌, ◌-◌, ◌*◌, ◌/◌, ◌≡◌, Bool, true, false, not, ◌&&◌, ◌||◌, Option, none, some, List, [], ◌∷◌,
  ◌++◌, map, Memᴰ, Text, lit, same, same_option, is_none, is_some, decimal, ltb, ◌==◌,
  if◌then◌else◌, select, find, exists, length, take, drop, Result, ok, err, or_fail, ◌>>=◌, update,
}
use reeva.Model.{
  Uuid, Software, SigningKey, Version, Platform, Architecture, Manifest, Artifact, Catalog,
}

-- `${major}.${minor}.${patch}`
unfoldable pub version_text : ℕ → ℕ → ℕ → Text
version_text major minor patch =
    decimal major ++ (lit "." ++ (decimal minor ++ (lit "." ++ decimal patch)))

-- The `jsonb_build_object` of `publicQuery`: the manifest of the artifact as it is now.
unfoldable pub current_manifest : Catalog → Software → Version → Artifact → Manifest
unfolding version_text
current_manifest c s v a = record {
  schema_version = 1;
  software = s.slug;
  version = version_text v.major v.minor v.patch;
  codename = v.codename;
  changelog = v.changelog;
  channel = a.channel;
  platform = Option.map (λ (p : Platform). p.name) (find (λ p. p.id == a.platform_id) c.platforms);
  architecture =
      Option.map (λ (r : Architecture). r.name)
        (find (λ r. r.id == a.architecture_id) c.architectures);
  file_name = a.file_name;
  size_bytes = a.size_bytes;
  sha256 = a.checksum_sha256;
}

abbrev pub same_number : Option ℕ → Option ℕ → Bool
same_number none none = true
same_number (some m) (some n) = m == n
same_number _ _ = false

-- `=` on jsonb objects
unfoldable pub same_manifest : Manifest → Manifest → Bool
same_manifest m n =
    m.schema_version == n.schema_version
    && same m.software n.software
    && same m.version n.version
    && same_option m.codename n.codename
    && same_option m.changelog n.changelog
    && same m.channel n.channel
    && same_option m.platform n.platform
    && same_option m.architecture n.architecture
    && same m.file_name n.file_name
    && same_number m.size_bytes n.size_bytes
    && same_option m.sha256 n.sha256

abbrev pub matches : Option Manifest → Manifest → Bool
matches none m = false
matches (some s) m = same_manifest s m

-- The `orWhereExists` on the signing keys
unfoldable pub is_signed : Catalog → Software → Version → Artifact → Bool
is_signed c s v a =
    exists
      (λ (k : SigningKey).
        k.software_id == s.id
        && same_option (some k.key_id) a.signature_key_id
        && k.is_active
        && is_some a.signature
        && matches a.signature_manifest (current_manifest c s v a))
      c.keys

abbrev pub chosen : Option Uuid → Uuid → Bool
chosen none id = true
chosen (some wanted) id = id == wanted

-- One row of the join of versions with software, against an artifact
unfoldable pub is_eligible : Catalog → Option Uuid → Artifact → Version → Software → Bool
unfolding is_signed
is_eligible c software_id a v s =
    s.id == v.software_id
    && v.id == a.version_id
    && is_none v.deleted_at
    && v.is_active
    && s.is_active
    && (not s.require_signed_updates || is_signed c s v a)
    && chosen software_id s.id

-- The `where` clauses of `publicQuery`, for one artifact
unfoldable pub is_public : Catalog → Option Uuid → Artifact → Bool
unfolding is_eligible
is_public c software_id a =
    is_none a.deleted_at
    && exists (λ v. exists (is_eligible c software_id a v) c.software) c.versions
    && exists (λ p. p.id == a.platform_id && is_none p.deleted_at) c.platforms
    && exists (λ r. r.id == a.architecture_id && is_none r.deleted_at) c.architectures
    && exists (λ p. p.id == a.storage_provider_id && is_none p.deleted_at && p.is_active)
        c.providers
    && a.is_published
    && not a.is_archived

-- An artifact with its row of `join('versions as v', …)`
pub record Candidate : Type 0 where
  pub artifact : Artifact
  pub version : Version

unfoldable pub with_version : Artifact → List Version → List Candidate
with_version a [] = []
with_version a (v ∷ vs) =
    let rest = with_version a vs in
    if v.id == a.version_id then record { artifact = a; version = v } ∷ rest else rest

unfoldable pub join : List Artifact → List Version → List Candidate
unfolding with_version
join [] vs = []
join (a ∷ rest) vs = with_version a vs ++ join rest vs
