-- ===== src/Versions/Resign.antt =====
-- That an edit of a version never leaves a signature that covers other release metadata.
use reeva.Prelude.{
  ◌≡◌, ◌⊎◌, inl, inr, refl, false, none, some, List, arith, ◌==◌, All, All_of_update,
  same_option→eq, Bool-cases, ok,
}
use reeva.Model.{Uuid, Version, Artifact, Catalog}
use reeva.Versions.{
  Formats, VersionForm, find_version, save, unsign, has_changed, store_version, update_version,
}
use reeva.Versions.Numbers.{updated}

-- The fields of a version that a signed manifest repeats.
pub record SameMetadata (v w : Version) : Type 0 where
  pub major : v.major ≡ w.major
  pub minor : v.minor ≡ w.minor
  pub patch : v.patch ≡ w.patch
  pub codename : v.codename ≡ w.codename
  pub changelog : v.changelog ≡ w.changelog

abbrev pub IsUnsigned : Artifact → Type 0
IsUnsigned a = (a.signature ≡ none) × (a.signature_key_id ≡ none) × (a.signature_manifest ≡ none)

pub record IsEdit (c d : Catalog) (id : Uuid) : Type 0 where
  pub old : Version
  pub new : Version
  pub found : find_version c.versions id ≡ some old
  pub saved : d.versions ≡ save new c.versions
  pub same_id : new.id ≡ old.id
  pub signatures :
      (SameMetadata old new × (d.artifacts ≡ c.artifacts))
      ⊎ All (λ (a : Artifact). a.version_id ≡ old.id → IsUnsigned a) d.artifacts

has_changed-SameMetadata : (v w : Version) → has_changed v w ≡ false → SameMetadata v w
unfolding has_changed
has_changed-SameMetadata v w h = record {
  major = ground arith;
  minor = ground arith;
  patch = ground arith;
  codename = same_option→eq v.codename w.codename (ground arith);
  changelog = same_option→eq v.changelog w.changelog (ground arith);
}

unsign-IsUnsigned :
    (id : Uuid) (rows : List Artifact)
    → All (λ (a : Artifact). a.version_id ≡ id → IsUnsigned a) (unsign id rows)
unfolding unsign
unsign-IsUnsigned id rows =
    All_of_update _ (λ (a : Artifact). a.version_id == id) _ rows (λ a t e. (refl, refl, refl))
      (λ a f e. absurd (ground arith))

store-signatures :
    (c : Catalog) (v w : Version)
    → ((store_version c v w).versions ≡ save w c.versions)
      × ((SameMetadata v w × ((store_version c v w).artifacts ≡ c.artifacts))
          ⊎ All
              (λ (a : Artifact). a.version_id ≡ v.id → IsUnsigned a)
              (store_version c v w).artifacts)
unfolding store_version
store-signatures c v w = elim (Bool-cases (has_changed v w)) [
  | inl t ↦ rw t (refl, inr (unsign-IsUnsigned v.id c.artifacts))
  | inr f ↦ rw f (refl, inl (has_changed-SameMetadata v w f, refl))
]

-- An edit of a version that succeeds saves one new row for the version, and then either the number,
-- the codename and the changelog are the old ones and no artifact changed, or no artifact of the
-- version keeps a signature, a key or a signed manifest.
pub update_version-IsEdit :
    (formats : Formats) (c d : Catalog) (id : Uuid) (form : VersionForm)
    → update_version formats c id form ≡ ok d
    → IsEdit c d id
update_version-IsEdit formats c d id form h =
    let (v, w, e, s, i, j, free) = updated formats c d id form h in
    record {
      old = v;
      new = w;
      found = e;
      saved = rw s (store-signatures c v w).0;
      same_id = i;
      signatures = rw s (store-signatures c v w).1;
    }
