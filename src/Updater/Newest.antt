-- ===== src/Updater/Newest.antt =====
-- `checkForUpdate` and `getLatest`: what they return is public, newest, and the two agree.
use reeva.Prelude.{
  ◌<◌, ◌≡◌, ◌≢◌, ◌⊎◌, true, Option, none, some, List, [], ◌∷◌, Memᴰ, Text, arith, same→eq,
  same_refl, >>=-eq-ok, select, ok, or_fail-eq-ok, mem-select, mem-select_intro,
}
use reeva.Model.{Software, Version, Platform, Architecture, Catalog}
use reeva.Release.{Candidate, is_public, join}
use reeva.Release.Eligible.{IsReleased, is_public_iff}
use reeva.Updater.{
  invalid_version, unsupported_target, SemVer, newer, AtLeast, IsDescending, Sorting, first,
  targeted, resolve_software, find_platform, find_architecture, check_for_update,
}

module _ {ℓ} {A : Type ℓ} where
  pub mem-first : (xs : List A) {x : A} → first xs ≡ some x → Memᴰ x xs
  mem-first [] h = cc
  mem-first (y ∷ xs) h = Memᴰ.head (ground arith)

  pub no_mem_of_first : (xs : List A) {x : A} → first xs ≡ none → Memᴰ x xs → ⊥
  no_mem_of_first [] h m = elim m [ ]
  no_mem_of_first (y ∷ xs) h m = cc

AtLeast_refl : (v : Version) → AtLeast v v
AtLeast_refl v = ground arith

pub first-AtLeast :
    (xs : List Candidate) {x y : Candidate}
    → IsDescending xs
    → first xs ≡ some x
    → Memᴰ y xs
    → AtLeast x.version y.version
first-AtLeast [] d h m = cc
first-AtLeast (z ∷ xs) {x} {y} d h (Memᴰ.head e) =
    let k : x ≡ y = ground arith in rw k (AtLeast_refl y.version)
first-AtLeast (z ∷ xs) {x} {y} d h (Memᴰ.tail m) = let k : z ≡ x = ground arith in rw k at (d.0 y m)

-- A later version is newer than whatever an earlier one is newer than.
pub newer_up :
    (current : SemVer) (v w : Version)
    → newer current v ≡ true
    → AtLeast w v
    → newer current w ≡ true
unfolding newer
newer_up current v w h k = ground arith

-- Semantic version precedence of a released version over the client's.
abbrev pub Precedes : SemVer → Version → Type 0
Precedes current v =
    (current.major < v.major)
    ⊎ ((current.major ≡ v.major) × (current.minor < v.minor))
    ⊎ ((current.major ≡ v.major) × (current.minor ≡ v.minor) × (current.patch < v.patch))
    ⊎ ((current.major ≡ v.major)
        × (current.minor ≡ v.minor)
        × (current.patch ≡ v.patch)
        × (current.prerelease ≢ []))

pub newer_sound : (current : SemVer) (v : Version) → newer current v ≡ true → Precedes current v
unfolding newer
newer_sound current v h = ground arith

pub newer_complete : (current : SemVer) (v : Version) → Precedes current v → newer current v ≡ true
unfolding newer
newer_complete current v h = ground arith

-- A published release that a client of this target may be offered.
pub record IsOffered (c : Catalog) (s : Software) (p : Platform) (r : Architecture) (channel : Text)
    (x : Candidate) : Type 0 where
  pub listed : Memᴰ x (join c.artifacts c.versions)
  pub released : IsReleased c (some s.id) x.artifact
  pub platform : x.artifact.platform_id ≡ p.id
  pub architecture : x.artifact.architecture_id ≡ r.id
  pub channel_is : x.artifact.channel ≡ channel

module _ (c : Catalog) (s : Software) (p : Platform) (r : Architecture) (channel : Text) where
  pub mem-targeted :
      {x : Candidate} → Memᴰ x (targeted c s.id p.id r.id channel) → IsOffered c s p r channel x
  unfolding targeted
  mem-targeted {x} m =
      let (l, t) = mem-select _ (join c.artifacts c.versions) m in
      record {
        listed = l;
        released = (is_public_iff c (some s.id) x.artifact).0 (unfold is_public in ground arith);
        platform = ground arith;
        architecture = ground arith;
        channel_is = same→eq x.artifact.channel channel (ground arith);
      }

  targeted_of_offered :
      {x : Candidate} → IsOffered c s p r channel x → Memᴰ x (targeted c s.id p.id r.id channel)
  unfolding targeted
  targeted_of_offered {x} o = mem-select_intro _ (join c.artifacts c.versions) o.listed (
      rw
        (
          (is_public_iff c (some s.id) x.artifact).1 o.released,
          o.platform,
          o.architecture,
          o.channel_is,
        )
        (ground (arith, same_refl channel)))

  -- `x` is offered, newer than the client, and no other such release is newer than `x`.
  pub record IsUpdate (current : SemVer) (x : Candidate) : Type 0 where
    pub offered : IsOffered c s p r channel x
    pub precedes : Precedes current x.version
    pub newest :
        (y : Candidate)
        → IsOffered c s p r channel y
        → Precedes current y.version
        → AtLeast x.version y.version

  module _ (db : Sorting) (current : SemVer) where
    rows : List Candidate
    rows = db.order_by (select (λ x. newer current x.version) (targeted c s.id p.id r.id channel))

    mem-rows :
        {x : Candidate} → Memᴰ x rows → IsOffered c s p r channel x × Precedes current x.version
    unfolding rows
    mem-rows {x} m =
        let (t, n) = mem-select _ (targeted c s.id p.id r.id channel) (db.keeps _ x m) in
        (mem-targeted t, newer_sound current x.version n)

    rows_of_update :
        {y : Candidate} → IsOffered c s p r channel y → Precedes current y.version → Memᴰ y rows
    unfolding rows
    rows_of_update {y} o n = db.covers _ y (
        mem-select_intro (λ (x : Candidate). newer current x.version)
          (targeted c s.id p.id r.id channel) (targeted_of_offered o)
          (newer_complete current y.version n))

    first-IsUpdate : {x : Candidate} → first rows ≡ some x → IsUpdate current x
    unfolding rows
    first-IsUpdate {x} h =
        let (o, n) = mem-rows (mem-first rows h) in
        record {
          offered = o;
          precedes = n;
          newest = λ y oy ny. first-AtLeast rows (db.descends _) h (rows_of_update oy ny);
        }

    no_update :
        first rows ≡ none
        → (y : Candidate) → IsOffered c s p r channel y
        → ¬ (Precedes current y.version)
    no_update h y oy ny = no_mem_of_first rows h (rows_of_update oy ny)

-- What the rows named by the request are.
pub record Names (c : Catalog) (platform arch : Text) (slug : Option Text) : Type 0 where
  pub software : Software
  pub platform_row : Platform
  pub architecture_row : Architecture
  pub resolves : resolve_software c slug ≡ ok software
  pub platform_found : find_platform c platform ≡ some platform_row
  pub architecture_found : find_architecture c arch ≡ some architecture_row

-- The two answers of a check that succeeds.
abbrev pub Answers :
    Catalog → Software → Platform → Architecture → Text → SemVer → Option Candidate → Type 0
Answers c s p r channel current none =
    (y : Candidate) → IsOffered c s p r channel y → ¬ (Precedes current y.version)
Answers c s p r channel current (some x) = IsUpdate c s p r channel current x

first-Answers :
    (c : Catalog) (s : Software) (p : Platform) (r : Architecture) (channel : Text) (db : Sorting)
    (current : SemVer) (o : Option Candidate)
    → first
        (db.order_by (select (λ x. newer current x.version) (targeted c s.id p.id r.id channel)))
      ≡ o
    → Answers c s p r channel current o
unfolding rows
first-Answers c s p r channel db current none h = no_update c s p r channel db current h
first-Answers c s p r channel db current (some x) h = first-IsUpdate c s p r channel db current h

module _ (db : Sorting) (parse : Text → Option SemVer) (c : Catalog)
    (platform arch version channel : Text) (slug : Option Text) where
  pub check_parts :
      (o : Option Candidate)
      → check_for_update db parse c platform arch version channel slug ≡ ok o
      → (n : Names c platform arch slug) × (current : SemVer) × (parse version ≡ some current)
        × (first (
              db.order_by (
                select
                  (λ x. newer current x.version)
                  (targeted c n.software.id n.platform_row.id n.architecture_row.id channel)))
            ≡ o)
  unfolding check_for_update
  check_parts o h =
      let (current, ec, h1) = or_fail-eq-ok (parse version) invalid_version _ h in
      let (s, es, h2) = >>=-eq-ok (resolve_software c slug) _ h1 in
      let (p, ep, h3) = or_fail-eq-ok (find_platform c platform) unsupported_target _ h2 in
      let (r, er, h4) = or_fail-eq-ok (find_architecture c arch) unsupported_target _ h3 in
      (
        record {
          software = s;
          platform_row = p;
          architecture_row = r;
          resolves = es;
          platform_found = ep;
          architecture_found = er;
        },
        current,
        ec,
        cc,
      )

  -- A check that succeeds answers with a released artifact of the product, target and channel that
  -- is newer than the client's version and than which no such release is newer; or with nothing,
  -- and then no such release is newer than the client's version.
  pub check_for_update-Answers :
      (o : Option Candidate)
      → check_for_update db parse c platform arch version channel slug ≡ ok o
      → (n : Names c platform arch slug) × (current : SemVer) × (parse version ≡ some current)
        × Answers c n.software n.platform_row n.architecture_row channel current o
  check_for_update-Answers o h =
      let (n, current, e, f) = check_parts o h in
      (
        n,
        current,
        e,
        first-Answers c n.software n.platform_row n.architecture_row channel db current o f,
      )
