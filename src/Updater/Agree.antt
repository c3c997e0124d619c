-- ===== src/Updater/Agree.antt =====
-- `checkForUpdate` and `getLatest` agree on the newest release of a target.
use reeva.Prelude.{
  ◌≡◌, refl, true, Option, none, some, List, Memᴰ, Text, arith, select, ok, mem-select,
  mem-select_intro,
}
use reeva.Model.{Version, Catalog}
use reeva.Release.{Candidate}
use reeva.Updater.{SemVer, newer, AtLeast, Sorting, first, targeted, check_for_update, get_latest}
use reeva.Updater.Newest.{
  mem-first, no_mem_of_first, first-AtLeast, newer_up, newer_complete, Precedes, check_parts,
}

abbrev pub SameNumber : Version → Version → Type 0
SameNumber v w = (v.major ≡ w.major) × (v.minor ≡ w.minor) × (v.patch ≡ w.patch)

first-SameNumber : (v w : Version) → AtLeast v w → AtLeast w v → SameNumber v w
first-SameNumber v w h k = ground arith

-- How the answer of a check relates to the latest release.
abbrev pub Agrees : SemVer → Option Candidate → Option Candidate → Type 0
Agrees current none none = Unit
Agrees current none (some y) = ¬ (Precedes current y.version)
Agrees current (some x) none = ⊥
Agrees current (some x) (some y) = SameNumber x.version y.version

module _ (db : Sorting) (current : SemVer) (rows : List Candidate) where
  abbrev later : List Candidate
  later = select (λ x. newer current x.version) rows

  later_of_mem :
      {x : Candidate}
      → Memᴰ x (db.order_by rows)
      → newer current x.version ≡ true
      → Memᴰ x (db.order_by later)
  later_of_mem {x} m n =
      db.covers later x
        (mem-select_intro (λ (y : Candidate). newer current y.version) rows (db.keeps rows x m) n)

  mem_of_later :
      {x : Candidate}
      → Memᴰ x (db.order_by later)
      → Memᴰ x (db.order_by rows) × (newer current x.version ≡ true)
  mem_of_later {x} m =
      let (k, n) =
        mem-select (λ (y : Candidate). newer current y.version) rows (db.keeps later x m) in
      (db.covers rows x k, n)

  first-Agrees :
      (o l : Option Candidate)
      → first (db.order_by later) ≡ o
      → first (db.order_by rows) ≡ l
      → Agrees current o l
  first-Agrees none none h k = tt
  first-Agrees none (some y) h k = λ p.
      no_mem_of_first (db.order_by later) h
        (later_of_mem (mem-first (db.order_by rows) k) (newer_complete current y.version p))
  first-Agrees (some x) none h k =
      no_mem_of_first (db.order_by rows) k ((mem_of_later (mem-first (db.order_by later) h)).0)
  first-Agrees (some x) (some y) h k =
      let (mx, nx) = mem_of_later (mem-first (db.order_by later) h) in
      let y_high = first-AtLeast (db.order_by rows) (db.descends rows) k mx in
      let my =
        later_of_mem (mem-first (db.order_by rows) k)
          (newer_up current x.version y.version nx y_high) in
      first-SameNumber x.version y.version
        (first-AtLeast (db.order_by later) (db.descends later) h my) y_high

-- Where a check succeeds, the latest release is found too. If the check offers an update, that is
-- a release with the number of the latest one; if it offers none, the latest release, if there is
-- one, is not newer than the client's version.
pub check_for_update-get_latest :
    (db : Sorting) (parse : Text → Option SemVer) (c : Catalog)
    (platform arch version channel : Text) (slug : Option Text) (o : Option Candidate)
    → check_for_update db parse c platform arch version channel slug ≡ ok o
    → (current : SemVer) × (l : Option Candidate) × (parse version ≡ some current)
      × (get_latest db c platform arch channel slug ≡ ok l)
      × Agrees current o l
unfolding get_latest
check_for_update-get_latest db parse c platform arch version channel slug o h =
    let (n, current, e, f) = check_parts db parse c platform arch version channel slug o h in
    let rows = targeted c n.software.id n.platform_row.id n.architecture_row.id channel in
    (
      current,
      first (db.order_by rows),
      e,
      rw (n.resolves, n.platform_found, n.architecture_found) refl,
      first-Agrees db current rows o _ f refl,
    )
