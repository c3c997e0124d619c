-- ===== src/Updater/Tests.antt =====
-- Runs of the update queries on the sample catalog.
use reeva.Prelude.{
  ◌≡◌, ◌≤◌, length, All, refl, true, Option, none, some, [], ◌∷◌, Text, lit, arith, ok, same,
}
use reeva.Model.{Software, Catalog}
use reeva.Release.{Candidate, is_public, is_eligible, is_signed, join, with_version}
use reeva.Sample.{version_of, artifact_of, catalog}
use reeva.Updater.{
  SemVer, newer, targeted, resolve_software, find_platform, find_architecture, check_for_update,
  get_latest, Page, page_of, get_releases, World, record_download, history_row, record_and_stream,
}
use reeva.Updater.Order.{sorting, sort, insert}
use reeva.Updater.Newest.{Names, Answers, IsOffered, check_for_update-Answers}
use reeva.Updater.Agree.{Agrees, check_for_update-get_latest}
use reeva.Updater.Paging.{pages, pages-eq-rows, get_releases-IsOffered}
use reeva.Updater.Download.{IsDownload, record_and_stream-IsDownload}

abbrev current : SemVer
current = record { major = 1; minor = 0; patch = 0; prerelease = [] }

-- The client's version, which is 1.0.0 whatever the text
abbrev parse : Text → Option SemVer
parse s = some current

abbrev found : Candidate
found = record { artifact = artifact_of 51 11 true; version = version_of 11 1 }

check_run :
    check_for_update sorting parse catalog
      (lit "windows")
      (lit "x64")
      (lit "1.0.0")
      (lit "stable")
      none
    ≡ ok (some found)
unfolding check_for_update resolve_software find_platform find_architecture targeted newer is_public
    is_eligible is_signed join with_version sort insert same
check_run = refl

check_for_update-Answers_example :
    (n : Names catalog (lit "windows") (lit "x64") none) × (cur : SemVer) × (parse (lit "1.0.0")
      ≡ some cur)
    × Answers catalog n.software n.platform_row n.architecture_row (lit "stable") cur (some found)
check_for_update-Answers_example =
    check_for_update-Answers sorting parse catalog (lit "windows") (lit "x64") (lit "1.0.0")
      (lit "stable") none (some found) check_run

check_for_update-get_latest_example :
    (cur : SemVer) × (l : Option Candidate) × (parse (lit "1.0.0") ≡ some cur)
    × (get_latest sorting catalog (lit "windows") (lit "x64") (lit "stable") none ≡ ok l)
    × Agrees cur (some found) l
check_for_update-get_latest_example =
    check_for_update-get_latest sorting parse catalog (lit "windows") (lit "x64") (lit "1.0.0")
      (lit "stable") none (some found) check_run

abbrev old : Candidate
old = record { artifact = artifact_of 50 10 true; version = version_of 10 0 }

pages-eq-rows_example :
    (pages (found ∷ old ∷ []) 1 (page_of (found ∷ old ∷ []) 1 2).total_pages ≡ found ∷ old ∷ [])
    × (length (page_of (found ∷ old ∷ []) 1 2).results ≤ 1)
pages-eq-rows_example = pages-eq-rows (found ∷ old ∷ []) 1 2 (omega arith)

abbrev second : Page
second = record { results = old ∷ []; total = 2; page = 2; limit = 1; total_pages = 2 }

releases_run :
    get_releases sorting catalog (lit "windows") (lit "x64") (lit "stable") 1 2 none ≡ ok second
unfolding get_releases resolve_software find_platform find_architecture targeted page_of is_public
    is_eligible is_signed join with_version sort insert same
releases_run = refl

get_releases-IsOffered_example :
    (n : Names catalog (lit "windows") (lit "x64") none) × All
      (IsOffered catalog n.software n.platform_row n.architecture_row (lit "stable"))
      second.results
    × (second.total
        ≡ length
            (targeted catalog n.software.id n.platform_row.id n.architecture_row.id (lit "stable")))
get_releases-IsOffered_example =
    get_releases-IsOffered sorting catalog (lit "windows") (lit "x64") (lit "stable") 1 2 none
      second releases_run

-- A store whose stream is the key itself
abbrev world : World Text
world = record { stream = λ p key. some key; commits = true; is_ip = λ s. true }

abbrev recorded : Catalog
recorded =
    record_download catalog (artifact_of 51 11 true)
      (history_row (artifact_of 51 11 true) (λ s. true) (lit "10.0.0.1") none)

download_run :
    record_and_stream world catalog 51 (lit "10.0.0.1") none none
    ≡ ok (artifact_of 51 11 true, lit "k", recorded)
unfolding record_and_stream resolve_software is_public is_eligible is_signed same
download_run = refl

record_and_stream-IsDownload_example :
    (s : Software) × (resolve_software catalog none ≡ ok s)
    × IsDownload world catalog s 51
        (lit "10.0.0.1")
        none
        (artifact_of 51 11 true)
        (lit "k")
        recorded
record_and_stream-IsDownload_example =
    record_and_stream-IsDownload world catalog 51 (lit "10.0.0.1") none none
      (artifact_of 51 11 true) (lit "k") recorded download_run
