-- ===== src/Versions/Tests.antt =====
-- Runs of the version operations on the sample catalog.
use reeva.Prelude.{
  ◌≡◌, ◌↔◌, refl, sym, ap, ◌∙◌, true, none, some, [], ◌∷◌, Memᴰ, lit, arith, ok, same, same_option,
  value_of, value_from,
}
use reeva.Model.{Version, Catalog}
use reeva.Input.{null, text, parse_part, part_of, is_digits}
use reeva.Sample.{catalog, version_of}
use reeva.Versions.{
  Formats, VersionForm, parse_version_parts, parts_of, parse_codename, parse_changelog,
  parse_release_date, has_number, check_duplicate, find_version, save, has_changed, unsign,
  store_version, update_version,
}
use reeva.Versions.Filter.{
  ge, compared, selects, Compares, rank, Groups, match_filter, condition, selects-Compares,
}
use reeva.Versions.Match.{filter_text, match-condition}
use reeva.Versions.Numbers.{IsUnique}
use reeva.Versions.Steps.{updates, Step-IsUnique}
use reeva.Versions.Resign.{IsEdit, update_version-IsEdit}

selects-Compares_example :
    (selects (compared ge 1 0 0) (version_of 11 1) ≡ true) ↔ Compares ge (rank 1 0 0) (rank 1 1 0)
selects-Compares_example =
    selects-Compares ge 1 0 0 (version_of 11 1) (omega arith) (omega arith) (omega arith)
      (omega arith)

match-condition_example :
    (g : Groups) × (match_filter (filter_text ge 1 2 30) ≡ some g)
    × (condition g ≡ some (compared ge 1 2 30))
match-condition_example = match-condition ge 1 2 30 (omega arith) (omega arith) (omega arith)

abbrev formats : Formats
formats = record { is_semver = λ s. true; from_iso = λ s. none; to_iso_date = λ d. [] }

-- Version 1.1.0 becomes 1.2.0.
abbrev form : VersionForm
form = record {
  software_id = none;
  major = text (lit "1");
  minor = text (lit "2");
  patch = text (lit "0");
  codename = null;
  changelogs = null;
  changelog = null;
  is_active = text (lit "on");
  release_date = null;
}

abbrev edited : Catalog
edited = record catalog { versions = version_of 10 0 ∷ version_of 11 2 ∷ [] }

update_run : update_version formats catalog 11 form ≡ ok edited
unfolding update_version find_version parse_version_parts parts_of parse_part part_of is_digits
    value_of value_from check_duplicate has_number parse_codename parse_changelog parse_release_date
    store_version has_changed save unsign same_option same
update_run = refl

update_version-IsEdit_example : IsEdit catalog edited 11
update_version-IsEdit_example = update_version-IsEdit formats catalog edited 11 form update_run

catalog-IsUnique : IsUnique catalog.versions
catalog-IsUnique v w (Memᴰ.head e) (Memᴰ.head k) lv lw s = ap (λ (x : Version). x.id) (e ∙ sym k)
catalog-IsUnique v w (Memᴰ.head e) (Memᴰ.tail (Memᴰ.head k)) lv lw (a, b, c, d) =
    absurd (omega (arith, ap (λ (x : Version). x.minor) e, ap (λ (x : Version). x.minor) k, c))
catalog-IsUnique v w (Memᴰ.tail (Memᴰ.head e)) (Memᴰ.head k) lv lw (a, b, c, d) =
    absurd (omega (arith, ap (λ (x : Version). x.minor) e, ap (λ (x : Version). x.minor) k, c))
catalog-IsUnique v w (Memᴰ.tail (Memᴰ.head e)) (Memᴰ.tail (Memᴰ.head k)) lv lw s =
    ap (λ (x : Version). x.id) (e ∙ sym k)
catalog-IsUnique v w (Memᴰ.tail (Memᴰ.tail m)) n lv lw s = elim m [ ]
catalog-IsUnique v w m (Memᴰ.tail (Memᴰ.tail n)) lv lw s = elim n [ ]

Step-IsUnique_example : IsUnique edited.versions
Step-IsUnique_example =
    Step-IsUnique {formats = formats} {c = catalog} {d = edited} (updates 11 form update_run)
      catalog-IsUnique
