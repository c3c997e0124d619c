-- ===== src/Headers/Tests.antt =====
-- The header of a name with a quote and a letter that is not ASCII.
use reeva.Prelude.{◌≡◌, refl, some, ◌∷◌, [], Text, lit, arith, length}
use reeva.Headers.{
  attachment_disposition, encode_uri_component, points_from, encode_points, percents, bytes_of,
  escape_marks, fallback, safe_file_name,
}
use reeva.Headers.Safe.{IsPrintable, IsQuotable, header_text, attachment_disposition-IsPrintable}

-- `"é`, a line break and an emoji
abbrev name : Text
name = 34 ∷ 0xe9 ∷ 10 ∷ 0xd83d ∷ 0xde00 ∷ []

abbrev disposition : Text
disposition = header_text (lit "_____") (lit "%22%C3%A9_%F0%9F%98%80")

header_run : attachment_disposition name ≡ some disposition
unfolding attachment_disposition encode_uri_component points_from encode_points percents bytes_of
    escape_marks fallback safe_file_name
header_run = refl

attachment_disposition-IsPrintable_example :
    IsPrintable disposition
    × ((quoted extended : Text) × (disposition ≡ header_text quoted extended)
        × IsQuotable quoted
        × (length quoted ≡ length name))
attachment_disposition-IsPrintable_example =
    attachment_disposition-IsPrintable name disposition (omega arith) header_run
