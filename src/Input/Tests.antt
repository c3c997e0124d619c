-- ===== src/Input/Tests.antt =====
-- The readers on concrete input.
use reeva.Prelude.{◌≡◌, refl, some, lit, value_of, value_from}
use reeva.Input.{text, parse_page, positive, is_digits, in_range}

page_run : parse_page (text (lit "12")) 1 100 ≡ some 12
unfolding parse_page positive is_digits in_range value_of value_from
page_run = refl
