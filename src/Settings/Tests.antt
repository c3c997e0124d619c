-- ===== src/Settings/Tests.antt =====
-- A setting that is deleted, and its key after that.
use reeva.Prelude.{ℕ, ◌≡◌, refl, none, some, Option, [], ◌∷◌, Memᴰ, lit, ok, err, same, sym, ◌∙◌}
use reeva.Input.{text}
use reeva.Settings.{
  Setting, unique_violation, checked_key, checked_value, is_key, find_by_key, find_setting,
  create_setting, update_setting, delete_setting,
}
use reeva.Settings.Map.{IsKeyed, IsDone, update, updated, Step-IsDone}

abbrev theme : Option ℕ → Setting
theme gone = record { id = 1; key = lit "theme"; value = lit "dark"; deleted_at = gone }

delete_run : delete_setting (theme none ∷ []) 1 9 ≡ ok (theme (some 9) ∷ [])
unfolding delete_setting find_setting same
delete_run = refl

-- The key of a deleted setting passes the look-up and is refused by the database.
create_run :
    create_setting (theme (some 9) ∷ []) (text (lit "theme")) (text (lit "light")) 2
    ≡ err unique_violation
unfolding create_setting checked_key checked_value is_key find_by_key same
create_run = refl

one : {x : Setting} → Memᴰ x (theme none ∷ []) → x ≡ theme none
one (Memᴰ.head e) = e
one (Memᴰ.tail m) = elim m [ ]

keyed : IsKeyed (theme none ∷ [])
keyed = record { ids = λ s t m n e. one m ∙ sym (one n); keys = λ s t m n e. one m ∙ sym (one n) }

update_run :
    update_setting (theme none ∷ []) 1 (text (lit "light"))
    ≡ ok (record (theme none) { value = lit "light" } ∷ [])
unfolding update_setting checked_value find_setting same
update_run = refl

Step-IsDone_example :
    IsDone
      (theme none ∷ [])
      (update 1 (text (lit "light")))
      (record (theme none) { value = lit "light" } ∷ [])
Step-IsDone_example = Step-IsDone keyed (updated 1 (text (lit "light")) update_run)
