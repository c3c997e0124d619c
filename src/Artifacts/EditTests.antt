-- ===== src/Artifacts/EditTests.antt =====
-- A run that gives the artifacts of the sample their names.
use reeva.Prelude.{
  ◌≡◌, refl, true, false, ◌⊎◌, none, [], ◌∷◌, Memᴰ, lit, ok, same, decimal, decimal_from,
}
use reeva.Model.{Artifact, Catalog}
use reeva.Sample.{catalog, artifact_of}
use reeva.Signature.{load}
use reeva.Release.{is_public, is_eligible, is_signed}
use reeva.Release.Eligible.{IsReleased}
use reeva.Uploads.Plan.{Texts, last_part}
use reeva.Artifacts.{build_file_name, safe_file_part, replace_runs, strip_dashes, save}
use reeva.Artifacts.Edit.{rebuilt_name, rebuilt, rebuild_rows, rebuild_all_names}
use reeva.Artifacts.Unsigned.{Edit, renamed, Edit-public}

abbrev texts : Texts
texts = record { lower = λ s. s; nfkd = λ s. s; show_id = decimal }

abbrev first : Artifact
first = record (artifact_of 50 10 true) { file_name = lit "App_windows_x64_v1.0.0.zip" }

abbrev after : Catalog
after = record catalog {
  artifacts =
      first ∷ record (artifact_of 51 11 true) { file_name = lit "App_windows_x64_v1.1.0.zip" } ∷ [];
}

rebuild_run : rebuild_all_names texts (λ a. none) catalog ≡ (ok 2, after)
unfolding rebuild_all_names rebuild_rows rebuilt_name rebuilt load build_file_name safe_file_part
    replace_runs strip_dashes decimal decimal_from same save last_part
rebuild_run = refl

edit : Edit texts catalog after
unfolding rebuild_all_names rebuild_rows rebuilt_name rebuilt load build_file_name safe_file_part
    replace_runs strip_dashes decimal decimal_from same save last_part
edit = renamed (λ a. none)

public : is_public after none first ≡ true
unfolding is_public is_eligible is_signed
public = refl

Edit-public_example :
    Memᴰ first catalog.artifacts
    ⊎ ((r : IsReleased after none first) × (r.software.require_signed_updates ≡ false))
Edit-public_example = Edit-public edit none first (Memᴰ.head refl) public
