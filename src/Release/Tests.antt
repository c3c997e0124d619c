-- ===== src/Release/Tests.antt =====
-- The public query on the sample catalog.
use reeva.Prelude.{◌≡◌, ◌↔◌, true, some}
use reeva.Release.{is_public}
use reeva.Release.Eligible.{IsReleased, is_public_iff}
use reeva.Sample.{catalog, artifact_of}

is_public_iff_example :
    (is_public catalog (some 1) (artifact_of 51 11 true) ≡ true)
    ↔ IsReleased catalog (some 1) (artifact_of 51 11 true)
is_public_iff_example = is_public_iff catalog (some 1) (artifact_of 51 11 true)
