-- ===== src/Artifacts/Unsigned.antt =====
-- That a release whose artifact was edited is not public on the strength of its old signature.
use reeva.Prelude.{
  ℕ, suc, ◌≡◌, refl, sym, ap, true, false, ◌&&◌, ◌⊎◌, inl, inr, Option, none, some, List, [], ◌∷◌,
  Memᴰ, Text, same, ◌==◌, find, update, mem-update, is_none, Bool-cases, Result, ok, err,
  or_fail-eq-ok, require-eq-ok, >>=-eq-ok, ok-injective,
}
use reeva.Model.{Uuid, Platform, Architecture, Artifact, Catalog}
use reeva.Signature.{load}
use reeva.Release.{is_public}
use reeva.Release.Eligible.{IsReleased, is_public_iff}
use reeva.Versions.{find_version}
use reeva.Artifacts.{find_artifact, save}
use reeva.Uploads.Plan.{
  Error, Texts, row_not_found, unsupported_architecture, inactive_software, reference, runs_on,
  software_of,
}
use reeva.Uploads.{Checksums}
use reeva.Artifacts.Edit.{
  EditForm, optional_reference, edit_channel, update_artifact, delete_artifact, rebuilt_name,
  rebuilt, save_row, rebuild_row, rebuild_rows, rebuild_all_names,
}

-- What an edit leaves of a row: the row as it was, a row without a signature, or a deleted one
pub data IsKept (rows : List Artifact) (a : Artifact) : Type 0 where
  untouched : Memᴰ a rows → IsKept rows a
  unsigned_row : a.signature ≡ none → IsKept rows a
  deleted_row : (now : ℕ) → a.deleted_at ≡ some now → IsKept rows a

-- The tables around the artifacts stay, and every row is kept or has lost its signature.
record IsEdited (c d : Catalog) : Type 0 where
  only : d ≡ record c { artifacts = d.artifacts }
  rows : (a : Artifact) → Memᴰ a d.artifacts → IsKept c.artifacts a

save-IsEdited :
    (c d : Catalog) (b : Artifact) → IsKept c.artifacts b → IsEdited c d → IsEdited c (save d b)
unfolding save
save-IsEdited c d b k h = record {
  only =
      ap
        (λ (x : Catalog). record x {
          artifacts = update (λ (y : Artifact). y.id == b.id) (λ y. b) d.artifacts;
        })
        h.only;
  rows = λ a m.
      let (x, n, cases) = mem-update (λ (y : Artifact). y.id == b.id) (λ y. b) d.artifacts m in
      elim cases [ inl (t, e) ↦ rw e k | inr (f, e) ↦ rw e (h.rows x n) ];
}

same-IsEdited : (c : Catalog) → IsEdited c c
same-IsEdited c = record { only = refl; rows = λ a m. untouched m }

rebuilt-unsigned :
    (a b : Artifact) (name : Text) (h : Option Checksums)
    → rebuilt a name h ≡ some b
    → b.signature ≡ none
unfolding rebuilt
rebuilt-unsigned a b name (some h) e = cc
rebuilt-unsigned a b name none e = elim (Bool-cases (same a.file_name name)) [
  | inl t ↦ absurd (cc (rw t at e))
  | inr f ↦ cc (rw f at e)
]

save_row-IsEdited :
    (c d : Catalog) (rest : ℕ → Catalog → Result Error ℕ × Catalog) (n : ℕ) (o : Option Artifact)
    → ((m : ℕ) (x : Catalog) → IsEdited c x → IsEdited c (rest m x).1)
    → ((b : Artifact) → o ≡ some b → b.signature ≡ none)
    → IsEdited c d
    → IsEdited c (save_row rest n d o).1
save_row-IsEdited c d rest n none go loses h = go n d h
save_row-IsEdited c d rest n (some b) go loses h =
    go (suc n) (save d b) (save-IsEdited c d b (unsigned_row (loses b refl)) h)

rebuild_row-IsEdited :
    (c d : Catalog) (rest : ℕ → Catalog → Result Error ℕ × Catalog) (n : ℕ) (a : Artifact)
    (h : Option Checksums) (name : Result Error Text)
    → ((m : ℕ) (x : Catalog) → IsEdited c x → IsEdited c (rest m x).1)
    → IsEdited c d
    → IsEdited c (rebuild_row rest a h n d name).1
rebuild_row-IsEdited c d rest n a h (err e) go k = k
rebuild_row-IsEdited c d rest n a h (ok name) go k =
    save_row-IsEdited c d rest n (rebuilt a name h) go (λ b e. rebuilt-unsigned a b name h e) k

rebuild_rows-IsEdited :
    (t : Texts) (read : Artifact → Option Checksums) (c start : Catalog) (rows : List Artifact)
    (n : ℕ) (d : Catalog)
    → IsEdited c d
    → IsEdited c (rebuild_rows t read start rows n d).1
unfolding rebuild_rows
rebuild_rows-IsEdited t read c start [] n d h = h
rebuild_rows-IsEdited t read c start (a ∷ rows) n d h =
    rebuild_row-IsEdited c d (rebuild_rows t read start rows) n a (read a)
      (rebuilt_name t (load start a)) (λ m x k. rebuild_rows-IsEdited t read c start rows m x k) h

update-IsEdited :
    (t : Texts) (c d : Catalog) (id : Uuid) (form : EditForm) (b : Artifact)
    → update_artifact t c id form ≡ ok (b, d)
    → IsEdited c d
unfolding update_artifact
update-IsEdited t c d id form b run =
    let (version_id, e1, run1) = >>=-eq-ok (reference form.version_id) _ run in
    let (platform_id, e2, run2) = >>=-eq-ok (reference form.platform_id) _ run1 in
    let (architecture_id, e3, run3) = >>=-eq-ok (reference form.architecture_id) _ run2 in
    let (done, e4, run4) = >>=-eq-ok (optional_reference form.storage_provider_id) _ run3 in
    let (channel, e5, run5) = >>=-eq-ok (edit_channel form.channel) _ run4 in
    let (a, e6, run6) = or_fail-eq-ok (find_artifact c id) row_not_found _ run5 in
    let (v, e7, run7) = or_fail-eq-ok (find_version c.versions version_id) row_not_found _ run6 in
    let (p, e8, run8) =
      or_fail-eq-ok
        (find (λ (p : Platform). p.id == platform_id && is_none p.deleted_at) c.platforms)
        row_not_found _ run7 in
    let (r, e9, run9) =
      or_fail-eq-ok
        (find (λ (r : Architecture). r.id == architecture_id && is_none r.deleted_at)
          c.architectures)
        row_not_found _ run8 in
    let (fits, run10) =
      require-eq-ok (runs_on (t.lower p.name) (t.lower r.name)) unsupported_architecture _ run9 in
    let (s, e10, run11) = or_fail-eq-ok (software_of c v) inactive_software _ run10 in
    let (active, run12) = require-eq-ok s.is_active inactive_software _ run11 in
    rw (ap (λ (x : Artifact × Catalog). x.1) (sym (ok-injective run12)))
      (save-IsEdited c c _ (unsigned_row refl) (same-IsEdited c))

delete-IsEdited :
    (c d : Catalog) (id : Uuid) (now : ℕ) (b : Artifact)
    → delete_artifact c id now ≡ ok (b, d)
    → IsEdited c d
unfolding delete_artifact
delete-IsEdited c d id now b run =
    let (a, e, run1) = or_fail-eq-ok (find_artifact c id) row_not_found _ run in
    rw (ap (λ (x : Artifact × Catalog). x.1) (sym (ok-injective run1)))
      (save-IsEdited c c _ (deleted_row now refl) (same-IsEdited c))

-- One of the edits, as far as it ran
pub data Edit (t : Texts) : Catalog → Catalog → Type 0 where
  updated :
      {c d : Catalog} (id : Uuid) (form : EditForm) (b : Artifact)
      → update_artifact t c id form ≡ ok (b, d)
      → Edit t c d
  deleted :
      {c d : Catalog} (id : Uuid) (now : ℕ) (b : Artifact)
      → delete_artifact c id now ≡ ok (b, d)
      → Edit t c d
  renamed :
      {c : Catalog} (read : Artifact → Option Checksums) → Edit t c (rebuild_all_names t read c).1

Edit-IsEdited : {t : Texts} {c d : Catalog} → Edit t c d → IsEdited c d
unfolding rebuild_all_names
Edit-IsEdited {t} {c} {d} (updated id form b run) = update-IsEdited t c d id form b run
Edit-IsEdited {t} {c} {d} (deleted id now b run) = delete-IsEdited c d id now b run
Edit-IsEdited {t} {c} (renamed read) = rebuild_rows-IsEdited t read c c _ 0 c (same-IsEdited c)

kept-public :
    (c d : Catalog) (software_id : Option Uuid) (a : Artifact)
    → IsKept c.artifacts a
    → (r : IsReleased d software_id a)
    → Memᴰ a c.artifacts ⊎ (r.software.require_signed_updates ≡ false)
kept-public c d software_id a (untouched m) r = inl m
kept-public c d software_id a (unsigned_row e) r = elim r.signed [
  | inl free ↦ inr free
  | inr s ↦ absurd (cc (s.1.present, e))
]
kept-public c d software_id a (deleted_row now e) r = absurd (cc (r.live.0, e))

-- After `updateArtifact`, `deleteArtifact` or `rebuildAllNames`, even one that stops halfway: whatever artifact of the tables the public query selects is either a row as it
-- was before, or is released by a product that asks for no signatures. So an old signature never
-- stands for edited metadata.
pub Edit-public :
    {t : Texts} {c d : Catalog}
    → Edit t c d
    → (software_id : Option Uuid) (a : Artifact) → Memᴰ a d.artifacts
    → is_public d software_id a ≡ true
    → Memᴰ a c.artifacts
      ⊎ ((r : IsReleased d software_id a) × (r.software.require_signed_updates ≡ false))
Edit-public {t} {c} {d} edit software_id a m h =
    let r : IsReleased d software_id a = (is_public_iff d software_id a).0 h in
    elim (kept-public c d software_id a ((Edit-IsEdited edit).rows a m) r) [
      | inl n ↦ inl n
      | inr free ↦ inr (r, free)
    ]
