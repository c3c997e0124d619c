-- ===== src/Versions/Steps.antt =====
-- Every operation on the versions keeps their numbers unique.
use reeva.Prelude.{
  ℕ, ◌≡◌, ◌≢◌, sym, ◌∙◌, ap, not, ◌&&◌, none, some, List, ◌∷◌, Memᴰ, arith, ◌==◌, is_none,
  is_none→eq, find, find-some, All, All-mem, ok, or_fail-eq-ok, require-eq-ok, ok-injective,
}
use reeva.Model.{Uuid, Version, Artifact, Catalog}
use reeva.Versions.{
  not_found, has_artifacts, Formats, VersionForm, find_version, create_version, update_version,
  toggle_version, delete_version,
}
use reeva.Versions.Numbers.{IsUnique, IsFree, save-IsUnique, created, updated, store-versions}

find_version-some :
    (vs : List Version) (id : Uuid) {v : Version}
    → find_version vs id ≡ some v
    → Memᴰ v vs × (v.deleted_at ≡ none)
unfolding find_version
find_version-some vs id {v} h =
    let (m, t) = find-some (λ (v : Version). v.id == id && is_none v.deleted_at) vs h in
    (m, is_none→eq v.deleted_at (ground arith))

-- A live row of a table with unique numbers has a free number.
row-IsFree :
    (vs : List Version) (v : Version) → IsUnique vs → Memᴰ v vs → v.deleted_at ≡ none → IsFree v vs
row-IsFree vs v k m l w n ne lw s = ne (sym (k v w m n l lw s))

add-IsUnique :
    (v : Version) (vs : List Version)
    → IsFree v vs
    → All (λ (w : Version). w.id ≢ v.id) vs
    → IsUnique vs
    → IsUnique (v ∷ vs)
add-IsUnique v vs free fresh k x y (Memᴰ.head ex) (Memᴰ.head ey) lx ly s =
    ap (λ (z : Version). z.id) (ex ∙ sym ey)
add-IsUnique v vs free fresh k x y (Memᴰ.head ex) (Memᴰ.tail my) lx ly s =
    absurd (free y my (All-mem (λ (w : Version). w.id ≢ v.id) vs fresh my) ly (rw ex at s))
add-IsUnique v vs free fresh k x y (Memᴰ.tail mx) (Memᴰ.head ey) lx ly (p, q, r, t) =
    absurd (free x mx (All-mem (λ (w : Version). w.id ≢ v.id) vs fresh mx) lx (cc, cc, cc, cc))
add-IsUnique v vs free fresh k x y (Memᴰ.tail mx) (Memᴰ.tail my) lx ly s = k x y mx my lx ly s

-- One request on the versions of the catalog; a new id is unused, as a random UUID is.
pub data Step (formats : Formats) : Catalog → Catalog → Type 0 where
  creates :
      {c d : Catalog} (fresh : Uuid) (form : VersionForm)
      → All (λ (w : Version). w.id ≢ fresh) c.versions
      → create_version formats c fresh form ≡ ok d
      → Step formats c d
  updates :
      {c d : Catalog} (id : Uuid) (form : VersionForm)
      → update_version formats c id form ≡ ok d
      → Step formats c d
  toggles : {c d : Catalog} (id : Uuid) → toggle_version c id ≡ ok d → Step formats c d
  deletes :
      {c d : Catalog} (id : Uuid) (now : ℕ) → delete_version c id now ≡ ok d → Step formats c d

toggle-IsUnique :
    (c d : Catalog) (id : Uuid)
    → toggle_version c id ≡ ok d
    → IsUnique c.versions
    → IsUnique d.versions
unfolding toggle_version
toggle-IsUnique c d id h k =
    let (v, e, h1) = or_fail-eq-ok (find_version c.versions id) not_found _ h in
    let (m, l) = find_version-some c.versions id e in
    rw (sym (ok-injective h1)) (
      save-IsUnique (record v { is_active = not v.is_active }) c.versions
        (λ q. row-IsFree c.versions v k m l) k)

delete-IsUnique :
    (c d : Catalog) (id : Uuid) (now : ℕ)
    → delete_version c id now ≡ ok d
    → IsUnique c.versions
    → IsUnique d.versions
unfolding delete_version
delete-IsUnique c d id now h k =
    let (v, e, h1) = or_fail-eq-ok (find_version c.versions id) not_found _ h in
    let (t, h2) =
      require-eq-ok
        (is_none
          (find (λ (a : Artifact). a.version_id == v.id && is_none a.deleted_at) c.artifacts))
        has_artifacts _ h1 in
    rw (sym (ok-injective h2))
      (save-IsUnique (record v { deleted_at = some now }) c.versions (λ q. cc) k)

-- Every request on the versions that succeeds (a creation, an edit, a switch of the state or a
-- deletion) keeps the version numbers of a product unique among its live versions.
pub Step-IsUnique :
    {formats : Formats} {c d : Catalog}
    → Step formats c d
    → IsUnique c.versions
    → IsUnique d.versions
Step-IsUnique {formats} {c} {d} (creates fresh form n h) k =
    let (v, e, i, l, free) = created formats c d fresh form h in
    rw e (add-IsUnique v c.versions free (rw i n) k)
Step-IsUnique {formats} {c} {d} (updates id form h) k =
    let (v, w, e, s, i, j, free) = updated formats c d id form h in
    rw (s, store-versions c v w) (save-IsUnique w c.versions (λ q. free) k)
Step-IsUnique {c = c} {d = d} (toggles id h) k = toggle-IsUnique c d id h k
Step-IsUnique {c = c} {d = d} (deletes id now h) k = delete-IsUnique c d id now h k
