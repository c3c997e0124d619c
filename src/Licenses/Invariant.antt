-- ===== src/Licenses/Invariant.antt =====
-- The invariant of licenses and activations, and the edits of app/services/license_service.ts that
-- leave the activations alone.
use reeva.Prelude.{
  ℕ, ◌≡◌, ◌≢◌, refl, sym, ◌∙◌, Bool, true, false, ◌&&◌, some, List, [], ◌∷◌, Memᴰ, Text, lit, arith,
  same, ◌==◌, find-some, select, update, length, is_none, if◌then◌else◌, All, All-mem, Bool-cases,
  inl, inr, ok, or_fail-eq-ok, ok-injective,
}
use reeva.Model.{Uuid}
use reeva.Licenses.{
  License, Activation, Licensing, not_found, find_license, save, activations_of, toggle, delete,
  LicenseUpdate, update_license, create, or_old, revocation,
}

-- Two rows of the activations have different ids and, for one license, different machines.
abbrev pub AreApart : Activation → Activation → Type 0
AreApart a b = (a.id ≢ b.id) × (a.license_id ≡ b.license_id → a.machine_id ≢ b.machine_id)

abbrev pub AllApart : List Activation → Type 0
AllApart [] = Unit
AllApart (a ∷ rest) = All (AreApart a) rest × AllApart rest

-- The stored count of every license is the number of its activations, and no machine is activated
-- twice for one license.
pub record IsConsistent (db : Licensing) : Type 0 where
  pub counted :
      All (λ (l : License). l.activation_count ≡ length (activations_of db l.id)) db.licenses
  pub apart : AllApart db.activations

pub All-update_split {ℓ κ} :
    {A : Type ℓ} (P Q : A → Type κ) (p : A → Bool) (f : A → A) (xs : List A)
    → ((a : A) → p a ≡ true → Q (f a))
    → ((a : A) → p a ≡ false → P a → Q a)
    → All P xs
    → All Q (update p f xs)
All-update_split P Q p f [] k n h = tt
All-update_split P Q p f (x ∷ xs) k n (h, hs) = elim (Bool-cases (p x)) [
  | inl t ↦ rw t (k x t, All-update_split P Q p f xs k n hs)
  | inr e ↦ rw e (n x e h, All-update_split P Q p f xs k n hs)
]

-- Saving a license with the right count keeps the counts, also when the activations changed, if
-- they did not change for the other licenses.
pub save-counted :
    (db db1 : Licensing) (l : License)
    → db1.licenses ≡ db.licenses
    → ((i : Uuid)
        → (i == l.id) ≡ false
        → length (activations_of db1 i) ≡ length (activations_of db i))
    → l.activation_count ≡ length (activations_of db1 l.id)
    → All (λ (l : License). l.activation_count ≡ length (activations_of db l.id)) db.licenses
    → All
        (λ (m : License). m.activation_count ≡ length (activations_of (save db1 l) m.id))
        (save db1 l).licenses
unfolding save activations_of
save-counted db db1 l e others count h = rw e (
    All-update_split _ _ (λ (m : License). m.id == l.id) (λ m. l) db.licenses (λ m t. count)
      (λ m f k. k ∙ sym (others m.id f)) h)

-- A save that touches no activation and no count.
pub save-IsConsistent :
    (db : Licensing) (l : License)
    → l.activation_count ≡ length (activations_of db l.id)
    → IsConsistent db
    → IsConsistent (save db l)
unfolding save
save-IsConsistent db l count h = record {
  counted = save-counted db db l refl (λ i f. refl) count h.counted;
  apart = h.apart;
}

pub find_license-some :
    (db : Licensing) (id : Uuid) (l : License)
    → find_license db id ≡ some l
    → Memᴰ l db.licenses × (l.id ≡ id) × (is_none l.deleted_at ≡ true)
unfolding find_license
find_license-some db id l h =
    let (m, t) = find-some (λ (l : License). l.id == id && is_none l.deleted_at) db.licenses h in
    (m, ground arith, ground arith)

pub counted_at :
    (db : Licensing) (id : Uuid) (l : License)
    → IsConsistent db
    → find_license db id ≡ some l
    → l.activation_count ≡ length (activations_of db l.id)
counted_at db id l h e = All-mem _ db.licenses h.counted ((find_license-some db id l e).0)

pub toggle-IsConsistent :
    (db d : Licensing) (id : Uuid) → toggle db id ≡ ok d → IsConsistent db → IsConsistent d
unfolding toggle
toggle-IsConsistent db d id h k =
    let (l, e, h1) = or_fail-eq-ok (find_license db id) not_found _ h in
    rw (sym (ok-injective h1)) (
      save-IsConsistent db
        (record l {
          status = if same l.status (lit "active") then lit "inactive" else lit "active";
        })
        (counted_at db id l k e) k)

pub delete-IsConsistent :
    (db d : Licensing) (id : Uuid) (now : ℕ)
    → delete db id now ≡ ok d
    → IsConsistent db
    → IsConsistent d
unfolding delete
delete-IsConsistent db d id now h k =
    let (l, e, h1) = or_fail-eq-ok (find_license db id) not_found _ h in
    rw (sym (ok-injective h1))
      (save-IsConsistent db (record l { deleted_at = some now }) (counted_at db id l k e) k)

pub update_license-IsConsistent :
    (db d : Licensing) (id : Uuid) (u : LicenseUpdate) (now : ℕ)
    → update_license db id u now ≡ ok d
    → IsConsistent db
    → IsConsistent d
unfolding update_license
update_license-IsConsistent db d id u now h k =
    let (l, e, h1) = or_fail-eq-ok (find_license db id) not_found _ h in
    rw (sym (ok-injective h1)) (
      save-IsConsistent db
        (record l {
          license_key = u.license_key;
          product_name = u.product_name;
          status = u.status;
          max_activations = or_old u.max_activations l.max_activations;
          expires_at = u.expires_at;
          revoked_at = revocation u.status l.revoked_at now;
        })
        (counted_at db id l k e) k)

select_none :
    (i : Uuid) (rows : List Activation)
    → All (λ (a : Activation). a.license_id ≢ i) rows
    → select (λ (a : Activation). a.license_id == i) rows ≡ []
select_none i [] h = refl
select_none i (a ∷ rows) (n, h) = ground (arith, select_none i rows h)

pub create-IsConsistent :
    (db : Licensing) (fresh : Uuid) (key : Text) (u : LicenseUpdate)
    → All (λ (a : Activation). a.license_id ≢ fresh) db.activations
    → IsConsistent db
    → IsConsistent (create db fresh key u)
unfolding create activations_of
create-IsConsistent db fresh key u n k = record {
  counted = (rw (select_none fresh db.activations n) refl, k.counted);
  apart = k.apart;
}
