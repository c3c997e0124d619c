-- ===== src/Licenses/Seats.antt =====
-- That an activation stays within the limit of its license.
use reeva.Prelude.{
  ℕ, ◌+◌, ◌≤◌, ◌≡◌, refl, sym, ap, ◌∙◌, false, some, ◌∷◌, Text, lit, arith, length, ok, exists,
  same,
}
use reeva.Model.{Uuid}
use reeva.Input.{Value}
use reeva.Licenses.{
  Integer, nat, minus, License, Activation, Licensing, find_license, save, activations_of, Token,
  Signer, get_private_key, is_full, has_expired, machine_text, issue,
}
use reeva.Licenses.Issue.{issue-IsIssued, key_keeps, cons_same}

-- The seats of a license after an activation
pub record IsSeated (db : Licensing) (id : Uuid) (machine : Value) (now : ℕ) (d : Licensing)
    : Type 0 where
  pub license : License
  pub limit : ℕ
  pub hid : Text
  pub found : find_license db id ≡ some license
  pub limited : license.max_activations ≡ nat limit
  pub active : license.status ≡ lit "active"
  pub unexpired : has_expired license.expires_at now ≡ false
  pub machine_is : machine_text machine ≡ some hid
  pub unseen :
      exists (λ (a : Activation). same a.machine_id hid) (activations_of db license.id) ≡ false
  pub one_more : length (activations_of d license.id) ≡ length (activations_of db license.id) + 1
  pub within : length (activations_of d license.id) ≤ limit

limit_of : (n : ℕ) (m : Integer) → is_full n m ≡ false → (k : ℕ) × (m ≡ nat k) × (n + 1 ≤ k)
limit_of n (nat k) h = (k, refl, ground arith)
limit_of n (minus k) h = cc

one_more_of :
    (signer : Signer) (db : Licensing) (l : License) (fresh : Uuid) (hid : Text) (m : License)
    → length (
        activations_of
          (save
            (record (get_private_key signer db).1 {
              activations =
                  record { id = fresh; license_id = l.id; machine_id = hid }
                  ∷ (get_private_key signer db).1.activations;
            })
            m)
          l.id)
      ≡ length (activations_of db l.id) + 1
unfolding save activations_of
one_more_of signer db l fresh hid m =
    sym (cons_same l.id fresh hid db.activations _ (key_keeps signer db).1)

-- An activation that succeeds is of a live, active and unexpired license with a machine that has no
-- activation for it yet; the license then has one activation more, and not more than its limit.
pub issue-IsSeated :
    (signer : Signer) (db : Licensing) (id : Uuid) (machine : Value) (fresh : Uuid) (now : ℕ)
    (t : Token) (d : Licensing)
    → issue signer db id machine fresh now ≡ ok (t, d)
    → IsSeated db id machine now d
issue-IsSeated signer db id machine fresh now t d h =
    let s = issue-IsIssued signer db id machine fresh now t d h in
    let (k, e, le) = limit_of _ s.license.max_activations s.room in
    let more =
      ap (λ (x : Licensing). length (activations_of x s.license.id)) s.result
      ∙ one_more_of signer db s.license fresh s.hid _ in
    record {
      license = s.license;
      limit = k;
      hid = s.hid;
      found = s.found;
      limited = e;
      active = s.active;
      unexpired = s.unexpired;
      machine_is = s.machine_is;
      unseen = s.unseen;
      one_more = more;
      within = omega (arith, more, le);
    }
