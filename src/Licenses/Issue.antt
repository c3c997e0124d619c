-- ===== src/Licenses/Issue.antt =====
-- That an activation keeps the invariant of the licenses.
use reeva.Prelude.{
  ℕ, ◌+◌, ◌≡◌, ◌≢◌, sym, ap, Bool, true, false, not, ◌||◌, or_left, or_right, some, List, [], ◌∷◌,
  Text, lit, arith, same, same_iff, same→eq, ◌==◌, ==_refl, select, exists, length, All, Bool-cases,
  inl, inr, Result, ok, or_fail-eq-ok, require-eq-ok,
}
use reeva.Model.{Uuid}
use reeva.Input.{Value}
use reeva.Licenses.{
  License, Activation, Licensing, Error, invalid_machine, not_found, inactive, expired,
  already_activated, limit_reached, find_license, save, activations_of, Token, Signer,
  get_private_key, is_full, has_expired, machine_text, issue,
}
use reeva.Licenses.Invariant.{AreApart, IsConsistent, save-counted}

-- The facts behind an activation that succeeds.
pub record IsIssued (signer : Signer) (db : Licensing) (id : Uuid) (machine : Value) (fresh : Uuid)
    (now : ℕ) (d : Licensing) : Type 0 where
  pub hid : Text
  pub license : License
  pub machine_is : machine_text machine ≡ some hid
  pub found : find_license db id ≡ some license
  pub active : license.status ≡ lit "active"
  pub unexpired : has_expired license.expires_at now ≡ false
  pub unseen :
      exists (λ (a : Activation). same a.machine_id hid) (activations_of db license.id) ≡ false
  pub room : is_full (length (activations_of db license.id)) license.max_activations ≡ false
  pub result :
      d
      ≡ save
          (record (get_private_key signer db).1 {
            activations =
                record { id = fresh; license_id = license.id; machine_id = hid }
                ∷ (get_private_key signer db).1.activations;
          })
          (record license { activation_count = length (activations_of db license.id) + 1 })

not-true : (b : Bool) → not b ≡ true → b ≡ false
not-true b h = ground arith

snd-eq-ok :
    {A B : Type 0} {a b : A} {x y : B}
    → ◌≡◌ {A = Result Error (A × B)} (ok (a, x)) (ok (b, y))
    → y ≡ x
snd-eq-ok h = cc

pub issue-IsIssued :
    (signer : Signer) (db : Licensing) (id : Uuid) (machine : Value) (fresh : Uuid) (now : ℕ)
    (t : Token) (d : Licensing)
    → issue signer db id machine fresh now ≡ ok (t, d)
    → IsIssued signer db id machine fresh now d
unfolding issue
issue-IsIssued signer db id machine fresh now t d h =
    let (hid, em, h1) = or_fail-eq-ok (machine_text machine) invalid_machine _ h in
    let (l, el, h2) = or_fail-eq-ok (find_license db id) not_found _ h1 in
    let (t1, h3) = require-eq-ok (same l.status (lit "active")) inactive _ h2 in
    let (t2, h4) = require-eq-ok (not (has_expired l.expires_at now)) expired _ h3 in
    let (t3, h5) =
      require-eq-ok
        (not (exists (λ (a : Activation). same a.machine_id hid) (activations_of db l.id)))
        already_activated _ h4 in
    let (t4, h6) =
      require-eq-ok (not (is_full (length (activations_of db l.id)) l.max_activations))
        limit_reached _ h5 in
    record {
      hid = hid;
      license = l;
      machine_is = em;
      found = el;
      active = same→eq l.status (lit "active") t1;
      unexpired = not-true _ t2;
      unseen = not-true _ t3;
      room = not-true _ t4;
      result = snd-eq-ok h6;
    }

pub key_keeps :
    (signer : Signer) (db : Licensing)
    → ((get_private_key signer db).1.licenses ≡ db.licenses)
      × ((get_private_key signer db).1.activations ≡ db.activations)
unfolding get_private_key
key_keeps signer db = (ground arith, ground arith)

-- No row of the license has the machine, so a new row with a new id is apart from all rows.
apart_of_unseen :
    (fresh license : Uuid) (hid : Text) (rows : List Activation)
    → exists
        (λ (a : Activation). same a.machine_id hid)
        (select (λ (a : Activation). a.license_id == license) rows)
      ≡ false
    → All (λ (a : Activation). a.id ≢ fresh) rows
    → All (AreApart (record { id = fresh; license_id = license; machine_id = hid })) rows
apart_of_unseen fresh license hid [] h n = tt
apart_of_unseen fresh license hid (a ∷ rows) h (n, ns) =
    elim (Bool-cases (a.license_id == license)) [
      | inl t ↦
          let k : (same a.machine_id hid
                || exists (λ (a : Activation). same a.machine_id hid)
                    (select (λ (a : Activation). a.license_id == license) rows))
              ≡ false =
            rw (t, select) at h in
          (
            (
              λ e. n (sym e),
              λ e m. cc (
                or_left (same a.machine_id hid)
                    (exists (λ (a : Activation). same a.machine_id hid)
                      (select (λ (a : Activation). a.license_id == license) rows))
                    k,
                (same_iff a.machine_id hid).1 (sym m),
              ),
            ),
            apart_of_unseen fresh license hid rows (or_right (same a.machine_id hid) _ k) ns,
          )
      | inr f ↦ (
        (λ e. n (sym e), λ e m. cc (f, ==_refl license, ap (λ x. x == license) e)),
        apart_of_unseen fresh license hid rows (rw (f, select) at h) ns,
      )
    ]

cons_other :
    (i license fresh : Uuid) (hid : Text) (rows rows' : List Activation)
    → rows' ≡ rows
    → (i == license) ≡ false
    → length (
        select
          (λ (a : Activation). a.license_id == i)
          (record { id = fresh; license_id = license; machine_id = hid } ∷ rows'))
      ≡ length (select (λ (a : Activation). a.license_id == i) rows)
cons_other i license fresh hid rows rows' e f = rw e (ground arith)

pub cons_same :
    (license fresh : Uuid) (hid : Text) (rows rows' : List Activation)
    → rows' ≡ rows
    → length (select (λ (a : Activation). a.license_id == license) rows) + 1
      ≡ length (
          select
            (λ (a : Activation). a.license_id == license)
            (record { id = fresh; license_id = license; machine_id = hid } ∷ rows'))
cons_same license fresh hid rows rows' e = rw e (ground arith)

pub issue-IsConsistent :
    (signer : Signer) (db d : Licensing) (id : Uuid) (machine : Value) (fresh : Uuid) (now : ℕ)
    → All (λ (a : Activation). a.id ≢ fresh) db.activations
    → IsIssued signer db id machine fresh now d
    → IsConsistent db
    → IsConsistent d
issue-IsConsistent signer db d id machine fresh now n s k = rw s.result (record {
  counted =
      save-counted db db1 l ((key_keeps signer db).0)
        (λ i f.
          unfold activations_of in
          cons_other i s.license.id fresh s.hid _ _ ((key_keeps signer db).1) f)
        (unfold activations_of in cons_same s.license.id fresh s.hid _ _ ((key_keeps signer db).1))
        k.counted;
  apart =
      unfold save in
      rw ((key_keeps signer db).1) (
        apart_of_unseen fresh s.license.id s.hid db.activations (unfold activations_of in s.unseen)
            n,
        k.apart,
      );
})
  where
    db1 : Licensing
    db1 = record (get_private_key signer db).1 {
      activations =
          record { id = fresh; license_id = s.license.id; machine_id = s.hid }
          ∷ (get_private_key signer db).1.activations;
    }

    l : License
    l = record s.license { activation_count = length (activations_of db s.license.id) + 1 }
