-- ===== src/Licenses/Remove.antt =====
-- That the removal of an activation keeps the invariant of the licenses.
use reeva.Prelude.{
  ◌≡◌, refl, sym, ap, ◌∙◌, Bool, true, false, ◌&&◌, and_right, List, [], ◌∷◌, Memᴰ, arith, ◌==◌,
  ==→eq, find, find-some, select, remove, length, if◌then◌else◌, All, All-mem, All-remove,
  Bool-cases, inl, inr, ok, or_fail-eq-ok, ok-injective,
}
use reeva.Model.{Uuid}
use reeva.Licenses.{
  License, Activation, Licensing, not_found, find_license, save, activations_of, remove_activation,
}
use reeva.Licenses.Invariant.{AreApart, AllApart, IsConsistent, save-counted}

-- Removing rows that all belong to one license leaves the rows of the others.
select-remove :
    (p q : Activation → Bool) (rows : List Activation)
    → All (λ a. p a ≡ true → q a ≡ false) rows
    → select q (remove p rows) ≡ select q rows
select-remove p q [] h = refl
select-remove p q (a ∷ rows) (k, h) = elim (Bool-cases (p a)) [
  | inl t ↦ rw (t, k t) (select-remove p q rows h)
  | inr f ↦ rw f (ap (λ r. if q a then a ∷ r else r) (select-remove p q rows h))
]

AllApart-remove :
    (p : Activation → Bool) (rows : List Activation) → AllApart rows → AllApart (remove p rows)
AllApart-remove p [] h = tt
AllApart-remove p (a ∷ rows) (k, h) = elim (Bool-cases (p a)) [
  | inl t ↦ rw t (AllApart-remove p rows h)
  | inr f ↦ rw f (All-remove (AreApart a) p rows k, AllApart-remove p rows h)
]

-- Rows that are apart have their ids as a key.
id_is_key :
    (rows : List Activation) (a : Activation)
    → AllApart rows
    → Memᴰ a rows
    → All (λ (b : Activation). b.id ≡ a.id → b.license_id ≡ a.license_id) rows
id_is_key [] a h m = tt
id_is_key (b ∷ rows) a (k, h) (Memᴰ.head e) =
    (λ i. ap (λ (x : Activation). x.license_id) (sym e), all_other rows k)
  where
    all_other :
        (xs : List Activation)
        → All (AreApart b) xs
        → All (λ (x : Activation). x.id ≡ a.id → x.license_id ≡ a.license_id) xs
    all_other [] z = tt
    all_other (x ∷ xs) (z, zs) =
        (λ i. absurd (z.0 (sym (i ∙ ap (λ (y : Activation). y.id) e))), all_other xs zs)
id_is_key (b ∷ rows) a (k, h) (Memᴰ.tail m) =
    (λ i. absurd ((All-mem (AreApart b) rows k m).0 i), id_is_key rows a h m)

others_kept :
    (rows : List Activation) (a : Activation) (i : Uuid)
    → (i == a.license_id) ≡ false
    → All (λ (b : Activation). b.id ≡ a.id → b.license_id ≡ a.license_id) rows
    → All (λ (b : Activation). (b.id == a.id) ≡ true → (b.license_id == i) ≡ false) rows
others_kept [] a i f h = tt
others_kept (b ∷ rows) a i f (k, h) =
    ((λ t. ground (arith, k (==→eq b.id a.id t))), others_kept rows a i f h)

-- What removing an activation did.
removed_counted :
    (db : Licensing) (l : License) (a : Activation)
    → Memᴰ a db.activations
    → a.license_id ≡ l.id
    → IsConsistent db
    → IsConsistent (
        save
          (record db { activations = remove (λ (b : Activation). b.id == a.id) db.activations })
          (record l {
            activation_count = length (
                activations_of
                  (record db {
                    activations = remove (λ (b : Activation). b.id == a.id) db.activations;
                  })
                  l.id);
          }))
removed_counted db l a m e k = record {
  counted =
      save-counted db _ _ refl
        (λ i f.
          unfold activations_of in
          ap length (
            select-remove (λ (b : Activation). b.id == a.id) (λ (b : Activation). b.license_id == i)
              db.activations
              (others_kept db.activations a i (rw e f) (id_is_key db.activations a k.apart m))))
        refl k.counted;
  apart = unfold save in AllApart-remove (λ (b : Activation). b.id == a.id) db.activations k.apart;
}

pub remove_activation-IsConsistent :
    (db d : Licensing) (license_id activation_id : Uuid)
    → remove_activation db license_id activation_id ≡ ok d
    → IsConsistent db
    → IsConsistent d
unfolding remove_activation
remove_activation-IsConsistent db d license_id activation_id h k =
    let (l, el, h1) = or_fail-eq-ok (find_license db license_id) not_found _ h in
    let (a, ea, h2) =
      or_fail-eq-ok
        (find (λ (a : Activation). a.id == activation_id && a.license_id == l.id) db.activations)
        not_found _ h1 in
    let (m, t) =
      find-some (λ (a : Activation). a.id == activation_id && a.license_id == l.id) db.activations
        ea in
    rw (sym (ok-injective h2))
      (removed_counted db l a m (==→eq a.license_id l.id (and_right (a.id == activation_id) _ t)) k)
