-- ===== src/Products/Default.antt =====
-- That there is at most one default product, and that it is active.
use reeva.Prelude.{
  ◌≡◌, inl, inr, refl, sym, ◌∙◌, ap, Bool, true, false, not, ◌&&◌, ◌||◌, some, List, [], ◌∷◌, Memᴰ,
  arith, ==→eq, ◌==◌, find, find-some, update, if◌then◌else◌, Bool-cases, is_empty, ltb, length, ok,
  or_fail-eq-ok, require-eq-ok, ok-injective,
}
use reeva.Model.{Uuid, Software}
use reeva.Input.{Value}
use reeva.Products.{
  not_found, default_deactivated, inactive, invalid_name, find_software, save, toggle_active,
  set_default, update_name, name_of,
}

-- The id is a key, every default is active, and two defaults are one product.
pub record IsSound (rows : List Software) : Type 0 where
  pub key : (s t : Software) → Memᴰ s rows → Memᴰ t rows → s.id ≡ t.id → s ≡ t
  pub active : (s : Software) → Memᴰ s rows → s.is_default ≡ true → s.is_active ≡ true
  pub unique :
      (s t : Software)
      → Memᴰ s rows
      → Memᴰ t rows
      → s.is_default ≡ true
      → t.is_default ≡ true
      → s.id ≡ t.id

-- Where a row of an updated table comes from
mem-update_step :
    (p : Software → Bool) (f : Software → Software) (x : Software) (rows : List Software)
    {s : Software} (b : Bool)
    → p x ≡ b
    → (Memᴰ s (update p f rows) → (t : Software) × Memᴰ t rows × (s ≡ (if p t then f t else t)))
    → Memᴰ s ((if b then f x else x) ∷ update p f rows)
    → (t : Software) × Memᴰ t (x ∷ rows) × (s ≡ (if p t then f t else t))
mem-update_step p f x rows true t ih (Memᴰ.head e) = (x, Memᴰ.head refl, rw t e)
mem-update_step p f x rows false t ih (Memᴰ.head e) = (x, Memᴰ.head refl, rw t e)
mem-update_step p f x rows b t ih (Memᴰ.tail m) = let (y, k, e) = ih m in (y, Memᴰ.tail k, e)

mem-update :
    (p : Software → Bool) (f : Software → Software) (rows : List Software) {s : Software}
    → Memᴰ s (update p f rows)
    → (t : Software) × Memᴰ t rows × (s ≡ (if p t then f t else t))
mem-update p f [] m = elim m [ ]
mem-update p f (x ∷ rows) m = mem-update_step p f x rows (p x) refl (mem-update p f rows) m

mem-update_id :
    (p : Software → Bool) (f : Software → Software) (t : Software)
    → ((u : Software) → p u ≡ true → (f u).id ≡ u.id)
    → (if p t then f t else t).id ≡ t.id
mem-update_id p f t ids = elim (Bool-cases (p t)) [ inl z ↦ rw z (ids t z) | inr z ↦ rw z refl ]

mem-update_key :
    (p : Software → Bool) (f : Software → Software) (rows : List Software)
    → ((u : Software) → p u ≡ true → (f u).id ≡ u.id)
    → ((s t : Software) → Memᴰ s rows → Memᴰ t rows → s.id ≡ t.id → s ≡ t)
    → (s t : Software) → Memᴰ s (update p f rows)
    → Memᴰ t (update p f rows)
    → s.id ≡ t.id
    → s ≡ t
mem-update_key p f rows ids key s t m n i =
    let (s1, m1, e1) = mem-update p f rows m in
    let (t1, n1, e2) = mem-update p f rows n in
    let j : s1.id ≡ t1.id =
      sym (ap (λ (x : Software). x.id) e1 ∙ mem-update_id p f s1 ids)
      ∙ i
      ∙ ap (λ (x : Software). x.id) e2
      ∙ mem-update_id p f t1 ids in
    e1 ∙ ap (λ (x : Software). if p x then f x else x) (key s1 t1 m1 n1 j) ∙ sym e2

-- An update that keeps ids, and where each default comes from an active default.
update-IsSound :
    (p : Software → Bool) (f : Software → Software) (rows : List Software)
    → ((t : Software) → p t ≡ true → (f t).id ≡ t.id)
    → ((t : Software)
        → Memᴰ t rows
        → p t ≡ true
        → ((f t).is_default ≡ true → (t.is_default ≡ true) × ((f t).is_active ≡ true)))
    → IsSound rows
    → IsSound (update p f rows)
update-IsSound p f rows ids k h = record {
  key = mem-update_key p f rows ids h.key;
  active = λ s m d. let (t, n, e) = mem-update p f rows m in (from s t n e d).2;
  unique = λ s t m n d e.
      let (s1, m1, e1) = mem-update p f rows m in
      let (t1, n1, e2) = mem-update p f rows n in
      let (i, d1, a) = from s s1 m1 e1 d in
      let (j, d2, b) = from t t1 n1 e2 e in i ∙ h.unique s1 t1 m1 n1 d1 d2 ∙ sym j;
}
  where
    from :
        (s t : Software)
        → Memᴰ t rows
        → s ≡ (if p t then f t else t)
        → s.is_default ≡ true
        → (s.id ≡ t.id) × (t.is_default ≡ true) × (s.is_active ≡ true)
    from s t m e d = elim (Bool-cases (p t)) [
      | inl z ↦
          let q : s ≡ f t = rw z at e in
          let (d1, a) = k t m z (sym (ap (λ (x : Software). x.is_default) q) ∙ d) in
          (ap (λ (x : Software). x.id) q ∙ ids t z, d1, ap (λ (x : Software). x.is_active) q ∙ a)
      | inr z ↦
          let q : s ≡ t = rw z at e in
          let d1 = sym (ap (λ (x : Software). x.is_default) q) ∙ d in
          (
            ap (λ (x : Software). x.id) q,
            d1,
            ap (λ (x : Software). x.is_active) q ∙ h.active t m d1,
          )
    ]

find_software-some :
    (rows : List Software) (id : Uuid) {s : Software}
    → find_software rows id ≡ some s
    → Memᴰ s rows × (s.id ≡ id)
unfolding find_software
find_software-some rows id e =
    let (m, t) = find-some (λ (s : Software). s.id == id) rows e in (m, ground arith)

-- A row that is replaced by one with the same id and flags
replace-IsSound :
    (s s1 : Software) (rows : List Software)
    → s1.id ≡ s.id
    → s1.is_default ≡ s.is_default
    → s1.is_active ≡ s.is_active
    → Memᴰ s rows
    → IsSound rows
    → IsSound (update (λ (t : Software). t.id == s1.id) (λ t. s1) rows)
replace-IsSound s s1 rows i d a m h =
    update-IsSound (λ (t : Software). t.id == s1.id) (λ t. s1) rows
      (λ t z. sym (==→eq t.id s1.id z))
      (λ t n z e.
        let q = h.key t s n m (==→eq t.id s1.id z ∙ i) in
        (ap (λ (x : Software). x.is_default) q ∙ sym d ∙ e, a ∙ h.active s m (sym d ∙ e)))
      h

pub toggle_active-IsSound :
    (rows rows1 : List Software) (id : Uuid)
    → toggle_active rows id ≡ ok rows1
    → IsSound rows
    → IsSound rows1
unfolding toggle_active
toggle_active-IsSound rows rows1 id e h =
    let (s, e1, h1) = or_fail-eq-ok (find_software rows id) not_found _ e in
    let (g, h2) = require-eq-ok (not (s.is_default && s.is_active)) default_deactivated _ h1 in
    let (m, i) = find_software-some rows id e1 in
    rw (sym (ok-injective h2)) (
      update-IsSound (λ (t : Software). t.id == id)
        (λ (t : Software). record t { is_active = not s.is_active }) rows (λ t z. refl)
        (λ t n z d.
          let q : t.is_default ≡ s.is_default =
            ap (λ (x : Software). x.is_default) (h.key t s n m (==→eq t.id id z ∙ sym i)) in
          (d, inactive_of s.is_default s.is_active g (sym q ∙ d)))
        h)
  where
    inactive_of : (d a : Bool) → not (d && a) ≡ true → d ≡ true → not a ≡ true
    inactive_of d a g e = ground arith

pub update_name-IsSound :
    (rows rows1 : List Software) (id : Uuid) (input : Value)
    → update_name rows id input ≡ ok rows1
    → IsSound rows
    → IsSound rows1
unfolding update_name save
update_name-IsSound rows rows1 id input e h =
    let (g, h1) =
      require-eq-ok (not (is_empty (name_of input) || ltb 120 (length (name_of input))))
        invalid_name _ e in
    let (s, e1, h2) = or_fail-eq-ok (find_software rows id) not_found _ h1 in
    let (m, i) = find_software-some rows id e1 in
    rw (sym (ok-injective h2))
      (replace-IsSound s (record s { name = name_of input }) rows refl refl refl m h)

abbrev pub cleared : List Software → List Software
cleared = update (λ t. true) (λ (t : Software). record t { is_default = false })

not-default :
    (rows : List Software) (t : Software) → Memᴰ t (cleared rows) → t.is_default ≡ true → ⊥
not-default rows t m d =
    let (u, n, e) =
      mem-update (λ t. true) (λ (t : Software). record t { is_default = false }) rows m in
    cc (ap (λ (x : Software). x.is_default) e, d)

cleared-IsSound : (rows : List Software) → IsSound rows → IsSound (cleared rows)
cleared-IsSound rows h =
    update-IsSound (λ t. true) (λ (t : Software). record t { is_default = false }) rows
      (λ t z. refl) (λ t m z d. absurd (cc d)) h

-- A default of the table after `set_default`
default_is :
    (rows : List Software) (id : Uuid) (s : Software)
    → Memᴰ s (
        update
          (λ (t : Software). t.id == id)
          (λ (t : Software). record t { is_default = true })
          (cleared rows))
    → s.is_default ≡ true
    → (t : Software) × Memᴰ t rows × (t.id ≡ id) × (s.id ≡ id) × (s.is_active ≡ t.is_active)
default_is rows id s m d =
    let (t, n, e) =
      mem-update (λ (t : Software). t.id == id) (λ (t : Software). record t { is_default = true })
        (cleared rows) m in
    elim (Bool-cases (t.id == id)) [
      | inl z ↦
          let (u, k, e1) =
            mem-update (λ t. true) (λ (t : Software). record t { is_default = false }) rows n in
          let q : s ≡ record t { is_default = true } = rw z at e in
          let i = ==→eq t.id id z in
          (
            u,
            k,
            sym (ap (λ (x : Software). x.id) e1) ∙ i,
            ap (λ (x : Software). x.id) q ∙ i,
            ap (λ (x : Software). x.is_active) q ∙ ap (λ (x : Software). x.is_active) e1,
          )
      | inr z ↦
          let q : s ≡ t = rw z at e in
          absurd (not-default rows t n (sym (ap (λ (x : Software). x.is_default) q) ∙ d))
    ]

pub set_default-IsSound :
    (rows rows1 : List Software) (id : Uuid)
    → set_default rows id ≡ ok rows1
    → IsSound rows
    → IsSound rows1
unfolding set_default
set_default-IsSound rows rows1 id e h =
    let (s, e1, h1) =
      or_fail-eq-ok (find (λ (s : Software). s.is_active && s.id == id) rows) inactive _ e in
    let (m, t) = find-some (λ (s : Software). s.is_active && s.id == id) rows e1 in
    rw (sym (ok-injective h1)) (record {
      key =
          mem-update_key (λ (t : Software). t.id == id)
            (λ (t : Software). record t { is_default = true }) (cleared rows) (λ u z. refl)
            (cleared-IsSound rows h).key;
      active = λ x n d.
          let (u, k, i, j, a) = default_is rows id x n d in
          a ∙ ap (λ (y : Software). y.is_active) (h.key u s k m (i ∙ sym (is_id s t))) ∙ is_on s t;
      unique = λ x y n k d e.
          let (u, k1, i, j, a) = default_is rows id x n d in
          let (v, k2, i2, j2, b) = default_is rows id y k e in j ∙ sym j2;
    })
  where
    is_id : (s : Software) → (s.is_active && s.id == id) ≡ true → s.id ≡ id
    is_id s t = ground arith

    is_on : (s : Software) → (s.is_active && s.id == id) ≡ true → s.is_active ≡ true
    is_on s t = ground arith
