-- ===== src/Settings/Map.antt =====
-- That the settings are a map from keys to values.
use reeva.Prelude.{
  ℕ, ◌≡◌, ◌≢◌, refl, sym, ap, ◌∙◌, Bool, true, false, not, ◌&&◌, Option, none, some, List, ◌∷◌,
  Memᴰ, Text, same, same_refl, ◌==◌, ==→eq, ==_refl, find-some, exists, exists_of_mem, leb, length,
  is_none, is_none→eq, and_left, and_right, All, mem-update, mem-update_intro, mem-update_keep,
  All-mem, Bool-cases, inl, inr, ◌⊎◌, ok, or_fail-eq-ok, require-eq-ok, >>=-eq-ok, ok-injective,
  err, if◌then◌else◌,
}
use reeva.Model.{Uuid}
use reeva.Input.{Value, text}
use reeva.Settings.{
  Setting, Error, invalid_key, invalid_value, managed_elsewhere, key_exists, not_found,
  value_too_long, unique_violation, checked_key, checked_value, is_app_name, find_by_key,
  find_setting, is_taken, is_key, save, create_setting, update_setting, delete_setting,
}

-- Ids and keys are unique.
pub record IsKeyed (rows : List Setting) : Type 0 where
  pub ids : (s t : Setting) → Memᴰ s rows → Memᴰ t rows → s.id ≡ t.id → s ≡ t
  pub keys : (s t : Setting) → Memᴰ s rows → Memᴰ t rows → s.key ≡ t.key → s ≡ t

-- The map that the live rows stand for
pub Holds : List Setting → Text → Text → Type 0
Holds rows key value =
    (s : Setting) × Memᴰ s rows × (s.key ≡ key) × (s.value ≡ value) × (s.deleted_at ≡ none)

-- A change of the map: one key, which is not `appName`, gets a value or loses it
pub record IsChange (rows after : List Setting) (key : Text) (value : Option Text) : Type 0 where
  pub free : is_app_name key ≡ false
  pub set : (v : Text) → value ≡ some v → Holds after key v
  pub only : (v : Text) → Holds after key v → value ≡ some v
  pub kept : (k v : Text) → k ≢ key → Holds rows k v → Holds after k v
  pub old : (k v : Text) → k ≢ key → Holds after k v → Holds rows k v
  pub keyed : IsKeyed after

not-app : (b : Bool) → not b ≡ true → b ≡ false
not-app true h = cc
not-app false h = refl

-- A row that is saved is the new one, or another row as it was.
saved :
    (rows : List Setting) (q t : Setting)
    → Memᴰ t (save q rows)
    → (t ≡ q) ⊎ (Memᴰ t rows × ((t.id == q.id) ≡ false))
saved rows q t m =
    let (b, n, cases) = mem-update (λ (x : Setting). x.id == q.id) (λ x. q) rows m in
    elim cases [ inl (h, e) ↦ inl e | inr (f, e) ↦ inr (rw e (n, f)) ]

module _ (rows : List Setting) (s q : Setting) (h : IsKeyed rows) (m : Memᴰ s rows)
    (i : q.id ≡ s.id) (j : q.key ≡ s.key) where
  clash : (t : Setting) → Memᴰ t rows → (t.id == q.id) ≡ false → t.key ≢ q.key
  clash t n f e = cc (f, ==_refl s.id, i, ap (λ (x : Setting). x.id) (h.keys t s n m (e ∙ j)))

  save-ids : (x y : Setting) → Memᴰ x (save q rows) → Memᴰ y (save q rows) → x.id ≡ y.id → x ≡ y
  save-ids x y a b e = elim (saved rows q x a) [
    | inl u ↦ elim (saved rows q y b) [
      | inl v ↦ u ∙ sym v
      | inr (n, f) ↦ absurd (cc (f, ==_refl q.id, e, ap (λ (z : Setting). z.id) u))
    ]
    | inr (n, f) ↦ elim (saved rows q y b) [
      | inl v ↦ absurd (cc (f, ==_refl q.id, e, ap (λ (z : Setting). z.id) v))
      | inr (o, g) ↦ h.ids x y n o e
    ]
  ]

  save-keys : (x y : Setting) → Memᴰ x (save q rows) → Memᴰ y (save q rows) → x.key ≡ y.key → x ≡ y
  save-keys x y a b e = elim (saved rows q x a) [
    | inl u ↦ elim (saved rows q y b) [
      | inl v ↦ u ∙ sym v
      | inr (n, f) ↦ absurd (clash y n f (sym e ∙ ap (λ (z : Setting). z.key) u))
    ]
    | inr (n, f) ↦ elim (saved rows q y b) [
      | inl v ↦ absurd (clash x n f (e ∙ ap (λ (z : Setting). z.key) v))
      | inr (o, g) ↦ h.keys x y n o e
    ]
  ]

  other_id : (t : Setting) → Memᴰ t rows → t.key ≢ s.key → (t.id == q.id) ≡ false
  other_id t n d = elim (Bool-cases (t.id == q.id)) [
    | inl e ↦ absurd (d (ap (λ (x : Setting). x.key) (h.ids t s n m (==→eq t.id q.id e ∙ i))))
    | inr e ↦ e
  ]

  there : Memᴰ q (save q rows)
  there = mem-update_intro (λ (x : Setting). x.id == q.id) (λ x. q) rows m (rw i (==_refl s.id))

  -- The save of a row that keeps its id and key, where `value` is what the map then holds for it
  save-IsChange :
      (value : Option Text)
      → is_app_name s.key ≡ false
      → ((v : Text) → value ≡ some v → (q.value ≡ v) × (q.deleted_at ≡ none))
      → ((v : Text) → q.value ≡ v → q.deleted_at ≡ none → value ≡ some v)
      → IsChange rows (save q rows) s.key value
  unfolding Holds
  save-IsChange value f sets only = record {
    free = f;
    set = λ v e. (q, there, j, (sets v e).0, (sets v e).1);
    only = λ v held.
        let (t, n, k, u, live) = held in
        elim (saved rows q t n) [
          | inl e ↦
              only v (ap (λ (x : Setting). x.value) (sym e) ∙ u)
                (ap (λ (x : Setting). x.deleted_at) (sym e) ∙ live)
          | inr (o, g) ↦ absurd (clash t o g (k ∙ sym j))
        ];
    kept = λ k v d held.
        let (t, n, e, u, live) = held in
        (
          t,
          mem-update_keep (λ (x : Setting). x.id == q.id) (λ x. q) rows n
              (other_id t n λ c. d (sym e ∙ c)),
          e,
          u,
          live,
        );
    old = λ k v d held.
        let (t, n, e, u, live) = held in
        elim (saved rows q t n) [
          | inl c ↦ absurd (d (sym e ∙ ap (λ (x : Setting). x.key) c ∙ j))
          | inr (o, g) ↦ (t, o, e, u, live)
        ];
    keyed = record { ids = save-ids; keys = save-keys };
  }

unused :
    (rows : List Setting) (key : Text) (t : Setting)
    → exists (λ (s : Setting). same s.key key) rows ≡ false
    → Memᴰ t rows
    → t.key ≢ key
unused rows key t f m e =
    cc (f, exists_of_mem (λ (s : Setting). same s.key key) rows m (rw e (same_refl key)))

add-IsChange :
    (rows : List Setting) (q : Setting)
    → IsKeyed rows
    → All (λ (s : Setting). s.id ≢ q.id) rows
    → exists (λ (s : Setting). same s.key q.key) rows ≡ false
    → is_app_name q.key ≡ false
    → q.deleted_at ≡ none
    → IsChange rows (q ∷ rows) q.key (some q.value)
unfolding Holds
add-IsChange rows q h fresh f app live = record {
  free = app;
  set = λ v e. (q, Memᴰ.head refl, refl, some-injective e, live);
  only = λ v held.
      let (t, n, k, u, l) = held in
      elim n [
        | Memᴰ.head e ↦ ap some (ap (λ (x : Setting). x.value) (sym e) ∙ u)
        | Memᴰ.tail o ↦ absurd (unused rows q.key t f o k)
      ];
  kept = λ k v d held. let (t, n, e, u, l) = held in (t, Memᴰ.tail n, e, u, l);
  old = λ k v d held.
      let (t, n, e, u, l) = held in
      elim n [
        | Memᴰ.head c ↦ absurd (d (sym e ∙ ap (λ (x : Setting). x.key) c))
        | Memᴰ.tail o ↦ (t, o, e, u, l)
      ];
  keyed = record {
    ids = λ x y a b e. elim a [
      | Memᴰ.head u ↦ elim b [
        | Memᴰ.head v ↦ u ∙ sym v
        | Memᴰ.tail o ↦ absurd (All-mem _ rows fresh o (sym e ∙ ap (λ (z : Setting). z.id) u))
      ]
      | Memᴰ.tail n ↦ elim b [
        | Memᴰ.head v ↦ absurd (All-mem _ rows fresh n (e ∙ ap (λ (z : Setting). z.id) v))
        | Memᴰ.tail o ↦ h.ids x y n o e
      ]
    ];
    keys = λ x y a b e. elim a [
      | Memᴰ.head u ↦ elim b [
        | Memᴰ.head v ↦ u ∙ sym v
        | Memᴰ.tail o ↦ absurd (unused rows q.key y f o (sym e ∙ ap (λ (z : Setting). z.key) u))
      ]
      | Memᴰ.tail n ↦ elim b [
        | Memᴰ.head v ↦ absurd (unused rows q.key x f n (e ∙ ap (λ (z : Setting). z.key) v))
        | Memᴰ.tail o ↦ h.keys x y n o e
      ]
    ];
  };
}
  where
    some-injective : {A : Type 0} {x y : A} → ◌≡◌ {A = Option A} (some x) (some y) → x ≡ y
    some-injective e = cc

found :
    (rows : List Setting) (id : Uuid) (s : Setting)
    → find_setting rows id ≡ some s
    → Memᴰ s rows × (s.id ≡ id) × (s.deleted_at ≡ none)
unfolding find_setting
found rows id s e =
    let (m, t) = find-some (λ (x : Setting). x.id == id && is_none x.deleted_at) rows e in
    (
      m,
      ==→eq s.id id (and_left (s.id == id) (is_none s.deleted_at) t),
      is_none→eq s.deleted_at (and_right (s.id == id) (is_none s.deleted_at) t),
    )

-- What a call asks of the map: at which key, and for which value
pub data Request : Type 0 where
  create : (key value : Value) (id : Uuid) → Request
  update : (id : Uuid) (value : Value) → Request
  delete : (id : Uuid) (now : ℕ) → Request

-- A live row with this id and key
pub Names : List Setting → Uuid → Text → Type 0
Names rows id key =
    (s : Setting) × Memᴰ s rows × (s.id ≡ id) × (s.deleted_at ≡ none) × (s.key ≡ key)

-- The key and the value that a request asks for: those it holds, or the key of the row it names
pub Asks : List Setting → Request → Text → Option Text → Type 0
Asks rows (create key_input value_input id) key value =
    (key_input ≡ text key) × (v : Text) × (value_input ≡ text v) × (value ≡ some v)
Asks rows (update id value_input) key value =
    Names rows id key × (v : Text) × (value_input ≡ text v) × (value ≡ some v)
Asks rows (delete id now) key value = Names rows id key × (value ≡ none)

-- One call of the service; the id of a new row is new, as random UUIDs are.
pub data Step : List Setting → Request → List Setting → Type 0 where
  created :
      {rows after : List Setting} (key value : Value) (id : Uuid)
      → All (λ (s : Setting). s.id ≢ id) rows
      → create_setting rows key value id ≡ ok after
      → Step rows (create key value id) after
  updated :
      {rows after : List Setting} (id : Uuid) (value : Value)
      → update_setting rows id value ≡ ok after
      → Step rows (update id value) after
  deleted :
      {rows after : List Setting} (id : Uuid) (now : ℕ)
      → delete_setting rows id now ≡ ok after
      → Step rows (delete id now) after

-- What a test lets pass is what was tested.
passed : (b : Bool) (s t : Text) (e : Error) → (if b then ok s else err e) ≡ ok t → s ≡ t
passed true s t e h = ok-injective h
passed false s t e h = absurd (cc h)

checked_key-eq-ok : (input : Value) (key : Text) → checked_key input ≡ ok key → input ≡ text key
unfolding checked_key
checked_key-eq-ok (text s) key h = ap text (passed (is_key s) s key invalid_key h)
checked_key-eq-ok _ key h = absurd (cc h)

checked_value-eq-ok : (input : Value) (v : Text) → checked_value input ≡ ok v → input ≡ text v
unfolding checked_value
checked_value-eq-ok (text s) v h = ap text (passed (leb (length s) 2000) s v invalid_value h)
checked_value-eq-ok _ v h = absurd (cc h)

-- What a call that succeeds did: it changed the key it asks for, to the value it asks for.
pub record IsDone (rows : List Setting) (q : Request) (after : List Setting) : Type 0 where
  pub key : Text
  pub value : Option Text
  pub asked : Asks rows q key value
  pub change : IsChange rows after key value

create-IsDone :
    (rows after : List Setting) (key_input value_input : Value) (id : Uuid)
    → IsKeyed rows
    → All (λ (s : Setting). s.id ≢ id) rows
    → create_setting rows key_input value_input id ≡ ok after
    → IsDone rows (create key_input value_input id) after
unfolding create_setting Asks Names
create-IsDone rows after key_input value_input id h fresh run =
    let (key, e1, run1) = >>=-eq-ok (checked_key key_input) _ run in
    let (value, e2, run2) = >>=-eq-ok (checked_value value_input) _ run1 in
    let (app, run3) = require-eq-ok (not (is_app_name key)) managed_elsewhere _ run2 in
    let (free, run4) = require-eq-ok (not (is_taken (find_by_key rows key))) key_exists _ run3 in
    let (short, run5) = require-eq-ok (leb (length value) 255) value_too_long _ run4 in
    let (new, run6) =
      require-eq-ok (not (exists (λ (s : Setting). same s.key key) rows)) unique_violation _ run5 in
    record {
      key = key;
      value = some value;
      asked = (
        checked_key-eq-ok key_input key e1,
        value,
        checked_value-eq-ok value_input value e2,
        refl,
      );
      change = rw (sym (ok-injective run6)) (
          add-IsChange rows (record { id = id; key = key; value = value; deleted_at = none }) h
            fresh (not-app _ new) (not-app _ app) refl);
    }

update-IsDone :
    (rows after : List Setting) (id : Uuid) (value_input : Value)
    → IsKeyed rows
    → update_setting rows id value_input ≡ ok after
    → IsDone rows (update id value_input) after
unfolding update_setting Asks Names
update-IsDone rows after id value_input h run =
    let (value, e1, run1) = >>=-eq-ok (checked_value value_input) _ run in
    let (s, e2, run2) = or_fail-eq-ok (find_setting rows id) not_found _ run1 in
    let (app, run3) = require-eq-ok (not (is_app_name s.key)) managed_elsewhere _ run2 in
    let (short, run4) = require-eq-ok (leb (length value) 255) value_too_long _ run3 in
    let (m, same_id, live) = found rows id s e2 in
    record {
      key = s.key;
      value = some value;
      asked = ((s, m, same_id, live, refl), value, checked_value-eq-ok value_input value e1, refl);
      change = rw (sym (ok-injective run4)) (
          save-IsChange rows s (record s { value = value }) h m refl refl (some value)
            (not-app _ app) (λ v e. (some-injective e, live)) (λ v e l. ap some e));
    }
  where
    some-injective : {A : Type 0} {x y : A} → ◌≡◌ {A = Option A} (some x) (some y) → x ≡ y
    some-injective e = cc

delete-IsDone :
    (rows after : List Setting) (id : Uuid) (now : ℕ)
    → IsKeyed rows
    → delete_setting rows id now ≡ ok after
    → IsDone rows (delete id now) after
unfolding delete_setting Asks Names
delete-IsDone rows after id now h run =
    let (s, e1, run1) = or_fail-eq-ok (find_setting rows id) not_found _ run in
    let (app, run2) = require-eq-ok (not (is_app_name s.key)) managed_elsewhere _ run1 in
    let (m, same_id, live) = found rows id s e1 in
    record {
      key = s.key;
      value = none;
      asked = ((s, m, same_id, live, refl), refl);
      change = rw (sym (ok-injective run2)) (
          save-IsChange rows s (record s { deleted_at = some now }) h m refl refl none
            (not-app _ app) (λ v e. absurd (cc e)) (λ v e l. absurd (cc l)));
    }

-- The settings are a map from keys to values. Where ids and keys are unique, a creation that
-- succeeds gives the requested key the requested value, an edit gives the key of the live row it
-- names the requested value, and a deletion takes away the value of the key of the live row it
-- names. The key is never `appName`, every other key is left as it was, and ids and keys stay unique.
-- The id of a new row is new.
pub Step-IsDone :
    {rows after : List Setting} {q : Request}
    → IsKeyed rows
    → Step rows q after
    → IsDone rows q after
Step-IsDone {rows} {after} h (created key value id fresh run) =
    create-IsDone rows after key value id h fresh run
Step-IsDone {rows} {after} h (updated id value run) = update-IsDone rows after id value h run
Step-IsDone {rows} {after} h (deleted id now run) = delete-IsDone rows after id now h run
