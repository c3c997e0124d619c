-- ===== src/Auth/Revoke.antt =====
-- That a change of a user's credentials or state ends the sessions that were opened before it.
use reeva.Prelude.{Bool}
use reeva.Prelude.{
  ℕ, ◌+◌, ◌<◌, ◌≡◌, ◌≢◌, refl, sym, ◌∙◌, ap, false, not, ◌&&◌, ◌||◌, Option, none, some, List, [],
  ◌∷◌, Memᴰ, Text, arith, same, ltb, ◌==◌, find, find-some, update, remove, is_none, length, All,
  All-mem, All-update, Bool-cases, Option-cases, inl, inr, Result, ok, or_fail-eq-ok, require-eq-ok,
}
use reeva.Model.{Uuid}
use reeva.Auth.{
  User, ResetToken, Accounts, Error, invalid_token, not_found, self, root, password_length,
  wrong_password, name_too_long, Hashing, find_user, find_by_email, save, verify_reset_token,
  send_password_reset_link, with_password, forget, update_password_by_token, reset_password,
  toggle_active_user, change_password, update_user, next, outcome, handle,
}

-- The operations that set a password or switch an account, with the user that they save.
pub data Change (h : Hashing) : Accounts → User → Accounts → Type 0 where
  by_token :
      {db d : Accounts} {u : User} (token password : Text) (now : ℕ)
      → update_password_by_token h db token password now ≡ ok (u, d)
      → Change h db u d
  by_admin :
      {db d : Accounts} {u : User} (id current : Uuid) (password : Text)
      → reset_password h db id current password ≡ ok (u, d)
      → Change h db u d
  by_switch :
      {db d : Accounts} {u : User} (id current : Uuid)
      → toggle_active_user db id current ≡ ok (u, d)
      → Change h db u d
  by_user :
      {db d : Accounts} {u : User} (id : Uuid) (current password : Text)
      → change_password h db id current password ≡ ok (u, d)
      → Change h db u d

-- The saved row is the next version of a row that was there.
pub record IsSaved (db : Accounts) (u : User) (d : Accounts) : Type 0 where
  pub old : User
  pub there : Memᴰ old db.users
  pub same_id : u.id ≡ old.id
  pub newer : u.auth_version ≡ old.auth_version + 1
  pub users : d.users ≡ (save u db).users

find_user-mem : (db : Accounts) (id : Uuid) (u : User) → find_user db id ≡ some u → Memᴰ u db.users
unfolding find_user
find_user-mem db id u e =
    (find-some (λ (u : User). u.id == id && is_none u.deleted_at) db.users e).0

find_by_email-mem :
    (db : Accounts) (email : Text) (u : User) → find_by_email db email ≡ some u → Memᴰ u db.users
unfolding find_by_email
find_by_email-mem db email u e =
    (find-some (λ (u : User). same u.email email && is_none u.deleted_at) db.users e).0

forget-users : (u : User) (db : Accounts) → (forget u db).users ≡ db.users
unfolding forget
forget-users u db = refl

save-users :
    (u : User) (db e : Accounts) → db.users ≡ e.users → (save u db).users ≡ (save u e).users
unfolding save
save-users u db e h = ap (update (λ (v : User). v.id == u.id) (λ v. u)) h

fst-ok :
    {A B : Type 0} {a b : A} {x y : B}
    → ◌≡◌ {A = Result Error (A × B)} (ok (a, x)) (ok (b, y))
    → b ≡ a
fst-ok h = cc

snd-ok :
    {A B : Type 0} {a b : A} {x y : B}
    → ◌≡◌ {A = Result Error (A × B)} (ok (a, x)) (ok (b, y))
    → y ≡ x
snd-ok h = cc

saved :
    (db d e : Accounts) (u old v : User)
    → Memᴰ old db.users
    → ◌≡◌ {A = Result Error (User × Accounts)} (ok (v, e)) (ok (u, d))
    → v.id ≡ old.id
    → v.auth_version ≡ old.auth_version + 1
    → e.users ≡ (save v db).users
    → IsSaved db u d
saved db d e u old v m h i n k = record {
  old = old;
  there = m;
  same_id = rw (fst-ok h) i;
  newer = rw (fst-ok h) n;
  users = rw (fst-ok h, snd-ok h) k;
}

Change-IsSaved : {h : Hashing} {db d : Accounts} {u : User} → Change h db u d → IsSaved db u d
unfolding update_password_by_token reset_password toggle_active_user change_password
Change-IsSaved {h} {db} {d} {u} (by_token token password now e) =
    let (r, e1, h1) = or_fail-eq-ok (verify_reset_token h db token now) invalid_token _ e in
    let db1 : Accounts = record db {
      reset_tokens = remove (λ (s : ResetToken). s.id == r.id) db.reset_tokens;
    } in
    let (v, e2, h2) = or_fail-eq-ok (find_by_email db1 r.email) not_found _ h1 in
    let (t, h3) = require-eq-ok v.is_active invalid_token _ h2 in
    saved db d _ u v (with_password h v password) (find_by_email-mem db1 r.email v e2) h3 refl refl
      (forget-users v (save (with_password h v password) db1)
        ∙ save-users (with_password h v password) db1 db refl)
Change-IsSaved {h} {db} {d} {u} (by_admin id current password e) =
    let (v, e1, h1) = or_fail-eq-ok (find_user db id) not_found _ e in
    let (t, h2) = require-eq-ok (not (v.id == current)) self _ h1 in
    let (t2, h3) = require-eq-ok (not v.is_root) root _ h2 in
    saved db d _ u v (with_password h v password) (find_user-mem db id v e1) h3 refl refl
      (forget-users v _)
Change-IsSaved {h} {db} {d} {u} (by_switch id current e) =
    let (v, e1, h1) = or_fail-eq-ok (find_user db id) not_found _ e in
    let (t, h2) = require-eq-ok (not v.is_root) root _ h1 in
    let (t2, h3) = require-eq-ok (not (v.id == current)) self _ h2 in
    saved db d _ u v (record v { is_active = not v.is_active; auth_version = v.auth_version + 1 })
      (find_user-mem db id v e1) h3 refl refl refl
Change-IsSaved {h} {db} {d} {u} (by_user id current password e) =
    let (t, h1) =
      require-eq-ok (not (ltb (length password) 12 || ltb 128 (length password))) password_length _
        e in
    let (v, e1, h2) = or_fail-eq-ok (find_user db id) not_found _ h1 in
    let (t2, h3) = require-eq-ok (h.verify v.password_hash current) wrong_password _ h2 in
    saved db d _ u v (with_password h v password) (find_user-mem db id v e1) h3 refl refl
      (forget-users v _)

-- One request on the accounts that are there.
pub data Step (h : Hashing) : Accounts → Accounts → Type 0 where
  changed : {db d : Accounts} {u : User} → Change h db u d → Step h db d
  renamed :
      {db d : Accounts} {u : User} (id : Uuid) (name : Option Text)
      → update_user db id name ≡ ok (u, d)
      → Step h db d
  linked :
      {db : Accounts} (mail_enabled : Bool) (email : Text) (fresh : Uuid) (token : Text) (now : ℕ)
      → Step h db (send_password_reset_link h mail_enabled db email fresh token now)

pub data Reach (h : Hashing) (start : Accounts) : Accounts → Type 0 where
  here : Reach h start start
  then_step : {db d : Accounts} → Reach h start db → Step h db d → Reach h start d

-- The rows of the user are all past version `n`.
abbrev pub IsPast : Uuid → ℕ → List User → Type 0
IsPast i n = All (λ (u : User). u.id ≡ i → n < u.auth_version)

save-IsPast :
    (i : Uuid) (n : ℕ) (u : User) (db : Accounts)
    → (u.id ≡ i → n < u.auth_version)
    → IsPast i n db.users
    → IsPast i n (save u db).users
unfolding save
save-IsPast i n u db k h =
    All-update _ (λ (v : User). v.id == u.id) (λ v. u) db.users (λ a t b. k) h

-- The users after an operation that changes no row of them.
linked-users :
    (h : Hashing) (mail_enabled : Bool) (db : Accounts) (email : Text) (fresh : Uuid) (token : Text)
    (now : ℕ)
    → (send_password_reset_link h mail_enabled db email fresh token now).users ≡ db.users
unfolding send_password_reset_link
linked-users h mail_enabled db email fresh token now = ground arith

renamed-IsPast :
    (db d : Accounts) (u : User) (id : Uuid) (name : Option Text) (i : Uuid) (n : ℕ)
    → update_user db id name ≡ ok (u, d)
    → IsPast i n db.users
    → IsPast i n d.users
unfolding update_user
renamed-IsPast db d u id name i n e h =
    let (t, h1) =
      require-eq-ok (not (elim name [ none ↦ false | some s ↦ ltb 255 (length s) ])) name_too_long _
        e in
    let (v, e1, h2) = or_fail-eq-ok (find_user db id) not_found _ h1 in
    rw (snd-ok h2) (
      save-IsPast i n (record v { full_name = name }) db
        (All-mem _ db.users h (find_user-mem db id v e1)) h)

Step-IsPast :
    {h : Hashing} {db d : Accounts} (i : Uuid) (n : ℕ)
    → Step h db d
    → IsPast i n db.users
    → IsPast i n d.users
Step-IsPast {db = db} {d = d} i n (changed {u = u} c) k =
    let s = Change-IsSaved c in
    let m = All-mem (λ (u : User). u.id ≡ i → n < u.auth_version) db.users k s.there in
    rw s.users (save-IsPast i n u db (λ e. omega (arith, s.newer, m (sym s.same_id ∙ e))) k)
Step-IsPast {db = db} {d = d} i n (renamed {u = u} id name e) k =
    renamed-IsPast db d u id name i n e k
Step-IsPast {h} {db} i n (linked mail_enabled email fresh token now) k =
    rw (linked-users h mail_enabled db email fresh token now) k

Reach-IsPast :
    {h : Hashing} {db d : Accounts} (i : Uuid) (n : ℕ)
    → Reach h db d
    → IsPast i n db.users
    → IsPast i n d.users
Reach-IsPast i n here k = k
Reach-IsPast i n (then_step r s) k = Step-IsPast i n s (Reach-IsPast i n r k)

outcome-ne-next : (u : User) (n : ℕ) → n < u.auth_version → outcome (some u) (some n) ≢ next
outcome-ne-next u n lt e = ground arith

handle-past : (db : Accounts) (i : Uuid) (n : ℕ) → IsPast i n db.users → handle db i (some n) ≢ next
unfolding handle find_user
handle-past db i n k e =
    elim (Option-cases (find (λ (u : User). u.id == i && is_none u.deleted_at) db.users)) [
      | inl z ↦ cc (ap (λ o. outcome o (some n)) z, e)
      | inr (u, z) ↦
          let (m, t) = find-some (λ (u : User). u.id == i && is_none u.deleted_at) db.users z in
          let lt =
            All-mem (λ (u : User). u.id ≡ i → n < u.auth_version) db.users k m (ground arith) in
          outcome-ne-next u n lt (sym (ap (λ o. outcome o (some n)) z) ∙ e)
    ]

-- Right after a change, the rows of the user are past every older version.
update-IsPast :
    (u : User) (n : ℕ) (users : List User)
    → n < u.auth_version
    → IsPast u.id n (update (λ (v : User). v.id == u.id) (λ v. u) users)
update-IsPast u n [] lt = tt
update-IsPast u n (v ∷ users) lt = elim (Bool-cases (v.id == u.id)) [
  | inl t ↦ rw t ((λ z. lt), update-IsPast u n users lt)
  | inr f ↦ rw f ((λ z. absurd (ground (arith, z))), update-IsPast u n users lt)
]

save_fresh-IsPast :
    (db d : Accounts) (u : User) (n : ℕ)
    → d.users ≡ (save u db).users
    → n < u.auth_version
    → IsPast u.id n d.users
unfolding save
save_fresh-IsPast db d u n e lt = rw e (update-IsPast u n db.users lt)

-- A password reset or change, by token, by an administrator or by the user, and a switch of the
-- account's state raise the user's version by one, and from then on, whatever further such requests,
-- edits of names and reset links follow, the middleware lets no session through that was opened for
-- this user with an older version.
pub Change-revokes :
    {h : Hashing} {db d e : Accounts} {u : User} (n : ℕ)
    → Change h db u d
    → Reach h d e
    → n < u.auth_version
    → ((old : User) × Memᴰ old db.users × (u.id ≡ old.id) × (u.auth_version ≡ old.auth_version + 1))
      × (handle e u.id (some n) ≢ next)
Change-revokes {db = db} {d = d} {e = e} {u = u} n c r lt =
    let s = Change-IsSaved c in
    (
      (s.old, s.there, s.same_id, s.newer),
      handle-past e u.id n (Reach-IsPast u.id n r (save_fresh-IsPast db d u n s.users lt)),
    )
