-- ===== src/Auth/Reset.antt =====
-- What the look-up of a reset token accepts.
use reeva.Prelude.{
  ℕ, ◌<◌, ◌≡◌, ◌≢◌, refl, ap, ◌∙◌, true, Option, none, some, List, Memᴰ, Text, arith, same,
  same_refl, same_iff, is_some, find, find-none, All, All-mem, All_of_remove, remove, ◌==◌, ==_refl,
  Option-cases, inl, inr, Result, ok, or_fail-eq-ok, require-eq-ok,
}
use reeva.Model.{Uuid}
use reeva.Auth.{
  User, Error, invalid_token, not_found, Hashing, ResetToken, Accounts, holds, or_else,
  verify_reset_token, find_by_email, save, with_password, forget, update_password_by_token,
}

find-holds :
    (token : Text) (now : ℕ) (rows : List ResetToken) (r : ResetToken)
    → Memᴰ r rows
    → r.token ≡ token
    → now < r.expires_at
    → is_some (find (holds token now) rows) ≡ true
find-holds token now rows r m e lt = elim (Option-cases (find (holds token now) rows)) [
  | inl n ↦
      let f = All-mem _ rows (find-none (holds token now) rows n) m in
      let t : holds token now r ≡ true =
        ground (arith, same_refl token, ap (λ t. same t token) e) in
      cc (f, t)
  | inr (s, k) ↦ rw k refl
]

or_else_some : {A : Type 0} (a b : Option A) → is_some b ≡ true → is_some (or_else a b) ≡ true
or_else_some none b h = h
or_else_some (some x) b h = refl

-- The text that the table stores for a live reset token is itself accepted as a reset token, also
-- when it is a digest: the look-up falls back to the plain comparison.
pub verify_reset_token_stored :
    (h : Hashing) (db : Accounts) (now : ℕ) (r : ResetToken)
    → Memᴰ r db.reset_tokens
    → now < r.expires_at
    → is_some (verify_reset_token h db r.token now) ≡ true
unfolding verify_reset_token
verify_reset_token_stored h db now r m lt =
    or_else_some _ _ (find-holds r.token now db.reset_tokens r m refl lt)

abbrev pub IsForgotten : User → Accounts → Type 0
IsForgotten u db =
    All (λ (r : ResetToken). r.email ≢ u.email) db.reset_tokens
    × All (λ (i : Uuid). i ≢ u.id) db.remembered

forget-IsForgotten :
    (u v : User) (db : Accounts) → v.email ≡ u.email → v.id ≡ u.id → IsForgotten v (forget u db)
unfolding forget
forget-IsForgotten u v db e i = (
  All_of_remove _ (λ (r : ResetToken). same r.email u.email) db.reset_tokens
      (λ r f k. cc (f, (same_iff r.email u.email).1 (k ∙ e))),
  All_of_remove _ (λ j. j == u.id) db.remembered
      (λ j f k. cc (f, ==_refl u.id, ap (λ n. n == u.id) (k ∙ i))),
)

pair-eq :
    {A B : Type 0} {a b : A} {x y : B}
    → ◌≡◌ {A = Result Error (A × B)} (ok (a, x)) (ok (b, y))
    → (b ≡ a) × (y ≡ x)
pair-eq h = (cc, cc)

forgotten :
    (u v w : User) (db d : Accounts)
    → ◌≡◌ {A = Result Error (User × Accounts)} (ok (w, forget u db)) (ok (v, d))
    → w.email ≡ u.email
    → w.id ≡ u.id
    → IsForgotten v d
forgotten u v w db d h e i = let (p, q) = pair-eq h in rw (p, q) (forget-IsForgotten u w db e i)

-- After a password reset by token that succeeds, the user has no reset token left, the used one
-- included, and no remembered login; the user was active, and the token was live.
pub update_password_by_token-IsForgotten :
    (h : Hashing) (db d : Accounts) (token password : Text) (now : ℕ) (u : User)
    → update_password_by_token h db token password now ≡ ok (u, d)
    → IsForgotten u d
      × (u.is_active ≡ true)
      × (u.password_hash ≡ h.hash password)
      × (is_some (verify_reset_token h db token now) ≡ true)
unfolding update_password_by_token
update_password_by_token-IsForgotten h db d token password now u e =
    let (r, e1, h1) = or_fail-eq-ok (verify_reset_token h db token now) invalid_token _ e in
    let db1 : Accounts = record db {
      reset_tokens = remove (λ (s : ResetToken). s.id == r.id) db.reset_tokens;
    } in
    let (v, e2, h2) = or_fail-eq-ok (find_by_email db1 r.email) not_found _ h1 in
    let (t, h3) = require-eq-ok v.is_active invalid_token _ h2 in
    let (p, q) = pair-eq h3 in
    (
      forgotten v u (with_password h v password) (save (with_password h v password) db1) d h3 refl
          refl,
      ap (λ (x : User). x.is_active) p ∙ t,
      ap (λ (x : User). x.password_hash) p,
      ap is_some e1,
    )
