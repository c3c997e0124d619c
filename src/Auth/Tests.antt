-- ===== src/Auth/Tests.antt =====
-- Runs of the account operations.
use reeva.Prelude.{
  ℕ, ◌+◌, ◌≡◌, ◌≢◌, refl, true, false, none, some, [], ◌∷◌, Memᴰ, Text, lit, arith, ok, same, trim,
  trim_start, is_space, is_some, find,
}
use reeva.Auth.{
  User, ResetToken, RateLimit, Accounts, Hashing, find_by_email, save, verify_reset_token,
  update_password_by_token, forget, handle, next, login, identity_key, rate_limit_key,
}
use reeva.Prelude.{
  List, All, ap, ◌∙◌, Option, if◌then◌else◌, Bool-cases, inl, inr, ◌&&◌, ◌==◌, ==→eq, and_left,
  is_none, find-some,
}
use reeva.Input.{text, undefined}
use reeva.Auth.{find_user, is_auth_request_throttled, increment, attempts_of, sweep}
use reeva.Auth.Login.{Session, Credentials, signed_in, sign_in, admit, attempt_login, store}
use reeva.Auth.Session.{IsLogin, store-IsLogin}
use reeva.Auth.Throttle.{
  Attempt, Event, counted_request, cleared, Spares, after_all, is_refused, after_all_refused,
}
use reeva.Auth.Reset.{IsForgotten, update_password_by_token-IsForgotten, verify_reset_token_stored}
use reeva.Auth.Revoke.{by_token, here, Change-revokes}

-- A digest that marks its argument
abbrev hashing : Hashing
hashing = record {
  digest = λ s. 104 ∷ s;
  hash = λ s. 36 ∷ s;
  verify = λ h s. same h (36 ∷ s);
  lower = λ s. s;
}

abbrev user_of : Text → ℕ → User
user_of password version = record {
  id = 3;
  email = lit "a@b.c";
  full_name = none;
  password_hash = password;
  is_root = false;
  is_active = true;
  auth_version = version;
  deleted_at = none;
}

abbrev link : ResetToken
link = record { id = 8; email = lit "a@b.c"; token = lit "ht"; expires_at = 50 }

abbrev before : Accounts
before = record {
  users = user_of (lit "x") 4 ∷ [];
  reset_tokens = link ∷ [];
  remembered = 3 ∷ [];
  rate_limits = [];
}

abbrev reset : Accounts
reset = record {
  users = user_of (lit "$new") 5 ∷ [];
  reset_tokens = [];
  remembered = [];
  rate_limits = [];
}

reset_run :
    update_password_by_token hashing before (lit "t") (lit "new") 10
    ≡ ok (user_of (lit "$new") 5, reset)
unfolding update_password_by_token verify_reset_token find_by_email save forget same
reset_run = refl

Change-revokes_example :
    ((old : User) × Memᴰ old before.users × (3 ≡ old.id) × (5 ≡ old.auth_version + 1))
    × (handle reset 3 (some 4) ≢ next)
Change-revokes_example =
    Change-revokes {h = hashing} {db = before} {d = reset} {e = reset} {u = user_of (lit "$new") 5}
      4 (by_token (lit "t") (lit "new") 10 reset_run) here (omega arith)

verify_reset_token_stored_example : is_some (verify_reset_token hashing before (lit "ht") 10) ≡ true
verify_reset_token_stored_example =
    verify_reset_token_stored hashing before 10 link (Memᴰ.head refl) (omega arith)

abbrev attempt : ℕ → Attempt
attempt now = record { action = login; ip = lit "1"; identity = lit "a"; now = now }

abbrev spent : RateLimit
spent = record { key = identity_key hashing login (lit "a"); attempts = 8; window_ends_at = 100 }

find_run :
    find (λ (r : RateLimit). same r.key (identity_key hashing login (lit "a"))) (spent ∷ [])
    ≡ some spent
unfolding rate_limit_key same trim trim_start is_space
find_run = refl

-- Another attempt on the identity, and then a login of another one, from another address
abbrev between : List Event
between = counted_request (attempt 50) ∷ cleared (lit "2") (lit "b") ∷ []

spares : All (Spares hashing (identity_key hashing login (lit "a")) 100) between
unfolding Spares rate_limit_key same trim trim_start is_space
spares = (omega arith, ((refl, refl), tt))

after_all_refused_example :
    is_refused hashing (attempt 60) (after_all hashing between (spent ∷ [])) ≡ true
after_all_refused_example =
    after_all_refused hashing between (attempt 60) 100 (spent ∷ [])
      (spent, find_run, omega arith, refl) spares (omega arith)

update_password_by_token-IsForgotten_example :
    IsForgotten (user_of (lit "$new") 5) reset
    × (true ≡ true)
    × (lit "$new" ≡ hashing.hash (lit "new"))
    × (is_some (verify_reset_token hashing before (lit "t") 10) ≡ true)
update_password_by_token-IsForgotten_example =
    update_password_by_token-IsForgotten hashing before reset (lit "t") (lit "new") 10
      (user_of (lit "$new") 5) reset_run

-- The framework's look-up, for the one user of the runs
abbrev look_up : Accounts → Text → Text → Option User
look_up db email password = if same password (lit "x") then find_user db 3 else none

look_up-finds :
    (db : Accounts) (email password : Text) (u : User)
    → look_up db email password ≡ some u
    → find_user db u.id ≡ some u
unfolding find_user
look_up-finds db email password u e = elim (Bool-cases (same password (lit "x"))) [
  | inl t ↦
      let found : find_user db 3 ≡ some u = rw t at e in
      let row = find-some (λ (v : User). v.id == 3 && is_none v.deleted_at) db.users found in
      ap (find_user db) (==→eq u.id 3 (and_left (u.id == 3) (is_none u.deleted_at) row.1)) ∙ found
  | inr f ↦ absurd (cc (rw f at e))
]

abbrev credentials : Credentials
credentials = record { verify = look_up; finds = look_up-finds }

abbrev visitor : Session
visitor = record { user = none; auth_version = none }

login_run :
    (store hashing credentials before visitor
      (text (lit "a@b.c"))
      (text (lit "x"))
      undefined
      (lit "::1")
      10).result
    ≡ signed_in
unfolding store attempt_login admit sign_in is_auth_request_throttled increment rate_limit_key
    attempts_of sweep find_user same trim trim_start is_space
login_run = refl

store-IsLogin_example : IsLogin before visitor (
    store hashing credentials before visitor
      (text (lit "a@b.c"))
      (text (lit "x"))
      undefined
      (lit "::1")
      10)
store-IsLogin_example =
    store-IsLogin hashing credentials before visitor (text (lit "a@b.c")) (text (lit "x")) undefined
      (lit "::1") 10
