-- ===== src/Auth/Session.antt =====
-- What a login does to the session.
use reeva.Prelude.{
  ℕ, ◌≡◌, refl, ◌≢◌, Bool, true, false, ◌&&◌, Option, none, some, List, Text, leb, ==_refl, length,
  trim, if◌then◌else◌,
}
use reeva.Input.{Value, undefined, null, bool, number, text, object}
use reeva.Auth.{
  User, RateLimit, Accounts, Hashing, find_user, next, handle, login, is_auth_request_throttled,
}
use reeva.Auth.Login.{
  Session, Credentials, signed_in, invalid, Visit, is_remembered, sign_in, refused, admit,
  with_limits, attempt_login, store, admitted,
}

-- A login leaves the session as it was, or opens one that the middleware admits.
pub data IsLogin (db : Accounts) (s : Session) (v : Visit) : Type 0 where
  kept :
      v.session ≡ s
      → v.accounts.users ≡ db.users
      → v.accounts.remembered ≡ db.remembered
      → v.result ≢ signed_in
      → IsLogin db s v
  opened :
      (u : User)
      → v.result ≡ signed_in
      → find_user db u.id ≡ some u
      → u.is_active ≡ true
      → v.session.user ≡ some u.id
      → v.accounts.users ≡ db.users
      → admitted v.accounts v.session ≡ next
      → IsLogin db s v

sign_in-IsLogin :
    (h : Hashing) (db : Accounts) (s : Session) (u : User) (b : Bool) (ip email : Text)
    → find_user db u.id ≡ some u
    → u.is_active ≡ true
    → IsLogin db s (sign_in h db u b ip email)
unfolding sign_in handle find_user
sign_in-IsLogin h db s u b ip email found active =
    opened u refl found active refl refl (rw (found, ==_refl u.auth_version, active) refl)

choose-IsLogin :
    {db : Accounts} {s : Session} (b : Bool) (x y : Visit)
    → (b ≡ true → IsLogin db s x)
    → IsLogin db s y
    → IsLogin db s (if b then x else y)
choose-IsLogin true x y f g = f refl
choose-IsLogin false x y f g = g

refused-invalid :
    (db d : Accounts) (s : Session)
    → d.users ≡ db.users
    → d.remembered ≡ db.remembered
    → IsLogin db s (refused d s invalid)
refused-invalid db d s e r = kept refl e r (λ i. cc)

admit-IsLogin :
    (h : Hashing) (db : Accounts) (s : Session) (o : Option User) (remember_me : Value)
    (ip email : Text)
    → ((u : User) → o ≡ some u → find_user db u.id ≡ some u)
    → IsLogin db s (admit h db s o remember_me ip email)
unfolding admit
admit-IsLogin h db s none remember_me ip email finds = refused-invalid db db s refl refl
admit-IsLogin h db s (some u) remember_me ip email finds =
    choose-IsLogin u.is_active _ _
      (λ active.
        sign_in-IsLogin h db s u (is_remembered remember_me) ip email (finds u refl) active)
      (refused-invalid db db s refl refl)

-- The counters do not matter to the users.
limits-IsLogin :
    (db : Accounts) (rows : List RateLimit) (s : Session) (v : Visit)
    → IsLogin (record db { rate_limits = rows }) s v
    → IsLogin db s v
unfolding find_user
limits-IsLogin db rows s v (kept a b c d) = kept a b c d
limits-IsLogin db rows s v (opened u a b c d e f) = opened u a b c d e f

attempt_login-IsLogin :
    (h : Hashing) (k : Credentials) (db : Accounts) (s : Session) (email password : Text)
    (remember_me : Value) (ip : Text) (now : ℕ)
    → IsLogin db s (attempt_login h k db s email password remember_me ip now)
unfolding attempt_login
attempt_login-IsLogin h k db s email password remember_me ip now =
    let x = is_auth_request_throttled h login ip email now db.rate_limits in
    choose-IsLogin x.0 _ _ (λ t. kept refl refl refl (λ i. cc))
      (limits-IsLogin db x.1 s _ (
        admit-IsLogin h (with_limits db x) s _ remember_me ip email
          (λ u e. k.finds (with_limits db x) (trim email) password u e)))

-- Whatever the inputs of a login: either it leaves the session, the users and the remembered logins
-- as they were and does not lead to the dashboard, or it signs in a live and active user whose
-- session the authentication middleware admits on the next request. The framework is taken to find
-- credentials only of rows that a query finds.
pub store-IsLogin :
    (h : Hashing) (k : Credentials) (db : Accounts) (s : Session)
    (email password remember_me : Value) (ip : Text) (now : ℕ)
    → IsLogin db s (store h k db s email password remember_me ip now)
unfolding store
store-IsLogin h k db s (text email) (text password) remember_me ip now =
    choose-IsLogin (leb (length email) 255 && leb (length password) 1024) _ _
      (λ t. attempt_login-IsLogin h k db s email password remember_me ip now)
      (refused-invalid db db s refl refl)
store-IsLogin h k db s undefined password remember_me ip now = refused-invalid db db s refl refl
store-IsLogin h k db s null password remember_me ip now = refused-invalid db db s refl refl
store-IsLogin h k db s (bool b) password remember_me ip now = refused-invalid db db s refl refl
store-IsLogin h k db s (number n) password remember_me ip now = refused-invalid db db s refl refl
store-IsLogin h k db s object password remember_me ip now = refused-invalid db db s refl refl
store-IsLogin h k db s (text email) undefined remember_me ip now = refused-invalid db db s refl refl
store-IsLogin h k db s (text email) null remember_me ip now = refused-invalid db db s refl refl
store-IsLogin h k db s (text email) (bool b) remember_me ip now = refused-invalid db db s refl refl
store-IsLogin h k db s (text email) (number n) remember_me ip now =
    refused-invalid db db s refl refl
store-IsLogin h k db s (text email) object remember_me ip now = refused-invalid db db s refl refl
