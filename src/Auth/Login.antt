-- ===== src/Auth/Login.antt =====
-- app/controllers/session_controller.ts: `store`, the login, and
-- app/middleware/silent_auth_middleware.ts. The look-up of credentials and the session guard come from
-- the framework: the guard keeps the user's id in the session, and a remembered login writes a row.
use reeva.Prelude.{
  ℕ, ◌≡◌, Bool, true, false, ◌&&◌, Option, none, some, List, ◌∷◌, Text, lit, same, leb, length,
  trim, if◌then◌else◌,
}
use reeva.Model.{Uuid}
use reeva.Input.{Value, bool, text}
use reeva.Auth.{
  User, RateLimit, Accounts, Hashing, find_user, Outcome, unauthenticated, handle, login,
  is_auth_request_throttled, clear_login_attempts,
}

pub record Session : Type 0 where
  pub user : Option Uuid
  pub auth_version : Option ℕ

-- `User.verifyCredentials`, where `none` stands for E_INVALID_CREDENTIALS: it gives a row that a
-- query finds
pub record Credentials : Type 0 where
  pub verify : Accounts → Text → Text → Option User
  pub finds :
      (db : Accounts) (email password : Text) (u : User)
      → verify db email password ≡ some u
      → find_user db u.id ≡ some u

pub data LoginResult : Type 0 where
  -- back to the form, with status 429 if throttled; the dashboard
  invalid throttled signed_in : LoginResult

-- The tables and the session after a request
pub record Visit : Type 0 where
  pub result : LoginResult
  pub accounts : Accounts
  pub session : Session

-- `remember_me === 'on' || remember_me === true`
abbrev pub is_remembered : Value → Bool
is_remembered (text s) = same s (lit "on")
is_remembered (bool b) = b
is_remembered _ = false

abbrev pub remember : Bool → Uuid → List Uuid → List Uuid
remember true id rows = id ∷ rows
remember false id rows = rows

-- `login`, `session.put` and `clearLoginAttempts`
unfoldable pub sign_in : Hashing → Accounts → User → Bool → Text → Text → Visit
sign_in h db u remembered ip email = record {
  result = signed_in;
  accounts = record db {
    remembered = remember remembered u.id db.remembered;
    rate_limits = clear_login_attempts h ip email db.rate_limits;
  };
  session = record { user = some u.id; auth_version = some u.auth_version };
}

abbrev pub refused : Accounts → Session → LoginResult → Visit
refused db s r = record { result = r; accounts = db; session = s }

unfoldable pub admit : Hashing → Accounts → Session → Option User → Value → Text → Text → Visit
admit h db s none remember_me ip email = refused db s invalid
admit h db s (some u) remember_me ip email =
    if u.is_active
    then sign_in h db u (is_remembered remember_me) ip email
    else refused db s invalid

abbrev pub with_limits : Accounts → Bool × List RateLimit → Accounts
with_limits db x = record db { rate_limits = x.1 }

unfoldable pub attempt_login :
    Hashing → Credentials → Accounts → Session → Text → Text → Value → Text → ℕ → Visit
attempt_login h k db s email password remember_me ip now =
    let x = is_auth_request_throttled h login ip email now db.rate_limits in
    if x.0
    then refused (with_limits db x) s throttled
    else admit h (with_limits db x) s (k.verify (with_limits db x) (trim email) password)
        remember_me ip email

-- `store`, over the inputs `email`, `password` and `remember_me`, the client's address and the time
unfoldable pub store :
    Hashing → Credentials → Accounts → Session → Value → Value → Value → Text → ℕ → Visit
store h k db s (text email) (text password) remember_me ip now =
    if leb (length email) 255 && leb (length password) 1024
    then attempt_login h k db s email password remember_me ip now
    else refused db s invalid
store h k db s _ _ remember_me ip now = refused db s invalid

-- `handle` of the silent middleware, over whether the guard authenticated by a remembered login
unfoldable pub silent_handle : Option User → Bool → Session → Session
silent_handle (some u) true s = record s { auth_version = some u.auth_version }
silent_handle _ _ s = s

-- What the middleware makes of a session on its next request
abbrev pub admitted : Accounts → Session → Outcome
admitted db s = elim s.user [ none ↦ unauthenticated | some id ↦ handle db id s.auth_version ]
