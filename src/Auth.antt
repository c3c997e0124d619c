-- ===== src/Auth.antt =====
-- app/services/auth_service.ts, app/services/user_service.ts, app/middleware/auth_middleware.ts and
-- the login of app/controllers/session_controller.ts: accounts, password resets and throttling.
-- Transactions lock the rows that they read, so each operation is one step. SHA-256, the password
-- hash and Unicode's lower case come from Node and its libraries: they are parameters.
pub mod Throttle
pub mod Reset
pub mod Revoke
pub mod Login
pub mod Session
mod Tests
use reeva.Prelude.{
  ℕ, ◌+◌, ◌≡◌, ◌<◌, ◌≤◌, Bool, true, false, not, ◌&&◌, ◌||◌, Option, none, some, List, [], ◌∷◌,
  ◌++◌, Text, lit, same, is_none, is_empty, leb, ltb, ◌==◌, if◌then◌else◌, find, exists, update,
  remove, length, trim, Result, ok, err, or_fail, require, ◌>>=◌, ◌>>◌,
}
use reeva.Model.{Uuid}

pub record User : Type 0 where
  pub id : Uuid
  pub email : Text
  pub full_name : Option Text
  pub password_hash : Text
  pub is_root : Bool
  pub is_active : Bool
  pub auth_version : ℕ
  pub deleted_at : Option ℕ

pub record ResetToken : Type 0 where
  pub id : Uuid
  pub email : Text
  pub token : Text
  pub expires_at : ℕ

pub record RateLimit : Type 0 where
  pub key : Text
  pub attempts : ℕ
  pub window_ends_at : ℕ

-- `remember_me_tokens`: the user that a remembered login belongs to
pub record Accounts : Type 0 where
  pub users : List User
  pub reset_tokens : List ResetToken
  pub remembered : List Uuid
  pub rate_limits : List RateLimit

pub data Error : Type 0 where
  invalid_token not_found self root password_length wrong_password name_too_long : Error

-- `createHash('sha256').update(…).digest('hex')`, the model's password hash and its check, and
-- `toLowerCase`
pub record Hashing : Type 0 where
  pub digest : Text → Text
  pub hash : Text → Text
  pub verify : Text → Text → Bool
  pub lower : Text → Text

-- A model query by id or by email: the row that is not soft-deleted
unfoldable pub find_user : Accounts → Uuid → Option User
find_user db id = find (λ (u : User). u.id == id && is_none u.deleted_at) db.users

unfoldable pub find_by_email : Accounts → Text → Option User
find_by_email db email = find (λ (u : User). same u.email email && is_none u.deleted_at) db.users

-- `user.save()`
unfoldable pub save : User → Accounts → Accounts
save u db = record db { users = update (λ (v : User). v.id == u.id) (λ v. u) db.users }

-- The `where` clauses of a look-up of a reset token
abbrev pub holds : Text → ℕ → ResetToken → Bool
holds token now r = same r.token token && ltb now r.expires_at

abbrev pub or_else {ℓ} : {A : Type ℓ} → Option A → Option A → Option A
or_else none b = b
or_else (some a) b = some a

-- `verifyResetToken`, also the two queries of `updatePasswordByToken`
unfoldable pub verify_reset_token : Hashing → Accounts → Text → ℕ → Option ResetToken
verify_reset_token h db token now =
    or_else (find (holds (h.digest token) now) db.reset_tokens)
      (find (holds token now) db.reset_tokens)

-- `sendPasswordResetLink`, over the setting that turns mail on, a fresh row id and the random token;
-- the mail itself is left out. A token lives for an hour.
unfoldable pub send_password_reset_link :
    Hashing → Bool → Accounts → Text → Uuid → Text → ℕ → Accounts
send_password_reset_link h mail_enabled db email fresh token now =
    elim (find_by_email db (trim email)) [
      | none ↦ db
      | some u ↦
          if mail_enabled && u.is_active
          then record db {
            reset_tokens =
                record {
                  id = fresh;
                  email = u.email;
                  token = h.digest token;
                  expires_at = now + 3600000;
                }
                ∷ remove (λ (r : ResetToken). same r.email u.email) db.reset_tokens;
          }
          else db
    ]

-- The user with a new password, in every place that sets one
abbrev pub with_password : Hashing → User → Text → User
with_password h u password = record u {
  password_hash = h.hash password;
  auth_version = u.auth_version + 1;
}

-- The deletes that follow such a save
unfoldable pub forget : User → Accounts → Accounts
forget u db = record db {
  reset_tokens = remove (λ (r : ResetToken). same r.email u.email) db.reset_tokens;
  remembered = remove (λ i. i == u.id) db.remembered;
}

-- `updatePasswordByToken`. The delete by primary key takes the one row that was just locked, so
-- its count is 1.
unfoldable pub update_password_by_token :
    Hashing → Accounts → Text → Text → ℕ → Result Error (User × Accounts)
update_password_by_token h db token password now = do
  r ← or_fail (verify_reset_token h db token now) invalid_token
  let db1 : Accounts = record db {
    reset_tokens = remove (λ (s : ResetToken). s.id == r.id) db.reset_tokens;
  }
  u ← or_fail (find_by_email db1 r.email) not_found
  require u.is_active invalid_token
  ok (with_password h u password, forget u (save (with_password h u password) db1))

-- `resetPassword` of the user service, over the random password
unfoldable pub reset_password :
    Hashing → Accounts → Uuid → Uuid → Text → Result Error (User × Accounts)
reset_password h db id current password = do
  u ← or_fail (find_user db id) not_found
  require (not (u.id == current)) self
  require (not u.is_root) root
  ok (with_password h u password, forget u (save (with_password h u password) db))

-- `toggleActiveUser`
unfoldable pub toggle_active_user : Accounts → Uuid → Uuid → Result Error (User × Accounts)
toggle_active_user db id current = do
  u ← or_fail (find_user db id) not_found
  require (not u.is_root) root
  require (not (u.id == current)) self
  let v : User = record u { is_active = not u.is_active; auth_version = u.auth_version + 1 }
  ok (v, save v db)

-- `changePassword`
unfoldable pub change_password :
    Hashing → Accounts → Uuid → Text → Text → Result Error (User × Accounts)
change_password h db id current password = do
  require (not (ltb (length password) 12 || ltb 128 (length password))) password_length
  u ← or_fail (find_user db id) not_found
  require (h.verify u.password_hash current) wrong_password
  ok (with_password h u password, forget u (save (with_password h u password) db))

-- `updateUser` and `updateProfile`, which are the same code
unfoldable pub update_user : Accounts → Uuid → Option Text → Result Error (User × Accounts)
update_user db id name = do
  require (not (elim name [ none ↦ false | some s ↦ ltb 255 (length s) ])) name_too_long
  u ← or_fail (find_user db id) not_found
  ok (record u { full_name = name }, save (record u { full_name = name }) db)

-- The outcome of the middleware for a request with a session
pub data Outcome : Type 0 where
  next stale disabled unauthenticated : Outcome

-- `session.get('authVersion') !== user.authVersion`
abbrev pub is_stale : Option ℕ → ℕ → Bool
is_stale none version = true
is_stale (some n) version = not (n == version)

abbrev pub outcome : Option User → Option ℕ → Outcome
outcome none version = unauthenticated
outcome (some u) version =
    if is_stale version u.auth_version then stale else if u.is_active then next else disabled

-- `handle` of the authentication middleware, over the user of the session and its `authVersion`
unfoldable pub handle : Accounts → Uuid → Option ℕ → Outcome
handle db id version = outcome (find_user db id) version

-- The two actions that are throttled
pub data Action : Type 0 where
  login password_reset : Action

abbrev pub action_text : Action → Text
action_text login = lit "login"
action_text password_reset = lit "password-reset"

abbrev pub ip_limit : Action → ℕ
ip_limit login = 30
ip_limit password_reset = 20

abbrev pub identity_limit : Action → ℕ
identity_limit login = 8
identity_limit password_reset = 5

-- `rateLimitKey`
unfoldable pub rate_limit_key : Hashing → Action → Text → Text → Text
rate_limit_key h action subject value =
    h.digest (action_text action ++ lit ":" ++ subject ++ lit ":" ++ value)

abbrev pub ip_key : Hashing → Action → Text → Text
ip_key h action ip = rate_limit_key h action (lit "ip") ip

abbrev pub normalized : Hashing → Text → Text
normalized h identity = h.lower (trim identity)

abbrev pub identity_key : Hashing → Action → Text → Text
identity_key h action identity =
    rate_limit_key h action (lit "identity")
      (if is_empty (normalized h identity) then lit "missing" else normalized h identity)

-- The row after one more attempt
abbrev pub bump : RateLimit → ℕ → RateLimit
bump r now =
    if leb r.window_ends_at now
    then record r { attempts = 1; window_ends_at = now + 60000 }
    else record r { attempts = r.attempts + 1 }

-- `incrementCounter`: the upsert on the unique `key`, and the attempts that it returns
unfoldable pub increment : Text → ℕ → List RateLimit → List RateLimit
increment key now [] = record { key = key; attempts = 1; window_ends_at = now + 60000 } ∷ []
increment key now (r ∷ rows) =
    if same r.key key then bump r now ∷ rows else r ∷ increment key now rows

abbrev pub counted : Option RateLimit → ℕ
counted none = 0
counted (some r) = r.attempts

unfoldable pub attempts_of : Text → List RateLimit → ℕ
attempts_of key rows = counted (find (λ (r : RateLimit). same r.key key) rows)

-- The delete of the rows whose window is over
unfoldable pub sweep : ℕ → List RateLimit → List RateLimit
sweep now = remove (λ (r : RateLimit). leb r.window_ends_at now)

-- `isAuthRequestThrottled`
unfoldable pub is_auth_request_throttled :
    Hashing → Action → Text → Text → ℕ → List RateLimit → Bool × List RateLimit
is_auth_request_throttled h action ip identity now rows =
    let rows1 = increment (ip_key h action ip) now rows in
    let rows2 = increment (identity_key h action identity) now rows1 in
    if ltb (ip_limit action) (attempts_of (ip_key h action ip) rows1)
    then (true, sweep now rows1)
    else (
      ltb (identity_limit action) (attempts_of (identity_key h action identity) rows2),
      sweep now rows2,
    )

-- `clearLoginAttempts`
unfoldable pub clear_login_attempts : Hashing → Text → Text → List RateLimit → List RateLimit
clear_login_attempts h ip identity = remove (λ (r : RateLimit).
    same r.key (ip_key h login ip) || same r.key (identity_key h login identity))
