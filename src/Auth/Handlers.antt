-- ===== src/Auth/Handlers.antt =====
-- services/auth-service: Register, Login, Refresh and Logout of internal/handlers/auth.go.
-- A request reads the clock once. The method is the path's one, and a body that is not such JSON is
-- `none`. Bcrypt, SHA-256, the random bytes, the identifiers and the signer are parameters.
use appt_remind.Base.{ℕ, ◌+◌, ltb, Bool, true, ◌||◌, Option, none, some, String, if◌then◌else◌}
use appt_remind.Base.Text.{is_empty, trim_space}
use appt_remind.Tx.{
  no_rows, exclusion_violation, unique_violation, failure, Result, ok, err, Tx, Outcome, reply,
  next, begin, commit, run, answer, expect, direct, close, ◌>>=◌, ◌>>◌,
}
use appt_remind.Auth.{
  User, RefreshToken, Event, Accounts, get_by_email, get_by_id, create_user, insert_event,
  get_by_hash, create_token, revoke,
}

pub data AuthOp : Type 0 where
  begin_op user_op event_op commit_op email_op hash_op id_op revoke_op token_op : AuthOp

-- libs/auth: auth.Claims, as issueJWT fills it.
pub record Claims : Type 0 where
  pub sub : String
  pub business_id : String
  pub role : String
  pub iat : ℕ
  pub exp : ℕ

pub record AuthEnv : Type 0 where
  pub fails : AuthOp → Bool
  pub now : ℕ
  -- time.Time.Unix.
  pub unix : ℕ → ℕ
  pub refresh_ttl : ℕ
  pub user_id : String
  pub business_id : String
  pub token_id : String
  pub raw_token : Option String
  pub hash_password : String → Option String
  pub verify_password : String → String → Bool
  pub hash_token : String → String
  pub sign : Claims → Option String

pub record Credentials : Type 0 where
  pub email : String
  pub password : String

pub record LoginResponse : Type 0 where
  pub access_token : String
  pub refresh_token : String
  pub token_type : String

pub data Response : Type 0 where
  error : ℕ → String → Response
  session : ℕ → LoginResponse → Response
  no_content : Response

abbrev pub Flow : Type 0 → Type 0
Flow A = Tx Accounts → Outcome Response Accounts A

-- time.Hour, in nanoseconds.
abbrev pub hour : ℕ
hour = 3600000000000

unfoldable pub claims_of : AuthEnv → User → Claims
claims_of env user = record {
  sub = user.id;
  business_id = user.business_id;
  role = user.role;
  iat = env.unix env.now;
  exp = env.unix (env.now + hour);
}

abbrev pub given : {A : Type 0} → Response → Option A → Flow A
given r none t = reply r t
given r (some a) t = next a t

unfoldable pub issue_jwt : AuthEnv → User → Flow String
unfolding claims_of
issue_jwt env user = given (error 500 "failed to issue token") (env.sign (claims_of env user))

unfoldable pub token_row : AuthEnv → String → String → RefreshToken
token_row env user_id raw = record {
  id = env.token_id;
  user_id = user_id;
  hash = env.hash_token raw;
  expires_at = env.now + env.refresh_ttl;
  revoked_at = none;
}

abbrev pub not_issued : Response
not_issued = error 500 "failed to issue refresh token"

unfoldable pub issue_refresh_token : AuthEnv → String → Flow String
unfolding token_row create_token
issue_refresh_token env user_id = given not_issued env.raw_token >>= λ raw.
    (direct (env.fails token_op) (create_token (token_row env user_id raw)) >>= expect not_issued)
    >> next raw

abbrev pub opened : ℕ → String → String → Response
opened status access refresh =
    session status record { access_token = access; refresh_token = refresh; token_type = "Bearer" }

-- The end of Register and of Login.
unfoldable pub open_session : AuthEnv → ℕ → User → Flow Response
unfolding issue_jwt issue_refresh_token
open_session env status user = issue_jwt env user >>= λ access.
    issue_refresh_token env user.id >>= λ raw. next (opened status access raw)

unfoldable pub new_user : AuthEnv → String → String → User
new_user env email hash = record {
  id = env.user_id;
  business_id = env.business_id;
  email = email;
  password_hash = hash;
  role = "owner";
}

unfoldable pub created_event : AuthEnv → User → Event
created_event env user = record {
  aggregate_type = "user";
  aggregate_id = user.id;
  event_type = "auth.user.created.v1";
  payload = record {
    user_id = user.id;
    business_id = user.business_id;
    email = user.email;
    role = user.role;
    created_at = env.now;
  };
}

abbrev pub user_created : Result (Unit {0}) → Flow (Unit {0})
user_created (ok a) = next a
user_created (err unique_violation) = answer (error 409 "email already registered")
user_created (err no_rows) = answer (error 500 "failed to create user")
user_created (err exclusion_violation) = answer (error 500 "failed to create user")
user_created (err failure) = answer (error 500 "failed to create user")

unfoldable pub commit_user : AuthEnv → Flow (Unit {0})
commit_user env t =
    let (done, u) = commit (env.fails commit_op) t in
    if done then next tt u else reply (error 500 "failed to commit transaction") u

-- Register, from its transaction on.
unfoldable pub store_user : AuthEnv → User → Flow Response
unfolding create_user created_event insert_event commit_user open_session
store_user env user =
    (run (env.fails user_op) (create_user user) >>= user_created)
    >> ((run (env.fails event_op) (insert_event (created_event env user))
          >>= expect (error 500 "failed to enqueue user event"))
        >> (commit_user env >> open_session env 201 user))

unfoldable pub register_hashed : AuthEnv → String → Option String → Accounts → Response × Accounts
unfolding new_user store_user
register_hashed env email none db = (error 500 "failed to hash password", db)
register_hashed env email (some hash) db =
    if env.fails begin_op
    then (error 500 "failed to start transaction", db)
    else close (store_user env (new_user env email hash) (begin db))

abbrev pub invalid_json : Response
invalid_json = error 400 "invalid json body"

unfoldable pub register : AuthEnv → Option Credentials → Accounts → Response × Accounts
unfolding trim_space is_empty register_hashed
register env none db = (invalid_json, db)
register env (some req) db =
    let email = trim_space req.email in
    let password = trim_space req.password in
    if is_empty email || is_empty password
    then (error 400 "email and password required", db)
    else register_hashed env email (env.hash_password password) db

-- A row that must be there.
abbrev pub found : {A : Type 0} → Response → Response → Result A → Flow A
found absent broken (ok a) = next a
found absent broken (err no_rows) = answer absent
found absent broken (err exclusion_violation) = answer broken
found absent broken (err unique_violation) = answer broken
found absent broken (err failure) = answer broken

abbrev pub invalid_credentials : Response
invalid_credentials = error 401 "invalid credentials"

unfoldable pub verified : AuthEnv → String → User → Flow (Unit {0})
verified env password user =
    if env.verify_password user.password_hash password then next tt else answer invalid_credentials

unfoldable pub log_in : AuthEnv → String → String → Flow Response
unfolding get_by_email verified open_session
log_in env email password =
    (direct (env.fails email_op) (get_by_email email)
      >>= found invalid_credentials (error 500 "failed to lookup user"))
    >>= λ user. verified env password user >> open_session env 200 user

unfoldable pub login : AuthEnv → Option Credentials → Accounts → Response × Accounts
unfolding trim_space is_empty log_in
login env none db = (invalid_json, db)
login env (some req) db =
    let email = trim_space req.email in
    let password = trim_space req.password in
    if is_empty email || is_empty password
    then (error 400 "email and password required", db)
    else close (log_in env email password (begin db))

-- ExpiresAt.Before(now), or revoked.
unfoldable pub is_spent : ℕ → RefreshToken → Bool
is_spent now k = elim k.revoked_at [ some at ↦ true | none ↦ ltb k.expires_at now ]

unfoldable pub usable : AuthEnv → RefreshToken → Flow (Unit {0})
unfolding is_spent
usable env k = if is_spent env.now k then answer (error 401 "refresh token expired") else next tt

-- The new refresh token is issued before the new access token.
unfoldable pub renew : AuthEnv → User → Flow Response
unfolding issue_refresh_token issue_jwt
renew env user = issue_refresh_token env user.id >>= λ raw.
    issue_jwt env user >>= λ access. next (opened 200 access raw)

abbrev pub invalid_refresh : Response
invalid_refresh = error 401 "invalid refresh token"

unfoldable pub exchange : AuthEnv → RefreshToken → Flow Response
unfolding usable get_by_id revoke renew
exchange env k =
    usable env k
    >> ((direct (env.fails id_op) (get_by_id k.user_id)
          >>= found invalid_refresh (error 500 "failed to lookup user"))
        >>= λ user.
            (direct (env.fails revoke_op) (revoke env.now k.id)
              >>= expect (error 500 "failed to rotate refresh token"))
            >> renew env user)

abbrev pub no_lookup : Response
no_lookup = error 500 "failed to lookup refresh token"

unfoldable pub refresh_trimmed : AuthEnv → String → Flow Response
unfolding get_by_hash exchange
refresh_trimmed env raw =
    (direct (env.fails hash_op) (get_by_hash (env.hash_token raw))
      >>= found invalid_refresh no_lookup)
    >>= exchange env

unfoldable pub refresh : AuthEnv → Option String → Accounts → Response × Accounts
unfolding trim_space is_empty refresh_trimmed
refresh env none db = (invalid_json, db)
refresh env (some token) db =
    let raw = trim_space token in
    if is_empty raw
    then (error 400 "refresh_token required", db)
    else close (refresh_trimmed env raw (begin db))

unfoldable pub revoke_live : AuthEnv → RefreshToken → Flow Response
unfolding revoke
revoke_live env k = elim k.revoked_at [
  | some at ↦ next no_content
  | none ↦
      (direct (env.fails revoke_op) (revoke env.now k.id)
        >>= expect (error 500 "failed to revoke refresh token"))
      >> next no_content
]

unfoldable pub logout_trimmed : AuthEnv → String → Flow Response
unfolding get_by_hash revoke_live
logout_trimmed env raw =
    (direct (env.fails hash_op) (get_by_hash (env.hash_token raw)) >>= found no_content no_lookup)
    >>= revoke_live env

unfoldable pub logout : AuthEnv → Option String → Accounts → Response × Accounts
unfolding trim_space is_empty logout_trimmed
logout env none db = (invalid_json, db)
logout env (some token) db =
    let raw = trim_space token in
    if is_empty raw
    then (error 400 "refresh_token required", db)
    else close (logout_trimmed env raw (begin db))
