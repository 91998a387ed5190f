-- ===== src/Auth/Verified.antt =====
-- internal/handlers/auth.go: who gets a session from Login.
use appt_remind.Base.{◌≡◌, refl, inl, inr, ℕ, true, ◌||◌, Option, none, some, String, Bool-cases}
use appt_remind.Base.Text.{trim_space, is_empty}
use appt_remind.Tx.{Tx, begin, direct, expect, next, ◌>>=◌, ◌>>◌}
use appt_remind.Tx.Rules.{Ensures, Ensures-bind, Ensures-seq, Ensures-imp, Ensures-direct-expect}
use appt_remind.Auth.{User, Accounts, find_email, get_by_email, create_token}
use appt_remind.Auth.Handlers.{
  AuthEnv, Credentials, Response, LoginResponse, error, session, claims_of, given, issue_jwt,
  token_row, issue_refresh_token, open_session, verified, found, invalid_credentials, not_issued,
  log_in, login, email_op, token_op,
}
use appt_remind.Auth.Rows.{query_found}
use appt_remind.Auth.Single.{closed-Closes}

-- The tokens of a session for this user.
pub record Issued (env : AuthEnv) (user : User) (tokens : LoginResponse) : Type 0 where
  pub access : env.sign (claims_of env user) ≡ some tokens.access_token
  pub refresh : env.raw_token ≡ some tokens.refresh_token

-- A user with this email and this password whose session it is.
pub record Verified (env : AuthEnv) (req : Credentials) (db : Accounts) (tokens : LoginResponse)
    : Type 0 where
  pub user : User
  pub stored : find_email (trim_space req.email) db.users ≡ some user
  pub password : env.verify_password user.password_hash (trim_space req.password) ≡ true
  pub issued : Issued env user tokens

module _ (env : AuthEnv) (status : ℕ) where
  abbrev Opens : User → Response → Tx Accounts → Type 0
  Opens user r t = (tokens : LoginResponse) → r ≡ session status tokens → Issued env user tokens

  given_value :
      {A : Type 0} (P : Response → Tx Accounts → Type 0) (r : Response) (o : Option A)
      (t : Tx Accounts)
      → P r t
      → Ensures P (λ a _. o ≡ some a) (given r o t)
  given_value P r none t h = h
  given_value P r (some a) t h = refl

  issue_refresh_token_value :
      (P : Response → Tx Accounts → Type 0) (user_id : String) (t : Tx Accounts)
      → ((u : Tx Accounts) → P not_issued u)
      → Ensures P (λ raw _. env.raw_token ≡ some raw) (issue_refresh_token env user_id t)
  unfolding issue_refresh_token
  issue_refresh_token_value P user_id t bad =
      Ensures-bind P (λ raw _. env.raw_token ≡ some raw) (λ raw _. env.raw_token ≡ some raw)
        (given not_issued env.raw_token) _ t (given_value P not_issued env.raw_token t (bad t))
        (λ raw u e.
          Ensures-seq P (λ _ _. Unit {0}) (λ raw _. env.raw_token ≡ some raw)
            (direct (env.fails token_op) (create_token (token_row env user_id raw))
              >>= expect not_issued)
            (next raw) u
            (Ensures-imp P P _ (λ _ _. Unit {0}) _
              (Ensures-direct-expect P (env.fails token_op)
                (create_token (token_row env user_id raw)) not_issued u (bad u))
              (λ r v x. x) (λ a v x. tt))
            (λ v x. e))

  pub open_session-Issued :
      (user : User) (t : Tx Accounts)
      → Ensures (Opens user) (Opens user) (open_session env status user t)
  unfolding open_session issue_jwt
  open_session-Issued user t =
      Ensures-bind (Opens user) (λ access _. env.sign (claims_of env user) ≡ some access)
        (Opens user) (issue_jwt env user) _ t
        (given_value (Opens user) (error 500 "failed to issue token")
          (env.sign (claims_of env user)) t (λ k e. cc))
        (λ access u e.
          Ensures-bind (Opens user) (λ raw _. env.raw_token ≡ some raw) (Opens user)
            (issue_refresh_token env user.id) _ u
            (issue_refresh_token_value (Opens user) user.id u (λ v k e. cc))
            (λ raw v f k g. record { access = cc; refresh = cc }))

module _ (env : AuthEnv) (req : Credentials) (db : Accounts) (tokens : LoginResponse) where
  abbrev Logs : Response → Tx Accounts → Type 0
  Logs r t = r ≡ session 200 tokens → Verified env req db tokens

  verified_value :
      (password : String) (user : User) (t : Tx Accounts)
      → Ensures Logs
          (λ _ _. env.verify_password user.password_hash password ≡ true)
          (verified env password user t)
  unfolding verified
  verified_value password user t =
      elim (Bool-cases (env.verify_password user.password_hash password)) [
        | inl e ↦ rw e refl
        | inr e ↦ rw e (λ s. cc)
      ]

  log_in-Logs :
      Ensures Logs Logs (log_in env (trim_space req.email) (trim_space req.password) (begin db))
  unfolding log_in get_by_email
  log_in-Logs =
      let email = trim_space req.email in
      let password = trim_space req.password in
      let look : Accounts → Option User = λ d. find_email email d.users in
      let broken = error 500 "failed to lookup user" in
      Ensures-bind Logs (λ user u. (look db ≡ some user) × (u.committed ≡ db)) Logs
        (direct (env.fails email_op) (get_by_email email) >>= found invalid_credentials broken)
        (λ user. verified env password user >> open_session env 200 user) (begin db)
        (query_found Logs (env.fails email_op) invalid_credentials broken look (begin db)
          (λ e s. cc) (λ s. cc))
        (λ user u f.
          Ensures-seq Logs (λ _ _. env.verify_password user.password_hash password ≡ true) Logs
            (verified env password user) (open_session env 200 user) u
            (verified_value password user u)
            (λ v g.
              Ensures-imp (Opens env 200 user) Logs (Opens env 200 user) Logs _
                (open_session-Issued env 200 user v)
                (λ r w h s. record { user = user; stored = f.0; password = g; issued = h tokens s })
                (λ r w h s. record {
                  user = user;
                  stored = f.0;
                  password = g;
                  issued = h tokens s;
                })))

-- A login that gives a session is one of a user that is stored under the email, with the password's stored hash
-- verified, and the session's access token is signed for that user; the email and the password are trimmed.
pub login-Verified :
    (env : AuthEnv) (req : Credentials) (db : Accounts) (tokens : LoginResponse)
    → (login env (some req) db).0 ≡ session 200 tokens
    → Verified env req db tokens
unfolding login
login-Verified env req db tokens =
    elim (Bool-cases (is_empty (trim_space req.email) || is_empty (trim_space req.password))) [
      | inl e ↦ rw e (λ s. cc)
      | inr e ↦ rw e (
          closed-Closes (log_in env (trim_space req.email) (trim_space req.password) (begin db))
            (λ r _. r ≡ session 200 tokens → Verified env req db tokens)
            (log_in-Logs env req db tokens))
    ]
