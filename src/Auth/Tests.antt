-- ===== src/Auth/Tests.antt =====
-- Runs of auth-service's handlers.
use appt_remind.Base.{◌≡◌, ◌≢◌, ◌∙◌, refl, ap, arith, true, false, none, some, ◌==◌, [], ◌∷◌}
use appt_remind.Base.Text.{trim_space, is_empty, cat}
use appt_remind.Tx.{exec, commit}
use appt_remind.Auth.{
  User, RefreshToken, Accounts, get_by_hash, find_token, get_by_id, find_user, revoke, revoked_rows,
  create_token, has_token, has_user, find_email, get_by_email, create_user, is_taken, insert_event,
}
use appt_remind.Auth.Handlers.{
  AuthEnv, LoginResponse, session, no_content, error, refresh, refresh_trimmed, exchange, usable,
  is_spent, renew, issue_refresh_token, issue_jwt, claims_of, token_row, logout, logout_trimmed,
  revoke_live, login, log_in, verified, open_session, register, register_hashed, store_user,
  new_user, created_event, commit_user,
}
use appt_remind.Auth.Consistent.{IsConsistent, serve-IsConsistent}
use appt_remind.Auth.Runs.{Avoids, IsSession, done, step, refresh_call, serve, register_call}
use appt_remind.Auth.Single.{refresh_once}
use appt_remind.Auth.Logout.{logout_ends}
use appt_remind.Auth.Verified.{Verified, login-Verified}

abbrev env : AuthEnv
env = record {
  fails = λ op. false;
  now = 100;
  unix = λ at. at;
  refresh_ttl = 50;
  user_id = "u2";
  business_id = "b2";
  token_id = "k2";
  raw_token = some "new";
  hash_password = λ p. some (cat "#" p);
  verify_password = λ h p. h == cat "#" p;
  hash_token = λ raw. cat "h" raw;
  sign = λ claims. some (cat "jwt-" claims.sub);
}

abbrev owner : User
owner = record {
  id = "u1";
  business_id = "b1";
  email = "a@x";
  password_hash = "#pw";
  role = "owner";
}

abbrev old_token : RefreshToken
old_token = record { id = "k1"; user_id = "u1"; hash = "hold"; expires_at = 120; revoked_at = none }

abbrev accounts : Accounts
accounts = record { users = owner ∷ []; tokens = old_token ∷ []; outbox = [] }

abbrev new_tokens : LoginResponse
new_tokens = record { access_token = "jwt-u1"; refresh_token = "new"; token_type = "Bearer" }

refreshed : refresh env (some " old ") accounts ≡ (
  session 200 new_tokens,
  record accounts {
    tokens = record old_token { revoked_at = some 100 } ∷ token_row env "u1" "new" ∷ [];
  },
)
unfolding refresh refresh_trimmed trim_space is_empty get_by_hash find_token exchange usable
    is_spent get_by_id find_user revoke revoked_rows renew issue_refresh_token issue_jwt claims_of
    token_row create_token has_token has_user
refreshed = refl

logged_out :
    logout env (some "old") accounts
    ≡ (no_content, record accounts { tokens = record old_token { revoked_at = some 100 } ∷ [] })
unfolding logout logout_trimmed trim_space is_empty get_by_hash find_token revoke_live revoke
    revoked_rows
logged_out = refl

logged_in : login env (some record { email = "a@x "; password = "pw" }) accounts ≡ (
  session 200 new_tokens,
  record accounts { tokens = old_token ∷ token_row env "u1" "new" ∷ [] },
)
unfolding login log_in trim_space is_empty get_by_email find_email verified open_session
    issue_refresh_token issue_jwt claims_of token_row create_token has_token has_user
logged_in = refl

-- A second registration of the email.
registered_twice :
    register env (some record { email = "a@x"; password = "other" }) accounts
    ≡ (error 409 "email already registered", accounts)
unfolding register register_hashed trim_space is_empty store_user new_user create_user is_taken exec
registered_twice = refl

new_user_registered :
    (register env (some record { email = "b@x"; password = "pw" }) accounts).0
    ≡ session 201 record { access_token = "jwt-u2"; refresh_token = "new"; token_type = "Bearer" }
unfolding register register_hashed trim_space is_empty store_user new_user create_user is_taken exec
    commit_user commit insert_event created_event open_session issue_refresh_token issue_jwt
    claims_of token_row create_token has_token has_user
new_user_registered = refl

abbrev once : Accounts
once = (refresh env (some "old") accounts).1

false≢true : false ≢ true
false≢true e = cc

new-Avoids : Avoids env "hold"
new-Avoids raw e h =
    let kept = ap (λ o. elim o [ some r ↦ cat "h" r == "hold" | none ↦ false ]) e in
    false≢true (kept ∙ ap (λ s. s == "hold") h)

refresh_once_example :
    ¬ IsSession (refresh env (some "old") (serve env (refresh_call (some "old")) once).1).0
unfolding refresh refresh_trimmed trim_space is_empty get_by_hash find_token exchange usable
    is_spent get_by_id find_user revoke revoked_rows renew issue_refresh_token issue_jwt claims_of
    token_row create_token has_token has_user
refresh_once_example =
    refresh_once env env "old" accounts (serve env (refresh_call (some "old")) once).1 (omega arith)
      new-Avoids tt (step env (refresh_call (some "old")) once _ new-Avoids (done _)) refl

logout_ends_example : ¬ IsSession (refresh env (some "old") (logout env (some "old") accounts).1).0
unfolding logout logout_trimmed trim_space is_empty get_by_hash find_token revoke_live revoke
    revoked_rows
logout_ends_example =
    logout_ends env env "old" accounts (logout env (some "old") accounts).1 (omega arith) refl
      (done _) refl

serve-IsConsistent_example :
    IsConsistent
      (serve env (register_call (some record { email = "b@x"; password = "pw" })) accounts).1
unfolding has_user
serve-IsConsistent_example =
    serve-IsConsistent env (register_call (some record { email = "b@x"; password = "pw" })) accounts
      record { emails = λ email. ground arith; owned = (refl, tt) }

login-Verified_example : Verified env record { email = "a@x "; password = "pw" } accounts new_tokens
login-Verified_example =
    login-Verified env record { email = "a@x "; password = "pw" } accounts new_tokens
      (ap (λ r. r.0) logged_in)
