-- ===== src/Auth/Kept.antt =====
-- internal/handlers/auth.go: an invariant that the statements keep is kept by each handler.
use appt_remind.Base.{
  ℕ, ◌≡◌, inl, inr, Bool, true, false, Option, none, some, String, Bool-cases, Option-cases,
  if◌then◌else◌,
}
use appt_remind.Base.Text.{trim_space}
use appt_remind.Tx.{
  Result, ok, err, no_rows, exclusion_violation, unique_violation, failure, next, commit, direct,
  expect, ◌>>=◌, ◌>>◌,
}
use appt_remind.Tx.Kept.{
  Keeps, Safe, run-Safe, direct-Safe, expect-Safe, next-Safe, answer-Safe, bind-Safe, seq-Safe,
  close-Safe, if-Safe, commit-Holds,
}
use appt_remind.Auth.{
  find_email, User, RefreshToken, Event, Accounts, row_of, get_by_email, get_by_id, create_user,
  insert_event, get_by_hash, create_token, revoke,
}
use appt_remind.Auth.Handlers.{
  AuthEnv, Credentials, Response, given, issue_jwt, token_row, issue_refresh_token, open_session,
  new_user, created_event, user_created, commit_user, store_user, register_hashed, register, found,
  verified, log_in, login, usable, renew, exchange, refresh_trimmed, refresh, revoke_live, is_spent,
  no_content, logout_trimmed, logout, begin_op, user_op, event_op, commit_op, token_op, hash_op,
  id_op, revoke_op, email_op, not_issued,
}

module _ (Inv : Accounts → Type 0) (env : AuthEnv) where
  -- What the statements that write keep.
  pub record Kept : Type 0 where
    pub users : (user : User) → Keeps Inv (create_user user)
    pub events : (event : Event) → Keeps Inv (insert_event event)
    pub tokens :
        (user_id raw : String)
        → env.raw_token ≡ some raw
        → Keeps Inv (create_token (token_row env user_id raw))
    pub revoked : (id : String) → Keeps Inv (revoke env.now id)

  row_of-Keeps : {A : Type 0} (o : Option A) → Keeps Inv (λ db. row_of db o)
  row_of-Keeps none a d e h i = cc
  row_of-Keeps (some b) a d e h i = let f : e ≡ d = cc in rw f i

  given-Safe : {A : Type 0} (r : Response) (o : Option A) → Safe Inv (given r o)
  given-Safe r none = record { safe = λ t h. h }
  given-Safe r (some a) = record { safe = λ t h. h }

  found-Safe :
      {A : Type 0} (absent broken : Response) (res : Result A) → Safe Inv (found absent broken res)
  found-Safe absent broken (ok a) = next-Safe Inv a
  found-Safe absent broken (err no_rows) = answer-Safe Inv absent
  found-Safe absent broken (err exclusion_violation) = answer-Safe Inv broken
  found-Safe absent broken (err unique_violation) = answer-Safe Inv broken
  found-Safe absent broken (err failure) = answer-Safe Inv broken

  user_created-Safe : (res : Result (Unit {0})) → Safe Inv (user_created res)
  user_created-Safe (ok a) = next-Safe Inv a
  user_created-Safe (err no_rows) = answer-Safe Inv _
  user_created-Safe (err exclusion_violation) = answer-Safe Inv _
  user_created-Safe (err unique_violation) = answer-Safe Inv _
  user_created-Safe (err failure) = answer-Safe Inv _

  -- A query whose row must be there.
  query-Safe :
      {A : Type 0} (fails : Bool) (absent broken : Response) (look : Accounts → Option A)
      → Safe Inv (direct fails (λ db. row_of db (look db)) >>= found absent broken)
  query-Safe fails absent broken look =
      bind-Safe Inv
        (direct-Safe Inv fails (λ db. row_of db (look db))
          (λ a d e h i. row_of-Keeps (look d) a d e h i))
        (found-Safe absent broken)

  module _ (kept : Kept) where
    issue_jwt-Safe : (user : User) → Safe Inv (issue_jwt env user)
    unfolding issue_jwt
    issue_jwt-Safe user = given-Safe _ (env.sign _)

    issue_refresh_token-Safe : (user_id : String) → Safe Inv (issue_refresh_token env user_id)
    unfolding issue_refresh_token
    issue_refresh_token-Safe user_id = elim (Option-cases env.raw_token) [
      | inl e ↦ record { safe = λ t h. rw e h }
      | inr (raw, e) ↦ record { safe = λ t h. rw e ((issued raw e).safe t h) }
    ]
      where
        issued :
            (raw : String)
            → env.raw_token ≡ some raw
            → Safe Inv (
                (direct (env.fails token_op) (create_token (token_row env user_id raw))
                  >>= expect not_issued)
                >> next raw)
        issued raw e =
            seq-Safe Inv
              (bind-Safe Inv
                (direct-Safe Inv (env.fails token_op) (create_token (token_row env user_id raw))
                  (kept.tokens user_id raw e))
                (expect-Safe Inv not_issued))
              (next-Safe Inv raw)

    open_session-Safe : (status : ℕ) (user : User) → Safe Inv (open_session env status user)
    unfolding open_session
    open_session-Safe status user =
        bind-Safe Inv (issue_jwt-Safe user)
          (λ access. bind-Safe Inv (issue_refresh_token-Safe user.id) (λ raw. next-Safe Inv _))

    commit_user-Safe : Safe Inv (commit_user env)
    unfolding commit_user
    commit_user-Safe = record {
      safe = λ t h. elim (Bool-cases (commit (env.fails commit_op) t).0) [
        | inl e ↦ rw e (commit-Holds Inv (env.fails commit_op) t h)
        | inr e ↦ rw e (commit-Holds Inv (env.fails commit_op) t h)
      ];
    }

    store_user-Safe : (user : User) → Safe Inv (store_user env user)
    unfolding store_user
    store_user-Safe user =
        seq-Safe Inv
          (bind-Safe Inv (run-Safe Inv (env.fails user_op) (create_user user) (kept.users user))
            user_created-Safe)
          (seq-Safe Inv
            (bind-Safe Inv
              (run-Safe Inv (env.fails event_op) (insert_event (created_event env user))
                (kept.events (created_event env user)))
              (expect-Safe Inv _))
            (seq-Safe Inv commit_user-Safe (open_session-Safe 201 user)))

    pub renew-Safe : (user : User) → Safe Inv (renew env user)
    unfolding renew
    renew-Safe user =
        bind-Safe Inv (issue_refresh_token-Safe user.id)
          (λ raw. bind-Safe Inv (issue_jwt-Safe user) (λ access. next-Safe Inv _))

    usable-Safe : (k : RefreshToken) → Safe Inv (usable env k)
    unfolding usable
    usable-Safe k = if-Safe Inv (is_spent env.now k) (answer-Safe Inv _) (next-Safe Inv tt)

    exchange-Safe : (k : RefreshToken) → Safe Inv (exchange env k)
    unfolding exchange get_by_id
    exchange-Safe k = seq-Safe Inv (usable-Safe k) (
        bind-Safe Inv (query-Safe (env.fails id_op) _ _ _) (λ user.
          seq-Safe Inv
            (bind-Safe Inv
              (direct-Safe Inv (env.fails revoke_op) (revoke env.now k.id) (kept.revoked k.id))
              (expect-Safe Inv _))
            (renew-Safe user)))

    verified-Safe : (password : String) (user : User) → Safe Inv (verified env password user)
    unfolding verified
    verified-Safe password user =
        if-Safe Inv (env.verify_password user.password_hash password) (next-Safe Inv tt)
          (answer-Safe Inv _)

    log_in-Safe : (email password : String) → Safe Inv (log_in env email password)
    unfolding log_in get_by_email
    log_in-Safe email password =
        bind-Safe Inv (query-Safe (env.fails email_op) _ _ (λ db. find_email email db.users))
          (λ user. seq-Safe Inv (verified-Safe password user) (open_session-Safe 200 user))

    refresh_trimmed-Safe : (raw : String) → Safe Inv (refresh_trimmed env raw)
    unfolding refresh_trimmed get_by_hash
    refresh_trimmed-Safe raw = bind-Safe Inv (query-Safe (env.fails hash_op) _ _ _) exchange-Safe

    revoke_live-Safe : (k : RefreshToken) → Safe Inv (revoke_live env k)
    unfolding revoke_live
    revoke_live-Safe k = elim (Option-cases k.revoked_at) [
      | inr (at, e) ↦ rw e (next-Safe Inv no_content)
      | inl e ↦ rw e (
          seq-Safe Inv
            (bind-Safe Inv
              (direct-Safe Inv (env.fails revoke_op) (revoke env.now k.id) (kept.revoked k.id))
              (expect-Safe Inv _))
            (next-Safe Inv no_content))
    ]

    logout_trimmed-Safe : (raw : String) → Safe Inv (logout_trimmed env raw)
    unfolding logout_trimmed get_by_hash
    logout_trimmed-Safe raw = bind-Safe Inv (query-Safe (env.fails hash_op) _ _ _) revoke_live-Safe

    -- An answer before the first statement leaves the rows.
    early :
        (b : Bool) (r : Response) (o : Response × Accounts) (db : Accounts)
        → Inv db
        → Inv o.1
        → Inv (if b then (r, db) else o).1
    early true r o db h k = h
    early false r o db h k = k

    register_hashed-keeps :
        (email : String) (hash : Option String) (db : Accounts)
        → Inv db
        → Inv (register_hashed env email hash db).1
    unfolding register_hashed
    register_hashed-keeps email none db h = h
    register_hashed-keeps email (some hash) db h =
        early (env.fails begin_op) _ _ db h
          (close-Safe Inv db (store_user-Safe (new_user env email hash)) h)

    pub register-keeps :
        (req : Option Credentials) (db : Accounts) → Inv db → Inv (register env req db).1
    unfolding register
    register-keeps none db h = h
    register-keeps (some req) db h =
        early _ _ _ db h (register_hashed-keeps (trim_space req.email) _ db h)

    pub login-keeps : (req : Option Credentials) (db : Accounts) → Inv db → Inv (login env req db).1
    unfolding login
    login-keeps none db h = h
    login-keeps (some req) db h =
        early _ _ _ db h
          (close-Safe Inv db (log_in-Safe (trim_space req.email) (trim_space req.password)) h)

    pub refresh-keeps :
        (token : Option String) (db : Accounts) → Inv db → Inv (refresh env token db).1
    unfolding refresh
    refresh-keeps none db h = h
    refresh-keeps (some token) db h =
        early _ _ _ db h (close-Safe Inv db (refresh_trimmed-Safe (trim_space token)) h)

    pub logout-keeps :
        (token : Option String) (db : Accounts) → Inv db → Inv (logout env token db).1
    unfolding logout
    logout-keeps none db h = h
    logout-keeps (some token) db h =
        early _ _ _ db h (close-Safe Inv db (logout_trimmed-Safe (trim_space token)) h)
