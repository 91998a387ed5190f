-- ===== src/Auth/Runs.antt =====
-- The requests that auth-service serves one after another, and the refresh tokens that no later one
-- accepts.
use appt_remind.Base.{
  ◌≡◌, ◌≢◌, refl, ◌∙◌, ℕ, inl, inr, true, false, Option, some, String, ◌==◌, [], ◌∷◌, ◌++◌, arith,
  Bool-cases, Option-cases, eq_iff,
}
use appt_remind.Tx.{begin, direct, ◌>>=◌}
use appt_remind.Tx.Rules.{Ensures, Ensures-bind}
use appt_remind.Auth.{RefreshToken, Accounts, find_token, get_by_hash}
use appt_remind.Auth.Handlers.{
  AuthEnv, Credentials, Response, error, session, no_content, token_row, register, login, is_spent,
  usable, exchange, refresh_trimmed, refresh, logout, found, no_lookup, invalid_refresh, hash_op,
}
use appt_remind.Auth.Kept.{Kept, register-keeps, login-keeps, refresh-keeps, logout-keeps}
use appt_remind.Auth.Rows.{
  create_user_rows, insert_event_rows, create_token_rows, revoke_rows, query_found,
}
use appt_remind.Auth.Live.{any_live, any_live-++, any_live-revoked_rows, find_token-revoked}

pub data Call : Type 0 where
  register_call login_call : Option Credentials → Call
  refresh_call logout_call : Option String → Call

abbrev pub serve : AuthEnv → Call → Accounts → Response × Accounts
serve env (register_call req) db = register env req db
serve env (login_call req) db = login env req db
serve env (refresh_call token) db = refresh env token db
serve env (logout_call token) db = logout env token db

-- The random token of a request does not have this hash.
abbrev pub Avoids : AuthEnv → String → Type 0
Avoids env hash = (raw : String) → env.raw_token ≡ some raw → env.hash_token raw ≢ hash

-- Requests one after another, each with its own clock, identifiers and failures.
pub data Runs (hash : String) : Accounts → Accounts → Type 0 where
  done : (db : Accounts) → Runs hash db db
  step :
      (env : AuthEnv) (call : Call) (db later : Accounts)
      → Avoids env hash
      → Runs hash (serve env call db).1 later
      → Runs hash db later

abbrev pub IsSession : Response → Type 0
IsSession (session status tokens) = Unit {0}
IsSession (error status text) = ⊥
IsSession no_content = ⊥

-- No live row has the hash.
abbrev pub Closed : String → Accounts → Type 0
Closed hash db = any_live hash db.tokens ≡ false

other_hash : {a b : String} → a ≢ b → a == b ≡ false
other_hash {a} {b} n = elim (Bool-cases (a == b)) [
  | inl e ↦ absurd (n ((eq_iff a b).0 e))
  | inr e ↦ e
]

pub Closed-Kept : (env : AuthEnv) (hash : String) → Avoids env hash → Kept (Closed hash) env
unfolding token_row
Closed-Kept env hash avoids = record {
  users = λ user a d e h i. let f = (create_user_rows user a d e h).1 in rw f i;
  events = λ event a d e h i. let f = insert_event_rows event a d e h in rw f i;
  tokens = λ user_id raw r a d e h i.
      appended user_id raw (avoids raw r) d e
        (create_token_rows (token_row env user_id raw) a d e h).2 i;
  revoked = λ id a d e h i.
      let f = revoke_rows env.now id a d e h in
      rw f (any_live-revoked_rows hash env.now id d.tokens i);
}
  where
    appended :
        (user_id raw : String)
        → env.hash_token raw ≢ hash
        → (d e : Accounts) → e ≡ record d { tokens = d.tokens ++ token_row env user_id raw ∷ [] }
        → Closed hash d
        → Closed hash e
    appended user_id raw n d e f i =
        let other = other_hash n in
        rw f (any_live-++ hash d.tokens (token_row env user_id raw) ∙ ground arith)

serve-Closed :
    (env : AuthEnv) (hash : String) (call : Call) (db : Accounts)
    → Avoids env hash
    → Closed hash db
    → Closed hash (serve env call db).1
serve-Closed env hash (register_call req) db a h =
    register-keeps (Closed hash) env (Closed-Kept env hash a) req db h
serve-Closed env hash (login_call req) db a h =
    login-keeps (Closed hash) env (Closed-Kept env hash a) req db h
serve-Closed env hash (refresh_call token) db a h =
    refresh-keeps (Closed hash) env (Closed-Kept env hash a) token db h
serve-Closed env hash (logout_call token) db a h =
    logout-keeps (Closed hash) env (Closed-Kept env hash a) token db h

pub Runs-Closed :
    (hash : String) (db later : Accounts) → Runs hash db later → Closed hash db → Closed hash later
Runs-Closed hash db later (done d) h = h
Runs-Closed hash db later (step env call d e a runs) h =
    Runs-Closed hash _ later runs (serve-Closed env hash call db a h)

-- The row of a closed hash is spent.
spent :
    (hash : String) (db : Accounts) (now : ℕ) (k : RefreshToken)
    → Closed hash db
    → find_token hash db.tokens ≡ some k
    → is_spent now k ≡ true
unfolding is_spent
spent hash db now k h e =
    let f = find_token-revoked hash db.tokens k h e in
    elim (Option-cases k.revoked_at) [ inl r ↦ ground arith | inr (at, r) ↦ rw r refl ]

-- A refresh with a token whose rows are all revoked gives no session.
pub refused :
    (env : AuthEnv) (raw : String) (db : Accounts)
    → Closed (env.hash_token raw) db
    → Ensures (λ r _. ¬ IsSession r) (λ r _. ¬ IsSession r) (refresh_trimmed env raw (begin db))
unfolding refresh_trimmed get_by_hash exchange usable
refused env raw db h =
    let hash = env.hash_token raw in
    Ensures-bind (λ r _. ¬ IsSession r)
      (λ k t. (find_token hash db.tokens ≡ some k) × (t.committed ≡ db)) (λ r _. ¬ IsSession r)
      (direct (env.fails hash_op) (get_by_hash hash) >>= found invalid_refresh no_lookup)
      (exchange env) (begin db)
      (query_found _ (env.fails hash_op) invalid_refresh no_lookup (λ d. find_token hash d.tokens)
        (begin db) (λ e s. s) (λ s. s))
      (λ k t f. let s = spent hash db env.now k h f.0 in rw s (λ x. x))
