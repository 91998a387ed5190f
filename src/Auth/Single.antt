-- ===== src/Auth/Single.antt =====
-- internal/handlers/auth.go: a refresh token that has been used or logged out gives no session, in
-- whatever order the requests come.
use appt_remind.Base.{
  ◌≡◌, sym, subst, ◌∙◌, ◌≤◌, inl, inr, Option, some, String, ◌==◌, count, Bool-cases,
}
use appt_remind.Base.Text.{trim_space, is_empty}
use appt_remind.Tx.{ok, Tx, Outcome, reply, next, begin, direct, expect, close, ◌>>=◌}
use appt_remind.Tx.Rules.{Ensures, Ensures-bind, Ensures-seq, Ensures-imp, Ensures-direct-expect}
use appt_remind.Tx.Kept.{Holds}
use appt_remind.Auth.{
  User, find_user, RefreshToken, Accounts, get_by_id, find_token, get_by_hash, revoke,
}
use appt_remind.Auth.Handlers.{
  AuthEnv, Response, error, is_spent, usable, renew, exchange, refresh_trimmed, refresh, found,
  no_lookup, invalid_refresh, hash_op, id_op, revoke_op,
}
use appt_remind.Auth.Kept.{renew-Safe}
use appt_remind.Auth.Rows.{revoke_rows, query_found}
use appt_remind.Auth.Runs.{Avoids, Runs, IsSession, Closed, Closed-Kept, Runs-Closed, refused}
use appt_remind.Auth.Live.{revoked_rows-closes}

-- If the flow answers with a session, then no row with the hash is live any more.
abbrev Closes : String → Response → Tx Accounts → Type 0
Closes hash r t = IsSession r → Closed hash t.committed

module _ (env : AuthEnv) (hash : String) (avoids : Avoids env hash) (db : Accounts)
    (k : RefreshToken) (only : count (λ j. j.hash == hash) db.tokens ≤ 1)
    (stored : find_token hash db.tokens ≡ some k) where
  revoked-Holds :
      (a : Unit {0}) (t u : Tx Accounts)
      → t.committed ≡ db
      → (d : Accounts) × (revoke env.now k.id t.committed ≡ ok (a, d)) × (u ≡ begin d)
      → Holds (Closed hash) u
  revoked-Holds a t u c (d, e, same) =
      let f = revoke_rows env.now k.id a t.committed d e in
      let g = revoked_rows-closes hash env.now db.tokens k only stored in rw (same, f, c) (g, g)

  usable-committed :
      (t : Tx Accounts)
      → t.committed ≡ db
      → Ensures (Closes hash) (λ _ u. u.committed ≡ db) (usable env k t)
  unfolding usable
  usable-committed t c = elim (Bool-cases (is_spent env.now k)) [
    | inl e ↦ rw e (λ s. absurd s)
    | inr e ↦ rw e c
  ]

  exchange-Closes :
      (t : Tx Accounts) → t.committed ≡ db → Ensures (Closes hash) (Closes hash) (exchange env k t)
  unfolding exchange get_by_id
  exchange-Closes t c =
      let broken = error 500 "failed to lookup user" in
      let no_rotation = error 500 "failed to rotate refresh token" in
      let look : Accounts → Option User = λ d. find_user k.user_id d.users in
      Ensures-seq (Closes hash) (λ _ u. u.committed ≡ db) (Closes hash) (usable env k) _ t
        (usable-committed t c)
        (λ u d.
          Ensures-bind (Closes hash)
            (λ user v. (look u.committed ≡ some user) × (v.committed ≡ u.committed)) (Closes hash)
            (direct (env.fails id_op) (get_by_id k.user_id) >>= found invalid_refresh broken) _ u
            (query_found (Closes hash) (env.fails id_op) invalid_refresh broken look u
              (λ e s. absurd s) (λ s. absurd s))
            (λ user v f.
              Ensures-seq (Closes hash) (λ _. Holds (Closed hash)) (Closes hash)
                (direct (env.fails revoke_op) (revoke env.now k.id) >>= expect no_rotation)
                (renew env user) v
                (Ensures-imp (Closes hash) (Closes hash) _ _ _
                  (Ensures-direct-expect (Closes hash) (env.fails revoke_op) (revoke env.now k.id)
                    no_rotation v (λ s. absurd s))
                  (λ r w x. x) (λ a w x. revoked-Holds a v w (f.1 ∙ d) x))
                (λ w x.
                  Ensures-imp _ (Closes hash) _ (Closes hash) (renew env user w)
                    ((renew-Safe (Closed hash) env (Closed-Kept env hash avoids) user).safe w x)
                    (λ r y z _. z.0) (λ r y z _. z.0))))

pub closed-Closes :
    (o : Outcome Response Accounts Response) (S : Response → Accounts → Type 0)
    → Ensures (λ r t. S r t.committed) (λ r t. S r t.committed) o
    → S (close o).0 (close o).1
closed-Closes (reply r t) S h = h
closed-Closes (next r t) S h = h

-- The row that is found by the hash.
refresh-Closed :
    (env : AuthEnv) (token : String) (db : Accounts)
    → count (λ k. k.hash == env.hash_token (trim_space token)) db.tokens ≤ 1
    → Avoids env (env.hash_token (trim_space token))
    → IsSession (refresh env (some token) db).0
    → Closed (env.hash_token (trim_space token)) (refresh env (some token) db).1
unfolding refresh refresh_trimmed get_by_hash
refresh-Closed env token db only avoids = elim (Bool-cases (is_empty (trim_space token))) [
  | inl e ↦ rw e (λ s. absurd s)
  | inr e ↦
      let hash = env.hash_token (trim_space token) in
      let look : Accounts → Option RefreshToken = λ d. find_token hash d.tokens in
      rw e (
        closed-Closes (refresh_trimmed env (trim_space token) (begin db))
          (λ r d. IsSession r → Closed hash d)
          (Ensures-bind (Closes hash) (λ k u. (look db ≡ some k) × (u.committed ≡ db)) (Closes hash)
            (direct (env.fails hash_op) (get_by_hash hash) >>= found invalid_refresh no_lookup)
            (exchange env) (begin db)
            (query_found (Closes hash) (env.fails hash_op) invalid_refresh no_lookup look (begin db)
              (λ e s. absurd s) (λ s. absurd s))
            (λ k u f. exchange-Closes env hash avoids db k only f.0 u f.1)))
]

-- A closed hash gives no session.
pub refresh-refused :
    (env : AuthEnv) (token : String) (db : Accounts)
    → Closed (env.hash_token (trim_space token)) db
    → ¬ IsSession (refresh env (some token) db).0
unfolding refresh
refresh-refused env token db h = elim (Bool-cases (is_empty (trim_space token))) [
  | inl e ↦ rw e (λ s. s)
  | inr e ↦ rw e (
      closed-Closes (refresh_trimmed env (trim_space token) (begin db)) (λ r d. ¬ IsSession r)
        (refused env (trim_space token) db h))
]

-- A refresh token is used once: after a refresh that gives a session, no refresh with the same token gives
-- one, whatever requests are served in between and whatever fails, if the token had at most one row and no
-- random token of these requests has its hash.
pub refresh_once :
    (env again : AuthEnv) (token : String) (db later : Accounts)
    → count (λ k. k.hash == env.hash_token (trim_space token)) db.tokens ≤ 1
    → Avoids env (env.hash_token (trim_space token))
    → IsSession (refresh env (some token) db).0
    → Runs (env.hash_token (trim_space token)) (refresh env (some token) db).1 later
    → again.hash_token ≡ env.hash_token
    → ¬ IsSession (refresh again (some token) later).0
refresh_once env again token db later only avoids s runs same = refresh-refused again token later (
    subst (λ f. Closed (f (trim_space token)) later) (sym same)
      (Runs-Closed _ _ later runs (refresh-Closed env token db only avoids s)))
