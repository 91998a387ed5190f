-- ===== src/Auth/Logout.antt =====
-- internal/handlers/auth.go: a logout ends the refresh token, in whatever order the requests come.
use appt_remind.Base.{
  ◌≡◌, refl, sym, subst, ◌≤◌, inl, inr, false, Option, some, String, ◌==◌, count, Bool-cases,
  Option-cases,
}
use appt_remind.Base.Text.{trim_space, is_empty}
use appt_remind.Tx.{ok, Tx, next, begin, direct, expect, ◌>>=◌}
use appt_remind.Tx.Rules.{Ensures, Ensures-bind, Ensures-seq, Ensures-imp, Ensures-direct-expect}
use appt_remind.Auth.{RefreshToken, Accounts, find_token, get_by_hash, revoke}
use appt_remind.Auth.Handlers.{
  AuthEnv, Response, error, no_content, refresh, revoke_live, logout_trimmed, logout, found,
  no_lookup, hash_op, revoke_op,
}
use appt_remind.Auth.Live.{is_none, find_token-none, find_token-closes, revoked_rows-closes}
use appt_remind.Auth.Rows.{revoke_rows, query_found}
use appt_remind.Auth.Runs.{Runs, IsSession, Closed, Runs-Closed}
use appt_remind.Auth.Single.{closed-Closes, refresh-refused}

-- If the answer is 204, then no row with the hash is live.
abbrev Ends : String → Response → Tx Accounts → Type 0
Ends hash r t = r ≡ no_content → Closed hash t.committed

abbrev failed_logout : Response
failed_logout = error 500 "failed to revoke refresh token"

revoke_live-Ends :
    (env : AuthEnv) (hash : String) (db : Accounts) (k : RefreshToken) (t : Tx Accounts)
    → count (λ j. j.hash == hash) db.tokens ≤ 1
    → find_token hash db.tokens ≡ some k
    → t.committed ≡ db
    → Ensures (Ends hash) (Ends hash) (revoke_live env k t)
unfolding revoke_live
revoke_live-Ends env hash db k t only stored c = elim (Option-cases k.revoked_at) [
  | inr (at, r) ↦
      let f : is_none k.revoked_at ≡ false = rw r refl in
      let g = find_token-closes hash db.tokens k only stored f in rw r (λ s. rw c g)
  | inl r ↦ rw r (
      Ensures-seq (Ends hash) (λ _ u. Closed hash u.committed) (Ends hash)
        (direct (env.fails revoke_op) (revoke env.now k.id) >>= expect failed_logout)
        (next no_content) t
        (Ensures-imp (Ends hash) (Ends hash) _ _ _
          (Ensures-direct-expect (Ends hash) (env.fails revoke_op) (revoke env.now k.id)
            failed_logout t (λ s. cc))
          (λ r u x. x) (λ a u x. revoked a u x))
        (λ u x s. x))
]
  where
    revoked :
        (a : Unit {0}) (u : Tx Accounts)
        → (d : Accounts) × (revoke env.now k.id t.committed ≡ ok (a, d)) × (u ≡ begin d)
        → Closed hash u.committed
    revoked a u (d, e, same) =
        let f = revoke_rows env.now k.id a t.committed d e in
        rw (same, f, c) (revoked_rows-closes hash env.now db.tokens k only stored)

logout-Closed :
    (env : AuthEnv) (token : String) (db : Accounts)
    → count (λ k. k.hash == env.hash_token (trim_space token)) db.tokens ≤ 1
    → (logout env (some token) db).0 ≡ no_content
    → Closed (env.hash_token (trim_space token)) (logout env (some token) db).1
unfolding logout logout_trimmed get_by_hash
logout-Closed env token db only = elim (Bool-cases (is_empty (trim_space token))) [
  | inl e ↦ rw e (λ s. cc)
  | inr e ↦
      let hash = env.hash_token (trim_space token) in
      let look : Accounts → Option RefreshToken = λ d. find_token hash d.tokens in
      rw e (
        closed-Closes (logout_trimmed env (trim_space token) (begin db))
          (λ r d. r ≡ no_content → Closed hash d)
          (Ensures-bind (Ends hash) (λ k u. (look db ≡ some k) × (u.committed ≡ db)) (Ends hash)
            (direct (env.fails hash_op) (get_by_hash hash) >>= found no_content no_lookup)
            (revoke_live env) (begin db)
            (query_found (Ends hash) (env.fails hash_op) no_content no_lookup look (begin db)
              (λ e s. find_token-none hash db.tokens e) (λ s. cc))
            (λ k u f. revoke_live-Ends env hash db k u only f.0 f.1)))
]

-- A logout that answers 204 ends the token: no later refresh with it gives a session, whatever requests are
-- served in between and whatever fails, if the token had at most one row and no random token of these
-- requests has its hash.
pub logout_ends :
    (env again : AuthEnv) (token : String) (db later : Accounts)
    → count (λ k. k.hash == env.hash_token (trim_space token)) db.tokens ≤ 1
    → (logout env (some token) db).0 ≡ no_content
    → Runs (env.hash_token (trim_space token)) (logout env (some token) db).1 later
    → again.hash_token ≡ env.hash_token
    → ¬ IsSession (refresh again (some token) later).0
logout_ends env again token db later only s runs same = refresh-refused again token later (
    subst (λ f. Closed (f (trim_space token)) later) (sym same)
      (Runs-Closed _ _ later runs (logout-Closed env token db only s)))
