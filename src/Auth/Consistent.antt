-- ===== src/Auth/Consistent.antt =====
-- The constraints of migrations/0001_init.sql between the users and their refresh tokens.
use appt_remind.Base.{
  ◌≡◌, refl, sym, inl, inr, ℕ, ◌+◌, ◌≤◌, Bool, true, false, some, List, [], ◌∷◌, ◌++◌, String, ◌==◌,
  eq_iff, if◌then◌else◌, arith, count, All, Bool-cases,
}
use appt_remind.Auth.{User, RefreshToken, Accounts, is_taken, has_user, revoked_rows}
use appt_remind.Auth.Handlers.{AuthEnv, token_row}
use appt_remind.Auth.Kept.{Kept, register-keeps, login-keeps, refresh-keeps, logout-keeps}
use appt_remind.Auth.Rows.{create_user_rows, insert_event_rows, create_token_rows, revoke_rows}
use appt_remind.Auth.Runs.{Call, register_call, login_call, refresh_call, logout_call, serve}

abbrev pub Owned : List User → List RefreshToken → Type 0
Owned users tokens = All (λ k. has_user k.user_id users ≡ true) tokens

-- No two users have one email, and each refresh token belongs to a user.
pub record IsConsistent (db : Accounts) : Type 0 where
  pub emails : (email : String) → count (λ u. u.email == email) db.users ≤ 1
  pub owned : Owned db.users db.tokens

count_last :
    (p : User → Bool) (users : List User) (user : User)
    → count p (users ++ user ∷ []) ≡ count p users + (if p user then 1 else 0)
count_last p [] user = omega arith
count_last p (u ∷ users) user = let rest = count_last p users user in omega arith

not_taken :
    (user : User) (users : List User)
    → is_taken user users ≡ false
    → count (λ u. u.email == user.email) users ≡ 0
unfolding is_taken
not_taken user [] h = refl
not_taken user (u ∷ users) h = let rest = not_taken user users in ground arith

count_email :
    (user : User) (users : List User) (email : String)
    → is_taken user users ≡ false
    → count (λ u. u.email == email) users ≤ 1
    → count (λ u. u.email == email) (users ++ user ∷ []) ≤ 1
count_email user users email h n = elim (Bool-cases (user.email == email)) [
  | inl e ↦
      let same : user.email ≡ email = (eq_iff user.email email).0 e in
      let zero_rows = not_taken user users h in
      let f = count_last (λ u. u.email == email) users user in
      rw (f, e)
        (let g : count (λ u. u.email == email) users ≡ 0 = rw (sym same) zero_rows in omega arith)
  | inr e ↦ let f = count_last (λ u. u.email == email) users user in rw (f, e) (omega arith)
]

has_user-++ :
    (id : String) (users : List User) (user : User)
    → has_user id users ≡ true
    → has_user id (users ++ user ∷ []) ≡ true
unfolding has_user
has_user-++ id [] user h = cc
has_user-++ id (u ∷ users) user h = let rest = has_user-++ id users user in ground arith

Owned-user :
    (users : List User) (user : User) (tokens : List RefreshToken)
    → Owned users tokens
    → Owned (users ++ user ∷ []) tokens
Owned-user users user [] h = tt
Owned-user users user (k ∷ tokens) (h, hs) =
    (has_user-++ k.user_id users user h, Owned-user users user tokens hs)

Owned-token :
    (users : List User) (tokens : List RefreshToken) (k : RefreshToken)
    → has_user k.user_id users ≡ true
    → Owned users tokens
    → Owned users (tokens ++ k ∷ [])
Owned-token users [] k h hs = (h, tt)
Owned-token users (j ∷ tokens) k h (i, hs) = (i, Owned-token users tokens k h hs)

Owned-revoked :
    (users : List User) (now : ℕ) (id : String) (tokens : List RefreshToken)
    → Owned users tokens
    → Owned users (revoked_rows now id tokens)
unfolding revoked_rows
Owned-revoked users now id [] h = tt
Owned-revoked users now id (k ∷ tokens) (h, hs) = (kept, Owned-revoked users now id tokens hs)
  where
    kept :
        has_user (if k.id == id then record k { revoked_at = some now } else k).user_id users ≡ true
    kept = elim (Bool-cases (k.id == id)) [ inl e ↦ rw e h | inr e ↦ rw e h ]

IsConsistent-Kept : (env : AuthEnv) → Kept IsConsistent env
unfolding token_row
IsConsistent-Kept env = record {
  users = λ user a d e h i.
      let (fresh, same) = create_user_rows user a d e h in
      rw same record {
        emails = λ email. count_email user d.users email fresh (i.emails email);
        owned = Owned-user d.users user d.tokens i.owned;
      };
  events = λ event a d e h i.
      let same = insert_event_rows event a d e h in
      rw same record { emails = i.emails; owned = i.owned };
  tokens = λ user_id raw r a d e h i.
      let (fresh, known, same) = create_token_rows (token_row env user_id raw) a d e h in
      rw same record {
        emails = i.emails;
        owned = Owned-token d.users d.tokens (token_row env user_id raw) known i.owned;
      };
  revoked = λ id a d e h i.
      let same = revoke_rows env.now id a d e h in
      rw same
        record { emails = i.emails; owned = Owned-revoked d.users env.now id d.tokens i.owned };
}

-- If no two users have one email and each refresh token belongs to a user, then the same holds after any
-- request to register, log in, refresh or log out, whatever fails on the way.
pub serve-IsConsistent :
    (env : AuthEnv) (call : Call) (db : Accounts)
    → IsConsistent db
    → IsConsistent (serve env call db).1
serve-IsConsistent env (register_call req) db h =
    register-keeps IsConsistent env (IsConsistent-Kept env) req db h
serve-IsConsistent env (login_call req) db h =
    login-keeps IsConsistent env (IsConsistent-Kept env) req db h
serve-IsConsistent env (refresh_call token) db h =
    refresh-keeps IsConsistent env (IsConsistent-Kept env) token db h
serve-IsConsistent env (logout_call token) db h =
    logout-keeps IsConsistent env (IsConsistent-Kept env) token db h
