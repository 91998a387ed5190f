-- ===== src/Auth/Rows.antt =====
-- What the statements on users, refresh_tokens and outbox_events write when they succeed.
use appt_remind.Base.{
  ◌≡◌, refl, inl, inr, ℕ, Option, none, some, Bool, true, false, [], ◌∷◌, ◌++◌, String, Bool-cases,
}
use appt_remind.Tx.{
  Result, ok, err, no_rows, exclusion_violation, unique_violation, failure, Tx, direct, ◌>>=◌,
}
use appt_remind.Tx.Rules.{Ensures, Ensures-bind, Direct, Ensures-direct}
use appt_remind.Auth.Handlers.{Response, found}
use appt_remind.Auth.{
  User, RefreshToken, Event, Accounts, is_taken, create_user, insert_event, has_token, has_user,
  create_token, revoked_rows, revoke, row_of,
}

pub create_user_rows :
    (user : User) (a : Unit {0}) (d e : Accounts)
    → create_user user d ≡ ok (a, e)
    → (is_taken user d.users ≡ false) × (e ≡ record d { users = d.users ++ user ∷ [] })
unfolding create_user
create_user_rows user a d e h = elim (Bool-cases (is_taken user d.users)) [
  | inl t ↦ let f = rw t at h in cc
  | inr t ↦ let f = rw t at h in (t, cc)
]

pub insert_event_rows :
    (event : Event) (a : Unit {0}) (d e : Accounts)
    → insert_event event d ≡ ok (a, e)
    → e ≡ record d { outbox = d.outbox ++ event ∷ [] }
unfolding insert_event
insert_event_rows event a d e h = cc

pub create_token_rows :
    (k : RefreshToken) (a : Unit {0}) (d e : Accounts)
    → create_token k d ≡ ok (a, e)
    → (has_token k.id d.tokens ≡ false)
      × (has_user k.user_id d.users ≡ true)
      × (e ≡ record d { tokens = d.tokens ++ k ∷ [] })
unfolding create_token
create_token_rows k a d e h = elim (Bool-cases (has_token k.id d.tokens)) [
  | inl t ↦ let f = rw t at h in cc
  | inr t ↦ elim (Bool-cases (has_user k.user_id d.users)) [
    | inl u ↦ let f = rw (t, u) at h in (t, u, cc)
    | inr u ↦ let f = rw (t, u) at h in cc
  ]
]

pub revoke_rows :
    (now : ℕ) (id : String) (a : Unit {0}) (d e : Accounts)
    → revoke now id d ≡ ok (a, e)
    → e ≡ record d { tokens = revoked_rows now id d.tokens }
unfolding revoke
revoke_rows now id a d e h = cc

-- A query whose row must be there, outside a transaction.
pub query_found :
    {A : Type 0} (P : Response → Tx Accounts → Type 0) (fails : Bool) (absent broken : Response)
    (look : Accounts → Option A) (t : Tx Accounts)
    → (look t.committed ≡ none → P absent t)
    → P broken t
    → Ensures P
        (λ a u. (look t.committed ≡ some a) × (u.committed ≡ t.committed))
        ((direct fails (λ db. row_of db (look db)) >>= found absent broken) t)
query_found {A} P fails absent broken look t none_found bad =
    Ensures-bind P (Direct (λ db. row_of db (look db)) t) _
      (direct fails (λ db. row_of db (look db))) (found absent broken) t
      (Ensures-direct P fails (λ db. row_of db (look db)) t) each
  where
    none_of : (o : Option A) → row_of t.committed o ≡ err no_rows → o ≡ none
    none_of none e = refl
    none_of (some a) e = cc

    some_of :
        (o : Option A) (a : A) (d : Accounts)
        → row_of t.committed o ≡ ok (a, d)
        → (o ≡ some a) × (d ≡ t.committed)
    some_of none a d e = cc
    some_of (some b) a d e = (cc, cc)

    each :
        (res : Result A) (u : Tx Accounts)
        → Direct (λ db. row_of db (look db)) t res u
        → Ensures P
            (λ a u. (look t.committed ≡ some a) × (u.committed ≡ t.committed))
            (found absent broken res u)
    each (ok a) u (d, e, same) = let f = some_of (look t.committed) a d e in (f.0, rw same f.1)
    each (err no_rows) u (same, inl e) = cc
    each (err no_rows) u (same, inr e) = rw same (none_found (none_of (look t.committed) e))
    each (err exclusion_violation) u h = rw h.0 bad
    each (err unique_violation) u h = rw h.0 bad
    each (err failure) u h = rw h.0 bad
