-- ===== src/Auth.antt =====
-- services/auth-service: the users and the refresh tokens. internal/storage/user_repository.go and
-- internal/sessions/refresh_repository.go have the statements, with the constraints of
-- migrations/0001_init.sql; the children have the handlers of internal/handlers/auth.go.
-- What a column refuses for its type or its length is a failure of the statement.
pub mod Handlers
pub mod Kept
pub mod Live
pub mod Rows
pub mod Runs
pub mod Single
mod Tests
pub mod Verified
pub mod Consistent
pub mod Logout
use appt_remind.Base.{
  ℕ, Bool, true, false, ◌||◌, Option, none, some, List, [], ◌∷◌, ◌++◌, String, ◌==◌, if◌then◌else◌,
}
use appt_remind.Tx.{no_rows, unique_violation, failure, Result, ok, err, Statement}

pub record User : Type 0 where
  pub id : String
  pub business_id : String
  pub email : String
  pub password_hash : String
  pub role : String

pub record RefreshToken : Type 0 where
  pub id : String
  pub user_id : String
  pub hash : String
  pub expires_at : ℕ
  pub revoked_at : Option ℕ

pub record UserCreated : Type 0 where
  pub user_id : String
  pub business_id : String
  pub email : String
  pub role : String
  pub created_at : ℕ

pub record Event : Type 0 where
  pub aggregate_type : String
  pub aggregate_id : String
  pub event_type : String
  pub payload : UserCreated

pub record Accounts : Type 0 where
  pub users : List User
  pub tokens : List RefreshToken
  pub outbox : List Event

pub find_email : String → List User → Option User
find_email email [] = none
find_email email (u ∷ users) =
    let rest = find_email email users in if u.email == email then some u else rest

pub find_user : String → List User → Option User
find_user id [] = none
find_user id (u ∷ users) = let rest = find_user id users in if u.id == id then some u else rest

pub find_token : String → List RefreshToken → Option RefreshToken
find_token hash [] = none
find_token hash (k ∷ tokens) =
    let rest = find_token hash tokens in if k.hash == hash then some k else rest

-- A row, if the query found one.
abbrev pub row_of : {A : Type 0} → Accounts → Option A → Result (A × Accounts)
row_of db none = err no_rows
row_of db (some a) = ok (a, db)

pub get_by_email : String → Statement Accounts User
unfolding find_email
get_by_email email db = row_of db (find_email email db.users)

pub get_by_id : String → Statement Accounts User
unfolding find_user
get_by_id id db = row_of db (find_user id db.users)

-- The primary key and the unique email.
pub is_taken : User → List User → Bool
is_taken user [] = false
is_taken user (u ∷ users) = u.id == user.id || u.email == user.email || is_taken user users

pub create_user : User → Statement Accounts (Unit {0})
unfolding is_taken
create_user user db =
    if is_taken user db.users
    then err unique_violation
    else ok (tt, record db { users = db.users ++ user ∷ [] })

pub insert_event : Event → Statement Accounts (Unit {0})
insert_event event db = ok (tt, record db { outbox = db.outbox ++ event ∷ [] })

-- No constraint makes the hashes unique: the query takes the first row that it meets.
pub get_by_hash : String → Statement Accounts RefreshToken
unfolding find_token
get_by_hash hash db = row_of db (find_token hash db.tokens)

pub has_token : String → List RefreshToken → Bool
has_token id [] = false
has_token id (k ∷ tokens) = k.id == id || has_token id tokens

pub has_user : String → List User → Bool
has_user id [] = false
has_user id (u ∷ users) = u.id == id || has_user id users

-- The primary key, and the reference to the user.
pub create_token : RefreshToken → Statement Accounts (Unit {0})
unfolding has_token has_user
create_token k db =
    if has_token k.id db.tokens
    then err unique_violation
    else (if has_user k.user_id db.users
        then ok (tt, record db { tokens = db.tokens ++ k ∷ [] })
        else err failure)

pub revoked_rows : ℕ → String → List RefreshToken → List RefreshToken
revoked_rows now id [] = []
revoked_rows now id (k ∷ tokens) =
    (if k.id == id then record k { revoked_at = some now } else k) ∷ revoked_rows now id tokens

pub revoke : ℕ → String → Statement Accounts (Unit {0})
unfolding revoked_rows
revoke now id db = ok (tt, record db { tokens = revoked_rows now id db.tokens })
