-- ===== src/Gateway.antt =====
-- services/gateway-service: who gets through to the services behind, requireAuth and requireRole of
-- cmd/gateway-service/main.go. Of a request's headers the four are kept that these read or set. The checks
-- of a token and the keys are parameters.
pub mod Through
pub mod Limit
mod Tests
use Prim.Native.Char.{code}
use Prim.Native.String
use appt_remind.Base.{
  ℕ, suc, leb, eqb, Bool, true, false, not, ◌&&◌, ◌||◌, Option, none, some, List, [], ◌∷◌, String,
  ◌==◌, if◌then◌else◌,
}
use appt_remind.Base.Text.{is_empty, trim_space}
use appt_remind.Auth.Handlers.{Claims}

pub record Headers : Type 0 where
  pub authorization : String
  pub user_id : String
  pub business_id : String
  pub role : String

-- The JWKS client: the header of a token, a key by its id, and a token checked by a key.
pub record Jwks : Type 0 where
  pub parse_header : String → Option (String × String)
  pub get : String → Option String
  pub verify_rs256 : String → String → Option Claims

pub record GateEnv : Type 0 where
  pub jwks : Option Jwks
  pub verify_hs256 : String → Option Claims

pub data Gate : Type 0 where
  forwarded : Headers → Gate
  refused : ℕ → String → Gate
  -- A nil dereference: net/http drops the connection.
  panicked : Gate

-- strings.TrimPrefix, if strings.HasPrefix.
pub strip_prefix : String → String → Option String
strip_prefix String.[] s = some s
strip_prefix (String.◌∷◌ c prefix) String.[] = none
strip_prefix (String.◌∷◌ c prefix) (String.◌∷◌ d s) =
    let rest = strip_prefix prefix s in if eqb (code c) (code d) then rest else none

-- In characters: of a text that begins with "Bearer " no more than 7 bytes are no more than 7 of them.
pub text_length : String → ℕ
text_length String.[] = 0
text_length (String.◌∷◌ c s) = suc (text_length s)

-- The token of a header that has one.
pub bearer_token : String → Option String
unfolding strip_prefix text_length trim_space
bearer_token header = elim (strip_prefix "Bearer " header) [
  | none ↦ none
  | some rest ↦ if leb (text_length (trim_space header)) 7 then none else some (trim_space rest)
]

pub with_claims : Headers → Claims → Headers
with_claims h claims = record h {
  user_id = claims.sub;
  business_id = claims.business_id;
  role = claims.role;
}

-- The checks with a JWKS client: their error is kept in a variable of the inner block, so that the test
-- after it does not see it, and the claims that are missing are read.
pub passed_jwks : Headers → Option Claims → Gate
unfolding with_claims
passed_jwks h none = panicked
passed_jwks h (some claims) = forwarded (with_claims h claims)

pub passed : Headers → Option Claims → Gate
unfolding with_claims
passed h none = refused 401 "invalid token"
passed h (some claims) = forwarded (with_claims h claims)

pub checked_key : Jwks → Headers → String → Option String → Gate
unfolding passed_jwks
checked_key jwks h token none = refused 401 "invalid token key"
checked_key jwks h token (some key) = passed_jwks h (jwks.verify_rs256 token key)

pub checked_header : GateEnv → Jwks → Headers → String → Option (String × String) → Gate
unfolding is_empty checked_key passed_jwks
checked_header env jwks h token none = refused 401 "invalid token header"
checked_header env jwks h token (some (alg, kid)) =
    if alg == "RS256" && not (is_empty kid)
    then checked_key jwks h token (jwks.get kid)
    else passed_jwks h (env.verify_hs256 token)

pub checked_token : GateEnv → Headers → String → Option Jwks → Gate
unfolding checked_header passed
checked_token env h token none = passed h (env.verify_hs256 token)
checked_token env h token (some jwks) = checked_header env jwks h token (jwks.parse_header token)

pub carried : GateEnv → Headers → Option String → Gate
unfolding checked_token
carried env h none = refused 401 "missing or invalid Authorization header"
carried env h (some token) = checked_token env h token env.jwks

pub require_auth : GateEnv → Headers → Gate
unfolding bearer_token carried
require_auth env h = carried env h (bearer_token h.authorization)

pub is_allowed : String → List String → Bool
is_allowed role [] = false
is_allowed role (r ∷ roles) = r == role || is_allowed role roles

pub require_role : List String → Headers → Gate
unfolding is_allowed
require_role roles h = if is_allowed h.role roles then forwarded h else refused 403 "forbidden"

abbrev pub after_auth : List String → Gate → Gate
after_auth roles (forwarded h) = require_role roles h
after_auth roles (refused status text) = refused status text
after_auth roles panicked = panicked

-- requireAuth(requireRole(next, roles...)), as the routes put them together.
pub guard : GateEnv → List String → Headers → Gate
unfolding require_auth require_role
guard env roles h = after_auth roles (require_auth env h)
