-- ===== src/Gateway/Tests.antt =====
-- Runs of the gateway's checks and of its limiter.
use appt_remind.Base.{
  ◌≡◌, refl, ◌-◌, arith, count, true, none, some, List, [], ◌∷◌, String, ◌==◌, ◌&&◌, if◌then◌else◌,
}
use appt_remind.Base.Text.{trim_space, is_empty}
use appt_remind.Auth.Handlers.{Claims}
use appt_remind.Gateway.{
  Headers, GateEnv, forwarded, refused, panicked, bearer_token, strip_prefix, text_length,
  with_claims, passed, passed_jwks, checked_key, checked_header, checked_token, carried,
  require_auth, require_role, is_allowed, guard,
}
use appt_remind.Gateway.Limit.{
  RateLimiter, Visit, find_visitor, put_visitor, visit, allow, admitted, least, before_comma,
  client_key, admitted-least,
}
use appt_remind.Gateway.Through.{Through, guard-Through}

abbrev owner : Claims
owner = record { sub = "u"; business_id = "b"; role = "owner"; iat = 1; exp = 2 }

abbrev env : GateEnv
env = record { jwks = none; verify_hs256 = λ token. if token == "ok" then some owner else none }

-- A client that writes itself another role.
abbrev request : String → Headers
request authorization = record {
  authorization = authorization;
  user_id = "x";
  business_id = "y";
  role = "admin";
}

abbrev said : Headers
said = record { authorization = "Bearer ok "; user_id = "u"; business_id = "b"; role = "owner" }

let_through : guard env ("owner" ∷ "admin" ∷ []) (request "Bearer ok ") ≡ forwarded said
unfolding guard require_auth bearer_token strip_prefix text_length trim_space carried checked_token
    passed with_claims require_role is_allowed
let_through = refl

wrong_role : guard env ("admin" ∷ []) (request "Bearer ok ") ≡ refused 403 "forbidden"
unfolding guard require_auth bearer_token strip_prefix text_length trim_space carried checked_token
    passed with_claims require_role is_allowed
wrong_role = refl

no_token :
    guard env ("admin" ∷ []) (request "Bearer  ")
    ≡ refused 401 "missing or invalid Authorization header"
unfolding guard require_auth bearer_token strip_prefix text_length trim_space carried
no_token = refl

-- With a JWKS client a token that does not verify is not answered.
dropped :
    guard
      (record env {
        jwks = some record {
          parse_header = λ token. some ("HS256", "");
          get = λ kid. none;
          verify_rs256 = λ token key. none;
        };
      })
      ("owner" ∷ [])
      (request "Bearer no")
    ≡ panicked
unfolding guard require_auth bearer_token strip_prefix text_length trim_space carried checked_token
    checked_header passed_jwks is_empty
dropped = refl

abbrev two_a_window : RateLimiter
two_a_window = record { limit = 2; window = 10 }

abbrev visits : List Visit
visits = (5, "a") ∷ (5, "b") ∷ (6, "a") ∷ (7, "a") ∷ []

two_of_three : admitted two_a_window "a" visits [] ≡ 2
unfolding admitted allow visit find_visitor put_visitor
two_of_three = refl

admitted-least_example :
    admitted two_a_window "a" visits (("a", record { count = 1; reset_time = 9 }) ∷ [])
    ≡ least (count (λ r. r.1 == "a") visits) (2 - 1)
unfolding find_visitor
admitted-least_example =
    admitted-least two_a_window "a" visits (("a", record { count = 1; reset_time = 9 }) ∷ [])
      record { count = 1; reset_time = 9 } refl
      (omega arith, (omega arith, (omega arith, (omega arith, tt))))

first_address : client_key (λ s. none) " 1.2.3.4 , 5.6.7.8" "r" ≡ "1.2.3.4"
unfolding client_key is_empty trim_space before_comma
first_address = refl

-- A client of keys with one key, by which this token's header says that it is signed.
abbrev with_keys : GateEnv
with_keys = record env {
  jwks = some record {
    parse_header = λ token. some ("RS256", "k1");
    get = λ kid. if kid == "k1" then some "pem" else none;
    verify_rs256 = λ token key. if token == "signed" && key == "pem" then some owner else none;
  };
}

abbrev said_signed : Headers
said_signed = record said { authorization = "Bearer signed" }

signed_through :
    guard with_keys ("owner" ∷ "admin" ∷ []) (request "Bearer signed") ≡ forwarded said_signed
unfolding guard require_auth bearer_token strip_prefix text_length trim_space carried checked_token
    checked_header checked_key is_empty passed_jwks with_claims require_role is_allowed
signed_through = refl

guard-Through_example :
    Through with_keys (request "Bearer signed") said_signed
    × (is_allowed "owner" ("owner" ∷ "admin" ∷ []) ≡ true)
guard-Through_example =
    guard-Through with_keys ("owner" ∷ "admin" ∷ []) (request "Bearer signed") said_signed
      signed_through
