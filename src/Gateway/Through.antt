-- ===== src/Gateway/Through.antt =====
-- cmd/gateway-service/main.go: what is known of a request that gets through.
use appt_remind.Base.{
  ◌≡◌, refl, sym, ap, ◌∙◌, ◌≢◌, ◌⊎◌, inl, inr, true, false, not, arith, eq_iff, ◌&&◌, Option, none,
  some, List, String, ◌==◌, Bool-cases, Option-cases,
}
use appt_remind.Base.Text.{is_empty}
use appt_remind.Auth.Handlers.{Claims}
use appt_remind.Gateway.{
  Headers, Jwks, GateEnv, Gate, forwarded, refused, panicked, bearer_token, with_claims,
  passed_jwks, passed, checked_key, checked_header, checked_token, carried, after_auth,
  require_auth, is_allowed, require_role, guard,
}

-- What is asked of a token when there is a JWKS client: one that names RS256 and the id of a key verifies by
-- the key that the client has under this id, any other one by the shared secret.
abbrev IsSigned : GateEnv → Jwks → String → Claims → String → String → Type 0
IsSigned env jwks token claims alg kid =
    ((alg ≡ "RS256")
      × (is_empty kid ≡ false)
      × (key : String) × (jwks.get kid ≡ some key)
      × (jwks.verify_rs256 token key ≡ some claims))
    ⊎ (((alg ≢ "RS256") ⊎ (is_empty kid ≡ true)) × (env.verify_hs256 token ≡ some claims))

-- The claims are the ones of the token, by the shared secret if there is no JWKS client, and else by
-- what the token's own header asks for.
abbrev pub IsVerified : GateEnv → String → Claims → Type 0
IsVerified env token claims =
    ((env.jwks ≡ none) × (env.verify_hs256 token ≡ some claims))
    ⊎ ((jwks : Jwks) × (alg : String) × (kid : String) × (env.jwks ≡ some jwks)
        × (jwks.parse_header token ≡ some (alg, kid))
        × IsSigned env jwks token claims alg kid)

-- The request that is passed on says the user, the business and the role of a verified token's claims.
pub record Through (env : GateEnv) (before : Headers) (after : Headers) : Type 0 where
  pub token : String
  pub claims : Claims
  pub bearer : bearer_token before.authorization ≡ some token
  pub verified : IsVerified env token claims
  pub authorization : after.authorization ≡ before.authorization
  pub user_id : after.user_id ≡ claims.sub
  pub business_id : after.business_id ≡ claims.business_id
  pub role : after.role ≡ claims.role

asks_key :
    (alg kid : String)
    → alg == "RS256" && not (is_empty kid) ≡ true
    → (alg ≡ "RS256") × (is_empty kid ≡ false)
asks_key alg kid e = ground (arith, eq_iff alg "RS256")

asks_secret :
    (alg kid : String)
    → alg == "RS256" && not (is_empty kid) ≡ false
    → (alg ≢ "RS256") ⊎ (is_empty kid ≡ true)
asks_secret alg kid e = ground (arith, eq_iff alg "RS256")

module _ (env : GateEnv) (h after : Headers) (token : String)
    (b : bearer_token h.authorization ≡ some token) where
  claims-Through :
      (claims : Claims)
      → IsVerified env token claims
      → forwarded (with_claims h claims) ≡ forwarded after
      → Through env h after
  unfolding with_claims
  claims-Through claims v e =
      let same : after ≡ with_claims h claims = cc in
      record {
        token = token;
        claims = claims;
        bearer = b;
        verified = v;
        authorization = rw same refl;
        user_id = rw same refl;
        business_id = rw same refl;
        role = rw same refl;
      }

  passed-Through :
      (o : Option Claims)
      → ((c : Claims) → o ≡ some c → IsVerified env token c)
      → passed h o ≡ forwarded after
      → Through env h after
  unfolding passed
  passed-Through none f e = cc
  passed-Through (some claims) f e = claims-Through claims (f claims refl) e

  passed_jwks-Through :
      (o : Option Claims)
      → ((c : Claims) → o ≡ some c → IsVerified env token c)
      → passed_jwks h o ≡ forwarded after
      → Through env h after
  unfolding passed_jwks
  passed_jwks-Through none f e = cc
  passed_jwks-Through (some claims) f e = claims-Through claims (f claims refl) e

  checked_header-Through :
      (jwks : Jwks) (o : Option (String × String))
      → env.jwks ≡ some jwks
      → jwks.parse_header token ≡ o
      → checked_header env jwks h token o ≡ forwarded after
      → Through env h after
  unfolding checked_header checked_key
  checked_header-Through jwks none j p = λ e. cc
  checked_header-Through jwks (some (alg, kid)) j p =
      elim (Bool-cases (alg == "RS256" && not (is_empty kid))) [
        | inl r ↦ elim (Option-cases (jwks.get kid)) [
          | inl g ↦ rw (r, g) (λ e. cc)
          | inr (key, g) ↦
              let asked = asks_key alg kid r in
              rw (r, g)
                (passed_jwks-Through (jwks.verify_rs256 token key)
                  (λ c v. inr (jwks, alg, kid, j, p, inl (asked.0, asked.1, key, g, v))))
        ]
        | inr r ↦ rw r (
            passed_jwks-Through (env.verify_hs256 token)
              (λ c v. inr (jwks, alg, kid, j, p, inr (asks_secret alg kid r, v))))
      ]

  checked_token-Through :
      (o : Option Jwks)
      → env.jwks ≡ o
      → checked_token env h token o ≡ forwarded after
      → Through env h after
  unfolding checked_token
  checked_token-Through none j = passed-Through (env.verify_hs256 token) (λ c v. inl (j, v))
  checked_token-Through (some jwks) j = checked_header-Through jwks (jwks.parse_header token) j refl

carried-Through :
    (env : GateEnv) (h after : Headers) (o : Option String)
    → bearer_token h.authorization ≡ o
    → carried env h o ≡ forwarded after
    → Through env h after
unfolding carried
carried-Through env h after none b e = cc
carried-Through env h after (some token) b e =
    checked_token-Through env h after token b env.jwks refl e

require_auth-Through :
    (env : GateEnv) (h after : Headers) → require_auth env h ≡ forwarded after → Through env h after
unfolding require_auth
require_auth-Through env h after e =
    carried-Through env h after (bearer_token h.authorization) refl e

-- A request that the gateway passes on carries a bearer token whose claims have been verified: by
-- the shared secret if there is no JWKS client; and with one, by the key that the client has under
-- the id in the token's own header if that names RS256 and an id, by the shared secret if not. The
-- request then says the user, the business and the role of these claims, whatever it said before,
-- its Authorization header is as it was, and the role is an allowed one.
pub guard-Through :
    (env : GateEnv) (roles : List String) (h after : Headers)
    → guard env roles h ≡ forwarded after
    → Through env h after × (is_allowed after.role roles ≡ true)
unfolding guard require_role
guard-Through env roles h after = allowed (require_auth env h) refl
  where
    allowed :
        (g : Gate)
        → require_auth env h ≡ g
        → after_auth roles g ≡ forwarded after
        → Through env h after × (is_allowed after.role roles ≡ true)
    allowed (forwarded inner) e f = elim (Bool-cases (is_allowed inner.role roles)) [
      | inl a ↦
          let same : inner ≡ after = let k = rw a at f in cc in
          (
            require_auth-Through env h after (e ∙ ap (λ x. forwarded x) same),
            ap (λ x. is_allowed x.role roles) (sym same) ∙ a,
          )
      | inr a ↦ let k = rw a at f in cc
    ]
    allowed (refused status text) e f = cc
    allowed panicked e f = cc
