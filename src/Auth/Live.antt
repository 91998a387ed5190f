-- ===== src/Auth/Live.antt =====
-- The rows of refresh_tokens that are not revoked, by their hash.
use appt_remind.Base.{
  ◌≡◌, refl, ℕ, ◌≤◌, Bool, true, false, ◌&&◌, ◌||◌, Option, none, some, List, [], ◌∷◌, ◌++◌, String,
  ◌==◌, eq_refl, arith, count, Bool-cases, inl, inr,
}
use appt_remind.Auth.{RefreshToken, find_token, revoked_rows}

abbrev pub is_none : Option ℕ → Bool
is_none none = true
is_none (some at) = false

abbrev pub is_live : String → RefreshToken → Bool
is_live hash k = k.hash == hash && is_none k.revoked_at

pub any_live : String → List RefreshToken → Bool
any_live hash [] = false
any_live hash (k ∷ tokens) = is_live hash k || any_live hash tokens

pub any_live-++ :
    (hash : String) (tokens : List RefreshToken) (k : RefreshToken)
    → any_live hash (tokens ++ k ∷ []) ≡ (any_live hash tokens || is_live hash k)
unfolding any_live
any_live-++ hash [] k = ground arith
any_live-++ hash (j ∷ tokens) k = let rest = any_live-++ hash tokens k in ground arith

pub any_live-revoked_rows :
    (hash : String) (now : ℕ) (id : String) (tokens : List RefreshToken)
    → any_live hash tokens ≡ false
    → any_live hash (revoked_rows now id tokens) ≡ false
unfolding any_live revoked_rows
any_live-revoked_rows hash now id [] h = refl
any_live-revoked_rows hash now id (k ∷ tokens) h =
    let rest = any_live-revoked_rows hash now id tokens in ground arith

-- A row that is found by a hash that no live row has is revoked.
pub find_token-revoked :
    (hash : String) (tokens : List RefreshToken) (k : RefreshToken)
    → any_live hash tokens ≡ false
    → find_token hash tokens ≡ some k
    → is_none k.revoked_at ≡ false
unfolding any_live find_token
find_token-revoked hash [] k h e = cc
find_token-revoked hash (j ∷ tokens) k h e =
    let rest = find_token-revoked hash tokens k in ground arith

no_live :
    (hash : String) (tokens : List RefreshToken)
    → count (λ k. k.hash == hash) tokens ≤ 0
    → any_live hash tokens ≡ false
unfolding any_live
no_live hash [] h = refl
no_live hash (k ∷ tokens) h = let rest = no_live hash tokens in ground arith

-- The revocation of the only row with the hash leaves no live one.
pub revoked_rows-closes :
    (hash : String) (now : ℕ) (tokens : List RefreshToken) (k : RefreshToken)
    → count (λ k. k.hash == hash) tokens ≤ 1
    → find_token hash tokens ≡ some k
    → any_live hash (revoked_rows now k.id tokens) ≡ false
unfolding any_live find_token revoked_rows
revoked_rows-closes hash now [] k h e = cc
revoked_rows-closes hash now (j ∷ tokens) k h e =
    let rest = revoked_rows-closes hash now tokens k in
    elim (Bool-cases (j.hash == hash)) [
      | inl f ↦
          let found = rw f at e in
          let same : j ≡ k = cc in
          let counted = rw f at h in
          let none_left =
            any_live-revoked_rows hash now k.id tokens (no_live hash tokens (omega arith)) in
          let self = eq_refl k.id in rw same (ground arith)
      | inr f ↦ ground arith
    ]

pub find_token-none :
    (hash : String) (tokens : List RefreshToken)
    → find_token hash tokens ≡ none
    → any_live hash tokens ≡ false
unfolding any_live find_token
find_token-none hash [] e = refl
find_token-none hash (j ∷ tokens) e = let rest = find_token-none hash tokens in ground arith

-- If the only row with the hash is revoked, no live one is left.
pub find_token-closes :
    (hash : String) (tokens : List RefreshToken) (k : RefreshToken)
    → count (λ k. k.hash == hash) tokens ≤ 1
    → find_token hash tokens ≡ some k
    → is_none k.revoked_at ≡ false
    → any_live hash tokens ≡ false
unfolding any_live find_token
find_token-closes hash [] k h e r = cc
find_token-closes hash (j ∷ tokens) k h e r =
    let rest = find_token-closes hash tokens k in
    elim (Bool-cases (j.hash == hash)) [
      | inl f ↦
          let found = rw f at e in
          let same : j ≡ k = cc in
          let counted = rw f at h in
          let none_left = no_live hash tokens (omega arith) in rw same (ground arith)
      | inr f ↦ ground arith
    ]
