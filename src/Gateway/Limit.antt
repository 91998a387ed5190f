-- ===== src/Gateway/Limit.antt =====
-- libs/httpx/ratelimit.go: the fixed-window limiter that the gateway puts before its routes. Its lock makes
-- one call follow another. A limit below zero acts as zero.
use Prim.Native.Char.{code}
use appt_remind.Base.{
  ◌≡◌, refl, sym, ◌∙◌, ap, inl, inr, ◌⊎◌, ℕ, suc, ◌+◌, ◌-◌, ◌≤◌, ◌<◌, le_or_lt, ltb, leb, eqb, Bool,
  true, false, ◌&&◌, Option, none, some, List, [], ◌∷◌, String, ◌==◌, eq_iff, if◌then◌else◌, arith,
  count, All, Bool-cases,
}
use appt_remind.Base.Text.{is_empty, trim_space}

pub record Visitor : Type 0 where
  pub count : ℕ
  pub reset_time : ℕ

pub record RateLimiter : Type 0 where
  pub limit : ℕ
  pub window : ℕ

-- The map of the visitors.
abbrev pub Visitors : Type 0
Visitors = List (String × Visitor)

unfoldable pub find_visitor : String → Visitors → Option Visitor
find_visitor key [] = none
find_visitor key (e ∷ visitors) =
    let rest = find_visitor key visitors in if e.0 == key then some e.1 else rest

unfoldable pub put_visitor : String → Visitor → Visitors → Visitors
put_visitor key v [] = (key, v) ∷ []
put_visitor key v (e ∷ visitors) =
    let rest = put_visitor key v visitors in if e.0 == key then (key, v) ∷ visitors else e ∷ rest

abbrev pub first_visit : RateLimiter → ℕ → Visitor
first_visit rl now = record { count = 1; reset_time = now + rl.window }

unfoldable pub visit : RateLimiter → ℕ → Option Visitor → Bool × Visitor
visit rl now none = (true, first_visit rl now)
visit rl now (some v) =
    if ltb v.reset_time now
    then (true, first_visit rl now)
    else (if leb rl.limit v.count then (false, v) else (true, record v { count = suc v.count }))

unfoldable pub allow : RateLimiter → ℕ → String → Visitors → Bool × Visitors
unfolding find_visitor put_visitor visit
allow rl now key visitors =
    let r = visit rl now (find_visitor key visitors) in (r.0, put_visitor key r.1 visitors)

-- strings.Split(s, ",")[0].
unfoldable pub before_comma : String → String
before_comma String.[] = ""
before_comma (String.◌∷◌ c s) =
    let rest = before_comma s in if eqb (code c) 44 then "" else String.◌∷◌ c rest

-- `split` is net.SplitHostPort's host.
unfoldable pub client_key : (String → Option String) → String → String → String
unfolding is_empty trim_space before_comma
client_key split forwarded_for remote_addr =
    if is_empty forwarded_for
    then elim (split remote_addr) [ some host ↦ host | none ↦ remote_addr ]
    else trim_space (before_comma forwarded_for)

-- A request, by its time and its key.
abbrev pub Visit : Type 0
Visit = ℕ × String

-- How many requests of the key are allowed, when these requests come one after another.
unfoldable pub admitted : RateLimiter → String → List Visit → Visitors → ℕ
unfolding allow
admitted rl key [] visitors = 0
admitted rl key (r ∷ requests) visitors =
    let answer = allow rl r.0 r.1 visitors in
    (if r.1 == key && answer.0 then 1 else 0) + admitted rl key requests answer.1

abbrev pub least : ℕ → ℕ → ℕ
least a b = if leb a b then a else b

apart : (a b c : String) → a == b ≡ false → b == c ≡ true → a == c ≡ false
apart a b c f g = let same : b ≡ c = (eq_iff b c).0 g in ap (λ s. a == s) (sym same) ∙ f

find_visitor-put_visitor :
    (key other : String) (v : Visitor) (visitors : Visitors)
    → find_visitor key (put_visitor other v visitors)
      ≡ (if other == key then some v else find_visitor key visitors)
unfolding find_visitor put_visitor
find_visitor-put_visitor key other v [] = refl
find_visitor-put_visitor key other v (e ∷ visitors) =
    let rest = find_visitor-put_visitor key other v visitors in
    elim (Bool-cases (e.0 == other)) [
      | inl f ↦
          let same : e.0 ≡ other = (eq_iff e.0 other).0 f in
          rw f (elim (Bool-cases (other == key)) [
            | inl g ↦ rw g refl
            | inr g ↦ let n = ap (λ s. s == key) same ∙ g in rw (g, n) refl
          ])
      | inr f ↦
          rw (f, rest)
            (elim (Bool-cases (other == key)) [
              | inl g ↦ let n = apart e.0 other key f g in rw (g, n) refl
              | inr g ↦ rw g refl
            ])
    ]

-- A visit within the window.
visit_cases :
    (rl : RateLimiter) (now : ℕ) (v : Visitor)
    → now ≤ v.reset_time
    → ((rl.limit ≤ v.count) × (visit rl now (some v) ≡ (false, v)))
      ⊎ ((v.count < rl.limit) × (visit rl now (some v) ≡ (true, record v { count = suc v.count })))
unfolding visit
visit_cases rl now v h = elim (le_or_lt rl.limit v.count) [
  | inl g ↦ inl (g, ground arith)
  | inr g ↦ inr (g, ground arith)
]

least_none : (n a : ℕ) → 0 + least n a ≡ least (0 + n) a
least_none n a = ground arith

least_full : (n a b : ℕ) → a ≤ b → 0 + least n (a - b) ≡ least (1 + n) (a - b)
least_full n a b h = ground arith

least_room : (n a b : ℕ) → b < a → 1 + least n (a - suc b) ≡ least (1 + n) (a - b)
least_room n a b h = ground arith

-- Within a visitor's window the limiter allows exactly the requests that are left of its limit: of the requests
-- that come, those of other keys among them, it allows as many of the key as there are, or as the limit
-- exceeds the visitor's count if these are fewer.
pub admitted-least :
    (rl : RateLimiter) (key : String) (requests : List Visit) (visitors : Visitors) (v : Visitor)
    → find_visitor key visitors ≡ some v
    → All (λ r. r.0 ≤ v.reset_time) requests
    → admitted rl key requests visitors
      ≡ least (count (λ r. r.1 == key) requests) (rl.limit - v.count)
unfolding admitted allow visit
admitted-least rl key [] visitors v f h = ground arith
admitted-least rl key (r ∷ requests) visitors v f (h, hs) = elim (Bool-cases (r.1 == key)) [
  | inl k ↦
      let same : r.1 ≡ key = (eq_iff r.1 key).0 k in
      let found : find_visitor r.1 visitors ≡ some v = ap (λ s. find_visitor s visitors) same ∙ f in
      elim (visit_cases rl r.0 v h) [
        | inl (full, e) ↦
            let kept = find_visitor-put_visitor key r.1 v visitors in
            let rest =
              admitted-least rl key requests (put_visitor r.1 v visitors) v (rw k at kept) hs in
            rw (found, e, k)
              (rw rest (least_full (count (λ x. x.1 == key) requests) rl.limit v.count full))
        | inr (room, e) ↦
            let w = record v { count = suc v.count } in
            let kept = find_visitor-put_visitor key r.1 w visitors in
            let rest =
              admitted-least rl key requests (put_visitor r.1 w visitors) w (rw k at kept) hs in
            rw (found, e, k)
              (rw rest (least_room (count (λ x. x.1 == key) requests) rl.limit v.count room))
      ]
  | inr k ↦
      let other = (visit rl r.0 (find_visitor r.1 visitors)).1 in
      let kept = find_visitor-put_visitor key r.1 other visitors in
      let g = rw k at kept in
      let rest = admitted-least rl key requests (put_visitor r.1 other visitors) v (g ∙ f) hs in
      rw (k, rest) (least_none (count (λ x. x.1 == key) requests) (rl.limit - v.count))
]
