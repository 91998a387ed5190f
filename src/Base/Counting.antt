-- ===== src/Base/Counting.antt =====
-- How `take`, `filter` and `All` go with `count`.
use Prim.Native.Nat.{ℕ, zero, suc, ◌≤◌}
use mathlib.Core.Path.{◌≡◌, refl, ap}
use mathlib.Core.Bool.{Bool, true}
use mathlib.Core.List.{List, [], ◌∷◌}
use native.Mathlib.Omega.{arith}
use appt_remind.Base.Lists.{take, filter, count, All}

module _ {ℓ} {A : Type ℓ} where
  pub take-count : (n : ℕ) (xs : List A) → count (λ _. true) xs ≤ n → take n xs ≡ xs
  take-count zero [] h = refl
  take-count zero (x ∷ xs) h = ground arith
  take-count (suc n) [] h = refl
  take-count (suc n) (x ∷ xs) h = ap (λ rest. x ∷ rest) (take-count n xs (omega arith))

  pub count-filter : (p : A → Bool) (xs : List A) → count (λ _. true) (filter p xs) ≡ count p xs
  count-filter p [] = refl
  count-filter p (x ∷ xs) = let rest = count-filter p xs in ground arith

  pub All-both :
      {P Q R : A → Type 0}
      → ((x : A) → P x → Q x → R x)
      → (xs : List A) → All P xs
      → All Q xs
      → All R xs
  All-both f [] p q = tt
  All-both f (x ∷ xs) p q = (f x p.0 q.0, All-both f xs p.1 q.1)
