-- ===== src/TimeOff/Cover.antt =====
-- Which instants the windows of server.go hold.
use appt_remind.Base.{
  ℕ, suc, ◌≤◌, ◌<◌, ◌≡◌, refl, ◌↔◌, ◌⊎◌, inl, inr, List, [], ◌∷◌, arith, All, Any, le_or_lt,
}
use appt_remind.Slots.{Interval}
use appt_remind.TimeOff.{
  TimeOff, clipped, sort_intervals, extend, merge_from, merge, gaps, subtract_clipped,
  subtract_blocks,
}
use appt_remind.TimeOff.Order.{
  Sorted, Sorted-mono, Apart, merge-Apart, gaps-Apart, sort_intervals-Sorted, sort_intervals-All,
}

-- The instant lies in one of the intervals, each with its start and without its end.
abbrev pub Covered : ℕ → List Interval → Type 0
Covered x = Any (λ b. (b.start ≤ x) × (x < b.end))

-- The instant lies in none of them.
abbrev pub Avoided : ℕ → List Interval → Type 0
Avoided x = All (λ b. (x < b.start) ⊎ (b.end ≤ x))

-- No block is on at the instant.
abbrev pub IsWorked : ℕ → List TimeOff → Type 0
IsWorked x = All (λ t. (x < t.start_time) ⊎ (t.end_time ≤ x))

clipped-Avoided :
    (base_start base_end x : ℕ) (blocks : List TimeOff)
    → base_start ≤ x
    → x < base_end
    → Avoided x (clipped base_start base_end blocks) ↔ IsWorked x blocks
unfolding clipped
clipped-Avoided base_start base_end x [] h k = (λ _. tt, λ _. tt)
clipped-Avoided base_start base_end x (t ∷ blocks) h k =
    ground (arith, clipped-Avoided base_start base_end x blocks h k)

-- A clipped block is not empty and lies in the base.
abbrev IsWithin : ℕ → ℕ → Interval → Type 0
IsWithin base_start base_end b = (base_start ≤ b.start) × (b.start < b.end) × (b.end ≤ base_end)

clipped-IsWithin :
    (base_start base_end : ℕ) (blocks : List TimeOff)
    → base_start < base_end
    → All (IsWithin base_start base_end) (clipped base_start base_end blocks)
unfolding clipped
clipped-IsWithin base_start base_end [] h = tt
clipped-IsWithin base_start base_end (t ∷ blocks) h =
    ground (arith, clipped-IsWithin base_start base_end blocks h)

merge_from-Avoided :
    (x : ℕ) (last : Interval) (rest : List Interval)
    → Sorted last.start rest
    → Avoided x (merge_from last rest) ↔ Avoided x (last ∷ rest)
unfolding merge_from
merge_from-Avoided x last [] s = (λ h. h, λ h. h)
merge_from-Avoided x last (cur ∷ rest) s = ground (
  arith,
  merge_from-Avoided x cur rest s.1,
  merge_from-Avoided x (extend last cur) rest (Sorted-mono rest s.0 s.1),
)

merge-Avoided : (x : ℕ) (xs : List Interval) → Sorted 0 xs → Avoided x (merge xs) ↔ Avoided x xs
unfolding merge
merge-Avoided x [] s = (λ h. h, λ h. h)
merge-Avoided x (b ∷ bs) s = merge_from-Avoided x b bs s.1

merge_from_bounded :
    (high : ℕ) (last : Interval) (rest : List Interval)
    → All (λ b. b.end ≤ high) (last ∷ rest)
    → All (λ b. b.end ≤ high) (merge_from last rest)
unfolding merge_from
merge_from_bounded high last [] h = h
merge_from_bounded high last (cur ∷ rest) h =
    ground (arith, merge_from_bounded high cur rest, merge_from_bounded high (extend last cur) rest)

merge_bounded :
    (high : ℕ) (xs : List Interval)
    → All (λ b. b.end ≤ high) xs
    → All (λ b. b.end ≤ high) (merge xs)
unfolding merge
merge_bounded high [] h = tt
merge_bounded high (b ∷ bs) h = merge_from_bounded high b bs h

Apart-Avoided : (x low : ℕ) (merged : List Interval) → x < low → Apart low merged → Avoided x merged
Apart-Avoided x low [] h a = tt
Apart-Avoided x low (m ∷ merged) h a =
    (inl (omega arith), Apart-Avoided x (suc m.end) merged (omega arith) a.2)

gaps-Covered :
    (cursor base_end x low : ℕ) (merged : List Interval)
    → Apart low merged
    → All (λ b. b.end ≤ base_end) merged
    → Covered x (gaps cursor base_end merged) ↔ ((cursor ≤ x) × (x < base_end) × Avoided x merged)
unfolding gaps
gaps-Covered cursor base_end x low [] a h = ground arith
gaps-Covered cursor base_end x low (m ∷ merged) a h = ground (
  arith,
  gaps-Covered m.end base_end x (suc m.end) merged a.2 h.1,
  gaps-Covered cursor base_end x (suc m.end) merged a.2 h.1,
  Apart-Avoided x (suc m.end) merged,
)

All-map :
    {P Q : Interval → Type 0} (f : (b : Interval) → P b → Q b) (xs : List Interval)
    → All P xs
    → All Q xs
All-map f [] h = tt
All-map f (x ∷ xs) h = (f x h.0, All-map f xs h.1)

subtract_clipped-gaps :
    (base_start base_end : ℕ) (cs : List Interval)
    → base_start < base_end
    → subtract_clipped base_start base_end cs ≡ gaps base_start base_end (merge (sort_intervals cs))
subtract_clipped-gaps base_start base_end [] h = unfold subtract_clipped in ground arith
subtract_clipped-gaps base_start base_end (c ∷ cs) h = unfold subtract_clipped in refl

-- The merged blocks of a base that is not empty.
module _ (base_start base_end : ℕ) (blocks : List TimeOff) (open_base : base_start < base_end) where
  abbrev busy : List Interval
  busy = clipped base_start base_end blocks

  sort_intervals-IsWithin : All (IsWithin base_start base_end) (sort_intervals busy)
  sort_intervals-IsWithin =
      (sort_intervals-All (IsWithin base_start base_end) busy).1
        (clipped-IsWithin base_start base_end blocks open_base)

  sorted : Sorted 0 (sort_intervals busy)
  sorted =
      sort_intervals-Sorted base_end busy
        (All-map (λ b h. omega arith) busy (clipped-IsWithin base_start base_end blocks open_base))

  merged-Apart : Apart 0 (merge (sort_intervals busy))
  merged-Apart =
      merge-Apart (sort_intervals busy) sorted (All-map (λ b h. h.1) _ sort_intervals-IsWithin)

  subtract_blocks-gaps :
      subtract_blocks base_start base_end blocks
      ≡ gaps base_start base_end (merge (sort_intervals busy))
  unfolding subtract_blocks
  subtract_blocks-gaps = ground (arith, subtract_clipped-gaps base_start base_end busy open_base)

  gaps-busy :
      (x : ℕ)
      → Covered x (subtract_blocks base_start base_end blocks)
        ↔ ((base_start ≤ x) × (x < base_end) × Avoided x busy)
  gaps-busy x = rw subtract_blocks-gaps (
      ground (
        arith,
        gaps-Covered base_start base_end x 0 _ merged-Apart
            (merge_bounded base_end _ (All-map (λ b h. h.2) _ sort_intervals-IsWithin)),
        merge-Avoided x (sort_intervals busy) sorted,
        sort_intervals-All (λ b. (x < b.start) ⊎ (b.end ≤ x)) busy,
      ))

-- The windows hold exactly the instants of the base at which no block is on, in whatever order
-- the blocks come and however they overlap.
pub subtract_blocks-Covered :
    (base_start base_end : ℕ) (blocks : List TimeOff) (x : ℕ)
    → Covered x (subtract_blocks base_start base_end blocks)
      ↔ ((base_start ≤ x) × (x < base_end) × IsWorked x blocks)
subtract_blocks-Covered base_start base_end blocks x = elim (le_or_lt base_end base_start) [
  | inl h ↦ unfold subtract_blocks in ground arith
  | inr h ↦ ground (
    arith,
    gaps-busy base_start base_end blocks h x,
    clipped-Avoided base_start base_end x blocks,
  )
]

-- The windows come in order of time, none is empty, and two of them never touch.
pub subtract_blocks-Apart :
    (base_start base_end : ℕ) (blocks : List TimeOff)
    → Apart base_start (subtract_blocks base_start base_end blocks)
subtract_blocks-Apart base_start base_end blocks = elim (le_or_lt base_end base_start) [
  | inl h ↦ unfold subtract_blocks in ground arith
  | inr h ↦
      rw (subtract_blocks-gaps base_start base_end blocks h)
        (gaps-Apart base_start base_end 0 _ (merged-Apart base_start base_end blocks h))
]
