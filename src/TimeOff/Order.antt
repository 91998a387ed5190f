-- ===== src/TimeOff/Order.antt =====
-- The sorted and merged lists of server.go are in order.
use mathlib.Core.List.{reverse, reverse-cons, append-nil, append_assoc}
use appt_remind.Base.{ℕ, suc, ◌≤◌, ◌<◌, subst, ◌↔◌, List, [], ◌∷◌, ◌++◌, arith, All, All-reverse}
use appt_remind.Slots.{Interval}
use appt_remind.TimeOff.{before, sift, sort_loop, sort_intervals, extend, merge_from, merge, gaps}

-- Sorted by start, the first at `low` or later.
abbrev pub Sorted : ℕ → List Interval → Type 0
Sorted low [] = Unit {0}
Sorted low (b ∷ bs) = (low ≤ b.start) × Sorted b.start bs

-- The reverse: each start is at most `high`, and they fall along the list.
abbrev pub Falls : ℕ → List Interval → Type 0
Falls high [] = Unit {0}
Falls high (b ∷ bs) = (b.start ≤ high) × Falls b.start bs

Falls-mono : {low high : ℕ} (bs : List Interval) → low ≤ high → Falls low bs → Falls high bs
Falls-mono [] h f = tt
Falls-mono (b ∷ bs) h f = (omega arith, f.1)

sift-Falls :
    (cur : Interval) (high : ℕ) (prefix : List Interval)
    → cur.start ≤ high
    → Falls high prefix
    → Falls high (sift cur prefix)
unfolding sift before
sift-Falls cur high [] h f = (h, tt)
sift-Falls cur high (p ∷ prefix) h f = ground (arith, sift-Falls cur p.start prefix)

pub Sorted-mono : {low high : ℕ} (bs : List Interval) → low ≤ high → Sorted high bs → Sorted low bs
Sorted-mono [] h s = tt
Sorted-mono (b ∷ bs) h s = (omega arith, s.1)

-- A falling prefix turned round in front of a sorted list.
reverse-Sorted :
    (high : ℕ) (prefix rest : List Interval)
    → Falls high prefix
    → Sorted high rest
    → Sorted 0 (reverse prefix ++ rest)
reverse-Sorted high [] rest f s = Sorted-mono rest (omega arith) s
reverse-Sorted high (b ∷ bs) rest f s =
    rw (reverse-cons b bs, append_assoc)
      (reverse-Sorted b.start bs (b ∷ rest) f.1 (omega arith, Sorted-mono rest f.0 s))

sort_loop-Sorted :
    (high : ℕ) (prefix xs : List Interval)
    → Falls high prefix
    → All (λ b. b.start ≤ high) xs
    → Sorted 0 (sort_loop prefix xs)
unfolding sort_loop
sort_loop-Sorted high prefix [] f h =
    subst (Sorted 0) (append-nil (reverse prefix)) (reverse-Sorted high prefix [] f tt)
sort_loop-Sorted high prefix (cur ∷ rest) f h =
    sort_loop-Sorted high (sift cur prefix) rest (sift-Falls cur high prefix h.0 f) h.1

pub sort_intervals-Sorted :
    (high : ℕ) (xs : List Interval) → All (λ b. b.start ≤ high) xs → Sorted 0 (sort_intervals xs)
unfolding sort_intervals
sort_intervals-Sorted high xs h = sort_loop-Sorted high [] xs tt h

-- Sorting neither adds nor loses an interval.
sift-All :
    (P : Interval → Type 0) (cur : Interval) (prefix : List Interval)
    → All P (sift cur prefix) ↔ (P cur × All P prefix)
unfolding sift
sift-All P cur [] = (λ h. h, λ h. h)
sift-All P cur (p ∷ prefix) = ground (arith, sift-All P cur prefix)

sort_loop-All :
    (P : Interval → Type 0) (prefix xs : List Interval)
    → All P (sort_loop prefix xs) ↔ (All P prefix × All P xs)
unfolding sort_loop
sort_loop-All P prefix [] = ground (arith, All-reverse P prefix)
sort_loop-All P prefix (cur ∷ rest) =
    ground (arith, sort_loop-All P (sift cur prefix) rest, sift-All P cur prefix)

pub sort_intervals-All :
    (P : Interval → Type 0) (xs : List Interval) → All P (sort_intervals xs) ↔ All P xs
unfolding sort_intervals
sort_intervals-All P xs = ground (arith, sort_loop-All P [] xs)

-- A merged list: each interval is not empty, and ends before the next begins.
abbrev pub Apart : ℕ → List Interval → Type 0
Apart low [] = Unit {0}
Apart low (b ∷ bs) = (low ≤ b.start) × (b.start < b.end) × Apart (suc b.end) bs

Apart-mono : {low high : ℕ} (bs : List Interval) → low ≤ high → Apart high bs → Apart low bs
Apart-mono [] h a = tt
Apart-mono (b ∷ bs) h a = (omega arith, a.1, a.2)

merge_from-Apart :
    (last : Interval) (rest : List Interval)
    → last.start < last.end
    → Sorted last.start rest
    → All (λ b. b.start < b.end) rest
    → Apart last.start (merge_from last rest)
unfolding merge_from
merge_from-Apart last [] n s h = (omega arith, n, tt)
merge_from-Apart last (cur ∷ rest) n s h = ground (
  arith,
  merge_from-Apart cur rest h.0 s.1 h.1,
  merge_from-Apart (extend last cur) rest,
  Apart-mono {low = suc last.end} {high = cur.start} (merge_from cur rest),
  Sorted-mono {low = last.start} {high = cur.start} rest s.0 s.1,
)

pub merge-Apart :
    (xs : List Interval) → Sorted 0 xs → All (λ b. b.start < b.end) xs → Apart 0 (merge xs)
unfolding merge
merge-Apart [] s h = tt
merge-Apart (b ∷ bs) s h =
    Apart-mono (merge_from b bs) (omega arith) (merge_from-Apart b bs h.0 s.1 h.1)

-- The gaps lie apart, from `cursor` on.
pub gaps-Apart :
    (cursor base_end low : ℕ) (merged : List Interval)
    → Apart low merged
    → Apart cursor (gaps cursor base_end merged)
unfolding gaps
gaps-Apart cursor base_end low [] a = ground arith
gaps-Apart cursor base_end low (m ∷ merged) a = ground (
  arith,
  gaps-Apart m.end base_end (suc m.end) merged a.2,
  gaps-Apart cursor base_end (suc m.end) merged a.2,
  Apart-mono {low = cursor} {high = m.end} (gaps m.end base_end merged),
  Apart-mono {low = suc m.start} {high = m.end} (gaps m.end base_end merged),
)
