-- ===== src/TimeOff.antt =====
-- services/business-service/internal/grpcserver/server.go: working hours less time-off blocks.
-- An instant is the number of nanoseconds since Go's zero time.
pub mod Order
pub mod Cover
mod Tests
use mathlib.Core.List.{reverse}
use appt_remind.Base.{
  ℕ, Bool, true, false, not, ◌&&◌, ◌||◌, List, [], ◌∷◌, String, ltb, eqb, if◌then◌else◌,
}
use appt_remind.Slots.{Interval}

-- storage.TimeOff, with the fields that the queries and the subtraction read.
pub record TimeOff : Type 0 where
  pub staff_id : String
  pub start_time : ℕ
  pub end_time : ℕ

-- `s` and `e` after the two clipping assignments.
pub clip : ℕ → ℕ → TimeOff → Interval
clip base_start base_end t = record {
  start = if ltb t.start_time base_start then base_start else t.start_time;
  end = if ltb base_end t.end_time then base_end else t.end_time;
}

-- The loop that clips the blocks and keeps what is not empty.
pub clipped : ℕ → ℕ → List TimeOff → List Interval
unfolding clip
clipped base_start base_end [] = []
clipped base_start base_end (t ∷ blocks) =
    let rest = clipped base_start base_end blocks in
    let c = clip base_start base_end t in
    if ltb t.end_time base_start || not (ltb t.start_time base_end)
    then rest
    else (if ltb c.start c.end then c ∷ rest else rest)

-- The order of `sortIntervals`: by start, then by end.
pub before : Interval → Interval → Bool
before a b = ltb a.start b.start || (eqb a.start b.start && ltb a.end b.end)

-- The inner loop: `cur` moves left past the larger entries. The sorted prefix is held last first.
pub sift : Interval → List Interval → List Interval
unfolding before
sift cur [] = cur ∷ []
sift cur (p ∷ prefix) =
    let rest = sift cur prefix in if before cur p then p ∷ rest else cur ∷ p ∷ prefix

pub sort_loop : List Interval → List Interval → List Interval
unfolding sift
sort_loop prefix [] = reverse prefix
sort_loop prefix (cur ∷ rest) = sort_loop (sift cur prefix) rest

pub sort_intervals : List Interval → List Interval
unfolding sort_loop
sort_intervals xs = sort_loop [] xs

-- `if cur.End.After(last.End) { last.End = cur.End }`.
pub extend : Interval → Interval → Interval
extend last cur = record last { end = if ltb last.end cur.end then cur.end else last.end }

-- The merge loop, with `last` the final entry of `merged`. An interval that touches is joined.
pub merge_from : Interval → List Interval → List Interval
unfolding extend
merge_from last [] = last ∷ []
merge_from last (cur ∷ rest) =
    let apart = merge_from cur rest in
    let joined = merge_from (extend last cur) rest in
    if ltb last.end cur.start then last ∷ apart else joined

pub merge : List Interval → List Interval
unfolding merge_from
merge [] = []
merge (first ∷ rest) = merge_from first rest

-- What is left of the base from `cursor` on.
pub gaps : ℕ → ℕ → List Interval → List Interval
gaps cursor base_end [] =
    if ltb cursor base_end then record { start = cursor; end = base_end } ∷ [] else []
gaps cursor base_end (m ∷ merged) =
    let rest = gaps (if ltb cursor m.end then m.end else cursor) base_end merged in
    if ltb cursor m.start then record { start = cursor; end = m.start } ∷ rest else rest

-- `if len(b) == 0 { return []interval{{baseStart, baseEnd}} }`, and the rest of the function.
pub subtract_clipped : ℕ → ℕ → List Interval → List Interval
unfolding sort_intervals merge gaps
subtract_clipped base_start base_end [] = record { start = base_start; end = base_end } ∷ []
subtract_clipped base_start base_end (c ∷ cs) =
    gaps base_start base_end (merge (sort_intervals (c ∷ cs)))

pub subtract_blocks : ℕ → ℕ → List TimeOff → List Interval
unfolding clipped subtract_clipped
subtract_blocks base_start base_end blocks =
    if ltb base_start base_end
    then subtract_clipped base_start base_end (clipped base_start base_end blocks)
    else []
