-- ===== src/Slots.antt =====
-- services/booking-service/internal/availability/slots.go: the grid of free start times.
-- An instant is the number of nanoseconds since Go's zero time; a `time.Duration` is an integer.
pub mod Exact
mod Tests
use appt_remind.Base.{
  ℕ, zero, suc, ◌+◌, ◌-◌, Bool, true, false, ◌&&◌, ◌||◌, List, [], ◌∷◌, ltb, if◌then◌else◌,
}
use appt_remind.Base.Int.{ℤ, pos_part, is_nonpos}

pub record Interval : Type 0 where
  pub start : ℕ
  pub end : ℕ

-- The loop of `overlapsAny`, whose body returns at the first interval that overlaps.
pub overlaps_any : ℕ → ℕ → List Interval → Bool
overlaps_any start end [] = false
overlaps_any start end (b ∷ busy) =
    if ltb start b.end && ltb b.start end then true else overlaps_any start end busy

-- One round of the loop at `t`, given what the rounds after it add.
pub slots_round : ℕ → ℕ → ℕ → List Interval → ℕ → List ℕ → List ℕ
unfolding overlaps_any
slots_round t window_end duration busy now rest =
    if ltb window_end (t + duration)
    then []
    else (if ltb t now
        then rest
        else (if overlaps_any t (t + duration) busy then rest else t ∷ rest))

-- `for t := windowStart; !t.Add(duration).After(windowEnd); t = t.Add(step)`.
pub slots_loop : ℕ → ℕ → ℕ → ℕ → ℕ → List Interval → ℕ → List ℕ
unfolding slots_round
slots_loop zero t window_end duration step busy now = []
slots_loop (suc fuel) t window_end duration step busy now =
    slots_round t window_end duration busy now
      (slots_loop fuel (t + step) window_end duration step busy now)

-- A step is at least 1, so the window's length bounds the number of rounds.
pub available_slots : ℕ → ℕ → ℤ → ℤ → List Interval → ℕ → List ℕ
unfolding slots_loop
available_slots window_start window_end duration step busy now =
    if is_nonpos duration || is_nonpos step
    then []
    else (if ltb window_start window_end
        then (if ltb window_end (window_start + pos_part duration)
            then []
            else slots_loop (suc (window_end - window_start)) window_start window_end
                (pos_part duration) (pos_part step) busy now)
        else [])
