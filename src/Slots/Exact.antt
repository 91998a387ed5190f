-- ===== src/Slots/Exact.antt =====
-- The grid of slots.go against its description: which start times it offers.
use appt_remind.Base.{
  ℕ, zero, suc, ◌+◌, ◌-◌, ◌*◌, ◌≤◌, ◌<◌, ◌≡◌, refl, subst, ◌⊎◌, inl, inr, ◌↔◌, false, List, [], ◌∷◌,
  arith, le_or_lt, All, Any,
}
use appt_remind.Base.Int.{ℤ, pos, negsuc, pos_part}
use appt_remind.Slots.{Interval, overlaps_any, slots_round, slots_loop, available_slots}

-- [start, end) meets no busy interval.
abbrev pub IsFree : ℕ → ℕ → List Interval → Type 0
IsFree start end busy = All (λ b. (b.end ≤ start) ⊎ (end ≤ b.start)) busy

pub overlaps_any-IsFree :
    (start end : ℕ) (busy : List Interval)
    → (overlaps_any start end busy ≡ false) ↔ IsFree start end busy
unfolding overlaps_any
overlaps_any-IsFree start end [] = (λ _. tt, λ _. refl)
overlaps_any-IsFree start end (b ∷ busy) = ground (arith, overlaps_any-IsFree start end busy)

-- `t` is one of the slots.
abbrev pub Offered : ℕ → List ℕ → Type 0
Offered t = Any (λ s. s ≡ t)

-- `t` is on the grid that begins at `first`, fits into the window, is not past and is free.
pub record IsSlot (first window_end duration step : ℕ) (busy : List Interval) (now t : ℕ)
    : Type 0 where
  pub round : ℕ
  pub on_grid : t ≡ first + round * step
  pub fits : t + duration ≤ window_end
  pub not_past : now ≤ t
  pub free : IsFree t (t + duration) busy

module _ (first window_end duration step : ℕ) (busy : List Interval) (now t : ℕ) where
  -- What is on the grid from the second start time on.
  IsSlot-next :
      IsSlot (first + step) window_end duration step busy now t
      → IsSlot first window_end duration step busy now t
  IsSlot-next s = record {
    round = suc s.round;
    on_grid = omega (arith, s.on_grid);
    fits = s.fits;
    not_past = s.not_past;
    free = s.free;
  }

slots_round-Offered :
    (first window_end duration : ℕ) (busy : List Interval) (now t : ℕ) (rest : List ℕ)
    → Offered t (slots_round first window_end duration busy now rest) ↔ (
        (first + duration ≤ window_end)
        × ((now ≤ first) × IsFree first (first + duration) busy × (first ≡ t) ⊎ Offered t rest))
unfolding slots_round
slots_round-Offered first window_end duration busy now t rest =
    ground (arith, overlaps_any-IsFree first (first + duration) busy)

slots_loop_sound :
    (fuel first window_end duration step : ℕ) (busy : List Interval) (now t : ℕ)
    → Offered t (slots_loop fuel first window_end duration step busy now)
    → IsSlot first window_end duration step busy now t
unfolding slots_loop
slots_loop_sound zero first window_end duration step busy now t h = absurd h
slots_loop_sound (suc fuel) first window_end duration step busy now t h =
    let r = (slots_round-Offered first window_end duration busy now t _).0 h in
    elim r.1 [
      | inl (late, free, e) ↦ record {
        round = 0;
        on_grid = omega arith;
        fits = omega (arith, r.0);
        not_past = omega arith;
        free = subst (λ s. IsFree s (s + duration) busy) e free;
      }
      | inr later ↦
          IsSlot-next first window_end duration step busy now t
            (slots_loop_sound fuel (first + step) window_end duration step busy now t later)
    ]

slots_loop_complete :
    (fuel first window_end duration step : ℕ) (busy : List Interval) (now t : ℕ) (round : ℕ)
    → 0 < step
    → window_end < first + fuel
    → t ≡ first + round * step
    → t + duration ≤ window_end
    → now ≤ t
    → IsFree t (t + duration) busy
    → Offered t (slots_loop fuel first window_end duration step busy now)
unfolding slots_loop
slots_loop_complete zero first window_end duration step busy now t round h f e fits late free =
    absurd (omega arith)
slots_loop_complete (suc fuel) first window_end duration step busy now t zero h f e fits late free =
    (slots_round-Offered first window_end duration busy now t _).1 (
      omega arith,
      inl (omega arith, subst (λ s. IsFree s (s + duration) busy) (omega arith) free, omega arith),
    )
slots_loop_complete (suc fuel) first window_end duration step busy now t (suc round) h f e fits late
      free =
    (slots_round-Offered first window_end duration busy now t _).1 (
      omega arith,
      inr (
          slots_loop_complete fuel (first + step) window_end duration step busy now t round h
            (omega arith) (omega arith) fits late free),
    )

available_slots_open :
    (window_start window_end duration step : ℕ) (busy : List Interval) (now : ℕ)
    → 0 < duration
    → 0 < step
    → window_start + duration ≤ window_end
    → available_slots window_start window_end (pos duration) (pos step) busy now
      ≡ slots_loop (suc (window_end - window_start)) window_start window_end duration step busy now
unfolding available_slots
available_slots_open window_start window_end duration step busy now d s h = ground arith

available_slots_shut :
    (window_start window_end : ℕ) (duration step : ℤ) (busy : List Interval) (now : ℕ)
    → window_end < window_start + pos_part duration
    → available_slots window_start window_end duration step busy now ≡ []
unfolding available_slots
available_slots_shut window_start window_end duration step busy now h = ground arith

-- For a positive duration and step, exactly the start times on the grid are offered that fit the
-- window, are not past, and leave every busy interval alone.
pub available_slots-exact :
    (window_start window_end duration step : ℕ) (busy : List Interval) (now t : ℕ)
    → 0 < duration
    → 0 < step
    → Offered t (available_slots window_start window_end (pos duration) (pos step) busy now)
      ↔ IsSlot window_start window_end duration step busy now t
available_slots-exact window_start window_end duration step busy now t d s =
    elim (le_or_lt (window_start + duration) window_end) [
      | inl h ↦ rw (available_slots_open window_start window_end duration step busy now d s h) (
        slots_loop_sound _ window_start window_end duration step busy now t,
        λ x.
            slots_loop_complete _ window_start window_end duration step busy now t x.round s
              (omega arith) x.on_grid x.fits x.not_past x.free,
      )
      | inr h ↦
          rw (available_slots_shut window_start window_end (pos duration) (pos step) busy now h)
            (λ x. absurd x, λ x. absurd (omega (arith, x.on_grid, x.fits)))
    ]

-- A list of start times that only grow, each at least `low`.
abbrev pub Ascends : ℕ → List ℕ → Type 0
Ascends low [] = Unit {0}
Ascends low (s ∷ rest) = (low ≤ s) × Ascends (suc s) rest

Ascends-mono : {low high : ℕ} (slots : List ℕ) → low ≤ high → Ascends high slots → Ascends low slots
Ascends-mono [] h a = tt
Ascends-mono (s ∷ rest) h a = (omega arith, a.1)

slots_loop-Ascends :
    (fuel first window_end duration step : ℕ) (busy : List Interval) (now : ℕ)
    → 0 < step
    → Ascends first (slots_loop fuel first window_end duration step busy now)
unfolding slots_loop slots_round
slots_loop-Ascends zero first window_end duration step busy now h = tt
slots_loop-Ascends (suc fuel) first window_end duration step busy now h =
    let rest = slots_loop fuel (first + step) window_end duration step busy now in
    let ih = slots_loop-Ascends fuel (first + step) window_end duration step busy now h in
    ground (
      arith,
      ih,
      Ascends-mono {low = first} {high = first + step} rest,
      Ascends-mono {low = suc first} {high = first + step} rest,
    )

-- The slots come in order of time, no start time twice, none before the window.
pub available_slots-Ascends :
    (window_start window_end : ℕ) (duration step : ℤ) (busy : List Interval) (now : ℕ)
    → Ascends window_start (available_slots window_start window_end duration step busy now)
unfolding available_slots
available_slots-Ascends window_start window_end duration (pos step) busy now = ground (
  arith,
  slots_loop-Ascends (suc (window_end - window_start)) window_start window_end (pos_part duration)
      step busy now,
)
available_slots-Ascends window_start window_end duration (negsuc step) busy now = ground arith
