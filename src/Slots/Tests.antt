-- ===== src/Slots/Tests.antt =====
-- Runs of slots.go's grid.
use appt_remind.Base.{◌≡◌, refl, ◌↔◌, List, [], ◌∷◌, arith}
use appt_remind.Base.Int.{pos}
use appt_remind.Slots.{Interval, available_slots}
use appt_remind.Slots.Exact.{
  Offered, IsSlot, Ascends, available_slots-exact, available_slots-Ascends,
}

-- One appointment from 20 to 30.
abbrev one_busy : List Interval
one_busy = record { start = 20; end = 30 } ∷ []

offered_times : available_slots 0 60 (pos 10) (pos 10) one_busy 5 ≡ 10 ∷ 30 ∷ 40 ∷ 50 ∷ []
unfolding available_slots
offered_times = refl

available_slots-exact_example :
    Offered 30 (available_slots 0 60 (pos 10) (pos 10) one_busy 5) ↔ IsSlot 0 60 10 10 one_busy 5 30
available_slots-exact_example =
    available_slots-exact 0 60 10 10 one_busy 5 30 (omega arith) (omega arith)

available_slots-Ascends_example : Ascends 0 (available_slots 0 60 (pos 10) (pos 10) one_busy 5)
available_slots-Ascends_example = available_slots-Ascends 0 60 (pos 10) (pos 10) one_busy 5
