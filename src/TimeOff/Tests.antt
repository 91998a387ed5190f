-- ===== src/TimeOff/Tests.antt =====
-- Runs of the subtraction of time off.
use appt_remind.Base.{◌≤◌, ◌<◌, ◌≡◌, refl, ◌↔◌, List, [], ◌∷◌}
use appt_remind.TimeOff.{TimeOff, subtract_blocks}
use appt_remind.TimeOff.Order.{Apart}
use appt_remind.TimeOff.Cover.{Covered, IsWorked, subtract_blocks-Covered, subtract_blocks-Apart}

-- Blocks out of order, two of which overlap.
abbrev three_blocks : List TimeOff
three_blocks =
    record { staff_id = "s"; start_time = 50; end_time = 70 }
    ∷ record { staff_id = "s"; start_time = 5; end_time = 20 }
    ∷ record { staff_id = "s"; start_time = 60; end_time = 80 }
    ∷ []

left_over :
    subtract_blocks 10 100 three_blocks
    ≡ record { start = 20; end = 50 } ∷ record { start = 80; end = 100 } ∷ []
unfolding subtract_blocks
left_over = refl

subtract_blocks-Covered_example :
    Covered 30 (subtract_blocks 10 100 three_blocks)
    ↔ ((10 ≤ 30) × (30 < 100) × IsWorked 30 three_blocks)
subtract_blocks-Covered_example = subtract_blocks-Covered 10 100 three_blocks 30

subtract_blocks-Apart_example : Apart 10 (subtract_blocks 10 100 three_blocks)
subtract_blocks-Apart_example = subtract_blocks-Apart 10 100 three_blocks
