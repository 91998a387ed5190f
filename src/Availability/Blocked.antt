-- ===== src/Availability/Blocked.antt =====
-- From the business service's response to the windows that booking uses.
use appt_remind.Base.{
  ℕ, suc, ◌≤◌, ◌<◌, ◌≡◌, refl, sym, ◌∙◌, ◌↔◌, inl, inr, true, some, List, [], ◌∷◌, map, arith,
  subst, List-cases,
}
use appt_remind.Slots.{Interval}
use appt_remind.TimeOff.{TimeOff, subtract_blocks}
use appt_remind.TimeOff.Order.{Apart}
use appt_remind.TimeOff.Cover.{Covered, IsWorked, subtract_blocks-Covered, subtract_blocks-Apart}
use appt_remind.Schedule.Store.{Repository, list_time_off}
use appt_remind.Schedule.{
  Calendar, ConfigRequest, ConfigResponse, to_wire, with_blocks, get_availability_config, prepared,
}
use appt_remind.Schedule.Windows.{IsWorkday, get_availability_config-workday}
use appt_remind.Availability.{decode_windows, decode_config, nonempty_windows, windows_from_config}

decode_windows-to_wire :
    (low : ℕ) (ws : List Interval) → Apart low ws → decode_windows (map to_wire ws) ≡ ws
unfolding decode_windows to_wire
decode_windows-to_wire low [] a = refl
decode_windows-to_wire low (w ∷ ws) a = ground (arith, decode_windows-to_wire (suc w.end) ws a.2)

nonempty_windows-Apart : (low : ℕ) (ws : List Interval) → Apart low ws → nonempty_windows ws ≡ ws
unfolding nonempty_windows
nonempty_windows-Apart low [] a = refl
nonempty_windows-Apart low (w ∷ ws) a = ground (arith, nonempty_windows-Apart (suc w.end) ws a.2)

-- The windows that booking draws from a response with these blocks.
abbrev pub drawn : ConfigResponse → ℕ → ℕ → List TimeOff → List Interval
drawn resp start end blocks =
    windows_from_config (decode_config (with_blocks resp start end (some blocks)))

drawn_whole :
    (resp : ConfigResponse) (start end : ℕ) (blocks : List TimeOff)
    → 0 < start
    → start < end
    → subtract_blocks start end blocks ≡ []
    → drawn resp start end blocks ≡ record { start = start; end = end } ∷ []
unfolding windows_from_config decode_config with_blocks
drawn_whole resp start end blocks p h e = rw e (ground arith)

drawn_rest :
    (resp : ConfigResponse) (start end : ℕ) (blocks : List TimeOff) (w : Interval)
    (ws : List Interval)
    → subtract_blocks start end blocks ≡ w ∷ ws
    → drawn resp start end blocks ≡ w ∷ ws
unfolding windows_from_config decode_config with_blocks
drawn_rest resp start end blocks w ws e =
    let apart : Apart start (w ∷ ws) =
      subst (Apart start) e (subtract_blocks-Apart start end blocks) in
    rw (e, decode_windows-to_wire start (w ∷ ws) apart)
      (nonempty_windows-Apart start (w ∷ ws) apart)

-- A list of windows that lie apart and hold no instant is empty.
Apart-nil : (low : ℕ) (ws : List Interval) → Apart low ws → ((x : ℕ) → ¬ Covered x ws) → ws ≡ []
Apart-nil low [] a h = refl
Apart-nil low (w ∷ ws) a h = absurd (h w.start (inl (omega arith)))

module _ (cal : Calendar) (r : Repository) (req : ConfigRequest) (start end : ℕ)
    (blocks : List TimeOff) (later : 0 < start) (workday : IsWorkday cal r req start end)
    (off : list_time_off r req.business_id req.staff_id start end 500 ≡ some blocks) where
  -- On a working day whose time-off query succeeds, once the staff member works at some instant of
  -- the working hours, the windows that booking draws from
  -- the response hold exactly the instants of the working hours at which no block is on.
  pub windows_from_config-Covered :
      (now x : ℕ)
      → start ≤ now
      → now < end
      → IsWorked now blocks
      → Covered x (windows_from_config (decode_config (get_availability_config cal (some r) req)))
        ↔ ((start ≤ x) × (x < end) × IsWorked x blocks)
  windows_from_config-Covered now x a b free =
      rw (get_availability_config-workday cal r req start end workday, off)
        (elim (List-cases (subtract_blocks start end blocks)) [
          | inl e ↦ absurd (
              subst (Covered now) e ((subtract_blocks-Covered start end blocks now).1 (a, b, free)))
          | inr (w, ws, e) ↦
              rw (drawn_rest (prepared cal r req) start end blocks w ws e ∙ sym e)
                (subtract_blocks-Covered start end blocks x)
        ])

  -- On a working day whose time-off query succeeds, when the blocks leave no instant of the working
  -- hours, the response still says that the day is
  -- worked, and booking draws the whole working hours as one window.
  pub windows_from_config_blocked :
      ((x : ℕ) → start ≤ x → x < end → ¬ IsWorked x blocks)
      → let cfg = decode_config (get_availability_config cal (some r) req) in
        (cfg.is_working ≡ true)
        × (windows_from_config cfg ≡ record { start = start; end = end } ∷ [])
  windows_from_config_blocked none_free =
      rw (get_availability_config-workday cal r req start end workday, off)
        (
          unfold decode_config with_blocks prepared in refl,
          drawn_whole (prepared cal r req) start end blocks later workday.forward (
              Apart-nil start _ (subtract_blocks-Apart start end blocks) λ x c.
                let f = (subtract_blocks-Covered start end blocks x).0 c in
                none_free x f.0 f.1 f.2),
        )
