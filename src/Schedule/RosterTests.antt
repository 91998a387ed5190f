-- ===== src/Schedule/RosterTests.antt =====
-- Runs of the schedule handlers.
use appt_remind.Base.{
  eqb, ◌&&◌, ◌==◌, if◌then◌else◌, ◌≡◌, refl, false, true, some, [], ◌∷◌, arith, All,
}
use appt_remind.Base.Int.{pos}
use appt_remind.Base.Text.{trim_space, is_empty}
use appt_remind.Schedule.Store.{WorkingHours, employs, get_working_hours}
use appt_remind.Schedule.Admin.{AdminEnv, Book, HoursRequest, HoursCall, upsert_working_hours}
use appt_remind.Schedule.Entries.{OffCall, create_time_off}
use appt_remind.Schedule.Roster.{
  IsFit, IsDisjoint, upsert_working_hours-IsFit, create_time_off-IsDisjoint,
}
use appt_remind.Schedule.Reads.{as_repository}
use appt_remind.Schedule.Week.{AsAsked, upsert_working_hours-get}

-- Every written time is 1000 but "two", which is 2000.
abbrev steady : AdminEnv
steady = record {
  refuses = λ op. false;
  fresh_id = "t2";
  parse_time = λ s. some (if s == "two" then 2000 else 1000);
}

abbrev open_book : Book
open_book = record {
  staff = record { id = "ann"; business_id = "b" } ∷ [];
  working_hours =
      record {
        staff_id = "ann";
        weekday = 1;
        is_working = true;
        start_minute = 540;
        end_minute = 1020;
      }
      ∷ [];
  entries =
      record { id = "t1"; block = record { staff_id = "ann"; start_time = 5; end_time = 900 } }
      ∷ [];
}

abbrev late_start : HoursRequest
late_start = record {
  weekday = pos 1;
  is_working = true;
  start_minute = pos 600;
  end_minute = pos 1020;
}

abbrev put_late : HoursCall
put_late = record { method = "PUT"; business_id = "b"; staff_id = "ann"; json = some late_start }

accepted_late : (upsert_working_hours steady put_late open_book).0.status ≡ 204
unfolding upsert_working_hours trim_space is_empty employs
accepted_late = refl

upsert_working_hours-get_example :
    (h : WorkingHours) × AsAsked late_start (trim_space "ann") h
    × (get_working_hours
          (as_repository (upsert_working_hours steady put_late open_book).1)
          (trim_space "b")
          "ann"
          1
        ≡ (if "ann" == trim_space "ann" && eqb 1 h.weekday
            then some h
            else get_working_hours (as_repository open_book) (trim_space "b") "ann" 1))
upsert_working_hours-get_example =
    upsert_working_hours-get steady put_late late_start open_book "ann" 1 refl accepted_late

-- A day off, whose minutes are not kept.
abbrev put_off : HoursCall
put_off = record put_late { json = some (record late_start { is_working = false }) }

read_off :
    get_working_hours (as_repository (upsert_working_hours steady put_off open_book).1) "b" "ann" 1
    ≡ some (record {
      staff_id = "ann";
      weekday = 1;
      is_working = false;
      start_minute = 0;
      end_minute = 0;
    })
unfolding upsert_working_hours get_working_hours trim_space is_empty employs
read_off = refl

upsert_working_hours-IsFit_example :
    All IsFit (upsert_working_hours steady put_late open_book).1.working_hours
upsert_working_hours-IsFit_example =
    upsert_working_hours-IsFit steady put_late open_book
      ((omega arith, λ e. (omega arith, omega arith)), tt)

abbrev add_off : OffCall
add_off = record {
  method = "POST";
  business_id = "b";
  staff_id = "ann";
  json = some (record { start_time = "one"; end_time = "two" });
}

added_off : (create_time_off steady add_off open_book).0.status ≡ 201
unfolding create_time_off trim_space is_empty employs
added_off = refl

create_time_off-IsDisjoint_example : IsDisjoint (create_time_off steady add_off open_book).1.entries
create_time_off-IsDisjoint_example = create_time_off-IsDisjoint steady add_off open_book (tt, tt)
