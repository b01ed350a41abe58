-- ===== src/Tests/Sample.antt =====
-- A calendar of one long month, and a schedule with one block.
use kblocker.Base.{ℕ, ◌+◌, ◌-◌, ◌*◌, ◌/◌, ◌%◌, some, true, [], ◌∷◌, lit, arith}
use kblocker.Base.Int.{pos}
use kblocker.Numbers.{itoa}
use kblocker.Schedule.{ScheduleBlock, Schedule, Window, Calendar, minute_ns, day_ns}
use kblocker.Schedule.Occurrence.{IsFixedZone}
use kblocker.Scheduler.{Codec}

abbrev pub calendar : Calendar
calendar = record {
  year = λ t. 1;
  month = λ t. 1;
  day = λ t. t / day_ns + 1;
  weekday = λ t. t / day_ns % 7;
  date = λ y m d h minute. (d - 1) * day_ns + (h * 60 + minute) * minute_ns;
  stamp = λ t. itoa (pos (t / minute_ns));
}

abbrev pub zone : IsFixedZone calendar
zone = record {
  midnight = λ n. n * day_ns;
  midnight-suc = λ n. omega arith;
  day_index = λ t. t / day_ns;
  day_index_bounds = λ t h. (omega arith, omega arith);
  date_today = λ t h m start hour minute. omega arith;
  date_yesterday = λ t start. omega arith;
}

abbrev pub work : ScheduleBlock
work = record {
  id = lit "work";
  name = lit "Work";
  days = pos 1 ∷ [];
  start = lit "09:00";
  end = lit "17:00";
  enabled = true;
}

-- The same block with a blank before its id.
abbrev pub blank_work : ScheduleBlock
blank_work = record work { id = lit " work" }

abbrev pub of_block : ScheduleBlock → Schedule
of_block b = record { blocks = b ∷ [] }

-- Ten o'clock on the second day, and the window that is open then.
abbrev pub ten : ℕ
ten = day_ns + 600 * minute_ns

abbrev pub window_at : ScheduleBlock → Window
window_at b = record {
  block = b;
  start = day_ns + 540 * minute_ns;
  end = day_ns + 1020 * minute_ns;
}

abbrev pub codec : Schedule → Codec
codec sched = record { decode = λ text. some sched; encode = λ x. some [] }
