-- ===== src/Tests/ScheduleTests.antt =====
-- Runs of the schedule and of the scheduler on the sample, and the theorems applied to it.
use kblocker.Base.{
  ℕ, ◌+◌, ◌*◌, ◌≡◌, ◌≤◌, ◌<◌, ◌≢◌, ◌↔◌, refl, none, some, true, false, [], ◌∷◌, ◌++◌, lit, text_eq,
  contains, trim_space, ◌∈◌, arith, fields,
}
use kblocker.Numbers.{itoa}
use kblocker.Schedule.{
  ScheduleBlock, Schedule, duplicate_id, parse_hhmm, is_hour, is_minute, validate, windows_at,
  window_of, window_length, contains_int, active_window, key, minute_ns,
}
use kblocker.Schedule.Hhmm.{format_hhmm, parse_hhmm-format_hhmm}
use kblocker.Schedule.Validation.{IsValid, validate-IsValid}
use kblocker.Schedule.Occurrence.{OccursOn, windows_at-OccursOn}
use kblocker.Schedule.Active.{IsLatest, IsDue, active_window-IsDue}
use kblocker.System.{done}
use kblocker.Cli.{sysfs_base, module_loaded, sysfs, read_sysfs, newline, says_enabled}
use kblocker.Scheduler.{
  schedule_file, schedule_state_file, read_schedule, blocking_enabled, last_started, start_window,
  tick,
}
use kblocker.Scheduler.Tick.{tick_starts, tick_once, tick_again}
use kblocker.Tests.Machine.{Machine, lookup, machine, machine-IsWritable}
use kblocker.Tests.Sample.{calendar, zone, work, blank_work, of_block, ten, window_at, codec}

parse_hhmm_example :
    (parse_hhmm (lit "09:30") ≡ some 570) ↔ ((570 < 1440) × (lit "09:30" ≡ format_hhmm 570))
parse_hhmm_example = parse_hhmm-format_hhmm (lit "09:30") 570

validate_example : (validate (of_block work) ≡ none) ↔ IsValid (of_block work)
validate_example = validate-IsValid (of_block work)

abbrev twice : Schedule
twice = record { blocks = work ∷ work ∷ [] }

twice-refused : validate twice ≡ some (duplicate_id 2 (lit "work"))
unfolding validate contains text_eq lit parse_hhmm is_hour is_minute
twice-refused = refl

windows_at_example : (window_at work ∈ windows_at calendar work ten) ↔ (
    (n : ℕ) × OccursOn calendar zone work n (window_at work)
    × ((window_at work).start ≤ ten)
    × (ten < (window_at work).end))
windows_at_example = windows_at-OccursOn calendar zone work ten (window_at work) (omega arith)

ten-found : windows_at calendar work ten ≡ window_at work ∷ []
unfolding windows_at window_of parse_hhmm is_hour is_minute lit contains_int window_length
ten-found = refl

active_window-IsDue_example :
    IsLatest (IsDue calendar zone (of_block work) ten) (active_window calendar (of_block work) ten)
active_window-IsDue_example = active_window-IsDue calendar zone (of_block work) ten (omega arith)

-- Ten o'clock, with the module loaded and blocking off, and on.
abbrev idle_box : Machine
idle_box = record {
  files = (schedule_file, lit "{}") ∷ (sysfs (lit "enabled"), lit "0") ∷ [];
  clock = ten;
  keys = [];
  shown_key = [];
}

abbrev blocking_box : Machine
blocking_box = record idle_box { files = (sysfs (lit "enabled"), lit "1 3600") ∷ [] }

blocking_box-enabled : blocking_enabled machine (codec (of_block work)) blocking_box ≡ true
unfolding blocking_enabled read_sysfs lookup text_eq sysfs sysfs_base lit trim_space says_enabled
    fields
blocking_box-enabled = refl

idle_box-read : read_schedule machine (codec (of_block work)) idle_box ≡ some (of_block work)
unfolding read_schedule lookup text_eq schedule_file lit
idle_box-read = refl

work-open : active_window calendar (of_block work) ten ≡ some (window_at work)
unfolding active_window windows_at window_of parse_hhmm is_hour is_minute lit contains_int
    window_length
work-open = refl

blank_work-open : active_window calendar (of_block blank_work) ten ≡ some (window_at blank_work)
unfolding active_window windows_at window_of parse_hhmm is_hour is_minute lit contains_int
    window_length
blank_work-open = refl

machine-loaded : (s : Machine) → module_loaded machine s ≡ true
unfolding module_loaded text_eq sysfs_base lit
machine-loaded s = refl

idle_box-idle : (sched : Schedule) → blocking_enabled machine (codec sched) idle_box ≡ false
unfolding blocking_enabled read_sysfs lookup text_eq sysfs sysfs_base lit trim_space says_enabled
    fields schedule_file
idle_box-idle sched = refl

idle_box-fresh :
    last_started machine (codec (of_block work)) calendar (lit "kblockerctl") idle_box
    ≢ key calendar (window_at work)
unfolding last_started key lookup text_eq schedule_state_file schedule_file lit sysfs sysfs_base
idle_box-fresh e = absurd (ground (arith, e))

tick_starts_example :
    (minutes : ℕ) × (tick machine (codec (of_block work)) calendar (lit "kblockerctl") idle_box
      ≡ start_window machine
          (codec (of_block work))
          calendar
          (lit "kblockerctl")
          (window_at work)
          minutes
          idle_box)
    × (1 ≤ minutes)
    × ((window_at work).end ≤ ten + minutes * minute_ns)
    × (ten + minutes * minute_ns < (window_at work).end + minute_ns)
tick_starts_example =
    tick_starts machine (codec (of_block work)) calendar (lit "kblockerctl") idle_box
      (window_at work)
      (record {
        sched = of_block work;
        readable = idle_box-read;
        open_now = work-open;
        loaded = machine-loaded idle_box;
        idle = idle_box-idle (of_block work);
        fresh = idle_box-fresh;
      })

-- The state after a start of the window of `b`.
abbrev started_box : ScheduleBlock → Machine
started_box b = record idle_box {
  files = (schedule_state_file, key calendar (window_at b) ++ newline) ∷ idle_box.files;
}

work-started :
    start_window machine
      (codec (of_block work))
      calendar
      (lit "kblockerctl")
      (window_at work)
      420
      idle_box
    ≡ done (lit "Work") (started_box work)
unfolding start_window lit
work-started = refl

blank_work-started :
    start_window machine
      (codec (of_block blank_work))
      calendar
      (lit "kblockerctl")
      (window_at blank_work)
      420
      idle_box
    ≡ done (lit "Work") (started_box blank_work)
unfolding start_window lit
blank_work-started = refl

Work-named : lit "Work" ≢ []
unfolding lit
Work-named e = cc

work-trimmed : trim_space (key calendar (window_at work)) ≡ key calendar (window_at work)
unfolding trim_space key lit itoa
work-trimmed = refl

blank_work-untrimmed :
    trim_space (key calendar (window_at blank_work)) ≢ key calendar (window_at blank_work)
unfolding trim_space key lit itoa
blank_work-untrimmed e = absurd (ground (arith, e))

started_box-read :
    (b : ScheduleBlock)
    → read_schedule machine (codec (of_block b)) (started_box b) ≡ some (of_block b)
unfolding read_schedule lookup text_eq schedule_file schedule_state_file lit
started_box-read b = refl

started_box-idle :
    (b : ScheduleBlock) → blocking_enabled machine (codec (of_block b)) (started_box b) ≡ false
unfolding blocking_enabled read_sysfs lookup text_eq sysfs sysfs_base lit trim_space says_enabled
    fields schedule_file schedule_state_file
started_box-idle b = refl

tick_once_example :
    tick machine (codec (of_block work)) calendar (lit "kblockerctl") (started_box work)
    ≡ done [] (started_box work)
tick_once_example =
    tick_once machine (codec (of_block work)) calendar (lit "kblockerctl") (window_at work)
      (window_at work) 420 idle_box (started_box work) (started_box work) (lit "Work")
      (of_block work) (machine-IsWritable schedule_state_file) work-trimmed work-started Work-named
      refl (started_box-read work) work-open refl

tick_again_example :
    (minutes : ℕ) × (tick machine
        (codec (of_block blank_work))
        calendar
        (lit "kblockerctl")
        (started_box blank_work)
      ≡ start_window machine
          (codec (of_block blank_work))
          calendar
          (lit "kblockerctl")
          (window_at blank_work)
          minutes
          (started_box blank_work))
tick_again_example =
    tick_again machine (codec (of_block blank_work)) calendar (lit "kblockerctl")
      (window_at blank_work) 420 idle_box (started_box blank_work) (started_box blank_work)
      (lit "Work") (of_block blank_work) (machine-IsWritable schedule_state_file)
      blank_work-untrimmed blank_work-started Work-named refl (started_box-read blank_work)
      blank_work-open (machine-loaded (started_box blank_work)) (started_box-idle blank_work)
