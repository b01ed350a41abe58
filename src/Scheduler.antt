-- ===== src/Scheduler.antt =====
-- cmd/kblockerctl/schedule.go, the schedule command and one tick of the scheduler daemon. The JSON
-- of a schedule is the parameter `Codec`; log lines and what is printed are left out.
pub mod Tick
pub mod Commands
use kblocker.Base.{
  ℕ, ◌+◌, ◌-◌, ◌*◌, ◌/◌, ◌==◌, Bool, true, false, not, Option, none, some, List, [], ◌∷◌, ◌++◌,
  Text, lit, text_eq, is_empty, trim_space, ltb, if◌then◌else◌,
}
use kblocker.Base.Int.{pos}
use kblocker.Numbers.{itoa}
use kblocker.Schedule.{
  ScheduleBlock, Schedule, Window, Calendar, validate, key, active_window, format_days, minute_ns,
}
use kblocker.System.{Os, enoent, Reply, ok, err, Prog, ◌>>=◌, ◌>>◌, ret, quit, ask, act, act_}
use kblocker.Cli.{sysfs, newline, says_enabled, requires_root, module_loaded, read_sysfs}

-- json.Unmarshal into a schedule, and json.MarshalIndent with the final newline.
pub record Codec : Type 0 where
  pub decode : Text → Option Schedule
  pub encode : Schedule → Option Text

unfoldable pub schedule_file : Text
schedule_file = lit "/etc/kblocker/schedule.json"

unfoldable pub schedule_state_file : Text
schedule_state_file = lit "/var/lib/kblocker/schedule-state"

abbrev pub no_blocks : Schedule
no_blocks = record { blocks = [] }

-- The minutes to ask for at `now`, rounded up. The window contains `now`, so it ends later.
unfoldable pub minutes_left : Window → ℕ → ℕ
minutes_left w now = (w.end - now + minute_ns - 1) / minute_ns

module _ (O : Os) (codec : Codec) where
  open O use {State, now, read_file, read_stdin, write_file, rename, mkdir_all, run}

  -- `none` is an error. A missing file is an empty schedule.
  unfoldable pub read_schedule : State → Option Schedule
  read_schedule s = elim (read_file s schedule_file) [
    | ok raw ↦ codec.decode raw
    | err enoent ↦ some no_blocks
    | err _ ↦ none
  ]

  -- Whether the schedule was written.
  unfoldable pub write_schedule : Schedule → Prog State Bool
  write_schedule sched = elim (codec.encode sched) [
    | none ↦ ret false
    | some text ↦ (do
      act_ (mkdir_all (lit "/etc/kblocker"))
      reply ← act (write_file (schedule_file ++ lit ".tmp") text)
      elim reply [
        | err _ ↦ ret false
        | ok _ ↦ (do
          renamed ← act (rename (schedule_file ++ lit ".tmp") schedule_file)
          elim renamed [ ok _ ↦ ret true | err _ ↦ ret false ])
      ])
  ]

  unfoldable pub blocking_enabled : State → Bool
  blocking_enabled s = elim (read_sysfs O s (sysfs (lit "enabled"))) [
    | err _ ↦ false
    | ok raw ↦ says_enabled raw
  ]

  unfoldable pub require_disabled_for_schedule : Prog State (Unit {0})
  require_disabled_for_schedule = do on ← ask blocking_enabled; if on then quit 1 else ret tt

  -- The file of the command line, or stdin for "-".
  unfoldable pub read_input : Text → Prog State (Reply Text)
  read_input path = if text_eq path (lit "-") then act read_stdin else ask (λ s. read_file s path)

  -- Decodes, validates and writes.
  unfoldable pub save_schedule : Text → Prog State (Unit {0})
  save_schedule raw = elim (codec.decode raw) [
    | none ↦ quit 1
    | some sched ↦ elim (validate sched) [
      | some e ↦ quit 1
      | none ↦ write_schedule sched >>= λ written. if written then ret tt else quit 1
    ]
  ]

  unfoldable pub do_schedule_set : List Text → Prog State (Unit {0})
  unfolding read_input save_schedule
  do_schedule_set args = do
    requires_root O
    require_disabled_for_schedule
    elim args [
      | [] ↦ quit 1
      | path ∷ _ ↦
          read_input path >>= λ reply. elim reply [ err _ ↦ quit 1 | ok raw ↦ save_schedule raw ]
    ]

  unfoldable pub do_schedule_clear : Prog State (Unit {0})
  do_schedule_clear = do
    requires_root O
    require_disabled_for_schedule
    written ← write_schedule no_blocks
    if written then ret tt else quit 1

  -- A line for each block. The panic of `formatDays` ends the program with status 2.
  pub show_blocks : List ScheduleBlock → Prog State (Unit {0})
  show_blocks [] = ret tt
  show_blocks (b ∷ bs) =
      let rest = show_blocks bs in elim (format_days b.days) [ none ↦ quit 2 | some _ ↦ rest ]

  -- `doSchedule` by its first argument.
  unfoldable pub do_schedule : List Text → Prog State (Unit {0})
  unfolding show_blocks
  do_schedule [] = do
    read ← ask read_schedule
    elim read [ none ↦ quit 1 | some sched ↦ show_blocks sched.blocks ]
  do_schedule (a ∷ as') =
      if text_eq a (lit "set")
      then do_schedule_set as'
      else if text_eq a (lit "clear")
      then do_schedule_clear
      else if text_eq a (lit "--json")
      then (ask read_schedule >>= λ read. elim read [ none ↦ quit 1 | some _ ↦ ret tt ])
      else quit 1

  module _ (c : Calendar) (self : Text) where
    -- The key of the occurrence that was started last; unreadable is empty.
    unfoldable pub last_started : State → Text
    last_started s = elim (read_file s schedule_state_file) [ ok raw ↦ trim_space raw | err _ ↦ [] ]

    -- The command that starts the block, the record of the occurrence, and the name to report.
    unfoldable pub start_window : Window → ℕ → Prog State Text
    start_window w minutes = do
      reply ← act (run (self ∷ lit "enable" ∷ itoa (pos minutes) ∷ []) [])
      elim reply [
        | err _ ↦ ret []
        | ok _ ↦ (do
          act_ (mkdir_all (lit "/var/lib/kblocker"))
          act_ (write_file schedule_state_file (key c w ++ newline))
          ret (if is_empty w.block.name then lit "Scheduled block" else w.block.name))
      ]

    -- `scheduleDaemonTick` once a window is open.
    unfoldable pub tick_window : Window → Prog State Text
    tick_window w s =
        if not (module_loaded O s)
        then ret [] s
        else if blocking_enabled s
        then ret [] s
        else if text_eq (last_started s) (key c w)
        then ret [] s
        else if ltb (minutes_left w (now s)) 1
        then ret [] s
        else start_window w (minutes_left w (now s)) s

    unfoldable pub tick : Prog State Text
    tick s = elim (read_schedule s) [
      | none ↦ ret [] s
      | some sched ↦ elim (active_window c sched (now s)) [
        | none ↦ ret [] s
        | some w ↦ tick_window w s
      ]
    ]
