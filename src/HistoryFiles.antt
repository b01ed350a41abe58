-- ===== src/HistoryFiles.antt =====
-- cmd/kblockerctl/history.go, the files of the history, its summary, and one round of the daemon
-- (doScheduleDaemon in cmd/kblockerctl/schedule.go). The JSON of an entry is the parameter
-- `EntryCodec`.
pub mod Summaries
use kblocker.Base.{
  ℕ, suc, ◌-◌, ◌*◌, ◌/◌, Bool, true, false, Option, none, some, List, [], ◌∷◌, ◌++◌, Text, lit, ltb,
  split, length, drop, if◌then◌else◌,
}
use kblocker.Base.Int.{ℤ, pos, ltb_ℤ, eqb_ℤ, add64, sub64, rem, quot}
use kblocker.Numbers.{itoa, mul64}
use kblocker.Schedule.{Calendar, minute_ns}
use kblocker.System.{Os, ok, err, Prog, ◌>>=◌, ◌>>◌, ret, ask, act, act_}
use kblocker.Cli.{sysfs, newline}
use kblocker.Scheduler.{Codec, tick}
use kblocker.History.{
  completed, HistoryEntry, ModuleState, not_loaded, parse_status, Tracker, Action, append_entry,
  save_open, remove_open, observe,
}

pub record EntryCodec : Type 0 where
  pub decode : Text → Option HistoryEntry
  pub encode : HistoryEntry → Option Text

unfoldable pub history_file : Text
history_file = lit "/var/lib/kblocker/history.jsonl"

unfoldable pub history_open_file : Text
history_open_file = lit "/var/lib/kblocker/history-open.json"

-- The entries that decode, and start after 1970.
pub decode_lines : EntryCodec → List Text → List HistoryEntry
decode_lines codec [] = []
decode_lines codec (line ∷ lines) =
    let rest = decode_lines codec lines in
    elim (codec.decode line) [
      | none ↦ rest
      | some e ↦ if ltb_ℤ (pos 0) e.start then e ∷ rest else rest
    ]

-- bufio.Scanner gives up at a line of 64 KB.
pub scan_lines : List Text → List Text
scan_lines [] = []
scan_lines (line ∷ lines) =
    let rest = scan_lines lines in if ltb (length line) 65536 then line ∷ rest else []

-- time.Duration(e.End-e.Start) * time.Second
unfoldable pub duration : HistoryEntry → ℤ
duration e = mul64 (sub64 e.end e.start) 1000000000

pub total_duration : List HistoryEntry → ℤ
total_duration [] = pos 0
total_duration (e ∷ es) = add64 (total_duration es) (duration e)

unfoldable pub is_completed : HistoryEntry → Bool
is_completed e = elim e.outcome [ completed ↦ true | _ ↦ false ]

unfoldable pub count_completed : List HistoryEntry → ℕ
count_completed [] = 0
count_completed (e ∷ es) = if is_completed e then suc (count_completed es) else count_completed es

-- What the history command prints: the last entries, and the totals.
pub record Summary : Type 0 where
  pub shown : List HistoryEntry
  pub blocks : ℕ
  pub total : ℤ
  pub percent : ℕ

-- `none` is the message that no block is recorded. `start` is 0 for fewer than 20 entries.
unfoldable pub summarize : List HistoryEntry → Option Summary
unfolding total_duration
summarize [] = none
summarize (e ∷ es) =
    let all = e ∷ es in
    some (record {
      shown = drop (length all - 20) all;
      blocks = length all;
      total = total_duration all;
      percent = count_completed all * 100 / length all;
    })

pad2 : Text → Text
pad2 s = if ltb (length s) 2 then b'0' ∷ s else s

-- `formatHM`. The floats of d.Hours() and d.Minutes() are exact enough for whole seconds.
unfoldable pub format_hm : ℤ → Text
unfolding pad2
format_hm d =
    let h = quot d (60 * minute_ns) in
    let m = rem (quot d minute_ns) 60 in
    if eqb_ℤ h (pos 0) then itoa m ++ lit "m" else itoa h ++ (b'h' ∷ pad2 (itoa m) ++ lit "m")

module _ (O : Os) (codec : EntryCodec) where
  open O use {State, now_unix, read_file, write_file, append_file, remove, rename, mkdir_all}

  unfoldable pub read_module_state : State → ModuleState
  read_module_state s = elim (read_file s (sysfs (lit "status"))) [
    | err _ ↦ not_loaded
    | ok raw ↦ parse_status raw
  ]

  -- `newHistoryTracker`: a block in progress is picked up from its file.
  unfoldable pub new_tracker : State → Tracker
  new_tracker s =
      let idle : Tracker = record { current = none; last_remaining = pos 0; last_saved = pos 0 } in
      elim (read_file s history_open_file) [
        | err _ ↦ idle
        | ok raw ↦ elim (codec.decode raw) [
          | none ↦ idle
          | some e ↦ if ltb_ℤ (pos 0) e.start then record idle { current = some e } else idle
        ]
      ]

  unfoldable pub save_entry : Text → Prog State (Unit {0})
  save_entry text = do
    act_ (mkdir_all (lit "/var/lib/kblocker"))
    reply ← act (write_file (history_open_file ++ lit ".tmp") text)
    elim reply [
      | err _ ↦ ret tt
      | ok _ ↦ act_ (rename (history_open_file ++ lit ".tmp") history_open_file)
    ]

  -- `appendHistory`, `saveOpen`, and the removal of the file of the block in progress.
  unfoldable pub perform : Action → Prog State (Unit {0})
  unfolding save_entry
  perform (append_entry e) = elim (codec.encode e) [
    | none ↦ ret tt
    | some text ↦
        act_ (mkdir_all (lit "/var/lib/kblocker"))
        >> act_ (append_file history_file (text ++ newline))
  ]
  perform (save_open e) = elim (codec.encode e) [ none ↦ ret tt | some text ↦ save_entry text ]
  perform remove_open = act_ (remove history_open_file)

  unfoldable pub perform_all : List Action → Prog State (Unit {0})
  perform_all [] = ret tt
  perform_all (a ∷ as') = perform a >> perform_all as'

  unfoldable pub read_history : State → List HistoryEntry
  unfolding decode_lines scan_lines
  read_history s = elim (read_file s history_file) [
    | err _ ↦ []
    | ok raw ↦ decode_lines codec (scan_lines (split b'\n' raw))
  ]

  -- One round of the daemon's loop, without the sleep.
  unfoldable pub daemon_round : Codec → Calendar → Text → Tracker → Prog State Tracker
  daemon_round schedules c self t = do
    started ← tick O schedules c self
    at_now ← ask now_unix
    st ← ask read_module_state
    let (t', actions) = observe (record { now = at_now; module_state = st; started_by = started }) t
    perform_all actions
    ret t'
