-- ===== src/History.antt =====
-- cmd/kblockerctl/history.go: the tracker that the daemon feeds with the state of the module, the
-- files that it keeps, and the summary of the history command. Times are int64 Unix seconds. The
-- actions of a call of `observe` are returned in order, and `perform` carries them out.
pub mod Blocks
pub mod Entries
use kblocker.Base.{
  ℕ, suc, ◌+◌, ◌-◌, ◌*◌, ◌/◌, ◌==◌, Bool, true, false, not, ◌&&◌, Option, none, some, List, [], ◌∷◌,
  ◌++◌, Text, lit, text_eq, is_empty, trim_space, split, cut, length, if◌then◌else◌,
}
use kblocker.Base.Int.{ℤ, pos, negsuc, pos_part, ltb_ℤ, eqb_ℤ, add64, sub64}
use kblocker.Numbers.{parse_int}
use kblocker.System.{Os, Reply, ok, err, Prog, ◌>>=◌, ◌>>◌, ret, quit, ask, act, act_}
use kblocker.Cli.{sysfs, newline}

-- The outcome strings; a file may hold any other.
pub data Outcome : Type 0 where
  in_progress completed unlocked interrupted : Outcome
  other : Text → Outcome

pub record HistoryEntry : Type 0 where
  pub start : ℤ
  pub end : ℤ
  pub planned_end : ℤ
  pub locked : Bool
  pub scheduled : Text
  pub outcome : Outcome

pub record ModuleState : Type 0 where
  pub loaded : Bool
  pub enabled : Bool
  pub remaining : ℤ
  pub pgp : Bool

abbrev pub not_loaded : ModuleState
not_loaded = record { loaded = false; enabled = false; remaining = pos 0; pgp = false }

-- The switch on the name before the colon.
unfoldable pub set_field : Text → Text → ModuleState → ModuleState
set_field k v st =
    if text_eq k (lit "enabled")
    then record st { enabled = text_eq v (lit "1") }
    else if text_eq k (lit "remaining")
    then record st { remaining = parse_int v }
    else if text_eq k (lit "pgp_active")
    then record st { pgp = text_eq v (lit "1") }
    else st

unfoldable pub read_status_lines : List Text → ModuleState → ModuleState
unfolding set_field
read_status_lines [] st = st
read_status_lines (line ∷ lines) st =
    read_status_lines lines (elim (cut b':' line) [
      | none ↦ st
      | some (k, v) ↦ set_field (trim_space k) (trim_space v) st
    ])

-- The fields of the text of /sys/kernel/kblocker/status.
unfoldable pub parse_status : Text → ModuleState
unfolding read_status_lines
parse_status raw = read_status_lines (split b'\n' raw) (record not_loaded { loaded = true })

-- The tracker without its callback; `current` is the field `open`.
pub record Tracker : Type 0 where
  pub current : Option HistoryEntry
  pub last_remaining : ℤ
  pub last_saved : ℤ

pub data Action : Type 0 where
  append_entry : HistoryEntry → Action
  save_open : HistoryEntry → Action
  remove_open : Action

-- One call of `observe`.
pub record Observation : Type 0 where
  pub now : ℤ
  pub module_state : ModuleState
  pub started_by : Text

-- The entry of a block that has just been seen, or the entry in progress with its name filled in.
unfoldable pub opened : Observation → Option HistoryEntry → HistoryEntry
opened o none = record {
  start = o.now;
  end = pos 0;
  planned_end = pos 0;
  locked = o.module_state.pgp;
  scheduled = o.started_by;
  outcome = in_progress;
}
opened o (some e) =
    if is_empty e.scheduled && (not (is_empty o.started_by) && ltb_ℤ (sub64 o.now e.start) (pos 60))
    then record e { scheduled = o.started_by }
    else e

-- `lastSaved` starts anew with a block.
unfoldable pub saved_before : Tracker → ℤ
saved_before t = elim t.current [ none ↦ pos 0 | some _ ↦ t.last_saved ]

unfoldable pub observe_on : Observation → Tracker → Tracker × List Action
observe_on o t =
    let e = record (opened o t.current) { planned_end = add64 o.now o.module_state.remaining } in
    let due = not (ltb_ℤ (sub64 o.now (saved_before t)) (pos 60)) in
    (
      record {
        current = some e;
        last_remaining = o.module_state.remaining;
        last_saved = if due then o.now else saved_before t;
      },
      if due then save_open e ∷ [] else [],
    )

-- The switch that decides how a block ended, seen over at `now`.
unfoldable pub closed : ℤ → ℤ → HistoryEntry → HistoryEntry
closed last_remaining now e =
    if eqb_ℤ last_remaining (pos 0) && not (ltb_ℤ now e.planned_end)
    then record e { outcome = completed; end = e.planned_end }
    else if eqb_ℤ last_remaining (pos 0)
    then record e { outcome = interrupted; end = now }
    else if not (ltb_ℤ (pos 10) last_remaining)
    then record e { outcome = completed; end = e.planned_end }
    else record e { outcome = unlocked; end = now }

-- A block that ended after it started is appended.
unfoldable pub close_actions : HistoryEntry → List Action
close_actions e =
    if ltb_ℤ e.start e.end then append_entry e ∷ remove_open ∷ [] else remove_open ∷ []

unfoldable pub observe_off : Observation → Tracker → Tracker × List Action
observe_off o t = elim t.current [
  | none ↦ (t, [])
  | some e ↦ (
    record t { current = none; last_remaining = pos 0 },
    close_actions (closed t.last_remaining o.now e),
  )
]

unfoldable pub observe : Observation → Tracker → Tracker × List Action
observe o t =
    if not o.module_state.loaded
    then (t, [])
    else if o.module_state.enabled
    then observe_on o t
    else observe_off o t

-- The daemon's loop over its observations.
unfoldable pub observe_all : List Observation → Tracker → Tracker × List Action
observe_all [] t = (t, [])
observe_all (o ∷ os) t =
    let (t', actions) = observe o t in let (t'', more) = observe_all os t' in (t'', actions ++ more)
