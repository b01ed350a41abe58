-- ===== src/Scheduler/Tick.antt =====
-- When the daemon starts a block, for how long, and that it does so once for an occurrence.
use mathlib.Core.Path.{subst}
use kblocker.Base.{
  ℕ, ◌+◌, ◌*◌, ◌≤◌, ◌<◌, ◌≡◌, sym, ap, ◌∙◌, ◌≢◌, inl, inr, some, true, false, [], ◌∷◌, ◌++◌, arith,
  Text, lit, text_eq_iff, trim_space, Option-cases,
}
use kblocker.Base.Int.{pos}
use kblocker.Base.Trim.{trim_space-newline}
use kblocker.Numbers.{itoa}
use kblocker.Schedule.{Schedule, Window, Calendar, key, active_window, minute_ns}
use kblocker.Schedule.Occurrence.{windows_at_contain}
use kblocker.Schedule.Active.{IsOpen, IsLatest, active_window-IsLatest}
use kblocker.System.{Os, ok, done, Reply-cases}
use kblocker.System.Laws.{IsWritable}
use kblocker.Cli.{module_loaded, newline}
use kblocker.Scheduler.{
  Codec, schedule_state_file, read_schedule, blocking_enabled, last_started, minutes_left,
  start_window, tick_window, tick,
}

minutes_left_bounds :
    (w : Window) (now : ℕ)
    → now < w.end
    → (1 ≤ minutes_left w now)
      × (w.end ≤ now + minutes_left w now * minute_ns)
      × (now + minutes_left w now * minute_ns < w.end + minute_ns)
unfolding minutes_left
minutes_left_bounds w now h = omega arith

module _ (O : Os) (codec : Codec) (c : Calendar) (self : Text) where
  open O use {State, now}

  -- The conditions under which the daemon starts the window `w` of a schedule.
  pub record ShouldStart (s : State) (w : Window) : Type 0 where
    pub sched : Schedule
    pub readable : read_schedule O codec s ≡ some sched
    pub open_now : active_window c sched (now s) ≡ some w
    pub loaded : module_loaded O s ≡ true
    pub idle : blocking_enabled O codec s ≡ false
    pub fresh : last_started O codec c self s ≢ key c w

  open_now-end :
      (s : State) (w : Window) (sched : Schedule)
      → active_window c sched (now s) ≡ some w
      → now s < w.end
  open_now-end s w sched e =
      let latest =
        subst (IsLatest (IsOpen c sched.blocks (now s))) e
          (active_window-IsLatest c sched (now s)) in
      let (b, place, on, m) = latest.0 in (windows_at_contain c b (now s) w m).1

  tick_window_starts :
      (s : State) (w : Window)
      → module_loaded O s ≡ true
      → blocking_enabled O codec s ≡ false
      → last_started O codec c self s ≢ key c w
      → now s < w.end
      → tick_window O codec c self w s ≡ start_window O codec c self w (minutes_left w (now s)) s
  unfolding tick_window
  tick_window_starts s w loaded idle fresh lt =
      ground (
        arith,
        text_eq_iff (last_started O codec c self s) (key c w),
        minutes_left_bounds w (now s),
      )

  tick_window_skips :
      (s : State) (w : Window)
      → ((module_loaded O s ≡ true)
            × (blocking_enabled O codec s ≡ false)
            × (last_started O codec c self s ≢ key c w)
          → ⊥)
      → tick_window O codec c self w s ≡ done [] s
  unfolding tick_window
  tick_window_skips s w not_all =
      ground (arith, text_eq_iff (last_started O codec c self s) (key c w), not_all)

  -- The daemon leaves the system alone, and reports nothing, unless a window of a readable schedule
  -- is open, the module is loaded, blocking is off, and the occurrence is not the one started last.
  tick_skips : (s : State) → ((w : Window) → ¬ ShouldStart s w) → tick O codec c self s ≡ done [] s
  unfolding tick
  tick_skips s no_start = elim (Option-cases (read_schedule O codec s)) [
    | inl p ↦ ground arith
    | inr (sched, p) ↦ elim (Option-cases (active_window c sched (now s))) [
      | inl q ↦ ground arith
      | inr (w, q) ↦
          let skips = tick_window_skips s w (λ (loaded, idle, fresh). no_start w (record {
            sched = sched;
            readable = p;
            open_now = q;
            loaded = loaded;
            idle = idle;
            fresh = fresh;
          })) in
          ground (arith, skips)
    ]
  ]

  -- Under those conditions the daemon starts the window, for a number of whole minutes that is at
  -- least 1, does not end before the window, and ends less than a minute after it.
  pub tick_starts :
      (s : State) (w : Window)
      → ShouldStart s w
      → (minutes : ℕ) × (tick O codec c self s ≡ start_window O codec c self w minutes s)
        × (1 ≤ minutes)
        × (w.end ≤ now s + minutes * minute_ns)
        × (now s + minutes * minute_ns < w.end + minute_ns)
  unfolding tick
  tick_starts s w h =
      let lt = open_now-end s w h.sched h.open_now in
      let bounds = minutes_left_bounds w (now s) lt in
      let starts = tick_window_starts s w h.loaded h.idle h.fresh lt in
      (minutes_left w (now s), ground (arith, starts), bounds.0, bounds.1, bounds.2)

module _ (O : Os) (codec : Codec) (c : Calendar) (self : Text) where
  open O use {State, now, read_file, write_file, mkdir_all, run}

  -- A start that was reported left the key of the window in the state file.
  start_window-read_file :
      (w : Window) (m : ℕ) (s s' : State) (name : Text)
      → IsWritable O schedule_state_file
      → start_window O codec c self w m s ≡ done name s'
      → name ≢ []
      → read_file s' schedule_state_file ≡ ok (key c w ++ newline)
  unfolding start_window
  start_window-read_file w m s s' name writable started named =
      let ran = run (self ∷ lit "enable" ∷ itoa (pos m) ∷ []) [] s in
      elim (Reply-cases ran.0) [
        | inl (e, failed) ↦ absurd (ground arith)
        | inr (out, worked) ↦
            let made = (mkdir_all (lit "/var/lib/kblocker") ran.1).1 in
            ground (arith, writable.read-write (key c w ++ newline) made)
      ]

  last_started_lem :
      (w : Window) (later : State)
      → read_file later schedule_state_file ≡ ok (key c w ++ newline)
      → last_started O codec c self later ≡ trim_space (key c w)
  unfolding last_started newline
  last_started_lem w later e = rw (e, last_started) (trim_space-newline (key c w))

  -- Each occurrence is started at most once. After a start of `w` that was reported, a tick finds
  -- nothing to do as long as the state file keeps what that start wrote and the open window has
  -- the key of `w`, even if blocking has been lifted. The state file must be writable, and the key
  -- must not begin or end in white space.
  pub tick_once :
      (w v : Window) (m : ℕ) (s s' later : State) (name : Text) (sched : Schedule)
      → IsWritable O schedule_state_file
      → trim_space (key c w) ≡ key c w
      → start_window O codec c self w m s ≡ done name s'
      → name ≢ []
      → read_file later schedule_state_file ≡ read_file s' schedule_state_file
      → read_schedule O codec later ≡ some sched
      → active_window c sched (now later) ≡ some v
      → key c v ≡ key c w
      → tick O codec c self later ≡ done [] later
  tick_once w v m s s' later name sched writable trimmed started named kept readable found same =
      let recorded = start_window-read_file w m s s' name writable started named in
      let last = last_started_lem w later (kept ∙ recorded) ∙ trimmed in
      tick_skips O codec c self later (λ u h.
        let v_is : u ≡ v = ground (arith, h.readable, h.open_now) in
        h.fresh (last ∙ sym same ∙ ap (key c) (sym v_is)))

  -- A key that begins or ends in white space, such as one of an id with a leading blank, does not
  -- protect its occurrence: with the state file as a start of `w` left it, the window still open,
  -- the module loaded and blocking lifted, the daemon starts `w` again.
  pub tick_again :
      (w : Window) (m : ℕ) (s s' later : State) (name : Text) (sched : Schedule)
      → IsWritable O schedule_state_file
      → trim_space (key c w) ≢ key c w
      → start_window O codec c self w m s ≡ done name s'
      → name ≢ []
      → read_file later schedule_state_file ≡ read_file s' schedule_state_file
      → read_schedule O codec later ≡ some sched
      → active_window c sched (now later) ≡ some w
      → module_loaded O later ≡ true
      → blocking_enabled O codec later ≡ false
      → (minutes : ℕ) × (tick O codec c self later ≡ start_window O codec c self w minutes later)
  tick_again w m s s' later name sched writable untrimmed started named kept readable found loaded
        idle =
      let recorded = start_window-read_file w m s s' name writable started named in
      let last = last_started_lem w later (kept ∙ recorded) in
      let starts = tick_starts O codec c self later w (record {
        sched = sched;
        readable = readable;
        open_now = found;
        loaded = loaded;
        idle = idle;
        fresh = λ e. untrimmed (sym last ∙ e);
      }) in
      (starts.0, starts.1)
