-- ===== src/Main/Blocked.antt =====
-- What the commands can do while the kernel module runs a session.
use kblocker.Base.{
  ◌≡◌, ◌∙◌, inr, Bool, true, false, ◌||◌, List, ◌∷◌, Text, lit, text_eq, trim_space, arith,
}
use kblocker.System.{Os, ok, exit}
use kblocker.Cli.{sysfs, read_sysfs}
use kblocker.Domains.Guards.{IsBlocking, lists_refused}
use kblocker.Lock.Guards.{IsActive, do_enable_refused}
use kblocker.Scheduler.{Codec, blocking_enabled, do_schedule}
use kblocker.Scheduler.Commands.{schedule_refused}
use kblocker.Reset.Refusal.{do_reset_refused}
use kblocker.Kernel.{Session}
use kblocker.Kernel.Shows.{enabled_show}
use kblocker.Kernel.Shows.Reads.{says_enabled-enabled_show}
use kblocker.Main.{
  Command, enable, block, add, remove, block_ip, allow_ip, reset, schedule, command_names, named,
  World, run_command, main,
}

-- The commands that change what is blocked, or when.
unfoldable pub is_change : Command → List Text → Bool
is_change enable args = true
is_change block args = true
is_change add args = true
is_change remove args = true
is_change block_ip args = true
is_change allow_ip args = true
is_change reset args = true
is_change schedule (a ∷ _) = text_eq a (lit "set") || text_eq a (lit "clear")
is_change _ _ = false

module _ (O : Os) where
  open O use {State, read_file}

  -- The kernel's file shows a session that runs.
  abbrev pub Runs : Session → State → Type 0
  Runs k s = (k.enabled ≡ true) × (read_file s (sysfs (lit "enabled")) ≡ ok (enabled_show k))

  Runs-IsBlocking : (k : Session) (s : State) → Runs k s → IsBlocking O s
  Runs-IsBlocking k s (on, shown) = (enabled_show k, shown, (says_enabled-enabled_show k).0 ∙ on)

  Runs-read :
      (k : Session) (s : State)
      → Runs k s
      → read_sysfs O s (sysfs (lit "enabled")) ≡ ok (trim_space (enabled_show k))
  unfolding read_sysfs
  Runs-read k s (on, shown) = ground (arith, shown)

  Runs-IsActive : (k : Session) (s : State) → Runs k s → IsActive O s
  Runs-IsActive k s h =
      (trim_space (enabled_show k), Runs-read k s h, (says_enabled-enabled_show k).1 ∙ h.0)

  Runs-blocking_enabled :
      (codec : Codec) (k : Session) (s : State) → Runs k s → blocking_enabled O codec s ≡ true
  unfolding blocking_enabled
  Runs-blocking_enabled codec k s h =
      ground (arith, Runs-read k s h, (says_enabled-enabled_show k).1, h.0)

  schedule_blocked :
      (codec : Codec) (a : Text) (args : List Text) (k : Session) (s : State)
      → Runs k s
      → (text_eq a (lit "set") || text_eq a (lit "clear")) ≡ true
      → do_schedule O codec (a ∷ args) s ≡ exit 1 s
  unfolding do_schedule
  schedule_blocked codec a args k s h c =
      ground (arith, c, schedule_refused O codec args s (inr (Runs-blocking_enabled codec k s h)))

  run_command_blocked :
      (w : World O) (c : Command) (args : List Text) (k : Session) (s : State)
      → Runs k s
      → is_change c args ≡ true
      → run_command O w c args s ≡ exit 1 s
  unfolding run_command is_change
  run_command_blocked w enable args k s h c =
      do_enable_refused O args s (inr (inr (Runs-IsActive k s h)))
  run_command_blocked w block args k s h c =
      (lists_refused O w.net args s (inr (inr (Runs-IsBlocking k s h)))).0
  run_command_blocked w add args k s h c =
      (lists_refused O w.net args s (inr (inr (Runs-IsBlocking k s h)))).1
  run_command_blocked w remove args k s h c =
      (lists_refused O w.net args s (inr (inr (Runs-IsBlocking k s h)))).2
  run_command_blocked w block_ip args k s h c =
      (lists_refused O w.net args s (inr (inr (Runs-IsBlocking k s h)))).3
  run_command_blocked w allow_ip args k s h c =
      (lists_refused O w.net args s (inr (inr (Runs-IsBlocking k s h)))).4
  run_command_blocked w reset args k s h c =
      do_reset_refused O w.codec args s (inr (Runs-blocking_enabled w.codec k s h))
  run_command_blocked w schedule (a ∷ args) k s h c = schedule_blocked w.codec a args k s h c
  run_command_blocked w _ args k s h c = absurd (ground (arith, c))

  -- While the file `enabled` of the kernel shows a session that runs, none of the commands enable,
  -- block, add, remove, block-ip, allow-ip, reset, schedule set and schedule clear does anything,
  -- whoever runs it: it ends in status 1 in the state it started in.
  pub main_blocked :
      (w : World O) (cmd : Text) (args : List Text) (k : Session) (s : State)
      → Runs k s
      → is_change (named command_names cmd) args ≡ true
      → main O w (cmd ∷ args) s ≡ exit 1 s
  unfolding main
  main_blocked w cmd args k s h c = run_command_blocked w (named command_names cmd) args k s h c
