-- ===== src/Daemon.antt =====
-- cmd/kblockerctl/schedule.go, doScheduleDaemon: the scheduler service, for any number of rounds of
-- its loop, which has no end. `sleep` is time.Sleep.
pub mod Endless
use kblocker.Base.{ℕ, zero, suc, Option, Text}
use kblocker.System.{Os, ok, err, Prog, ◌>>=◌, ◌>>◌, ret, quit, ask}
use kblocker.Cli.{requires_root}
use kblocker.Schedule.{Calendar}
use kblocker.Scheduler.{Codec}
use kblocker.History.{Tracker}
use kblocker.HistoryFiles.{EntryCodec, new_tracker, daemon_round}
use kblocker.Web.Server.{Serving, start_daemon_web}

module _ (O : Os) (codec : Codec) (entries : EntryCodec) (c : Calendar)
    (sleep : O.State → O.State) where
  open O use {State, executable}

  unfoldable pub daemon_rounds : Text → ℕ → Tracker → Prog State Tracker
  daemon_rounds self zero t = ret t
  daemon_rounds self (suc n) t = do
    t' ← daemon_round O entries codec c self t
    (λ s. ret tt (sleep s))
    daemon_rounds self n t'

  unfoldable pub do_schedule_daemon : ℕ → Prog State Tracker
  do_schedule_daemon n = do
    requires_root O
    exe ← ask executable
    elim exe [
      | err _ ↦ quit 1
      | ok self ↦ (do
        _ ← start_daemon_web O
        t ← ask (new_tracker O entries)
        daemon_rounds self n t)
    ]
