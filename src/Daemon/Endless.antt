-- ===== src/Daemon/Endless.antt =====
-- The loop of the scheduler service goes on, whatever a round meets.
use kblocker.Base.{ℕ, zero, suc, ◌≡◌, refl, true, List, [], ◌∷◌, Text, arith}
use kblocker.System.{Os, ok, done, final}
use kblocker.System.Laws.{is_done, done-final}
use kblocker.Cli.{requires_root}
use kblocker.Schedule.{Calendar, Window}
use kblocker.Scheduler.{Codec, start_window, tick_window, tick}
use kblocker.History.{Tracker, Action, append_entry, save_open, remove_open}
use kblocker.HistoryFiles.{EntryCodec, save_entry, perform, perform_all, daemon_round}
use kblocker.Web.Server.{start_daemon_web}
use kblocker.Daemon.{daemon_rounds, do_schedule_daemon}

module _ (O : Os) (codec : Codec) (entries : EntryCodec) (c : Calendar)
    (sleep : O.State → O.State) where
  open O use {State, euid, executable}

  start_window_done :
      (self : Text) (w : Window) (n : ℕ) (s : State)
      → is_done (start_window O codec c self w n s) ≡ true
  unfolding start_window
  start_window_done self w n s = ground arith

  tick_done : (self : Text) (s : State) → is_done (tick O codec c self s) ≡ true
  unfolding tick tick_window
  tick_done self s = grind (arith, start_window_done)

  perform_done : (a : Action) (s : State) → is_done (perform O entries a s) ≡ true
  unfolding perform save_entry
  perform_done (append_entry e) s = ground arith
  perform_done (save_open e) s = ground arith
  perform_done remove_open s = refl

  perform_all_done : (as' : List Action) (s : State) → is_done (perform_all O entries as' s) ≡ true
  unfolding perform_all
  perform_all_done [] s = refl
  perform_all_done (a ∷ as') s = grind (arith, perform_done, perform_all_done as')

  daemon_round_done :
      (self : Text) (t : Tracker) (s : State)
      → is_done (daemon_round O entries codec c self t s) ≡ true
  unfolding daemon_round
  daemon_round_done self t s = grind (arith, tick_done, perform_all_done)

  daemon_rounds_done :
      (self : Text) (n : ℕ) (t : Tracker) (s : State)
      → is_done (daemon_rounds O codec entries c sleep self n t s) ≡ true
  unfolding daemon_rounds
  daemon_rounds_done self zero t s = refl
  daemon_rounds_done self (suc n) t s = grind (arith, daemon_round_done, daemon_rounds_done self n)

  start_daemon_web_done : (s : State) → is_done (start_daemon_web O s) ≡ true
  unfolding start_daemon_web
  start_daemon_web_done s = ground arith

  do_schedule_daemon_done :
      (n : ℕ) (self : Text) (s : State)
      → euid s ≡ 0
      → executable s ≡ ok self
      → is_done (do_schedule_daemon O codec entries c sleep n s) ≡ true
  unfolding do_schedule_daemon requires_root
  do_schedule_daemon_done n self s root found =
      grind (arith, root, found, start_daemon_web_done, daemon_rounds_done)

  -- As root, and if the program finds itself, the scheduler service gets through any number of rounds
  -- of its loop: no schedule that cannot be read, no block that cannot be started, no file of the
  -- history that cannot be written and no address that is taken ends it.
  pub do_schedule_daemon_endless :
      (n : ℕ) (self : Text) (s : State)
      → euid s ≡ 0
      → executable s ≡ ok self
      → (t : Tracker) × (do_schedule_daemon O codec entries c sleep n s
          ≡ done t (final (do_schedule_daemon O codec entries c sleep n s)))
  do_schedule_daemon_endless n self s root found =
      done-final (do_schedule_daemon O codec entries c sleep n s)
        (do_schedule_daemon_done n self s root found)
