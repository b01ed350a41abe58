-- ===== src/Main.antt =====
-- cmd/kblockerctl/main.go, `main`: a command by its name. What a command prints is dropped, and the
-- loop of the scheduler service runs for a given number of rounds.
pub mod Guarded
pub mod Blocked
use kblocker.Base.{
  ℕ, Bool, true, false, Option, none, some, List, [], ◌∷◌, Text, lit, text_eq, if◌then◌else◌,
}
use kblocker.System.{Os, Prog, ◌>>=◌, ◌>>◌, ret, quit, ask}
use kblocker.Schedule.{Calendar}
use kblocker.Scheduler.{Codec, do_schedule}
use kblocker.History.{HistoryEntry}
use kblocker.HistoryFiles.{EntryCodec, Summary, summarize, read_history}
use kblocker.Domains.{Net, do_block, do_add, do_remove, do_block_ip, do_allow_ip}
use kblocker.Lock.Enable.{do_enable}
use kblocker.Lock.Unlock.{do_disable, do_unblock, do_unload}
use kblocker.Lock.Reload.{do_reload, do_crash}
use kblocker.Pgp.{do_key, do_add_pgp, do_remove_pgp, do_list_pgp, do_pgp_cipher}
use kblocker.Reset.{do_reset}
use kblocker.Reports.{do_status, do_list}
use kblocker.Http.{Web}
use kblocker.Web.{do_web_pages}
use kblocker.Web.Server.{do_web, do_unblock_web}
use kblocker.Daemon.{do_schedule_daemon}

pub data Command : Type 0 where
  enable disable block unblock unload status reload add remove block_ip allow_ip reset list_sites
        show_key :
      Command
  add_pgp remove_pgp list_pgp pgp_cipher crash add_pgp_web unblock_web schedule web_pages : Command
  schedule_daemon history help unknown : Command

-- The words of the switch, in its order.
abbrev pub command_names : List (Text × Command)
command_names =
    (lit "enable", enable)
    ∷ (lit "disable", disable)
    ∷ (lit "block", block)
    ∷ (lit "unblock", unblock)
    ∷ (lit "unload", unload)
    ∷ (lit "status", status)
    ∷ (lit "reload", reload)
    ∷ (lit "add", add)
    ∷ (lit "remove", remove)
    ∷ (lit "block-ip", block_ip)
    ∷ (lit "allow-ip", allow_ip)
    ∷ (lit "reset", reset)
    ∷ (lit "list", list_sites)
    ∷ (lit "key", show_key)
    ∷ (lit "add-pgp", add_pgp)
    ∷ (lit "remove-pgp", remove_pgp)
    ∷ (lit "list-pgp", list_pgp)
    ∷ (lit "pgp-cipher", pgp_cipher)
    ∷ (lit "crash", crash)
    ∷ (lit "add-pgp-web", add_pgp_web)
    ∷ (lit "unblock-web", unblock_web)
    ∷ (lit "schedule", schedule)
    ∷ (lit "web-pages", web_pages)
    ∷ (lit "schedule-daemon", schedule_daemon)
    ∷ (lit "history", history)
    ∷ (lit "help", help)
    ∷ (lit "--help", help)
    ∷ (lit "-h", help)
    ∷ []

unfoldable pub named : List (Text × Command) → Text → Command
named [] word = unknown
named ((name, c) ∷ names) word =
    let rest = named names word in if text_eq word name then c else rest

-- What `history` prints: every entry, or the summary.
pub data HistoryReport : Type 0 where
  as_json : List HistoryEntry → HistoryReport
  as_summary : Option Summary → HistoryReport

-- What is outside of the program, and the rounds that the scheduler service runs for.
pub record World (O : Os) : Type 0 where
  pub net : Net
  pub web : Web
  pub codec : Codec
  pub entries : EntryCodec
  pub calendar : Calendar
  pub sleep : O.State → O.State
  pub rounds : ℕ

module _ (O : Os) where
  open O use {State}

  unfoldable pub do_history : EntryCodec → List Text → Prog State HistoryReport
  do_history codec [] = ask (λ s. as_summary (summarize (read_history O codec s)))
  do_history codec (a ∷ _) =
      if text_eq a (lit "--json")
      then ask (λ s. as_json (read_history O codec s))
      else ask (λ s. as_summary (summarize (read_history O codec s)))

  unfoldable pub run_command : World O → Command → List Text → Prog State (Unit {0})
  run_command w enable args = do_enable O args
  run_command w disable args = do_disable O
  run_command w block args = do_block O args
  run_command w unblock args = do_unblock O args
  run_command w unload args = do_unload O args
  run_command w status args = do_status O >>= λ _. ret tt
  run_command w reload args = do_reload O
  run_command w add args = do_add O args
  run_command w remove args = do_remove O args
  run_command w block_ip args = do_block_ip O args
  run_command w allow_ip args = do_allow_ip O w.net args
  run_command w reset args = do_reset O w.codec args
  run_command w list_sites args = do_list O >>= λ _. ret tt
  run_command w show_key args = do_key O >>= λ _. ret tt
  run_command w add_pgp args = do_add_pgp O args
  run_command w remove_pgp args = do_remove_pgp O args
  run_command w list_pgp args = do_list_pgp O >>= λ _. ret tt
  run_command w pgp_cipher args = do_pgp_cipher O args >>= λ _. ret tt
  run_command w crash args = do_crash O
  run_command w add_pgp_web args = do_web O w.web args >>= λ _. ret tt
  run_command w unblock_web args = do_unblock_web O w.web args >>= λ _. ret tt
  run_command w schedule args = do_schedule O w.codec args
  run_command w web_pages args = do_web_pages O w.web args
  run_command w schedule_daemon args =
      do_schedule_daemon O w.codec w.entries w.calendar w.sleep w.rounds >>= λ _. ret tt
  run_command w history args = do_history w.entries args >>= λ _. ret tt
  run_command w help args = ret tt
  run_command w unknown args = quit 1

  -- `main` on the arguments after the program's name.
  unfoldable pub main : World O → List Text → Prog State (Unit {0})
  main w [] = quit 1
  main w (cmd ∷ args) = run_command w (named command_names cmd) args
