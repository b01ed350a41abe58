-- ===== src/Tests/ServerTests.antt =====
-- The web pages, the daemon and the commands on the small machine, beside the kernel's session.
use kblocker.Base.{◌≡◌, ◌≢◌, refl, true, none, [], ◌∷◌, lit, text_eq, arith}
use kblocker.Base.Int.{pos}
use kblocker.System.{Os, done, exit, final}
use kblocker.Cli.{sysfs}
use kblocker.History.{Tracker, parse_status}
use kblocker.HistoryFiles.{EntryCodec}
use kblocker.Http.{Request, Response}
use kblocker.Web.Server.{serve}
use kblocker.Web.Serving.{serve_answers, serve_reads}
use kblocker.Daemon.{do_schedule_daemon}
use kblocker.Daemon.Endless.{do_schedule_daemon_endless}
use kblocker.Kernel.{remaining_seconds}
use kblocker.Kernel.Runs.{booted}
use kblocker.Kernel.Shows.{enabled_show, Counts, status_show}
use kblocker.Kernel.Shows.Reads.{parse_status-status_show}
use kblocker.Reports.{StatusReport, loaded, do_status}
use kblocker.Reports.KernelStatus.{IsReportOf, do_status-IsReportOf}
use kblocker.Main.{World, main, named, command_names}
use kblocker.Main.Guarded.{is_for_root, main_refused}
use kblocker.Main.Blocked.{is_change, main_blocked}
use kblocker.Tests.Machine.{Machine, machine, machine-IsWritable}
use kblocker.Tests.Sample.{calendar}
use kblocker.Tests.CommandTests.{quiet_box, empty_codec, no_net, machine-loaded}
use kblocker.Tests.HolderTests.{web, request}
use kblocker.Tests.KernelTests.{kernel, kernel_key, locked, locked-Run, locked_st}

abbrev look : Request
look = record request { method = lit "GET" }

look_get : lit "GET" ≢ lit "POST"
unfolding lit
look_get e = absurd (ground (arith, e))

serve_answers_example :
    (response : Response) × (serve machine web [] request quiet_box
      ≡ done response (final (serve machine web [] request quiet_box)))
serve_answers_example = serve_answers machine web [] request quiet_box

serve_reads_example : final (serve machine web [] look quiet_box) ≡ quiet_box
serve_reads_example = serve_reads machine web [] look quiet_box look_get

abbrev no_entries : EntryCodec
no_entries = record { decode = λ text. none; encode = λ entry. none }

do_schedule_daemon_endless_example :
    (t : Tracker) × (do_schedule_daemon machine empty_codec no_entries calendar (λ s. s) 3 quiet_box
      ≡ done t
          (final (do_schedule_daemon machine empty_codec no_entries calendar (λ s. s) 3 quiet_box)))
do_schedule_daemon_endless_example =
    do_schedule_daemon_endless machine empty_codec no_entries calendar (λ s. s) 3
      (lit "/usr/bin/kblockerctl") quiet_box refl refl

abbrev world : World machine
world = record {
  net = no_net;
  web = web;
  codec = empty_codec;
  entries = no_entries;
  calendar = calendar;
  sleep = λ s. s;
  rounds = 3;
}

-- The machine for a user who is not root.
abbrev user_machine : Os
user_machine = record machine { euid = λ s. 1000 }

abbrev user_world : World user_machine
user_world = record {
  net = no_net;
  web = web;
  codec = empty_codec;
  entries = no_entries;
  calendar = calendar;
  sleep = λ s. s;
  rounds = 3;
}

unload-for_root : is_for_root (named command_names (lit "unload")) ≡ true
unfolding is_for_root named lit text_eq
unload-for_root = refl

main_refused_example : main user_machine user_world (lit "unload" ∷ []) quiet_box ≡ exit 1 quiet_box
main_refused_example =
    main_refused user_machine user_world (lit "unload") [] quiet_box (omega arith) unload-for_root

-- The machine while the kernel's session runs.
abbrev session_box : Machine
session_box = (machine.write_file (sysfs (lit "enabled")) (enabled_show locked) quiet_box).1

reset-change : is_change (named command_names (lit "reset")) [] ≡ true
unfolding is_change named lit text_eq
reset-change = refl

main_blocked_example : main machine world (lit "reset" ∷ []) session_box ≡ exit 1 session_box
main_blocked_example =
    main_blocked machine world (lit "reset") [] locked session_box
      (
        locked_st.is_enabled,
        (machine-IsWritable (sysfs (lit "enabled"))).read-write (enabled_show locked) quiet_box,
      )
      reset-change

abbrev counts : Counts
counts = record { ips_v4 = 12; ips_v6 = 3; domains = 5; protected = 2; allowed = 0 }

parse_status-status_show_example : parse_status (status_show counts locked) ≡ record {
  loaded = true;
  enabled = locked.enabled;
  remaining = pos (remaining_seconds locked);
  pgp = locked.pgp_active;
}
parse_status-status_show_example =
    parse_status-status_show kernel counts (booted kernel_key 7 none locked-Run)

-- The machine with what the kernel shows of the session.
abbrev status_box : Machine
status_box = (machine.write_file (sysfs (lit "status")) (status_show counts locked) quiet_box).1

do_status-IsReportOf_example :
    (r : StatusReport) × ((s' : Machine) × (do_status machine status_box ≡ done (loaded r) s')
      × IsReportOf machine counts locked r)
do_status-IsReportOf_example =
    do_status-IsReportOf machine kernel counts locked status_box
      (booted kernel_key 7 none locked-Run) (omega arith) (omega arith) (machine-loaded status_box)
      ((machine-IsWritable (sysfs (lit "status"))).read-write (status_show counts locked) quiet_box)
