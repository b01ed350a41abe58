-- ===== src/Lib.antt =====
-- A model of kblockerctl, the command-line program and daemon of kblocker (cmd/kblockerctl), with
-- the properties that make its parts correct.
--
-- kblocker is a kernel module that blocks sites for a time. kblockerctl writes lists and a duration
-- to the files of the module under /sys/kernel/kblocker, encrypts the key that ends a block to
-- the holders of PGP keys, keeps a weekly schedule, and runs a daemon that starts the blocks of
-- the schedule and records each block that it sees. The parts:
--   Base: numbers, lists, Go strings as lists of bytes, int64 values with their wrap-around.
--   Numbers: strconv.Atoi, ParseInt and Itoa, with their round trip in Numbers.Decimal.
--   System: the operating system, a record `Os` of operations on a state that is a parameter of
--     every command, and programs that go on with a value or end with an exit status. System.Laws
--     states what package os documents of files.
--   Cli: the helpers of cmd/kblockerctl/main.go: guards, reads of the kernel's files, list files,
--     chattr and lsattr, gpg. Cli.Attributes is about hasImmutable.
--   Domains: block, add, remove, block-ip and allow-ip of cmd/kblockerctl/main.go, with their guards
--     in Domains.Guards, the change of a list in Domains.Apply, the list files in Domains.ListFiles
--     and the arguments of allow-ip in Domains.Networks.
--   Lock: enable, disable, unblock, unload, reload and crash of cmd/kblockerctl/main.go, in
--     Lock.Enable, Lock.Unlock and Lock.Reload, with the ciphertexts of the key in Lock.Ciphers. Their
--     refusals are in Lock.Guards; Lock.Keys is about the holders of the key, Lock.Unload about unload.
--   Schedule: the schedule, validate, windowsAt, activeWindow and formatDays of
--     cmd/kblockerctl/schedule.go, with a module for each.
--   Scheduler: the schedule command and scheduleDaemonTick of cmd/kblockerctl/schedule.go, in
--     Scheduler.Commands and Scheduler.Tick.
--   History: historyTracker of cmd/kblockerctl/history.go. History.Blocks follows a block from its
--     begin to its end; History.Entries is about all that is recorded.
--   HistoryFiles: the files and the summary of cmd/kblockerctl/history.go, and one round of the loop of
--     doScheduleDaemon. HistoryFiles.Summaries is about the summary.
--   Pgp: key, add-pgp, remove-pgp, list-pgp and pgp-cipher of cmd/kblockerctl/main.go. Pgp.Ciphers is
--     about pgp-cipher.
--   Reset: cmd/kblockerctl/reset.go, with its refusals in Reset.Refusal and its steps in Reset.Steps.
--   Http: requests, responses and the parameter `Web` of the pages.
--   Web: withSameOrigin, the routes and web-pages of cmd/kblockerctl/web.go, and the handlers of
--     /api/unblock and /api/ciphertext in cmd/kblockerctl/main.go. The handlers of keys are in Web.Keys
--     and Web.Holders, handleAPICiphertextByKey in Web.Ciphertexts, the servers and listenPages in
--     Web.Server. Web.Origin is about withSameOrigin, Web.Unblock about handleAPIUnblock, Web.Serving
--     about all that is served.
--   Reports: status and list of cmd/kblockerctl/main.go, as records of what they print.
--     Reports.Fields and Reports.KernelStatus are about status on what the kernel shows.
--   Daemon: doScheduleDaemon of cmd/kblockerctl/schedule.go, for any number of rounds of its loop.
--     Daemon.Endless is about the loop.
--   Main: main of cmd/kblockerctl/main.go, a command by its name, and the history command. Main.Guarded
--     is about users who are not root, Main.Blocked about commands during a block.
--   Kernel: the session of the kernel module (src/main.c, src/key.c, src/state.c): its key, its start
--     and its end, with the attributes enabled, pgp_active, key, disable and unblock in
--     Kernel.Attributes. Kernel.Runs is a step relation over writes, reads, seconds and the timer.
--     Kernel.Invariant, Kernel.Locked, Kernel.Timer and Kernel.Keys are about what it comes to.
--     Kernel.Shows is what enabled, pgp_active and status show, and Kernel.Shows.Reads that the
--     program reads it. Kernel.Domains is the list of domains (src/parse.c, src/main.c), with the form of
--     a domain in Kernel.Domains.Normal and the list in Kernel.Domains.Stored.
--     Kernel.StateFile is the seconds to go that the state file holds, as they are written and as they
--     are restored, Kernel.StateFile.Bytes and Kernel.StateFile.Saved about what is read back.
--     simple_strtoull is a parameter.
--   Kernel.Lists is the writes to blocked_ips and allowed_ips (src/main.c).
--   Kernel.Filter is the packet filter (src/netfilter.c): kblocker_hook and what it calls. Kernel.Names
--     is the match of a host with a domain, and Kernel.Hello the search for the server's name in a
--     ClientHello (src/parse.c), with what such a message is in Kernel.Hello.Wire. Kernel.Hello.Bounds,
--     Kernel.Hello.Parts, Kernel.Hello.Extract and Kernel.Names.Matches are about these,
--     Kernel.Filter.Tcp and Kernel.Filter.Segments about what is dropped of TCP,
--     Kernel.Filter.Addresses about the list of addresses, and Kernel.Filter.Reasons and
--     Kernel.Filter.Dropped about why something is dropped.
--   Kernel.Hosts is the block of entries in /etc/hosts (src/parse.c, src/file_protection.c), with its
--     text in Kernel.Hosts.Blocks, where it is found in Kernel.Hosts.UserPart, and its removal in
--     Kernel.Hosts.RoundTrip.
--   Kernel.SavedState is the text that a session writes to the state file and what is restored of it
--     (src/state.c), with its lines in Kernel.SavedState.Lines and Kernel.SavedState.Fields, and a reboot
--     in Kernel.SavedState.Restored and Kernel.SavedState.Reboot.
--   Kernel.Enforced joins the session, the lists and the filter; Kernel.Enforced.Unchanged is about what
--     a locked session lets through.
--   Tests: a small machine, a calendar and a schedule on which the theorems are applied.
--
-- A function of the source keeps its name in snake case. A command is a program over the state of
-- `Os`; os.Exit(n) and log.Fatal are the result `exit n`. What is printed is left out. Package
-- time in a location is the parameter `Calendar`, JSON is the parameters `Codec` and `EntryCodec`,
-- package net is the parameters `Net` and `Web`, and SHA-256 with kstrtou64 and kstrtobool the
-- parameter `Kernel`. An instant is a number of nanoseconds, a Unix time an int64.
-- The kernel's parsers of addresses are the parameter `Inet`, and its printing of them `Printer`; a
-- packet is its bytes, of which skb_header_pointer and skb_copy_bits give those that it has.
-- Loops over directories, lines and lists are structural recursion; `digits_of` has fuel 20, and an
-- int64 has at most 19 digits. The loop over TLS extensions has a round for each byte, and a round
-- passes over four at least.
--
-- Not modelled: the kernel module's protection of files (src/file_protection.c), which replaces
-- operations of inodes, the registration of its hooks, and its debug builds; the graphical program
-- (gui); the fuzzer (cmd/fuzz), a test program; the HTML and JavaScript of the web pages, the server
-- of package http, and what is printed.
pub mod Base
pub mod Cli
pub mod Daemon
pub mod Domains
pub mod History
pub mod HistoryFiles
pub mod Http
pub mod Kernel
pub mod Lock
pub mod Main
pub mod Numbers
pub mod Pgp
pub mod Reports
pub mod Reset
pub mod Schedule
pub mod Scheduler
pub mod System
pub mod Tests
pub mod Web
