-- ===== src/Reset.antt =====
-- cmd/kblockerctl/reset.go: the reset command. Each step returns whether it worked, the errors
-- that are printed are left out.
pub mod Refusal
pub mod Steps
use kblocker.Base.{
  Bool, true, false, not, ◌&&◌, ◌||◌, Option, none, some, List, [], ◌∷◌, ◌++◌, Text, lit, text_eq,
  first_line, trim_space, join, if◌then◌else◌,
}
use kblocker.System.{
  Os, Errno, enoent, Reply, ok, err, Entry, Prog, ◌>>=◌, ◌>>◌, ret, quit, ask, act, act_, is_ok,
}
use kblocker.Cli.{
  sysfs, blocked_domains_file, allowed_ips_file, newline, path_join, is_cipher_name, requires_root,
  module_loaded, write_lines, chattr, pgp_key_dir, pgp_enc_dir, dir_entries,
}
use kblocker.Scheduler.{Codec, schedule_state_file, no_blocks, write_schedule, blocking_enabled}
use kblocker.HistoryFiles.{history_file, history_open_file}

unfoldable pub default_domains : List Text
default_domains =
    lit "facebook.com"
    ∷ lit "fbcdn.net"
    ∷ lit "instagram.com"
    ∷ lit "cdninstagram.com"
    ∷ lit "x.com"
    ∷ lit "twitter.com"
    ∷ lit "twimg.com"
    ∷ lit "tiktok.com"
    ∷ lit "tiktokcdn.com"
    ∷ lit "reddit.com"
    ∷ lit "redd.it"
    ∷ lit "snapchat.com"
    ∷ lit "threads.net"
    ∷ lit "bsky.app"
    ∷ []

unfoldable pub web_drop_in : Text
web_drop_in = lit "/etc/systemd/system/kblocker-scheduler.service.d/web.conf"

unfoldable pub scheduler_unit : Text
scheduler_unit = lit "kblocker-scheduler.service"

pub record ResetOptions : Type 0 where
  pub history : Bool
  pub holders : Bool
  pub yes : Bool

-- The loop over the arguments; `none` is an unknown option.
unfoldable pub reset_options : ResetOptions → List Text → Option ResetOptions
reset_options o [] = some o
reset_options o (a ∷ as') =
    if text_eq a (lit "--history")
    then reset_options (record o { history = true }) as'
    else if text_eq a (lit "--key-holders")
    then reset_options (record o { holders = true }) as'
    else if text_eq a (lit "--yes") || text_eq a (lit "-y")
    then reset_options (record o { yes = true }) as'
    else none

abbrev pub no_options : ResetOptions
no_options = record { history = false; holders = false; yes = false }

-- A file that is not there counts as removed.
unfoldable pub is_gone : Reply (Unit {0}) → Bool
is_gone (ok _) = true
is_gone (err enoent) = true
is_gone (err _) = false

module _ (O : Os) where
  open O use {State, stat, stdin_is_terminal, read_stdin, write_file, remove, mkdir_all, run}

  -- Every path is tried, whatever happened to those before it.
  unfoldable pub remove_files : List Text → Prog State Bool
  remove_files [] = ret true
  remove_files (p ∷ ps) = do
    reply ← act (remove p)
    others ← remove_files ps
    ret (is_gone reply && others)

  unfoldable pub confirm_reset : Prog State Bool
  confirm_reset = do
    terminal ← ask stdin_is_terminal
    if not terminal then ret false else (do
      reply ← act read_stdin
      elim reply [
        | err _ ↦ ret false
        | ok raw ↦ ret (text_eq (trim_space (first_line raw)) (lit "reset"))
      ])

  -- The file of `resetSites`, which is written after the kernel's lists.
  write_default_file : Prog State Bool
  write_default_file = do
    act_ (mkdir_all (lit "/etc/kblocker"))
    chattr O blocked_domains_file (lit "-i")
    reply ← act (write_file blocked_domains_file (join default_domains newline ++ newline))
    chattr O blocked_domains_file (lit "+i")
    ret (is_ok reply)

  unfoldable pub reset_sites : Prog State Bool
  unfolding write_default_file
  reset_sites = do
    loaded ← ask (module_loaded O)
    if not loaded then write_default_file else (do
      sites ← act (write_lines O (sysfs (lit "blocked_domains")) default_domains)
      if not (is_ok sites) then ret false else (do
        ips ← act (write_file (sysfs (lit "blocked_ips")) newline)
        if not (is_ok ips) then ret false else write_default_file))

  remove_allowed : Prog State Bool
  remove_allowed = chattr O allowed_ips_file (lit "-i") >> remove_files (allowed_ips_file ∷ [])

  unfoldable pub reset_allowed : Prog State Bool
  unfolding remove_allowed
  reset_allowed = do
    loaded ← ask (module_loaded O)
    if not loaded then remove_allowed else (do
      reply ← act (write_file (sysfs (lit "allowed_ips")) newline)
      if not (is_ok reply) then ret false else remove_allowed)

  unfoldable pub reset_schedule : Codec → Prog State Bool
  reset_schedule codec = do
    written ← write_schedule O codec no_blocks
    if not written then ret false else remove_files (schedule_state_file ∷ [])

  -- The service is restarted only if the setting was there.
  restart_pages : Prog State Bool
  restart_pages = do
    removed ← remove_files (web_drop_in ∷ [])
    if not removed then ret false else (do
      reloaded ← act (run (lit "systemctl" ∷ lit "daemon-reload" ∷ []) [])
      if not (is_ok reloaded) then ret false else (do
        restarted ← act (run (lit "systemctl" ∷ lit "try-restart" ∷ scheduler_unit ∷ []) [])
        ret (is_ok restarted)))

  unfoldable pub reset_web_pages : Prog State Bool
  unfolding restart_pages
  reset_web_pages = do
    reply ← ask (λ s. stat s web_drop_in)
    elim reply [ err enoent ↦ ret true | _ ↦ restart_pages ]

  -- Every registered key, and the ciphertexts `unlock-*.asc`, which filepath.Glob finds.
  pub key_paths : Text → List Entry → List Text
  key_paths dir [] = []
  key_paths dir (e ∷ es) =
      let rest = key_paths dir es in if not e.is_dir then path_join dir e.name ∷ rest else rest

  pub cipher_paths : Text → List Entry → List Text
  cipher_paths dir [] = []
  cipher_paths dir (e ∷ es) =
      let rest = cipher_paths dir es in
      if is_cipher_name e.name then path_join dir e.name ∷ rest else rest

  unfoldable pub chattr_all : List Text → Prog State (Unit {0})
  chattr_all [] = ret tt
  chattr_all (p ∷ ps) = chattr O p (lit "-i") >> chattr_all ps

  unfoldable pub reset_key_holders : Prog State Bool
  unfolding key_paths cipher_paths
  reset_key_holders = do
    keys ← ask (pgp_key_dir O)
    dir ← ask (pgp_enc_dir O)
    registered ← ask (λ s. dir_entries O s keys)
    encrypted ← ask (λ s. dir_entries O s dir)
    let paths = key_paths keys registered ++ cipher_paths dir encrypted
    chattr_all paths
    remove_files paths

  -- The steps in order; the last two only when asked for.
  unfoldable pub reset_steps : Codec → ResetOptions → List (Prog State Bool)
  reset_steps codec o =
      reset_sites
      ∷ reset_allowed
      ∷ reset_schedule codec
      ∷ reset_web_pages
      ∷ ((if o.history then remove_files (history_file ∷ history_open_file ∷ []) ∷ [] else [])
          ++ (if o.holders then reset_key_holders ∷ [] else []))

  -- Whether no step failed. A step that fails does not stop the others.
  unfoldable pub run_steps : List (Prog State Bool) → Prog State Bool
  run_steps [] = ret true
  run_steps (m ∷ ms) = m >>= λ worked. run_steps ms >>= λ others. ret (worked && others)

  -- Whether to go on: --yes, or the word on a terminal.
  unfoldable pub confirmed : ResetOptions → Prog State Bool
  confirmed o = if o.yes then ret true else confirm_reset

  unfoldable pub reset_with : Codec → ResetOptions → Prog State (Unit {0})
  reset_with codec o = do
    requires_root O
    on ← ask (blocking_enabled O codec)
    if on then quit 1 else (do
      go ← confirmed o
      if not go
          then quit 1
          else (run_steps (reset_steps codec o) >>= λ worked. if worked then ret tt else quit 1))

  unfoldable pub do_reset : Codec → List Text → Prog State (Unit {0})
  do_reset codec args = elim (reset_options no_options args) [
    | none ↦ quit 1
    | some o ↦ reset_with codec o
  ]
