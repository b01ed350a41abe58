-- ===== src/Main/Guarded.antt =====
-- What a user who is not root, and what anyone during a block, can do with the commands.
use kblocker.Base.{◌≡◌, ◌≢◌, refl, inl, Bool, true, false, List, [], ◌∷◌, Text, arith}
use kblocker.System.{Os, exit}
use kblocker.Cli.{requires_root}
use kblocker.Domains.{do_block, do_add, do_remove, do_block_ip, do_allow_ip}
use kblocker.Lock.Enable.{do_enable}
use kblocker.Lock.Unlock.{do_disable, do_unblock, do_unload}
use kblocker.Lock.Reload.{do_reload, do_crash}
use kblocker.Pgp.{do_key, do_add_pgp, do_remove_pgp, do_list_pgp, do_pgp_cipher}
use kblocker.Reset.Refusal.{do_reset_refused}
use kblocker.Daemon.{do_schedule_daemon}
use kblocker.Main.{
  Command, enable, disable, block, unblock, unload, status, reload, add, remove, block_ip, allow_ip,
  reset, list_sites, show_key, add_pgp, remove_pgp, list_pgp, pgp_cipher, crash, add_pgp_web,
  unblock_web, schedule, web_pages, schedule_daemon, history, help, unknown, command_names, named,
  World, run_command, main,
}

-- The commands that are for root alone.
unfoldable pub is_for_root : Command → Bool
is_for_root status = false
is_for_root list_sites = false
is_for_root add_pgp_web = false
is_for_root unblock_web = false
is_for_root schedule = false
is_for_root web_pages = false
is_for_root history = false
is_for_root help = false
is_for_root _ = true

module _ (O : Os) where
  open O use {State, euid}

  run_command_refused :
      (w : World O) (c : Command) (args : List Text) (s : State)
      → euid s ≢ 0
      → is_for_root c ≡ true
      → run_command O w c args s ≡ exit 1 s
  unfolding run_command is_for_root requires_root do_enable do_disable do_block do_unblock do_unload
      do_reload do_add do_remove do_block_ip do_allow_ip do_key do_add_pgp do_remove_pgp do_list_pgp
      do_pgp_cipher do_crash do_schedule_daemon
  run_command_refused w enable args s user root = ground arith
  run_command_refused w disable args s user root = ground arith
  run_command_refused w block [] s user root = ground arith
  run_command_refused w block (a ∷ as') s user root = ground arith
  run_command_refused w unblock args s user root = ground arith
  run_command_refused w unload args s user root = ground arith
  run_command_refused w status args s user root = absurd (ground (arith, root))
  run_command_refused w reload args s user root = ground arith
  run_command_refused w add args s user root = ground arith
  run_command_refused w remove args s user root = ground arith
  run_command_refused w block_ip args s user root = ground arith
  run_command_refused w allow_ip args s user root = ground arith
  run_command_refused w reset args s user root = do_reset_refused O w.codec args s (inl user)
  run_command_refused w list_sites args s user root = absurd (ground (arith, root))
  run_command_refused w show_key args s user root = ground arith
  run_command_refused w add_pgp args s user root = ground arith
  run_command_refused w remove_pgp args s user root = ground arith
  run_command_refused w list_pgp args s user root = ground arith
  run_command_refused w pgp_cipher args s user root = ground arith
  run_command_refused w crash args s user root = ground arith
  run_command_refused w add_pgp_web args s user root = absurd (ground (arith, root))
  run_command_refused w unblock_web args s user root = absurd (ground (arith, root))
  run_command_refused w schedule args s user root = absurd (ground (arith, root))
  run_command_refused w web_pages args s user root = absurd (ground (arith, root))
  run_command_refused w schedule_daemon args s user root = ground arith
  run_command_refused w history args s user root = absurd (ground (arith, root))
  run_command_refused w help args s user root = absurd (ground (arith, root))
  run_command_refused w unknown args s user root = refl

  -- Without root, every command but those that only print, the two that serve the pages, `schedule`
  -- and `web-pages` ends in status 1 and changes nothing; so does a word that is no command.
  pub main_refused :
      (w : World O) (cmd : Text) (args : List Text) (s : State)
      → euid s ≢ 0
      → is_for_root (named command_names cmd) ≡ true
      → main O w (cmd ∷ args) s ≡ exit 1 s
  unfolding main
  main_refused w cmd args s user root =
      run_command_refused w (named command_names cmd) args s user root
