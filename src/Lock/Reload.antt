-- ===== src/Lock/Reload.antt =====
-- cmd/kblockerctl/main.go, the reload and crash commands.
use kblocker.Base.{
  ◌==◌, false, List, [], ◌∷◌, Text, lit, text_eq, is_empty, first_line, trim_space, if◌then◌else◌,
}
use kblocker.System.{Os, ok, err, Entry, Prog, ◌>>=◌, ◌>>◌, ret, quit, ask, act, act_}
use kblocker.Cli.{
  sysfs, path_join, fp_from_filename, cipher_name, pgp_key_dir, pgp_enc_dir, requires_root,
  require_module, write_lines, chattr, gpg_encrypt, dir_entries, read_key_from_sysfs,
  read_domain_config_file,
}
use kblocker.Lock.Ciphers.{key_count, is_recipient}

module _ (O : Os) where
  open O use {
    State, read_file, stat, read_dir, has_program, read_stdin, stdin_is_terminal, write_file,
    remove, remove_all, mkdir_all, chmod, run,
  }

  refresh_for : Text → Entry → Prog State (Unit {0})
  refresh_for hex_key e = do
    keys ← ask (pgp_key_dir O)
    dir ← ask (pgp_enc_dir O)
    let out_path = path_join dir (cipher_name (fp_from_filename e.name))
    chattr O out_path (lit "-i")
    act_ (remove out_path)
    _ ← gpg_encrypt O hex_key (path_join keys e.name) out_path
    act_ (chmod out_path)
    chattr O out_path (lit "+i")

  -- The loop of `doReload`, which takes directories too and drops errors.
  pub refresh_all : Text → List Entry → Prog State (Unit {0})
  unfolding refresh_for
  refresh_all hex_key [] = ret tt
  refresh_all hex_key (e ∷ es) =
      let rest = refresh_all hex_key es in
      if is_recipient (record e { is_dir = false }) then refresh_for hex_key e >> rest else rest

  -- After the list is written: the ciphertexts, if the kernel still shows a key.
  pub refresh_ciphertexts : Prog State (Unit {0})
  unfolding refresh_all
  refresh_ciphertexts = do
    hex_key ← read_key_from_sysfs O
    if is_empty hex_key then ret tt else (do
      dir ← ask (pgp_enc_dir O)
      act_ (mkdir_all dir)
      keys ← ask (pgp_key_dir O)
      now_there ← ask (λ s. dir_entries O s keys)
      refresh_all hex_key now_there)

  unfoldable pub do_reload : Prog State (Unit {0})
  unfolding refresh_ciphertexts
  do_reload = do
    requires_root O
    require_module O
    domains ← ask (read_domain_config_file O)
    elim domains [
      | [] ↦ quit 1
      | d ∷ ds ↦ (do
        act_ (write_lines O (sysfs (lit "blocked_domains")) (d ∷ ds))
        keys ← ask (pgp_key_dir O)
        entries ← ask (λ s. dir_entries O s keys)
        if key_count entries == 0 then ret tt else refresh_ciphertexts)
    ]

  -- The confirmation is a line of stdin; without it nothing is done.
  unfoldable pub do_crash : Prog State (Unit {0})
  do_crash = do
    requires_root O
    require_module O
    reply ← act read_stdin
    elim reply [
      | err _ ↦ ret tt
      | ok raw ↦
          if text_eq (trim_space (first_line raw)) (lit "yes")
          then act_ (run (lit "rmmod" ∷ lit "-f" ∷ lit "kblocker" ∷ []) [])
          else ret tt
    ]
