-- ===== src/Lock/Enable.antt =====
-- cmd/kblockerctl/main.go, the enable command.
use kblocker.Base.{
  ◌==◌, Bool, true, false, ◌||◌, none, some, List, [], ◌∷◌, Text, lit, text_eq, is_empty,
  if◌then◌else◌,
}
use kblocker.Base.Int.{ℤ, pos, ltb_ℤ}
use kblocker.Numbers.{atoi, itoa, mul64}
use kblocker.System.{Os, Reply, ok, err, Prog, ◌>>=◌, ◌>>◌, ret, quit, ask, act, act_}
use kblocker.Cli.{
  sysfs, allowed_ips_file, says_enabled, pgp_key_dir, pgp_enc_dir, requires_root, require_module,
  read_sysfs, write_lines, read_file_lines, dir_entries, read_key_from_sysfs,
  read_domain_config_file,
}
use kblocker.Lock.Ciphers.{key_count, encrypt_all, cleanup_stale_ciphertexts}

pub record EnableOptions : Type 0 where
  pub insecure : Bool
  pub minutes : ℤ

-- The loop over the arguments of enable. What is neither the flag nor a positive number is passed
-- over.
unfoldable pub enable_options : EnableOptions → List Text → EnableOptions
enable_options o [] = o
enable_options o (a ∷ as') =
    enable_options
      (if text_eq a (lit "--insecure") then record o { insecure = true } else elim (atoi a) [
        | none ↦ o
        | some n ↦ if ltb_ℤ (pos 0) n then record o { minutes = n } else o
      ])
      as'

abbrev pub default_options : EnableOptions
default_options = record { insecure = false; minutes = pos 60 }

module _ (O : Os) where
  open O use {
    State, read_file, stat, read_dir, has_program, read_stdin, stdin_is_terminal, write_file,
    remove, remove_all, mkdir_all, chmod, run,
  }

  unfoldable pub write_domains : List Text → Prog State (Unit {0})
  write_domains [] = ret tt
  write_domains (d ∷ ds) = act_ (write_lines O (sysfs (lit "blocked_domains")) (d ∷ ds))

  unfoldable pub write_nets : Reply (List Text) → Prog State (Unit {0})
  write_nets (err _) = ret tt
  write_nets (ok nets) = act_ (write_lines O (sysfs (lit "allowed_ips")) nets)

  -- The lists that the files hold, written to the kernel before a block. Errors are passed over.
  unfoldable pub write_configured_lists : Prog State (Unit {0})
  write_configured_lists = do
    domains ← ask (read_domain_config_file O)
    write_domains domains
    nets ← ask (λ s. read_file_lines O s allowed_ips_file)
    write_nets nets

  -- With key holders only: there must be one, and the kernel must agree to lock the key.
  unfoldable pub arm : Prog State (Unit {0})
  arm = do
    keys ← ask (pgp_key_dir O)
    entries ← ask (λ s. dir_entries O s keys)
    if key_count entries == 0 then quit 1 else (do
      reply ← act (write_file (sysfs (lit "pgp_active")) (lit "1"))
      elim reply [ ok _ ↦ ret tt | err _ ↦ quit 1 ])

  -- Encrypts the key that the kernel shows to every key holder.
  unfoldable pub hand_over : Text → Prog State (Unit {0})
  hand_over hex_key = do
    dir ← ask (pgp_enc_dir O)
    act_ (mkdir_all dir)
    keys ← ask (pgp_key_dir O)
    entries ← ask (λ s. dir_entries O s keys)
    count ← encrypt_all O hex_key entries 0
    if count == 0 then quit 1 else cleanup_stale_ciphertexts O

  -- From the write to `enabled` on.
  unfoldable pub start_block : EnableOptions → Prog State (Unit {0})
  start_block o = do
    reply ← act (write_file (sysfs (lit "enabled")) (itoa (mul64 o.minutes 60)))
    elim reply [
      | err _ ↦ quit 1
      | ok _ ↦ (do
        hex_key ← read_key_from_sysfs O
        if is_empty hex_key || o.insecure then ret tt else hand_over hex_key)
    ]

  -- Both messages of a block that is already active end in status 1.
  unfoldable pub require_idle : Prog State (Unit {0})
  require_idle = do
    reply ← ask (λ s. read_sysfs O s (sysfs (lit "enabled")))
    elim reply [ err _ ↦ ret tt | ok raw ↦ if says_enabled raw then quit 1 else ret tt ]

  unfoldable pub do_enable : List Text → Prog State (Unit {0})
  do_enable args = do
    requires_root O
    require_module O
    require_idle
    let o = enable_options default_options args
    write_configured_lists
    if o.insecure then ret tt else arm
    start_block o
