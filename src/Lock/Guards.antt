-- ===== src/Lock/Guards.antt =====
-- When enable, disable and unblock refuse to act.
use kblocker.Base.{
  ℕ, ◌==◌, ◌≡◌, refl, ◌⊎◌, ◌≢◌, inl, inr, ◌∙◌, true, false, List, [], ◌∷◌, arith, Text, lit,
  is_empty_lem, Bool-cases,
}
use kblocker.System.Laws.{Completes}
use kblocker.System.{Os, Errno, Reply, ok, err, done, exit, Prog, ◌>>◌, Reply-cases}
use kblocker.Cli.{
  sysfs, says_enabled, requires_root, module_loaded, require_module, read_sysfs, pgp_key_dir,
  dir_entries, read_domain_config_file, read_file_lines, allowed_ips_file,
}
use kblocker.Domains.Guards.{requires_root-exit, require_module-exit}
use kblocker.Lock.Enable.{
  default_options, enable_options, write_domains, write_nets, write_configured_lists, arm,
  start_block, require_idle, do_enable,
}
use kblocker.Lock.Ciphers.{key_count}
use kblocker.Lock.Unlock.{pgp_on, disable_with, do_disable, parse_key_arg, find_key, do_unblock}

module _ (O : Os) where
  open O use {State, euid, read_file}

  -- The kernel says that a block is active.
  abbrev pub IsActive : State → Type 0
  IsActive s =
      (raw : Text) × (read_sysfs O s (sysfs (lit "enabled")) ≡ ok raw) × (says_enabled raw ≡ true)

  require_idle-exit :
      (k : Prog State (Unit {0})) (s : State)
      → IsActive s
      → (requires_root O >> (require_module O >> (require_idle O >> k))) s ≡ exit 1 s
  unfolding requires_root require_module require_idle
  require_idle-exit k s (raw, r, on) = ground (arith, r, on)

  -- Without root, without the module, or while a block is active, `enable` ends in status 1 and
  -- changes nothing, whatever its arguments are: a block cannot be started anew.
  pub do_enable_refused :
      (args : List Text) (s : State)
      → (euid s ≢ 0) ⊎ ((module_loaded O s ≡ false) ⊎ IsActive s)
      → do_enable O args s ≡ exit 1 s
  unfolding do_enable
  do_enable_refused args s (inl h) = requires_root-exit O (Unit {0}) _ s h
  do_enable_refused args s (inr (inl h)) = require_module-exit O (Unit {0}) _ s h
  do_enable_refused args s (inr (inr h)) = require_idle-exit _ s h

  -- As root, with the module loaded and while the kernel says that the key is with its holders,
  -- `disable` changes nothing and ends in status 1. With no key given, and none of the ciphertexts
  -- decrypted to one, `unblock` ends in status 1 too, with no more changed than the look for a key
  -- and the attempts to decrypt do.
  pub locked_refused :
      (args : List Text) (s s' s'' : State)
      → euid s ≡ 0
      → module_loaded O s ≡ true
      → pgp_on O s ≡ true
      → parse_key_arg O args s ≡ done [] s'
      → pgp_on O s' ≡ true
      → find_key O [] s' ≡ done [] s''
      → (do_disable O s ≡ exit 1 s) × (do_unblock O args s ≡ exit 1 s'')
  unfolding do_disable do_unblock requires_root
  locked_refused args s s' s'' root loaded on given still found =
      (ground (arith, root, loaded, on), ground (arith, root, loaded, given, still, found))

  -- As root, with the module loaded and while the kernel says that the key is with its holders,
  -- `unblock` with a key given writes that key to the `disable` of the kernel, and goes on as
  -- that write is answered.
  pub do_unblock_given :
      (args : List Text) (key : Text) (s s' : State)
      → euid s ≡ 0
      → module_loaded O s ≡ true
      → parse_key_arg O args s ≡ done key s'
      → pgp_on O s' ≡ true
      → key ≢ []
      → do_unblock O args s ≡ disable_with O key s'
  unfolding do_unblock requires_root find_key
  do_unblock_given args key s s' root loaded given still some_key =
      ground (arith, root, loaded, given, still, is_empty_lem key some_key)

  write_domains-Completes : (ds : List Text) → Completes (write_domains O ds)
  unfolding write_domains
  write_domains-Completes [] s = (s, refl)
  write_domains-Completes (d ∷ ds) s = (_, refl)

  write_nets-Completes : (r : Reply (List Text)) → Completes (write_nets O r)
  unfolding write_nets
  write_nets-Completes (err e) s = (s, refl)
  write_nets-Completes (ok nets) s = (_, refl)

  write_configured_lists-Completes : Completes (write_configured_lists O)
  unfolding write_configured_lists
  write_configured_lists-Completes s =
      let (a, p) = write_domains-Completes (read_domain_config_file O s) s in
      let (b, q) = write_nets-Completes (read_file_lines O a allowed_ips_file) a in
      (b, ground (arith, p, q))

  -- How `arm` ends. `lock_key` is the write that asks the kernel to lock the key.
  abbrev pub lock_key : State → Reply (Unit {0}) × State
  lock_key = O.write_file (sysfs (lit "pgp_active")) (lit "1")

  abbrev pub holders : State → ℕ
  holders s = key_count (dir_entries O s (pgp_key_dir O s))

  arm_cases :
      (k : Prog State (Unit {0})) (s : State)
      → ((holders s ≢ 0) × ((lock_key s).0 ≡ ok tt) × ((arm O >> k) s ≡ k (lock_key s).1))
        ⊎ (((holders s ≡ 0) × ((arm O >> k) s ≡ exit 1 s))
            ⊎ ((holders s ≢ 0)
                × ((e : Errno) × ((lock_key s).0 ≡ err e))
                × ((arm O >> k) s ≡ exit 1 (lock_key s).1)))
  unfolding arm
  arm_cases k s = elim (Bool-cases (holders s == 0)) [
    | inl none_there ↦ inr (inl (ground arith, ground (arith, none_there)))
    | inr some_there ↦ elim (Reply-cases (lock_key s).0) [
      | inl (e, p) ↦ inr (inr (ground (arith, some_there), (e, p), ground (arith, some_there, p)))
      | inr (_, p) ↦ inl (ground (arith, some_there), p, ground (arith, some_there, p))
    ]
  ]

  enable_steps :
      (k : Prog State (Unit {0})) (s : State)
      → euid s ≡ 0
      → module_loaded O s ≡ true
      → (¬ IsActive s)
      → (requires_root O >> (require_module O >> (require_idle O >> k))) s ≡ k s
  unfolding requires_root require_module require_idle
  enable_steps k s root loaded idle = elim (Reply-cases (read_sysfs O s (sysfs (lit "enabled")))) [
    | inl (e, r) ↦ ground (arith, r)
    | inr (raw, r) ↦
        let not_on : says_enabled raw ≢ true = λ on. idle (raw, r, on) in ground (arith, r, not_on)
  ]

  -- Where nothing refuses it and without --insecure, `enable` writes the configured lists and then
  -- starts a block only if the key directory holds a file with the name of a key and the
  -- kernel has accepted to lock the key. If either fails it ends in status 1 with nothing written
  -- to `enabled`.
  pub do_enable_armed :
      (args : List Text) (s : State)
      → euid s ≡ 0
      → module_loaded O s ≡ true
      → (¬ IsActive s)
      → (enable_options default_options args).insecure ≡ false
      → (s1 : State) × (write_configured_lists O s ≡ done tt s1)
        × (((holders s1 ≢ 0)
              × ((lock_key s1).0 ≡ ok tt)
              × (do_enable O args s
                  ≡ start_block O (enable_options default_options args) (lock_key s1).1))
            ⊎ (((holders s1 ≡ 0) × (do_enable O args s ≡ exit 1 s1))
                ⊎ ((holders s1 ≢ 0)
                    × ((e : Errno) × ((lock_key s1).0 ≡ err e))
                    × (do_enable O args s ≡ exit 1 (lock_key s1).1))))
  unfolding do_enable
  do_enable_armed args s root loaded idle secure =
      let o = enable_options default_options args in
      let (s1, written) = write_configured_lists-Completes s in
      let pass = enable_steps _ s root loaded idle in
      let reaches : do_enable O args s ≡ (arm O >> start_block O o) s1 =
        pass ∙ ground (arith, written, secure) in
      (
        s1,
        written,
        elim (arm_cases (start_block O o) s1) [
          | inl (some_there, p, goes) ↦ inl (some_there, p, reaches ∙ goes)
          | inr (inl (none_there, stops)) ↦ inr (inl (none_there, reaches ∙ stops))
          | inr (inr (some_there, p, stops)) ↦ inr (inr (some_there, p, reaches ∙ stops))
        ],
      )
