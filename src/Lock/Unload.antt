-- ===== src/Lock/Unload.antt =====
-- When unload removes the module.
use kblocker.Base.{
  ◌≡◌, ◌≢◌, ◌⊎◌, inl, inr, List, [], arith, Text, lit, is_empty, is_empty_iff, Bool-cases,
}
use kblocker.System.{Os, Errno, Reply, ok, err, done, exit, Reply-cases}
use kblocker.Cli.{sysfs, requires_root}
use kblocker.Lock.Unlock.{parse_key_arg, find_key, remove_module, do_unload}

module _ (O : Os) where
  open O use {State, euid}

  -- The write that asks the kernel to let the module go.
  abbrev pub authorize : Text → State → Reply (Unit {0}) × State
  authorize key = O.write_file (sysfs (lit "unblock")) key

  -- As root, `unload` removes the module and the files only after the kernel has accepted the key
  -- that it found. Without a key, or with one that the kernel refuses, it ends in status 1 with no
  -- more changed than the look for the key and that write do.
  pub do_unload_lem :
      (args : List Text) (provided key : Text) (s s1 s2 : State)
      → euid s ≡ 0
      → parse_key_arg O args s ≡ done provided s1
      → find_key O provided s1 ≡ done key s2
      → ((key ≡ []) × (do_unload O args s ≡ exit 1 s2))
        ⊎ (((key ≢ [])
              × ((e : Errno) × ((authorize key s2).0 ≡ err e))
              × (do_unload O args s ≡ exit 1 (authorize key s2).1))
            ⊎ ((key ≢ [])
                × ((authorize key s2).0 ≡ ok tt)
                × (do_unload O args s ≡ remove_module O (authorize key s2).1)))
  unfolding do_unload requires_root
  do_unload_lem args provided key s s1 s2 root given found = elim (Bool-cases (is_empty key)) [
    | inl p ↦ inl (ground (arith, p, is_empty_iff key), ground (arith, root, given, found, p))
    | inr p ↦
        let some_key : key ≢ [] = ground (arith, p, is_empty_iff key) in
        elim (Reply-cases (authorize key s2).0) [
          | inl (e, q) ↦ inr (inl (some_key, (e, q), ground (arith, root, given, found, p, q)))
          | inr (_, q) ↦ inr (inr (some_key, q, ground (arith, root, given, found, p, q)))
        ]
  ]
