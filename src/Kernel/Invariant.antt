-- ===== src/Kernel/Invariant.antt =====
-- src/state.c, `kb_check_invariants`: what holds of the session whenever the lock is let go.
use kblocker.Base.{ℕ, ◌≤◌, ◌≡◌, true, false, Option, none, some, List, Text, arith}
use kblocker.Kernel.{
  Kernel, Session, max_session_seconds, zeros, remaining_seconds, stop_session, disable_blocking,
  start_session, generate_unload_key, place_key, enable_blocking, restore_session, initial,
  key_if_new, kblocker_init,
}
use kblocker.Kernel.Attributes.{
  end_unlocked, enabled_store, unblock_store, disable_store, set_pgp_active, pgp_active_store,
  unload_key_show, kb_expire_work_fn, second,
}
use kblocker.Kernel.Runs.{
  Event, write_enabled, write_unblock, write_disable, write_pgp_active, read_key, timer_fires,
  second_passes, handle, Run, start, later, Reachable, booted,
}

pub record IsSound (s : Session) : Type 0 where
  -- the module is held exactly while a session runs
  pub holds_module : s.ref_taken ≡ s.enabled
  pub no_unload : s.enabled ≡ true → s.allow_unload ≡ false
  pub no_raw_key : s.enabled ≡ true → s.pgp_active ≡ true → s.unload_key ≡ zeros 16
  pub restored_enabled : s.state_restored ≡ true → s.enabled ≡ true
  pub restored_locked : s.state_restored ≡ true → s.pgp_active ≡ true
  pub one_shot_enabled : s.pgp_key_consumed ≡ false → s.enabled ≡ true
  pub one_shot_locked : s.pgp_key_consumed ≡ false → s.pgp_active ≡ true
  pub is_bounded : remaining_seconds s ≤ max_session_seconds
  pub no_expiry : s.enabled ≡ false → s.expiry_boot ≡ 0

module _ (K : Kernel) where
  enabled_store-IsSound :
      (fresh : List ℕ) (buf : Text) (s : Session)
      → IsSound s
      → IsSound (enabled_store K fresh buf s).1
  unfolding enabled_store end_unlocked enable_blocking place_key generate_unload_key start_session
      disable_blocking stop_session remaining_seconds
  enabled_store-IsSound fresh buf s h = ground arith

  unblock_store-IsSound : (buf : Text) (s : Session) → IsSound s → IsSound (unblock_store K buf s).1
  unfolding unblock_store disable_blocking stop_session remaining_seconds
  unblock_store-IsSound buf s h = ground arith

  disable_store-IsSound :
      (fresh : List ℕ) (buf : Text) (s : Session)
      → IsSound s
      → IsSound (disable_store K fresh buf s).1
  unfolding disable_store disable_blocking stop_session generate_unload_key remaining_seconds
  disable_store-IsSound fresh buf s h = ground arith

  pgp_active_store-IsSound :
      (buf : Text) (s : Session) → IsSound s → IsSound (pgp_active_store K buf s).1
  unfolding pgp_active_store set_pgp_active remaining_seconds
  pgp_active_store-IsSound buf s h = ground arith

  unload_key_show-IsSound : (s : Session) → IsSound s → IsSound (unload_key_show K s).1
  unfolding unload_key_show remaining_seconds
  unload_key_show-IsSound s h = ground arith

  kb_expire_work_fn-IsSound : (s : Session) → IsSound s → IsSound (kb_expire_work_fn K s)
  unfolding kb_expire_work_fn disable_blocking stop_session remaining_seconds
  kb_expire_work_fn-IsSound s h = ground arith

  second-IsSound : (s : Session) → IsSound s → IsSound (second K s)
  unfolding second remaining_seconds
  second-IsSound s h = ground arith

  kblocker_init-IsSound :
      (fresh : List ℕ) (now : ℕ) (saved : Option (List ℕ × ℕ))
      → IsSound (kblocker_init K fresh now saved)
  unfolding kblocker_init key_if_new initial restore_session start_session generate_unload_key
      remaining_seconds
  kblocker_init-IsSound fresh now none = ground arith
  kblocker_init-IsSound fresh now (some (hash, rem)) = ground arith

  -- Every event keeps the invariant, whatever it writes and whether it is refused or not.
  pub handle-IsSound : (e : Event) (s : Session) → IsSound s → IsSound (handle K e s)
  unfolding handle
  handle-IsSound (write_enabled fresh buf) s = enabled_store-IsSound fresh buf s
  handle-IsSound (write_unblock buf) s = unblock_store-IsSound buf s
  handle-IsSound (write_disable fresh buf) s = disable_store-IsSound fresh buf s
  handle-IsSound (write_pgp_active buf) s = pgp_active_store-IsSound buf s
  handle-IsSound read_key s = unload_key_show-IsSound s
  handle-IsSound timer_fires s = kb_expire_work_fn-IsSound s
  handle-IsSound second_passes s = second-IsSound s

  Run-IsSound : {A : Event → Type 0} {s t : Session} → Run K A s t → IsSound s → IsSound t
  Run-IsSound start h = h
  Run-IsSound (later r e a) h = handle-IsSound e _ (Run-IsSound r h)

  -- In every state that the module can come to, from a boot with or without a saved session, what
  -- the kernel checks of its session holds: the module is held exactly while a session runs, and
  -- not to be unloaded then; the raw key of a PGP session is gone; a restored session and a key
  -- that waits to be read belong to a PGP session that runs; no session has more than ten years
  -- to go, and none that has ended has an expiry.
  pub Reachable-IsSound : {s : Session} → Reachable K s → IsSound s
  Reachable-IsSound (booted fresh now saved r) =
      Run-IsSound r (kblocker_init-IsSound fresh now saved)
