-- ===== src/Kernel/Locked.antt =====
-- A PGP session cannot be ended before its time without its key.
use kblocker.Base.{
  ℕ, ◌≤◌, ◌<◌, ◌≡◌, ◌≢◌, true, some, List, Text, arith, text_eq_iff, Option-cases, inl, inr,
}
use kblocker.Kernel.{
  Kernel, success, Session, remaining_seconds, stop_session, disable_blocking, start_session,
  generate_unload_key, check_key, parsed_key, place_key, enable_blocking,
}
use kblocker.Kernel.Attributes.{
  end_unlocked, enabled_store, unblock_store, disable_store, set_pgp_active, pgp_active_store,
  unload_key_show, kb_expire_work_fn, second,
}
use kblocker.Kernel.Runs.{
  Event, write_enabled, write_unblock, write_disable, write_pgp_active, read_key, timer_fires,
  second_passes, handle, Run, start, later,
}

-- No key that the text can hold has the hash.
abbrev pub IsWrong : Kernel → List ℕ → Text → Type 0
IsWrong K hash buf = (key : List ℕ) → parsed_key buf ≡ some key → K.sha256 key ≢ hash

-- An event that presents no right key.
abbrev pub IsKeyless : Kernel → List ℕ → Event → Type 0
IsKeyless K hash (write_unblock buf) = IsWrong K hash buf
IsKeyless K hash (write_disable fresh buf) = IsWrong K hash buf
IsKeyless K hash _ = Unit

-- `t` is in the same locked session as `s`.
pub record IsSameSession (s t : Session) : Type 0 where
  pub still_enabled : t.enabled ≡ true
  pub still_locked : t.pgp_active ≡ true
  pub same_expiry : t.expiry_boot ≡ s.expiry_boot
  pub same_hash : t.key_hash ≡ s.key_hash
  pub same_restored : t.state_restored ≡ s.state_restored
  pub still_consumed : s.pgp_key_consumed ≡ true → t.pgp_key_consumed ≡ true

module _ (K : Kernel) where
  check_key_wrong :
      (buf : Text) (s : Session) → IsWrong K s.key_hash buf → check_key K buf s ≢ success
  unfolding check_key
  check_key_wrong buf s wrong = elim (Option-cases (parsed_key buf)) [
    | inl p ↦ ground (arith, p)
    | inr (key, p) ↦ ground (arith, p, wrong key p, text_eq_iff (K.sha256 key) s.key_hash)
  ]

  -- The clock never runs back.
  pub handle-now : (e : Event) (s : Session) → s.now_boot ≤ (handle K e s).now_boot
  unfolding handle enabled_store end_unlocked enable_blocking place_key generate_unload_key
      start_session disable_blocking stop_session unblock_store disable_store set_pgp_active
      pgp_active_store unload_key_show kb_expire_work_fn second
  handle-now (write_enabled fresh buf) s = ground arith
  handle-now (write_unblock buf) s = ground arith
  handle-now (write_disable fresh buf) s = ground arith
  handle-now (write_pgp_active buf) s = ground arith
  handle-now read_key s = ground arith
  handle-now timer_fires s = ground arith
  handle-now second_passes s = ground arith

  Run-now : {A : Event → Type 0} {s t : Session} → Run K A s t → s.now_boot ≤ t.now_boot
  Run-now start = omega arith
  Run-now (later {t} r e a) = omega (arith, handle-now e t, Run-now r)

  -- A locked session with time to go is the same after an event that presents no right key.
  pub handle-IsSameSession :
      (e : Event) (s t : Session)
      → IsKeyless K s.key_hash e
      → IsSameSession s t
      → t.now_boot < s.expiry_boot
      → IsSameSession s (handle K e t)
  unfolding handle enabled_store end_unlocked enable_blocking unblock_store disable_store
      pgp_active_store unload_key_show kb_expire_work_fn second remaining_seconds
  handle-IsSameSession (write_enabled fresh buf) s t a h early = ground arith
  handle-IsSameSession (write_unblock buf) s t a h early =
      let wrong : check_key K buf t ≢ success =
        check_key_wrong buf t (λ key e. grind (arith, a, h.same_hash)) in
      ground (arith, wrong)
  handle-IsSameSession (write_disable fresh buf) s t a h early =
      let wrong : check_key K buf t ≢ success =
        check_key_wrong buf t (λ key e. grind (arith, a, h.same_hash)) in
      ground (arith, wrong)
  handle-IsSameSession (write_pgp_active buf) s t a h early = ground arith
  handle-IsSameSession read_key s t a h early = ground arith
  handle-IsSameSession timer_fires s t a h early = ground arith
  handle-IsSameSession second_passes s t a h early = ground arith

  -- A PGP session outlasts every sequence of events that comes to its end before its time and
  -- presents no key with its hash to `unblock` or `disable`: it still runs, locked, with the same
  -- expiry and the same hash.
  pub Run-IsSameSession :
      {s t : Session}
      → s.enabled ≡ true
      → s.pgp_active ≡ true
      → Run K (IsKeyless K s.key_hash) s t
      → t.now_boot < s.expiry_boot
      → IsSameSession s t
  Run-IsSameSession on locked start early = ground arith
  Run-IsSameSession {s} on locked (later {t} r e a) early =
      let before : t.now_boot < s.expiry_boot = omega (arith, handle-now e t) in
      handle-IsSameSession e s t a (Run-IsSameSession on locked r before) before
