-- ===== src/Kernel/Timer.antt =====
-- The timer of src/state.c ends a session when its time is out, and not before.
use kblocker.Base.{
  ℕ, zero, suc, ◌+◌, ◌-◌, ◌≤◌, ◌<◌, ◌≡◌, ◌↔◌, true, false, arith, Bool-cases, inl, inr,
}
use kblocker.Kernel.{
  Kernel, Session, max_session_seconds, remaining_seconds, stop_session, disable_blocking,
}
use kblocker.Kernel.Attributes.{kb_expire_work_fn, second}
use kblocker.Kernel.Runs.{Reachable}
use kblocker.Kernel.Invariant.{Reachable-IsSound}

-- A session `n` seconds later, if the timer alone works on it.
unfoldable pub seconds : Kernel → ℕ → Session → Session
seconds K zero s = s
seconds K (suc n) s = kb_expire_work_fn K (second K (seconds K n s))

-- What `n` seconds make of a session that runs.
record IsLater (n : ℕ) (s t : Session) : Type 0 where
  now : t.now_boot ≡ s.now_boot + n
  same_expiry : t.enabled ≡ true → t.expiry_boot ≡ s.expiry_boot
  in_time : t.enabled ≡ true → 0 < n → s.now_boot + n < s.expiry_boot
  until : s.now_boot + n < s.expiry_boot → t.enabled ≡ true

module _ (K : Kernel) where
  seconds-IsLater : (n : ℕ) (s : Session) → s.enabled ≡ true → IsLater n s (seconds K n s)
  unfolding seconds kb_expire_work_fn second remaining_seconds disable_blocking stop_session
  seconds-IsLater zero s on = ground arith
  seconds-IsLater (suc n) s on = ground (arith, seconds-IsLater n s on)

  -- A session that runs and has time to go is still on after `n` seconds of its timer exactly when
  -- it had more than `n` to go.
  pub seconds_lem :
      (n : ℕ) (s : Session)
      → s.enabled ≡ true
      → 0 < remaining_seconds s
      → ((seconds K n s).enabled ≡ true) ↔ (n < remaining_seconds s)
  unfolding remaining_seconds
  seconds_lem zero s on some_time = ground (arith, seconds-IsLater 0 s on)
  seconds_lem (suc n) s on some_time = ground (arith, seconds-IsLater (suc n) s on)

  seconds_off : (n : ℕ) (s : Session) → s.enabled ≡ false → (seconds K n s).enabled ≡ false
  unfolding seconds kb_expire_work_fn second
  seconds_off zero s off = off
  seconds_off (suc n) s off = ground (arith, seconds_off n s off)

  seconds_end :
      (n : ℕ) (s : Session) → remaining_seconds s ≤ suc n → (seconds K (suc n) s).enabled ≡ false
  unfolding remaining_seconds
  seconds_end n s short = elim (Bool-cases s.enabled) [
    | inl on ↦ ground (arith, seconds-IsLater (suc n) s on)
    | inr off ↦ seconds_off (suc n) s off
  ]

  -- Whatever state the module has come to, its timer ends the session within ten years.
  pub Reachable-seconds :
      {s : Session} → Reachable K s → (seconds K max_session_seconds s).enabled ≡ false
  Reachable-seconds {s} r =
      seconds_end (max_session_seconds - 1) s (omega (arith, (Reachable-IsSound K r).is_bounded))
