-- ===== src/Tests/KernelTests.antt =====
-- Examples for the kernel's session: a hash that keeps its text, and numbers in decimal.
use kblocker.Base.{
  ℕ, suc, ◌+◌, ◌<◌, ◌≡◌, refl, ◌∙◌, true, false, none, some, List, [], ◌∷◌, lit, text_eq,
  trim_suffix, arith, digits_value, if◌then◌else◌,
}
use kblocker.Kernel.{
  Kernel, Session, max_session_seconds, remaining_seconds, kblocker_init, key_if_new, initial,
  generate_unload_key, check_key, enable_blocking, disable_blocking, stop_session, parsed_key,
}
use kblocker.Kernel.Attributes.{
  end_unlocked, unblock_store, set_pgp_active, pgp_active_store, second, enabled_store,
  unload_key_show,
}
use kblocker.Kernel.Runs.{
  Any, Run, start, later, booted, write_enabled, write_unblock, write_pgp_active, second_passes,
  handle,
}
use kblocker.Kernel.Invariant.{IsSound, Reachable-IsSound}
use kblocker.Kernel.Locked.{IsWrong, IsKeyless, IsSameSession, Run-IsSameSession}
use kblocker.Kernel.Timer.{seconds, Reachable-seconds}
use kblocker.Kernel.Keys.{
  IsKey, IsStarted, enabled_store-IsStarted, taken, taken-now, taken-IsSameSession, started,
  IsEndedBy, unload_key_show_once, unload_key_show-IsEndedBy,
}

abbrev pub kernel : Kernel
kernel = record {
  sha256 = λ bytes. bytes;
  parse_u64 = λ text. digits_value 0 text;
  parse_bool = λ text. if text_eq text (lit "1") then some true else some false;
}

abbrev pub kernel_key : List ℕ
kernel_key = 1 ∷ 2 ∷ 3 ∷ 4 ∷ 5 ∷ 6 ∷ 7 ∷ 8 ∷ 9 ∷ 10 ∷ 11 ∷ 12 ∷ 13 ∷ 14 ∷ 15 ∷ 255 ∷ []

abbrev pub booted_at_7 : Session
booted_at_7 = kblocker_init kernel kernel_key 7 none

-- PGP is armed, a session of 60 seconds starts, and its key is read.
abbrev pub armed : Session
armed = handle kernel (write_pgp_active (lit "1")) booted_at_7

abbrev pub locked : Session
locked = started kernel kernel_key (lit "60") armed

pub locked-Run : Run kernel Any booted_at_7 locked
unfolding handle
locked-Run =
    later (later start (write_pgp_active (lit "1")) tt) (write_enabled kernel_key (lit "60")) tt

Reachable-IsSound_example : IsSound locked
Reachable-IsSound_example = Reachable-IsSound kernel (booted kernel_key 7 none locked-Run)

Reachable-seconds_example : (seconds kernel max_session_seconds locked).enabled ≡ false
Reachable-seconds_example = Reachable-seconds kernel (booted kernel_key 7 none locked-Run)

armed_off : armed.enabled ≡ false
unfolding handle kblocker_init key_if_new initial generate_unload_key pgp_active_store
    set_pgp_active lit text_eq
armed_off = refl

armed_pgp : armed.pgp_active ≡ true
unfolding handle kblocker_init key_if_new initial generate_unload_key pgp_active_store
    set_pgp_active lit text_eq
armed_pgp = refl

armed_now : armed.now_boot ≡ 7
unfolding handle kblocker_init key_if_new initial generate_unload_key pgp_active_store
    set_pgp_active lit text_eq
armed_now = refl

sixty : digits_value 0 (lit "60") ≡ some 60
unfolding lit digits_value
sixty = refl

pub locked_st : IsStarted kernel kernel_key 60 armed (started kernel kernel_key (lit "60") armed)
locked_st =
    enabled_store-IsStarted kernel kernel_key (lit "60") 60 armed armed_off sixty (omega arith)
      (omega arith)

no_key : (hash : List ℕ) → IsWrong kernel hash (lit "no")
unfolding parsed_key lit trim_suffix text_eq
no_key hash key e = absurd (ground (arith, e))

-- One second in, after a write of 0 and of a wrong key.
abbrev later_on : Session → Session
later_on s =
    handle kernel (write_unblock (lit "no"))
      (handle kernel (write_enabled [] (lit "0")) (handle kernel second_passes s))

later_on-Run : (hash : List ℕ) (s : Session) → Run kernel (IsKeyless kernel hash) s (later_on s)
later_on-Run hash s =
    later (later (later start second_passes tt) (write_enabled [] (lit "0")) tt)
      (write_unblock (lit "no")) (no_key hash)

later_on_now : (s : Session) → s.enabled ≡ true → (later_on s).now_boot ≡ suc s.now_boot
unfolding handle second disable_blocking stop_session enabled_store end_unlocked enable_blocking
    unblock_store check_key parsed_key lit trim_suffix text_eq digits_value
later_on_now s on = ground arith

Run-IsSameSession_example : IsSameSession locked (later_on locked)
Run-IsSameSession_example =
    Run-IsSameSession kernel locked_st.is_enabled (locked_st.same_lock ∙ armed_pgp)
      (later_on-Run locked.key_hash locked)
      (omega (
        arith,
        later_on_now locked locked_st.is_enabled,
        locked_st.has_expiry,
        locked_st.same_now,
        armed_now,
      ))

locked_time : 0 < remaining_seconds locked
unfolding remaining_seconds
locked_time =
    ground (arith, locked_st.is_enabled, locked_st.has_expiry, locked_st.same_now, armed_now)

taken_st :
    IsSameSession locked (taken kernel locked) × ((taken kernel locked).pgp_key_consumed ≡ true)
taken_st =
    taken-IsSameSession kernel locked locked_st.is_enabled (locked_st.same_lock ∙ armed_pgp)
      locked_st.not_restored

early_on : (later_on (taken kernel locked)).now_boot < armed.now_boot + 60
early_on = omega (
  arith,
  later_on_now (taken kernel locked) taken_st.0.still_enabled,
  taken-now kernel locked,
  locked_st.same_now,
)

unload_key_show_once_example :
    (unload_key_show kernel (later_on (taken kernel locked))).0 ≡ lit "encrypted\n"
unload_key_show_once_example =
    unload_key_show_once kernel locked (later_on (taken kernel locked)) locked_st.is_enabled
      (locked_st.same_lock ∙ armed_pgp) locked_st.not_restored
      (later_on-Run (taken kernel locked).key_hash (taken kernel locked))
      (omega (arith, early_on, locked_st.has_expiry, taken_st.0.same_expiry))

kernel_key-IsKey : IsKey kernel_key
kernel_key-IsKey = ground arith

unload_key_show-IsEndedBy_example :
    IsEndedBy kernel (unload_key_show kernel locked).0 kernel_key (later_on (taken kernel locked))
unload_key_show-IsEndedBy_example =
    unload_key_show-IsEndedBy kernel kernel_key kernel_key (lit "60") 60 armed
      (later_on (taken kernel locked)) kernel_key-IsKey armed_off armed_pgp sixty (omega arith)
      (omega arith) (later_on-Run (taken kernel locked).key_hash (taken kernel locked)) early_on
