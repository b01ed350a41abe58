-- ===== src/Kernel/Attributes.antt =====
-- src/main.c and src/key.c: what a write to an attribute and a read of `key` do to the session,
-- and the work of its timer (src/state.c).
use kblocker.Base.{
  ℕ, ◌+◌, ◌++◌, ◌==◌, ◌&&◌, not, Bool, true, false, none, some, List, Text, lit, if◌then◌else◌, ltb,
}
use kblocker.Kernel.{
  Kernel, Status, success, einval, erange, eperm, Session, max_session_seconds, zeros,
  remaining_seconds, disable_blocking, generate_unload_key, check_key, enable_blocking, hex_text,
}

module _ (K : Kernel) where
  open K use {parse_u64, parse_bool}

  -- A write of 0 to `enabled`.
  unfoldable pub end_unlocked : Session → Status × Session
  end_unlocked s =
      if s.pgp_active
      then (if s.enabled then (eperm, s) else (success, s))
      else (success, disable_blocking s)

  unfoldable pub enabled_store : List ℕ → Text → Session → Status × Session
  enabled_store fresh buf s = elim (parse_u64 buf) [
    | none ↦ (einval, s)
    | some val ↦
        if ltb max_session_seconds val
        then (erange, s)
        else if val == 0
        then end_unlocked s
        else enable_blocking K fresh val s
  ]

  unfoldable pub unblock_store : Text → Session → Status × Session
  unblock_store buf s = elim (check_key K buf s) [
    | success ↦ (
      success,
      record (disable_blocking s) {
        allow_unload = true;
        unload_key = zeros 16;
        key_hash = zeros 32;
      },
    )
    | einval ↦ (einval, s)
    | erange ↦ (erange, s)
    | eperm ↦ (eperm, s)
  ]

  unfoldable pub disable_store : List ℕ → Text → Session → Status × Session
  disable_store fresh buf s =
      if not s.pgp_active then (success, disable_blocking s) else elim (check_key K buf s) [
        | success ↦ (success, generate_unload_key K fresh (disable_blocking s))
        | einval ↦ (einval, s)
        | erange ↦ (erange, s)
        | eperm ↦ (eperm, s)
      ]

  -- `pgp_active` as it becomes: armed before a session, or no longer.
  unfoldable pub set_pgp_active : Bool → Session → Session
  set_pgp_active val s =
      if val && not s.pgp_active
      then record s {
        pgp_active = true;
        unload_key = zeros 16;
        pgp_key = zeros 16;
        pgp_key_consumed = true;
        state_restored = false;
      }
      else if not val && s.pgp_active
      then record s { pgp_active = false; pgp_key = zeros 16; pgp_key_consumed = true }
      else s

  unfoldable pub pgp_active_store : Text → Session → Status × Session
  pgp_active_store buf s = elim (parse_bool buf) [
    | none ↦ (einval, s)
    | some val ↦ if s.enabled then (eperm, s) else (success, set_pgp_active val s)
  ]

  -- The text that a read of `key` gives.
  unfoldable pub unload_key_show : Session → Text × Session
  unload_key_show s =
      if s.state_restored
      then (lit "restored\n", s)
      else if s.pgp_active
      then if s.pgp_key_consumed then (lit "encrypted\n", s) else (
        hex_text s.pgp_key ++ lit "\n",
        record s { pgp_key = zeros 16; pgp_key_consumed = true },
      )
      else (hex_text s.unload_key ++ lit "\n", s)

  -- The timer's work, once a second while a session runs.
  unfoldable pub kb_expire_work_fn : Session → Session
  kb_expire_work_fn s =
      if not s.enabled then s else if remaining_seconds s == 0 then disable_blocking s else s

  unfoldable pub second : Session → Session
  second s = record s { now_boot = s.now_boot + 1 }
