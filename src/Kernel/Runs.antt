-- ===== src/Kernel/Runs.antt =====
-- The kernel's session under any sequence of writes, reads, seconds and runs of its timer.
use kblocker.Base.{ℕ, List, Text, Option}
use kblocker.Kernel.{Kernel, Session, kblocker_init}
use kblocker.Kernel.Attributes.{
  enabled_store, unblock_store, disable_store, pgp_active_store, unload_key_show, kb_expire_work_fn,
  second,
}

-- A write has its text, and the random bytes that it draws if it does.
pub data Event : Type 0 where
  write_enabled : List ℕ → Text → Event
  write_unblock : Text → Event
  write_disable : List ℕ → Text → Event
  write_pgp_active : Text → Event
  read_key : Event
  timer_fires : Event
  second_passes : Event

unfoldable pub handle : Kernel → Event → Session → Session
handle K (write_enabled fresh buf) s = (enabled_store K fresh buf s).1
handle K (write_unblock buf) s = (unblock_store K buf s).1
handle K (write_disable fresh buf) s = (disable_store K fresh buf s).1
handle K (write_pgp_active buf) s = (pgp_active_store K buf s).1
handle K read_key s = (unload_key_show K s).1
handle K timer_fires s = kb_expire_work_fn K s
handle K second_passes s = second K s

-- `t` comes from `s` by events of the kind `A`.
pub data Run (K : Kernel) (A : Event → Type 0) (s : Session) : Session → Type 0 where
  start : Run K A s s
  later : {t : Session} → Run K A s t → (e : Event) → A e → Run K A s (handle K e t)

-- Any event can come.
abbrev pub Any : Event → Type 0
Any e = Unit

-- What a loaded module can come to, from a boot with or without a saved session.
pub data Reachable (K : Kernel) : Session → Type 0 where
  booted :
      {t : Session} (fresh : List ℕ) (now : ℕ) (saved : Option (List ℕ × ℕ))
      → Run K Any (kblocker_init K fresh now saved) t
      → Reachable K t
