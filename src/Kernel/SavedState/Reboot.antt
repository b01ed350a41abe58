-- ===== src/Kernel/SavedState/Reboot.antt =====
-- A reboot does not end a session that was saved.
use kblocker.Base.{
  ℕ, ◌+◌, ◌≤◌, ◌<◌, ◌≡◌, refl, ap, ◌∙◌, true, false, Option, some, List, [], ◌∷◌, ◌++◌, Text, arith,
  length, is_empty, All,
}
use kblocker.Kernel.{Kernel, Session, initial, restore_session, start_session, max_session_seconds}
use kblocker.Kernel.Keys.{IsByte}
use kblocker.Kernel.Domains.Stored.{IsStored}
use kblocker.Kernel.StateFile.{head_text, saved_seconds, remaining_line}
use kblocker.Kernel.StateFile.Bytes.{IsNonzero}
use kblocker.Kernel.Lists.{Inet, Lists}
use kblocker.Kernel.Enforced.{Module}
use kblocker.Kernel.SavedState.{
  Printer, state_file_write_session, restore_domains, restored_hash, restored_lists,
  try_restore_state_from_disk,
}
use kblocker.Kernel.SavedState.Restored.{
  restored_hash-session, restore_domains-session, restore_ips-domains, restore_allowed-domains,
  session_file-last, head_text-whole, saved_seconds-appended,
}

-- What holds of a locked session with some seconds to go at an instant.
pub record IsLocked (hash : List ℕ) (n now : ℕ) (s : Session) : Type 0 where
  pub is_enabled : s.enabled ≡ true
  pub is_locked : s.pgp_active ≡ true
  pub is_consumed : s.pgp_key_consumed ≡ true
  pub same_hash : s.key_hash ≡ hash
  pub has_expiry : s.expiry_boot ≡ now + n

restore_session-IsLocked :
    (K : Kernel) (hash : List ℕ) (n now : ℕ)
    → 0 < n
    → n ≤ max_session_seconds
    → IsLocked hash n now (restore_session K hash n (initial K now))
unfolding restore_session start_session initial
restore_session-IsLocked K hash n now some_time fits = ground arith

newline_filled : (x y : Text) → is_empty ((x ++ (b'\n' ∷ [])) ++ y) ≡ false
newline_filled [] y = refl
newline_filled (c ∷ x) y = refl

restored_lists-domains :
    (I : Inet) (buf : Text) (lists : Lists)
    → (restored_lists I buf lists).domains ≡ restore_domains buf lists.domains
unfolding restored_lists
restored_lists-domains I buf lists = restore_allowed-domains I buf _ ∙ restore_ips-domains I buf _

-- The file of a session, and the seconds that were saved last.
abbrev pub saved_file : Printer → ℕ → Session → Lists → ℕ → Text
saved_file F seconds s lists n = state_file_write_session F seconds s lists ++ remaining_line n

-- The module after it is loaded again, with the file that is there.
abbrev pub reloaded : Kernel → Inet → (Text → Option ℕ) → ℕ → Text → ℕ → Lists → Module
reloaded K I strtoull clock file now old =
    try_restore_state_from_disk I K strtoull clock file
      (record { session = initial K now; lists = old })

-- When a session with blocked domains has been written to the state file, and then a line for the
-- seconds that it still has, the module that is loaded with that file goes on with it: it runs,
-- locked, with these seconds to go, the same hash of its key and the same domains. The file is of at
-- most 256 KB and holds no NUL, the list of domains is in order, and the hash has 32 bytes.
pub try_restore_state_from_disk-IsLocked :
    (K : Kernel) (I : Inet) (F : Printer) (strtoull : Text → Option ℕ) (clock seconds now n : ℕ)
    (s : Session) (lists old : Lists) (d : Text) (ds : List Text)
    → lists.domains ≡ d ∷ ds
    → IsStored (d ∷ ds)
    → All IsByte s.key_hash
    → length s.key_hash ≡ 32
    → All IsNonzero (saved_file F seconds s lists n)
    → length (saved_file F seconds s lists n) ≤ 262144
    → 0 < n
    → n ≤ max_session_seconds
    → ((reloaded K I strtoull clock (saved_file F seconds s lists n) now old).lists.domains
        ≡ d ∷ ds)
      × IsLocked s.key_hash n now
          (reloaded K I strtoull clock (saved_file F seconds s lists n) now old).session
unfolding try_restore_state_from_disk initial
try_restore_state_from_disk-IsLocked K I F strtoull clock seconds now n s lists old d ds listed
      stored small size no_nul fits some_time short =
    let file = saved_file F seconds s lists n in
    let (x, e) = session_file-last F seconds s lists in
    let filled : is_empty file ≡ false =
      ap (λ t. is_empty (t ++ remaining_line n)) e ∙ newline_filled x (remaining_line n) in
    let whole : head_text file ≡ file = head_text-whole file fits no_nul in
    let hash : restored_hash file ≡ some s.key_hash =
      restored_hash-session F seconds s lists d ds (remaining_line n) listed stored small size in
    let left : saved_seconds strtoull clock file ≡ n =
      saved_seconds-appended strtoull clock F seconds s lists n no_nul some_time short in
    (
      rw (filled, whole, restored_lists-domains I file old)
          (restore_domains-session F seconds s lists d ds (remaining_line n) listed stored small
            size old.domains),
      rw (filled, whole, hash, left) (restore_session-IsLocked K s.key_hash n now some_time short),
    )
