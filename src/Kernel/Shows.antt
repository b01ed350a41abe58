-- ===== src/Kernel/Shows.antt =====
-- src/main.c and src/key.c: what the files of the kernel's session show. The counts of `status` that
-- belong to other parts of the module are arguments.
pub mod Reads
use kblocker.Base.{ℕ, ◌+◌, ◌++◌, Bool, true, false, List, [], ◌∷◌, Text, lit, if◌then◌else◌}
use kblocker.Base.Int.{pos}
use kblocker.Numbers.{itoa}
use kblocker.Kernel.{Session, remaining_seconds}

-- %d of a bool
unfoldable pub bit : Bool → Text
bit b = if b then lit "1" else lit "0"

unfoldable pub enabled_show : Session → Text
enabled_show s = bit s.enabled ++ (lit " " ++ (itoa (pos (remaining_seconds s)) ++ lit "\n"))

unfoldable pub pgp_active_show : Session → Text
pgp_active_show s = bit s.pgp_active ++ lit "\n"

-- The counts of the block lists, of the allowed networks, and of the protected files.
pub record Counts : Type 0 where
  pub ips_v4 : ℕ
  pub ips_v6 : ℕ
  pub domains : ℕ
  pub protected : ℕ
  pub allowed : ℕ

unfoldable pub status_line : Text → Text → Text
status_line name value = name ++ (lit ": " ++ (value ++ lit "\n"))

unfoldable pub status_lines : List (Text × Text) → Text
status_lines [] = []
status_lines ((name, value) ∷ rest) = status_line name value ++ status_lines rest

unfoldable pub status_fields : Counts → Session → List (Text × Text)
status_fields n s =
    (lit "enabled", bit s.enabled)
    ∷ (lit "blocked_ips_v4", itoa (pos n.ips_v4))
    ∷ (lit "blocked_ips_v6", itoa (pos n.ips_v6))
    ∷ (lit "blocked_domains", itoa (pos n.domains))
    ∷ (lit "block_count", itoa (pos (n.ips_v4 + n.ips_v6)))
    ∷ (lit "remaining", itoa (pos (remaining_seconds s)))
    ∷ (lit "allow_unload", bit s.allow_unload)
    ∷ (lit "protected_files", itoa (pos n.protected))
    ∷ (lit "state_restored", bit s.state_restored)
    ∷ (lit "pgp_active", bit s.pgp_active)
    ∷ (lit "allowed_ips", itoa (pos n.allowed))
    ∷ []

unfoldable pub status_show : Counts → Session → Text
status_show n s = status_lines (status_fields n s)
