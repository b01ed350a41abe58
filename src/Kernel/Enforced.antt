-- ===== src/Kernel/Enforced.antt =====
-- src/main.c and src/netfilter.c together: the session and the lists of the module, and what they let
-- through while anyone writes to its attributes.
pub mod Unchanged
use kblocker.Base.{ℕ, ◌≡◌, Bool, Option, List, Text}
use kblocker.Kernel.{Kernel, Session}
use kblocker.Kernel.Runs.{Event, handle}
use kblocker.Kernel.Domains.{blocked_domains_store}
use kblocker.Kernel.Lists.{Inet, Lists, blocked_ips_store, allowed_ips_store}
use kblocker.Kernel.Filter.{Verdict, Family, Packet, kblocker_hook}

pub record Module : Type 0 where
  pub session : Session
  pub lists : Lists

-- An event of the session, or a write to a list.
pub data Change : Type 0 where
  session_event : Event → Change
  write_blocked_ips : Text → Change
  write_allowed_ips : Text → Change
  write_blocked_domains : Text → Change

module _ (K : Kernel) (I : Inet) where
  unfoldable pub change : Change → Module → Module
  change (session_event e) m = record m { session = handle K e m.session }
  change (write_blocked_ips buf) m = record m {
    lists = (blocked_ips_store I buf m.session.enabled m.lists).1;
  }
  change (write_allowed_ips buf) m = record m {
    lists = (allowed_ips_store I buf m.session.enabled m.lists).1;
  }
  change (write_blocked_domains buf) m =
      let stored = (blocked_domains_store buf m.session.enabled m.lists.domains).1 in
      record m { lists = record (m.lists) { domains = stored } }

  -- `t` comes from `m` by changes of the kind `A`.
  pub data Changes (A : Change → Type 0) (m : Module) : Module → Type 0 where
    unchanged : Changes A m m
    changed : {t : Module} → Changes A m t → (c : Change) → A c → Changes A m (change c t)

  -- What becomes of a packet.
  unfoldable pub verdict :
      (Packet → ℕ → ℕ → Option (ℕ × ℕ × ℕ)) → Module → Family → Packet → Verdict
  verdict skip m family p = kblocker_hook I skip m.session.enabled family m.lists p
