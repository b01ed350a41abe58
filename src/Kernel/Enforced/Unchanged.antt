-- ===== src/Kernel/Enforced/Unchanged.antt =====
-- A locked session keeps its lists, and so what it lets through, until its time is out.
use kblocker.Base.{
  ℕ, ◌≤◌, ◌<◌, ◌≡◌, refl, ◌∙◌, true, Option, List, Text, arith, split, Option-cases, inl, inr,
}
use kblocker.Kernel.{Kernel}
use kblocker.Kernel.Locked.{IsKeyless, IsSameSession, handle-now, handle-IsSameSession}
use kblocker.Kernel.Domains.{parse_domains, blocked_domains_store}
use kblocker.Kernel.StateFile.{c_text}
use kblocker.Kernel.Lists.{Inet, Lists, kb_parse_allowed, blocked_ips_store, allowed_ips_store}
use kblocker.Kernel.Filter.{Family, Packet}
use kblocker.Kernel.Enforced.{
  Module, Change, session_event, write_blocked_ips, write_allowed_ips, write_blocked_domains,
  change, Changes, unchanged, changed, verdict,
}

-- A change that presents no key with the hash.
abbrev pub IsKeylessChange : Kernel → List ℕ → Change → Type 0
IsKeylessChange K hash (session_event e) = IsKeyless K hash e
IsKeylessChange K hash _ = Unit

module _ (K : Kernel) (I : Inet) where
  -- While a session runs, a write to a list is refused and leaves the list as it was.
  blocked_ips_store-enabled :
      (buf : Text) (lists : Lists) → (blocked_ips_store I buf true lists).1 ≡ lists
  unfolding blocked_ips_store
  blocked_ips_store-enabled buf lists = refl

  allowed_ips_store-enabled :
      (buf : Text) (lists : Lists) → (allowed_ips_store I buf true lists).1 ≡ lists
  unfolding allowed_ips_store
  allowed_ips_store-enabled buf lists =
      elim (Option-cases (kb_parse_allowed I (c_text buf) b'\n')) [
        | inl bad ↦ ground (arith, bad)
        | inr (nets, good) ↦ ground (arith, good)
      ]

  blocked_domains_store-enabled :
      (buf : Text) (ds : List Text) → (blocked_domains_store buf true ds).1 ≡ ds
  unfolding blocked_domains_store
  blocked_domains_store-enabled buf ds =
      elim (Option-cases (parse_domains 0 (split b'\n' (c_text buf)))) [
        | inl bad ↦ ground (arith, bad)
        | inr (new, good) ↦ ground (arith, good)
      ]

  record IsKept (m t : Module) : Type 0 where
    pub same_session : IsSameSession m.session t.session
    pub same_lists : t.lists ≡ m.lists

  change-now : (c : Change) (t : Module) → t.session.now_boot ≤ (change K I c t).session.now_boot
  unfolding change
  change-now (session_event e) t = handle-now K e t.session
  change-now (write_blocked_ips buf) t = omega arith
  change-now (write_allowed_ips buf) t = omega arith
  change-now (write_blocked_domains buf) t = omega arith

  change-IsKept :
      (c : Change) (m t : Module)
      → IsKeylessChange K m.session.key_hash c
      → IsKept m t
      → t.session.now_boot < m.session.expiry_boot
      → IsKept m (change K I c t)
  unfolding change
  change-IsKept (session_event e) m t a h early = record {
    same_session = handle-IsSameSession K e m.session t.session a h.same_session early;
    same_lists = h.same_lists;
  }
  change-IsKept (write_blocked_ips buf) m t a h early = record {
    same_session = h.same_session;
    same_lists =
        rw h.same_session.still_enabled (blocked_ips_store-enabled buf t.lists ∙ h.same_lists);
  }
  change-IsKept (write_allowed_ips buf) m t a h early = record {
    same_session = h.same_session;
    same_lists =
        rw h.same_session.still_enabled (allowed_ips_store-enabled buf t.lists ∙ h.same_lists);
  }
  change-IsKept (write_blocked_domains buf) m t a h early = record {
    same_session = h.same_session;
    same_lists =
        rw (h.same_session.still_enabled, blocked_domains_store-enabled buf t.lists.domains)
          h.same_lists;
  }

  Changes-IsKept :
      {m t : Module}
      → m.session.enabled ≡ true
      → m.session.pgp_active ≡ true
      → Changes K I (IsKeylessChange K m.session.key_hash) m t
      → t.session.now_boot < m.session.expiry_boot
      → IsKept m t
  Changes-IsKept on locked unchanged early = ground arith
  Changes-IsKept {m} on locked (changed {t} r c a) early =
      let before : t.session.now_boot < m.session.expiry_boot = omega (arith, change-now c t) in
      change-IsKept c m t a (Changes-IsKept on locked r before) before

  -- What a locked session lets through is settled when it starts: after every sequence of writes to
  -- the session's attributes and to the lists, of reads of the key, seconds and runs of the timer
  -- that presents no right key and comes to its end before the session's time, the lists are the same
  -- and every packet is dropped or let through as it was in the beginning.
  pub Changes-verdict :
      (skip : Packet → ℕ → ℕ → Option (ℕ × ℕ × ℕ)) {m t : Module} (family : Family) (p : Packet)
      → m.session.enabled ≡ true
      → m.session.pgp_active ≡ true
      → Changes K I (IsKeylessChange K m.session.key_hash) m t
      → t.session.now_boot < m.session.expiry_boot
      → (t.lists ≡ m.lists) × (verdict K I skip t family p ≡ verdict K I skip m family p)
  unfolding verdict
  Changes-verdict skip {m} {t} family p on locked r early =
      let kept = Changes-IsKept on locked r early in
      (kept.same_lists, rw (kept.same_lists, kept.same_session.still_enabled, on) refl)
