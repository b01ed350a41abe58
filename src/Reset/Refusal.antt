-- ===== src/Reset/Refusal.antt =====
-- When reset refuses.
use kblocker.Base.{◌≡◌, ◌≢◌, ◌⊎◌, inl, inr, true, List, arith, Text, Option-cases}
use kblocker.System.{Os, exit}
use kblocker.Cli.{requires_root}
use kblocker.Domains.Guards.{requires_root-exit}
use kblocker.Scheduler.{Codec, blocking_enabled}
use kblocker.Reset.{ResetOptions, no_options, reset_options, reset_with, do_reset}

module _ (O : Os) where
  open O use {State, euid}

  reset_with-exit :
      (codec : Codec) (o : ResetOptions) (s : State)
      → (euid s ≢ 0) ⊎ (blocking_enabled O codec s ≡ true)
      → reset_with O codec o s ≡ exit 1 s
  unfolding reset_with requires_root
  reset_with-exit codec o s (inl h) = requires_root-exit O (Unit {0}) _ s h
  reset_with-exit codec o s (inr h) = ground (arith, h)

  -- Without root, or while blocking is on, `reset` with any arguments ends in status 1 and changes
  -- nothing: it is no way out of a block.
  pub do_reset_refused :
      (codec : Codec) (args : List Text) (s : State)
      → (euid s ≢ 0) ⊎ (blocking_enabled O codec s ≡ true)
      → do_reset O codec args s ≡ exit 1 s
  unfolding do_reset
  do_reset_refused codec args s h = elim (Option-cases (reset_options no_options args)) [
    | inl p ↦ ground (arith, p)
    | inr (o, p) ↦ ground (arith, p, reset_with-exit codec o s h)
  ]
