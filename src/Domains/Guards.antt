-- ===== src/Domains/Guards.antt =====
-- The guards that every command on the lists passes first: `requireRoot`, `requireModule` and
-- `requireDisabled`.
use kblocker.Base.{◌≡◌, ◌⊎◌, ◌≢◌, inl, inr, true, false, List, [], ◌∷◌, arith, Text, lit}
use kblocker.System.{Os, ok, exit, Prog, ◌>>◌, Reply-cases}
use kblocker.Cli.{
  sysfs, says_enabled, requires_root, module_loaded, require_module, require_disabled,
}
use kblocker.Domains.{Net, do_block, do_add, do_remove, do_block_ip, do_allow_ip}

module _ (O : Os) where
  open O use {State, euid, read_file}

  -- The kernel says that blocking is on.
  abbrev pub IsBlocking : State → Type 0
  IsBlocking s =
      (raw : Text) × (read_file s (sysfs (lit "enabled")) ≡ ok raw) × (says_enabled raw ≡ true)

  -- One of the guards refuses.
  abbrev pub IsRefused : State → Type 0
  IsRefused s = (euid s ≢ 0) ⊎ ((module_loaded O s ≡ false) ⊎ IsBlocking s)

  pub requires_root-exit :
      (B : Type 0) (k : Prog State B) (s : State) → euid s ≢ 0 → (requires_root O >> k) s ≡ exit 1 s
  unfolding requires_root
  requires_root-exit B k s h = ground arith

  pub require_module-exit :
      (B : Type 0) (k : Prog State B) (s : State)
      → module_loaded O s ≡ false
      → (requires_root O >> (require_module O >> k)) s ≡ exit 1 s
  unfolding requires_root require_module
  require_module-exit B k s h = ground arith

  require_disabled-exit :
      (B : Type 0) (k : Prog State B) (s : State)
      → IsBlocking s
      → (requires_root O >> (require_module O >> (require_disabled O >> k))) s ≡ exit 1 s
  unfolding requires_root require_module require_disabled
  require_disabled-exit B k s (raw, r, on) = ground (arith, r, on)

  -- The three guards together.
  guards-exit :
      (B : Type 0) (k : Prog State B) (s : State)
      → IsRefused s
      → (requires_root O >> (require_module O >> (require_disabled O >> k))) s ≡ exit 1 s
  guards-exit B k s (inl h) = requires_root-exit B _ s h
  guards-exit B k s (inr (inl h)) = require_module-exit B _ s h
  guards-exit B k s (inr (inr h)) = require_disabled-exit B k s h

  do_block-exit : (args : List Text) (s : State) → IsRefused s → do_block O args s ≡ exit 1 s
  unfolding do_block requires_root
  do_block-exit [] s h = ground arith
  do_block-exit (d ∷ ds) s h = guards-exit (Unit {0}) _ s h

  -- Without root, without the module, or while the kernel says that blocking is on, none of the
  -- commands on the lists does anything: each ends in status 1 in the state it started in.
  pub lists_refused :
      (net : Net) (args : List Text) (s : State)
      → IsRefused s
      → (do_block O args s ≡ exit 1 s)
        × (do_add O args s ≡ exit 1 s)
        × (do_remove O args s ≡ exit 1 s)
        × (do_block_ip O args s ≡ exit 1 s)
        × (do_allow_ip O net args s ≡ exit 1 s)
  unfolding do_add do_remove do_block_ip do_allow_ip
  lists_refused net args s h = (
    do_block-exit args s h,
    guards-exit (Unit {0}) _ s h,
    guards-exit (Unit {0}) _ s h,
    guards-exit (Unit {0}) _ s h,
    guards-exit (Unit {0}) _ s h,
  )

  -- The guards let the command go on when none of them refuses.
  abbrev pub IsAdmitted : State → Type 0
  IsAdmitted s = (euid s ≡ 0) × (module_loaded O s ≡ true) × ¬ IsBlocking s

  pub guards_pass :
      (B : Type 0) (k : Prog State B) (s : State)
      → IsAdmitted s
      → (requires_root O >> (require_module O >> (require_disabled O >> k))) s ≡ k s
  unfolding requires_root require_module require_disabled
  guards_pass B k s (root, loaded, idle) =
      elim (Reply-cases (read_file s (sysfs (lit "enabled")))) [
        | inl (e, r) ↦ ground (arith, r)
        | inr (raw, r) ↦
            let not_on : says_enabled raw ≢ true = λ on. idle (raw, r, on) in
            ground (arith, r, not_on)
      ]
