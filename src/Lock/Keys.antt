-- ===== src/Lock/Keys.antt =====
-- Who can decrypt the key of a block that `enable` has started.
use kblocker.Base.{ℕ, ◌≡◌, refl, ◌≢◌, false, List, [], ◌∷◌, arith, All, Text, lit, is_empty_lem}
use kblocker.Numbers.{itoa, mul64}
use kblocker.System.{Os, Entry, ok, done, exit}
use kblocker.Cli.{sysfs, pgp_key_dir, pgp_enc_dir, dir_entries, read_key_from_sysfs}
use kblocker.Lock.Enable.{EnableOptions, hand_over, start_block}
use kblocker.Lock.Ciphers.{is_recipient, encrypt_all}

module _ (O : Os) where
  open O use {State}

  encrypt_all_none :
      (key : Text) (es : List Entry) (n : ℕ) (s : State)
      → All (λ e. is_recipient e ≡ false) es
      → encrypt_all O key es n s ≡ done n s
  unfolding encrypt_all
  encrypt_all_none key [] n s h = refl
  encrypt_all_none key (e ∷ es) n s h = ground (arith, h, encrypt_all_none key es n s h.1)

  -- A key directory whose files are not named by fingerprints strands the block: without
  -- --insecure, once the kernel has accepted the write to `enabled` and has shown its key, the
  -- command ends in status 1 with the key encrypted to nobody, and the block stays as the kernel
  -- started it.
  pub start_block_stranded :
      (o : EnableOptions) (key : Text) (s s1 s2 : State)
      → o.insecure ≡ false
      → O.write_file (sysfs (lit "enabled")) (itoa (mul64 o.minutes 60)) s ≡ (ok tt, s1)
      → read_key_from_sysfs O s1 ≡ done key s2
      → key ≢ []
      → All
          (λ e. is_recipient e ≡ false)
          (dir_entries O
            (O.mkdir_all (pgp_enc_dir O s2) s2).1
            (pgp_key_dir O (O.mkdir_all (pgp_enc_dir O s2) s2).1))
      → start_block O o s ≡ exit 1 (O.mkdir_all (pgp_enc_dir O s2) s2).1
  unfolding start_block hand_over
  start_block_stranded o key s s1 s2 secure started shown some_key nobody =
      let made = (O.mkdir_all (pgp_enc_dir O s2) s2).1 in
      let none_sent =
        encrypt_all_none key (dir_entries O made (pgp_key_dir O made)) 0 made nobody in
      ground (arith, secure, started, shown, none_sent, is_empty_lem key some_key)
