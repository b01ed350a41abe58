-- ===== src/Lock/Ciphers.antt =====
-- cmd/kblockerctl/main.go, the ciphertexts of the unload key: which
-- key files they are made for, and when they are made and removed.
use kblocker.Base.{
  ℕ, suc, Bool, true, false, not, ◌&&◌, List, [], ◌∷◌, ◌++◌, Text, lit, is_empty, if◌then◌else◌,
}
use kblocker.System.{Os, enoent, ok, err, Entry, Prog, ◌>>=◌, ◌>>◌, ret, ask, act_}
use kblocker.Cli.{
  path_join, is_key_file, fp_from_filename, is_fingerprint, cipher_name, is_cipher_name, cipher_fp,
  pgp_key_dir, pgp_enc_dir, chattr, gpg_encrypt, dir_entries,
}

-- `pgpCount`. A directory of such a name counts too.
unfoldable pub key_count : List Entry → ℕ
key_count [] = 0
key_count (e ∷ es) = if is_key_file e.name then suc (key_count es) else key_count es

-- A key file that the loops encrypt for: not a directory, and named by a fingerprint.
unfoldable pub is_recipient : Entry → Bool
is_recipient e =
    not e.is_dir
    && (is_key_file e.name
        && (not (is_empty (fp_from_filename e.name)) && is_fingerprint (fp_from_filename e.name)))

module _ (O : Os) where
  open O use {
    State, read_file, stat, read_dir, has_program, read_stdin, stdin_is_terminal, write_file,
    remove, remove_all, mkdir_all, chmod, run,
  }

  -- Encrypts the key for one recipient, over the ciphertext that an earlier session left.
  unfoldable pub encrypt_for : Text → Entry → Prog State Bool
  encrypt_for hex_key e = do
    keys ← ask (pgp_key_dir O)
    dir ← ask (pgp_enc_dir O)
    let out_path = path_join dir (cipher_name (fp_from_filename e.name))
    chattr O out_path (lit "-i")
    act_ (remove out_path)
    reply ← gpg_encrypt O hex_key (path_join keys e.name) out_path
    elim reply [
      | err _ ↦ ret false
      | ok _ ↦ act_ (chmod out_path) >> (chattr O out_path (lit "+i") >> ret true)
    ]

  -- The loop over the key directory, with the number of successes so far.
  unfoldable pub encrypt_all : Text → List Entry → ℕ → Prog State ℕ
  encrypt_all hex_key [] n = ret n
  encrypt_all hex_key (e ∷ es) n =
      let rest = encrypt_all hex_key es in
      if is_recipient e
      then (encrypt_for hex_key e >>= λ sent. rest (if sent then suc n else n))
      else rest n

  -- `cleanupPGPCiphertexts`
  unfoldable pub remove_all_entries : Text → List Entry → Prog State (Unit {0})
  remove_all_entries dir [] = ret tt
  remove_all_entries dir (e ∷ es) = do
    chattr O (path_join dir e.name) (lit "-i")
    act_ (remove (path_join dir e.name))
    remove_all_entries dir es

  unfoldable pub cleanup_ciphertexts : Prog State (Unit {0})
  unfolding remove_all_entries
  cleanup_ciphertexts = do
    dir ← ask (pgp_enc_dir O)
    entries ← ask (λ s. dir_entries O s dir)
    remove_all_entries dir entries

  is_missing : State → Text → Bool
  is_missing s path = elim (stat s path) [ ok _ ↦ false | err enoent ↦ true | err _ ↦ false ]

  -- The loop of `cleanupPGPCiphertextsExcept(true)`: ciphertexts whose key is not registered go.
  pub remove_stale : Text → Text → List Entry → Prog State (Unit {0})
  unfolding is_missing
  remove_stale keys dir [] = ret tt
  remove_stale keys dir (e ∷ es) =
      let rest = remove_stale keys dir es in
      if is_cipher_name e.name
      then (do
        missing ← ask (λ s. is_missing s (path_join keys (cipher_fp e.name ++ lit ".asc")))
        if missing
            then chattr O (path_join dir e.name) (lit "-i")
              >> (act_ (remove (path_join dir e.name)) >> rest)
            else rest)
      else rest

  unfoldable pub cleanup_stale_ciphertexts : Prog State (Unit {0})
  unfolding remove_stale
  cleanup_stale_ciphertexts = do
    dir ← ask (pgp_enc_dir O)
    keys ← ask (pgp_key_dir O)
    entries ← ask (λ s. dir_entries O s dir)
    remove_stale keys dir entries
