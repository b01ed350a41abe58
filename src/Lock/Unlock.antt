-- ===== src/Lock/Unlock.antt =====
-- cmd/kblockerctl/main.go, the disable, unblock and unload commands,
-- and where they find the unload key.
use kblocker.Base.{
  Bool, false, not, ◌||◌, Option, none, some, List, [], ◌∷◌, Text, lit, text_eq, is_empty, take,
  trim_space, if◌then◌else◌,
}
use kblocker.System.{Os, ok, err, Entry, Prog, ◌>>=◌, ◌>>◌, ret, quit, ask, act, act_, is_ok}
use kblocker.Cli.{
  sysfs, state_file, path_join, is_cipher_name, pgp_enc_dir, requires_root, module_loaded,
  read_sysfs, chattr, gpg_decrypt, dir_entries,
}
use kblocker.Lock.Ciphers.{cleanup_ciphertexts}

-- The value of the first --key or -k that has one; `none` is a value "-", read from stdin.
pub key_arg : List Text → Option Text
key_arg [] = some []
key_arg (a ∷ []) = some []
key_arg (a ∷ v ∷ rest) =
    let later = key_arg (v ∷ rest) in
    if text_eq a (lit "--key") || text_eq a (lit "-k")
    then (if text_eq v (lit "-") then none else some v)
    else later

module _ (O : Os) where
  open O use {
    State, read_file, stat, read_dir, has_program, read_stdin, stdin_is_terminal, write_file,
    remove, remove_all, mkdir_all, chmod, run,
  }

  -- What disable and unblock do once the kernel has ended the block.
  unfoldable pub forget_session : Prog State (Unit {0})
  forget_session = do
    chattr O state_file (lit "-i")
    act_ (remove state_file)
    cleanup_ciphertexts O

  unfoldable pub pgp_on : State → Bool
  pgp_on s = elim (read_sysfs O s (sysfs (lit "pgp_active"))) [
    | ok raw ↦ text_eq raw (lit "1")
    | err _ ↦ false
  ]

  -- The write to `disable`, and what follows it.
  unfoldable pub disable_with : Text → Prog State (Unit {0})
  disable_with key = do
    reply ← act (write_file (sysfs (lit "disable")) key)
    elim reply [ err _ ↦ quit 1 | ok _ ↦ forget_session ]

  unfoldable pub do_disable : Prog State (Unit {0})
  do_disable = do
    requires_root O
    loaded ← ask (module_loaded O)
    if not loaded
        then ret tt
        else (do locked ← ask pgp_on; if locked then quit 1 else disable_with (lit "0"))

  -- The first ciphertext that this machine can decrypt.
  unfoldable pub decrypt_first : Text → List Entry → Prog State Text
  decrypt_first dir [] = ret []
  decrypt_first dir (e ∷ es) =
      let rest = decrypt_first dir es in
      if is_cipher_name e.name
      then (do
        reply ← gpg_decrypt O (path_join dir e.name)
        elim reply [ err _ ↦ rest | ok k ↦ if is_empty k then rest else ret k ])
      else rest

  unfoldable pub decrypted_key : Prog State Text
  decrypted_key = do
    dir ← ask (pgp_enc_dir O)
    entries ← ask (λ s. dir_entries O s dir)
    decrypt_first dir entries

  -- `parseKeyArg`: the key of the command line, from stdin (4096 bytes at most) for "-".
  unfoldable pub parse_key_arg : List Text → Prog State Text
  unfolding key_arg
  parse_key_arg args = elim (key_arg args) [
    | some key ↦ ret key
    | none ↦ (do
      reply ← act read_stdin
      elim reply [ ok raw ↦ ret (trim_space (take 4096 raw)) | err _ ↦ ret [] ])
  ]

  -- The given key, or the first that can be decrypted.
  unfoldable pub find_key : Text → Prog State Text
  find_key provided = if is_empty provided then decrypted_key else ret provided

  unfoldable pub do_unblock : List Text → Prog State (Unit {0})
  do_unblock args = do
    requires_root O
    loaded ← ask (module_loaded O)
    if not loaded then ret tt else (do
      provided ← parse_key_arg args
      locked ← ask pgp_on
      if not locked
          then disable_with (lit "0")
          else (do key ← find_key provided; if is_empty key then quit 1 else disable_with key))

  -- `chattr -i` on every entry.
  pub unlock_entries : Text → List Entry → Prog State (Unit {0})
  unlock_entries dir [] = ret tt
  unlock_entries dir (e ∷ es) = chattr O (path_join dir e.name) (lit "-i") >> unlock_entries dir es

  -- The module is gone, or is forced out; then the files go.
  unfoldable pub remove_module : Prog State (Unit {0})
  unfolding unlock_entries
  remove_module = do
    reply ← act (run (lit "rmmod" ∷ lit "kblocker" ∷ []) [])
    if is_ok reply then ret tt else act_ (run (lit "rmmod" ∷ lit "-f" ∷ lit "kblocker" ∷ []) [])
    chattr O state_file (lit "-i")
    act_ (remove state_file)
    dir ← ask (pgp_enc_dir O)
    entries ← ask (λ s. dir_entries O s dir)
    unlock_entries dir entries
    act_ (remove_all dir)
    chattr O (lit "/etc/kblocker/domains.conf") (lit "-i")
    act_ (remove_all (lit "/etc/kblocker"))

  unfoldable pub do_unload : List Text → Prog State (Unit {0})
  do_unload args = do
    requires_root O
    provided ← parse_key_arg args
    key ← find_key provided
    if is_empty key then quit 1 else (do
      reply ← act (write_file (sysfs (lit "unblock")) key)
      elim reply [ err _ ↦ quit 1 | ok _ ↦ remove_module ])
