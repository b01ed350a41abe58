-- ===== src/Pgp.antt =====
-- cmd/kblockerctl/main.go, the commands on the key holders: key, add-pgp, remove-pgp, list-pgp and
-- pgp-cipher. A command that prints returns what it prints.
pub mod Ciphers
use kblocker.Base.{
  ℕ, suc, ◌==◌, ◌+◌, Bool, true, false, not, ◌&&◌, ◌||◌, Option, none, some, List, [], ◌∷◌, ◌++◌,
  Text, lit, text_eq, is_empty, has_prefix, trim_space, leb, if◌then◌else◌,
}
use kblocker.System.{Os, Reply, ok, err, Entry, Prog, ◌>>=◌, ◌>>◌, ret, quit, ask, act, act_, is_ok}
use kblocker.Cli.{
  newline, path_join, is_key_file, fp_from_filename, cipher_name, is_cipher_name, cipher_fp,
  pgp_key_dir, pgp_enc_dir, requires_root, module_loaded, chattr, gpg_show_keys, gpg_encrypt,
  dir_entries, read_key_from_sysfs,
}
use kblocker.Lock.Ciphers.{is_recipient, key_count}
use kblocker.Lock.Unlock.{decrypted_key}

-- strings.EqualFold on ASCII texts
pub lower : ℕ → ℕ
lower c = if leb b'A' c && leb c b'Z' then c + 32 else c

unfoldable pub equal_fold : Text → Text → Bool
unfolding lower
equal_fold [] [] = true
equal_fold [] (d ∷ t) = false
equal_fold (c ∷ s) [] = false
equal_fold (c ∷ s) (d ∷ t) = lower c == lower d && equal_fold s t

-- `pgpKeyFingerprints` on the entries of the directory.
unfoldable pub fingerprints : List Entry → List Text
fingerprints [] = []
fingerprints (e ∷ es) =
    let rest = fingerprints es in if is_recipient e then fp_from_filename e.name ∷ rest else rest

unfoldable pub count_ciphers : List Entry → ℕ
count_ciphers [] = 0
count_ciphers (e ∷ es) = if is_cipher_name e.name then suc (count_ciphers es) else count_ciphers es

-- A line of `key` about a key holder: the fingerprint, its name, whether it has a ciphertext.
pub record Holder : Type 0 where
  pub fingerprint : Text
  pub name : Text
  pub encrypted : Bool

-- What `key` prints; `copies` is left out when the directory cannot be read.
pub record KeyReport : Type 0 where
  pub unload_key : Text
  pub holders : List Holder
  pub copies : Option ℕ

-- An entry of `list-pgp`: the holder and the user that gpg reports.
pub record Listing : Type 0 where
  pub holder : Holder
  pub user : Text

-- The name of a file matches the target in one of four ways.
unfoldable pub names_target : Text → Text → Bool
names_target name target =
    equal_fold name (target ++ lit ".asc")
    || equal_fold name (target ++ lit ".gpg")
    || equal_fold name (target ++ lit ".pub")
    || equal_fold (fp_from_filename name) target

module _ (O : Os) where
  open O use {State, read_file, stat, read_dir, write_file, remove, mkdir_all, chmod}

  unfoldable pub pgp_key_name : State → Text → Text
  pgp_key_name s fp = elim (read_file s (path_join (pgp_key_dir O s) (fp ++ lit ".name"))) [
    | ok raw ↦ trim_space raw
    | err _ ↦ []
  ]

  -- What `key` and `list-pgp` look up for a fingerprint.
  unfoldable pub holder_of : State → Text → Holder
  holder_of s fp = record {
    fingerprint = fp;
    name = pgp_key_name s fp;
    encrypted = is_ok (stat s (path_join (pgp_enc_dir O s) (cipher_name fp)));
  }

  unfoldable pub holders_of : State → List Text → List Holder
  holders_of s [] = []
  holders_of s (fp ∷ fps) = holder_of s fp ∷ holders_of s fps

  unfoldable pub report_holders : State → List Holder
  report_holders s =
      let entries = dir_entries O s (pgp_key_dir O s) in
      if key_count entries == 0 then [] else holders_of s (fingerprints entries)

  -- The report is printed before the exit too.
  unfoldable pub do_key : Prog State KeyReport
  do_key = do
    requires_root O
    shown ← read_key_from_sysfs O
    key ← (if is_empty shown then decrypted_key O else ret shown)
    listed ← ask report_holders
    ciphers ← ask (λ s. read_dir s (pgp_enc_dir O s))
    if is_empty key
        then quit 1
        else ret (record {
          unload_key = key;
          holders = listed;
          copies = elim ciphers [ ok es ↦ some (count_ciphers es) | err _ ↦ none ];
        })

  -- The key that the kernel still shows is encrypted for a new holder.
  pub encrypt_existing : Text → Text → Prog State (Unit {0})
  encrypt_existing fp dest = do
    hex_key ← read_key_from_sysfs O
    if is_empty hex_key then ret tt else (do
      dir ← ask (pgp_enc_dir O)
      act_ (mkdir_all dir)
      let out_path = path_join dir (cipher_name fp)
      chattr O out_path (lit "-i")
      act_ (remove out_path)
      reply ← gpg_encrypt O hex_key dest out_path
      elim reply [ err _ ↦ ret tt | ok _ ↦ act_ (chmod out_path) >> chattr O out_path (lit "+i") ])

  -- From the copy of the key file on.
  pub register_key : Text → Text → Text → Text → Prog State (Unit {0})
  unfolding encrypt_existing
  register_key key_file key_name fp dest = do
    input ← ask (λ s. read_file s key_file)
    elim input [
      | err _ ↦ quit 1
      | ok text ↦ (do
        act_ (write_file dest text)
        keys ← ask (pgp_key_dir O)
        if is_empty key_name
            then ret tt
            else act_ (write_file (path_join keys (fp ++ lit ".name")) (key_name ++ newline))
        loaded ← ask (module_loaded O)
        if loaded then encrypt_existing fp dest else ret tt)
    ]

  unfoldable pub add_key : Text → Text → Prog State (Unit {0})
  unfolding register_key
  add_key key_file key_name = do
    there ← ask (λ s. stat s key_file)
    if not (is_ok there) then quit 1 else (do
      keys ← ask (pgp_key_dir O)
      act_ (mkdir_all keys)
      shown ← gpg_show_keys O key_file
      elim shown [
        | none ↦ quit 1
        | some (fp, _) ↦ (do
          let dest = path_join keys (fp ++ lit ".asc")
          registered ← ask (λ s. stat s dest)
          if is_ok registered then ret tt else register_key key_file key_name fp dest)
      ])

  unfoldable pub do_add_pgp : List Text → Prog State (Unit {0})
  do_add_pgp [] = requires_root O >> quit 1
  do_add_pgp (key_file ∷ []) = requires_root O >> add_key key_file []
  do_add_pgp (key_file ∷ key_name ∷ _) = requires_root O >> add_key key_file key_name

  -- The ciphertext, the key file and the name go.
  unfoldable pub forget_holder : Text → Prog State (Unit {0})
  forget_holder name = do
    keys ← ask (pgp_key_dir O)
    dir ← ask (pgp_enc_dir O)
    let cipher = path_join dir (cipher_name (fp_from_filename name))
    chattr O cipher (lit "-i")
    act_ (remove cipher)
    act_ (remove (path_join keys name))
    act_ (remove (path_join keys (fp_from_filename name ++ lit ".name")))

  -- By its name, or by the fingerprint that gpg reports.
  unfoldable pub is_target : Text → Text → Prog State Bool
  is_target name target = if names_target name target then ret true else (do
    keys ← ask (pgp_key_dir O)
    shown ← gpg_show_keys O (path_join keys name)
    elim shown [ none ↦ ret false | some (fp, _) ↦ ret (equal_fold fp target) ])

  -- The loop of `doRemovePGP`, which removes the first match.
  unfoldable pub remove_first : Text → List Entry → Prog State (Unit {0})
  remove_first target [] = quit 1
  remove_first target (e ∷ es) =
      let rest = remove_first target es in
      if is_recipient e
      then (is_target e.name target >>= λ matched. if matched then forget_holder e.name else rest)
      else rest

  unfoldable pub do_remove_pgp : List Text → Prog State (Unit {0})
  do_remove_pgp [] = requires_root O >> quit 1
  do_remove_pgp (target ∷ _) = do
    requires_root O
    keys ← ask (pgp_key_dir O)
    there ← ask (λ s. stat s keys)
    if not (is_ok there) then ret tt else (do
      reply ← ask (λ s. read_dir s keys)
      elim reply [ err _ ↦ ret tt | ok entries ↦ remove_first target entries ])

  -- The loop of `doListPGP`. A file that gpg cannot read is passed over.
  unfoldable pub list_keys : List Entry → Prog State (List Listing)
  list_keys [] = ret []
  list_keys (e ∷ es) =
      let rest = list_keys es in
      if e.is_dir || not (is_key_file e.name) then rest else (do
        keys ← ask (pgp_key_dir O)
        shown ← gpg_show_keys O (path_join keys e.name)
        elim shown [
          | none ↦ rest
          | some (fp, user) ↦ (do
            holder ← ask (λ s. holder_of s fp)
            others ← rest
            ret (record { holder = holder; user = user } ∷ others))
        ])

  unfoldable pub do_list_pgp : Prog State (List Listing)
  do_list_pgp = do
    requires_root O
    keys ← ask (pgp_key_dir O)
    there ← ask (λ s. stat s keys)
    if not (is_ok there) then ret [] else (do
      reply ← ask (λ s. read_dir s keys)
      elim reply [ err _ ↦ ret [] | ok entries ↦ list_keys entries ])

  -- The loop of `doPGPCipher`.
  unfoldable pub print_first : Text → Text → List Entry → Prog State Text
  print_first needle dir [] = quit 1
  print_first needle dir (e ∷ es) =
      let rest = print_first needle dir es in
      if is_cipher_name e.name && has_prefix (cipher_fp e.name) needle
      then (do
        reply ← ask (λ s. read_file s (path_join dir e.name))
        elim reply [ err _ ↦ rest | ok text ↦ ret text ])
      else rest

  unfoldable pub do_pgp_cipher : List Text → Prog State Text
  do_pgp_cipher [] = requires_root O >> quit 1
  do_pgp_cipher (needle ∷ _) = do
    requires_root O
    dir ← ask (pgp_enc_dir O)
    there ← ask (λ s. stat s dir)
    if not (is_ok there) then quit 1 else (do
      reply ← ask (λ s. read_dir s dir)
      elim reply [ err _ ↦ quit 1 | ok entries ↦ print_first needle dir entries ])
