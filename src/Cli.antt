-- ===== src/Cli.antt =====
-- cmd/kblockerctl/main.go, the helpers of the commands: the files of the program, guards, sysfs,
-- the list files, chattr, and the names of key files.
pub mod Attributes
use kblocker.Base.{
  ℕ, ◌==◌, Option, none, some, Bool, true, false, not, ◌&&◌, ◌||◌, List, [], ◌∷◌, ◌++◌, Text, lit,
  text_eq, is_empty, fields, trim_space, split, join, has_prefix, has_suffix, trim_suffix,
  trim_prefix, if◌then◌else◌, is_digit, length, leb,
}
use kblocker.System.{Os, Reply, ok, err, Entry, Prog, ◌>>=◌, ◌>>◌, ret, quit, ask, act, act_, is_ok}

-- The constants of main.go, schedule.go and history.go.
unfoldable pub sysfs_base : Text
sysfs_base = lit "/sys/kernel/kblocker"

unfoldable pub sysfs : Text → Text
sysfs attr = sysfs_base ++ (b'/' ∷ attr)

unfoldable pub state_file : Text
state_file = lit "/var/lib/kblocker/state"

unfoldable pub blocked_domains_file : Text
blocked_domains_file = lit "/etc/kblocker/domains.conf"

unfoldable pub allowed_ips_file : Text
allowed_ips_file = lit "/etc/kblocker/allowed_ips.conf"

unfoldable pub newline : Text
newline = b'\n' ∷ []

-- filepath.Join of a clean directory and a name
unfoldable pub path_join : Text → Text → Text
path_join dir name = dir ++ (b'/' ∷ name)

-- strings.Fields(raw) starts with "1"
unfoldable pub says_enabled : Text → Bool
says_enabled raw = elim (fields raw) [ [] ↦ false | f ∷ fs ↦ text_eq f (lit "1") ]

-- The lines of a list file that are neither blank nor comments.
unfoldable pub list_lines : List Text → List Text
list_lines [] = []
list_lines (line ∷ lines) =
    let rest = list_lines lines in
    let t = trim_space line in
    if not (is_empty t) && not (has_prefix t (lit "#")) then t ∷ rest else rest

pub nonblank_lines : List Text → List Text
nonblank_lines [] = []
nonblank_lines (line ∷ lines) =
    let rest = nonblank_lines lines in
    let t = trim_space line in if is_empty t then rest else t ∷ rest

-- `.asc`, `.gpg` or `.pub`
unfoldable pub is_key_file : Text → Bool
is_key_file name =
    has_suffix name (lit ".asc") || has_suffix name (lit ".gpg") || has_suffix name (lit ".pub")

-- `fpFromFilename`
unfoldable pub fp_from_filename : Text → Text
fp_from_filename name =
    if has_suffix name (lit ".asc")
    then trim_suffix name (lit ".asc")
    else if has_suffix name (lit ".gpg")
    then trim_suffix name (lit ".gpg")
    else if has_suffix name (lit ".pub")
    then trim_suffix name (lit ".pub")
    else []

pub all_upper_hex : Text → Bool
all_upper_hex [] = true
all_upper_hex (c ∷ s) = (is_digit c || (leb b'A' c && leb c b'F')) && all_upper_hex s

-- `^[A-F0-9]{40}$`
unfoldable pub is_fingerprint : Text → Bool
unfolding all_upper_hex
is_fingerprint s = all_upper_hex s && length s == 40

-- "unlock-"+fp+".asc", and the test and the inverse that the loops over the directory use.
unfoldable pub cipher_name : Text → Text
cipher_name fp = lit "unlock-" ++ (fp ++ lit ".asc")

unfoldable pub is_cipher_name : Text → Bool
is_cipher_name name = has_prefix name (lit "unlock-") && has_suffix name (lit ".asc")

unfoldable pub cipher_fp : Text → Text
cipher_fp name = trim_prefix (trim_suffix name (lit ".asc")) (lit "unlock-")

unfoldable pub contains_byte : ℕ → Text → Bool
contains_byte b [] = false
contains_byte b (c ∷ s) = c == b || contains_byte b s

-- The tenth field of a line of `gpg --with-colons` whose first field is `kind`.
pub colon_field : Text → List Text → Option Text
colon_field kind (f0 ∷ f1 ∷ f2 ∷ f3 ∷ f4 ∷ f5 ∷ f6 ∷ f7 ∷ f8 ∷ f9 ∷ fs) =
    if text_eq f0 kind then some f9 else none
colon_field kind _ = none

-- The first such field that is not empty: the loops keep a field only while they have none.
pub first_colon_field : Text → List Text → Text
unfolding colon_field
first_colon_field kind [] = []
first_colon_field kind (line ∷ lines) =
    let rest = first_colon_field kind lines in
    elim (colon_field kind (split b':' line)) [
      | none ↦ rest
      | some f ↦ if is_empty f then rest else f
    ]

module _ (O : Os) where
  open O use {
    State, euid, getenv, has_program, read_file, stat, read_dir, read_key, write_file, mkdir_all,
    run,
  }

  unfoldable pub get_env_default : State → Text → Text → Text
  get_env_default s key default = let v = getenv s key in if is_empty v then default else v

  -- `pgpKeyDir` and `pgpEncDir`, which the source reads from the environment once, at its start.
  unfoldable pub pgp_key_dir : State → Text
  pgp_key_dir s = get_env_default s (lit "KBLOCKER_PGP_KEY_DIR") (lit "/etc/kblocker/keys")

  unfoldable pub pgp_enc_dir : State → Text
  pgp_enc_dir s =
      get_env_default s (lit "KBLOCKER_PGP_ENC_DIR") (lit "/var/lib/kblocker/unlock-pgp")

  unfoldable pub requires_root : Prog State (Unit {0})
  requires_root = do uid ← ask euid; if uid == 0 then ret tt else quit 1

  unfoldable pub module_loaded : State → Bool
  module_loaded s = elim (stat s sysfs_base) [ ok is_dir ↦ is_dir | err e ↦ false ]

  unfoldable pub require_module : Prog State (Unit {0})
  unfolding module_loaded
  require_module = do loaded ← ask module_loaded; if loaded then ret tt else quit 1

  -- An unreadable file counts as disabled.
  unfoldable pub require_disabled : Prog State (Unit {0})
  require_disabled = do
    reply ← ask (λ s. read_file s (sysfs (lit "enabled")))
    elim reply [ err e ↦ ret tt | ok raw ↦ if says_enabled raw then quit 1 else ret tt ]

  unfoldable pub read_sysfs : State → Text → Reply Text
  read_sysfs s path = elim (read_file s path) [ ok raw ↦ ok (trim_space raw) | err e ↦ err e ]

  -- `writeSysfsLines`
  unfoldable pub write_lines : Text → List Text → State → Reply (Unit {0}) × State
  write_lines path lines = write_file path (join lines newline ++ newline)

  unfoldable pub read_file_lines : State → Text → Reply (List Text)
  unfolding list_lines
  read_file_lines s path = elim (read_file s path) [
    | ok raw ↦ ok (list_lines (split b'\n' raw))
    | err e ↦ err e
  ]

  unfoldable pub chattr : Text → Text → Prog State (Unit {0})
  chattr path flags = do
    found ← ask (λ s. has_program s (lit "chattr"))
    if found then act_ (run (lit "chattr" ∷ flags ∷ path ∷ []) []) else ret tt

  unfoldable pub list_attributes : Text → Prog State Bool
  unfolding contains_byte
  list_attributes path = do
    reply ← act (run (lit "lsattr" ∷ path ∷ []) [])
    elim reply [ ok out ↦ ret (contains_byte b'i' out) | err e ↦ ret false ]

  unfoldable pub has_immutable : Text → Prog State Bool
  unfolding list_attributes
  has_immutable path = do
    found ← ask (λ s. has_program s (lit "lsattr"))
    if not found then ret false else list_attributes path

  -- The fingerprint and the user of a key file; `none` is an error.
  unfoldable pub gpg_show_keys : Text → Prog State (Option (Text × Text))
  unfolding first_colon_field
  gpg_show_keys path = do
    reply ← act (run (lit "gpg" ∷ lit "--with-colons" ∷ lit "--show-keys" ∷ path ∷ []) [])
    elim reply [
      | err e ↦ ret none
      | ok out ↦
          let lines = split b'\n' out in
          let fp = first_colon_field (lit "fpr") lines in
          if is_empty fp then ret none else ret (some (fp, first_colon_field (lit "uid") lines))
    ]

  unfoldable pub gpg_encrypt : Text → Text → Text → Prog State (Reply Text)
  gpg_encrypt hex_key recipient_file output_file = act (
      run
        (lit "gpg"
          ∷ lit "--yes"
          ∷ lit "--trust-model=always"
          ∷ lit "--encrypt"
          ∷ lit "--armor"
          ∷ lit "--recipient-file"
          ∷ recipient_file
          ∷ lit "--output"
          ∷ output_file
          ∷ [])
        hex_key)

  unfoldable pub gpg_decrypt : Text → Prog State (Reply Text)
  gpg_decrypt enc_file = do
    reply ← act (run (lit "gpg" ∷ lit "--decrypt" ∷ enc_file ∷ []) [])
    elim reply [ ok out ↦ ret (ok (trim_space out)) | err e ↦ ret (err e) ]

  -- `pgpCount` and `os.ReadDir` with its error dropped.
  unfoldable pub dir_entries : State → Text → List Entry
  dir_entries s dir = elim (read_dir s dir) [ ok entries ↦ entries | err e ↦ [] ]

  -- The key of the kernel, if it shows one. The read may consume it.
  unfoldable pub read_key_from_sysfs : Prog State Text
  read_key_from_sysfs = do
    reply ← act read_key
    elim reply [
      | err e ↦ ret []
      | ok raw ↦
          let key = trim_space raw in
          if text_eq key (lit "encrypted") || text_eq key (lit "restored") then ret [] else ret key
    ]

  unfoldable pub read_domain_config_file : State → List Text
  unfolding read_file_lines
  read_domain_config_file s = elim (read_file_lines s blocked_domains_file) [
    | ok lines ↦ lines
    | err e ↦ []
  ]

  unfoldable pub read_kernel_domains : State → List Text
  unfolding nonblank_lines
  read_kernel_domains s = elim (read_file s (sysfs (lit "blocked_domains"))) [
    | ok raw ↦ nonblank_lines (split b'\n' raw)
    | err e ↦ []
  ]

  unfoldable pub current_domains : State → List Text
  unfolding read_domain_config_file read_kernel_domains
  current_domains s =
      if is_ok (stat s blocked_domains_file)
      then read_domain_config_file s
      else read_kernel_domains s
