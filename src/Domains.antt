-- ===== src/Domains.antt =====
-- cmd/kblockerctl/main.go, the commands that change the site list, the blocked IPs and the
-- allowed networks: block, add, remove, reload of the list into the kernel, block-ip, allow-ip.
pub mod Guards
pub mod Apply
pub mod ListFiles
pub mod Networks
use kblocker.Base.{
  Bool, true, false, not, ◌&&◌, Option, none, some, List, [], ◌∷◌, ◌++◌, Text, lit, text_eq,
  is_empty, contains, join, if◌then◌else◌,
}
use kblocker.System.{
  Os, Errno, einval, eperm, ok, err, Prog, ◌>>=◌, ◌>>◌, ret, quit, ask, act, act_,
}
use kblocker.Cli.{
  contains_byte, sysfs, blocked_domains_file, allowed_ips_file, newline, requires_root,
  require_module, require_disabled, write_lines, chattr, read_kernel_domains, current_domains,
}

-- The errors of `applyDomains`.
pub data ApplyError : Type 0 where
  not_accepted while_active write_failed : ApplyError

pub apply_error : Errno → ApplyError
apply_error einval = not_accepted
apply_error eperm = while_active
apply_error _ = write_failed

-- `doAdd` appends a domain that is not there yet; `doRemove` drops every copy of it.
pub without : Text → List Text → List Text
without d [] = []
without d (e ∷ es) = let rest = without d es in if text_eq e d then rest else e ∷ rest

-- What the program relies on of package net: the CIDR form of an address or a network.
pub record Net : Type 0 where
  -- net.ParseIP: whether the address has a 4-byte form, and its text
  pub parse_ip : Text → Option (Bool × Text)
  -- net.ParseCIDR: the text of the network
  pub parse_cidr : Text → Option Text

unfoldable pub normalize_net : Net → Text → Option Text
unfolding contains_byte
normalize_net net s =
    if not (contains_byte b'/' s)
    then (elim (net.parse_ip s) [
      | none ↦ none
      | some (is_v4, text) ↦ some (text ++ (if is_v4 then lit "/32" else lit "/128"))
    ])
    else net.parse_cidr s

pub normalize_all : Net → List Text → Option (List Text)
normalize_all net [] = some []
normalize_all net (a ∷ as') = elim (normalize_net net a) [
  | none ↦ none
  | some n ↦ elim (normalize_all net as') [ none ↦ none | some ns ↦ some (n ∷ ns) ]
]

-- The networks of an allow-ip command; `--clear` alone is none of them.
pub requested_nets : Net → List Text → Option (List Text)
unfolding normalize_all
requested_nets net (a ∷ []) =
    if text_eq a (lit "--clear") then some [] else normalize_all net (a ∷ [])
requested_nets net args = normalize_all net args

-- The file text of a list.
abbrev pub file_text : List Text → Text
file_text [] = []
file_text (d ∷ ds) = join (d ∷ ds) newline ++ newline

module _ (O : Os) where
  open O use {State, write_file, mkdir_all}

  unfoldable pub sync_config_from_kernel : Prog State (Unit {0})
  sync_config_from_kernel = do
    domains ← ask (read_kernel_domains O)
    act_ (mkdir_all (lit "/etc/kblocker"))
    chattr O blocked_domains_file (lit "-i")
    act_ (write_file blocked_domains_file (file_text domains))
    chattr O blocked_domains_file (lit "+i")

  -- `none` is success.
  unfoldable pub apply_domains : List Text → Prog State (Option ApplyError)
  apply_domains domains = do
    reply ← act (write_lines O (sysfs (lit "blocked_domains")) domains)
    elim reply [ err e ↦ ret (some (apply_error e)) | ok _ ↦ sync_config_from_kernel >> ret none ]

  unfoldable pub apply_domains_or_exit : List Text → Prog State (Unit {0})
  apply_domains_or_exit domains = do
    failed ← apply_domains domains
    elim failed [ none ↦ ret tt | some e ↦ quit 1 ]

  unfoldable pub do_block : List Text → Prog State (Unit {0})
  do_block [] = requires_root O >> quit 1
  do_block (d ∷ ds) = do
    requires_root O
    require_module O
    require_disabled O
    apply_domains_or_exit (d ∷ ds)

  unfoldable pub do_add : List Text → Prog State (Unit {0})
  do_add args = do
    requires_root O
    require_module O
    require_disabled O
    elim args [
      | [] ↦ quit 1
      | domain ∷ _ ↦ (do
        domains ← ask (current_domains O)
        if contains domains domain
            then ret tt
            else apply_domains_or_exit (domains ++ (domain ∷ [])))
    ]

  unfoldable pub do_remove : List Text → Prog State (Unit {0})
  unfolding without
  do_remove args = do
    requires_root O
    require_module O
    require_disabled O
    elim args [
      | [] ↦ quit 1
      | domain ∷ _ ↦ (do
        domains ← ask (current_domains O)
        if contains domains domain then apply_domains_or_exit (without domain domains) else ret tt)
    ]

  unfoldable pub do_block_ip : List Text → Prog State (Unit {0})
  do_block_ip args = do
    requires_root O
    require_module O
    require_disabled O
    elim args [
      | [] ↦ quit 1
      | ip ∷ ips ↦ (do
        reply ← act (write_lines O (sysfs (lit "blocked_ips")) (ip ∷ ips))
        elim reply [ ok _ ↦ ret tt | err e ↦ quit 1 ])
    ]

  -- The end of `doAllowIP`: the kernel first, then the file that every enable applies.
  pub allow_nets : List Text → Prog State (Unit {0})
  allow_nets nets = do
    reply ← act (write_lines O (sysfs (lit "allowed_ips")) nets)
    elim reply [
      | err e ↦ quit 1
      | ok _ ↦ (do
        act_ (mkdir_all (lit "/etc/kblocker"))
        chattr O allowed_ips_file (lit "-i")
        act_ (write_file allowed_ips_file (file_text nets))
        chattr O allowed_ips_file (lit "+i"))
    ]

  unfoldable pub do_allow_ip : Net → List Text → Prog State (Unit {0})
  unfolding allow_nets requested_nets
  do_allow_ip net args = do
    requires_root O
    require_module O
    require_disabled O
    elim args [
      | [] ↦ quit 1
      | a ∷ as' ↦ elim (requested_nets net (a ∷ as')) [
        | none ↦ quit 1
        | some nets ↦ allow_nets nets
      ]
    ]
