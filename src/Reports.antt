-- ===== src/Reports.antt =====
-- cmd/kblockerctl/main.go, the commands status and list: what they print, as records.
pub mod Fields
pub mod KernelStatus
use kblocker.Base.{
  Bool, not, ◌||◌, Option, none, some, List, [], ◌∷◌, ◌++◌, Text, lit, text_eq, is_empty,
  has_prefix, cut, split, trim_space, if◌then◌else◌,
}
use kblocker.Base.Int.{ℤ, add64, quot, rem}
use kblocker.Numbers.{parse_int}
use kblocker.System.{Os, ok, err, Entry, Prog, ◌>>=◌, ret, ask, act, is_ok}
use kblocker.Cli.{
  sysfs, blocked_domains_file, is_cipher_name, cipher_fp, pgp_enc_dir, module_loaded, has_immutable,
  read_file_lines,
}

-- `parseField`: the value of the first line that starts with the prefix and has a colon.
unfoldable pub parse_field : Text → List Text → Text
parse_field prefix [] = []
parse_field prefix (line ∷ lines) =
    let rest = parse_field prefix lines in
    if has_prefix line prefix
    then (elim (cut b':' line) [ none ↦ rest | some (_, v) ↦ trim_space v ])
    else rest

-- A file that is missing, or there and immutable or not.
pub data FileReport : Type 0 where
  missing : FileReport
  present : Bool → FileReport

-- What `status` prints of a module that is loaded; `time_left` is in minutes and seconds.
pub record StatusReport : Type 0 where
  pub time_left : Option (ℤ × ℤ)
  pub pgp_armed : Bool
  pub blocked_ips : ℤ
  pub blocked_domains : Text
  pub allowed_networks : Option Text
  pub protected_files : Text
  pub restored : Bool
  pub module_file : FileReport
  pub auto_load : FileReport
  pub configured_domains : Option (List Text)
  pub recipients : Option (List Text)

pub data Reported : Type 0 where
  not_loaded unknown : Reported
  loaded : StatusReport → Reported

unfoldable pub recipients_of : List Entry → List Text
recipients_of [] = []
recipients_of (e ∷ es) =
    let rest = recipients_of es in if is_cipher_name e.name then cipher_fp e.name ∷ rest else rest

unfoldable pub time_left : List Text → Option (ℤ × ℤ)
unfolding parse_field
time_left lines =
    let seconds = parse_int (parse_field (lit "remaining") lines) in
    if text_eq (parse_field (lit "enabled") lines) (lit "1")
    then some (quot seconds 60, rem seconds 60)
    else none

unfoldable pub networks_line : Text → Option Text
networks_line count = if is_empty count || text_eq count (lit "0") then none else some count

-- What `list` prints of one of the kernel's lists; empty if it cannot be read.
pub record ListReport : Type 0 where
  pub blocked_ips : Option Text
  pub allowed_networks : Option Text
  pub blocked_domains : Option Text
  pub configured_domains : Option Text

module _ (O : Os) where
  open O use {State, read_file, stat, read_dir, run}

  unfoldable pub uname : Prog State Text
  uname = do
    reply ← act (run (lit "uname" ∷ lit "-r" ∷ []) [])
    ret (elim reply [ err _ ↦ lit "unknown" | ok out ↦ trim_space out ])

  unfoldable pub file_report : Text → Prog State FileReport
  file_report path = do
    there ← ask (λ s. stat s path)
    if not (is_ok there)
        then ret missing
        else (do immutable ← has_immutable O path; ret (present immutable))

  unfoldable pub configured : State → Option (List Text)
  configured s =
      if is_ok (stat s blocked_domains_file)
      then some (elim (read_file_lines O s blocked_domains_file) [ ok lines ↦ lines | err _ ↦ [] ])
      else none

  -- The holders of a key that is encrypted, if there are files for any.
  unfoldable pub key_recipients : State → Option (List Text)
  key_recipients s = elim (read_dir s (pgp_enc_dir O s)) [
    | err _ ↦ none
    | ok [] ↦ none
    | ok (e ∷ es) ↦ some (recipients_of (e ∷ es))
  ]

  unfoldable pub report_status : List Text → Prog State StatusReport
  report_status lines = do
    release ← uname
    ko_file ← file_report (lit "/lib/modules/" ++ (release ++ lit "/extra/kblocker.ko"))
    mod_load ← file_report (lit "/etc/modules-load.d/kblocker.conf")
    domains ← ask configured
    holders ← ask key_recipients
    ret (record {
      time_left = time_left lines;
      pgp_armed = text_eq (parse_field (lit "pgp_active") lines) (lit "1");
      blocked_ips =
          add64 (parse_int (parse_field (lit "blocked_ips_v4") lines))
            (parse_int (parse_field (lit "blocked_ips_v6") lines));
      blocked_domains = parse_field (lit "blocked_domains") lines;
      allowed_networks = networks_line (parse_field (lit "allowed_ips") lines);
      protected_files = parse_field (lit "protected_files") lines;
      restored = text_eq (parse_field (lit "state_restored") lines) (lit "1");
      module_file = ko_file;
      auto_load = mod_load;
      configured_domains = domains;
      recipients = holders;
    })

  unfoldable pub do_status : Prog State Reported
  do_status = do
    is_loaded ← ask (module_loaded O)
    if not is_loaded then ret not_loaded else (do
      reply ← ask (λ s. read_file s (sysfs (lit "status")))
      elim reply [
        | err _ ↦ ret unknown
        | ok raw ↦ (do report ← report_status (split b'\n' raw); ret (loaded report))
      ])

  unfoldable pub shown_list : State → Text → Option Text
  shown_list s attr = elim (read_file s (sysfs attr)) [
    | err _ ↦ none
    | ok raw ↦ if is_empty (trim_space raw) then none else some raw
  ]

  unfoldable pub list_report : State → ListReport
  list_report s = record {
    blocked_ips = shown_list s (lit "blocked_ips");
    allowed_networks = shown_list s (lit "allowed_ips");
    blocked_domains = shown_list s (lit "blocked_domains");
    configured_domains =
        if is_ok (stat s blocked_domains_file)
        then some (elim (read_file s blocked_domains_file) [ ok raw ↦ raw | err _ ↦ [] ])
        else none;
  }

  -- `doList`; `none` is the message that the module is not loaded.
  unfoldable pub do_list : Prog State (Option ListReport)
  do_list = do
    is_loaded ← ask (module_loaded O)
    if not is_loaded then ret none else ask (λ s. some (list_report s))
