-- ===== src/Tests/SiteTests.antt =====
-- A domain of the kernel's list and a state file, and the theorems applied to them.
use kblocker.Base.{
  ◌≤◌, ◌≡◌, ◌≢◌, refl, Bool, true, false, some, [], ◌∷◌, Text, lit, length, trim_space, has_prefix,
  trim_prefix, arith,
}
use kblocker.Base.{none, All, ◌≤◌, join}
use kblocker.Base.Int.{pos}
use kblocker.Numbers.{itoa, digits_of}
use kblocker.Kernel.{success, Kernel, Session, zeros, hex_text}
use kblocker.Kernel.Keys.{IsByte}
use kblocker.Kernel.Shows.{bit}
use kblocker.Kernel.Lists.{Inet, Lists}
use kblocker.Kernel.StateFile.{c_text}
use kblocker.Kernel.StateFile.Bytes.{IsNonzero, c_text-IsNonzero}
use kblocker.Kernel.SavedState.{
  Printer, commas4, commas6, format4, format6, line_of, end_lines, domains_lines, session_lines,
  state_file_write_session,
}
use kblocker.Kernel.SavedState.Reboot.{
  IsLocked, saved_file, reloaded, try_restore_state_from_disk-IsLocked,
}
use kblocker.Kernel.StateFile.{parse_line_u64, remaining_line}
use kblocker.Kernel.Domains.{
  kb_domain_char, drop_dots, trim_dots, all_domain_chars, lower_text, kb_normalize_domain,
  blocked_domains_store, domain_lines, blocked_domains_show,
}
use kblocker.Kernel.Domains.Normal.{kb_normalize_domain-IsNormal}
use kblocker.Kernel.Domains.Stored.{
  IsStored, blocked_domains_store-IsStored, blocked_domains_store-blocked_domains_show,
}

abbrev site : Text
site = lit "a.b"

site-normal : kb_normalize_domain (lit " *.A.b.") ≡ some site
unfolding kb_normalize_domain trim_space trim_prefix has_prefix trim_dots drop_dots all_domain_chars
    kb_domain_char lower_text lit
site-normal = refl

site-IsStored : IsStored (site ∷ [])
site-IsStored = record {
  few = omega arith;
  normal = (kb_normalize_domain-IsNormal (lit " *.A.b.") site site-normal, tt);
}

blocked_domains_store-IsStored_example :
    IsStored (blocked_domains_store (lit "x.y\n") true (site ∷ [])).1
    × (◌≡◌ {A = Bool} true true
        → ((blocked_domains_store (lit "x.y\n") true (site ∷ [])).0 ≢ success)
          × ((blocked_domains_store (lit "x.y\n") true (site ∷ [])).1 ≡ site ∷ []))
blocked_domains_store-IsStored_example =
    blocked_domains_store-IsStored (lit "x.y\n") true (site ∷ []) site-IsStored

site-fits : length (domain_lines (site ∷ [])) ≤ 4095
unfolding domain_lines lit
site-fits = omega arith

blocked_domains_show_example :
    blocked_domains_store (blocked_domains_show (site ∷ [])) false [] ≡ (success, site ∷ [])
blocked_domains_show_example =
    blocked_domains_store-blocked_domains_show (site ∷ []) [] site-IsStored site-fits

abbrev printer : Printer
printer = record { show4 = λ a. itoa (pos a); show6 = λ a. a; hweight32 = λ m. 32 }

abbrev site_lists : Lists
site_lists = record {
  blocked_v4 = [];
  blocked_v6 = [];
  domains = site ∷ [];
  allowed_v4 = [];
  allowed_v6 = [];
}

abbrev no_lists : Lists
no_lists = record site_lists { domains = [] }

abbrev no_inet : Inet
no_inet = record {
  in4_pton = λ s. none;
  in6_pton = λ s. none;
  parse_u8 = λ s. none;
  ipv6_addr_prefix = λ a n. a;
  ipv6_prefix_equal = λ a b n. false;
}

abbrev plain_kernel : Kernel
plain_kernel = record { sha256 = λ key. key; parse_u64 = λ s. none; parse_bool = λ s. none }

abbrev saved_session : Session
saved_session = record {
  enabled = true;
  pgp_active = true;
  allow_unload = false;
  state_restored = false;
  pgp_key_consumed = true;
  ref_taken = true;
  unload_key = [];
  pgp_key = [];
  key_hash = zeros 32;
  expiry_boot = 100;
  now_boot = 40;
}

abbrev site_file : Text
site_file = saved_file printer 90 saved_session site_lists 60

hash_bytes : All IsByte saved_session.key_hash
unfolding zeros
hash_bytes = omega arith

hash_size : length saved_session.key_hash ≡ 32
unfolding zeros
hash_size = refl

site_file_whole : c_text site_file ≡ site_file
unfolding zeros state_file_write_session session_lines end_lines domains_lines line_of commas4
    commas6 format4 format6 bit itoa digits_of lit hex_text join remaining_line c_text
site_file_whole = refl

site_file-IsNonzero : All IsNonzero site_file
site_file-IsNonzero = c_text-IsNonzero site_file site_file_whole

site_file_short : length site_file ≤ 262144
unfolding zeros state_file_write_session session_lines end_lines domains_lines line_of commas4
    commas6 format4 format6 bit itoa digits_of lit hex_text join remaining_line
site_file_short = omega arith

try_restore_state_from_disk-IsLocked_example :
    ((reloaded plain_kernel no_inet parse_line_u64 1_700_000_000 site_file 5 no_lists).lists.domains
      ≡ site ∷ [])
    × IsLocked
        (zeros 32)
        60
        5
        (reloaded plain_kernel no_inet parse_line_u64 1_700_000_000 site_file 5 no_lists).session
try_restore_state_from_disk-IsLocked_example =
    try_restore_state_from_disk-IsLocked plain_kernel no_inet printer parse_line_u64 1_700_000_000
      90 5 60 saved_session site_lists no_lists site [] refl site-IsStored hash_bytes hash_size
      site_file-IsNonzero site_file_short (omega arith) (omega arith)
