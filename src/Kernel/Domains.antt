-- ===== src/Kernel/Domains.antt =====
-- src/parse.c and src/main.c: the form in which the kernel module keeps a domain, and the write to
-- its list of domains. White space is that of ASCII, in strim too, and memory does not run out.
pub mod Normal
pub mod Stored
use mathlib.Core.List.{reverse}
use kblocker.Base.{
  ℕ, suc, ◌+◌, ◌-◌, ◌==◌, Bool, true, false, not, ◌&&◌, ◌||◌, Option, none, some, List, [], ◌∷◌,
  Text, lit, length, leb, is_digit, is_empty, trim_space, has_prefix, trim_prefix, split, take,
  ◌++◌, if◌then◌else◌,
}
use kblocker.Kernel.{Status, success, einval, eperm}
use kblocker.Kernel.StateFile.{c_text}

abbrev pub kb_tolower : ℕ → ℕ
kb_tolower c = if leb b'A' c && leb c b'Z' then c + 32 else c

unfoldable pub kb_domain_char : ℕ → Bool
kb_domain_char c =
    let l = kb_tolower c in
    (leb b'a' l && leb l b'z') || is_digit l || l == b'-' || l == b'.' || l == b'_'

unfoldable pub drop_dots : Text → Text
drop_dots [] = []
drop_dots (c ∷ s) = let rest = drop_dots s in if c == b'.' then rest else c ∷ s

unfoldable pub trim_dots : Text → Text
trim_dots s = reverse (drop_dots (reverse (drop_dots s)))

unfoldable pub all_domain_chars : Text → Bool
all_domain_chars [] = true
all_domain_chars (c ∷ s) = let rest = all_domain_chars s in kb_domain_char c && rest

unfoldable pub lower_text : Text → Text
lower_text [] = []
lower_text (c ∷ s) = kb_tolower c ∷ lower_text s

-- A domain without white space, `*.` and dots around it, in lower case; `none` if it is invalid.
-- MAX_DOMAIN_LEN is 256.
unfoldable pub kb_normalize_domain : Text → Option Text
kb_normalize_domain d =
    let s = trim_dots (trim_prefix (trim_space d) (lit "*.")) in
    if is_empty s || leb 256 (length s)
    then none
    else if all_domain_chars s
    then some (lower_text s)
    else none

-- The domains of the lines that are neither blank nor comments, after `nd` that have been found.
-- MAX_DOMAINS is 64.
unfoldable pub parse_domains : ℕ → List Text → Option (List Text)
parse_domains nd [] = some []
parse_domains nd (line ∷ lines) =
    let more = parse_domains (suc nd) lines in
    let others = parse_domains nd lines in
    let token = trim_space line in
    if is_empty token || has_prefix token (lit "#")
    then others
    else elim (kb_normalize_domain line) [
      | none ↦ none
      | some d ↦ if leb 64 nd then none else elim more [ none ↦ none | some ds ↦ some (d ∷ ds) ]
    ]

-- The write to `blocked_domains`, by whether a session runs. strsep reads the copy up to a NUL.
unfoldable pub blocked_domains_store : Text → Bool → List Text → Status × List Text
blocked_domains_store buf enabled domains = elim (parse_domains 0 (split b'\n' (c_text buf))) [
  | none ↦ (einval, domains)
  | some ds ↦ if enabled then (eperm, domains) else (success, ds)
]

unfoldable pub domain_lines : List Text → Text
domain_lines [] = []
domain_lines (d ∷ ds) = d ++ (b'\n' ∷ domain_lines ds)

-- What `blocked_domains` shows: sysfs_emit_at leaves out what does not fit into a page of 4096
-- bytes with a NUL at its end.
unfoldable pub blocked_domains_show : List Text → Text
blocked_domains_show ds = take 4095 (domain_lines ds)
