-- ===== src/Kernel/SavedState.antt =====
-- src/state.c: the text that a session writes to the state file, and what the module restores of it
-- when it is loaded. Memory does not run out, and a file that is there can be read and written.
pub mod Lines
pub mod Fields
pub mod Restored
pub mod Reboot
use mathlib.Core.List.{foldl}
use kblocker.Base.{
  ℕ, suc, ◌+◌, ◌==◌, ◌||◌, Bool, true, false, Option, none, some, List, [], ◌∷◌, ◌++◌, Text, lit,
  length, drop, ltb, leb, is_empty, split, cut, join, if◌then◌else◌,
}
use kblocker.Base.Int.{pos}
use kblocker.Base.Search.{strstr}
use kblocker.Numbers.{itoa}
use kblocker.Kernel.{Kernel, Session, kb_hex_decode, hex_text, restore_session}
use kblocker.Kernel.Shows.{bit}
use kblocker.Kernel.Domains.{kb_normalize_domain}
use kblocker.Kernel.StateFile.{head_text, saved_seconds}
use kblocker.Kernel.Lists.{Inet, Net4, Net6, Lists, max_ips_v4, max_ips_v6, kb_parse_allowed}
use kblocker.Kernel.Enforced.{Module}

-- What the module uses of the kernel to print addresses: %pI4, %pI6c, and hweight32 of a mask.
pub record Printer : Type 0 where
  pub show4 : ℕ → Text
  pub show6 : Text → Text
  pub hweight32 : ℕ → ℕ

-- Each line with its line break.
unfoldable pub end_lines : List Text → Text
end_lines [] = []
end_lines (l ∷ ls) = l ++ (b'\n' ∷ end_lines ls)

-- The line of the domains, if there are any.
unfoldable pub domains_lines : List Text → List Text
domains_lines [] = []
domains_lines (d ∷ ds) = (lit "domains:" ++ join (d ∷ ds) (lit ",")) ∷ []

module _ (F : Printer) where
  open F use {show4, show6, hweight32}

  unfoldable pub commas4 : List ℕ → Text
  commas4 [] = []
  commas4 (a ∷ ips) = show4 a ++ (b',' ∷ commas4 ips)

  unfoldable pub commas6 : List Text → Text
  commas6 [] = []
  commas6 (a ∷ ips) = show6 a ++ (b',' ∷ commas6 ips)

  -- `kb_format_allowed` with a comma
  unfoldable pub format4 : List Net4 → Text
  format4 [] = []
  format4 (n ∷ ns) = show4 n.addr ++ (b'/' ∷ (itoa (pos (hweight32 n.mask)) ++ (b',' ∷ format4 ns)))

  unfoldable pub format6 : List Net6 → Text
  format6 [] = []
  format6 (n ∷ ns) = show6 n.addr ++ (b'/' ∷ (itoa (pos n.plen) ++ (b',' ∷ format6 ns)))

  -- A line, if what it holds is not empty.
  unfoldable pub line_of : Text → Text → List Text
  line_of label [] = []
  line_of label (c ∷ s) = (label ++ (c ∷ s)) ∷ []

  -- `state_file_write_session`
  unfoldable pub session_lines : ℕ → Session → Lists → List Text
  session_lines seconds s lists =
      (lit "remaining:" ++ itoa (pos seconds))
        ∷ (lit "key_hash:" ++ hex_text s.key_hash)
        ∷ (lit "pgp_active:" ++ bit s.pgp_active)
        ∷ domains_lines lists.domains
      ++ (line_of (lit "blocked_ips:") (commas4 lists.blocked_v4 ++ commas6 lists.blocked_v6)
          ++ line_of (lit "allowed_ips:") (format4 lists.allowed_v4 ++ format6 lists.allowed_v6))

  unfoldable pub state_file_write_session : ℕ → Session → Lists → Text
  state_file_write_session seconds s lists = end_lines (session_lines seconds s lists)

-- What follows a label up to the end of its line.
unfoldable pub line_after : Text → Text → Option Text
line_after buf label = elim (strstr buf label) [
  | none ↦ none
  | some i ↦ elim (cut b'\n' (drop (i + length label) buf)) [
    | none ↦ none
    | some (line, _) ↦ some line
  ]
]

-- The tokens that are domains, after `nd` of them. MAX_DOMAINS is 64.
unfoldable pub restored_domains : ℕ → List Text → List Text
restored_domains nd [] = []
restored_domains nd (token ∷ tokens) =
    let others = restored_domains nd tokens in
    let more = restored_domains (suc nd) tokens in
    if leb 64 nd then [] else elim (kb_normalize_domain token) [ none ↦ others | some d ↦ d ∷ more ]

unfoldable pub restore_domains : Text → List Text → List Text
restore_domains buf domains = elim (line_after buf (lit "domains:")) [
  | none ↦ domains
  | some line ↦ if is_empty line then domains else restored_domains 0 (split b',' line)
]

-- The 32 bytes of the hash.
unfoldable pub restored_hash : Text → Option (List ℕ)
restored_hash buf = elim (line_after buf (lit "key_hash:")) [
  | none ↦ none
  | some line ↦ if length line == 64 then kb_hex_decode line else none
]

module _ (I : Inet) where
  open I use {in4_pton, in6_pton}

  unfoldable pub add_saved_ip : List ℕ × List Text → Text → List ℕ × List Text
  add_saved_ip (v4, v6) token = if is_empty token then (v4, v6) else elim (in6_pton token) [
    | some a ↦ if ltb (length v6) max_ips_v6 then (v4, v6 ++ (a ∷ [])) else (v4, v6)
    | none ↦ elim (in4_pton token) [
      | some a ↦ if ltb (length v4) max_ips_v4 then (v4 ++ (a ∷ []), v6) else (v4, v6)
      | none ↦ (v4, v6)
    ]
  ]

  unfoldable pub restore_ips : Text → Lists → Lists
  restore_ips buf lists = elim (line_after buf (lit "blocked_ips:")) [
    | none ↦ lists
    | some line ↦
        let (v4, v6) = foldl add_saved_ip ([], []) (split b',' line) in
        if is_empty line then lists else record lists { blocked_v4 = v4; blocked_v6 = v6 }
  ]

  unfoldable pub restore_allowed : Text → Lists → Lists
  restore_allowed buf lists = elim (line_after buf (lit "allowed_ips:")) [
    | none ↦ lists
    | some line ↦ if is_empty line then lists else elim (kb_parse_allowed I line b',') [
      | none ↦ lists
      | some (v4, v6) ↦ record lists { allowed_v4 = v4; allowed_v6 = v6 }
    ]
  ]

  unfoldable pub restored_lists : Text → Lists → Lists
  restored_lists buf lists =
      restore_allowed buf
        (restore_ips buf (record lists { domains = restore_domains buf lists.domains }))

  -- A file that is there; `now` is the clock's Unix time.
  unfoldable pub try_restore_state_from_disk :
      Kernel → (Text → Option ℕ) → ℕ → Text → Module → Module
  try_restore_state_from_disk K strtoull now file m =
      if m.session.enabled || m.session.state_restored
      then m
      else if is_empty file
      then m
      else let head = head_text file in
        record {
          lists = restored_lists head m.lists;
          session = elim (restored_hash head) [
            | none ↦ m.session
            | some hash ↦ restore_session K hash (saved_seconds strtoull now file) m.session
          ];
        }
