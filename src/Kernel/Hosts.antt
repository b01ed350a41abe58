-- ===== src/Kernel/Hosts.antt =====
-- src/parse.c and src/file_protection.c: the block of entries that the module keeps at the end of
-- /etc/hosts. Memory does not run out, and the file can be opened and written; a domain of the list
-- is shorter than its slot, so strnlen is its length.
pub mod Blocks
pub mod UserPart
pub mod RoundTrip
use kblocker.Base.{
  ℕ, zero, suc, ◌+◌, ◌-◌, ◌*◌, ◌==◌, Bool, true, false, Option, none, some, List, [], ◌∷◌, ◌++◌,
  Text, lit, length, take, ltb, has_prefix, if◌then◌else◌,
}
use kblocker.Base.Search.{strstr}
use kblocker.Base.Parts.{get_elem?}
use kblocker.Kernel.StateFile.{c_text}

unfoldable pub hosts_marker : Text
hosts_marker = lit "# kblocker managed entries - do not edit manually"

-- The loop of `kb_hosts_base_len` that passes over line breaks.
unfoldable pub before_newlines : Text → ℕ → ℕ
before_newlines buf zero = 0
before_newlines buf (suc len) =
    let shorter = before_newlines buf len in
    elim (get_elem? buf len) [ none ↦ suc len | some c ↦ if c == b'\n' then shorter else suc len ]

unfoldable pub kb_hosts_base_len : Text → ℕ
kb_hosts_base_len buf = before_newlines buf (elim (strstr (c_text buf) hosts_marker) [
  | none ↦ length buf
  | some p ↦ if ltb p (length buf) then p else length buf
])

-- HOSTS_LINES_FIXED is 34.
unfoldable pub lines_size : List Text → ℕ
lines_size [] = 0
lines_size (d ∷ ds) = 4 * length d + (8 + 1 + 3 + 1 + 12 + 1 + 7 + 1) + lines_size ds

unfoldable pub kb_hosts_block_size : List Text → ℕ
kb_hosts_block_size ds = 2 + length hosts_marker + 1 + 1 + lines_size ds

-- What a buffer of `size` bytes holds after one more text is put to it.
unfoldable pub put : ℕ → Text → Text → Text
put size o s = o ++ take (size - length o) s

unfoldable pub put_all : ℕ → Text → List Text → Text
put_all size o [] = o
put_all size o (s ∷ ss) = put_all size (put size o s) ss

-- The texts that are put for the domains, in their order, and then for the end.
unfoldable pub domain_pieces : List Text → List Text
domain_pieces [] = lit "\n" ∷ []
domain_pieces (d ∷ ds) =
    lit "0.0.0.0 "
    ∷ d
    ∷ lit "\n:: "
    ∷ d
    ∷ lit "\n0.0.0.0 www."
    ∷ d
    ∷ lit "\n:: www."
    ∷ d
    ∷ lit "\n"
    ∷ domain_pieces ds

unfoldable pub kb_hosts_format : List Text → ℕ → Text
kb_hosts_format ds size = put_all size [] (lit "\n\n" ∷ hosts_marker ∷ lit "\n" ∷ domain_pieces ds)

-- The file after everything from `base` on is replaced.
unfoldable pub hosts_write_tail : Text → ℕ → Text → Text
hosts_write_tail file base tail = take base file ++ tail

-- `kb_read_file` refuses a file of more than HOSTS_MAX_SIZE bytes.
abbrev pub hosts_max_size : ℕ
hosts_max_size = 1024 * 1024

unfoldable pub clear_hosts_from_kernel : Text → Text
clear_hosts_from_kernel file =
    if ltb hosts_max_size (length file) then file else elim (strstr (c_text file) hosts_marker) [
      | none ↦ file
      | some _ ↦ hosts_write_tail file (kb_hosts_base_len file) (lit "\n")
    ]

unfoldable pub update_hosts_file : List Text → Text → Text
update_hosts_file [] file = clear_hosts_from_kernel file
update_hosts_file (d ∷ ds) file =
    if ltb hosts_max_size (length file)
    then file
    else hosts_write_tail file (kb_hosts_base_len file)
        (kb_hosts_format (d ∷ ds) (kb_hosts_block_size (d ∷ ds)))
