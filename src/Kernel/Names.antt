-- ===== src/Kernel/Names.antt =====
-- src/parse.c and src/netfilter.c: whether the name of a host is one of the blocked domains or lies
-- within one.
pub mod Matches
use mathlib.Core.List.{reverse}
use kblocker.Base.{
  ℕ, ◌-◌, ◌==◌, ◌&&◌, ◌||◌, Bool, true, false, none, some, List, [], ◌∷◌, Text, length, drop, ltb,
  is_empty, if◌then◌else◌,
}
use kblocker.Base.Parts.{get_elem?}
use kblocker.Kernel.Domains.{kb_tolower, drop_dots}
use kblocker.Kernel.StateFile.{c_text}

-- The loop of `kb_domain_matches`, over two texts of one length.
unfoldable pub same_letters : Text → Text → Bool
same_letters [] [] = true
same_letters [] (d ∷ t) = false
same_letters (c ∷ s) [] = false
same_letters (c ∷ s) (d ∷ t) = kb_tolower c == kb_tolower d && same_letters s t

-- A host of which the caller gives the bytes that count.
unfoldable pub kb_domain_matches : Text → Text → Bool
kb_domain_matches host blocked =
    let hlen = length host in
    let blen = length blocked in
    if is_empty blocked || ltb hlen blen
    then false
    else if same_letters (drop (hlen - blen) host) blocked
    then hlen == blen
      || (elim (get_elem? host (hlen - blen - 1)) [ none ↦ false | some c ↦ c == b'.' ])
    else false

unfoldable pub any_matches : Text → List Text → Bool
any_matches host [] = false
any_matches host (d ∷ ds) = kb_domain_matches host d || any_matches host ds

-- What counts of a string of C: the dots at its end are passed over.
unfoldable pub host_part : Text → Text
host_part hostname = reverse (drop_dots (reverse (c_text hostname)))

unfoldable pub domain_list_contains : Text → List Text → Bool
domain_list_contains hostname domains = any_matches (host_part hostname) domains
