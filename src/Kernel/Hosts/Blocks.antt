-- ===== src/Kernel/Hosts/Blocks.antt =====
-- The block of entries fills the buffer that is made for it, and is not cut.
use mathlib.Core.List.{append-nil, append_assoc}
use kblocker.Base.{
  ℕ, ◌+◌, ◌-◌, ◌≤◌, ◌≡◌, sym, ◌∙◌, List, [], ◌∷◌, ◌++◌, Text, lit, arith, length, length-append,
  take,
}
use kblocker.Base.Parts.{take_all}
use kblocker.Kernel.Hosts.{
  hosts_marker, lines_size, kb_hosts_block_size, put, put_all, domain_pieces, kb_hosts_format,
}

abbrev pub concat : List Text → Text
concat [] = []
concat (s ∷ ss) = s ++ concat ss

-- The entries of the domains, and the block.
abbrev pub entries : List Text → Text
entries ds = concat (domain_pieces ds)

unfoldable pub hosts_block : List Text → Text
hosts_block ds = b'\n' ∷ b'\n' ∷ (hosts_marker ++ (b'\n' ∷ entries ds))

put_all-concat :
    (size : ℕ) (o : Text) (ss : List Text)
    → length o + length (concat ss) ≤ size
    → put_all size o ss ≡ o ++ concat ss
unfolding put_all put
put_all-concat size o [] h = sym (append-nil o)
put_all-concat size o (s ∷ ss) h =
    let parts = length-append s (concat ss) in
    let whole : take (size - length o) s ≡ s =
      take_all (size - length o) s (omega (arith, parts)) in
    rw whole (put_all-concat size (o ++ s) ss (omega (arith, parts, length-append o s)))
    ∙ append_assoc o s (concat ss)

length-entries : (ds : List Text) → length (entries ds) ≡ lines_size ds + 1
unfolding domain_pieces lines_size lit
length-entries [] = omega arith
length-entries (d ∷ ds) = omega (arith, length-append {0}, length-entries ds)

length-hosts_block : (ds : List Text) → length (hosts_block ds) ≡ kb_hosts_block_size ds
unfolding hosts_block kb_hosts_block_size
length-hosts_block ds =
    omega (arith, length-append hosts_marker (b'\n' ∷ entries ds), length-entries ds)

-- In a buffer of the size that is computed for it the block is written whole, and fills it.
pub kb_hosts_format-hosts_block :
    (ds : List Text)
    → (kb_hosts_format ds (kb_hosts_block_size ds) ≡ hosts_block ds)
      × (length (hosts_block ds) ≡ kb_hosts_block_size ds)
unfolding kb_hosts_format hosts_block lit
kb_hosts_format-hosts_block ds = (
  put_all-concat (kb_hosts_block_size ds) []
      (lit "\n\n" ∷ hosts_marker ∷ lit "\n" ∷ domain_pieces ds)
      (omega (arith, length-hosts_block ds)),
  length-hosts_block ds,
)
