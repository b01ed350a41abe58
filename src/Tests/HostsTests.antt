-- ===== src/Tests/HostsTests.antt =====
-- A hosts file, and the theorems about it applied there.
use kblocker.Base.{◌+◌, ◌≤◌, ◌≡◌, refl, inr, [], ◌∷◌, ◌++◌, Text, lit, arith, length, has_prefix}
use kblocker.Base.Search.{strstr}
use kblocker.Kernel.Hosts.{
  hosts_marker, kb_hosts_block_size, lines_size, hosts_max_size, clear_hosts_from_kernel,
  update_hosts_file,
}
use kblocker.Kernel.Hosts.Blocks.{hosts_block}
use kblocker.Kernel.Hosts.UserPart.{IsUserPart}
use kblocker.Kernel.Hosts.RoundTrip.{IsFitting, clear_hosts_from_kernel-update_hosts_file}

abbrev own : Text
own = b':' ∷ b':' ∷ b'1' ∷ b' ' ∷ b'#' ∷ b' ' ∷ b'k' ∷ []

abbrev site : Text
site = b'a' ∷ b'.' ∷ b'b' ∷ []

abbrev other_site : Text
other_site = b'c' ∷ b'.' ∷ b'd' ∷ []

own-IsUserPart : IsUserPart own
unfolding strstr has_prefix hosts_marker lit
own-IsUserPart = record {
  no_nul = omega arith;
  no_marker = refl;
  no_newline = inr (b':' ∷ b':' ∷ b'1' ∷ b' ' ∷ b'#' ∷ b' ' ∷ [], (b'k', refl, omega arith));
}

fits : (length own + kb_hosts_block_size (site ∷ []) ≤ hosts_max_size)
unfolding kb_hosts_block_size lines_size hosts_marker lit
fits = omega arith

other_fits : (length own + kb_hosts_block_size (other_site ∷ site ∷ []) ≤ hosts_max_size)
unfolding kb_hosts_block_size lines_size hosts_marker lit
other_fits = omega arith

site-IsFitting : IsFitting own (site ∷ [])
site-IsFitting = record { no_nul = omega arith; fits = fits }

others-IsFitting : IsFitting own (other_site ∷ site ∷ [])
others-IsFitting = record { no_nul = omega arith; fits = other_fits }

-- Two sites are blocked, then one, which is removed.
abbrev after_two : Text
after_two =
    update_hosts_file (site ∷ []) (update_hosts_file (other_site ∷ site ∷ []) (own ++ (b'\n' ∷ [])))

clear_hosts_from_kernel-update_hosts_file_example :
    (clear_hosts_from_kernel after_two ≡ own ++ (b'\n' ∷ []))
    × (update_hosts_file (other_site ∷ site ∷ []) after_two
        ≡ own ++ hosts_block (other_site ∷ site ∷ []))
    × (clear_hosts_from_kernel (update_hosts_file (other_site ∷ site ∷ []) after_two)
        ≡ own ++ (b'\n' ∷ []))
clear_hosts_from_kernel-update_hosts_file_example =
    clear_hosts_from_kernel-update_hosts_file own ((other_site ∷ site ∷ []) ∷ (site ∷ []) ∷ [])
      other_site (site ∷ []) own-IsUserPart (others-IsFitting, (site-IsFitting, tt))
      others-IsFitting
