-- ===== src/Kernel/Hosts/RoundTrip.antt =====
-- What is left of a user's hosts file after updates and a removal.
use mathlib.Core.List.{foldl}
use kblocker.Base.{
  ◌+◌, ◌≤◌, ◌<◌, ◌≡◌, refl, ◌⊎◌, inl, inr, Bool-cases, false, List, [], ◌∷◌, ◌++◌, Text, lit, arith,
  length, length-append, ltb, All,
}
use kblocker.Base.Parts.{take-append}
use kblocker.Base.Words.{All-append}
use kblocker.Kernel.StateFile.Bytes.{IsNonzero, c_text_id}
use kblocker.Kernel.Hosts.{
  kb_hosts_base_len, kb_hosts_block_size, hosts_write_tail, hosts_max_size, clear_hosts_from_kernel,
  update_hosts_file,
}
use kblocker.Kernel.Hosts.UserPart.{
  IsUserPart, kb_hosts_base_len-newline, kb_hosts_base_len-hosts_block, strstr-user,
  strstr-hosts_block, hosts_block-IsNonzero,
}
use kblocker.Kernel.Hosts.Blocks.{hosts_block, kb_hosts_format-hosts_block}

-- The file with the user's part and one line break, and with a block in the place of the latter.
update_hosts_file-user :
    (x : Text) (d : Text) (ds : List Text)
    → IsUserPart x
    → length x < hosts_max_size
    → update_hosts_file (d ∷ ds) (x ++ (b'\n' ∷ [])) ≡ x ++ hosts_block (d ∷ ds)
unfolding update_hosts_file hosts_write_tail
update_hosts_file-user x d ds w short =
    let small : ltb hosts_max_size (length (x ++ (b'\n' ∷ []))) ≡ false =
      ground (arith, length-append x (b'\n' ∷ [])) in
    rw
      (
        small,
        kb_hosts_base_len-newline x w,
        take-append x (b'\n' ∷ []),
        (kb_hosts_format-hosts_block (d ∷ ds)).0,
      )
      refl

module _ (x : Text) (ds : List Text) (w : IsUserPart x) (no_nul : All (All IsNonzero) ds)
    (fits : length x + kb_hosts_block_size ds ≤ hosts_max_size) where
  block_fits : ltb hosts_max_size (length (x ++ hosts_block ds)) ≡ false
  block_fits =
      ground (arith, fits, length-append x (hosts_block ds), (kb_hosts_format-hosts_block ds).1)

  base_of_block : kb_hosts_base_len (x ++ hosts_block ds) ≡ length x
  base_of_block = kb_hosts_base_len-hosts_block x ds w (hosts_block-IsNonzero ds no_nul)

  update_hosts_file-block :
      (e : Text) (es : List Text)
      → update_hosts_file (e ∷ es) (x ++ hosts_block ds) ≡ x ++ hosts_block (e ∷ es)
  unfolding update_hosts_file hosts_write_tail
  update_hosts_file-block e es =
      rw
        (
          block_fits,
          base_of_block,
          take-append x (hosts_block ds),
          (kb_hosts_format-hosts_block (e ∷ es)).0,
        )
        refl

  clear_hosts_from_kernel-block : clear_hosts_from_kernel (x ++ hosts_block ds) ≡ x ++ (b'\n' ∷ [])
  unfolding clear_hosts_from_kernel hosts_write_tail lit
  clear_hosts_from_kernel-block =
      let whole =
        c_text_id (x ++ hosts_block ds)
          (All-append IsNonzero x (hosts_block ds) w.no_nul (hosts_block-IsNonzero ds no_nul)) in
      rw
        (
          block_fits,
          whole,
          strstr-hosts_block x ds w.no_marker,
          base_of_block,
          take-append x (hosts_block ds),
        )
        refl

-- Without the marker nothing is removed.
clear_hosts_from_kernel-user :
    (x : Text) → IsUserPart x → clear_hosts_from_kernel (x ++ (b'\n' ∷ [])) ≡ x ++ (b'\n' ∷ [])
unfolding clear_hosts_from_kernel
clear_hosts_from_kernel-user x w =
    elim (Bool-cases (ltb hosts_max_size (length (x ++ (b'\n' ∷ []))))) [
      | inl large ↦ rw large refl
      | inr small ↦
          let whole =
            c_text_id (x ++ (b'\n' ∷ []))
              (All-append IsNonzero x (b'\n' ∷ []) w.no_nul (omega arith, tt)) in
          rw (small, whole, strstr-user x w) refl
    ]

-- Domains without NUL, whose block leaves the file within the size that the module reads.
pub record IsFitting (x : Text) (ds : List Text) : Type 0 where
  pub no_nul : All (All IsNonzero) ds
  pub fits : length x + kb_hosts_block_size ds ≤ hosts_max_size

-- The file is the user's, or has one block behind the user's part.
abbrev IsKept : Text → Text → Type 0
IsKept x file =
    (file ≡ x ++ (b'\n' ∷ [])) ⊎ ((ds : List Text) × IsFitting x ds × (file ≡ x ++ hosts_block ds))

module _ (x : Text) (w : IsUserPart x) where
  clear_hosts_from_kernel-IsKept :
      (file : Text) → IsKept x file → clear_hosts_from_kernel file ≡ x ++ (b'\n' ∷ [])
  clear_hosts_from_kernel-IsKept file k = elim k [
    | inl e ↦ rw e (clear_hosts_from_kernel-user x w)
    | inr (ds, fit, e) ↦ rw e (clear_hosts_from_kernel-block x ds w fit.no_nul fit.fits)
  ]

  update_hosts_file-IsKept :
      (d : Text) (ds : List Text) (file : Text)
      → IsFitting x (d ∷ ds)
      → IsKept x file
      → update_hosts_file (d ∷ ds) file ≡ x ++ hosts_block (d ∷ ds)
  unfolding kb_hosts_block_size
  update_hosts_file-IsKept d ds file fit k = elim k [
    | inl e ↦ rw e (update_hosts_file-user x d ds w (omega (arith, fit.fits)))
    | inr (old, old_fit, e) ↦
        rw e (update_hosts_file-block x old w old_fit.no_nul old_fit.fits d ds)
  ]

  update_hosts_file-keeps :
      (ds : List Text) (file : Text)
      → IsFitting x ds
      → IsKept x file
      → IsKept x (update_hosts_file ds file)
  unfolding update_hosts_file
  update_hosts_file-keeps [] file fit k = inl (clear_hosts_from_kernel-IsKept file k)
  update_hosts_file-keeps (d ∷ ds) file fit k =
      inr (d ∷ ds, fit, update_hosts_file-IsKept d ds file fit k)

  updates-IsKept :
      (lists : List (List Text)) (file : Text)
      → All (IsFitting x) lists
      → IsKept x file
      → IsKept x (foldl (λ f ds. update_hosts_file ds f) file lists)
  updates-IsKept [] file h k = k
  updates-IsKept (ds ∷ lists) file (fit, h) k =
      updates-IsKept lists (update_hosts_file ds file) h (update_hosts_file-keeps ds file fit k)

-- A user's hosts file of a part without NUL and marker, which ends in no line break, and one
-- line break, comes back after any sequence of updates, with domains or without, and a removal;
-- and after any sequence the next update with domains leaves the user's part with the block of
-- these domains alone. The domains hold no NUL, and the user's part with each block has at most
-- 1 MB, which is what the module reads.
pub clear_hosts_from_kernel-update_hosts_file :
    (x : Text) (lists : List (List Text)) (d : Text) (ds : List Text)
    → IsUserPart x
    → All (IsFitting x) lists
    → IsFitting x (d ∷ ds)
    → let file = foldl (λ f es. update_hosts_file es f) (x ++ (b'\n' ∷ [])) lists in
      (clear_hosts_from_kernel file ≡ x ++ (b'\n' ∷ []))
      × (update_hosts_file (d ∷ ds) file ≡ x ++ hosts_block (d ∷ ds))
      × (clear_hosts_from_kernel (update_hosts_file (d ∷ ds) file) ≡ x ++ (b'\n' ∷ []))
clear_hosts_from_kernel-update_hosts_file x lists d ds w all_fit fit =
    let kept = updates-IsKept x w lists (x ++ (b'\n' ∷ [])) all_fit (inl refl) in
    let file = foldl (λ f es. update_hosts_file es f) (x ++ (b'\n' ∷ [])) lists in
    (
      clear_hosts_from_kernel-IsKept x w file kept,
      update_hosts_file-IsKept x w d ds file fit kept,
      clear_hosts_from_kernel-IsKept x w (update_hosts_file (d ∷ ds) file)
          (update_hosts_file-keeps x w (d ∷ ds) file fit kept),
    )
