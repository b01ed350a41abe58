-- ===== src/Kernel/SavedState/Restored.antt =====
-- A session that was written to the state file goes on after the module is loaded again.
use mathlib.Core.List.{append_assoc}
use mathlib.Core.Path.{subst}
use kblocker.Base.{
  ℕ, suc, ◌+◌, ◌≤◌, ◌<◌, ◌≡◌, ◌≢◌, refl, sym, ap, ◌∙◌, ◌==◌, true, false, Option, some, List, [],
  ◌∷◌, ◌++◌, Text, lit, arith, length, leb, is_empty, split, join, All, Option-cases, inl, inr,
}
use kblocker.Base.Parts.{take_all}
use kblocker.Base.Words.{All-append}
use kblocker.Kernel.{Session, hex_text, max_session_seconds}
use kblocker.Kernel.Keys.{IsByte, kb_hex_decode-hex_text}
use kblocker.Kernel.Domains.{kb_domain_char}
use kblocker.Kernel.Domains.Normal.{IsKept, IsNormal, IsNormal-kb_normalize_domain}
use kblocker.Kernel.Domains.Stored.{IsStored, kept-newline}
use kblocker.Kernel.StateFile.{c_text, head_text, saved_seconds, remaining_line}
use kblocker.Kernel.StateFile.Bytes.{IsNonzero, c_text_id}
use kblocker.Kernel.StateFile.Saved.{saved_seconds-remaining_line}
use kblocker.Kernel.Lists.{Inet, Lists, kb_parse_allowed}
use kblocker.Kernel.SavedState.{
  Printer, commas4, commas6, format4, format6, line_of, end_lines, domains_lines, session_lines,
  state_file_write_session, line_after, restored_domains, restore_domains, restored_hash,
  restore_ips, restore_allowed,
}
use kblocker.Kernel.SavedState.Lines.{split-join}
use kblocker.Kernel.SavedState.Fields.{
  length-hex_text, time_line, hash_line, lock_line, line_after-hash, line_after-domains,
}

kept-comma : (d : Text) → All IsKept d → All (λ c. c ≢ b',') d
unfolding kb_domain_char
kept-comma [] h = tt
kept-comma (c ∷ s) (hc, hs) = ((λ e. absurd (ground (arith, hc.is_char, e))), kept-comma s hs)

normal-comma : (ds : List Text) → All IsNormal ds → All (All (λ c. c ≢ b',')) ds
normal-comma [] h = tt
normal-comma (d ∷ ds) (hd, hs) = (kept-comma d hd.of_kept, normal-comma ds hs)

join-newline :
    (d : Text) (ds : List Text)
    → All IsNormal (d ∷ ds)
    → All (λ c. c ≢ b'\n') (join (d ∷ ds) (lit ","))
unfolding join lit
join-newline d [] (hd, hs) = kept-newline d hd.of_kept
join-newline d (e ∷ ds) (hd, hs) =
    All-append (λ c. c ≢ b'\n') d (b',' ∷ join (e ∷ ds) (b',' ∷ [])) (kept-newline d hd.of_kept)
      ((λ e'. absurd (omega (arith, e'))), join-newline e ds hs)

is_empty-join : (d : Text) (ds : List Text) → d ≢ [] → is_empty (join (d ∷ ds) (lit ",")) ≡ false
unfolding join
is_empty-join [] ds h = absurd (h refl)
is_empty-join (c ∷ d) [] h = refl
is_empty-join (c ∷ d) (e ∷ ds) h = refl

restored_domains-normal :
    (nd : ℕ) (ds : List Text) → nd + length ds ≤ 64 → All IsNormal ds → restored_domains nd ds ≡ ds
unfolding restored_domains
restored_domains-normal nd [] few h = refl
restored_domains-normal nd (d ∷ ds) few (hd, hs) =
    let room : leb 64 nd ≡ false = ground arith in
    rw (room, IsNormal-kb_normalize_domain d hd)
      (ap (λ r. d ∷ r) (restored_domains-normal (suc nd) ds (omega arith) hs))

pub restore_ips-domains :
    (I : Inet) (buf : Text) (lists : Lists) → (restore_ips I buf lists).domains ≡ lists.domains
unfolding restore_ips
restore_ips-domains I buf lists = elim (Option-cases (line_after buf (lit "blocked_ips:"))) [
  | inl nowhere ↦ ground (arith, nowhere)
  | inr (line, here) ↦ ground (arith, here)
]

pub restore_allowed-domains :
    (I : Inet) (buf : Text) (lists : Lists) → (restore_allowed I buf lists).domains ≡ lists.domains
unfolding restore_allowed
restore_allowed-domains I buf lists = elim (Option-cases (line_after buf (lit "allowed_ips:"))) [
  | inl nowhere ↦ ground (arith, nowhere)
  | inr (line, here) ↦ elim (Option-cases (kb_parse_allowed I line b',')) [
    | inl bad ↦ ground (arith, here, bad)
    | inr (nets, good) ↦ ground (arith, here, good)
  ]
]

tokens :
    (d : Text) (ds : List Text)
    → All IsNormal (d ∷ ds)
    → split b',' (join (d ∷ ds) (lit ",")) ≡ d ∷ ds
unfolding lit
tokens d ds h = split-join b',' d ds (normal-comma (d ∷ ds) h)

module _ (F : Printer) (seconds : ℕ) (s : Session) (lists : Lists) (d : Text) (ds : List Text)
    (z : Text) (listed : lists.domains ≡ d ∷ ds) (stored : IsStored (d ∷ ds))
    (small : All IsByte s.key_hash) (size : length s.key_hash ≡ 32) where
  key_line :
      line_after (state_file_write_session F seconds s lists ++ z) (lit "key_hash:")
      ≡ some (hex_text s.key_hash)
  unfolding state_file_write_session session_lines
  key_line = line_after-hash seconds s.key_hash _ z small

  pub restored_hash-session :
      restored_hash (state_file_write_session F seconds s lists ++ z) ≡ some s.key_hash
  unfolding restored_hash
  restored_hash-session =
      let whole : (length (hex_text s.key_hash) == 64) ≡ true =
        ground (arith, length-hex_text s.key_hash, size) in
      rw (key_line, restored_hash, whole) (kb_hex_decode-hex_text s.key_hash small)

  domains_line :
      line_after (state_file_write_session F seconds s lists ++ z) (lit "domains:")
      ≡ some (join (d ∷ ds) (lit ","))
  unfolding state_file_write_session session_lines domains_lines
  domains_line =
      let one_line = join-newline d ds stored.normal in
      let rest =
        line_of F (lit "blocked_ips:") (commas4 F lists.blocked_v4 ++ commas6 F lists.blocked_v6)
        ++ line_of F (lit "allowed_ips:")
            (format4 F lists.allowed_v4 ++ format6 F lists.allowed_v6) in
      subst
        (λ l.
          line_after
            (end_lines (
                time_line seconds
                ∷ hash_line s.key_hash
                ∷ lock_line s.pgp_active
                ∷ (domains_lines l ++ rest))
              ++ z)
            (lit "domains:")
          ≡ some (join (d ∷ ds) (lit ",")))
        (sym listed)
        (line_after-domains seconds s.key_hash s.pgp_active (join (d ∷ ds) (lit ",")) rest z small
          one_line)

  pub restore_domains-session :
      (old : List Text)
      → restore_domains (state_file_write_session F seconds s lists ++ z) old ≡ d ∷ ds
  unfolding restore_domains
  restore_domains-session old =
      let some_line = is_empty-join d ds stored.normal.0.some_bytes in
      rw (domains_line, restore_domains, some_line, tokens d ds stored.normal)
        (restored_domains-normal 0 (d ∷ ds) (omega (arith, stored.few)) stored.normal)

-- A text of lines that is not empty ends in a line break.
end_lines-last : (l : Text) (ls : List Text) → (x : Text) × (end_lines (l ∷ ls) ≡ x ++ (b'\n' ∷ []))
unfolding end_lines
end_lines-last l [] = (l, refl)
end_lines-last l (k ∷ ls) =
    let (x, e) = end_lines-last k ls in
    (l ++ (b'\n' ∷ x), ap (λ t. l ++ (b'\n' ∷ t)) e ∙ sym (append_assoc l (b'\n' ∷ x) (b'\n' ∷ [])))

All-front : (x y : Text) → All IsNonzero (x ++ y) → All IsNonzero x
All-front [] y h = tt
All-front (c ∷ x) y (hc, hx) = (hc, All-front x y hx)

pub session_file-last :
    (F : Printer) (seconds : ℕ) (s : Session) (lists : Lists)
    → (x : Text) × (state_file_write_session F seconds s lists ≡ x ++ (b'\n' ∷ []))
unfolding state_file_write_session session_lines
session_file-last F seconds s lists = end_lines-last _ _

pub head_text-whole :
    (file : Text) → length file ≤ 262144 → All IsNonzero file → head_text file ≡ file
unfolding head_text
head_text-whole file fits no_nul = ap c_text (take_all 262144 file fits) ∙ c_text_id file no_nul

-- The seconds of the last line that was appended.
pub saved_seconds-appended :
    (strtoull : Text → Option ℕ) (now : ℕ) (F : Printer) (seconds : ℕ) (s : Session) (lists : Lists)
    (n : ℕ)
    → All IsNonzero (state_file_write_session F seconds s lists ++ remaining_line n)
    → 0 < n
    → n ≤ max_session_seconds
    → saved_seconds strtoull now (state_file_write_session F seconds s lists ++ remaining_line n)
      ≡ n
saved_seconds-appended strtoull now F seconds s lists n no_nul some_time fits =
    let (x, e) = session_file-last F seconds s lists in
    let front = All-front (state_file_write_session F seconds s lists) (remaining_line n) no_nul in
    let x_no_nul = All-front x (b'\n' ∷ []) (subst (All IsNonzero) e front) in
    ap (λ t. saved_seconds strtoull now (t ++ remaining_line n)) e
    ∙ ap (saved_seconds strtoull now) (append_assoc x (b'\n' ∷ []) (remaining_line n))
    ∙ saved_seconds-remaining_line strtoull now x n x_no_nul some_time fits
