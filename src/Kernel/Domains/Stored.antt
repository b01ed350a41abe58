-- ===== src/Kernel/Domains/Stored.antt =====
-- What the kernel's list of domains holds, and that it can be written as it is shown.
use mathlib.Core.Path.{subst}
use kblocker.Base.{
  ℕ, suc, ◌+◌, ◌≤◌, ◌<◌, ◌≡◌, ◌≢◌, refl, ◌∙◌, ap, Bool, true, false, Option, none, some, List, [],
  ◌∷◌, Text, lit, arith, length, leb, split, is_empty, is_empty_iff, trim_space, ◌||◌, has_prefix,
  All, Bool-cases, Option-cases, inl, inr,
}
use kblocker.Base.Parts.{take_all}
use kblocker.Base.Words.{All-append, trim_space-word, split-append}
use kblocker.Kernel.{success}
use kblocker.Kernel.StateFile.{c_text}
use kblocker.Kernel.StateFile.Bytes.{IsNonzero, c_text_id}
use kblocker.Kernel.Domains.{
  kb_domain_char, kb_normalize_domain, parse_domains, blocked_domains_store, domain_lines,
  blocked_domains_show,
}
use kblocker.Kernel.Domains.Normal.{
  IsKept, IsNormal, kept_text-IsSolid, kb_normalize_domain-IsNormal, IsNormal-kb_normalize_domain,
}

pub record IsStored (ds : List Text) : Type 0 where
  pub few : length ds ≤ 64
  pub normal : All IsNormal ds

-- What is found after `nd` domains.
abbrev IsFound : ℕ → Option (List Text) → Type 0
IsFound nd none = Unit
IsFound nd (some ds) = (nd + length ds ≤ 64) × All IsNormal ds

cons-IsFound :
    (nd : ℕ) (d : Text) (o : Option (List Text))
    → IsNormal d
    → IsFound (suc nd) o
    → IsFound nd (elim o [ none ↦ none | some ds ↦ some (d ∷ ds) ])
cons-IsFound nd d none hd h = tt
cons-IsFound nd d (some ds) hd (few, hs) = (omega arith, (hd, hs))

parse_domains-IsFound : (nd : ℕ) (lines : List Text) → nd ≤ 64 → IsFound nd (parse_domains nd lines)
unfolding parse_domains
parse_domains-IsFound nd [] few = (omega arith, tt)
parse_domains-IsFound nd (line ∷ lines) few =
    elim (Bool-cases (is_empty (trim_space line) || has_prefix (trim_space line) (lit "#"))) [
      | inl skipped ↦ rw skipped (parse_domains-IsFound nd lines few)
      | inr token ↦ elim (Option-cases (kb_normalize_domain line)) [
        | inl bad ↦ rw (token, bad) tt
        | inr (d, good) ↦ elim (Bool-cases (leb 64 nd)) [
          | inl full ↦ rw (token, good, full) tt
          | inr room ↦
              rw (token, good, room)
                (cons-IsFound nd d (parse_domains (suc nd) lines)
                  (kb_normalize_domain-IsNormal line d good)
                  (parse_domains-IsFound (suc nd) lines (ground (arith, room))))
        ]
      ]
    ]

-- A write keeps the list in order: it holds at most 64 domains, each in the form that normalizing
-- does not change. While a session runs it is refused, and the list is as it was.
pub blocked_domains_store-IsStored :
    (buf : Text) (enabled : Bool) (ds : List Text)
    → IsStored ds
    → IsStored (blocked_domains_store buf enabled ds).1
      × (enabled ≡ true
          → ((blocked_domains_store buf enabled ds).0 ≢ success)
            × ((blocked_domains_store buf enabled ds).1 ≡ ds))
unfolding blocked_domains_store
blocked_domains_store-IsStored buf enabled ds h =
    elim (Option-cases (parse_domains 0 (split b'\n' (c_text buf)))) [
      | inl bad ↦ rw (bad, blocked_domains_store) (h, λ on. ((λ e. cc), refl))
      | inr (new, good) ↦
          let found : IsFound 0 (some new) =
            subst (IsFound 0) good
              (parse_domains-IsFound 0 (split b'\n' (c_text buf)) (omega arith)) in
          elim (Bool-cases enabled) [
            | inl on ↦ rw (good, on, blocked_domains_store) (h, λ e. ((λ e'. cc), refl))
            | inr off ↦
                rw (good, off, blocked_domains_store)
                  (
                    record { few = omega (arith, found.0); normal = found.1 },
                    λ e. absurd (ground (arith, e)),
                  )
          ]
    ]

pub kept-newline : (s : Text) → All IsKept s → All (λ c. c ≢ b'\n') s
unfolding kb_domain_char
kept-newline [] h = tt
kept-newline (c ∷ s) (hc, hs) = ((λ e. absurd (ground (arith, hc.is_char, e))), kept-newline s hs)

kept-no_comment : (s : Text) → All IsKept s → has_prefix s (lit "#") ≡ false
unfolding kb_domain_char has_prefix lit
kept-no_comment [] h = refl
kept-no_comment (c ∷ s) (hc, hs) = ground (arith, hc.is_char)

skip_blank : (nd : ℕ) (lines : List Text) → parse_domains nd ([] ∷ lines) ≡ parse_domains nd lines
unfolding parse_domains trim_space
skip_blank nd lines = refl

keep_domain :
    (nd : ℕ) (d : Text) (lines : List Text)
    → IsNormal d
    → nd < 64
    → parse_domains nd (d ∷ lines)
      ≡ elim (parse_domains (suc nd) lines) [ none ↦ none | some ds ↦ some (d ∷ ds) ]
unfolding parse_domains
keep_domain nd d lines h room = ground (
  arith,
  room,
  trim_space-word d (kept_text-IsSolid d h.of_kept),
  is_empty_iff d,
  h.some_bytes,
  kept-no_comment d h.of_kept,
  IsNormal-kb_normalize_domain d h,
)

parse_domains-domain_lines :
    (nd : ℕ) (ds : List Text)
    → nd + length ds ≤ 64
    → All IsNormal ds
    → parse_domains nd (split b'\n' (domain_lines ds)) ≡ some ds
unfolding parse_domains domain_lines split
parse_domains-domain_lines nd [] few h = skip_blank nd []
parse_domains-domain_lines nd (d ∷ ds) few (hd, hs) =
    ap (parse_domains nd) (split-append b'\n' d (domain_lines ds) (kept-newline d hd.of_kept))
    ∙ keep_domain nd d (split b'\n' (domain_lines ds)) hd (omega arith)
    ∙ ap (λ o. elim o [ none ↦ none | some es ↦ some (d ∷ es) ])
        (parse_domains-domain_lines (suc nd) ds (omega arith) hs)

kept-IsNonzero : (s : Text) → All IsKept s → All IsNonzero s
unfolding kb_domain_char
kept-IsNonzero [] h = tt
kept-IsNonzero (c ∷ s) (hc, hs) = (ground (arith, hc.is_char), kept-IsNonzero s hs)

domain_lines-IsNonzero : (ds : List Text) → All IsNormal ds → All IsNonzero (domain_lines ds)
unfolding domain_lines
domain_lines-IsNonzero [] h = tt
domain_lines-IsNonzero (d ∷ ds) (hd, hs) =
    All-append IsNonzero d (b'\n' ∷ domain_lines ds) (kept-IsNonzero d hd.of_kept)
      (omega arith, domain_lines-IsNonzero ds hs)

-- A list that fits into a page of 4096 bytes is written back as it was shown.
pub blocked_domains_store-blocked_domains_show :
    (ds old : List Text)
    → IsStored ds
    → length (domain_lines ds) ≤ 4095
    → blocked_domains_store (blocked_domains_show ds) false old ≡ (success, ds)
unfolding blocked_domains_store blocked_domains_show
blocked_domains_store-blocked_domains_show ds old h fits =
    rw
      (
        take_all 4095 (domain_lines ds) fits,
        c_text_id (domain_lines ds) (domain_lines-IsNonzero ds h.normal),
        parse_domains-domain_lines 0 ds (omega (arith, h.few)) h.normal,
        blocked_domains_store,
      )
      refl
