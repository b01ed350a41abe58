-- ===== src/Kernel/Domains/Normal.antt =====
-- A domain in the form that the kernel keeps is not changed by being normalized again.
use mathlib.Core.List.{reverse, reverse-append, reverse-reverse}
use mathlib.Core.Path.{subst}
use kblocker.Base.{
  ℕ, suc, ◌≤◌, ◌<◌, ◌≡◌, ◌≢◌, refl, sym, ap, ◌∙◌, ◌==◌, true, false, some, [], ◌∷◌, ◌++◌, Text, lit,
  length, arith, is_empty, is_empty_iff, trim_space, has_prefix, trim_prefix, All, leb, Bool-cases,
  inl, inr,
}
use kblocker.Base.Words.{IsSolid, trim_space-word}
use kblocker.Kernel.Domains.{
  kb_tolower, kb_domain_char, drop_dots, trim_dots, all_domain_chars, lower_text,
  kb_normalize_domain,
}

-- A byte of such a domain.
pub record IsKept (c : ℕ) : Type 0 where
  pub is_char : kb_domain_char c ≡ true
  pub is_lower : kb_tolower c ≡ c

pub record IsNormal (d : Text) : Type 0 where
  pub some_bytes : d ≢ []
  pub is_short : length d < 256
  pub of_kept : All IsKept d
  pub no_dot_before : drop_dots d ≡ d
  pub no_dot_after : drop_dots (reverse d) ≡ reverse d

drop_dots-twice : (s : Text) → drop_dots (drop_dots s) ≡ drop_dots s
unfolding drop_dots
drop_dots-twice [] = refl
drop_dots-twice (c ∷ s) = ground (arith, drop_dots-twice s)

length-drop_dots : (s : Text) → length (drop_dots s) ≤ length s
unfolding drop_dots
length-drop_dots [] = omega arith
length-drop_dots (c ∷ s) = ground (arith, length-drop_dots s)

-- What is dropped is a front part.
drop_dots-front : (s : Text) → (x : Text) × (s ≡ x ++ drop_dots s)
unfolding drop_dots
drop_dots-front [] = ([], refl)
drop_dots-front (c ∷ s) = elim (Bool-cases (c == b'.')) [
  | inl dot ↦ let (x, e) = drop_dots-front s in (c ∷ x, rw dot (ap (λ t. c ∷ t) e))
  | inr no_dot ↦ ([], rw no_dot refl)
]

head-no_dot : (c : ℕ) (s : Text) → drop_dots (c ∷ s) ≡ c ∷ s → (c == b'.') ≡ false
unfolding drop_dots
head-no_dot c s e = elim (Bool-cases (c == b'.')) [
  | inr no_dot ↦ no_dot
  | inl dot ↦ absurd (
      let same : drop_dots s ≡ c ∷ s = ground (arith, e, dot) in
      let longer : length (drop_dots s) ≡ suc (length s) = ap length same in
      omega (arith, longer, length-drop_dots s))
]

-- A front part of a text with no dot before it has none either.
drop_dots-part : (u x : Text) → drop_dots (u ++ x) ≡ u ++ x → drop_dots u ≡ u
unfolding drop_dots
drop_dots-part [] x e = refl
drop_dots-part (c ∷ u) x e = ground (arith, head-no_dot c (u ++ x) e)

trim_dots-before : (s : Text) → drop_dots (trim_dots s) ≡ trim_dots s
unfolding trim_dots
trim_dots-before s =
    let v = drop_dots s in
    let (x, e) = drop_dots-front (reverse v) in
    let whole : v ≡ reverse (drop_dots (reverse v)) ++ reverse x =
      sym (reverse-reverse v) ∙ ap reverse e ∙ reverse-append x (drop_dots (reverse v)) in
    drop_dots-part (reverse (drop_dots (reverse v))) (reverse x)
      (sym (ap drop_dots whole) ∙ drop_dots-twice s ∙ whole)

trim_dots-after : (s : Text) → drop_dots (reverse (trim_dots s)) ≡ reverse (trim_dots s)
unfolding trim_dots
trim_dots-after s =
    let w = drop_dots (reverse (drop_dots s)) in
    ap drop_dots (reverse-reverse w)
    ∙ drop_dots-twice (reverse (drop_dots s))
    ∙ sym (reverse-reverse w)

lower-IsKept : (c : ℕ) → kb_domain_char c ≡ true → IsKept (kb_tolower c)
unfolding kb_domain_char
lower-IsKept c h = ground (arith, h)

lower_text-IsKept : (s : Text) → all_domain_chars s ≡ true → All IsKept (lower_text s)
unfolding all_domain_chars lower_text
lower_text-IsKept [] h = tt
lower_text-IsKept (c ∷ s) h =
    (lower-IsKept c (ground (arith, h)), lower_text-IsKept s (ground (arith, h)))

lower-dot : (c : ℕ) → (kb_tolower c == b'.') ≡ (c == b'.')
lower-dot c = ground arith

drop_dots-lower_text : (s : Text) → drop_dots (lower_text s) ≡ lower_text (drop_dots s)
unfolding drop_dots lower_text
drop_dots-lower_text [] = refl
drop_dots-lower_text (c ∷ s) = ground (arith, lower-dot c, drop_dots-lower_text s)

lower_text-append : (s t : Text) → lower_text (s ++ t) ≡ lower_text s ++ lower_text t
unfolding lower_text
lower_text-append [] t = refl
lower_text-append (c ∷ s) t = ap (λ r. kb_tolower c ∷ r) (lower_text-append s t)

reverse-lower_text : (s : Text) → reverse (lower_text s) ≡ lower_text (reverse s)
unfolding lower_text
reverse-lower_text [] = refl
reverse-lower_text (c ∷ s) =
    reverse-append (kb_tolower c ∷ []) (lower_text s)
    ∙ ap (λ r. r ++ (kb_tolower c ∷ [])) (reverse-lower_text s)
    ∙ sym (lower_text-append (reverse s) (c ∷ []))
    ∙ ap lower_text (sym (reverse-append (c ∷ []) s))

length-lower_text : (s : Text) → length (lower_text s) ≡ length s
unfolding lower_text
length-lower_text [] = refl
length-lower_text (c ∷ s) = ap suc (length-lower_text s)

nonempty-lower_text : (s : Text) → s ≢ [] → lower_text s ≢ []
unfolding lower_text
nonempty-lower_text [] h e = h refl
nonempty-lower_text (c ∷ s) h e = cc

lower_text-IsNormal :
    (s : Text)
    → s ≢ []
    → length s < 256
    → all_domain_chars s ≡ true
    → drop_dots s ≡ s
    → drop_dots (reverse s) ≡ reverse s
    → IsNormal (lower_text s)
lower_text-IsNormal s some_s short chars before after = record {
  some_bytes = nonempty-lower_text s some_s;
  is_short = omega (arith, length-lower_text s);
  of_kept = lower_text-IsKept s chars;
  no_dot_before = drop_dots-lower_text s ∙ ap lower_text before;
  no_dot_after =
      ap drop_dots (reverse-lower_text s)
      ∙ drop_dots-lower_text (reverse s)
      ∙ ap lower_text after
      ∙ sym (reverse-lower_text s);
}

-- What is normalized is in the form that the kernel keeps.
pub kb_normalize_domain-IsNormal : (d e : Text) → kb_normalize_domain d ≡ some e → IsNormal e
unfolding kb_normalize_domain
kb_normalize_domain-IsNormal d e h =
    let s = trim_dots (trim_prefix (trim_space d) (lit "*.")) in
    elim (Bool-cases (is_empty s)) [
      | inl none_left ↦ absurd (ground (arith, h, none_left))
      | inr some_left ↦ elim (Bool-cases (leb 256 (length s))) [
        | inl long ↦ absurd (ground (arith, h, some_left, long))
        | inr short ↦ elim (Bool-cases (all_domain_chars s)) [
          | inr bad ↦ absurd (ground (arith, h, some_left, short, bad))
          | inl good ↦
              let same : some (lower_text s) ≡ some e = ground (arith, h, some_left, short, good) in
              subst IsNormal (ground (arith, same)) (
                lower_text-IsNormal s (ground (arith, some_left, is_empty_iff s))
                  (ground (arith, short)) good
                  (trim_dots-before (trim_prefix (trim_space d) (lit "*.")))
                  (trim_dots-after (trim_prefix (trim_space d) (lit "*."))))
        ]
      ]
    ]

kept-IsSolid : (c : ℕ) → IsKept c → IsSolid c
unfolding kb_domain_char
kept-IsSolid c h = ground (arith, h.is_char)

pub kept_text-IsSolid : (s : Text) → All IsKept s → All IsSolid s
kept_text-IsSolid [] h = tt
kept_text-IsSolid (c ∷ s) (hc, hs) = (kept-IsSolid c hc, kept_text-IsSolid s hs)

kept-trim_prefix : (s : Text) → All IsKept s → trim_prefix s (lit "*.") ≡ s
unfolding trim_prefix has_prefix lit kb_domain_char
kept-trim_prefix [] h = refl
kept-trim_prefix (c ∷ s) (hc, hs) = ground (arith, hc.is_char)

kept-all_domain_chars : (s : Text) → All IsKept s → all_domain_chars s ≡ true
unfolding all_domain_chars
kept-all_domain_chars [] h = refl
kept-all_domain_chars (c ∷ s) (hc, hs) = ground (arith, hc.is_char, kept-all_domain_chars s hs)

kept-lower_text : (s : Text) → All IsKept s → lower_text s ≡ s
unfolding lower_text
kept-lower_text [] h = refl
kept-lower_text (c ∷ s) (hc, hs) = ground (arith, hc.is_lower, kept-lower_text s hs)

trim_dots-normal : (d : Text) → IsNormal d → trim_dots d ≡ d
unfolding trim_dots
trim_dots-normal d h =
    ap (λ t. reverse (drop_dots (reverse t))) h.no_dot_before
    ∙ ap reverse h.no_dot_after
    ∙ reverse-reverse d

-- And that is not changed.
pub IsNormal-kb_normalize_domain : (d : Text) → IsNormal d → kb_normalize_domain d ≡ some d
unfolding kb_normalize_domain
IsNormal-kb_normalize_domain d h =
    let same : trim_dots (trim_prefix (trim_space d) (lit "*.")) ≡ d =
      ap (λ t. trim_dots (trim_prefix t (lit "*.")))
        (trim_space-word d (kept_text-IsSolid d h.of_kept))
      ∙ ap trim_dots (kept-trim_prefix d h.of_kept)
      ∙ trim_dots-normal d h in
    rw same (
      ground (
        arith,
        h.is_short,
        h.some_bytes,
        is_empty_iff d,
        kept-all_domain_chars d h.of_kept,
        kept-lower_text d h.of_kept,
      ))
