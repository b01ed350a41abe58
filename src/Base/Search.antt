-- ===== src/Base/Search.antt =====
-- strstr of C, on texts of lines.
use kblocker.Base.{
  ℕ, suc, ◌+◌, ◌≡◌, ◌≢◌, refl, ap, ◌∙◌, ◌==◌, ◌&&◌, true, false, Option, none, some, [], ◌∷◌, ◌++◌,
  Text, arith, length, has_prefix, cut, All, Bool-cases, Option-cases, inl, inr, if◌then◌else◌,
}

-- strstr, as the position of the first occurrence; the text looked for is not empty.
unfoldable pub strstr : Text → Text → Option ℕ
strstr [] needle = none
strstr (c ∷ s) needle =
    let later = strstr s needle in
    if has_prefix (c ∷ s) needle then some 0 else elim later [ none ↦ none | some i ↦ some (suc i) ]

-- A text that does not hold a needle is not met before the line break after it.
has_prefix-newline :
    (x y p : Text) → All (λ c. c ≢ b'\n') p → has_prefix (x ++ (b'\n' ∷ y)) p ≡ has_prefix x p
unfolding has_prefix
has_prefix-newline [] y [] h = refl
has_prefix-newline (c ∷ x) y [] h = refl
has_prefix-newline [] y (d ∷ p) (hd, hp) = ground (arith, hd)
has_prefix-newline (c ∷ x) y (d ∷ p) (hd, hp) = ap (λ b. c == d && b) (has_prefix-newline x y p hp)

abbrev pub shifted : ℕ → Option ℕ → Option ℕ
shifted n o = elim o [ none ↦ none | some i ↦ some (n + i) ]

-- No occurrence starts at the head, nor in what follows.
strstr-none :
    (c : ℕ) (x p : Text)
    → strstr (c ∷ x) p ≡ none
    → (has_prefix (c ∷ x) p ≡ false) × (strstr x p ≡ none)
unfolding strstr
strstr-none c x p h = elim (Bool-cases (has_prefix (c ∷ x) p)) [
  | inl hit ↦ absurd (ground (arith, h, hit))
  | inr miss ↦ elim (Option-cases (strstr x p)) [
    | inl none_later ↦ (miss, none_later)
    | inr (i, later) ↦ absurd (ground (arith, h, miss, later))
  ]
]

strstr-miss :
    (c : ℕ) (x p : Text) → has_prefix (c ∷ x) p ≡ false → strstr (c ∷ x) p ≡ shifted 1 (strstr x p)
unfolding strstr
strstr-miss c x p miss = elim (Option-cases (strstr x p)) [
  | inl none_later ↦ ground (arith, miss, none_later)
  | inr (i, later) ↦ ground (arith, miss, later)
]

shifted_twice : (m n k : ℕ) (o : Option ℕ) → m + n ≡ k → shifted m (shifted n o) ≡ shifted k o
shifted_twice m n k none e = refl
shifted_twice m n k (some i) e = ap some (omega (arith, e))

pub strstr-newline :
    (x y : Text) (d : ℕ) (p : Text)
    → All (λ c. c ≢ b'\n') (d ∷ p)
    → strstr x (d ∷ p) ≡ none
    → strstr (x ++ (b'\n' ∷ y)) (d ∷ p) ≡ shifted (suc (length x)) (strstr y (d ∷ p))
unfolding has_prefix
strstr-newline [] y d p h missing = strstr-miss b'\n' y (d ∷ p) (ground (arith, h.0))
strstr-newline (c ∷ x) y d p h missing =
    let (miss, later) = strstr-none c x (d ∷ p) missing in
    strstr-miss c (x ++ (b'\n' ∷ y)) (d ∷ p) (has_prefix-newline (c ∷ x) y (d ∷ p) h ∙ miss)
    ∙ ap (shifted 1) (strstr-newline x y d p h later)
    ∙ shifted_twice 1 (suc (length x)) (suc (suc (length x))) (strstr y (d ∷ p)) (omega arith)

-- A text that cannot be cut at a line break has none.
pub no_break : (s : Text) → cut b'\n' s ≡ none → All (λ c. c ≢ b'\n') s
unfolding cut
no_break [] h = tt
no_break (c ∷ s) h = elim (Bool-cases (c == b'\n')) [
  | inl stop ↦ absurd (ground (arith, h, stop))
  | inr other ↦ elim (Option-cases (cut b'\n' s)) [
    | inl whole ↦ ((λ e. absurd (ground (arith, e, other))), no_break s whole)
    | inr ((before, after), parts) ↦ absurd (ground (arith, h, other, parts))
  ]
]

pub has_prefix-append : (p t : Text) → has_prefix (p ++ t) p ≡ true
unfolding has_prefix
has_prefix-append [] t = refl
has_prefix-append (d ∷ p) t = ground (arith, has_prefix-append p t)
