-- ===== src/Base/Words.antt =====
-- Texts without white space, under strings.TrimSpace, Fields, Split and Cut.
use mathlib.Core.List.{reverse, reverse-append, reverse-reverse}
use mathlib.Core.Path.{subst}
use kblocker.Base.{ℕ, ◌≡◌, ◌≢◌, refl, sym, ap, ◌∙◌, false, some, [], ◌∷◌, ◌++◌, arith, All}
use kblocker.Base.Strings.{
  Text, is_space, drop_spaces, trim_space, split, cut, fields, drop_empty, spaces_to_blank,
}

-- A byte that is no white space.
abbrev pub IsSolid : ℕ → Type 0
IsSolid c = is_space c ≡ false

pub All-append : (P : ℕ → Type 0) (s t : Text) → All P s → All P t → All P (s ++ t)
All-append P [] t hs ht = ht
All-append P (c ∷ s) t (hc, hs) ht = (hc, All-append P s t hs ht)

All-snoc : (P : ℕ → Type 0) (s : Text) (c : ℕ) → All P s → P c → All P (s ++ (c ∷ []))
All-snoc P s c hs hc = All-append P s (c ∷ []) hs (hc, tt)

All-reverse : (P : ℕ → Type 0) (s : Text) → All P s → All P (reverse s)
All-reverse P [] h = tt
All-reverse P (c ∷ s) (hc, hs) =
    subst (All P) (sym (reverse-append (c ∷ []) s))
      (All-snoc P (reverse s) c (All-reverse P s hs) hc)

drop_spaces-All : (s : Text) → All IsSolid s → drop_spaces s ≡ s
drop_spaces-All [] h = refl
drop_spaces-All (c ∷ s) (hc, hs) = ground (arith, hc)

-- A word has nothing to trim.
pub trim_space-word : (s : Text) → All IsSolid s → trim_space s ≡ s
unfolding trim_space
trim_space-word s h =
    ap (λ t. reverse (drop_spaces (reverse t))) (drop_spaces-All s h)
    ∙ ap reverse (drop_spaces-All (reverse s) (All-reverse IsSolid s h))
    ∙ reverse-reverse s

drop_spaces-append : (v t : Text) → All IsSolid v → v ≢ [] → drop_spaces (v ++ t) ≡ v ++ t
drop_spaces-append [] t h some_v = absurd (some_v refl)
drop_spaces-append (c ∷ v) t (hc, hs) some_v = ground (arith, hc)

reverse-nonempty : (w : Text) → w ≢ [] → reverse w ≢ []
reverse-nonempty w some_w e = some_w (sym (reverse-reverse w) ∙ ap reverse e)

-- Two words have nothing to trim.
pub trim_space-words :
    (c : ℕ) (w : Text)
    → IsSolid c
    → All IsSolid w
    → w ≢ []
    → trim_space (c ∷ b' ' ∷ w) ≡ c ∷ b' ' ∷ w
unfolding trim_space
trim_space-words c w hc hw some_w =
    let front : drop_spaces (c ∷ b' ' ∷ w) ≡ c ∷ b' ' ∷ w = ground (arith, hc) in
    let turned : reverse (c ∷ b' ' ∷ w) ≡ reverse w ++ reverse (c ∷ b' ' ∷ []) =
      reverse-append (c ∷ b' ' ∷ []) w in
    ap (λ t. reverse (drop_spaces (reverse t))) front
    ∙ ap (λ t. reverse (drop_spaces t)) turned
    ∙ ap reverse (
        drop_spaces-append (reverse w) (reverse (c ∷ b' ' ∷ [])) (All-reverse IsSolid w hw)
          (reverse-nonempty w some_w))
    ∙ ap reverse (sym turned)
    ∙ reverse-reverse (c ∷ b' ' ∷ w)

pub trim_space-blank : (s : Text) → trim_space (b' ' ∷ s) ≡ trim_space s
unfolding trim_space
trim_space-blank s = refl

-- The text up to the first separator, and what comes after it.
pub split-append :
    (sep : ℕ) (w rest : Text)
    → All (λ c. c ≢ sep) w
    → split sep (w ++ (sep ∷ rest)) ≡ w ∷ split sep rest
unfolding split
split-append sep [] rest h = ground arith
split-append sep (c ∷ w) rest (hc, hs) = ground (arith, hc, split-append sep w rest hs)

pub cut-append :
    (sep : ℕ) (w rest : Text) → All (λ c. c ≢ sep) w → cut sep (w ++ (sep ∷ rest)) ≡ some (w, rest)
unfolding cut
cut-append sep [] rest h = ground arith
cut-append sep (c ∷ w) rest (hc, hs) = ground (arith, hc, cut-append sep w rest hs)

-- A first word of one byte.
pub fields-cons : (c : ℕ) (s : Text) → IsSolid c → fields (c ∷ b' ' ∷ s) ≡ (c ∷ []) ∷ fields s
unfolding fields split drop_empty spaces_to_blank
fields-cons c s h = ground (arith, h)
