-- ===== src/Kernel/SavedState/Lines.antt =====
-- What follows a label in a text of lines.
use mathlib.Core.Path.{subst}
use kblocker.Base.{
  ℕ, suc, ◌+◌, ◌≡◌, ◌≢◌, refl, ap, ◌∙◌, ◌∈◌, false, none, some, List, [], ◌∷◌, ◌++◌, Text, arith,
  length, drop, has_prefix, split, join, All, Option-cases, inl, inr,
}
use kblocker.Base.Parts.{drop-append}
use kblocker.Base.Words.{cut-append, split-append}
use kblocker.Base.Search.{strstr, strstr-newline, has_prefix-append}
use kblocker.Kernel.SavedState.{line_after}

-- A label does not start where one of its bytes is missing.
has_prefix-missing : (q : ℕ) (x p : Text) → q ∈ p → All (λ c. c ≢ q) x → has_prefix x p ≡ false
unfolding has_prefix
has_prefix-missing q [] [] m h = absurd m
has_prefix-missing q (c ∷ x) [] m h = absurd m
has_prefix-missing q [] (d ∷ p) m h = refl
has_prefix-missing q (c ∷ x) (d ∷ p) (inl e) (hc, hx) = ground (arith, e, hc)
has_prefix-missing q (c ∷ x) (d ∷ p) (inr m) (hc, hx) =
    ground (arith, has_prefix-missing q x p m hx)

pub strstr-missing : (q : ℕ) (x p : Text) → q ∈ p → All (λ c. c ≢ q) x → strstr x p ≡ none
unfolding strstr
strstr-missing q [] p m h = refl
strstr-missing q (c ∷ x) p m h =
    ground (arith, has_prefix-missing q (c ∷ x) p m h, strstr-missing q x p m h.1)

drop_past : (x y : Text) (c k : ℕ) → drop (suc (length x) + k) (x ++ (c ∷ y)) ≡ drop k y
drop_past [] y c k = let e : 1 + k ≡ suc k = omega arith in rw e refl
drop_past (b ∷ x) y c k =
    let e : suc (suc (length x)) + k ≡ suc (suc (length x) + k) = omega arith in
    rw e (drop_past x y c k)

-- A line that does not hold the label is passed over.
pub line_after-skip :
    (x y : Text) (d : ℕ) (p : Text)
    → All (λ c. c ≢ b'\n') (d ∷ p)
    → strstr x (d ∷ p) ≡ none
    → line_after (x ++ (b'\n' ∷ y)) (d ∷ p) ≡ line_after y (d ∷ p)
unfolding line_after
line_after-skip x y d p h missing =
    let found = strstr-newline x y d p h missing in
    elim (Option-cases (strstr y (d ∷ p))) [
      | inl nowhere ↦ rw (found, line_after, nowhere) refl
      | inr (i, here) ↦
          let place : suc (length x) + i + length (d ∷ p) ≡ suc (length x) + (i + length (d ∷ p)) =
            omega arith in
          rw (found, line_after, here, place, drop_past x y b'\n' (i + length (d ∷ p))) refl
    ]

strstr-label : (d : ℕ) (p t : Text) → strstr ((d ∷ p) ++ t) (d ∷ p) ≡ some 0
unfolding strstr
strstr-label d p t = rw (has_prefix-append (d ∷ p) t, strstr) refl

-- What stands behind the label at the head, up to the line break.
pub line_after-here :
    (d : ℕ) (p body y : Text)
    → All (λ c. c ≢ b'\n') body
    → line_after ((d ∷ p) ++ (body ++ (b'\n' ∷ y))) (d ∷ p) ≡ some body
unfolding line_after
line_after-here d p body y h =
    let hit = strstr-label d p (body ++ (b'\n' ∷ y)) in
    let past : drop (0 + length (d ∷ p)) ((d ∷ p) ++ (body ++ (b'\n' ∷ y))) ≡ body ++ (b'\n' ∷ y) =
      subst (λ n. drop n ((d ∷ p) ++ (body ++ (b'\n' ∷ y))) ≡ body ++ (b'\n' ∷ y))
        {x = length (d ∷ p)} (omega arith) (drop-append (d ∷ p) (body ++ (b'\n' ∷ y))) in
    rw (hit, line_after, past, cut-append b'\n' body y h) refl

split-word : (sep : ℕ) (w : Text) → All (λ c. c ≢ sep) w → split sep w ≡ w ∷ []
unfolding split
split-word sep [] h = refl
split-word sep (c ∷ w) (hc, hw) = ground (arith, hc, split-word sep w hw)

-- Texts without the separator come back from their join.
pub split-join :
    (sep : ℕ) (w : Text) (ws : List Text)
    → All (All (λ c. c ≢ sep)) (w ∷ ws)
    → split sep (join (w ∷ ws) (sep ∷ [])) ≡ w ∷ ws
unfolding join
split-join sep w [] h = split-word sep w h.0
split-join sep w (v ∷ ws) h =
    split-append sep w (join (v ∷ ws) (sep ∷ [])) h.0 ∙ ap (λ t. w ∷ t) (split-join sep v ws h.1)
