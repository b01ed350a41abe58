-- ===== src/Base/Trim.antt =====
-- strings.TrimSpace and a final line break.
use mathlib.Core.List.{reverse, reverse-append}
use kblocker.Base.{
  ◌≡◌, refl, sym, ap, true, [], ◌∷◌, ◌++◌, arith, if◌then◌else◌, Bool-cases, inl, inr,
}
use kblocker.Base.Strings.{Text, drop_spaces, trim_space, is_empty}

drop_spaces-newline :
    (s : Text)
    → drop_spaces (s ++ (b'\n' ∷ []))
      ≡ (if is_empty (drop_spaces s) then [] else drop_spaces s ++ (b'\n' ∷ []))
drop_spaces-newline [] = refl
drop_spaces-newline (c ∷ s) = ground (arith, drop_spaces-newline s)

drop_spaces-reverse-newline :
    (s : Text) → drop_spaces (reverse (s ++ (b'\n' ∷ []))) ≡ drop_spaces (reverse s)
drop_spaces-reverse-newline s = rw (reverse-append s (b'\n' ∷ []))

is_empty-nil : (s : Text) → is_empty s ≡ true → s ≡ []
is_empty-nil [] h = refl
is_empty-nil (c ∷ s) h = cc

-- A line break at the end makes no difference.
pub trim_space-newline : (s : Text) → trim_space (s ++ (b'\n' ∷ [])) ≡ trim_space s
unfolding trim_space
trim_space-newline s = elim (Bool-cases (is_empty (drop_spaces s))) [
  | inl none_left ↦
      rw (drop_spaces-newline s, none_left)
        (ap (λ t. reverse (drop_spaces (reverse t))) (sym (is_empty-nil (drop_spaces s) none_left)))
  | inr some_left ↦
      rw (drop_spaces-newline s, some_left)
        (ap reverse (drop_spaces-reverse-newline (drop_spaces s)))
]
