-- ===== src/Kernel/StateFile/Bytes.antt =====
-- The bytes of the state file that the string functions see.
use kblocker.Base.{
  ℕ, zero, suc, ◌<◌, ◌≡◌, refl, sym, ◌==◌, [], ◌∷◌, Text, lit, arith, drop, All, Bool-cases, inl,
  inr,
}
use mathlib.Core.Path.{subst}
use kblocker.Base.Int.{pos}
use kblocker.Base.Words.{All-append}
use kblocker.Numbers.{itoa}
use kblocker.Numbers.Decimal.{IsDigit, itoa-digits}
use kblocker.Kernel.StateFile.{remaining_line, c_text}

-- A byte that does not end a string of C.
abbrev pub IsNonzero : ℕ → Type 0
IsNonzero c = 0 < c

pub c_text_id : (s : Text) → All IsNonzero s → c_text s ≡ s
unfolding c_text
c_text_id [] h = refl
c_text_id (c ∷ s) (some_byte, h) = elim (Bool-cases (c == 0)) [
  | inl nul ↦ absurd (ground (arith, nul, some_byte))
  | inr other ↦ ground (arith, other, c_text_id s h)
]

pub All-drop : (k : ℕ) (s : Text) → All IsNonzero s → All IsNonzero (drop k s)
All-drop zero s h = h
All-drop (suc k) [] h = h
All-drop (suc k) (c ∷ s) h = All-drop k s h.1

digit-IsNonzero : (s : Text) → All IsDigit s → All IsNonzero s
digit-IsNonzero [] h = tt
digit-IsNonzero (c ∷ s) ((low, high), h) = (omega (arith, low), digit-IsNonzero s h)

pub remaining_line-IsNonzero : (n : ℕ) → All IsNonzero (remaining_line n)
unfolding remaining_line lit
remaining_line-IsNonzero n =
    let (c, (s, e, digits)) = itoa-digits n in
    let number = digit-IsNonzero (itoa (pos n)) (subst (All IsDigit) (sym e) digits) in
    let ended = All-append IsNonzero (itoa (pos n)) (b'\n' ∷ []) number (omega arith, tt) in
    All-append IsNonzero (lit "remaining:") _
      (
        omega arith,
        (
          omega arith,
          (
            omega arith,
            (
              omega arith,
              (
                omega arith,
                (omega arith, (omega arith, (omega arith, (omega arith, (omega arith, tt))))),
              ),
            ),
          ),
        ),
      )
      ended

-- A text that is all seen has no NUL.
pub c_text-IsNonzero : (s : Text) → c_text s ≡ s → All IsNonzero s
unfolding c_text
c_text-IsNonzero [] e = tt
c_text-IsNonzero (c ∷ s) e = elim (Bool-cases (c == 0)) [
  | inl nul ↦ absurd (ground (arith, nul, e))
  | inr other ↦ (ground (arith, other), c_text-IsNonzero s (ground (arith, e, other)))
]
