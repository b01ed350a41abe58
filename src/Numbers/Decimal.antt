-- ===== src/Numbers/Decimal.antt =====
-- The decimals that are printed are read back as the number.
use kblocker.Base.{
  length, length-append, ℕ, zero, suc, ◌+◌, ◌*◌, ◌/◌, ◌%◌, ◌^◌, ◌<◌, ◌≤◌, ◌≡◌, refl, some, [], ◌∷◌,
  ◌++◌, Text, digits_value, arith, inl, inr, lt_or_le, ◌∙◌, ap, sym, All, ◌-◌,
}
use mathlib.Core.Path.{subst}
use kblocker.Base.Words.{All-append}
use kblocker.Base.Int.{pos}
use kblocker.Numbers.{unsigned, parse_int, digits_of, itoa}

append-cons : (s : Text) (d : ℕ) → (c : ℕ) × ((t : Text) × (s ++ (d ∷ []) ≡ c ∷ t))
append-cons [] d = (d, ([], refl))
append-cons (c ∷ s) d = (c, (s ++ (d ∷ []), refl))

-- One more digit at the end.
digits_value-last :
    (acc d : ℕ) (s : Text) (n : ℕ)
    → d < 10
    → digits_value acc s ≡ some n
    → digits_value acc (s ++ ((b'0' + d) ∷ [])) ≡ some (n * 10 + d)
unfolding digits_value
digits_value-last acc d [] n small h = ground (arith, h)
digits_value-last acc d (c ∷ s) n small h =
    ground (arith, h, digits_value-last (acc * 10 + (c - b'0')) d s n small)

digits_value-one : (n : ℕ) → n < 10 → digits_value 0 ((b'0' + n % 10) ∷ []) ≡ some n
unfolding digits_value
digits_value-one n small = ground arith

digits_of-small : (fuel n : ℕ) → n < 10 → digits_of (suc fuel) n ≡ (b'0' + n % 10) ∷ []
unfolding digits_of
digits_of-small fuel n small = ground arith

digits_of-large :
    (fuel n : ℕ)
    → 10 ≤ n
    → digits_of (suc fuel) n ≡ digits_of fuel (n / 10) ++ ((b'0' + n % 10) ∷ [])
unfolding digits_of
digits_of-large fuel n large = ground arith

digits_value-digits_of :
    (fuel n : ℕ) → n < 10 ^ suc fuel → digits_value 0 (digits_of (suc fuel) n) ≡ some n
digits_value-digits_of zero n small = rw (digits_of-small 0 n small) (digits_value-one n small)
digits_value-digits_of (suc fuel) n small = elim (lt_or_le n 10) [
  | inl few ↦ rw (digits_of-small (suc fuel) n few) (digits_value-one n few)
  | inr many ↦
      let front = digits_value-digits_of fuel (n / 10) (omega arith) in
      rw (digits_of-large (suc fuel) n many) (
        digits_value-last 0 (n % 10) (digits_of (suc fuel) (n / 10)) (n / 10) (omega arith) front
        ∙ ap some (omega arith))
]

abbrev pub IsDigit : ℕ → Type 0
IsDigit c = (b'0' ≤ c) × (c ≤ b'9')

no_digits : (n : ℕ) → All IsDigit (digits_of 0 n)
unfolding digits_of
no_digits n = tt

digits_of-IsDigit : (fuel n : ℕ) → All IsDigit (digits_of fuel n)
digits_of-IsDigit zero n = no_digits n
digits_of-IsDigit (suc fuel) n = elim (lt_or_le n 10) [
  | inl few ↦ rw (digits_of-small fuel n few) ((omega arith, omega arith), tt)
  | inr many ↦ rw (digits_of-large fuel n many) (
      All-append IsDigit (digits_of fuel (n / 10)) _ (digits_of-IsDigit fuel (n / 10))
        ((omega arith, omega arith), tt))
]

no_length : (n : ℕ) → length (digits_of 0 n) ≤ 0
unfolding digits_of
no_length n = omega arith

length-digits_of : (fuel n : ℕ) → length (digits_of fuel n) ≤ fuel
length-digits_of zero n = no_length n
length-digits_of (suc fuel) n = elim (lt_or_le n 10) [
  | inl few ↦ rw (digits_of-small fuel n few) (omega arith)
  | inr many ↦ rw (digits_of-large fuel n many) (
      omega (
        arith,
        length-digits_of fuel (n / 10),
        length-append (digits_of fuel (n / 10)) ((b'0' + n % 10) ∷ []),
      ))
]

pub length-itoa : (n : ℕ) → length (itoa (pos n)) ≤ 20
unfolding itoa
length-itoa n = length-digits_of 20 n

-- There is a first digit.
digits_of-cons : (fuel n : ℕ) → (c : ℕ) × ((s : Text) × (digits_of (suc fuel) n ≡ c ∷ s))
digits_of-cons fuel n = elim (lt_or_le n 10) [
  | inl few ↦ (b'0' + n % 10, ([], digits_of-small fuel n few))
  | inr many ↦
      let (c, (s, e)) = append-cons (digits_of fuel (n / 10)) (b'0' + n % 10) in
      (c, (s, digits_of-large fuel n many ∙ e))
]

-- What is printed of an int64 that is not negative: digits, at least one.
pub itoa-digits : (n : ℕ) → (c : ℕ) × ((s : Text) × (itoa (pos n) ≡ c ∷ s) × All IsDigit (c ∷ s))
unfolding itoa
itoa-digits n =
    let (c, (s, e)) = digits_of-cons 19 n in
    (c, (s, e, subst (All IsDigit) e (digits_of-IsDigit 20 n)))

pub itoa-digits_value : (n : ℕ) → n < 10 ^ 20 → digits_value 0 (itoa (pos n)) ≡ some n
unfolding itoa
itoa-digits_value n small = digits_value-digits_of 19 n small

parse_int-digits :
    (c : ℕ) (s : Text) (n : ℕ)
    → IsDigit c
    → digits_value 0 (c ∷ s) ≡ some n
    → n < 2 ^ 63
    → parse_int (c ∷ s) ≡ pos n
unfolding parse_int unsigned
parse_int-digits c s n digit value small = ground (arith, digit, value, small)

-- A number below 2^63 that is printed in decimal is read back as it was.
pub parse_int-itoa : (n : ℕ) → n < 2 ^ 63 → parse_int (itoa (pos n)) ≡ pos n
unfolding itoa
parse_int-itoa n small =
    let (c, (s, e, (digit, digits))) = itoa-digits n in
    let value : digits_value 0 (c ∷ s) ≡ some n =
      ap (digits_value 0) (sym e) ∙ digits_value-digits_of 19 n (omega arith) in
    ap parse_int e ∙ parse_int-digits c s n digit value small
