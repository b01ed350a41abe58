-- ===== src/Numbers.antt =====
-- What the program uses of package strconv: Atoi and Itoa on int64 values.
pub mod Decimal
use kblocker.Base.{
  ℕ, zero, suc, ◌+◌, ◌-◌, ◌*◌, ◌/◌, ◌%◌, ◌^◌, Option, none, some, [], ◌∷◌, ◌++◌, Text, digits_value,
  ltb, ◌==◌, if◌then◌else◌,
}
use kblocker.Base.Int.{ℤ, pos, negsuc, wrap64}

-- A product of int64 values by a small number.
abbrev pub mul64 : ℤ → ℕ → ℤ
mul64 (pos n) k = wrap64 (pos (n * k))
mul64 (negsuc n) k = wrap64 (if k == 0 then pos 0 else negsuc (suc n * k - 1))

-- An unsigned run of digits, at least one.
unsigned : Text → Option ℕ
unsigned [] = none
unsigned (c ∷ s) = digits_value 0 (c ∷ s)

-- strconv.Atoi on a 64-bit platform; `none` is an error, out of range or not.
unfoldable pub atoi : Text → Option ℤ
unfolding unsigned
atoi [] = none
atoi (c ∷ s) =
    if c == b'-'
    then (elim (unsigned s) [
      | none ↦ none
      | some n ↦
          if ltb (2 ^ 63) n then none else if n == 0 then some (pos 0) else some (negsuc (n - 1))
    ])
    else elim (unsigned (if c == b'+' then s else c ∷ s)) [
      | none ↦ none
      | some n ↦ if ltb n (2 ^ 63) then some (pos n) else none
    ]

-- The value that strconv.ParseInt(s, 10, 64) returns, whatever its error: 0 for what is no number,
-- and the nearest int64 for what is out of range.
unfoldable pub parse_int : Text → ℤ
unfolding unsigned
parse_int [] = pos 0
parse_int (c ∷ s) =
    if c == b'-'
    then (elim (unsigned s) [
      | none ↦ pos 0
      | some n ↦
          if n == 0 then pos 0 else if ltb n (2 ^ 63) then negsuc (n - 1) else negsuc (2 ^ 63 - 1)
    ])
    else elim (unsigned (if c == b'+' then s else c ∷ s)) [
      | none ↦ pos 0
      | some n ↦ if ltb n (2 ^ 63) then pos n else pos (2 ^ 63 - 1)
    ]

-- The decimal digits of `n`, of which there are at most `fuel`.
unfoldable pub digits_of : ℕ → ℕ → Text
digits_of zero n = []
digits_of (suc fuel) n =
    let front = digits_of fuel (n / 10) in
    let last = b'0' + n % 10 in if ltb n 10 then last ∷ [] else front ++ (last ∷ [])

-- strconv.Itoa and the verb %d. An int64 has at most 19 digits.
unfoldable pub itoa : ℤ → Text
unfolding digits_of
itoa (pos n) = digits_of 20 n
itoa (negsuc n) = b'-' ∷ digits_of 20 (suc n)
