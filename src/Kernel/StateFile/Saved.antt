-- ===== src/Kernel/StateFile/Saved.antt =====
-- The seconds that were saved last are the ones that are restored.
use kblocker.Base.{
  ℕ, zero, suc, ◌+◌, ◌-◌, ◌*◌, ◌^◌, ◌≤◌, ◌<◌, ◌≡◌, ◌≢◌, refl, sym, ap, ◌∙◌, ◌==◌, Bool, true, false,
  Option, none, some, [], ◌∷◌, ◌++◌, Text, lit, arith, length, length-append, drop, is_digit,
  digits_value, has_prefix, All, Bool-cases, inl, inr, if◌then◌else◌,
}
use kblocker.Base.Int.{pos}
use kblocker.Numbers.{itoa}
use kblocker.Numbers.Decimal.{IsDigit, itoa-digits, itoa-digits_value, length-itoa}
use kblocker.Base.Words.{All-append}
use kblocker.Kernel.{max_session_seconds}
use kblocker.Kernel.StateFile.Bytes.{IsNonzero, c_text_id, All-drop, remaining_line-IsNonzero}
use kblocker.Kernel.StateFile.{
  c_text, head_text, tail_text, line_value, parse_line_u64, last_from, kb_last_remaining,
  remaining_line, legacy_seconds, capped_seconds, saved_seconds,
}

digits_value-grows : (v n : ℕ) (s : Text) → digits_value v s ≡ some n → v ≤ n
unfolding digits_value
digits_value-grows v n [] h = ground (arith, h)
digits_value-grows v n (c ∷ s) h = elim (Bool-cases (is_digit c)) [
  | inr other ↦ absurd (ground (arith, h, other))
  | inl digit ↦
      let more : v * 10 + (c - b'0') ≤ n =
        digits_value-grows (v * 10 + (c - b'0')) n s (ground (arith, h, digit)) in
      omega arith
]

line_value-digits :
    (v n : ℕ) (s rest : Text)
    → All IsDigit s
    → digits_value v s ≡ some n
    → n < 2 ^ 64
    → line_value v (s ++ (b'\n' ∷ rest)) ≡ some n
unfolding line_value digits_value
line_value-digits v n [] rest hs h small = ground (arith, h)
line_value-digits v n (c ∷ s) rest (hc, hs) h small =
    let next : digits_value (v * 10 + (c - b'0')) s ≡ some n = ground (arith, h, hc) in
    let bound : v * 10 + (c - b'0') ≤ n = digits_value-grows (v * 10 + (c - b'0')) n s next in
    ground (arith, hc, bound, small, line_value-digits (v * 10 + (c - b'0')) n s rest hs next small)

-- Digits and a line break hold no further hit.
last_from-digits :
    (at_start : Bool) (val : ℕ) (s : Text)
    → All IsDigit s
    → last_from 0 at_start val (s ++ (b'\n' ∷ [])) ≡ val
unfolding last_from has_prefix lit
last_from-digits at_start val [] h = refl
last_from-digits at_start val (c ∷ s) (hc, hs) =
    ground (arith, hc, last_from-digits (c == b'\n') val s hs)

-- A hit before a line break ends before it.
has_prefix-inside :
    (x t p : Text)
    → All (λ c. c ≢ b'\n') p
    → has_prefix (x ++ (b'\n' ∷ t)) p ≡ true
    → length p ≤ length x
unfolding has_prefix
has_prefix-inside x t [] hp h = omega arith
has_prefix-inside [] t (d ∷ p) (hd, hp) h = absurd (ground (arith, h, hd))
has_prefix-inside (c ∷ x) t (d ∷ p) (hd, hp) h =
    let inner : length p ≤ length x = has_prefix-inside x t p hp (ground (arith, h)) in omega arith

parse_line_u64-digits :
    (n c : ℕ) (s : Text)
    → All IsDigit (c ∷ s)
    → digits_value 0 (c ∷ s) ≡ some n
    → n < 2 ^ 64
    → parse_line_u64 ((c ∷ s) ++ (b'\n' ∷ [])) ≡ some n
unfolding parse_line_u64
parse_line_u64-digits n c s digits h small =
    ground (arith, digits.0, line_value-digits 0 n (c ∷ s) [] digits h small)

newline_line :
    (n c : ℕ) (s : Text)
    → All IsDigit (c ∷ s)
    → digits_value 0 (c ∷ s) ≡ some n
    → n < 2 ^ 64
    → parse_line_u64 ((c ∷ s) ++ lit "\n") ≡ some n
unfolding lit
newline_line n c s digits h small = parse_line_u64-digits n c s digits h small

newline_last :
    (n c : ℕ) (s : Text) → All IsDigit (c ∷ s) → last_from 0 false n ((c ∷ s) ++ lit "\n") ≡ n
unfolding lit
newline_last n c s digits = last_from-digits false n (c ∷ s) digits

-- One step of the scan: no hit, a hit, and a line.
last_from-miss :
    (at_start : Bool) (val c : ℕ) (s : Text)
    → has_prefix (c ∷ s) (lit "remaining:") ≡ false
    → last_from 0 at_start val (c ∷ s) ≡ last_from 0 (c == b'\n') val s
unfolding last_from
last_from-miss at_start val c s h = ground (arith, h)

-- The value after a hit.
abbrev hit_value : Bool → ℕ → Text → ℕ
hit_value at_start val s =
    if at_start then (elim (parse_line_u64 (drop 10 s)) [ none ↦ val | some v ↦ v ]) else val

last_from-hit :
    (at_start : Bool) (val c : ℕ) (s : Text)
    → has_prefix (c ∷ s) (lit "remaining:") ≡ true
    → last_from 0 at_start val (c ∷ s) ≡ last_from 9 false (hit_value at_start val (c ∷ s)) s
unfolding last_from
last_from-hit at_start val c s h = ground (arith, h)

last_from-read :
    (val : ℕ) (s : Text)
    → last_from 0 true val (lit "remaining:" ++ s)
      ≡ last_from 0 false (elim (parse_line_u64 s) [ none ↦ val | some v ↦ v ]) s
unfolding last_from has_prefix lit
last_from-read val s = refl

-- The last line, wherever the scan comes to it.
last_from-line : (val n : ℕ) → n < 2 ^ 64 → last_from 0 true val (remaining_line n) ≡ n
unfolding remaining_line
last_from-line val n small =
    let (c, (s, e, digits)) = itoa-digits n in
    let value : digits_value 0 (c ∷ s) ≡ some n =
      ap (digits_value 0) (sym e) ∙ itoa-digits_value n (omega arith) in
    let read : parse_line_u64 (itoa (pos n) ++ lit "\n") ≡ some n =
      ap (λ t. parse_line_u64 (t ++ lit "\n")) e ∙ newline_line n c s digits value small in
    last_from-read val (itoa (pos n) ++ lit "\n")
    ∙ ap (λ o. last_from 0 false (elim o [ none ↦ val | some v ↦ v ]) (itoa (pos n) ++ lit "\n"))
        read
    ∙ ap (λ t. last_from 0 false n (t ++ lit "\n")) e
    ∙ newline_last n c s digits

no_newline : All (λ c. c ≢ b'\n') (lit "remaining:")
unfolding lit
no_newline = ground arith

pattern_length : length (lit "remaining:") ≡ 10
unfolding lit
pattern_length = refl

newline_miss : (s : Text) → has_prefix (b'\n' ∷ s) (lit "remaining:") ≡ false
unfolding has_prefix lit
newline_miss s = refl

last_from-skip :
    (skip : ℕ) (at_start : Bool) (val c : ℕ) (s : Text)
    → last_from (suc skip) at_start val (c ∷ s) ≡ last_from skip (c == b'\n') val s
unfolding last_from
last_from-skip skip at_start val c s = refl

-- The line counts whatever is before it: a hit in the text before ends there, so the scan comes to
-- the line.
last_from-append :
    (x : Text) (skip : ℕ) (at_start : Bool) (val n : ℕ)
    → n < 2 ^ 64
    → skip ≤ length x
    → last_from skip at_start val (x ++ (b'\n' ∷ remaining_line n)) ≡ n
last_from-append [] zero at_start val n small inside =
    last_from-miss at_start val b'\n' (remaining_line n) (newline_miss (remaining_line n))
    ∙ last_from-line val n small
last_from-append [] (suc skip) at_start val n small inside = absurd (omega arith)
last_from-append (c ∷ x) (suc skip) at_start val n small inside =
    last_from-skip skip at_start val c (x ++ (b'\n' ∷ remaining_line n))
    ∙ last_from-append x skip (c == b'\n') val n small (omega arith)
last_from-append (c ∷ x) zero at_start val n small inside =
    let rest = x ++ (b'\n' ∷ remaining_line n) in
    elim (Bool-cases (has_prefix (c ∷ rest) (lit "remaining:"))) [
      | inr no_hit ↦
          last_from-miss at_start val c rest no_hit
          ∙ last_from-append x 0 (c == b'\n') val n small (omega arith)
      | inl hit ↦
          let fits : length (lit "remaining:") ≤ suc (length x) =
            has_prefix-inside (c ∷ x) (remaining_line n) (lit "remaining:") no_newline hit in
          last_from-hit at_start val c rest hit
          ∙ last_from-append x 9 false (hit_value at_start val (c ∷ rest)) n small
              (omega (arith, fits, pattern_length))
    ]

drop-append : (k : ℕ) (x y : Text) → k ≤ length x → drop k (x ++ y) ≡ drop k x ++ y
drop-append zero x y h = refl
drop-append (suc k) [] y h = absurd (omega arith)
drop-append (suc k) (c ∷ x) y h = drop-append k x y (omega arith)

length-remaining_line : (n : ℕ) → length (remaining_line n) ≤ 31
unfolding remaining_line lit
length-remaining_line n = omega (arith, length-append (itoa (pos n)) (b'\n' ∷ []), length-itoa n)

capped_seconds_lem :
    (n m legacy : ℕ) → 0 < n → n ≤ max_session_seconds → capped_seconds n m legacy ≡ n
unfolding capped_seconds
capped_seconds_lem n m legacy some_time fits = ground arith

saved_seconds-tail :
    (strtoull : Text → Option ℕ) (now : ℕ) (file : Text) (n : ℕ)
    → kb_last_remaining (tail_text file) ≡ n
    → 0 < n
    → n ≤ max_session_seconds
    → saved_seconds strtoull now file ≡ n
unfolding saved_seconds
saved_seconds-tail strtoull now file n e some_time fits =
    let head = head_text file in
    let legacy = legacy_seconds strtoull now head in
    ap (λ m. capped_seconds m (kb_last_remaining head) legacy) e
    ∙ capped_seconds_lem n (kb_last_remaining head) legacy some_time fits

-- When the state file, which has no NUL, ends in the line for `n` seconds, after a line break and
-- whatever comes before it, a session that is restored has `n` seconds to go, for `n` from 1 to the
-- maximum of a session.
pub saved_seconds-remaining_line :
    (strtoull : Text → Option ℕ) (now : ℕ) (x : Text) (n : ℕ)
    → All IsNonzero x
    → 0 < n
    → n ≤ max_session_seconds
    → saved_seconds strtoull now (x ++ (b'\n' ∷ remaining_line n)) ≡ n
unfolding kb_last_remaining tail_text
saved_seconds-remaining_line strtoull now x n no_nul some_time fits =
    let line = b'\n' ∷ remaining_line n in
    let k = length (x ++ line) - 128 in
    let inside : k ≤ length x = omega (arith, length-append x line, length-remaining_line n) in
    let whole : c_text (drop k (x ++ line)) ≡ drop k x ++ line =
      ap c_text (drop-append k x line inside)
      ∙ c_text_id (drop k x ++ line) (
          All-append IsNonzero (drop k x) line (All-drop k x no_nul)
            (omega arith, remaining_line-IsNonzero n)) in
    saved_seconds-tail strtoull now (x ++ line) n
      (ap (last_from 0 true 0) whole
        ∙ last_from-append (drop k x) 0 true 0 n (omega arith) (omega arith))
      some_time fits
