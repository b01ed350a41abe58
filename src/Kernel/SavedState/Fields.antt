-- ===== src/Kernel/SavedState/Fields.antt =====
-- The hash and the domains that a session has written are found again, whatever is appended.
use mathlib.Core.List.{append_assoc}
use mathlib.Core.Path.{subst}
use kblocker.Base.{
  ℕ, ◌*◌, ◌<◌, ◌≡◌, ◌≢◌, refl, sym, ap, ◌∙◌, Bool, true, false, some, List, [], ◌∷◌, ◌++◌, ◌∈◌, ◌⊎◌,
  inl, inr, Text, lit, arith, length, All,
}
use kblocker.Base.Int.{pos}
use kblocker.Base.Words.{All-append}
use kblocker.Numbers.{itoa}
use kblocker.Numbers.Decimal.{IsDigit, itoa-digits}
use kblocker.Kernel.{hex_text}
use kblocker.Kernel.Keys.{IsByte}
use kblocker.Kernel.Shows.{bit}
use kblocker.Kernel.SavedState.{end_lines, line_after}
use kblocker.Kernel.SavedState.Lines.{strstr-missing, line_after-skip, line_after-here}

-- The first line, and the lines after it with what is appended.
end_lines-cons :
    (l : Text) (ls : List Text) (z : Text)
    → end_lines (l ∷ ls) ++ z ≡ l ++ (b'\n' ∷ (end_lines ls ++ z))
unfolding end_lines
end_lines-cons l ls z = append_assoc l (b'\n' ∷ end_lines ls) z

digits_without : (q : ℕ) (s : Text) → b'9' < q → All IsDigit s → All (λ c. c ≢ q) s
digits_without q [] above h = tt
digits_without q (c ∷ s) above ((low, high), h) = (omega (arith, high), digits_without q s above h)

itoa_without : (q n : ℕ) → b'9' < q → All (λ c. c ≢ q) (itoa (pos n))
itoa_without q n above =
    let (c, (s, e, digits)) = itoa-digits n in
    digits_without q (itoa (pos n)) above (subst (All IsDigit) (sym e) digits)

remaining_without :
    (q n : ℕ)
    → b'9' < q
    → All (λ c. c ≢ q) (lit "remaining:")
    → All (λ c. c ≢ q) (lit "remaining:" ++ itoa (pos n))
remaining_without q n above h =
    All-append (λ c. c ≢ q) (lit "remaining:") (itoa (pos n)) h (itoa_without q n above)

-- A byte that is no digit of a hash, being below the digits or above the letters.
abbrev IsNoHex : ℕ → Type 0
IsNoHex q = (q < b'0') ⊎ (b'f' < q)

hex_text_without :
    (q : ℕ) (bs : List ℕ) → IsNoHex q → All IsByte bs → All (λ c. c ≢ q) (hex_text bs)
unfolding hex_text
hex_text_without q [] outside h = tt
hex_text_without q (b ∷ bs) outside (hb, hs) =
    (ground (arith, outside, hb), (ground (arith, outside, hb), hex_text_without q bs outside hs))

pub length-hex_text : (bs : List ℕ) → length (hex_text bs) ≡ 2 * length bs
unfolding hex_text
length-hex_text [] = omega arith
length-hex_text (b ∷ bs) = omega (arith, length-hex_text bs)

-- The first line, and the lines that come before the domains.
abbrev pub time_line : ℕ → Text
time_line seconds = lit "remaining:" ++ itoa (pos seconds)

abbrev pub hash_line : List ℕ → Text
hash_line hash = lit "key_hash:" ++ hex_text hash

abbrev pub lock_line : Bool → Text
lock_line b = lit "pgp_active:" ++ bit b

pub line_after-hash :
    (seconds : ℕ) (hash : List ℕ) (rest : List Text) (z : Text)
    → All IsByte hash
    → line_after (end_lines (time_line seconds ∷ hash_line hash ∷ rest) ++ z) (lit "key_hash:")
      ≡ some (hex_text hash)
unfolding lit
line_after-hash seconds hash rest z small =
    ap (λ t. line_after t (lit "key_hash:"))
      (end_lines-cons (time_line seconds) (hash_line hash ∷ rest) z)
    ∙ line_after-skip (time_line seconds) (end_lines (hash_line hash ∷ rest) ++ z) _ _ (omega arith)
        (strstr-missing b'k' (time_line seconds) _ (inl refl)
          (remaining_without b'k' seconds (omega arith) (omega arith)))
    ∙ ap (λ t. line_after t (lit "key_hash:"))
        (end_lines-cons (hash_line hash) rest z
          ∙ append_assoc (lit "key_hash:") (hex_text hash) (b'\n' ∷ (end_lines rest ++ z)))
    ∙ line_after-here _ _ (hex_text hash) (end_lines rest ++ z)
        (hex_text_without b'\n' hash (inl (omega arith)) small)

hash_line_without : (hash : List ℕ) → All IsByte hash → All (λ c. c ≢ b'o') (hash_line hash)
unfolding lit
hash_line_without hash small =
    All-append (λ c. c ≢ b'o') (lit "key_hash:") (hex_text hash) (omega arith)
      (hex_text_without b'o' hash (inr (omega arith)) small)

lock_line_without : (b : Bool) → All (λ c. c ≢ b'o') (lock_line b)
unfolding lit bit
lock_line_without true = omega arith
lock_line_without false = omega arith

pub line_after-domains :
    (seconds : ℕ) (hash : List ℕ) (b : Bool) (body : Text) (rest : List Text) (z : Text)
    → All IsByte hash
    → All (λ c. c ≢ b'\n') body
    → line_after
        (end_lines
            (time_line seconds ∷ hash_line hash ∷ lock_line b ∷ (lit "domains:" ++ body) ∷ rest)
          ++ z)
        (lit "domains:")
      ≡ some body
unfolding lit
line_after-domains seconds hash b body rest z small one_line =
    let last = (lit "domains:" ++ body) ∷ rest in
    let in_label : b'o' ∈ lit "domains:" = inr (inl refl) in
    let skip = λ (l : Text) (ls : List Text) (h : All (λ c. c ≢ b'o') l).
      ap (λ t. line_after t (lit "domains:")) (end_lines-cons l ls z)
      ∙ line_after-skip l (end_lines ls ++ z) _ _ (omega arith)
          (strstr-missing b'o' l _ in_label h) in
    skip (time_line seconds) (hash_line hash ∷ lock_line b ∷ last)
      (remaining_without b'o' seconds (omega arith) (omega arith))
    ∙ skip (hash_line hash) (lock_line b ∷ last) (hash_line_without hash small)
    ∙ skip (lock_line b) last (lock_line_without b)
    ∙ ap (λ t. line_after t (lit "domains:"))
        (end_lines-cons (lit "domains:" ++ body) rest z
          ∙ append_assoc (lit "domains:") body (b'\n' ∷ (end_lines rest ++ z)))
    ∙ line_after-here _ _ body (end_lines rest ++ z) one_line
