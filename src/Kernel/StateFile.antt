-- ===== src/Kernel/StateFile.antt =====
-- src/parse.c and src/state.c: the lines of the state file that say how long a session has to go.
pub mod Bytes
pub mod Saved
use kblocker.Base.{
  ℕ, zero, suc, ◌+◌, ◌-◌, ◌*◌, ◌/◌, ◌^◌, ◌==◌, Bool, true, false, Option, none, some, [], ◌∷◌, ◌++◌,
  Text, lit, length, take, drop, ltb, is_digit, has_prefix, if◌then◌else◌,
}
use kblocker.Base.Int.{pos}
use kblocker.Numbers.{itoa}
use kblocker.Kernel.{max_session_seconds}

-- The loop of `parse_line_u64`, after a value read so far.
unfoldable pub line_value : ℕ → Text → Option ℕ
line_value v [] = none
line_value v (c ∷ s) =
    let d = c - b'0' in
    let rest = line_value (v * 10 + d) s in
    if is_digit c
    then (if ltb ((2 ^ 64 - 1 - d) / 10) v then none else rest)
    else if c == b'\n'
    then some v
    else none

unfoldable pub parse_line_u64 : Text → Option ℕ
parse_line_u64 [] = none
parse_line_u64 (c ∷ s) = if is_digit c then line_value 0 (c ∷ s) else none

-- The loop of `kb_last_remaining`: the bytes to pass over, whether a hit here is at the start of a
-- line, and the value of the last hit.
unfoldable pub last_from : ℕ → Bool → ℕ → Text → ℕ
last_from skip at_start val [] = val
last_from (suc skip) at_start val (c ∷ s) = last_from skip (c == b'\n') val s
last_from zero at_start val (c ∷ s) = elim (has_prefix (c ∷ s) (lit "remaining:")) [
  | false ↦ last_from zero (c == b'\n') val s
  | true ↦
      last_from 9 false
        (if at_start
          then (elim (parse_line_u64 (drop 10 (c ∷ s))) [ none ↦ val | some v ↦ v ])
          else val)
        s
]

unfoldable pub kb_last_remaining : Text → ℕ
kb_last_remaining s = last_from 0 true 0 s

-- The line that `state_file_append_remaining` writes.
unfoldable pub remaining_line : ℕ → Text
remaining_line rem = lit "remaining:" ++ (itoa (pos rem) ++ lit "\n")

-- What the string functions see of a buffer: the bytes before its first NUL.
unfoldable pub c_text : Text → Text
c_text [] = []
c_text (c ∷ s) = let rest = c_text s in if c == 0 then [] else c ∷ rest

-- The text after the first `expiry:`.
unfoldable pub after_expiry : Text → Option Text
after_expiry [] = none
after_expiry (c ∷ s) =
    let rest = after_expiry s in
    if has_prefix (c ∷ s) (lit "expiry:") then some (drop 7 (c ∷ s)) else rest

-- The seconds up to the deadline that an older file holds. `strtoull` is simple_strtoull, which gives
-- `none` where it reads no digit.
unfoldable pub legacy_seconds : (Text → Option ℕ) → ℕ → Text → ℕ
legacy_seconds strtoull now head = elim (after_expiry head) [
  | none ↦ 0
  | some p ↦ elim (strtoull p) [ none ↦ 0 | some expiry ↦ expiry - now ]
]

-- The seconds of the last lines if there are any, those of the first lines if not, and those of an
-- older file if there are none either, up to the maximum.
unfoldable pub capped_seconds : ℕ → ℕ → ℕ → ℕ
capped_seconds rem head_rem legacy =
    let seconds = if rem == 0 then (if head_rem == 0 then legacy else head_rem) else rem in
    if ltb max_session_seconds seconds then max_session_seconds else seconds

-- The buffers that are read: the first 256 KB of the file, and its last 128 bytes.
unfoldable pub head_text : Text → Text
head_text file = c_text (take 262144 file)

unfoldable pub tail_text : Text → Text
tail_text file = c_text (drop (length file - 128) file)

-- The seconds to go of `try_restore_state_from_disk`. `now` is the clock's Unix time.
unfoldable pub saved_seconds : (Text → Option ℕ) → ℕ → Text → ℕ
saved_seconds strtoull now file =
    let head = head_text file in
    capped_seconds (kb_last_remaining (tail_text file)) (kb_last_remaining head)
      (legacy_seconds strtoull now head)
