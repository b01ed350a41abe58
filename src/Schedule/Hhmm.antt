-- ===== src/Schedule/Hhmm.antt =====
-- `parseHHMM` against the two-digit notation of a time of day.
use mathlib.Core.Path.{subst}
use kblocker.Base.{ℕ, ◌+◌, ◌/◌, ◌%◌, ◌*◌, ◌<◌, ◌≡◌, ◌↔◌, some, true, [], ◌∷◌, arith, Text, ap, sym}
use kblocker.Schedule.{parse_hhmm, is_hour, is_minute, atoi2}

-- HH:MM, for a number of minutes since midnight.
abbrev pub format_hhmm : ℕ → Text
format_hhmm n =
    (b'0' + n / 60 / 10)
    ∷ (b'0' + n / 60 % 10)
    ∷ b':'
    ∷ (b'0' + n % 60 / 10)
    ∷ (b'0' + n % 60 % 10)
    ∷ []

-- `v` is the value of the digits `a` and `b`.
record AreDigits (a b v : ℕ) : Type 0 where
  tens : a ≡ b'0' + v / 10
  units : b ≡ b'0' + v % 10

is_hour-AreDigits : (a b : ℕ) → is_hour a b ≡ true → (atoi2 a b < 24) × AreDigits a b (atoi2 a b)
unfolding is_hour
is_hour-AreDigits a b h = ground arith

is_minute-AreDigits :
    (a b : ℕ) → is_minute a b ≡ true → (atoi2 a b < 60) × AreDigits a b (atoi2 a b)
unfolding is_minute
is_minute-AreDigits a b h = ground arith

is_hour_of_lt : (v : ℕ) → v < 24 → is_hour (b'0' + v / 10) (b'0' + v % 10) ≡ true
unfolding is_hour
is_hour_of_lt v h = ground arith

is_minute_of_lt : (v : ℕ) → v < 60 → is_minute (b'0' + v / 10) (b'0' + v % 10) ≡ true
unfolding is_minute
is_minute_of_lt v h = ground arith

-- What an accepted text consists of.
parse_hhmm_parts :
    (a b c d e n : ℕ)
    → parse_hhmm (a ∷ b ∷ c ∷ d ∷ e ∷ []) ≡ some n
    → (is_hour a b ≡ true) × (c ≡ b':') × (is_minute d e ≡ true) × (n ≡ atoi2 a b * 60 + atoi2 d e)
unfolding parse_hhmm
parse_hhmm_parts a b c d e n h = ground arith

div-mod_parts : (h m : ℕ) → m < 60 → ((h * 60 + m) / 60 ≡ h) × ((h * 60 + m) % 60 ≡ m)
div-mod_parts h m lt = omega arith

parse_hhmm_sound : (s : Text) (n : ℕ) → parse_hhmm s ≡ some n → (n < 1440) × (s ≡ format_hhmm n)
unfolding parse_hhmm
parse_hhmm_sound (a ∷ b ∷ c ∷ d ∷ e ∷ []) n accepted =
    let (hour, colon, minute, value) = parse_hhmm_parts a b c d e n accepted in
    let (h_lt, h) = is_hour-AreDigits a b hour in
    let (m_lt, m) = is_minute-AreDigits d e minute in
    let (h_is, m_is) = div-mod_parts (atoi2 a b) (atoi2 d e) m_lt in
    (omega arith, rw (value, h_is, m_is) (cc (h.tens, h.units, colon, m.tens, m.units)))
parse_hhmm_sound s n h = cc

parse_hhmm_complete : (n : ℕ) → n < 1440 → parse_hhmm (format_hhmm n) ≡ some n
unfolding parse_hhmm
parse_hhmm_complete n lt =
    rw (is_hour_of_lt (n / 60) (omega arith), is_minute_of_lt (n % 60) (omega arith))
      (ap some (omega arith))

-- A text is accepted as a time exactly when it is the notation HH:MM of a minute of the day, and
-- the result is that minute.
pub parse_hhmm-format_hhmm :
    (s : Text) (n : ℕ) → (parse_hhmm s ≡ some n) ↔ ((n < 1440) × (s ≡ format_hhmm n))
parse_hhmm-format_hhmm s n = (
  parse_hhmm_sound s n,
  λ (lt, e). subst (λ t. parse_hhmm t ≡ some n) (sym e) (parse_hhmm_complete n lt),
)
