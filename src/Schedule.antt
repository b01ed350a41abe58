-- ===== src/Schedule.antt =====
-- cmd/kblockerctl/schedule.go without its commands: the weekly schedule, its validation, the
-- windows that contain an instant, and the list of day names. An instant is a number of
-- nanoseconds. Package time in a location is the parameter `Calendar`.
pub mod Hhmm
pub mod Validation
pub mod Occurrence
pub mod Active
pub mod Days
use kblocker.Base.{
  ℕ, ◌+◌, ◌-◌, ◌*◌, ◌/◌, ◌%◌, Bool, true, false, not, ◌&&◌, ◌||◌, Option, none, some, List, [], ◌∷◌,
  ◌++◌, ltb, leb, ◌==◌, if◌then◌else◌,
}
use kblocker.Base.Int.{ℤ, pos, ltb_ℤ, eqb_ℤ, add64, rem}
use kblocker.Base.Strings.{Text, lit, is_empty, is_digit, contains, join}

pub record ScheduleBlock : Type 0 where
  pub id : Text
  pub name : Text
  pub days : List ℤ
  pub start : Text
  pub end : Text
  pub enabled : Bool

-- The struct `schedule`; a nil slice and an empty one are the same list.
pub record Schedule : Type 0 where
  pub blocks : List ScheduleBlock

pub record Window : Type 0 where
  pub block : ScheduleBlock
  pub start : ℕ
  pub end : ℕ

-- `[01]\d|2[0-3]` and `[0-5]\d`, the two groups of `hhmmRegex`.
unfoldable pub is_hour : ℕ → ℕ → Bool
is_hour a b =
    (((a == b'0') || (a == b'1')) && is_digit b) || ((a == b'2') && (leb b'0' b && leb b b'3'))

unfoldable pub is_minute : ℕ → ℕ → Bool
is_minute d e = (leb b'0' d && leb d b'5') && is_digit e

abbrev pub atoi2 : ℕ → ℕ → ℕ
atoi2 a b = (a - b'0') * 10 + (b - b'0')

-- `none` is the error "invalid time".
unfoldable pub parse_hhmm : Text → Option ℕ
parse_hhmm (a ∷ b ∷ c ∷ d ∷ e ∷ []) =
    if is_hour a b && ((c == b':') && is_minute d e)
    then some (atoi2 a b * 60 + atoi2 d e)
    else none
parse_hhmm _ = none

-- The errors of `validate`, with the number of the block, from 1.
pub data ScheduleError : Type 0 where
  missing_id : ℕ → ScheduleError
  duplicate_id : ℕ → Text → ScheduleError
  no_days : ℕ → ScheduleError
  invalid_day : ℕ → ℤ → ScheduleError
  invalid_time : ℕ → Text → ScheduleError
  same_times : ℕ → ScheduleError

pub first_bad_day : List ℤ → Option ℤ
first_bad_day [] = none
first_bad_day (d ∷ ds) = if ltb_ℤ d (pos 0) || ltb_ℤ (pos 6) d then some d else first_bad_day ds

-- The tests on the two times of block `i`.
pub times_error : ℕ → ScheduleBlock → Option ScheduleError
times_error i b = elim (parse_hhmm b.start) [
  | none ↦ some (invalid_time i b.start)
  | some start ↦ elim (parse_hhmm b.end) [
    | none ↦ some (invalid_time i b.end)
    | some end ↦ if start == end then some (same_times i) else none
  ]
]

-- The body of the loop of `validate`.
pub block_error : ℕ → List Text → ScheduleBlock → Option ScheduleError
block_error i seen b =
    if is_empty b.id
    then some (missing_id i)
    else if contains seen b.id
    then some (duplicate_id i b.id)
    else elim b.days [
      | [] ↦ some (no_days i)
      | _ ∷ _ ↦ elim (first_bad_day b.days) [
        | some d ↦ some (invalid_day i d)
        | none ↦ times_error i b
      ]
    ]

-- The loop, from block `i` with the ids seen so far.
pub validate_from : ℕ → List Text → List ScheduleBlock → Option ScheduleError
validate_from i seen [] = none
validate_from i seen (b ∷ bs) = elim (block_error i seen b) [
  | some e ↦ some e
  | none ↦ validate_from (i + 1) (b.id ∷ seen) bs
]

unfoldable pub validate : Schedule → Option ScheduleError
unfolding validate_from block_error first_bad_day times_error is_hour is_minute
validate s = validate_from 1 [] s.blocks

abbrev pub minute_ns : ℕ
minute_ns = 60000000000

abbrev pub day_ns : ℕ
day_ns = 86400000000000

-- What the program uses of package time, for instants in one location. `date` is time.Date at
-- second 0, in the order year, month, day, hour, minute; `clock` is Format("15:04") and `stamp`
-- is Format("2006-01-02T15:04").
pub record Calendar : Type 0 where
  pub year : ℕ → ℕ
  pub month : ℕ → ℕ
  pub day : ℕ → ℕ
  pub weekday : ℕ → ℕ
  pub date : ℕ → ℕ → ℕ → ℕ → ℕ → ℕ
  pub stamp : ℕ → Text

unfoldable pub contains_int : List ℤ → ℤ → Bool
contains_int [] v = false
contains_int (x ∷ xs) v = eqb_ℤ x v || contains_int xs v

-- `length` in `windowsAt`, for two times of day in minutes. In the source `end-start` may be
-- negative before the 24 hours are added.
unfoldable pub window_length : ℕ → ℕ → ℕ
window_length start end =
    if leb end start
    then day_ns + end * minute_ns - start * minute_ns
    else (end - start) * minute_ns

-- The inner loop of `activeWindow`: `best` and `found` as one option.
pub latest : Option Window → List Window → Option Window
latest best [] = best
latest best (w ∷ ws) =
    latest (elim best [ none ↦ some w | some v ↦ if ltb v.end w.end then some w else some v ]) ws

module _ (c : Calendar) where
  -- `key`: identifies an occurrence.
  unfoldable pub key : Window → Text
  key w = w.block.id ++ (b'@' ∷ c.stamp w.start)

  -- The body of the loop of `windowsAt` after `day` is computed.
  unfoldable pub window_of : ScheduleBlock → ℕ → ℕ → ℕ → ℕ → List Window
  window_of b start end t day =
      let ws = c.date (c.year day) (c.month day) (c.day day) (start / 60) (start % 60) in
      let we = ws + window_length start end in
      if not (contains_int b.days (pos (c.weekday day)))
      then []
      else if not (ltb t ws) && ltb t we
      then record { block = b; start = ws; end = we } ∷ []
      else []

  -- The two rounds are for the offsets -1 and 0. A day of the month is at least 1, so the first
  -- does not make it negative.
  unfoldable pub windows_at : ScheduleBlock → ℕ → List Window
  windows_at b t = elim (parse_hhmm b.start) [
    | none ↦ []
    | some start ↦ elim (parse_hhmm b.end) [
      | none ↦ []
      | some end ↦
          window_of b start end t (c.date (c.year t) (c.month t) (c.day t - 1) 0 0)
          ++ window_of b start end t (c.date (c.year t) (c.month t) (c.day t) 0 0)
    ]
  ]

  pub active_from : Option Window → List ScheduleBlock → ℕ → Option Window
  active_from best [] t = best
  active_from best (b ∷ bs) t =
      active_from (if not b.enabled then best else latest best (windows_at b t)) bs t

  unfoldable pub active_window : Schedule → ℕ → Option Window
  unfolding active_from latest
  active_window s t = active_from none s.blocks t

-- `(d+6)%7`, the Monday-first place of a day.
abbrev pub weekday_place : ℤ → ℤ
weekday_place d = rem (add64 d (pos 6)) 7

insert_day : ℤ → List ℤ → List ℤ
insert_day d [] = d ∷ []
insert_day d (e ∷ es) =
    if ltb_ℤ (weekday_place e) (weekday_place d) then e ∷ insert_day d es else d ∷ e ∷ es

-- sort.Slice by `weekday_place`. It does not promise an order of days with equal places.
pub sort_days : List ℤ → List ℤ
unfolding insert_day
sort_days [] = []
sort_days (d ∷ ds) = insert_day d (sort_days ds)

-- `dayNames[d]`; `none` is the panic of an index out of range.
pub day_name : ℤ → Option Text
day_name d =
    if eqb_ℤ d (pos 0)
    then some (lit "Sun")
    else if eqb_ℤ d (pos 1)
    then some (lit "Mon")
    else if eqb_ℤ d (pos 2)
    then some (lit "Tue")
    else if eqb_ℤ d (pos 3)
    then some (lit "Wed")
    else if eqb_ℤ d (pos 4)
    then some (lit "Thu")
    else if eqb_ℤ d (pos 5)
    then some (lit "Fri")
    else if eqb_ℤ d (pos 6)
    then some (lit "Sat")
    else none

pub day_names : List ℤ → Option (List Text)
unfolding day_name
day_names [] = some []
day_names (d ∷ ds) = elim (day_name d) [
  | none ↦ none
  | some n ↦ elim (day_names ds) [ none ↦ none | some ns ↦ some (n ∷ ns) ]
]

unfoldable pub format_days : List ℤ → Option Text
unfolding sort_days day_names
format_days days = elim (day_names (sort_days days)) [
  | none ↦ none
  | some names ↦ some (join names (lit " "))
]
