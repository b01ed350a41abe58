-- ===== src/Schedule/Validation.antt =====
-- `validate` accepts exactly the well-formed schedules, and its error names the first bad block.
use kblocker.Base.{
  ℕ, zero, suc, ◌+◌, ◌<◌, take, ◌≡◌, refl, sym, ◌≢◌, ◌↔◌, inl, inr, none, some, false, List, [],
  ◌∷◌, map, arith, length, ◌∈◌, All, Text, contains, contains_iff, Option-cases,
}
use kblocker.Base.Int.{ℤ, pos, ◌≤ℤ◌}
use kblocker.Schedule.{
  ScheduleBlock, Schedule, ScheduleError, missing_id, duplicate_id, no_days, invalid_day,
  invalid_time, same_times, parse_hhmm, first_bad_day, times_error, block_error, validate_from,
  validate,
}

abbrev pub IsWeekday : ℤ → Type 0
IsWeekday d = (pos 0 ≤ℤ d) × (d ≤ℤ pos 6)

-- What the schedule promises of a block by itself: an id, some days of the week, and two
-- different times of day.
pub record IsValidBlock (b : ScheduleBlock) : Type 0 where
  pub has_id : b.id ≢ []
  pub has_days : b.days ≢ []
  pub weekdays : All IsWeekday b.days
  pub start : ℕ
  pub end : ℕ
  pub start_is : parse_hhmm b.start ≡ some start
  pub end_is : parse_hhmm b.end ≡ some end
  pub differ : start ≢ end

abbrev pub Distinct : List Text → Type 0
Distinct [] = Unit
Distinct (x ∷ xs) = (¬ (x ∈ xs)) × Distinct xs

abbrev ids : List ScheduleBlock → List Text
ids = map (λ b. b.id)

pub record IsValid (s : Schedule) : Type 0 where
  pub blocks_valid : All IsValidBlock s.blocks
  pub ids_distinct : Distinct (map (λ b. b.id) s.blocks)

first_bad_day_iff : (ds : List ℤ) → (first_bad_day ds ≡ none) ↔ All IsWeekday ds
unfolding first_bad_day
first_bad_day_iff [] = (λ _. tt, λ _. refl)
first_bad_day_iff (d ∷ ds) = ground (arith, first_bad_day_iff ds)

-- The two times parse and differ.
abbrev TimesDiffer : ScheduleBlock → Type 0
TimesDiffer b =
    (start : ℕ) × (end : ℕ) × (parse_hhmm b.start ≡ some start)
    × (parse_hhmm b.end ≡ some end)
    × (start ≢ end)

times_error_iff : (i : ℕ) (b : ScheduleBlock) → (times_error i b ≡ none) ↔ TimesDiffer b
unfolding times_error
times_error_iff i b = elim (Option-cases (parse_hhmm b.start)) [
  | inl p ↦ (λ h. ground arith, λ (s, e, ps, pe, ne). cc)
  | inr (s, p) ↦ elim (Option-cases (parse_hhmm b.end)) [
    | inl q ↦ (λ h. ground arith, λ (s', e, ps, pe, ne). cc)
    | inr (e, q) ↦ (λ h. (s, e, p, q, ground arith), λ (s', e', ps, pe, ne). ground arith)
  ]
]

module _ (i : ℕ) (seen : List Text) (b : ScheduleBlock) where
  -- What the tests of a round that finds nothing have shown.
  abbrev RoundPasses : Type 0
  RoundPasses =
      (b.id ≢ [])
      × (b.days ≢ [])
      × (first_bad_day b.days ≡ none)
      × (times_error i b ≡ none)
      × (contains seen b.id ≡ false)

  block_error-RoundPasses : (block_error i seen b ≡ none) ↔ RoundPasses
  unfolding block_error
  block_error-RoundPasses = (λ h. ground arith, λ h. ground arith)

  block_error_iff : (block_error i seen b ≡ none) ↔ (IsValidBlock b × (¬ (b.id ∈ seen)))
  block_error_iff = (
    λ h.
        let (has_id, has_days, days, times, fresh) = block_error-RoundPasses.0 h in
        let (start, end, start_is, end_is, differ) = (times_error_iff i b).0 times in
        (
          record {
            has_id = has_id;
            has_days = has_days;
            weekdays = (first_bad_day_iff b.days).0 days;
            start = start;
            end = end;
            start_is = start_is;
            end_is = end_is;
            differ = differ;
          },
          λ m. cc ((contains_iff seen b.id).1 m),
        ),
    λ (v, fresh). block_error-RoundPasses.1 (
      v.has_id,
      v.has_days,
      (first_bad_day_iff b.days).1 v.weekdays,
      (times_error_iff i b).1 (v.start, v.end, v.start_is, v.end_is, v.differ),
      ground (arith, contains_iff seen b.id),
    ),
  )

-- No id of the blocks is among those seen, and none occurs twice.
abbrev Fresh : List Text → List ScheduleBlock → Type 0
Fresh seen [] = Unit
Fresh seen (b ∷ bs) = (¬ (b.id ∈ seen)) × Fresh (b.id ∷ seen) bs

validate_from_iff :
    (i : ℕ) (seen : List Text) (bs : List ScheduleBlock)
    → (validate_from i seen bs ≡ none) ↔ (All IsValidBlock bs × Fresh seen bs)
unfolding validate_from
validate_from_iff i seen [] = (λ _. (tt, tt), λ _. refl)
validate_from_iff i seen (b ∷ bs) =
    ground (arith, block_error_iff i seen b, validate_from_iff (i + 1) (b.id ∷ seen) bs)

-- No text of `ts` is among `seen`.
abbrev Apart : List Text → List Text → Type 0
Apart seen ts = All (λ t. ¬ (t ∈ seen)) ts

Apart-cons : (x : Text) (seen ts : List Text) → Apart (x ∷ seen) ts ↔ ((¬ (x ∈ ts)) × Apart seen ts)
Apart-cons x seen [] = (λ _. (λ m. m, tt), λ _. tt)
Apart-cons x seen (t ∷ ts) = (
  λ (ne, rest).
      let (x_out, apart) = (Apart-cons x seen ts).0 rest in
      (λ m. elim m [ inl e ↦ ne (inl (sym e)) | inr n ↦ x_out n ], (λ n. ne (inr n), apart)),
  λ (x_out, (t_out, apart)). (
    λ m. elim m [ inl e ↦ x_out (inl (sym e)) | inr n ↦ t_out n ],
    (Apart-cons x seen ts).1 (λ n. x_out (inr n), apart),
  ),
)

Apart-nil : (ts : List Text) → Apart [] ts
Apart-nil [] = tt
Apart-nil (t ∷ ts) = (λ m. m, Apart-nil ts)

Fresh-Distinct :
    (seen : List Text) (bs : List ScheduleBlock)
    → Fresh seen bs ↔ (Distinct (ids bs) × Apart seen (ids bs))
Fresh-Distinct seen [] = (λ _. (tt, tt), λ _. tt)
Fresh-Distinct seen (b ∷ bs) = (
  λ (out, fresh).
      let (distinct, apart) = (Fresh-Distinct (b.id ∷ seen) bs).0 fresh in
      let (new, rest) = (Apart-cons b.id seen (ids bs)).0 apart in ((new, distinct), (out, rest)),
  λ ((new, distinct), (out, rest)). (
    out,
    (Fresh-Distinct (b.id ∷ seen) bs).1 (distinct, (Apart-cons b.id seen (ids bs)).1 (new, rest)),
  ),
)

-- A schedule is accepted exactly when every block has an id, some days that are days of the
-- week, and two different times of day, and when no two blocks share an id; so a block whose end
-- is its start is refused.
pub validate-IsValid : (s : Schedule) → (validate s ≡ none) ↔ IsValid s
unfolding validate
validate-IsValid s = (
  λ h.
      let (valid, fresh) = (validate_from_iff 1 [] s.blocks).0 h in
      record { blocks_valid = valid; ids_distinct = ((Fresh-Distinct [] s.blocks).0 fresh).0 },
  λ v.
      (validate_from_iff 1 [] s.blocks).1
        (v.blocks_valid, (Fresh-Distinct [] s.blocks).1 (v.ids_distinct, Apart-nil (ids s.blocks))),
)

-- The number of the block that an error names.
abbrev pub block_number : ScheduleError → ℕ
block_number (missing_id i) = i
block_number (duplicate_id i t) = i
block_number (no_days i) = i
block_number (invalid_day i d) = i
block_number (invalid_time i t) = i
block_number (same_times i) = i

block_error_number :
    (i : ℕ) (seen : List Text) (b : ScheduleBlock) (e : ScheduleError)
    → block_error i seen b ≡ some e
    → block_number e ≡ i
unfolding block_error times_error
block_error_number i seen b e h = ground arith

validate_from_first :
    (i : ℕ) (seen : List Text) (bs : List ScheduleBlock) (e : ScheduleError)
    → validate_from i seen bs ≡ some e
    → (n : ℕ) × (n < length bs)
      × (block_number e ≡ i + n)
      × (validate_from i seen (take n bs) ≡ none)
      × (validate_from i seen (take (suc n) bs) ≡ some e)
unfolding validate_from
validate_from_first i seen [] e h = cc
validate_from_first i seen (b ∷ bs) e h = elim (Option-cases (block_error i seen b)) [
  | inl ok ↦
      let (n, lt, number, before, here) =
        validate_from_first (i + 1) (b.id ∷ seen) bs e (rw (ok, validate_from) at h) in
      (suc n, omega arith, omega arith, ground arith, ground arith)
  | inr (e', bad) ↦
      (zero, omega arith, ground (arith, block_error_number i seen b e), refl, ground arith)
]

-- A refused schedule is refused at its first bad block: the error carries the number of a block,
-- from 1, the blocks before it are accepted by themselves, and those up to it give that error.
pub validate_error :
    (s : Schedule) (e : ScheduleError)
    → validate s ≡ some e
    → (n : ℕ) × (n < length s.blocks)
      × (block_number e ≡ suc n)
      × (validate (record { blocks = take n s.blocks }) ≡ none)
      × (validate (record { blocks = take (suc n) s.blocks }) ≡ some e)
unfolding validate
validate_error s e h =
    let (n, lt, number, before, here) = validate_from_first 1 [] s.blocks e h in
    (n, lt, omega arith, before, here)
