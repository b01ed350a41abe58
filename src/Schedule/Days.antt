-- ===== src/Schedule/Days.antt =====
-- `formatDays`: which days it can name, and the order of the names.
use kblocker.Base.{
  ℕ, suc, ◌≡◌, refl, ◌≢◌, ◌↔◌, inl, inr, none, some, List, [], ◌∷◌, arith, All, Bool-cases, join,
  lit, if◌then◌else◌,
}
use kblocker.Base.Int.{ℤ, ◌≤ℤ◌, ltb_ℤ, eqb_ℤ}
use kblocker.Schedule.{weekday_place, insert_day, sort_days, day_name, day_names, format_days}
use kblocker.Schedule.Validation.{IsWeekday}

day_name-IsWeekday : (d : ℤ) → (day_name d ≢ none) ↔ IsWeekday d
unfolding day_name
day_name-IsWeekday d = (λ h. ground arith, λ h. ground arith)

day_names-IsWeekday : (ds : List ℤ) → (day_names ds ≢ none) ↔ All IsWeekday ds
unfolding day_names
day_names-IsWeekday [] = (λ _. tt, λ _ e. cc)
day_names-IsWeekday (d ∷ ds) = ground (arith, day_name-IsWeekday d, day_names-IsWeekday ds)

All-insert_day : (P : ℤ → Type 0) (d : ℤ) (es : List ℤ) → All P (insert_day d es) ↔ (P d × All P es)
unfolding insert_day
All-insert_day P d [] = (λ h. h, λ h. h)
All-insert_day P d (e ∷ es) = ground (arith, All-insert_day P d es)

All-sort_days : (P : ℤ → Type 0) (ds : List ℤ) → All P (sort_days ds) ↔ All P ds
unfolding sort_days
All-sort_days P [] = (λ h. h, λ h. h)
All-sort_days P (d ∷ ds) = ground (arith, All-insert_day P d (sort_days ds), All-sort_days P ds)

-- The places of the days do not fall along the list.
abbrev pub IsMondayFirst : List ℤ → Type 0
IsMondayFirst [] = Unit
IsMondayFirst (d ∷ ds) = All (λ e. weekday_place d ≤ℤ weekday_place e) ds × IsMondayFirst ds

abbrev pub count : ℤ → List ℤ → ℕ
count d [] = 0
count d (e ∷ es) = if eqb_ℤ d e then suc (count d es) else count d es

count-insert_day : (x d : ℤ) (es : List ℤ) → count x (insert_day d es) ≡ count x (d ∷ es)
unfolding insert_day
count-insert_day x d [] = refl
count-insert_day x d (e ∷ es) = ground (arith, count-insert_day x d es)

count-sort_days : (x : ℤ) (ds : List ℤ) → count x (sort_days ds) ≡ count x ds
unfolding sort_days
count-sort_days x [] = refl
count-sort_days x (d ∷ ds) =
    ground (arith, count-insert_day x d (sort_days ds), count-sort_days x ds)

≤ℤ-All :
    (a b : ℤ) (ds : List ℤ)
    → a ≤ℤ b
    → All (λ e. b ≤ℤ weekday_place e) ds
    → All (λ e. a ≤ℤ weekday_place e) ds
≤ℤ-All a b [] le h = tt
≤ℤ-All a b (d ∷ ds) le h = (omega arith, ≤ℤ-All a b ds le h.1)

insert_day-IsMondayFirst :
    (d : ℤ) (es : List ℤ) → IsMondayFirst es → IsMondayFirst (insert_day d es)
unfolding insert_day
insert_day-IsMondayFirst d [] h = (tt, tt)
insert_day-IsMondayFirst d (e ∷ es) h =
    elim (Bool-cases (ltb_ℤ (weekday_place e) (weekday_place d))) [
      | inl lt ↦
          rw (lt, insert_day)
            (
              (All-insert_day (λ x. weekday_place e ≤ℤ weekday_place x) d es).1 (ground arith, h.0),
              insert_day-IsMondayFirst d es h.1,
            )
      | inr ge ↦
          let le : weekday_place d ≤ℤ weekday_place e = ground arith in
          rw (ge, insert_day) ((le, ≤ℤ-All (weekday_place d) (weekday_place e) es le h.0), h)
    ]

sort_days-IsMondayFirst : (ds : List ℤ) → IsMondayFirst (sort_days ds)
unfolding sort_days
sort_days-IsMondayFirst [] = tt
sort_days-IsMondayFirst (d ∷ ds) =
    insert_day-IsMondayFirst d (sort_days ds) (sort_days-IsMondayFirst ds)

-- The days of a list can be named exactly when all are days of the week; otherwise the index into
-- the names is out of range. The names are those of the same days, each as often, from Monday on.
pub format_days_lem :
    (days : List ℤ)
    → ((format_days days ≢ none) ↔ All IsWeekday days)
      × ((sorted : List ℤ) × IsMondayFirst sorted
          × ((d : ℤ) → count d sorted ≡ count d days)
          × (format_days days
              ≡ elim (day_names sorted) [ none ↦ none | some names ↦ some (join names (lit " ")) ]))
unfolding format_days
format_days_lem days = (
  ground (arith, day_names-IsWeekday (sort_days days), All-sort_days IsWeekday days),
  (sort_days days, sort_days-IsMondayFirst days, λ d. count-sort_days d days, refl),
)
