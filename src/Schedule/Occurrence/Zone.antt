-- ===== src/Schedule/Occurrence/Zone.antt =====
-- The days of a location without zone transitions, and the occurrences of a block on them.
use mathlib.Core.Path.{subst}
use kblocker.Base.{
  ℕ, zero, suc, ◌+◌, ◌-◌, ◌*◌, ◌/◌, ◌%◌, ◌≤◌, ◌<◌, ◌≡◌, refl, sym, ◌⊎◌, ◌↔◌, inl, inr, some, Bool,
  true, false, [], ◌∷◌, arith, ◌∙◌, ◌∈◌, mem-append, Option-cases, ltb, ◌&&◌, not, if◌then◌else◌,
}
use kblocker.Base.Int.{pos}
use kblocker.Schedule.{
  ScheduleBlock, Window, Calendar, parse_hhmm, contains_int, window_length, window_of, windows_at,
  minute_ns, day_ns,
}

-- What package time documents of a location without zone transitions: days of 24 hours follow
-- one another, and time.Date with the day of an instant or the day before names a time on it.
pub record IsFixedZone (c : Calendar) : Type 0 where
  pub midnight : ℕ → ℕ
  pub midnight-suc : (n : ℕ) → midnight (suc n) ≡ midnight n + day_ns
  pub day_index : ℕ → ℕ
  pub day_index_bounds :
      (t : ℕ) → midnight 0 ≤ t → (midnight (day_index t) ≤ t) × (t < midnight (suc (day_index t)))
  pub date_today :
      (t h m : ℕ)
      → midnight 0 ≤ t
      → h < 24
      → m < 60
      → c.date (c.year t) (c.month t) (c.day t) h m
        ≡ midnight (day_index t) + (h * 60 + m) * minute_ns
  pub date_yesterday :
      (t : ℕ)
      → midnight 1 ≤ t
      → c.date (c.year t) (c.month t) (c.day t - 1) 0 0 ≡ midnight (day_index t - 1)

pub mem-singleton_if :
    (a p : Bool) (v w : Window)
    → (w ∈ (if not a then [] else if p then v ∷ [] else [])) ↔ ((a ≡ true) × (p ≡ true) × (w ≡ v))
mem-singleton_if true true v w =
    (λ m. elim m [ inl e ↦ (refl, refl, e) | inr n ↦ absurd n ], λ h. inl h.2)
mem-singleton_if true false v w = (λ m. absurd m, λ h. cc)
mem-singleton_if false p v w = (λ m. absurd m, λ h. cc)

pub inside_iff :
    (t : ℕ) (w : Window)
    → ((not (ltb t w.start) && ltb t w.end) ≡ true) ↔ ((w.start ≤ t) × (t < w.end))
inside_iff t w = ground arith

pub window_of_contains :
    (c : Calendar) (b : ScheduleBlock) (from to t day : ℕ) (w : Window)
    → w ∈ window_of c b from to t day
    → (w.start ≤ t) × (t < w.end)
unfolding window_of
window_of_contains c b from to t day w m =
    let ws = c.date (c.year day) (c.month day) (c.day day) (from / 60) (from % 60) in
    let v : Window = record { block = b; start = ws; end = ws + window_length from to } in
    let (_, inside, same) = (mem-singleton_if _ _ v w).0 m in
    subst (λ u. (u.start ≤ t) × (t < u.end)) (sym same) ((inside_iff t v).0 inside)

-- What `windowsAt` returns contains the instant, whatever the calendar does.
pub windows_at_contain :
    (c : Calendar) (b : ScheduleBlock) (t : ℕ) (w : Window)
    → w ∈ windows_at c b t
    → (w.start ≤ t) × (t < w.end)
unfolding windows_at
windows_at_contain c b t w m = elim (Option-cases (parse_hhmm b.start)) [
  | inl p ↦ absurd (rw (p, windows_at) at m)
  | inr (from, p) ↦ elim (Option-cases (parse_hhmm b.end)) [
    | inl q ↦ absurd (rw (p, q, windows_at) at m)
    | inr (to, q) ↦
        let before = c.date (c.year t) (c.month t) (c.day t - 1) 0 0 in
        let today = c.date (c.year t) (c.month t) (c.day t) 0 0 in
        elim (mem-append w (window_of c b from to t before) (window_of c b from to t today)
          (rw (p, q, windows_at) at m)) [
            | inl m' ↦ window_of_contains c b from to t before w m'
            | inr m' ↦ window_of_contains c b from to t today w m'
          ]
  ]
]

module _ (c : Calendar) (z : IsFixedZone c) where
  open z use {midnight, midnight-suc, day_index, day_index_bounds, date_today, date_yesterday}

  -- `w` is the occurrence of `b` that belongs to day `n`. An end at or before the start runs past
  -- midnight into the next day.
  pub record OccursOn (b : ScheduleBlock) (n : ℕ) (w : Window) : Type 0 where
    pub on_day : contains_int b.days (pos (c.weekday (midnight n))) ≡ true
    pub from : ℕ
    pub to : ℕ
    pub from_is : parse_hhmm b.start ≡ some from
    pub to_is : parse_hhmm b.end ≡ some to
    pub block_is : w.block ≡ b
    pub starts : w.start ≡ midnight n + from * minute_ns
    pub ends :
        ((from < to) × (w.end ≡ midnight n + to * minute_ns))
        ⊎ ((to ≤ from) × (w.end ≡ midnight (suc n) + to * minute_ns))

  pub midnight_lem : (n : ℕ) → midnight n ≡ midnight 0 + n * day_ns
  midnight_lem zero = omega arith
  midnight_lem (suc n) = omega (arith, midnight_lem n, midnight-suc n)

  pub day_index_unique : (t n : ℕ) → midnight n ≤ t → t < midnight (suc n) → day_index t ≡ n
  day_index_unique t n lo hi = omega (
    arith,
    midnight_lem n,
    midnight_lem (suc n),
    midnight_lem (day_index t),
    midnight_lem (suc (day_index t)),
    day_index_bounds t (omega (arith, midnight_lem n)),
  )

  -- The start that is computed from the midnight of day `n`.
  pub date_midnight :
      (n from : ℕ)
      → from < 1440
      → c.date
          (c.year (midnight n))
          (c.month (midnight n))
          (c.day (midnight n))
          (from / 60)
          (from % 60)
        ≡ midnight n + from * minute_ns
  date_midnight n from lt =
      date_today (midnight n) (from / 60) (from % 60) (omega (arith, midnight_lem n)) (omega arith)
        (omega arith)
      ∙ rw (day_index_unique (midnight n) n (omega arith) (omega (arith, midnight-suc n)))
          (omega arith)

  -- The end of a window, by the two kinds of windows.
  pub window_length-ends :
      (n from to : ℕ)
      → from < 1440
      → ((from < to)
          × (midnight n + from * minute_ns + window_length from to ≡ midnight n + to * minute_ns))
        ⊎ ((to ≤ from)
            × (midnight n + from * minute_ns + window_length from to
                ≡ midnight (suc n) + to * minute_ns))
  unfolding window_length
  window_length-ends n from to lt = ground (arith, midnight-suc n)
