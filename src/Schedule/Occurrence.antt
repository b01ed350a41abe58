-- ===== src/Schedule/Occurrence.antt =====
-- The windows that `windowsAt` finds are all the occurrences of a block that contain the instant.
mod Zone
pub use Zone.{
  IsFixedZone, mem-singleton_if, inside_iff, window_of_contains, windows_at_contain, OccursOn,
  midnight_lem, day_index_unique, date_midnight, window_length-ends,
}
use mathlib.Core.Path.{subst}
use kblocker.Base.{
  ℕ, zero, suc, ◌+◌, ◌-◌, ◌*◌, ◌/◌, ◌%◌, ◌≤◌, ◌<◌, ◌≡◌, refl, sym, ◌⊎◌, ◌↔◌, inl, inr, some, Bool,
  true, false, [], ◌∷◌, ◌++◌, arith, ◌∙◌, ◌∈◌, mem-append, mem-append_left, mem-append_right,
  Option-cases, ltb, ◌&&◌, not, lt_or_le, if◌then◌else◌,
}
use kblocker.Base.Int.{pos}
use kblocker.Schedule.{
  ScheduleBlock, Window, Calendar, parse_hhmm, contains_int, window_length, window_of, windows_at,
  minute_ns, day_ns,
}
use kblocker.Schedule.Hhmm.{parse_hhmm-format_hhmm}

module _ (c : Calendar) (z : IsFixedZone c) where
  open z use {midnight, midnight-suc, day_index, day_index_bounds, date_today, date_yesterday}

  module _ (b : ScheduleBlock) (from to t n : ℕ) (w : Window)
      (from_is : parse_hhmm b.start ≡ some from) (to_is : parse_hhmm b.end ≡ some to) where
    from_lt : from < 1440
    from_lt = ((parse_hhmm-format_hhmm b.start from).0 from_is).0

    abbrev found : Window
    found = record {
      block = b;
      start = midnight n + from * minute_ns;
      end = midnight n + from * minute_ns + window_length from to;
    }

    found-OccursOn :
        contains_int b.days (pos (c.weekday (midnight n))) ≡ true → OccursOn c z b n found
    found-OccursOn h = record {
      on_day = h;
      from = from;
      to = to;
      from_is = from_is;
      to_is = to_is;
      block_is = refl;
      starts = refl;
      ends = window_length-ends c z n from to from_lt;
    }

    OccursOn-found : OccursOn c z b n w → w ≡ found
    OccursOn-found o =
        let from_same : o.from ≡ from = ground (arith, o.from_is, from_is) in
        let to_same : o.to ≡ to = ground (arith, o.to_is, to_is) in
        let start_is : w.start ≡ midnight n + from * minute_ns = omega (arith, o.starts) in
        let end_is : w.end ≡ midnight n + from * minute_ns + window_length from to =
          omega (arith, o.ends, window_length-ends c z n from to from_lt) in
        λ i. record { block = o.block_is i; start = start_is i; end = end_is i }

    mem-window_of :
        (w ∈ window_of c b from to t (midnight n))
        ↔ (OccursOn c z b n w × (w.start ≤ t) × (t < w.end))
    unfolding window_of
    mem-window_of = rw (date_midnight c z n from from_lt) (
      λ m.
          let (on_day, inside, same) = (mem-singleton_if _ _ found w).0 m in
          let (lo, hi) = (inside_iff t found).0 inside in
          subst (λ v. OccursOn c z b n v × (v.start ≤ t) × (t < v.end)) (sym same)
            (found-OccursOn on_day, lo, hi),
      λ (o, lo, hi).
          let same = OccursOn-found o in
          (mem-singleton_if _ _ found w).1 (
            o.on_day,
            subst (λ v. (not (ltb t v.start) && ltb t v.end) ≡ true) same
                ((inside_iff t w).1 (lo, hi)),
            same,
          ),
    )

  -- An occurrence ends by the end of the day after its own.
  OccursOn-within :
      (b : ScheduleBlock) (n : ℕ) (w : Window)
      → OccursOn c z b n w
      → (midnight n ≤ w.start) × (w.end ≤ w.start + day_ns) × (w.start < midnight (suc n))
  OccursOn-within b n w o =
      let from_lt = ((parse_hhmm-format_hhmm b.start o.from).0 o.from_is).0 in
      let to_lt = ((parse_hhmm-format_hhmm b.end o.to).0 o.to_is).0 in
      omega (arith, o.starts, o.ends, midnight-suc n)

  -- So an occurrence that contains an instant belongs to its day or to the day before.
  OccursOn-day_index :
      (b : ScheduleBlock) (n : ℕ) (w : Window) (t : ℕ)
      → OccursOn c z b n w
      → w.start ≤ t
      → t < w.end
      → (day_index t ≡ n) ⊎ (day_index t ≡ suc n)
  OccursOn-day_index b n w t o lo hi =
      let within = OccursOn-within b n w o in
      elim (lt_or_le t (midnight (suc n))) [
        | inl before ↦ inl (day_index_unique c z t n (omega arith) before)
        | inr after ↦ inr (
            day_index_unique c z t (suc n) after
              (omega (arith, midnight-suc n, midnight-suc (suc n))))
      ]

  windows_eq :
      (b : ScheduleBlock) (t from to : ℕ)
      → midnight 1 ≤ t
      → parse_hhmm b.start ≡ some from
      → parse_hhmm b.end ≡ some to
      → windows_at c b t
        ≡ window_of c b from to t (midnight (day_index t - 1))
          ++ window_of c b from to t (midnight (day_index t))
  unfolding windows_at
  windows_eq b t from to h p q =
      let later : midnight 0 ≤ t = omega (arith, midnight-suc 0) in
      let today : c.date (c.year t) (c.month t) (c.day t) 0 0 ≡ midnight (day_index t) =
        date_today t 0 0 later (omega arith) (omega arith) ∙ omega arith in
      rw (p, q, windows_at) (rw (date_yesterday t h, today))

  windows_parse :
      (b : ScheduleBlock) (t : ℕ) (w : Window)
      → w ∈ windows_at c b t
      → (from : ℕ) × (to : ℕ) × (parse_hhmm b.start ≡ some from) × (parse_hhmm b.end ≡ some to)
  unfolding windows_at
  windows_parse b t w m = elim (Option-cases (parse_hhmm b.start)) [
    | inl p ↦ absurd (rw (p, windows_at) at m)
    | inr (from, p) ↦ elim (Option-cases (parse_hhmm b.end)) [
      | inl q ↦ absurd (rw (p, q, windows_at) at m)
      | inr (to, q) ↦ (from, to, p, q)
    ]
  ]

  -- The two rounds look at the day of the instant and at the day before.
  mem-windows_at :
      (b : ScheduleBlock) (t from to : ℕ) (w : Window)
      → midnight 1 ≤ t
      → parse_hhmm b.start ≡ some from
      → parse_hhmm b.end ≡ some to
      → (w ∈ windows_at c b t) ↔ (
          (w ∈ window_of c b from to t (midnight (day_index t - 1)))
          ⊎ (w ∈ window_of c b from to t (midnight (day_index t))))
  mem-windows_at b t from to w h p q = rw (windows_eq b t from to h p q) (
    mem-append w _ _,
    λ m. elim m [ inl l ↦ mem-append_left w _ _ l | inr r ↦ mem-append_right w _ _ r ],
  )

  -- In a location without zone transitions, from the second day of the calendar on, `windowsAt`
  -- finds exactly the occurrences of the block, of any day, that contain the instant: those
  -- that have started and have not ended.
  pub windows_at-OccursOn :
      (b : ScheduleBlock) (t : ℕ) (w : Window)
      → midnight 1 ≤ t
      → (w ∈ windows_at c b t) ↔ ((n : ℕ) × OccursOn c z b n w × (w.start ≤ t) × (t < w.end))
  windows_at-OccursOn b t w h = (
    λ m.
        let (from, to, p, q) = windows_parse b t w m in
        elim ((mem-windows_at b t from to w h p q).0 m) [
          | inl m' ↦
              let (o, lo, hi) = (mem-window_of b from to t (day_index t - 1) w p q).0 m' in
              (day_index t - 1, o, lo, hi)
          | inr m' ↦
              let (o, lo, hi) = (mem-window_of b from to t (day_index t) w p q).0 m' in
              (day_index t, o, lo, hi)
        ],
    λ (n, o, lo, hi).
        let at_day = (mem-window_of b o.from o.to t n w o.from_is o.to_is).1 (o, lo, hi) in
        let place = λ (k : ℕ) (e : n ≡ k).
          subst (λ d. w ∈ window_of c b o.from o.to t (midnight d)) e at_day in
        (mem-windows_at b t o.from o.to w h o.from_is o.to_is).1
          (elim (OccursOn-day_index b n w t o lo hi) [
            | inl today ↦ inr (place (day_index t) (sym today))
            | inr yesterday ↦ inl (place (day_index t - 1) (omega arith))
          ]),
  )

  OccursOn-same_day :
      (b : ScheduleBlock) (n m t : ℕ) (v w : Window)
      → OccursOn c z b n v
      → OccursOn c z b m w
      → v.start ≤ t
      → t < v.end
      → w.start ≤ t
      → t < w.end
      → n ≤ m
  OccursOn-same_day b n m t v w o p vlo vhi wlo whi =
      let from_same : o.from ≡ p.from = ground (arith, o.from_is, p.from_is) in
      omega (
        arith,
        OccursOn-within b m w p,
        OccursOn-within b n v o,
        o.starts,
        p.starts,
        midnight_lem c z n,
        midnight_lem c z m,
      )

  -- Two windows of one block that contain one instant are the same window.
  pub windows_at_unique :
      (b : ScheduleBlock) (t : ℕ) (v w : Window)
      → midnight 1 ≤ t
      → v ∈ windows_at c b t
      → w ∈ windows_at c b t
      → v ≡ w
  windows_at_unique b t v w h mv mw =
      let (n, o, vlo, vhi) = (windows_at-OccursOn b t v h).0 mv in
      let (m, p, wlo, whi) = (windows_at-OccursOn b t w h).0 mw in
      let same : n ≡ m = omega (
        arith,
        OccursOn-same_day b n m t v w o p vlo vhi wlo whi,
        OccursOn-same_day b m n t w v p o wlo whi vlo vhi,
      ) in
      OccursOn-found b o.from o.to t n v o.from_is o.to_is o
      ∙ sym (
          OccursOn-found b o.from o.to t n w o.from_is o.to_is
            (subst (λ k. OccursOn c z b k w) (sym same) p))
