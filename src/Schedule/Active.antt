-- ===== src/Schedule/Active.antt =====
-- `activeWindow` finds an open window whenever there is one, and of those one that ends last.
use mathlib.Core.Path.{subst}
use kblocker.Base.{
  ℕ, ◌≤◌, ◌<◌, ◌≡◌, refl, sym, ap, ◌⊎◌, inl, inr, ◌↔◌, Option, none, some, Bool, true, false, not,
  List, [], ◌∷◌, arith, ◌∈◌, Bool-cases, if◌then◌else◌, ltb,
}
use kblocker.Schedule.{
  ScheduleBlock, Schedule, Window, Calendar, windows_at, latest, active_from, active_window,
}
use kblocker.Schedule.Occurrence.{IsFixedZone, OccursOn, windows_at-OccursOn}

-- `o` is a window with `P` that ends last among those, or nothing if no window has `P`.
abbrev pub IsLatest : (Window → Type 0) → Option Window → Type 0
IsLatest P none = (v : Window) → ¬ P v
IsLatest P (some w) = P w × ((v : Window) → P v → v.end ≤ w.end)

IsLatest-iff :
    (P Q : Window → Type 0) (o : Option Window)
    → ((v : Window) → P v ↔ Q v)
    → IsLatest P o
    → IsLatest Q o
IsLatest-iff P Q none same h = λ v q. h v ((same v).1 q)
IsLatest-iff P Q (some w) same h = ((same w).0 h.0, λ v q. h.1 v ((same v).1 q))

-- One round of the inner loop.
abbrev better : Option Window → Window → Option Window
better best w = elim best [ none ↦ some w | some v ↦ if ltb v.end w.end then some w else some v ]

better-IsLatest :
    (P : Window → Type 0) (best : Option Window) (w : Window)
    → IsLatest P best
    → IsLatest (λ v. P v ⊎ (v ≡ w)) (better best w)
better-IsLatest P none w h = (
  inr refl,
  λ v m. elim m [
    | inl p ↦ absurd (h v p)
    | inr e ↦ subst (λ x. x.end ≤ w.end) (sym e) (omega arith)
  ],
)
better-IsLatest P (some u) w (pu, top) = elim (Bool-cases (ltb u.end w.end)) [
  | inl less ↦ rw less (
    inr refl,
    λ v m. elim m [
      | inl p ↦ let le = top v p in ground arith
      | inr e ↦ subst (λ x. x.end ≤ w.end) (sym e) (omega arith)
    ],
  )
  | inr more ↦ rw more (
    inl pu,
    λ v m. elim m [ inl p ↦ top v p | inr e ↦ subst (λ x. x.end ≤ u.end) (sym e) (ground arith) ],
  )
]

⊎_assoc : {A B C : Type 0} → ((A ⊎ B) ⊎ C) ↔ (A ⊎ (B ⊎ C))
⊎_assoc = (
  λ h. elim h [ inl (inl a) ↦ inl a | inl (inr b) ↦ inr (inl b) | inr c ↦ inr (inr c) ],
  λ h. elim h [ inl a ↦ inl (inl a) | inr (inl b) ↦ inl (inr b) | inr (inr c) ↦ inr c ],
)

latest-IsLatest :
    (P : Window → Type 0) (best : Option Window) (ws : List Window)
    → IsLatest P best
    → IsLatest (λ v. P v ⊎ (v ∈ ws)) (latest best ws)
unfolding latest
latest-IsLatest P best [] h =
    IsLatest-iff P (λ v. P v ⊎ (v ∈ [])) best
      (λ v. (λ p. inl p, λ m. elim m [ inl p ↦ p | inr n ↦ absurd n ])) h
latest-IsLatest P best (w ∷ ws) h =
    IsLatest-iff (λ v. (P v ⊎ (v ≡ w)) ⊎ (v ∈ ws)) (λ v. P v ⊎ (v ∈ (w ∷ ws)))
      (latest (better best w) ws) (λ v. ⊎_assoc)
      (latest-IsLatest (λ v. P v ⊎ (v ≡ w)) (better best w) ws (better-IsLatest P best w h))

module _ (c : Calendar) where
  -- A window of an enabled block of the list that contains the instant.
  abbrev pub IsOpen : List ScheduleBlock → ℕ → Window → Type 0
  IsOpen bs t w = (b : ScheduleBlock) × (b ∈ bs) × (b.enabled ≡ true) × (w ∈ windows_at c b t)

  IsOpen-cons :
      (b : ScheduleBlock) (bs : List ScheduleBlock) (t : ℕ) (v : Window)
      → IsOpen (b ∷ bs) t v ↔ (((b.enabled ≡ true) × (v ∈ windows_at c b t)) ⊎ IsOpen bs t v)
  IsOpen-cons b bs t v = (
    λ (b', place, on, m). elim place [
      | inl e ↦ inl (subst (λ x. x.enabled ≡ true) e on, subst (λ x. v ∈ windows_at c x t) e m)
      | inr later ↦ inr (b', later, on, m)
    ],
    λ h. elim h [
      | inl (on, m) ↦ (b, inl refl, on, m)
      | inr (b', later, on, m) ↦ (b', inr later, on, m)
    ],
  )

  active_from-cons :
      (best : Option Window) (b : ScheduleBlock) (bs : List ScheduleBlock) (t : ℕ) (on : Bool)
      → b.enabled ≡ on
      → active_from c best (b ∷ bs) t
        ≡ active_from c (if not on then best else latest best (windows_at c b t)) bs t
  unfolding active_from
  active_from-cons best b bs t on e =
      ap (λ (x : Bool). active_from c (if not x then best else latest best (windows_at c b t)) bs t)
        e

  active_from-IsLatest :
      (P : Window → Type 0) (best : Option Window) (bs : List ScheduleBlock) (t : ℕ)
      → IsLatest P best
      → IsLatest (λ v. P v ⊎ IsOpen bs t v) (active_from c best bs t)
  unfolding active_from
  active_from-IsLatest P best [] t h =
      IsLatest-iff P (λ v. P v ⊎ IsOpen [] t v) best
        (λ v. (λ p. inl p, λ m. elim m [ inl p ↦ p | inr (b, n, on, m) ↦ absurd n ])) h
  active_from-IsLatest P best (b ∷ bs) t h = elim (Bool-cases b.enabled) [
    | inl on ↦ rw (active_from-cons best b bs t true on) (
        IsLatest-iff (λ v. (P v ⊎ (v ∈ windows_at c b t)) ⊎ IsOpen bs t v)
          (λ v. P v ⊎ IsOpen (b ∷ bs) t v) (active_from c (latest best (windows_at c b t)) bs t)
          (λ v. (
            λ m. elim m [
              | inl (inl p) ↦ inl p
              | inl (inr w) ↦ inr ((IsOpen-cons b bs t v).1 (inl (on, w)))
              | inr o ↦ inr ((IsOpen-cons b bs t v).1 (inr o))
            ],
            λ m. elim m [
              | inl p ↦ inl (inl p)
              | inr o ↦ elim ((IsOpen-cons b bs t v).0 o) [
                | inl (_, w) ↦ inl (inr w)
                | inr o' ↦ inr o'
              ]
            ],
          ))
          (active_from-IsLatest (λ v. P v ⊎ (v ∈ windows_at c b t)) (latest best (windows_at c b t))
            bs t (latest-IsLatest P best (windows_at c b t) h)))
    | inr off ↦ rw (active_from-cons best b bs t false off) (
        IsLatest-iff (λ v. P v ⊎ IsOpen bs t v) (λ v. P v ⊎ IsOpen (b ∷ bs) t v)
          (active_from c best bs t)
          (λ v. (
            λ m. elim m [ inl p ↦ inl p | inr o ↦ inr ((IsOpen-cons b bs t v).1 (inr o)) ],
            λ m. elim m [
              | inl p ↦ inl p
              | inr o ↦ elim ((IsOpen-cons b bs t v).0 o) [
                | inl (on, w) ↦ absurd (cc (on, off))
                | inr o' ↦ inr o'
              ]
            ],
          ))
          (active_from-IsLatest P best bs t h))
  ]

  -- `activeWindow` finds nothing exactly when no enabled block has a window that contains the
  -- instant; what it finds is such a window, and no other one ends later.
  pub active_window-IsLatest :
      (s : Schedule) (t : ℕ) → IsLatest (IsOpen s.blocks t) (active_window c s t)
  unfolding active_window
  active_window-IsLatest s t =
      IsLatest-iff (λ v. ⊥ ⊎ IsOpen s.blocks t v) (IsOpen s.blocks t)
        (active_from c none s.blocks t)
        (λ v. (λ m. elim m [ inl n ↦ absurd n | inr o ↦ o ], λ o. inr o))
        (active_from-IsLatest (λ v. ⊥) none s.blocks t (λ v n. n))

  -- A scheduled occurrence of an enabled block, of any day, that contains the instant.
  abbrev pub IsDue : IsFixedZone c → Schedule → ℕ → Window → Type 0
  IsDue z s t w =
      (b : ScheduleBlock) × (b ∈ s.blocks)
      × (b.enabled ≡ true)
      × ((n : ℕ) × OccursOn c z b n w × (w.start ≤ t) × (t < w.end))

  -- In a location without zone transitions, from the second day of the calendar on,
  -- `activeWindow` finds nothing exactly when no occurrence of an enabled block contains the
  -- instant. What it finds is such an occurrence, and no other one ends later.
  pub active_window-IsDue :
      (z : IsFixedZone c) (s : Schedule) (t : ℕ)
      → z.midnight 1 ≤ t
      → IsLatest (IsDue z s t) (active_window c s t)
  active_window-IsDue z s t h =
      IsLatest-iff (IsOpen s.blocks t) (IsDue z s t) (active_window c s t)
        (λ v. (
          λ (b, place, on, m). (b, place, on, (windows_at-OccursOn c z b t v h).0 m),
          λ (b, place, on, o). (b, place, on, (windows_at-OccursOn c z b t v h).1 o),
        ))
        (active_window-IsLatest s t)
