-- ===== src/History/Entries.antt =====
-- What holds of every entry that the tracker appends, on any observations and from any state.
use kblocker.Base.{
  ◌≢◌, ◌↔◌, ◌≡◌, refl, ◌⊎◌, inl, inr, true, List, [], ◌∷◌, ◌++◌, arith, All, ◌∈◌, Bool-cases,
  Option-cases,
}
use kblocker.Base.Int.{ℤ, pos, negsuc, eqb_ℤ, ◌≤ℤ◌, ltb_ℤ}
use kblocker.History.{
  completed, unlocked, interrupted, HistoryEntry, Tracker, Observation, closed, close_actions,
  observe, observe_all,
}
use kblocker.History.Blocks.{
  appended, appended-append, IsOff, observe-on, observe-off, observe-idle, observe-unloaded,
  observe_on-appended, close_actions-appended,
}

-- How an appended entry ended: by its timer, or at the tick `o` that saw it over.
abbrev pub HasEnded : List Observation → HistoryEntry → Type 0
HasEnded os e =
    (ltb_ℤ e.start e.end ≡ true)
    × (((e.outcome ≡ completed) × (e.end ≡ e.planned_end))
        ⊎ (((e.outcome ≡ unlocked) ⊎ (e.outcome ≡ interrupted))
            × ((o : Observation) × (o ∈ os) × IsOff o × (e.end ≡ o.now))))

closed_cases :
    (r now : ℤ) (e : HistoryEntry)
    → (((closed r now e).outcome ≡ completed)
        × ((closed r now e).end ≡ (closed r now e).planned_end))
      ⊎ ((((closed r now e).outcome ≡ unlocked) ⊎ ((closed r now e).outcome ≡ interrupted))
          × ((closed r now e).end ≡ now))
unfolding closed
closed_cases r now e = ground arith

HasEnded-cons :
    (o : Observation) (os : List Observation) (e : HistoryEntry)
    → HasEnded os e
    → HasEnded (o ∷ os) e
HasEnded-cons o os e (lt, inl timer) = (lt, inl timer)
HasEnded-cons o os e (lt, inr (how, (p, m, off, at_tick))) =
    (lt, inr (how, (p, inr m, off, at_tick)))

All-HasEnded-cons :
    (o : Observation) (os : List Observation) (es : List HistoryEntry)
    → All (HasEnded os) es
    → All (HasEnded (o ∷ os)) es
All-HasEnded-cons o os [] h = tt
All-HasEnded-cons o os (e ∷ es) h = (HasEnded-cons o os e h.0, All-HasEnded-cons o os es h.1)

All-append :
    (P : HistoryEntry → Type 0) (xs ys : List HistoryEntry) → All P xs → All P ys → All P (xs ++ ys)
All-append P [] ys hx hy = hy
All-append P (x ∷ xs) ys hx hy = (hx.0, All-append P xs ys hx.1 hy)

closed-HasEnded :
    (o : Observation) (os : List Observation) (r : ℤ) (e : HistoryEntry)
    → IsOff o
    → All (HasEnded (o ∷ os)) (appended (close_actions (closed r o.now e)))
closed-HasEnded o os r e off =
    let e' = closed r o.now e in
    rw (close_actions-appended e') (elim (Bool-cases (ltb_ℤ e'.start e'.end)) [
      | inl lt ↦ rw lt (
        (
          lt,
          elim (closed_cases r o.now e) [
            | inl timer ↦ inl timer
            | inr (how, at_tick) ↦ inr (how, (o, inl refl, off, at_tick))
          ],
        ),
        tt,
      )
      | inr ge ↦ rw ge tt
    ])

observe-HasEnded :
    (o : Observation) (os : List Observation) (t : Tracker)
    → All (HasEnded (o ∷ os)) (appended (observe o t).1)
observe-HasEnded o os t = elim (Bool-cases o.module_state.loaded) [
  | inr unloaded ↦ rw (observe-unloaded o t unloaded) tt
  | inl loaded ↦ elim (Bool-cases o.module_state.enabled) [
    | inl on ↦ rw (observe-on o t loaded on, observe_on-appended o t) tt
    | inr off ↦ elim (Option-cases t.current) [
      | inl idle ↦ rw (observe-idle o t (loaded, off) idle) tt
      | inr (e, current) ↦
          rw (observe-off o t e (loaded, off) current)
            (closed-HasEnded o os t.last_remaining e (loaded, off))
    ]
  ]
]

-- Every entry that is ever appended ended after its start. Either it is `completed` and ends
-- as planned, or it is `unlocked` or `interrupted` and ends at a tick of the run that saw the
-- module loaded and blocking off.
pub appended-HasEnded :
    (os : List Observation) (t : Tracker) → All (HasEnded os) (appended (observe_all os t).1)
unfolding observe_all
appended-HasEnded [] t = tt
appended-HasEnded (o ∷ os) t =
    let t' = (observe o t).0 in
    rw (appended-append (observe o t).1 (observe_all os t').1) (
      All-append (HasEnded (o ∷ os)) (appended (observe o t).1) (appended (observe_all os t').1)
        (observe-HasEnded o os t)
        (All-HasEnded-cons o os (appended (observe_all os t').1) (appended-HasEnded os t')))

eqb_ℤ_iff : (a : ℤ) → (eqb_ℤ a (pos 0) ≡ true) ↔ (a ≡ pos 0)
eqb_ℤ_iff (pos n) = ground arith
eqb_ℤ_iff (negsuc n) = (λ h. absurd (ground (arith, h)), λ h. absurd (ground (arith, h)))

ltb_ℤ_iff : (a b : ℤ) → (ltb_ℤ a b ≡ true) ↔ (¬ (b ≤ℤ a))
ltb_ℤ_iff a b = (λ h le. absurd (ground (arith, h, le)), λ h. ground (arith, h))

-- How a block is judged that was last seen with `r` seconds remaining and is seen over at `now`:
-- `unlocked` if more than 10 seconds remained, `interrupted` if none did and its planned end has
-- not come, and `completed` otherwise.
pub closed_lem :
    (r now : ℤ) (e : HistoryEntry)
    → (((closed r now e).outcome ≡ unlocked) ↔ (¬ (r ≤ℤ pos 10)))
      × (((closed r now e).outcome ≡ interrupted) ↔ ((r ≡ pos 0) × (¬ (e.planned_end ≤ℤ now))))
      × (((closed r now e).outcome ≡ completed)
          ↔ ((r ≤ℤ pos 10) × ((r ≢ pos 0) ⊎ (e.planned_end ≤ℤ now))))
unfolding closed
closed_lem r now e = ground (arith, eqb_ℤ_iff r, ltb_ℤ_iff now e.planned_end, ltb_ℤ_iff (pos 10) r)
