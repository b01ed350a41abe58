-- ===== src/History/Blocks.antt =====
-- What the tracker appends for a block that it sees from its first tick to its end.
mod Ongoing
pub use Ongoing.{
  appended, appended-append, is_on, IsSeen, KeepsOn, last_on, name_of, seen_entry, Follows,
  observe-on, observe-unloaded, observe_on-appended, observe_on-Follows, name_rule, renamed,
  opened-some, first-Follows, next-Follows,
}
use mathlib.Core.Path.{subst}
use mathlib.Core.List.{append-nil, append_assoc}
use kblocker.Base.{
  ◌≡◌, refl, sym, ap, ◌∙◌, Bool, true, false, not, ◌&&◌, Option, none, some, List, [], ◌∷◌, ◌++◌,
  arith, All, Text, is_empty, if◌then◌else◌, Bool-cases, inl, inr,
}
use kblocker.Base.Int.{ℤ, pos, ltb_ℤ, add64, sub64}
use kblocker.History.{
  in_progress, HistoryEntry, Tracker, Action, append_entry, save_open, remove_open, Observation,
  opened, saved_before, observe_on, observe_off, closed, close_actions, observe, observe_all,
}

-- The observation that ends a block.
abbrev pub IsOff : Observation → Type 0
IsOff o = (o.module_state.loaded ≡ true) × (o.module_state.enabled ≡ false)

pub observe-off :
    (o : Observation) (t : Tracker) (e : HistoryEntry)
    → IsOff o
    → t.current ≡ some e
    → observe o t ≡ (
      record t { current = none; last_remaining = pos 0 },
      close_actions (closed t.last_remaining o.now e),
    )
unfolding observe observe_off
observe-off o t e h current = ground arith

pub observe-idle :
    (o : Observation) (t : Tracker) → IsOff o → t.current ≡ none → observe o t ≡ (t, [])
unfolding observe observe_off
observe-idle o t h idle = ground arith

pub close_actions-appended :
    (e : HistoryEntry) → appended (close_actions e) ≡ (if ltb_ℤ e.start e.end then e ∷ [] else [])
unfolding close_actions
close_actions-appended e = elim (Bool-cases (ltb_ℤ e.start e.end)) [
  | inl lt ↦ rw lt
  | inr ge ↦ rw ge
]

off-Follows :
    (start : ℤ) (locked : Bool) (name : Text) (l o : Observation) (t : Tracker)
    → IsOff o
    → Follows start locked name l t
    → ((observe o t).0.current ≡ none)
      × (appended (observe o t).1 ≡ (
          let e = closed l.module_state.remaining o.now (seen_entry start locked name l) in
          if ltb_ℤ e.start e.end then e ∷ [] else []))
off-Follows start locked name l o t off f =
    let e = seen_entry start locked name l in
    rw (observe-off o t e off f.current_is) (
      refl,
      close_actions-appended (closed t.last_remaining o.now e)
          ∙ ap
              (λ (r : ℤ).
                let e' = closed r o.now e in if ltb_ℤ e'.start e'.end then e' ∷ [] else [])
              f.remaining_is,
    )

rest-Follows :
    (rest : List Observation) (start : ℤ) (locked : Bool) (name : Text) (l : Observation)
    (t : Tracker)
    → All KeepsOn rest
    → Follows start locked name l t
    → Follows start locked (name_of name start rest) (last_on l rest) (observe_all rest t).0
      × (appended (observe_all rest t).1 ≡ [])
unfolding observe_all
rest-Follows [] start locked name l t keeps f = (f, refl)
rest-Follows (o ∷ os) start locked name l t keeps f =
    let (next, quiet) = next-Follows start locked name l o t keeps.0 f in
    let (later, more) = rest-Follows os start locked _ _ (observe o t).0 keeps.1 next in
    (later, appended-append (observe o t).1 (observe_all os (observe o t).0).1 ∙ rw (quiet, more))

observe_all-append :
    (os ps : List Observation) (t : Tracker)
    → (observe_all (os ++ ps) t).0 ≡ (observe_all ps (observe_all os t).0).0
unfolding observe_all
observe_all-append [] ps t = refl
observe_all-append (o ∷ os) ps t = observe_all-append os ps (observe o t).0

appended-observe_all :
    (os ps : List Observation) (t : Tracker)
    → appended (observe_all (os ++ ps) t).1
      ≡ appended (observe_all os t).1 ++ appended (observe_all ps (observe_all os t).0).1
unfolding observe_all
appended-observe_all [] ps t = refl
appended-observe_all (o ∷ os) ps t =
    let t' = (observe o t).0 in
    rw (
      appended-append (observe o t).1 (observe_all (os ++ ps) t').1,
      appended-append (observe o t).1 (observe_all os t').1,
      appended-observe_all os ps t',
      append_assoc (appended (observe o t).1) (appended (observe_all os t').1) _,
    )

-- A tracker with no block in progress that sees a block begin, then any number of ticks at which
-- the block goes on or the module is not loaded, and then its end, has no block in progress, and
-- appends at most one entry: that of the block, with the time and the lock of the first tick, the
-- first name reported within a minute, and the end and outcome that the last tick of the block
-- and the final one determine. Nothing is appended if that end is not after the start.
pub block_appended :
    (first : Observation) (rest : List Observation) (last : Observation) (t : Tracker)
    → t.current ≡ none
    → is_on first ≡ true
    → All KeepsOn rest
    → IsOff last
    → ((observe_all (first ∷ rest ++ (last ∷ [])) t).0.current ≡ none)
      × (appended (observe_all (first ∷ rest ++ (last ∷ [])) t).1 ≡ (
          let l = last_on first rest in
          let name = name_of first.started_by first.now rest in
          let e =
            closed l.module_state.remaining last.now
              (seen_entry first.now first.module_state.pgp name l) in
          if ltb_ℤ e.start e.end then e ∷ [] else []))
unfolding observe_all
block_appended first rest last t idle on keeps off =
    let seen : IsSeen first = ground arith in
    let t1 = (observe first t).0 in
    let (f1, quiet1) = first-Follows first t seen.0 seen.1 idle in
    let (f2, quiet2) =
      rest-Follows rest first.now first.module_state.pgp first.started_by first t1 keeps f1 in
    let t2 = (observe_all rest t1).0 in
    let name = name_of first.started_by first.now rest in
    let (idle', added) =
      off-Follows first.now first.module_state.pgp name (last_on first rest) last t2 off f2 in
    (
      ap (λ (u : Tracker). u.current) (observe_all-append rest (last ∷ []) t1) ∙ idle',
      appended-append (observe first t).1 (observe_all (rest ++ (last ∷ [])) t1).1
          ∙ ap (λ es. es ++ appended (observe_all (rest ++ (last ∷ [])) t1).1) quiet1
          ∙ appended-observe_all rest (last ∷ []) t1
          ∙ ap (λ es. es ++ appended (observe_all (last ∷ []) t2).1) quiet2
          ∙ ap appended (append-nil (observe last t2).1)
          ∙ added,
    )
