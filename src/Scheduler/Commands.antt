-- ===== src/Scheduler/Commands.antt =====
-- The schedule command: when it refuses to write, and what it writes.
use kblocker.Base.{
  ◌≡◌, ◌⊎◌, ◌≢◌, inl, inr, ◌++◌, true, some, List, ◌∷◌, arith, Text, lit, text_eq_iff, Option-cases,
}
use kblocker.Schedule.{Schedule, validate}
use kblocker.Schedule.Validation.{IsValid, validate-IsValid}
use kblocker.System.{Os, ok, done, exit, Prog, ◌>>◌, Reply-cases}
use kblocker.System.Laws.{IsWritable}
use kblocker.Cli.{requires_root}
use kblocker.Domains.Guards.{requires_root-exit}
use kblocker.Scheduler.{
  Codec, schedule_file, read_schedule, write_schedule, blocking_enabled,
  require_disabled_for_schedule, read_input, save_schedule, do_schedule_set, do_schedule_clear,
}

module _ (O : Os) (codec : Codec) where
  open O use {State, euid, read_file}

  schedule_guard-exit :
      (k : Prog State (Unit {0})) (s : State)
      → blocking_enabled O codec s ≡ true
      → (requires_root O >> (require_disabled_for_schedule O codec >> k)) s ≡ exit 1 s
  unfolding requires_root require_disabled_for_schedule
  schedule_guard-exit k s on = ground (arith, on)

  -- Without root, or while blocking is on, neither `schedule set` nor `schedule clear` does
  -- anything: both end in status 1 in the state they started in.
  pub schedule_refused :
      (args : List Text) (s : State)
      → (euid s ≢ 0) ⊎ (blocking_enabled O codec s ≡ true)
      → (do_schedule_set O codec args s ≡ exit 1 s) × (do_schedule_clear O codec s ≡ exit 1 s)
  unfolding do_schedule_set do_schedule_clear
  schedule_refused args s (inl h) =
      (requires_root-exit O (Unit {0}) _ s h, requires_root-exit O (Unit {0}) _ s h)
  schedule_refused args s (inr h) = (schedule_guard-exit _ s h, schedule_guard-exit _ s h)

  -- How the end of `schedule set` goes on a text.
  abbrev pub IsSaved : Text → State → State → Type 0
  IsSaved raw s s' =
      (sched : Schedule) × (codec.decode raw ≡ some sched)
      × IsValid sched
      × (write_schedule O codec sched s ≡ done true s')

  save_schedule-IsSaved :
      (raw : Text) (s s' : State) → save_schedule O codec raw s ≡ done tt s' → IsSaved raw s s'
  unfolding save_schedule
  save_schedule-IsSaved raw s s' h = elim (Option-cases (codec.decode raw)) [
    | inl p ↦ absurd (ground (arith, p))
    | inr (sched, p) ↦ elim (Option-cases (validate sched)) [
      | inr (e, q) ↦ absurd (ground (arith, p, q))
      | inl q ↦ (sched, p, (validate-IsValid sched).0 q, ground (arith, p, q))
    ]
  ]

  -- `schedule set` with a file that comes to its end has read that file, found a schedule in it
  -- that is well formed, and written that schedule.
  pub do_schedule_set-IsSaved :
      (path : Text) (args : List Text) (s s' : State)
      → path ≢ lit "-"
      → do_schedule_set O codec (path ∷ args) s ≡ done tt s'
      → (raw : Text) × (read_file s path ≡ ok raw) × IsSaved raw s s'
  unfolding do_schedule_set requires_root require_disabled_for_schedule read_input
  do_schedule_set-IsSaved path args s s' named h = elim (Reply-cases (read_file s path)) [
    | inl (e, p) ↦ absurd (ground (arith, p, text_eq_iff path (lit "-")))
    | inr (raw, p) ↦
        (raw, p, save_schedule-IsSaved raw s s' (ground (arith, p, text_eq_iff path (lit "-"))))
  ]

-- A rename replaces the new name's file by the old one's.
pub record IsRenamed (O : Os) (from to : Text) : Type 0 where
  pub rename-read :
      (s : O.State)
      → (O.rename from to s).0 ≡ ok tt
      → O.read_file (O.rename from to s).1 to ≡ O.read_file s from

module _ (O : Os) (codec : Codec) where
  open O use {State, read_file}

  -- A schedule that was written is the one that is read afterwards, for a codec that reads what
  -- it writes and files that behave as files.
  pub read_schedule-write_schedule :
      (sched : Schedule) (s s' : State)
      → ((x : Schedule) (text : Text) → codec.encode x ≡ some text → codec.decode text ≡ some x)
      → IsWritable O (schedule_file ++ lit ".tmp")
      → IsRenamed O (schedule_file ++ lit ".tmp") schedule_file
      → write_schedule O codec sched s ≡ done true s'
      → read_schedule O codec s' ≡ some sched
  unfolding write_schedule read_schedule
  read_schedule-write_schedule sched s s' round_trip writable renamed h =
      elim (Option-cases (codec.encode sched)) [
        | inl p ↦ absurd (ground (arith, p))
        | inr (text, p) ↦
            let tmp = schedule_file ++ lit ".tmp" in
            let made = (O.mkdir_all (lit "/etc/kblocker") s).1 in
            let written = O.write_file tmp text made in
            elim (Reply-cases written.0) [
              | inl (e, q) ↦ absurd (ground (arith, p, q))
              | inr (_, q) ↦ elim (Reply-cases (O.rename tmp schedule_file written.1).0) [
                | inl (e, r) ↦ absurd (ground (arith, p, q, r))
                | inr (_, r) ↦ ground (
                  arith,
                  p,
                  q,
                  r,
                  round_trip sched text p,
                  writable.read-write text made,
                  renamed.rename-read written.1 r,
                )
              ]
            ]
      ]
