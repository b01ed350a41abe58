-- ===== src/Tests/HistoryTests.antt =====
-- A block that the tracker sees begin and end, and the theorems applied to it.
use kblocker.Base.{◌↔◌, ◌≢◌, ◌⊎◌, ◌≡◌, refl, none, true, false, [], ◌∷◌, ◌++◌, lit, if◌then◌else◌}
use kblocker.Base.Int.{◌≤ℤ◌, pos, ltb_ℤ}
use kblocker.History.{
  HistoryEntry, completed, unlocked, interrupted, in_progress, ModuleState, Observation, Tracker,
  closed, observe_all,
}
use kblocker.History.Blocks.{appended, last_on, name_of, seen_entry, block_appended}
use kblocker.History.Entries.{closed_lem}

abbrev fresh_tracker : Tracker
fresh_tracker = record { current = none; last_remaining = pos 0; last_saved = pos 0 }

abbrev running : ModuleState
running = record { loaded = true; enabled = true; remaining = pos 60; pgp = true }

abbrev begun : Observation
begun = record { now = pos 1000; module_state = running; started_by = lit "Work" }

abbrev goes_on : Observation
goes_on = record {
  now = pos 1055;
  module_state = record running { remaining = pos 5 };
  started_by = [];
}

abbrev over : Observation
over = record {
  now = pos 1061;
  module_state = record running { enabled = false; remaining = pos 0 };
  started_by = [];
}

block_appended_example :
    ((observe_all (begun ∷ (goes_on ∷ []) ++ (over ∷ [])) fresh_tracker).0.current ≡ none)
    × (appended (observe_all (begun ∷ (goes_on ∷ []) ++ (over ∷ [])) fresh_tracker).1 ≡ (
        let l = last_on begun (goes_on ∷ []) in
        let name = name_of begun.started_by begun.now (goes_on ∷ []) in
        let e =
          closed l.module_state.remaining over.now
            (seen_entry begun.now begun.module_state.pgp name l) in
        if ltb_ℤ e.start e.end then e ∷ [] else []))
block_appended_example =
    block_appended begun (goes_on ∷ []) over fresh_tracker refl refl (λ _. refl, tt) (refl, refl)

abbrev locked_entry : HistoryEntry
locked_entry = record {
  start = pos 1000;
  end = pos 0;
  planned_end = pos 1060;
  locked = true;
  scheduled = lit "Work";
  outcome = in_progress;
}

closed_example :
    (((closed (pos 0) (pos 1030) locked_entry).outcome ≡ unlocked) ↔ (¬ (pos 0 ≤ℤ pos 10)))
    × (((closed (pos 0) (pos 1030) locked_entry).outcome ≡ interrupted)
        ↔ ((pos 0 ≡ pos 0) × (¬ (locked_entry.planned_end ≤ℤ pos 1030))))
    × (((closed (pos 0) (pos 1030) locked_entry).outcome ≡ completed)
        ↔ ((pos 0 ≤ℤ pos 10) × ((pos 0 ≢ pos 0) ⊎ (locked_entry.planned_end ≤ℤ pos 1030))))
closed_example = closed_lem (pos 0) (pos 1030) locked_entry
