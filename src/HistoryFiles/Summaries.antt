-- ===== src/HistoryFiles/Summaries.antt =====
-- The summary of the history command.
use native.Mathlib.Nat.{le-div_iff_mul-le}
use kblocker.Base.{
  ℕ, zero, suc, ◌-◌, ◌*◌, ◌/◌, ◌≤◌, ◌<◌, ◌≡◌, refl, ap, ◌↔◌, true, some, List, [], ◌∷◌, ◌++◌, arith,
  All, length, take, drop, lt_or_le, inl, inr,
}
use kblocker.History.{HistoryEntry}
use kblocker.HistoryFiles.{Summary, is_completed, count_completed, summarize}

take-drop : (n : ℕ) (es : List HistoryEntry) → take n es ++ drop n es ≡ es
take-drop zero es = refl
take-drop (suc n) [] = refl
take-drop (suc n) (e ∷ es) = ap (λ x. e ∷ x) (take-drop n es)

length-drop : (n : ℕ) (es : List HistoryEntry) → length (drop n es) ≡ length es - n
length-drop zero es = omega arith
length-drop (suc n) [] = omega arith
length-drop (suc n) (e ∷ es) = omega (arith, length-drop n es)

count_completed_le : (es : List HistoryEntry) → count_completed es ≤ length es
unfolding count_completed
count_completed_le [] = omega arith
count_completed_le (e ∷ es) = ground (arith, count_completed_le es)

count_completed-All :
    (es : List HistoryEntry)
    → (length es ≤ count_completed es) ↔ All (λ e. is_completed e ≡ true) es
unfolding count_completed
count_completed-All [] = (λ _. tt, λ _. omega arith)
count_completed-All (e ∷ es) = ground (arith, count_completed-All es, count_completed_le es)

percent_bounds : (c n : ℕ) → 0 < n → c ≤ n → (c * 100 / n ≤ 100) × ((100 ≤ c * 100 / n) ↔ (n ≤ c))
percent_bounds c n pos_n le =
    let over = le-div_iff_mul-le {k = n} {x = 101} {y = c * 100} pos_n in
    let full = le-div_iff_mul-le {k = n} {x = 100} {y = c * 100} pos_n in
    let le_100 : c * 100 / n ≤ 100 = elim (lt_or_le 100 (c * 100 / n)) [
      | inl lt ↦ absurd (let many = over.0 (omega arith) in omega arith)
      | inr small ↦ small
    ] in
    (le_100, (λ h. omega (arith, full.0 h), λ h. full.1 (omega arith)))

-- What a summary says of the entries.
pub record IsSummary (es : List HistoryEntry) (sm : Summary) : Type 0 where
  pub counts : sm.blocks ≡ length es
  pub older : List HistoryEntry
  pub last_entries : older ++ sm.shown ≡ es
  pub at_most_twenty : length sm.shown ≤ 20
  pub percent_le : sm.percent ≤ 100
  pub percent_full : (100 ≤ sm.percent) ↔ All (λ e. is_completed e ≡ true) es

-- The summary of at least one entry counts the entries, shows at most 20 that are the last ones in
-- their order, and gives a percentage of at most 100, which is 100 exactly when every entry ran to
-- its end.
pub summarize-IsSummary :
    (e : HistoryEntry) (es : List HistoryEntry)
    → (sm : Summary) × (summarize (e ∷ es) ≡ some sm) × IsSummary (e ∷ es) sm
unfolding summarize
summarize-IsSummary e es =
    let every = e ∷ es in
    let bounds =
      percent_bounds (count_completed every) (length every) (omega arith)
        (count_completed_le every) in
    let full = count_completed-All every in
    (
      _,
      refl,
      record {
        counts = refl;
        older = take (length every - 20) every;
        last_entries = take-drop (length every - 20) every;
        at_most_twenty = omega (arith, length-drop (length every - 20) every);
        percent_le = bounds.0;
        percent_full = (λ h. full.0 (bounds.1.0 h), λ h. bounds.1.1 (full.1 h));
      },
    )
