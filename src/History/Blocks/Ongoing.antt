-- ===== src/History/Blocks/Ongoing.antt =====
-- The tracker while a block goes on.
use mathlib.Core.Path.{subst}
use kblocker.Base.{
  ◌≡◌, refl, sym, ap, ◌∙◌, Bool, true, false, not, ◌&&◌, Option, none, some, List, [], ◌∷◌, ◌++◌,
  arith, Text, is_empty, if◌then◌else◌, Bool-cases, inl, inr,
}
use kblocker.Base.Int.{ℤ, pos, ltb_ℤ, add64, sub64}
use kblocker.History.{
  in_progress, HistoryEntry, Tracker, Action, append_entry, save_open, remove_open, Observation,
  opened, saved_before, observe_on, observe,
}

-- The entries that a list of actions appends to the history file.
abbrev pub appended : List Action → List HistoryEntry
appended [] = []
appended (append_entry e ∷ as') = e ∷ appended as'
appended (save_open e ∷ as') = appended as'
appended (remove_open ∷ as') = appended as'

pub appended-append : (as' bs : List Action) → appended (as' ++ bs) ≡ appended as' ++ appended bs
appended-append [] bs = refl
appended-append (append_entry e ∷ as') bs = ap (λ es. e ∷ es) (appended-append as' bs)
appended-append (save_open e ∷ as') bs = appended-append as' bs
appended-append (remove_open ∷ as') bs = appended-append as' bs

-- An observation of a block in progress; one made while the module was not loaded.
abbrev pub is_on : Observation → Bool
is_on o = o.module_state.loaded && o.module_state.enabled

abbrev pub IsSeen : Observation → Type 0
IsSeen o = (o.module_state.loaded ≡ true) × (o.module_state.enabled ≡ true)

abbrev pub KeepsOn : Observation → Type 0
KeepsOn o = o.module_state.loaded ≡ true → o.module_state.enabled ≡ true

abbrev pub last_on : Observation → List Observation → Observation
last_on l [] = l
last_on l (o ∷ os) = last_on (if is_on o then o else l) os

-- The name of a block: the first that the daemon reports in the first minute.
abbrev pub name_of : Text → ℤ → List Observation → Text
name_of n start [] = n
name_of n start (o ∷ os) =
    name_of
      (if is_on o && (is_empty n && ltb_ℤ (sub64 o.now start) (pos 60)) then o.started_by else n)
      start os

-- The entry in progress after the observations of a block.
abbrev pub seen_entry : ℤ → Bool → Text → Observation → HistoryEntry
seen_entry start locked name l = record {
  start = start;
  end = pos 0;
  planned_end = add64 l.now l.module_state.remaining;
  locked = locked;
  scheduled = name;
  outcome = in_progress;
}

pub record Follows (start : ℤ) (locked : Bool) (name : Text) (l : Observation) (t : Tracker)
    : Type 0 where
  pub current_is : t.current ≡ some (seen_entry start locked name l)
  pub remaining_is : t.last_remaining ≡ l.module_state.remaining

pub observe-on :
    (o : Observation) (t : Tracker)
    → o.module_state.loaded ≡ true
    → o.module_state.enabled ≡ true
    → observe o t ≡ observe_on o t
unfolding observe
observe-on o t loaded on = ground arith

pub observe-unloaded :
    (o : Observation) (t : Tracker) → o.module_state.loaded ≡ false → observe o t ≡ (t, [])
unfolding observe
observe-unloaded o t unloaded = ground arith

pub observe_on-appended : (o : Observation) (t : Tracker) → appended (observe_on o t).1 ≡ []
unfolding observe_on
observe_on-appended o t = elim (Bool-cases (not (ltb_ℤ (sub64 o.now (saved_before t)) (pos 60)))) [
  | inl due ↦ rw due
  | inr early ↦ rw early
]

pub observe_on-Follows :
    (o : Observation) (t : Tracker) (start : ℤ) (locked : Bool) (name : Text)
    → record (opened o t.current) { planned_end = add64 o.now o.module_state.remaining }
      ≡ seen_entry start locked name o
    → Follows start locked name o (observe_on o t).0
unfolding observe_on
observe_on-Follows o t start locked name e = record { current_is = ap some e; remaining_is = refl }

-- The daemon reports no name by an empty one.
pub name_rule :
    (name by : Text) (p : Bool)
    → (if is_empty name && (not (is_empty by) && p) then by else name)
      ≡ (if is_empty name && p then by else name)
name_rule [] [] true = refl
name_rule [] [] false = refl
name_rule [] (c ∷ s) p = refl
name_rule (c ∷ s) by p = refl

pub renamed :
    (start planned : ℤ) (locked b : Bool) (name by : Text) (l : Observation)
    → record (if b
        then record (seen_entry start locked name l) { scheduled = by }
        else seen_entry start locked name l) { planned_end = planned }
      ≡ record (seen_entry start locked (if b then by else name) l) { planned_end = planned }
renamed start planned locked true name by l = refl
renamed start planned locked false name by l = refl

pub opened-some :
    (o : Observation) (start : ℤ) (locked : Bool) (name : Text) (l : Observation)
    → is_on o ≡ true
    → record (opened o (some (seen_entry start locked name l))) {
      planned_end = add64 o.now o.module_state.remaining;
    }
      ≡ seen_entry start locked
          (if is_on o && (is_empty name && ltb_ℤ (sub64 o.now start) (pos 60))
            then o.started_by
            else name)
          o
unfolding opened
opened-some o start locked name l on =
    let p = ltb_ℤ (sub64 o.now start) (pos 60) in
    let planned = add64 o.now o.module_state.remaining in
    renamed start planned locked (is_empty name && (not (is_empty o.started_by) && p)) name
      o.started_by l
    ∙ ap (λ n. seen_entry start locked n o)
        (name_rule name o.started_by p
          ∙ ap (λ (b : Bool). if b && (is_empty name && p) then o.started_by else name) (sym on))

pub first-Follows :
    (o : Observation) (t : Tracker)
    → o.module_state.loaded ≡ true
    → o.module_state.enabled ≡ true
    → t.current ≡ none
    → Follows o.now o.module_state.pgp o.started_by o (observe o t).0
      × (appended (observe o t).1 ≡ [])
unfolding opened
first-Follows o t loaded on idle = rw (observe-on o t loaded on) (
  observe_on-Follows o t o.now o.module_state.pgp o.started_by (
      ap
        (λ (x : Option HistoryEntry). record (opened o x) {
          planned_end = add64 o.now o.module_state.remaining;
        })
        idle),
  observe_on-appended o t,
)

-- An observation of a block in progress, or one made while the module was not loaded.
pub next-Follows :
    (start : ℤ) (locked : Bool) (name : Text) (l o : Observation) (t : Tracker)
    → KeepsOn o
    → Follows start locked name l t
    → Follows start locked
        (if is_on o && (is_empty name && ltb_ℤ (sub64 o.now start) (pos 60))
          then o.started_by
          else name)
        (if is_on o then o else l)
        (observe o t).0
      × (appended (observe o t).1 ≡ [])
next-Follows start locked name l o t keeps f = elim (Bool-cases o.module_state.loaded) [
  | inl loaded ↦
      let on : is_on o ≡ true = ground (arith, keeps loaded) in
      let name' =
        if is_on o && (is_empty name && ltb_ℤ (sub64 o.now start) (pos 60))
        then o.started_by
        else name in
      let entry =
        ap
          (λ (x : Option HistoryEntry). record (opened o x) {
            planned_end = add64 o.now o.module_state.remaining;
          })
          f.current_is
        ∙ opened-some o start locked name l on in
      rw (observe-on o t loaded (keeps loaded)) (
        subst (λ (b : Bool). Follows start locked name' (if b then o else l) (observe_on o t).0)
            (sym on) (observe_on-Follows o t start locked name' entry),
        observe_on-appended o t,
      )
  | inr unloaded ↦
      let off : is_on o ≡ false = ground arith in
      rw (observe-unloaded o t unloaded) (
        subst
            (λ (b : Bool).
              Follows start locked
                (if b && (is_empty name && ltb_ℤ (sub64 o.now start) (pos 60))
                  then o.started_by
                  else name)
                (if b then o else l) t)
            (sym off) f,
        refl,
      )
]
