-- ===== src/Tests/Locks.antt =====
-- Two runs that overlap: the first is in its loop over the destinations, the second brings the mirror up to date.
use loxbak.Base.{ℕ, ◌≡◌, refl, true, Option, none, some, [], ◌∷◌}
use loxbak.Base.Text.{Text}
use loxbak.Scheduler.Exclusion.{archives_own}
use loxbak.Scheduler.Locking.{
  waiting, syncing, synced, archiving, archived, storing, enter, mirror_ok, create, archive_ok,
  leave, State, step, Steps, here, next, idle, inside,
}
use loxbak.Scheduler.Unlocking.{same_name}

abbrev own_name : ℕ → Text
own_name i = i ∷ []

own_name-injective : (i j : ℕ) → own_name i ≡ own_name j → i ≡ j
own_name-injective i j e = cc

abbrev no_files : Text → Option (Option ℕ)
no_files f = none

record Course (name : ℕ → Text) : Type 0 where
  last : State name
  steps : Steps name (idle name no_files) last

abbrev first_stored : Course own_name
first_stored = record {
  last = _;
  steps =
      next
        (next
          (next
            (next
              (next (next here (step 0 waiting syncing _ refl (enter refl)))
                (step 0 syncing synced _ refl mirror_ok))
              (step 0 synced archiving _ refl create))
            (step 0 archiving archived _ refl archive_ok))
          (step 0 archived storing _ refl leave))
        (step 1 waiting syncing _ refl (enter refl));
}

archives_own_example :
    ((i j : ℕ)
      → inside own_name (first_stored.last.phase i) ≡ true
      → inside own_name (first_stored.last.phase j) ≡ true
      → i ≡ j)
    × ((i : ℕ)
        → first_stored.last.phase i ≡ storing
        → first_stored.last.shared.files (own_name i) ≡ some (some i))
archives_own_example = archives_own own_name own_name-injective no_files first_stored.steps

same_name_example :
    (s : State (λ i. [])) × Steps (λ i. []) (idle (λ i. []) no_files) s
    × (s.phase 1 ≡ storing)
    × (s.shared.files [] ≡ none)
same_name_example = same_name (λ i. []) no_files refl
