-- ===== src/Scheduler/Unlocking.antt =====
-- When the archive of a run is lost behind the section under `mirrorMu` (internal/scheduler/job.go).
use loxbak.Base.{ℕ, ◌≡◌, refl, Option, none}
use loxbak.Base.Text.{Text, text_eq_refl}
use loxbak.Scheduler.Locking.{
  waiting, syncing, synced, archiving, archived, storing, ended, enter, mirror_ok, create,
  archive_ok, leave, remove, State, step, Steps, here, next, idle,
}

module _ (name : ℕ → Text) where
  -- Where two runs give their archives one name, as two runs of one schedule do within a second, one of them may be
  -- in its loop over the destinations while its archive is not on the disk: the other has removed it.
  pub same_name :
      (files : Text → Option (Option ℕ))
      → name 0 ≡ name 1
      → (s : State name) × Steps name (idle name files) s
        × (s.phase 1 ≡ storing)
        × (s.shared.files (name 1) ≡ none)
  same_name files same = (
    _,
    next
        (next
          (next
            (next
              (next
                (next
                  (next
                    (next
                      (next
                        (next (next here (step 0 waiting syncing _ refl (enter refl)))
                          (step 0 syncing synced _ refl mirror_ok))
                        (step 0 synced archiving _ refl create))
                      (step 0 archiving archived _ refl archive_ok))
                    (step 0 archived storing _ refl leave))
                  (step 1 waiting syncing _ refl (enter refl)))
                (step 1 syncing synced _ refl mirror_ok))
              (step 1 synced archiving _ refl create))
            (step 1 archiving archived _ refl archive_ok))
          (step 1 archived storing _ refl leave))
        (step 0 storing ended _ refl remove),
    refl,
    rw (same, text_eq_refl (name 1)) refl,
  )
