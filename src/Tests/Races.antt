-- ===== src/Tests/Races.antt =====
-- Two reloads of the cron library that overlap.
use loxbak.Base.{◌≡◌, refl, none, true, [], ◌∷◌, map}
use loxbak.Base.Text.{Text}
use loxbak.Db.{Schedule}
use loxbak.Scheduler.Jobs.{planned}
use loxbak.Scheduler.Racing.{Race, IsIdle, Steps, stale_reload}
use loxbak.Tests.Reloads.{Library, library, library-IsLawful}

abbrev weekly : Text → Schedule
weekly expr = record {
  id = 1;
  name = b'd' ∷ [];
  cron_expr = expr;
  enabled = true;
  created_at = 0;
  updated_at = 0;
}

-- A schedule whose job the library has under the id 5.
abbrev before : Race Library
before = record {
  enabled = weekly (b'*' ∷ []) ∷ [];
  entries = (1, 5) ∷ [];
  outside = (5, record { entry = 5; schedule_id = 1; cron_expr = b'*' ∷ [] } ∷ []);
  read = λ i. none;
}

stale_reload_example :
    (t : Race Library) × Steps library before t
    × (t.enabled ≡ weekly (b'@' ∷ []) ∷ [])
    × IsIdle t
    × (map planned t.outside.1 ≡ (1, b'*' ∷ []) ∷ [])
unfolding library-IsLawful
stale_reload_example =
    stale_reload library library-IsLawful before (weekly (b'@' ∷ []) ∷ []) (refl, tt) refl
      (λ i. refl) (refl, tt)
