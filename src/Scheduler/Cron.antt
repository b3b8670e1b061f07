-- ===== src/Scheduler/Cron.antt =====
-- The scheduler (internal/scheduler/scheduler.go). `robfig/cron` is the parameter `Cron`; the map from schedules
-- to cron entries is a list of pairs.
use loxbak.Base.{ℕ, List, [], ◌∷◌, ◌==◌, if◌then◌else◌, Result, ok, err}
use loxbak.Base.Text.{Text}
use loxbak.Db.{Schedule}
use loxbak.Db.Schedules.{list_enabled_schedules}
use loxbak.Scheduler.World.{World, on_db}

pub record Cron (E : Type 0) : Type 0 where
  -- `AddFunc` of an expression and a function that runs the schedule of an id: the entry's id
  pub add : Text → ℕ → E → Result ℕ × E
  pub remove : ℕ → E → E

-- `s.entries`: the id of a schedule, and that of its cron entry.
abbrev pub Entries : Type 0
Entries = List (ℕ × ℕ)

-- `s.entries[scheduleID] = entryID`
unfoldable pub put_entry : ℕ → ℕ → Entries → Entries
put_entry id entry [] = (id, entry) ∷ []
put_entry id entry ((i, x) ∷ rest) =
    let later = put_entry id entry rest in if i == id then (id, entry) ∷ rest else (i, x) ∷ later

-- An expression that does not parse is logged only.
abbrev pub recorded : Result ℕ → ℕ → Entries → Entries
recorded (ok entry) id entries = put_entry id entry entries
recorded (err _) id entries = entries

module _ {E : Type 0} (cron : Cron E) where
  unfoldable pub remove_entries : Entries → E → E
  remove_entries [] x = x
  remove_entries ((id, entry) ∷ rest) x = remove_entries rest (cron.remove entry x)

  unfoldable pub add_entries : List Schedule → Entries → E → Entries × E
  unfolding put_entry
  add_entries [] entries x = (entries, x)
  add_entries (sched ∷ rest) entries x =
      let (r, x1) = cron.add sched.cron_expr sched.id x in
      add_entries rest (recorded r sched.id entries) x1

  abbrev reload_with :
      Result (List Schedule) → Entries → World E → (Result (Unit {0}) × Entries) × World E
  reload_with (err e) entries w = ((err e, entries), w)
  reload_with (ok schedules) entries w =
      let (entries', x) = add_entries schedules [] (remove_entries entries w.outside) in
      ((ok tt, entries'), record w { outside = x })

  unfoldable pub reload : Entries → World E → (Result (Unit {0}) × Entries) × World E
  unfolding remove_entries add_entries
  reload entries w = let (r, w1) = on_db list_enabled_schedules w in reload_with r entries w1

-- The life of the library's own goroutine. `wait` ends when the jobs that run have ended or the context is done.
pub record CronLoop (E : Type 0) : Type 0 where
  pub start : E → E
  pub stop : E → E
  pub wait : E → E

-- `New`: no entry yet.
abbrev pub new_entries : Entries
new_entries = []

module _ {E : Type 0} (loop : CronLoop E) where
  abbrev pub start : E → E
  start x = loop.start x

  abbrev pub stop : E → E
  stop x = loop.wait (loop.stop x)
