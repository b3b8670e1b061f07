-- ===== src/System.antt =====
-- The running process, as internal/api and internal/scheduler share it: requests, cron runs and the goroutines
-- of started runs, in any order. A request, a run and a goroutine are one step each, and so is a restart
-- (cmd/loxbak/main.go), which keeps the database.
pub mod Calls
pub mod Listings
pub mod Settled
pub mod Logins
pub mod Schedules
pub mod Archives
pub mod Invariant
use loxbak.Base.{ℕ, ◌≡◌, Option, List, [], ◌∷◌, ◌++◌}
use loxbak.Base.Text.{Text}
use loxbak.Api.{Response, Backend, Server, reload_scheduler}
use loxbak.Api.Router.{Request, router}
use loxbak.Archive.{Stamp}
use loxbak.Db.{Db, empty_tables}
use loxbak.Scheduler.Job.{run_schedule, run_pending}
use loxbak.Scheduler.Jobs.{Job, IsLawful}
use loxbak.Scheduler.World.{Pending, World}

module _ {E : Type 0} (seconds : Stamp → ℕ) (b : Backend E) (static : Text → Response)
    (jobs : E → List Job) where
  abbrev pub with_world : World E → Server E → Server E
  with_world w s = record s { world = w }

  -- The process behind its start: no goroutine and no entry is left, and the schedules are loaded.
  unfoldable pub restarted : E → Server E → Server E
  unfolding reload_scheduler
  restarted x s =
      reload_scheduler b
        (record { world = record { db = s.world.db; outside = x; pending = [] }; entries = [] })

  pub data Step (s : Server E) : Server E → Type 0 where
    -- a request that has come, with the value of its session cookie
    request : (cookie : Option Text) (r : Request) → Step s (router seconds b static cookie r s).1
    -- a job of the cron library
    fire :
        (before : List Job) (j : Job) (after : List Job)
        → jobs s.world.outside ≡ before ++ j ∷ after
        → Step s (with_world (run_schedule b.outside j.schedule_id s.world).1 s)
    -- a goroutine that `TriggerRun` has started
    background :
        (before : List Pending) (p : Pending) (after : List Pending)
        → s.world.pending ≡ before ++ p ∷ after
        → Step s
            (with_world (run_pending b.outside p (record s.world { pending = before ++ after })) s)
    -- whatever else happens outside, such as another program's files
    elsewhere :
        (x : E)
        → jobs x ≡ jobs s.world.outside
        → Step s (with_world (record s.world { outside = x }) s)
    -- a new process, whose cron library has no job
    restart : (x : E) → jobs x ≡ [] → Step s (restarted x s)

  -- What the process, started on an empty database, can get to.
  pub data Reach : Server E → Type 0 where
    start :
        (d : Db) (x : E)
        → d.tables ≡ empty_tables
        → jobs x ≡ []
        → Reach (record { world = record { db = d; outside = x; pending = [] }; entries = [] })
    later : {s t : Server E} → Reach s → Step s t → Reach t
