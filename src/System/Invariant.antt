-- ===== src/System/Invariant.antt =====
-- What holds whatever the running process does: every state that requests, cron runs, goroutines and restarts lead
-- to.
use loxbak.Base.{ℕ, ◌≡◌, ap, ◌∙◌, false, ◌++◌, map, keep_if, Option}
use loxbak.Base.Text.{Text}
use loxbak.Api.{Response, Backend, Server, reload_scheduler}
use loxbak.Api.Router.{
  Request, get_health, post_login, post_logout, get_me, get_schedules, post_schedules, get_schedule,
  put_schedule, delete_schedule, post_schedule_run, get_destinations, post_destinations,
  get_destination, put_destination, delete_destination, post_destination_test, get_runs, get_run,
  get_backups, get_backup_download, delete_backup, any_other, router,
}
use loxbak.Archive.{Stamp}
use loxbak.Db.{empty_tables}
use loxbak.Db.Consistency.{IsConsistent}
use loxbak.Db.Integrity.{IsSafe, IsSafe-Writes}
use loxbak.Db.Numbering.{Distinct, keep_if-Distinct}
use loxbak.Scheduler.Executions.{run_schedule-Sound, run_pending-Sound}
use loxbak.Scheduler.Job.{run_schedule, run_pending}
use loxbak.Scheduler.Jobs.{IsLawful, tracked, planned, wanted, reload_jobs}
use loxbak.System.{
  Step, request, fire, background, elsewhere, restart, Reach, start, later, restarted,
}
use loxbak.System.Archives.{
  handle_list_destinations-Settles, handle_get_destination-Settles,
  handle_create_destination-Settles, handle_update_destination-Settles,
  handle_delete_destination-Settles, handle_download_backup-Settles, handle_delete_backup-Settles,
  handle_list_backups-Settles,
}
use loxbak.System.Calls.{LeavesBackend}
use loxbak.System.Logins.{
  require_session-Settles, handle_login-Settles, handle_logout-Settles, handle_me-Settles,
  handle_get_run-Settles, handle_list_runs-Settles,
}
use loxbak.System.Schedules.{
  handle_list_schedules-Settles, handle_get_schedule-Settles, handle_create_schedule-Settles,
  handle_update_schedule-Settles, handle_delete_schedule-Settles, handle_run_schedule-Settles,
}
use loxbak.System.Settled.{IsSettled, Settles, world-IsSettled, reload_scheduler-IsSettled}

empty-IsSafe : IsSafe empty_tables
empty-IsSafe = (
  record {
    link_schedules = tt;
    link_destinations = tt;
    link_unique = tt;
    run_schedules = tt;
    result_runs = tt;
    result_destinations = tt;
  },
  record { distinct = tt; below = tt },
)

module _ {E : Type 0} (seconds : Stamp → ℕ) (b : Backend E) (static : Text → Response)
    (law : IsLawful b.cron) (leaves : LeavesBackend law.jobs b) where
  open law use {jobs, parses}

  router-Settles :
      (cookie : Option Text) (r : Request) → Settles b law leaves (router seconds b static cookie r)
  unfolding router
  router-Settles cookie get_health = λ s h. h
  router-Settles cookie (post_login body) = handle_login-Settles b law leaves body
  router-Settles cookie post_logout = handle_logout-Settles b law leaves cookie
  router-Settles cookie get_me =
      require_session-Settles b law leaves _ cookie (handle_me-Settles b law leaves)
  router-Settles cookie get_schedules =
      require_session-Settles b law leaves _ cookie (handle_list_schedules-Settles b law leaves)
  router-Settles cookie (post_schedules body) =
      require_session-Settles b law leaves _ cookie
        (handle_create_schedule-Settles b law leaves body)
  router-Settles cookie (get_schedule id) =
      require_session-Settles b law leaves _ cookie (handle_get_schedule-Settles b law leaves id)
  router-Settles cookie (put_schedule id body) =
      require_session-Settles b law leaves _ cookie
        (handle_update_schedule-Settles b law leaves id body)
  router-Settles cookie (delete_schedule id) =
      require_session-Settles b law leaves _ cookie (handle_delete_schedule-Settles b law leaves id)
  router-Settles cookie (post_schedule_run id) =
      require_session-Settles b law leaves _ cookie (handle_run_schedule-Settles b law leaves id)
  router-Settles cookie get_destinations =
      require_session-Settles b law leaves _ cookie (handle_list_destinations-Settles b law leaves)
  router-Settles cookie (post_destinations body) =
      require_session-Settles b law leaves _ cookie
        (handle_create_destination-Settles b law leaves body)
  router-Settles cookie (get_destination id) =
      require_session-Settles b law leaves _ cookie (handle_get_destination-Settles b law leaves id)
  router-Settles cookie (put_destination id body) =
      require_session-Settles b law leaves _ cookie
        (handle_update_destination-Settles b law leaves id body)
  router-Settles cookie (delete_destination id purge) =
      require_session-Settles b law leaves _ cookie
        (handle_delete_destination-Settles b law leaves id purge)
  router-Settles cookie (post_destination_test id) =
      require_session-Settles b law leaves _ cookie (λ s h. h)
  router-Settles cookie (get_runs schedule_id limit offset) =
      require_session-Settles b law leaves _ cookie
        (handle_list_runs-Settles b law leaves schedule_id limit offset)
  router-Settles cookie (get_run id) =
      require_session-Settles b law leaves _ cookie (handle_get_run-Settles b law leaves id)
  router-Settles cookie get_backups =
      require_session-Settles b law leaves _ cookie
        (handle_list_backups-Settles b law leaves seconds)
  router-Settles cookie (get_backup_download id filename) =
      require_session-Settles b law leaves _ cookie
        (handle_download_backup-Settles b law leaves id filename)
  router-Settles cookie (delete_backup id filename) =
      require_session-Settles b law leaves _ cookie
        (handle_delete_backup-Settles b law leaves id filename)
  router-Settles cookie (any_other path) = λ s h. h

  Step-IsSettled :
      {s t : Server E} → Step seconds b static jobs s t → IsSettled jobs s → IsSettled jobs t
  Step-IsSettled {s} (request cookie r) h = router-Settles cookie r s h
  Step-IsSettled {s} (fire before j after e) h =
      world-IsSettled b law leaves (run_schedule b.outside j.schedule_id s.world).1 s
        (run_schedule-Sound b.outside jobs leaves.outside_lem IsSafe IsSafe-Writes j.schedule_id
          (jobs s.world.outside) s.world)
        h
  Step-IsSettled {s} (background before p after e) h =
      world-IsSettled b law leaves
        (run_pending b.outside p (record s.world { pending = before ++ after })) s
        (run_pending-Sound b.outside jobs leaves.outside_lem IsSafe IsSafe-Writes p
          (jobs s.world.outside) (record s.world { pending = before ++ after }))
        h
  Step-IsSettled (elsewhere x e) (p, q) = (p, ap (map tracked) e ∙ q)
  Step-IsSettled {s} (restart x e) (p, q) =
      unfold restarted in reload_scheduler-IsSettled b law leaves _ (p, ap (map tracked) e)

  Reach-IsSettled : {s : Server E} → Reach seconds b static jobs s → IsSettled jobs s
  Reach-IsSettled (start d x fresh none) = (rw fresh empty-IsSafe, ap (map tracked) none)
  Reach-IsSettled (later r st) = Step-IsSettled st (Reach-IsSettled r)

  -- In every state that requests, cron runs, goroutines and restarts lead to from an empty database, in any order
  -- and whichever statements fail, the foreign keys and the UNIQUE constraint of the schema hold, no two
  -- schedules have the same id, and the entries of the scheduler are those of the jobs that the cron library
  -- holds. (Only the scheduler adds and removes jobs.)
  pub reachable-IsSettled :
      {s : Server E}
      → Reach seconds b static jobs s
      → IsConsistent s.world.db.tables
        × Distinct s.world.db.tables.schedules
        × (map tracked (jobs s.world.outside) ≡ s.entries)
  reachable-IsSettled r = let (p, q) = Reach-IsSettled r in (p.0, p.1.distinct, q)

  -- In every such state, a reload whose query goes through leaves the cron library one job for each enabled
  -- schedule whose expression parses, in the order of the table, with its current expression, and no other job,
  -- however many earlier reloads have failed.
  pub reachable_reloads :
      {s : Server E}
      → Reach seconds b static jobs s
      → s.world.db.fails s.world.db.step ≡ false
      → map planned (jobs (reload_scheduler b s).world.outside)
        ≡ map wanted (
            keep_if
              (λ x. parses x.cron_expr)
              (keep_if (λ x. x.enabled) s.world.db.tables.schedules))
  unfolding reload_scheduler
  reachable_reloads {s} r works =
      let (p, q) = Reach-IsSettled r in
      let (_, plan, _) =
        reload_jobs b.cron law s.entries s.world q works
          (keep_if-Distinct _ s.world.db.tables.schedules p.1.distinct) in
      plan
