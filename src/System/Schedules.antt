-- ===== src/System/Schedules.antt =====
-- The handlers of internal/api/schedules.go leave the server settled.
use loxbak.Base.{ℕ, Option, List}
use loxbak.Base.Text.{Text}
use loxbak.Api.{ScheduleDestinationInput, Backend, respond, answer, reload_scheduler, one_schedule}
use loxbak.Api.Schedules
use loxbak.Api.Schedules.{
  ScheduleRequest, to_schedule_response, or_no_links, set_destinations, list_responses,
  handle_list_schedules, handle_get_schedule, finish_schedule, handle_create_schedule,
  handle_update_schedule, handle_delete_schedule, handle_run_schedule,
}
use loxbak.Db.Integrity.{IsSafe, IsSafe-Writes}
use loxbak.Db.Reads.{
  get_schedule-tables, list_schedule_destinations-tables, list_schedules-tables, get_run-tables,
}
use loxbak.Db.Runs.{get_run}
use loxbak.Db.Schedules.{
  list_schedules, get_schedule, create_schedule, update_schedule, delete_schedule,
  list_schedule_destinations,
}
use loxbak.Db.Writes.{creates_schedule, updates_schedule, deletes_schedule}
use loxbak.Scheduler.Executions.{trigger_run-Sound}
use loxbak.Scheduler.Job.{trigger_run}
use loxbak.Scheduler.Jobs.{IsLawful}
use loxbak.Scheduler.World.{on_db}
use loxbak.System.Calls.{
  LeavesBackend, read-IsQuiet, write-IsQuiet, set_destinations-IsQuiet, list_responses-IsQuiet,
}
use loxbak.System.Settled.{
  Settles, check-Settles, given-Settles, call-Settles, look-Settles, reload_scheduler-IsSettled,
}

module _ {E : Type 0} (b : Backend E) (law : IsLawful b.cron)
    (leaves : LeavesBackend law.jobs b) where
  open law use {jobs}

  pub handle_list_schedules-Settles : Settles b law leaves handle_list_schedules
  unfolding handle_list_schedules
  handle_list_schedules-Settles =
      call-Settles b law leaves (on_db list_schedules) _ _
        (read-IsQuiet b jobs leaves list_schedules list_schedules-tables)
        λ scheds _ _.
          call-Settles b law leaves (list_responses scheds) _ _
            (list_responses-IsQuiet b jobs leaves scheds) λ _ _ _ s h. h

  pub handle_get_schedule-Settles :
      (param : Option ℕ) → Settles b law leaves (handle_get_schedule param)
  unfolding handle_get_schedule
  handle_get_schedule-Settles param = given-Settles b law leaves param _ _ λ id _.
      call-Settles b law leaves (on_db (get_schedule id)) _ _
        (read-IsQuiet b jobs leaves (get_schedule id) (get_schedule-tables id))
        λ sched _ _.
          call-Settles b law leaves (on_db (list_schedule_destinations id)) _ _
            (read-IsQuiet b jobs leaves (list_schedule_destinations id)
              (list_schedule_destinations-tables id))
            λ _ _ _ s h. h

  finish_schedule-Settles :
      (id : ℕ) (inputs : List ScheduleDestinationInput) (not_loaded : Text) (status : ℕ)
      → Settles b law leaves (finish_schedule b id inputs not_loaded status)
  finish_schedule-Settles id inputs not_loaded status =
      call-Settles b law leaves (set_destinations id inputs) _ _
        (set_destinations-IsQuiet b jobs leaves id inputs)
        λ _ _ _ s h.
          call-Settles b law leaves (on_db (get_schedule id)) _ _
            (read-IsQuiet b jobs leaves (get_schedule id) (get_schedule-tables id))
            (λ sched _ _.
              look-Settles b law leaves (on_db (list_schedule_destinations id))
                (λ links.
                  answer (
                    respond status (one_schedule (to_schedule_response sched (or_no_links links)))))
                (read-IsQuiet b jobs leaves (list_schedule_destinations id)
                  (list_schedule_destinations-tables id))
                (λ _ s h. h))
            (reload_scheduler b s) (reload_scheduler-IsSettled b law leaves s h)

  pub handle_create_schedule-Settles :
      (body : Option ScheduleRequest) → Settles b law leaves (handle_create_schedule b body)
  unfolding handle_create_schedule
  handle_create_schedule-Settles body = given-Settles b law leaves body _ _ λ req _.
      check-Settles b law leaves (Schedules.is_complete req) _ _ (
        call-Settles b law leaves (on_db (create_schedule req.name req.cron_expr req.enabled)) _ _
          (write-IsQuiet b jobs leaves (create_schedule req.name req.cron_expr req.enabled)
            (creates_schedule IsSafe IsSafe-Writes req.name req.cron_expr req.enabled))
          λ id _ _. finish_schedule-Settles id req.destinations _ 201)

  pub handle_update_schedule-Settles :
      (param : Option ℕ) (body : Option ScheduleRequest)
      → Settles b law leaves (handle_update_schedule b param body)
  unfolding handle_update_schedule
  handle_update_schedule-Settles param body = given-Settles b law leaves param _ _ λ id _.
      given-Settles b law leaves body _ _ λ req _.
        check-Settles b law leaves (Schedules.is_complete req) _ _ (
          call-Settles b law leaves (on_db (update_schedule id req.name req.cron_expr req.enabled))
            _ _
            (write-IsQuiet b jobs leaves (update_schedule id req.name req.cron_expr req.enabled)
              (updates_schedule IsSafe IsSafe-Writes id req.name req.cron_expr req.enabled))
            λ _ _ _. finish_schedule-Settles id req.destinations _ 200)

  pub handle_delete_schedule-Settles :
      (param : Option ℕ) → Settles b law leaves (handle_delete_schedule b param)
  unfolding handle_delete_schedule
  handle_delete_schedule-Settles param = given-Settles b law leaves param _ _ λ id _.
      call-Settles b law leaves (on_db (delete_schedule id)) _ _
        (write-IsQuiet b jobs leaves (delete_schedule id)
          (deletes_schedule IsSafe IsSafe-Writes id))
        λ _ _ _. reload_scheduler-IsSettled b law leaves

  pub handle_run_schedule-Settles :
      (param : Option ℕ) → Settles b law leaves (handle_run_schedule b param)
  unfolding handle_run_schedule
  handle_run_schedule-Settles param = given-Settles b law leaves param _ _ λ id _.
      call-Settles b law leaves (on_db (get_schedule id)) _ _
        (read-IsQuiet b jobs leaves (get_schedule id) (get_schedule-tables id))
        λ _ _ _.
          call-Settles b law leaves (trigger_run b.outside id) _ _
            (trigger_run-Sound b.outside jobs leaves.outside_lem IsSafe IsSafe-Writes id)
            λ run_id _ _.
              call-Settles b law leaves (on_db (get_run run_id)) _ _
                (read-IsQuiet b jobs leaves (get_run run_id) (get_run-tables run_id)) λ _ _ _ s h. h
