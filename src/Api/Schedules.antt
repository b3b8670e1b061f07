-- ===== src/Api/Schedules.antt =====
-- internal/api/schedules.go
use loxbak.Base.{ℕ, Bool, ◌||◌, not, Option, List, [], ◌∷◌, map, Result, ok, err}
use loxbak.Base.Text.{Text, txt, is_empty}
use loxbak.Api.Runs.{to_run_response}
use loxbak.Api.{
  ScheduleDestinationInput, ScheduleResponse, Backend, Handler, respond, failed_with, empty,
  one_schedule, schedules, one_run, answer, check, given, call, look, reload_scheduler,
}
use loxbak.Db.{Schedule, ScheduleDestination}
use loxbak.Db.Runs.{get_run}
use loxbak.Db.Schedules.{
  list_schedules, get_schedule, create_schedule, update_schedule, delete_schedule,
  list_schedule_destinations, set_schedule_destinations,
}
use loxbak.Scheduler.Job.{trigger_run}
use loxbak.Scheduler.World.{R, on_db, returned, ◌>>=◌}

pub record ScheduleRequest : Type 0 where
  pub name : Text
  pub cron_expr : Text
  pub enabled : Bool
  pub destinations : List ScheduleDestinationInput

abbrev pub to_input : ScheduleDestination → ScheduleDestinationInput
to_input l = record { destination_id = l.destination_id; retention_count = l.retention_count }

abbrev pub to_schedule_response : Schedule → List ScheduleDestination → ScheduleResponse
to_schedule_response sched links = record {
  id = sched.id;
  name = sched.name;
  cron_expr = sched.cron_expr;
  enabled = sched.enabled;
  destinations = map to_input links;
}

-- The id of a link is assigned by the database.
abbrev pub to_link : ℕ → ScheduleDestinationInput → ScheduleDestination
to_link schedule_id x = record {
  id = 0;
  schedule_id = schedule_id;
  destination_id = x.destination_id;
  retention_count = x.retention_count;
}

abbrev pub is_complete : ScheduleRequest → Bool
is_complete req = not (is_empty req.name || is_empty req.cron_expr)

-- `links, _ := …`
abbrev pub or_no_links : Result (List ScheduleDestination) → List ScheduleDestination
or_no_links (ok links) = links
or_no_links (err _) = []

module _ {E : Type 0} where
  abbrev pub set_destinations : ℕ → List ScheduleDestinationInput → R E (Unit {0})
  set_destinations id inputs = on_db (set_schedule_destinations id (map (to_link id) inputs))

  -- The loop of `handleListSchedules`.
  unfoldable pub list_responses : List Schedule → R E (List ScheduleResponse)
  list_responses [] = returned (ok [])
  list_responses (sched ∷ rest) = do
    links ← on_db (list_schedule_destinations sched.id)
    later ← list_responses rest
    returned (ok (to_schedule_response sched links ∷ later))

  unfoldable pub handle_list_schedules : Handler E
  unfolding list_responses
  handle_list_schedules =
      call (on_db list_schedules) (λ _. failed_with 500 (txt "failed to list schedules"))
        (λ scheds.
          call (list_responses scheds)
            (λ _. failed_with 500 (txt "failed to list schedule destinations"))
            (λ out. answer (respond 200 (schedules out))))

  unfoldable pub handle_get_schedule : Option ℕ → Handler E
  handle_get_schedule param = given param (failed_with 400 (txt "invalid schedule id")) (λ id.
      call (on_db (get_schedule id)) (λ _. failed_with 404 (txt "schedule not found"))
        (λ sched.
          call (on_db (list_schedule_destinations id))
            (λ _. failed_with 500 (txt "failed to list schedule destinations"))
            (λ links. answer (respond 200 (one_schedule (to_schedule_response sched links))))))

module _ {E : Type 0} (b : Backend E) where
  -- What creation and update have in common: the links, the cron entries, and the row read back.
  abbrev pub finish_schedule : ℕ → List ScheduleDestinationInput → Text → ℕ → Handler E
  finish_schedule id inputs not_loaded status =
      call (set_destinations id inputs)
        (λ _. failed_with 500 (txt "failed to set schedule destinations"))
        (λ _ s.
          call (on_db (get_schedule id)) (λ _. failed_with 500 not_loaded)
            (λ sched. look (on_db (list_schedule_destinations id)) (λ links.
              answer
                (respond status (one_schedule (to_schedule_response sched (or_no_links links))))))
            (reload_scheduler b s))

  unfoldable pub handle_create_schedule : Option ScheduleRequest → Handler E
  unfolding reload_scheduler
  handle_create_schedule body = given body (failed_with 400 (txt "invalid request body")) (λ req.
      check (is_complete req) (failed_with 400 (txt "name and cron_expr are required")) (
        call (on_db (create_schedule req.name req.cron_expr req.enabled))
          (λ _. failed_with 500 (txt "failed to create schedule"))
          (λ id. finish_schedule id req.destinations (txt "failed to load created schedule") 201)))

  unfoldable pub handle_update_schedule : Option ℕ → Option ScheduleRequest → Handler E
  unfolding reload_scheduler
  handle_update_schedule param body =
      given param (failed_with 400 (txt "invalid schedule id")) (λ id.
        given body (failed_with 400 (txt "invalid request body")) (λ req.
          check (is_complete req) (failed_with 400 (txt "name and cron_expr are required")) (
            call (on_db (update_schedule id req.name req.cron_expr req.enabled))
              (λ _. failed_with 404 (txt "schedule not found"))
              (λ _.
                finish_schedule id req.destinations (txt "failed to load updated schedule") 200))))

  unfoldable pub handle_delete_schedule : Option ℕ → Handler E
  unfolding reload_scheduler
  handle_delete_schedule param = given param (failed_with 400 (txt "invalid schedule id")) (λ id.
      call (on_db (delete_schedule id)) (λ _. failed_with 404 (txt "schedule not found"))
        (λ _ s. (respond 204 empty, reload_scheduler b s)))

  unfoldable pub handle_run_schedule : Option ℕ → Handler E
  handle_run_schedule param = given param (failed_with 400 (txt "invalid schedule id")) (λ id.
      call (on_db (get_schedule id)) (λ _. failed_with 404 (txt "schedule not found"))
        (λ _.
          call (trigger_run b.outside id) (λ _. failed_with 500 (txt "failed to start backup run"))
            (λ run_id.
              call (on_db (get_run run_id))
                (λ _. failed_with 500 (txt "failed to load created run"))
                (λ run. answer (respond 202 (one_run (to_run_response run [])))))))
