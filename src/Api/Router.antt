-- ===== src/Api/Router.antt =====
-- `Router` (internal/api/router.go): a request, as the patterns of the table take it apart, and its
-- handler. The frontend's files are the parameter `static`.
use loxbak.Base.{ℕ, Bool, Option}
use loxbak.Base.Int.{ℤ}
use loxbak.Base.Text.{Text, txt}
use loxbak.Api.{Response, Backend, Handler, respond, failed_with, raw, answer}
use loxbak.Api.Auth.{LoginRequest, handle_login, handle_logout, handle_me, require_session}
use loxbak.Api.Backups.{handle_download_backup, handle_delete_backup}
use loxbak.Api.Destinations.{
  DestinationRequest, handle_list_destinations, handle_create_destination, handle_get_destination,
  handle_update_destination, handle_delete_destination,
}
use loxbak.Api.Listing.{handle_list_backups}
use loxbak.Api.Runs.{Param, handle_list_runs, handle_get_run}
use loxbak.Api.Schedules.{
  ScheduleRequest, handle_list_schedules, handle_create_schedule, handle_get_schedule,
  handle_update_schedule, handle_delete_schedule, handle_run_schedule,
}
use loxbak.Archive.{Stamp}

pub data Request : Type 0 where
  get_health : Request
  post_login : Option LoginRequest → Request
  post_logout : Request
  get_me : Request
  get_schedules : Request
  post_schedules : Option ScheduleRequest → Request
  get_schedule : Option ℕ → Request
  put_schedule : Option ℕ → Option ScheduleRequest → Request
  delete_schedule : Option ℕ → Request
  post_schedule_run : Option ℕ → Request
  get_destinations : Request
  post_destinations : Option DestinationRequest → Request
  get_destination : Option ℕ → Request
  put_destination : Option ℕ → Option DestinationRequest → Request
  delete_destination : Option ℕ → Bool → Request
  post_destination_test : Option ℕ → Request
  get_runs : Param ℕ → Param ℤ → Param ℤ → Request
  get_run : Option ℕ → Request
  get_backups : Request
  get_backup_download : Option ℕ → Text → Request
  delete_backup : Option ℕ → Text → Request
  any_other : Text → Request

module _ {E : Type 0} where
  abbrev pub handle_health : Handler E
  handle_health = answer (respond 200 (raw (txt "ok")))

  abbrev pub handle_test_destination : Handler E
  handle_test_destination =
      answer (failed_with 501 (txt "destination connectivity test not yet implemented"))

module _ {E : Type 0} (seconds : Stamp → ℕ) (b : Backend E) (static : Text → Response)
    (cookie : Option Text) where
  abbrev guarded : Handler E → Handler E
  guarded handler = require_session b (λ _. handler) cookie

  unfoldable pub router : Request → Handler E
  router get_health = handle_health
  router (post_login body) = handle_login b body
  router post_logout = handle_logout b cookie
  router get_me = guarded (handle_me b)
  router get_schedules = guarded handle_list_schedules
  router (post_schedules body) = guarded (handle_create_schedule b body)
  router (get_schedule id) = guarded (handle_get_schedule id)
  router (put_schedule id body) = guarded (handle_update_schedule b id body)
  router (delete_schedule id) = guarded (handle_delete_schedule b id)
  router (post_schedule_run id) = guarded (handle_run_schedule b id)
  router get_destinations = guarded handle_list_destinations
  router (post_destinations body) = guarded (handle_create_destination b body)
  router (get_destination id) = guarded (handle_get_destination id)
  router (put_destination id body) = guarded (handle_update_destination b id body)
  router (delete_destination id purge) = guarded (handle_delete_destination b id purge)
  router (post_destination_test id) = guarded handle_test_destination
  router (get_runs schedule_id limit offset) = guarded (handle_list_runs schedule_id limit offset)
  router (get_run id) = guarded (handle_get_run id)
  router get_backups = guarded (handle_list_backups seconds b)
  router (get_backup_download id filename) = guarded (handle_download_backup b id filename)
  router (delete_backup id filename) = guarded (handle_delete_backup b id filename)
  router (any_other path) = answer (static path)
