-- ===== src/Tests/Created.antt =====
-- A schedule that a request creates beside two others.
use loxbak.Base.{◌≡◌, refl, true, some, List, [], ◌∷◌, arith}
use loxbak.Base.Int.{pos}
use loxbak.Base.Text.{Text}
use loxbak.Api.{ScheduleResponse, Server, respond, one_schedule}
use loxbak.Api.Created.{handle_get_schedule-handle_create_schedule}
use loxbak.Api.Schedules.{ScheduleRequest, handle_create_schedule, handle_get_schedule}
use loxbak.Db.Numbering.{IsNumbered}
use loxbak.Db.Schedules.{
  create_schedule, set_schedule_destinations, get_schedule, list_enabled_schedules,
  list_schedule_destinations,
}
use loxbak.Scheduler.Cron.{reload, remove_entries, add_entries, put_entry}
use loxbak.Tests.Requests.{backend, server}
use loxbak.Tests.Runs.{world}

abbrev weekly : ScheduleRequest
weekly = record {
  name = b'w' ∷ [];
  cron_expr = b'*' ∷ [];
  enabled = true;
  destinations =
      record { destination_id = 2; retention_count = pos 0 }
      ∷ record { destination_id = 1; retention_count = pos 3 }
      ∷ [];
}

server-IsNumbered : IsNumbered server.world.db.tables
unfolding world
server-IsNumbered = record {
  distinct = (refl, (refl, tt));
  below = (omega arith, (omega arith, tt));
}

abbrev behind : Server (List Text)
behind = (handle_create_schedule backend (some weekly) server).1

created_now : (handle_create_schedule backend (some weekly) server).0.status ≡ 201
unfolding handle_create_schedule world create_schedule set_schedule_destinations get_schedule
    list_enabled_schedules list_schedule_destinations reload remove_entries add_entries put_entry
created_now = refl

handle_get_schedule-handle_create_schedule_example :
    (x : ScheduleResponse) × ((handle_create_schedule backend (some weekly) server).0.body
      ≡ one_schedule x)
    × ((handle_get_schedule (some x.id) behind).0
        ≡ respond 200 (
            one_schedule (record {
              id = x.id;
              name = weekly.name;
              cron_expr = weekly.cron_expr;
              enabled = weekly.enabled;
              destinations = weekly.destinations;
            })))
unfolding handle_create_schedule world create_schedule set_schedule_destinations get_schedule
    list_enabled_schedules list_schedule_destinations reload remove_entries add_entries put_entry
handle_get_schedule-handle_create_schedule_example =
    handle_get_schedule-handle_create_schedule backend weekly server behind server-IsNumbered
      created_now refl refl refl refl
