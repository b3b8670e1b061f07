-- ===== src/Tests/Requests.antt =====
-- Requests to a server whose cron library and network accept everything.
use loxbak.Base.{
  ◌==◌, if◌then◌else◌, ◌≡◌, ◌≢◌, refl, true, false, map, none, some, List, [], ◌∷◌, ◌++◌, ◌⊎◌, ok,
}
use loxbak.Base.Text.{Text, txt}
use loxbak.Api.{Backend, Response, Server, failed_with}
use loxbak.Api.Router.{get_backups, router}
use loxbak.Api.Routes.{router_guards}
use loxbak.Api.Auth.{require_session, handle_me}
use loxbak.Api.Destinations.{handle_delete_destination}
use loxbak.Api.Guards.{looked_up, require_session_guards}
use loxbak.Api.Schedules.{ScheduleRequest, handle_update_schedule}
use loxbak.Api.Stale.{changed, handle_update_schedule_stale}
use loxbak.Base.Int.{pos}
use loxbak.Api.Purges.{handle_delete_destination_in_use}
use loxbak.Db.{Session}
use loxbak.Session.{sign, validate}
use loxbak.Session.Validity.{IsLive}
use loxbak.Tests.Runs.{outside, world}
use loxbak.Tests.Secrets.{hmac, secret, token, logged_in}

abbrev pub backend : Backend (List Text)
backend = record {
  outside = outside;
  validate = λ host port user password x. (ok tt, x);
  random = λ n x. (ok (1 ∷ 2 ∷ []), x);
  hmac = hmac;
  session_key = secret;
  cron = record { add = λ expr id x. (ok id, x); remove = λ id x. x };
}

abbrev pub server : Server (List Text)
server = record { world = world; entries = [] }

abbrev session_server : Server (List Text)
session_server = record {
  world = record { db = logged_in; outside = []; pending = [] };
  entries = [];
}

require_session_guards_example :
    (((row : Session) × (id : Text) × (some token ≡ some (id ++ b'.' ∷ sign hmac secret id))
        × IsLive id row session_server.world.db
        × (require_session backend (λ row. handle_me backend) (some token) session_server
            ≡ handle_me backend (looked_up backend (some token) session_server)))
      ⊎ (require_session backend (λ row. handle_me backend) (some token) session_server ≡ (
        failed_with 401 (txt "not authenticated"),
        looked_up backend (some token) session_server,
      )))
    × ((looked_up backend (some token) session_server).world.db.tables
        ≡ session_server.world.db.tables)
require_session_guards_example =
    require_session_guards backend (λ row. handle_me backend) (some token) session_server

handle_delete_destination_in_use_example :
    ((handle_delete_destination backend (some 1) true server).0.status ≢ 204)
    × ((handle_delete_destination backend (some 1) true server).1.world.outside
        ≡ server.world.outside)
    × ((handle_delete_destination backend (some 1) true server).1.world.db.tables
        ≡ server.world.db.tables)
unfolding world
handle_delete_destination_in_use_example =
    handle_delete_destination_in_use backend 1 true server refl

abbrev pub no_file : Text → Response
no_file path = failed_with 404 path

router_guards_example :
    router (λ t. t.day) backend no_file none get_backups server
    ≡ (failed_with 401 (txt "not authenticated"), looked_up backend none server)
unfolding validate
router_guards_example = router_guards (λ t. t.day) backend no_file none server refl get_backups refl

-- The second schedule, disabled, with a destination that there is not.
abbrev change : ScheduleRequest
change = record {
  name = b'f' ∷ [];
  cron_expr = b'*' ∷ [];
  enabled = false;
  destinations = record { destination_id = 7; retention_count = pos 3 } ∷ [];
}

handle_update_schedule_stale_example :
    let r = handle_update_schedule backend (some 2) (some change) server in
    let now = server.world.db.clock server.world.db.step in
    (r.0.status ≡ 500)
    × (r.1.world.db.tables.schedules
        ≡ map (λ x. if x.id == 2 then changed change now x else x) server.world.db.tables.schedules)
    × (r.1.entries ≡ server.entries)
    × (r.1.world.outside ≡ server.world.outside)
unfolding world
handle_update_schedule_stale_example =
    handle_update_schedule_stale backend 2 change server refl refl refl refl
