-- ===== src/Tests/Systems.antt =====
-- A process that a request has logged in to, to which another has added a schedule, and which has run it.
use loxbak.Base.{
  ◌≡◌, refl, subst, true, false, none, some, List, [], ◌∷◌, map, keep_if, ok, ok-injective,
}
use loxbak.Base.Text.{text_eq}
use loxbak.Api.{Backend, Server, reload_scheduler}
use loxbak.Api.Auth.{handle_login, require_session}
use loxbak.Api.Router.{post_login, post_schedules, router}
use loxbak.Api.Schedules.{ScheduleRequest, handle_create_schedule}
use loxbak.Crypto.{encrypt, decrypt}
use loxbak.Db.{Db, empty_tables}
use loxbak.Db.Consistency.{IsConsistent}
use loxbak.Db.Credentials.{upsert_credential}
use loxbak.Db.Numbering.{Distinct}
use loxbak.Db.Runs.{create_run, finish_run}
use loxbak.Db.Schedules.{
  list_enabled_schedules, get_schedule, create_schedule, list_schedule_destinations,
  set_schedule_destinations,
}
use loxbak.Destinations.{Destination}
use loxbak.Scheduler.Cron.{reload, remove_entries, add_entries, put_entry}
use loxbak.Scheduler.Frames.{LeavesDestination}
use loxbak.Scheduler.Job.{run_schedule}
use loxbak.Scheduler.Jobs.{Job, tracked, planned, wanted}
use loxbak.Scheduler.World.{Outside}
use loxbak.Session.{create, validate}
use loxbak.System.{request, fire, Reach, start, later, with_world}
use loxbak.System.Calls.{LeavesBackend}
use loxbak.System.Invariant.{reachable-IsSettled, reachable_reloads}
use loxbak.Tests.Logins.{login_request}
use loxbak.Tests.Reloads.{Library, library, library-IsLawful}
use loxbak.Tests.Requests.{no_file}
use loxbak.Tests.Secrets.{plain_cipher, hmac, secret, random_bytes, token}

abbrev sink : Destination Library
sink = record { name = []; store = λ meta content x. (ok tt, x); lister = none; reader = none }

abbrev outside : Outside Library
outside = record {
  mirror = λ host port user password x. (ok tt, x);
  archive_dir = λ name x. (ok (record { filename = name; size = 3 }), x);
  open_archive = λ x. (ok (b'z' ∷ []), x);
  remove_archive = λ x. x;
  build = λ type name config secret. ok sink;
  cipher = plain_cipher;
  master_key = [];
}

abbrev backend : Backend Library
backend = record {
  outside = outside;
  validate = λ host port user password x. (ok tt, x);
  random = λ n x. (ok random_bytes, x);
  hmac = hmac;
  session_key = secret;
  cron = library;
}

abbrev jobs : Library → List Job
jobs x = x.1

sink-leaves : LeavesDestination jobs sink
sink-leaves = record {
  store_lem = λ meta content x. refl;
  lister_lem = λ l e. cc;
  reader_lem = λ read e. cc;
}

leaves : LeavesBackend jobs backend
leaves = record {
  outside_lem = record {
    mirror_lem = λ host port user password x. refl;
    archive_dir_lem = λ name x. refl;
    open_archive_lem = λ x. refl;
    remove_archive_lem = λ x. refl;
    build_lem = λ type name config secret dest e.
        subst (LeavesDestination jobs) (ok-injective sink dest e) sink-leaves;
  };
  validate_lem = λ host port user password x. refl;
  random_lem = λ n x. refl;
}

abbrev opened : Db
opened = record {
  tables = empty_tables;
  step = 0;
  fails = λ n. false;
  clock = λ n. n;
  foreign_keys = true;
}

abbrev started : Server Library
started = record { world = record { db = opened; outside = (0, []); pending = [] }; entries = [] }

abbrev nightly : ScheduleRequest
nightly = record { name = b'd' ∷ []; cron_expr = b'*' ∷ []; enabled = true; destinations = [] }

unfoldable logged_in : Server Library
unfolding router handle_login encrypt upsert_credential create
logged_in = (router (λ t. t.day) backend no_file none (post_login (some login_request)) started).1

unfoldable planned_in : Server Library
unfolding router logged_in handle_create_schedule require_session
planned_in =
    (router (λ t. t.day) backend no_file (some token) (post_schedules (some nightly)) logged_in).1

one_job :
    planned_in.world.outside.1 ≡ record { entry = 1; schedule_id = 1; cron_expr = b'*' ∷ [] } ∷ []
unfolding planned_in logged_in validate create_schedule set_schedule_destinations get_schedule
    list_schedule_destinations reload_scheduler reload list_enabled_schedules remove_entries
    add_entries put_entry text_eq
one_job = refl

unfoldable fired : Server Library
unfolding planned_in
fired =
    with_world (λ t. t.day) backend no_file jobs (run_schedule outside 1 planned_in.world).1
      planned_in

reach : Reach (λ t. t.day) backend no_file jobs fired
unfolding fired planned_in logged_in
reach =
    later
      (later
        (later (start opened (0, []) refl refl) (request none (post_login (some login_request))))
        (request (some token) (post_schedules (some nightly))))
      (fire [] (record { entry = 1; schedule_id = 1; cron_expr = b'*' ∷ [] }) [] one_job)

reachable-IsSettled_example :
    IsConsistent fired.world.db.tables
    × Distinct fired.world.db.tables.schedules
    × (map tracked (jobs fired.world.outside) ≡ fired.entries)
unfolding library-IsLawful
reachable-IsSettled_example =
    reachable-IsSettled (λ t. t.day) backend no_file library-IsLawful leaves reach

reachable_reloads_example :
    map planned (jobs (reload_scheduler backend fired).world.outside)
    ≡ map wanted (
        keep_if
          (λ x. library-IsLawful.parses x.cron_expr)
          (keep_if (λ x. x.enabled) fired.world.db.tables.schedules))
unfolding library-IsLawful fired run_schedule create_run validate text_eq create_schedule
    set_schedule_destinations get_schedule list_enabled_schedules list_schedule_destinations
    finish_run decrypt
reachable_reloads_example =
    reachable_reloads (λ t. t.day) backend no_file library-IsLawful leaves reach refl
