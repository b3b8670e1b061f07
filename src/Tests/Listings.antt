-- ===== src/Tests/Listings.antt =====
-- Listings of the history and of what is stored.
use mathlib.Core.List.{Perm}
use loxbak.Base.{ℕ, ◌≡◌, ◌≤◌, ◌<◌, refl, some, none, List, [], ◌∷◌, map, length, ok, false}
use loxbak.Base.Int.{pos}
use loxbak.Base.Text.{Text, has_prefix}
use loxbak.Api.{BackupEntryResponse, RunResponse, Backend, respond, runs, backups}
use loxbak.Api.Listing.{handle_list_backups}
use loxbak.Api.Pages.{handle_list_runs_bounds}
use loxbak.Api.Runs.{absent, value, handle_list_runs, run_responses}
use loxbak.Api.Newest.{NewestStarted}
use loxbak.Api.Shelves.{shown, shelves, handle_list_backups_complete}
use loxbak.Archive.{
  archive_filename, archive_prefix, sanitize_name, format_stamp, parse_archive_timestamp,
}
use loxbak.Db
use loxbak.Db.{running}
use loxbak.Db.Destinations.{list_destinations}
use loxbak.Db.Runs.{
  list_runs, list_run_destination_results, find_run_info_by_destination_and_filename,
}
use loxbak.Db.Schedules.{list_schedules}
use loxbak.Destinations.{Destination}
use loxbak.Tests.Backups.{on_day}
use loxbak.Tests.Requests.{backend, server}
use loxbak.Tests.Runs.{outside, world}

abbrev page : List RunResponse
page =
    (record {
      id = 1;
      schedule_id = some 1;
      started_at = 10;
      finished_at = none;
      status = running;
      size_bytes = none;
      error = [];
      destinations = [];
    })
    ∷ []

answered : (handle_list_runs absent (value (pos 1)) absent server).0 ≡ respond 200 (runs page)
unfolding handle_list_runs run_responses list_runs world list_run_destination_results
answered = refl

handle_list_runs_bounds_example : (0 < 1) × (length page ≤ 1)
handle_list_runs_bounds_example =
    handle_list_runs_bounds absent (value (pos 1)) absent server page answered

-- A destination of the kind of `outside`, with what is stored there: archives of two days.
abbrev stocked : Destination (List Text)
stocked = record {
  name = [];
  store = λ meta content s. (ok tt, s);
  lister = some (record {
    list = λ s. (
      ok (
          record { filename = archive_filename (b'd' ∷ []) (on_day 4); size = 3; mod_time = 0 }
          ∷ record { filename = archive_filename (b'd' ∷ []) (on_day 7); size = 3; mod_time = 0 }
          ∷ []),
      s,
    );
    delete = λ f s. (ok tt, s);
  });
  reader = none;
}

abbrev stocked_backend : Backend (List Text)
stocked_backend = record backend {
  outside = record outside { build = λ type name config secret. ok stocked };
}

abbrev shown_backup : ℕ → ℕ → BackupEntryResponse
shown_backup dest d = record {
  destination_id = dest;
  filename = archive_filename (b'd' ∷ []) (on_day d);
  size_bytes = 3;
  schedule_id = some 1;
  started_at = d;
  finished_at = none;
  downloadable = false;
}

abbrev all_shown : List BackupEntryResponse
all_shown = shown_backup 2 7 ∷ shown_backup 1 7 ∷ shown_backup 2 4 ∷ shown_backup 1 4 ∷ []

all_listed :
    (handle_list_backups (λ t. t.day) stocked_backend server).0 ≡ respond 200 (backups all_shown)
unfolding handle_list_backups list_destinations world list_schedules parse_archive_timestamp
    find_run_info_by_destination_and_filename archive_filename sanitize_name format_stamp
    archive_prefix has_prefix
all_listed = refl

handle_list_backups_complete_example :
    NewestStarted all_shown
    × ((rows : List Db.Destination) × (found : List BackupEntryResponse) × ((list_destinations
            server.world.db).0
          ≡ ok rows)
        × Perm all_shown found
        × (map shown found ≡ shelves (λ t. t.day) stocked_backend rows server.world.outside))
handle_list_backups_complete_example =
    handle_list_backups_complete (λ t. t.day) stocked_backend server all_shown all_listed
