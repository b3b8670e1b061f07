-- ===== src/Db/Reads.antt =====
-- The calls that only read leave every table as it is.
use loxbak.Base.{ℕ, ◌≡◌, Option, arith}
use loxbak.Base.Text.{Text}
use loxbak.Db.{Db}
use loxbak.Db.Credentials.{get_credential}
use loxbak.Db.Destinations.{list_destinations, get_destination}
use loxbak.Db.Runs.{
  get_run, list_runs, list_run_destination_results, find_run_info_by_destination_and_filename,
}
use loxbak.Db.Schedules.{list_schedules, get_schedule, list_schedule_destinations}
use loxbak.Db.Sessions.{get_session}

pub get_credential-tables : (d : Db) → (get_credential d).1.tables ≡ d.tables
unfolding get_credential
get_credential-tables d = ground arith

pub get_destination-tables : (id : ℕ) (d : Db) → (get_destination id d).1.tables ≡ d.tables
unfolding get_destination
get_destination-tables id d = ground arith

pub get_schedule-tables : (id : ℕ) (d : Db) → (get_schedule id d).1.tables ≡ d.tables
unfolding get_schedule
get_schedule-tables id d = ground arith

pub list_schedule_destinations-tables :
    (id : ℕ) (d : Db) → (list_schedule_destinations id d).1.tables ≡ d.tables
unfolding list_schedule_destinations
list_schedule_destinations-tables id d = ground arith

pub list_schedules-tables : (d : Db) → (list_schedules d).1.tables ≡ d.tables
unfolding list_schedules
list_schedules-tables d = ground arith

pub list_destinations-tables : (d : Db) → (list_destinations d).1.tables ≡ d.tables
unfolding list_destinations
list_destinations-tables d = ground arith

pub get_run-tables : (id : ℕ) (d : Db) → (get_run id d).1.tables ≡ d.tables
unfolding get_run
get_run-tables id d = ground arith

pub list_runs-tables :
    (schedule_id : Option ℕ) (limit offset : ℕ) (d : Db)
    → (list_runs schedule_id limit offset d).1.tables ≡ d.tables
unfolding list_runs
list_runs-tables schedule_id limit offset d = ground arith

pub list_run_destination_results-tables :
    (run_id : ℕ) (d : Db) → (list_run_destination_results run_id d).1.tables ≡ d.tables
unfolding list_run_destination_results
list_run_destination_results-tables run_id d = ground arith

pub find_run_info-tables :
    (destination_id : ℕ) (filename : Text) (d : Db)
    → (find_run_info_by_destination_and_filename destination_id filename d).1.tables ≡ d.tables
unfolding find_run_info_by_destination_and_filename
find_run_info-tables destination_id filename d = ground arith

pub get_session-tables : (id : Text) (d : Db) → (get_session id d).1.tables ≡ d.tables
unfolding get_session
get_session-tables id d = ground arith
