-- ===== src/Db.antt =====
-- The database (internal/db and its migrations): the rows, the tables, and the two ways in which
-- the package runs SQL. A statement may fail (`fails`, by the number of the statement), and then
-- changes nothing; a statement that breaks a constraint of the schema fails too.
pub mod Sql
pub mod Settings
pub mod Sessions
pub mod Credentials
pub mod Destinations
pub mod Schedules
pub mod Runs
pub mod Consistency
pub mod Calls
pub mod Writes
pub mod Replacing
pub mod Numbering
pub mod Paging
pub mod Accounts
pub mod Integrity
pub mod Reads
pub mod Links
pub mod Upserts
pub mod History
pub mod Migrations
pub mod Versions
pub mod Upgrades
pub mod Opening
use loxbak.Base.{ℕ, suc, Bool, Option, List, [], Error, Result}
use loxbak.Base.Int.{ℤ}
use loxbak.Base.Text.{Text}

-- A row of `sessions`. A time is a number of seconds.
pub record Session : Type 0 where
  pub id : Text
  pub created_at : ℕ
  pub expires_at : ℕ

-- A row of `loxone_credential`.
pub record LoxoneCredential : Type 0 where
  pub id : ℕ
  pub host : Text
  pub port : ℤ
  pub username : Text
  pub encrypted_password : Text
  pub updated_at : ℕ

-- A row of `destinations`. The secret is empty where the column is NULL.
pub record Destination : Type 0 where
  pub id : ℕ
  pub name : Text
  pub type : Text
  pub config_json : Text
  pub encrypted_secret : Text
  pub created_at : ℕ
  pub updated_at : ℕ

-- A row of `schedules`.
pub record Schedule : Type 0 where
  pub id : ℕ
  pub name : Text
  pub cron_expr : Text
  pub enabled : Bool
  pub created_at : ℕ
  pub updated_at : ℕ

-- A row of `schedule_destinations`.
pub record ScheduleDestination : Type 0 where
  pub id : ℕ
  pub schedule_id : ℕ
  pub destination_id : ℕ
  pub retention_count : ℤ

-- The values that the CHECK constraint of `runs.status` allows.
pub data Status : Type 0 where
  running success partial failed : Status

-- A row of `runs`.
pub record Run : Type 0 where
  pub id : ℕ
  pub schedule_id : Option ℕ
  pub started_at : ℕ
  pub finished_at : Option ℕ
  pub status : Status
  pub size_bytes : Option ℕ
  pub error : Option Text
  pub filename : Option Text

-- A row of `run_destination_results`.
pub record RunDestinationResult : Type 0 where
  pub id : ℕ
  pub run_id : ℕ
  pub destination_id : Option ℕ
  pub status : Status
  pub size_bytes : Option ℕ
  pub error : Option Text

-- The tables, each in the order of its ids, and the next id of each AUTOINCREMENT column.
pub record Tables : Type 0 where
  pub settings : List (Text × Text)
  pub sessions : List Session
  pub credentials : List LoxoneCredential
  pub destinations : List Destination
  pub schedules : List Schedule
  pub links : List ScheduleDestination
  pub runs : List Run
  pub results : List RunDestinationResult
  pub next_credential : ℕ
  pub next_destination : ℕ
  pub next_schedule : ℕ
  pub next_link : ℕ
  pub next_run : ℕ
  pub next_result : ℕ

-- The connection: the tables, the number of statements run so far, which statements fail, what the clock shows
-- at each, and whether `PRAGMA foreign_keys` is on. The functions of the package are modelled as they work where it
-- is, on the connection that `Open` returns.
pub record Db : Type 0 where
  pub tables : Tables
  pub step : ℕ
  pub fails : ℕ → Bool
  pub clock : ℕ → ℕ
  pub foreign_keys : Bool

abbrev pub M : Type 0 → Type 0
M A = Db → Result A × Db

abbrev pub empty_tables : Tables
empty_tables = record {
  settings = [];
  sessions = [];
  credentials = [];
  destinations = [];
  schedules = [];
  links = [];
  runs = [];
  results = [];
  next_credential = 1;
  next_destination = 1;
  next_schedule = 1;
  next_link = 1;
  next_run = 1;
  next_result = 1;
}
