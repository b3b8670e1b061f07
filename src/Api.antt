-- ===== src/Api.antt =====
-- The HTTP API (internal/api): what a request may bring, what a response holds, and how handlers
-- chain calls. The body of a request is the decoded value, or `none` where decoding fails; a path
-- value that is not a number is `none`.
pub mod Auth
pub mod Schedules
pub mod Destinations
pub mod Runs
pub mod Backups
pub mod Listing
pub mod Router
pub mod Rules
pub mod Pages
pub mod Routes
pub mod Newest
pub mod Shelves
pub mod Headers
pub mod Logins
pub mod Guards
pub mod Purges
pub mod Stale
pub mod Stored
pub mod Created
use loxbak.Base.{
  ℕ, Bool, true, false, Option, none, some, List, Error, Result, ok, err, if◌then◌else◌,
}
use loxbak.Base.Int.{ℤ}
use loxbak.Base.Text.{Text, txt}
use loxbak.Db.{Db, M, Status}
use loxbak.Scheduler.Cron.{Cron, Entries, reload}
use loxbak.Scheduler.World.{Outside, World, R, on_db}

pub record ScheduleDestinationInput : Type 0 where
  pub destination_id : ℕ
  pub retention_count : ℤ

pub record ScheduleResponse : Type 0 where
  pub id : ℕ
  pub name : Text
  pub cron_expr : Text
  pub enabled : Bool
  pub destinations : List ScheduleDestinationInput

pub record DestinationResponse : Type 0 where
  pub id : ℕ
  pub name : Text
  pub type : Text
  pub config_json : Text
  pub has_secret : Bool

pub record RunDestinationResultResponse : Type 0 where
  pub id : ℕ
  pub destination_id : Option ℕ
  pub status : Status
  pub size_bytes : Option ℕ
  pub error : Text

pub record RunResponse : Type 0 where
  pub id : ℕ
  pub schedule_id : Option ℕ
  pub started_at : ℕ
  pub finished_at : Option ℕ
  pub status : Status
  pub size_bytes : Option ℕ
  pub error : Text
  pub destinations : List RunDestinationResultResponse

-- An archive at a destination.
pub record BackupEntryResponse : Type 0 where
  pub destination_id : ℕ
  pub filename : Text
  pub size_bytes : ℕ
  pub schedule_id : Option ℕ
  pub started_at : ℕ
  pub finished_at : Option ℕ
  pub downloadable : Bool

pub data Body : Type 0 where
  empty : Body
  raw : Text → Body
  failure : Text → Body
  me : (host username : Text) → Body
  one_schedule : ScheduleResponse → Body
  schedules : List ScheduleResponse → Body
  one_destination : DestinationResponse → Body
  destinations : List DestinationResponse → Body
  one_run : RunResponse → Body
  runs : List RunResponse → Body
  backups : List BackupEntryResponse → Body
  archive : (filename content : Text) → Body

-- `cookie` is the value of the session cookie that the response sets; clearing it is the empty one.
pub record Response : Type 0 where
  pub status : ℕ
  pub body : Body
  pub cookie : Option Text

abbrev pub respond : ℕ → Body → Response
respond status body = record { status = status; body = body; cookie = none }

abbrev pub failed_with : ℕ → Text → Response
failed_with status text = respond status (failure text)

-- What the server is given: the outside of its runs, `ftp.Validate`, `rand.Reader` (which is asked for a
-- number of bytes), HMAC-SHA256, the session key and the cron library.
pub record Backend (E : Type 0) : Type 0 where
  pub outside : Outside E
  pub validate : Text → ℤ → Text → Text → E → Result (Unit {0}) × E
  pub random : ℕ → E → Result Text × E
  pub hmac : Text → Text → Text
  pub session_key : Text
  pub cron : Cron E

pub record Server (E : Type 0) : Type 0 where
  pub world : World E
  pub entries : Entries

abbrev pub Handler : Type 0 → Type 0
Handler E = Server E → Response × Server E

module _ {E : Type 0} where
  abbrev pub answer : Response → Handler E
  answer resp s = (resp, s)

  abbrev pub check : Bool → Response → Handler E → Handler E
  check good bad next s = if good then next s else (bad, s)

  abbrev pub given : {A : Type 0} → Option A → Response → (A → Handler E) → Handler E
  given none bad next s = (bad, s)
  given (some a) bad next s = next a s

  abbrev pub branch : {A : Type 0} → Result A → (Error → Response) → (A → Handler E) → Handler E
  branch (ok a) bad next s = next a s
  branch (err e) bad next s = (bad e, s)

  -- A call whose error ends the request.
  abbrev pub call : {A : Type 0} → R E A → (Error → Response) → (A → Handler E) → Handler E
  call m bad next s = let (r, w) = m s.world in branch r bad next (record s { world = w })

  -- A call whose outcome the handler looks at itself.
  abbrev pub look : {A : Type 0} → R E A → (Result A → Handler E) → Handler E
  look m next s = let (r, w) = m s.world in next r (record s { world = w })

  module _ (b : Backend E) where
    -- A failure to reload is logged only.
    unfoldable pub reload_scheduler : Server E → Server E
    unfolding reload
    reload_scheduler s =
        let ((r, entries), w) = reload b.cron s.entries s.world in
        record { world = w; entries = entries }
