-- ===== src/Db/Writes.antt =====
-- Properties of the tables that every write of internal/db keeps.
use loxbak.Base.{ℕ, Bool, Option, List}
use loxbak.Base.Int.{ℤ}
use loxbak.Base.Text.{Text}
use loxbak.Db.{ScheduleDestination, Status, Tables, Db}
use loxbak.Db.Calls.{Call, perform}
use loxbak.Db.Credentials.{upsert_credential}
use loxbak.Db.Destinations.{create_destination, update_destination, delete_destination}
use loxbak.Db.Runs.{
  create_run, finish_run, create_run_destination_result, delete_run_destination_result_by_filename,
}
use loxbak.Db.Schedules.{
  create_schedule, update_schedule, delete_schedule, set_schedule_destinations,
}
use loxbak.Db.Sessions.{create_session, delete_session}
use loxbak.Db.Sql.{Keeps}

pub record Writes (P : Tables → Type 0) : Type 0 where
  pub calls : (c : Call) (d : Db) → P d.tables → P (perform c d).tables
  pub upserts :
      (host : Text) (port : ℤ) (user blob : Text) → Keeps P (upsert_credential host port user blob)
  pub logs_in : (id : Text) (expires : ℕ) → Keeps P (create_session id expires)
  pub logs_out : (id : Text) → Keeps P (delete_session id)

-- The calls one by one.
module _ (P : Tables → Type 0) (writes : Writes P) where
  open writes use {calls}

  pub creates_schedule : (n c : Text) (e : Bool) → Keeps P (create_schedule n c e)
  unfolding perform
  creates_schedule n c e = calls (Call.create_schedule n c e)

  pub updates_schedule : (i : ℕ) (n c : Text) (e : Bool) → Keeps P (update_schedule i n c e)
  unfolding perform
  updates_schedule i n c e = calls (Call.update_schedule i n c e)

  pub deletes_schedule : (i : ℕ) → Keeps P (delete_schedule i)
  unfolding perform
  deletes_schedule i = calls (Call.delete_schedule i)

  pub sets_links :
      (i : ℕ) (ls : List ScheduleDestination) → Keeps P (set_schedule_destinations i ls)
  unfolding perform
  sets_links i ls = calls (Call.set_schedule_destinations i ls)

  pub creates_destination : (n y c s : Text) → Keeps P (create_destination n y c s)
  unfolding perform
  creates_destination n y c s = calls (Call.create_destination n y c s)

  pub updates_destination : (i : ℕ) (n y c s : Text) → Keeps P (update_destination i n y c s)
  unfolding perform
  updates_destination i n y c s = calls (Call.update_destination i n y c s)

  pub deletes_destination : (i : ℕ) → Keeps P (delete_destination i)
  unfolding perform
  deletes_destination i = calls (Call.delete_destination i)

  pub creates_run : (s : Option ℕ) (at : ℕ) → Keeps P (create_run s at)
  unfolding perform
  creates_run s at = calls (Call.create_run s at)

  pub finishes_run :
      (i at : ℕ) (st : Status) (z : Option ℕ) (f e : Text) → Keeps P (finish_run i at st z f e)
  unfolding perform
  finishes_run i at st z f e = calls (Call.finish_run i at st z f e)

  pub records_result :
      (r : ℕ) (i : Option ℕ) (st : Status) (z : Option ℕ) (e : Text)
      → Keeps P (create_run_destination_result r i st z e)
  unfolding perform
  records_result r i st z e = calls (Call.create_run_destination_result r i st z e)

  pub forgets_result : (i : ℕ) (f : Text) → Keeps P (delete_run_destination_result_by_filename i f)
  unfolding perform
  forgets_result i f = calls (Call.delete_run_destination_result_by_filename i f)
