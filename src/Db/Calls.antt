-- ===== src/Db/Calls.antt =====
-- The writes of internal/db as one vocabulary, one by one and in sequence.
use loxbak.Base.{ℕ, Bool, Option, List, [], ◌∷◌}
use loxbak.Base.Text.{Text}
use loxbak.Db.{ScheduleDestination, Status, Db}
use loxbak.Db.Destinations
use loxbak.Db.Schedules
use loxbak.Db.Runs
use loxbak.Db.Consistency.{
  IsConsistent, create_schedule-Keeps, update_schedule-Keeps, create_destination-Keeps,
  update_destination-Keeps, create_run-Keeps, finish_run-Keeps, create_run_destination_result-Keeps,
}
use loxbak.Db.Consistency.Deletes.{
  delete_schedule-Keeps, delete_destination-Keeps, delete_run_destination_result_by_filename-Keeps,
  set_schedule_destinations-Keeps,
}

-- A call of one of the functions of the package that write the tables joined by foreign keys.
pub data Call : Type 0 where
  create_schedule : Text → Text → Bool → Call
  update_schedule : ℕ → Text → Text → Bool → Call
  delete_schedule : ℕ → Call
  set_schedule_destinations : ℕ → List ScheduleDestination → Call
  create_destination : Text → Text → Text → Text → Call
  update_destination : ℕ → Text → Text → Text → Text → Call
  delete_destination : ℕ → Call
  create_run : Option ℕ → ℕ → Call
  finish_run : ℕ → ℕ → Status → Option ℕ → Text → Text → Call
  create_run_destination_result : ℕ → Option ℕ → Status → Option ℕ → Text → Call
  delete_run_destination_result_by_filename : ℕ → Text → Call

-- The database after a call, whatever the call returned.
unfoldable pub perform : Call → Db → Db
unfolding Schedules.create_schedule Schedules.update_schedule Schedules.delete_schedule
    Schedules.set_schedule_destinations Destinations.create_destination
    Destinations.update_destination Destinations.delete_destination Runs.create_run Runs.finish_run
    Runs.create_run_destination_result Runs.delete_run_destination_result_by_filename
perform (create_schedule n c e) d = (Schedules.create_schedule n c e d).1
perform (update_schedule i n c e) d = (Schedules.update_schedule i n c e d).1
perform (delete_schedule i) d = (Schedules.delete_schedule i d).1
perform (set_schedule_destinations i ls) d = (Schedules.set_schedule_destinations i ls d).1
perform (create_destination n y c s) d = (Destinations.create_destination n y c s d).1
perform (update_destination i n y c s) d = (Destinations.update_destination i n y c s d).1
perform (delete_destination i) d = (Destinations.delete_destination i d).1
perform (create_run s a) d = (Runs.create_run s a d).1
perform (finish_run i a st z f e) d = (Runs.finish_run i a st z f e d).1
perform (create_run_destination_result r i st z e) d =
    (Runs.create_run_destination_result r i st z e d).1
perform (delete_run_destination_result_by_filename i f) d =
    (Runs.delete_run_destination_result_by_filename i f d).1

unfoldable pub perform_all : List Call → Db → Db
unfolding perform
perform_all [] d = d
perform_all (c ∷ cs) d = perform_all cs (perform c d)

pub perform-IsConsistent :
    (c : Call) (d : Db) → IsConsistent d.tables → IsConsistent (perform c d).tables
unfolding perform
perform-IsConsistent (create_schedule n c e) = create_schedule-Keeps n c e
perform-IsConsistent (update_schedule i n c e) = update_schedule-Keeps i n c e
perform-IsConsistent (delete_schedule i) = delete_schedule-Keeps i
perform-IsConsistent (set_schedule_destinations i ls) = set_schedule_destinations-Keeps i ls
perform-IsConsistent (create_destination n y c s) = create_destination-Keeps n y c s
perform-IsConsistent (update_destination i n y c s) = update_destination-Keeps i n y c s
perform-IsConsistent (delete_destination i) = delete_destination-Keeps i
perform-IsConsistent (create_run s a) = create_run-Keeps s a
perform-IsConsistent (finish_run i a st z f e) = finish_run-Keeps i a st z f e
perform-IsConsistent (create_run_destination_result r i st z e) =
    create_run_destination_result-Keeps r i st z e
perform-IsConsistent (delete_run_destination_result_by_filename i f) =
    delete_run_destination_result_by_filename-Keeps i f
